-- ===== src/Voice/Workers/Restarted.antt =====
-- The threads of the voice path behind any starts and stops
-- (addon/extensions/task_force_radio_pipe/src/Voice: start and stop of VoiceSession.cpp and of what
-- it owns).
use task_force_radio_standal.Base.{
  Bool-cases, if_keeps, ◌≡◌, refl, sym, ◌∙◌, inl, inr, Bool, true, false, ◌&&◌, some, List, [], ◌∷◌,
}
use task_force_radio_standal.Voice.Workers.{
  DeviceWorker, live_device, start_device, stop_device, NetworkWorker, start_network, stop_network,
  Workers, new_workers, start_session, stop_session, SessionCall, starts, stops, run_session,
}

-- Whether the devices are to run behind the calls, and whether the network is: it is started once,
-- and a stop is its end.
abbrev pub runs_after : Bool → List SessionCall → Bool
runs_after up [] = up
runs_after up (starts ∷ calls) = runs_after true calls
runs_after up (stops ∷ calls) = runs_after false calls

abbrev pub stays_up : List SessionCall → Bool
stays_up [] = true
stays_up (starts ∷ calls) = stays_up calls
stays_up (stops ∷ calls) = false

abbrev pub runs_first : List SessionCall → Bool
runs_first [] = false
runs_first (starts ∷ calls) = stays_up calls
runs_first (stops ∷ calls) = runs_first calls

-- A thread is joinable as long as it is to run.
abbrev pub DeviceOk : Bool → DeviceWorker → Type 0
DeviceOk up w = (w.running ≡ up) × (w.joinable ≡ up)

-- What becomes of a network thread: started, and running.
abbrev pub network_up : Bool → Bool → List SessionCall → Bool
network_up false up calls = runs_first calls
network_up true up calls = up && stays_up calls

start_device-Ok :
    (up : Bool) (w : DeviceWorker)
    → DeviceOk up w
    → (w' : DeviceWorker) × (start_device w ≡ some w') × DeviceOk true w'
unfolding start_device
start_device-Ok up w (runs, joins) = elim (Bool-cases w.running) [
  | inl on ↦ (w, rw on refl, (on, joins ∙ sym runs ∙ on))
  | inr off ↦ (live_device, rw (off, joins ∙ sym runs ∙ off) refl, (refl, refl))
]

stop_device-Ok : (up : Bool) (w : DeviceWorker) → DeviceOk up w → DeviceOk false (stop_device w)
unfolding stop_device
stop_device-Ok up w (runs, joins) =
    if_keeps (λ (r : DeviceWorker). DeviceOk false r) w.running (λ _. (refl, refl))
      (λ off. (off, joins ∙ sym runs ∙ off))

start_network-Ok :
    (w : NetworkWorker) (calls : List SessionCall)
    → w.joinable ≡ w.running
    → (w.started ≡ false → w.running ≡ false)
    → (w' : NetworkWorker) × (start_network w ≡ some w')
      × (w'.joinable ≡ w'.running)
      × (w'.started ≡ true)
      × (network_up w'.started w'.running calls ≡ network_up w.started w.running (starts ∷ calls))
unfolding start_network
start_network-Ok w calls joins fresh = elim (Bool-cases w.started) [
  | inl started ↦ (w, rw started refl, joins, started, rw started refl)
  | inr new ↦ (
    record { started = true; running = true; joinable = true },
    rw (new, joins ∙ fresh new) refl,
    refl,
    refl,
    rw new refl,
  )
]

-- The state from which the calls go on.
record IsSound (up : Bool) (w : Workers) : Type 0 where
  pub playback : DeviceOk up w.playback
  pub capture : DeviceOk up w.capture
  pub joins : w.network.joinable ≡ w.network.running
  pub fresh : w.network.started ≡ false → w.network.running ≡ false

start_session-IsSound :
    (up : Bool) (w : Workers) (calls : List SessionCall)
    → IsSound up w
    → (w' : Workers) × (start_session w ≡ some w')
      × IsSound true w'
      × (network_up w'.network.started w'.network.running calls
          ≡ network_up w.network.started w.network.running (starts ∷ calls))
unfolding start_session
start_session-IsSound up w calls h =
    let (p, p_is, p_ok) = start_device-Ok up w.playback h.playback in
    let (n, n_is, joins, started, told) = start_network-Ok w.network calls h.joins h.fresh in
    let (c, c_is, c_ok) = start_device-Ok up w.capture h.capture in
    (
      record { playback = p; network = n; capture = c },
      rw (p_is, start_session, n_is, c_is) refl,
      record {
        playback = p_ok;
        capture = c_ok;
        joins = joins;
        fresh = λ new. absurd (cc (started, new));
      },
      told,
    )

and_false : (b : Bool) → b && false ≡ false
and_false true = refl
and_false false = refl

and_true : (b : Bool) → b && true ≡ b
and_true true = refl
and_true false = refl

stop_session-IsSound :
    (up : Bool) (w : Workers) (calls : List SessionCall)
    → IsSound up w
    → IsSound false (stop_session w)
      × (network_up (stop_session w).network.started (stop_session w).network.running calls
          ≡ network_up w.network.started w.network.running (stops ∷ calls))
unfolding stop_session stop_network
stop_session-IsSound up w calls h = (
  record {
    playback = stop_device-Ok up w.playback h.playback;
    capture = stop_device-Ok up w.capture h.capture;
    joins = refl;
    fresh = λ new. refl;
  },
  elim (Bool-cases w.network.started) [
    | inl started ↦ rw started (sym (and_false w.network.running))
    | inr new ↦ rw new refl
  ],
)

run_session-IsSound :
    (calls : List SessionCall) (up : Bool) (w : Workers)
    → IsSound up w
    → (w' : Workers) × (run_session calls w ≡ some w')
      × IsSound (runs_after up calls) w'
      × (w'.network.running ≡ network_up w.network.started w.network.running calls)
unfolding run_session
run_session-IsSound [] up w h = (
  w,
  refl,
  h,
  elim (Bool-cases w.network.started) [
    | inl started ↦ rw started (sym (and_true w.network.running))
    | inr new ↦ rw new (h.fresh new)
  ],
)
run_session-IsSound (starts ∷ calls) up w h =
    let (w1, started, h1, told) = start_session-IsSound up w calls h in
    let (w', done, h', running) = run_session-IsSound calls true w1 h1 in
    (w', rw (started, run_session) done, h', running ∙ told)
run_session-IsSound (stops ∷ calls) up w h =
    let (h1, told) = stop_session-IsSound up w calls h in
    let (w', done, h', running) = run_session-IsSound calls false (stop_session w) h1 in
    (w', done, h', running ∙ told)

-- Behind any starts and stops of the session, one after the other, no thread was assigned over one
-- that is joinable, and each thread is joinable as long as it runs. The microphone and the speaker
-- run where the last call is a start; the network runs only where it was started and no stop came
-- after its first start, so that a session that is started anew has no network.
pub restarted_session :
    (calls : List SessionCall)
    → (w : Workers) × (run_session calls new_workers ≡ some w)
      × DeviceOk (runs_after false calls) w.playback
      × DeviceOk (runs_after false calls) w.capture
      × (w.network.running ≡ runs_first calls)
      × (w.network.joinable ≡ w.network.running)
restarted_session calls =
    let sound : IsSound false new_workers = record {
      playback = (refl, refl);
      capture = (refl, refl);
      joins = refl;
      fresh = λ new. refl;
    } in
    let (w, done, h, running) = run_session-IsSound calls false new_workers sound in
    (w, done, h.playback, h.capture, running, h.joins)
