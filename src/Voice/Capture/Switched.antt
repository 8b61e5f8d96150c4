-- ===== src/Voice/Capture/Switched.antt =====
-- The microphone follows the default device
-- (addon/extensions/task_force_radio_pipe/src/Voice/WasapiCaptureEngine.cpp: the loop of
-- runDeviceSession).
use task_force_radio_standal.Resource.{◌>>=◌, ◌>>◌}
use mathlib.Core.Path.{fun_ext}
use task_force_radio_standal.Base.{
  All, Text, ℕ, ◌+◌, ◌≤◌, ◌<◌, ◌≡◌, refl, ap, ◌⊎◌, inl, inr, Bool, true, some, List, [], ◌∷◌, ◌++◌,
}
use task_force_radio_standal.Float.{Float}
use task_force_radio_standal.Resource.{event_handle, uses, return, say}
use task_force_radio_standal.Resource.Values.{loop-same}
use task_force_radio_standal.Voice.Device.{check_interval, check_device, Format}
use task_force_radio_standal.Voice.Device.Loop.{feed, go_on}
use task_force_radio_standal.Voice.Device.Switched.{IsOther, check_device-cases, check_device-due}
use task_force_radio_standal.Voice.Capture.{Capture}
use task_force_radio_standal.Voice.Capture.Session.{Turn, serve_wait, capture_loop}

module _ (fl : Float) where
  -- From `since` on the poll finds another default device than the session's.
  abbrev pub ShowsOther : Text → ℕ → Turn fl → Type 0
  ShowsOther name since turn = since ≤ turn.now → IsOther name turn.default

  -- A turn that leaves the loop, or one behind which both go on alike.
  turn-same :
      (fuel : ℕ) (format : Format) (name : Text) (last : ℕ) (turn : Turn fl)
      (turns turns' : List (Turn fl)) (c : Capture fl)
      → ((frames : List (List fl.F)) (c' : Capture fl)
          → (switched : Bool) × (last' : ℕ) × ((check_device name turn.now last turn.default).1
              ≡ some (switched, last'))
            × ((switched ≡ true)
                ⊎ (capture_loop fl fuel format name last' turns c'
                    ≡ capture_loop fl fuel format name last' turns' c')))
      → capture_loop fl fuel format name last (turn ∷ turns) c
        ≡ capture_loop fl fuel format name last (turn ∷ turns') c
  unfolding capture_loop
  turn-same fuel format name last turn turns turns' c h =
      ap
        (λ k.
          say (uses event_handle ∷ [])
          >> (serve_wait fl fuel format turn.wait c >>= λ served. go_on served k))
        (fun_ext λ frames. fun_ext λ c'.
          let (switched, last', found, same) = h frames c' in
          loop-same (check_device name turn.now last turn.default) (some (frames, c'))
            (λ last'.
              capture_loop fl fuel format name last' turns c' >>= λ fed. return (feed frames fed))
            (λ last'.
              capture_loop fl fuel format name last' turns' c' >>= λ fed. return (feed frames fed))
            found
            (elim same [
              | inl left ↦ inl left
              | inr alike ↦ inr (ap (λ m. m >>= λ fed. return (feed frames fed)) alike)
            ]))

  -- A switch of the default microphone is noticed within a second: where the poll finds another
  -- device from `since` on, which is behind the last look before the loop, a turn at least a second
  -- after `since` is the last of the session: it goes on as if the thread were asked to stop there,
  -- if it has not ended before, and whatever comes behind it is not looked at.
  pub device_switch_is_noticed :
      (fuel : ℕ) (format : Format) (name : Text) (since last : ℕ) (before : List (Turn fl))
      (turn : Turn fl) (later : List (Turn fl)) (c : Capture fl)
      → last < since
      → All (ShowsOther name since) before
      → since + check_interval ≤ turn.now
      → IsOther name turn.default
      → capture_loop fl fuel format name last (before ++ turn ∷ later) c
        ≡ capture_loop fl fuel format name last (before ++ turn ∷ []) c
  device_switch_is_noticed fuel format name since last [] turn later c early shown late other =
      turn-same fuel format name last turn later [] c λ frames c'. (
        true,
        turn.now,
        check_device-due name since turn.now last turn.default early late other,
        inl refl,
      )
  device_switch_is_noticed fuel format name since last (u ∷ before) turn later c early shown late
        other =
      turn-same fuel format name last u (before ++ turn ∷ later) (before ++ turn ∷ []) c
        λ frames c'.
          let (switched, last', found, cases) =
            check_device-cases name since u.now last u.default early shown.0 in
          (
            switched,
            last',
            found,
            elim cases [
              | inl left ↦ inl left
              | inr early' ↦ inr (
                  device_switch_is_noticed fuel format name since last' before turn later c' early'
                    shown.1 late other)
            ],
          )
