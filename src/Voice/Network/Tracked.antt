-- ===== src/Voice/Network/Tracked.antt =====
-- The socket of a handshake
-- (addon/extensions/task_force_radio_pipe/src/Voice/VoiceNetworkClient.cpp: tryHandshake).
use task_force_radio_standal.Resource.{◌>>◌}
use task_force_radio_standal.Base.{
  if◌then◌else◌, Bool-cases, if_keeps, Text, ℕ, zero, suc, ◌≡◌, refl, ap, ◌∙◌, ◌⊎◌, inl, inr, Bool,
  true, false, ◌&&◌, Option, none, some, List, [], ◌∷◌, map,
}
use task_force_radio_standal.Resource.{
  Resource, udp_socket, Call, uses, follow, Run, return, say, break_if, attempt,
}
use task_force_radio_standal.Resource.Values.{>>=-gives, say-gives}
use task_force_radio_standal.Voice.Network.Handshake.{
  Attempt, answered, Reply, accepted, rejected, no_reply, await_reply, try_attempts,
}
use task_force_radio_standal.Voice.Network.Socket.{
  resolve_and_open_socket, Try, is_open, attempt_of, is_reply, has_opened, await_on, try_sockets,
}
use task_force_radio_standal.Voice.Network.Owned.{
  sockets, resolve_and_open_socket-Runs, resolve_and_open_socket-opens, Tracks, return-Tracks,
  then-Tracks, break_if-Tracks,
}

await_on-Tracks :
    (b : Bool) (t : Try) (next : Bool → Run Bool) (held : List Resource)
    → ((has_socket : Bool) → Tracks (next has_socket) has_socket held)
    → Tracks (await_on b t next) b held
unfolding await_on
await_on-Tracks false t next held h = h false
await_on-Tracks true t next held h =
    let asked : List Call = uses udp_socket ∷ (if t.is_sent then uses udp_socket ∷ [] else []) in
    let heard : follow asked (sockets true held) ≡ some (sockets true held) =
      unfold follow in
      (if_keeps (λ (calls : List Call). follow calls (sockets true held) ≡ some (sockets true held))
        t.is_sent (λ _. refl) (λ _. refl)) in
    unfold ◌>>◌ in
    (then-Tracks (say asked) tt _ true true held (unfold say in refl) (unfold say in heard)
      (break_if-Tracks (t.is_sent && is_reply (await_reply t.datagrams)) (next true) held (h true)))

opened-sockets :
    (o : Option (Unit {0})) (held : List Resource)
    → (elim o [ none ↦ held | some u ↦ sockets true held ]) ≡ sockets (has_opened o) held
opened-sockets none held = refl
opened-sockets (some u) held = refl

pub try_sockets-Tracks :
    (left : ℕ) (tries : List Try) (has_socket : Bool) (held : List Resource)
    → Tracks (try_sockets left tries has_socket) has_socket held
unfolding try_sockets
try_sockets-Tracks zero tries has_socket held = return-Tracks has_socket held
try_sockets-Tracks (suc left) [] has_socket held = return-Tracks has_socket held
try_sockets-Tracks (suc left) (t ∷ tries) has_socket held =
    let m = resolve_and_open_socket t.answers has_socket in
    let opened = resolve_and_open_socket-Runs t.answers has_socket held in
    then-Tracks (attempt m) m.1 _ has_socket (has_opened m.1) held (unfold attempt in refl)
      (unfold attempt in (opened.follows ∙ ap some (opened-sockets m.1 held)))
      (await_on-Tracks (has_opened m.1) t (try_sockets left tries) held
        λ has_socket'. try_sockets-Tracks left tries has_socket' held)

-- The answer to a request, by what was heard.
answered-reply :
    (r : Reply) (left : ℕ) (request : Text) (datagrams : List Text) (attempts : List Attempt)
    → await_reply datagrams ≡ r
    → (is_reply r ≡ true)
      ⊎ ((try_attempts (suc left) request (answered datagrams ∷ attempts)).1
          ≡ (try_attempts left request attempts).1)
unfolding try_attempts
answered-reply (accepted a) left request datagrams attempts e = inl refl
answered-reply (rejected reason) left request datagrams attempts e = inl refl
answered-reply no_reply left request datagrams attempts e = inr (rw (e, try_attempts) refl)

-- An attempt that is answered, or the rest.
attempt-reply :
    (t : Try) (left : ℕ) (request : Text) (attempts : List Attempt)
    → ((is_open t.answers && (t.is_sent && is_reply (await_reply t.datagrams))) ≡ true)
      ⊎ ((try_attempts (suc left) request (attempt_of t ∷ attempts)).1
          ≡ (try_attempts left request attempts).1)
attempt-reply t left request attempts = elim (Bool-cases (is_open t.answers)) [
  | inr shut ↦ inr (rw shut (unfold try_attempts in refl))
  | inl opened ↦ elim (Bool-cases t.is_sent) [
    | inr unsent ↦ inr (rw (opened, unsent) (unfold try_attempts in refl))
    | inl is_sent ↦
        elim (answered-reply (await_reply t.datagrams) left request t.datagrams attempts refl) [
          | inl replied ↦ inl (rw (opened, is_sent, replied) refl)
          | inr later ↦ inr (rw (opened, is_sent) later)
        ]
  ]
]

break_if-replied :
    (b : Bool) (rest : Run Bool) → rest.1 ≡ some true → (break_if b true rest).1 ≡ some true
unfolding break_if return
break_if-replied true rest h = refl
break_if-replied false rest h = h

-- Where an attempt is answered, its socket is kept.
await_on-replied :
    (b : Bool) (t : Try) (next : Bool → Run Bool)
    → ((b && (t.is_sent && is_reply (await_reply t.datagrams))) ≡ true)
      ⊎ ((has_socket : Bool) → (next has_socket).1 ≡ some true)
    → (await_on b t next).1 ≡ some true
unfolding await_on
await_on-replied false t next (inl h) = cc
await_on-replied false t next (inr h) = h false
await_on-replied true t next (inl h) = say-gives _ _ ∙ rw h (unfold break_if return in refl)
await_on-replied true t next (inr h) =
    say-gives _ _
    ∙ break_if-replied (t.is_sent && is_reply (await_reply t.datagrams)) (next true) (h true)

-- A handshake that is answered keeps the socket on which it was.
pub try_sockets-replied :
    (left : ℕ) (tries : List Try) (request : Text) (has_socket : Bool)
    → is_reply (try_attempts left request (map attempt_of tries)).1 ≡ true
    → (try_sockets left tries has_socket).1 ≡ some true
unfolding try_sockets
try_sockets-replied zero tries request has_socket h = absurd (unfold try_attempts in (cc h))
try_sockets-replied (suc left) [] request has_socket h = absurd (unfold try_attempts in (cc h))
try_sockets-replied (suc left) (t ∷ tries) request has_socket h =
    let m = resolve_and_open_socket t.answers has_socket in
    let same = resolve_and_open_socket-opens t.answers has_socket in
    >>=-gives (attempt m) _ {a = m.1} (unfold attempt in refl)
    ∙ await_on-replied (has_opened m.1) t (try_sockets left tries)
        (elim (attempt-reply t left request (map attempt_of tries)) [
          | inl replied ↦ inl (rw same replied)
          | inr later ↦
              inr λ has_socket'. try_sockets-replied left tries request has_socket' (rw later at h)
        ])
