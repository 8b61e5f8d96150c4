-- ===== src/Voice/Network/Owned.antt =====
-- What the network thread holds
-- (addon/extensions/task_force_radio_pipe/src/Voice/VoiceNetworkClient.cpp: sha256,
-- resolveAndOpenSocket, tryHandshake, threadMain).
use task_force_radio_standal.Resource.{◌>>=◌, ◌>>◌}
use task_force_radio_standal.Base.{
  Bool-cases, ◌≡◌, refl, ◌∙◌, inl, inr, Bool, true, false, none, some, List, ◌∷◌,
}
use task_force_radio_standal.Resource.{
  Resource, hash_provider, udp_socket, follow, Run, after, return, say, acquire, check, break_if,
}
use task_force_radio_standal.Resource.Ownership.{
  Runs, follow-then, >>=-Runs, >>-Runs, say-Runs, acquire-Runs, check-Runs, attempt-Runs,
  of_option-Runs,
}
use task_force_radio_standal.Voice.Network.Socket.{
  HashAnswers, digest_of, sha256, close_socket, SocketAnswers, resolve_and_open_socket, is_open,
  has_opened,
}
use mathlib.Core.Path.{subst}

-- The client's socket on top of what is held besides.
abbrev pub sockets : Bool → List Resource → List Resource
sockets true held = udp_socket ∷ held
sockets false held = held

pub close_socket-follow :
    (has_socket : Bool) (held : List Resource)
    → follow (close_socket has_socket) (sockets has_socket held) ≡ some held
unfolding close_socket follow
close_socket-follow true held = refl
close_socket-follow false held = refl

pub resolve_and_open_socket-Runs :
    (a : SocketAnswers) (has_socket : Bool) (held : List Resource)
    → Runs held (sockets has_socket held) (resolve_and_open_socket a has_socket) (sockets true held)
unfolding resolve_and_open_socket follow
resolve_and_open_socket-Runs a has_socket held =
    >>-Runs (say-Runs _ (close_socket-follow has_socket held)) (
      >>-Runs (acquire-Runs _ _ refl) (
        >>-Runs (say-Runs _ refl) (
          >>-Runs (acquire-Runs _ _ refl)
            (>>-Runs (say-Runs _ refl) (>>-Runs (check-Runs _ _ refl) (say-Runs _ refl))))))

-- It opens a socket exactly where all three calls succeed.
pub resolve_and_open_socket-opens :
    (a : SocketAnswers) (has_socket : Bool)
    → has_opened (resolve_and_open_socket a has_socket).1 ≡ is_open a
unfolding resolve_and_open_socket say acquire check ◌>>◌ ◌>>=◌ after
resolve_and_open_socket-opens a has_socket = elim (Bool-cases a.resolved) [
  | inr off ↦ rw off refl
  | inl resolved ↦ elim (Bool-cases a.created) [
    | inr off ↦ rw (resolved, off) refl
    | inl made ↦ elim (Bool-cases a.linked) [
      | inr off ↦ rw (resolved, made, off) refl
      | inl linked ↦ rw (resolved, made, linked) refl
    ]
  ]
]

digest_of-Runs : (a : HashAnswers) (held : List Resource) → Runs held held (digest_of a) held
unfolding digest_of follow
digest_of-Runs a held =
    >>-Runs (acquire-Runs _ _ refl) (>>-Runs (say-Runs _ refl) (of_option-Runs a.digest))

pub sha256-Runs : (a : HashAnswers) (held : List Resource) → Runs held held (sha256 a) held
unfolding sha256 follow
sha256-Runs a held = >>-Runs (acquire-Runs _ _ refl) (
    >>-Runs (say-Runs _ refl) (
      >>=-Runs (attempt-Runs (digest_of-Runs a (hash_provider ∷ held)))
        λ digest. >>-Runs (say-Runs _ refl) (of_option-Runs digest)))

-- The calls of an attempt, or of several, are made on what is held, and its value tells whether a
-- socket is held behind it.
pub record Tracks (m : Run Bool) (has_socket : Bool) (held : List Resource) : Type 0 where
  pub has_socket' : Bool
  pub value : m.1 ≡ some has_socket'
  pub calls : follow m.0 (sockets has_socket held) ≡ some (sockets has_socket' held)

pub return-Tracks :
    (has_socket : Bool) (held : List Resource) → Tracks (return has_socket) has_socket held
unfolding return follow
return-Tracks has_socket held = record { has_socket' = has_socket; value = refl; calls = refl }

pub then-Tracks {ℓ} :
    {A : Type ℓ} (m : Run A) (a : A) (f : A → Run Bool) (has_socket has_socket' : Bool)
    (held : List Resource)
    → m.1 ≡ some a
    → follow m.0 (sockets has_socket held) ≡ some (sockets has_socket' held)
    → Tracks (f a) has_socket' held
    → Tracks (m >>= f) has_socket held
unfolding ◌>>=◌ after
then-Tracks (calls, none) a f has_socket has_socket' held e k h = cc
then-Tracks (calls, some b) a f has_socket has_socket' held e k h =
    let same : a ≡ b = cc in
    let h' = subst (λ x. Tracks (f x) has_socket' held) same h in
    record {
      has_socket' = h'.has_socket';
      value = h'.value;
      calls = follow-then calls (f b).0 _ _ k ∙ h'.calls;
    }

pub break_if-Tracks :
    (b : Bool) (rest : Run Bool) (held : List Resource)
    → Tracks rest true held
    → Tracks (break_if b true rest) true held
unfolding break_if
break_if-Tracks true rest held h = return-Tracks true held
break_if-Tracks false rest held h = h
