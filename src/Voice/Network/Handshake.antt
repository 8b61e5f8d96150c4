-- ===== src/Voice/Network/Handshake.antt =====
-- The handshake with the relay
-- (addon/extensions/task_force_radio_pipe/src/Voice/VoiceNetworkClient.cpp: tryHandshake). What the
-- sockets answer in each attempt is an argument: the datagrams that come before the deadline, without
-- the timeouts and errors of `recv`. The hash of the password is an argument, `none` where it fails.
-- The log lines and the counters that throttle them are left out.
use task_force_radio_standal.Base.{
  ◌==◌, if◌then◌else◌, length, take, length-append, concat, Text, ℕ, zero, suc, ◌+◌, ◌≤◌, ◌≡◌, refl,
  sym, ap, ◌∙◌, Option, none, some, List, [], ◌∷◌, ◌++◌, map, arith,
}
use task_force_radio_standal.Protocol.{
  connect_accept, connect_reject, packet_code, truncate_utf8, PacketWriter, write_byte, write_bytes,
}
use task_force_radio_standal.Protocol.Truncate.{length-truncate_utf8}
use task_force_radio_standal.Protocol.Fields.{put_bytes_lem}
use task_force_radio_standal.Voice.Network.{
  Event, sent, Accept, read_accept, connect_request_packet, Identity,
}
use task_force_radio_standal.Voice.Network.Packets.{field8, writer, write_string8_fits}

-- An attempt, on a socket of its own.
pub data Attempt : Type 0 where
  no_socket send_failed : Attempt
  answered : List Text → Attempt

-- What an attempt comes to: the reason of a rejection is a byte.
pub data Reply : Type 0 where
  accepted : Accept → Reply
  rejected : ℕ → Reply
  no_reply : Reply

-- `(n >= 2) ? recvBuf[1] : 0`
abbrev pub reason_of : Text → ℕ
reason_of [] = 0
reason_of (reason ∷ bs) = reason

-- What a datagram says, if it ends the wait; a malformed acceptance and any other packet do not.
unfoldable pub reply_of : Text → Reply
unfolding read_accept packet_code
reply_of [] = no_reply
reply_of (code ∷ bs) =
    if code == packet_code connect_accept
    then elim (read_accept (code ∷ bs)) [ none ↦ no_reply | some a ↦ accepted a ]
    else if code == packet_code connect_reject
    then rejected (reason_of bs)
    else no_reply

-- Goes on with the rest where there is no reply.
abbrev pub or_else : Reply → Reply → Reply
or_else (accepted a) rest = accepted a
or_else (rejected reason) rest = rejected reason
or_else no_reply rest = rest

-- The loop over the datagrams of an attempt.
unfoldable pub await_reply : List Text → Reply
unfolding reply_of
await_reply [] = no_reply
await_reply (datagram ∷ datagrams) = or_else (reply_of datagram) (await_reply datagrams)

abbrev pub handshake_retries : ℕ
handshake_retries = 5

-- The loop over the attempts: the requests that are sent, and the reply.
unfoldable pub try_attempts : ℕ → Text → List Attempt → List Event × Reply
unfolding await_reply
try_attempts zero request attempts = ([], no_reply)
try_attempts (suc left) request [] = ([], no_reply)
try_attempts (suc left) request (no_socket ∷ attempts) = try_attempts left request attempts
try_attempts (suc left) request (send_failed ∷ attempts) = try_attempts left request attempts
try_attempts (suc left) request (answered datagrams ∷ attempts) =
    let (packets, later) = try_attempts left request attempts in
    elim (await_reply datagrams) [
      | accepted a ↦ (sent request ∷ [], accepted a)
      | rejected reason ↦ (sent request ∷ [], rejected reason)
      | no_reply ↦ (sent request ∷ packets, later)
    ]

abbrev pub acceptance : Reply → Option Accept
acceptance (accepted a) = some a
acceptance (rejected reason) = none
acceptance no_reply = none

-- `none` where the writer throws; a failed hash sends nothing.
unfoldable pub try_handshake :
    Option Text → Identity → List Attempt → Option (List Event × Option Accept)
unfolding connect_request_packet try_attempts
try_handshake none identity attempts = some ([], none)
try_handshake (some hash) identity attempts =
    elim (connect_request_packet hash identity.uid identity.name) [
      | none ↦ none
      | some w ↦
          let (packets, reply) = try_attempts handshake_retries w.written attempts in
          some (packets, acceptance reply)
    ]

-- The datagrams of an attempt.
abbrev pub datagrams_of : Attempt → List Text
datagrams_of no_socket = []
datagrams_of send_failed = []
datagrams_of (answered datagrams) = datagrams

or_else_assoc : (a b c : Reply) → or_else (or_else a b) c ≡ or_else a (or_else b c)
or_else_assoc (accepted a) b c = refl
or_else_assoc (rejected reason) b c = refl
or_else_assoc no_reply b c = refl

await_reply-append :
    (xs ys : List Text) → await_reply (xs ++ ys) ≡ or_else (await_reply xs) (await_reply ys)
unfolding await_reply
await_reply-append [] ys = refl
await_reply-append (x ∷ xs) ys =
    ap (or_else (reply_of x)) (await_reply-append xs ys)
    ∙ sym (or_else_assoc (reply_of x) (await_reply xs) (await_reply ys))

-- An attempt that was sent, and the attempts behind it.
abbrev attempt_then : Reply → Text → List Event × Reply → List Event × Reply
attempt_then r request later = elim r [
  | accepted a ↦ (sent request ∷ [], accepted a)
  | rejected reason ↦ (sent request ∷ [], rejected reason)
  | no_reply ↦ (sent request ∷ later.0, later.1)
]

after_reply :
    (r : Reply) (request : Text) (later : List Event × Reply)
    → (attempt_then r request later).1 ≡ or_else r later.1
after_reply (accepted a) request later = refl
after_reply (rejected reason) request later = refl
after_reply no_reply request later = refl

few_after :
    (n : ℕ) (r : Reply) (request : Text) (later : List Event × Reply)
    → length later.0 ≤ n
    → length (attempt_then r request later).0 ≤ suc n
few_after n (accepted a) request later h = omega arith
few_after n (rejected reason) request later h = omega arith
few_after n no_reply request later h = omega arith

-- The attempts come to the first reply in the datagrams of all of them.
try_attempts-reply :
    (n : ℕ) (request : Text) (attempts : List Attempt)
    → (try_attempts n request attempts).1
      ≡ await_reply (concat (map datagrams_of (take n attempts)))
unfolding try_attempts concat
try_attempts-reply zero request attempts = unfold await_reply in refl
try_attempts-reply (suc n) request [] = unfold await_reply in refl
try_attempts-reply (suc n) request (no_socket ∷ attempts) = try_attempts-reply n request attempts
try_attempts-reply (suc n) request (send_failed ∷ attempts) = try_attempts-reply n request attempts
try_attempts-reply (suc n) request (answered datagrams ∷ attempts) =
    after_reply (await_reply datagrams) request (try_attempts n request attempts)
    ∙ ap (or_else (await_reply datagrams)) (try_attempts-reply n request attempts)
    ∙ sym (await_reply-append datagrams (concat (map datagrams_of (take n attempts))))

try_attempts-few :
    (n : ℕ) (request : Text) (attempts : List Attempt)
    → length (try_attempts n request attempts).0 ≤ n
unfolding try_attempts
try_attempts-few zero request attempts = omega arith
try_attempts-few (suc n) request [] = omega arith
try_attempts-few (suc n) request (no_socket ∷ attempts) =
    omega (arith, try_attempts-few n request attempts)
try_attempts-few (suc n) request (send_failed ∷ attempts) =
    omega (arith, try_attempts-few n request attempts)
try_attempts-few (suc n) request (answered datagrams ∷ attempts) =
    few_after n (await_reply datagrams) request (try_attempts n request attempts)
      (try_attempts-few n request attempts)

-- The request always fits its buffer: a hash of 32 bytes, the identity cut to its limits.
connect_request_packet-fits :
    (hash uid name : Text)
    → length hash ≡ 32
    → (w : PacketWriter) × (connect_request_packet hash uid name ≡ some w)
unfolding connect_request_packet write_byte write_bytes packet_code
connect_request_packet-fits hash uid name size =
    let uid' = truncate_utf8 uid 40 in
    let name' = truncate_utf8 name 32 in
    let short = length-truncate_utf8 uid 40 in
    let short' = length-truncate_utf8 name 32 in
    let written = 1 ∷ 1 ∷ hash in
    let l = length-append (1 ∷ 1 ∷ hash) (field8 uid') in
    let long : length (written ++ field8 uid') ≡ 34 + (1 + length uid') = l ∙ omega (arith, size) in
    let fits : length (written ++ field8 uid') + (1 + length name') ≤ 108 = omega (arith, long) in
    (
      writer (written ++ field8 uid' ++ field8 name') 108,
      rw (put_bytes_lem hash (writer (1 ∷ 1 ∷ []) 108) (omega arith)) (
          rw (write_string8_fits uid' written 108 (omega arith) (omega arith))
            (rw (write_string8_fits name' (written ++ field8 uid') 108 (omega arith) fits) refl)),
    )

-- A handshake never throws, and sends five requests at most. Of the datagrams of its first five
-- attempts, one attempt after the other, the first that is a well-formed acceptance or a rejection
-- decides, and it fails if there is none: malformed acceptances and stray packets are passed over,
-- and so is an attempt without a socket. The hash has 32 bytes.
pub try_handshake-reply :
    (hash : Text) (identity : Identity) (attempts : List Attempt)
    → length hash ≡ 32
    → (packets : List Event) × (try_handshake (some hash) identity attempts
        ≡ some (packets, acceptance (await_reply (concat (map datagrams_of (take 5 attempts))))))
      × (length packets ≤ 5)
unfolding try_handshake
try_handshake-reply hash identity attempts size =
    let (w, fits) = connect_request_packet-fits hash identity.uid identity.name size in
    let few = try_attempts-few 5 w.written attempts in
    let same = try_attempts-reply 5 w.written attempts in
    (
      (try_attempts 5 w.written attempts).0,
      rw (fits, try_handshake)
          (ap (λ r. some ((try_attempts 5 w.written attempts).0, acceptance r)) same),
      few,
    )
