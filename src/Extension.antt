-- ===== src/Extension.antt =====
-- The entry point of the extension
-- (addon/extensions/task_force_radio_pipe/src/Extension.cpp: parsePort, RVExtension). A text that
-- the game passes is without its final zero byte, and a missing one is empty; the buffer for the
-- answer is the list of its bytes, none of them if it is missing. What it throws is `none` in place of
-- the answer: what it had changed by then stays changed.
pub mod World
pub mod Sender
pub mod Threads
pub mod Linked
pub mod Delivered
pub mod Rounds
pub mod Reachable
pub mod Override
use task_force_radio_standal.Base.{
  ◌==◌, if◌then◌else◌, Option-cases, if_keeps, length, take, All, Text, is_empty, ℕ, zero, suc, ◌<◌,
  ◌≡◌, refl, sym, ap, ◌∙◌, ◌⊎◌, inl, inr, Bool, true, false, not, ◌&&◌, ◌||◌, Option, none, some,
  List, [], ◌∷◌, arith,
}
use task_force_radio_standal.Base.Int.{pos_part}
use task_force_radio_standal.Float.{Float}
use task_force_radio_standal.Geometry.{zero_f}
use task_force_radio_standal.Voice.Network.{nonzero, Accept, Client}
use task_force_radio_standal.Voice.Network.Thread.{set_server, thread_round}

-- What a reader of a C string sees.
unfoldable pub c_str : Text → Text
c_str [] = []
c_str (c ∷ s) = let rest = c_str s in if c == 0 then [] else c ∷ rest

-- `strncpy_s(output, outputSize, text, _TRUNCATE)`
unfoldable pub copy_truncated : Text → Text → Text
copy_truncated text [] = []
copy_truncated text (b ∷ []) = 0 ∷ []
copy_truncated [] (b ∷ b' ∷ output) = 0 ∷ b' ∷ output
copy_truncated (c ∷ text) (b ∷ b' ∷ output) = c ∷ copy_truncated text (b' ∷ output)

-- `output[outputSize - 1] = '\0'`
unfoldable pub terminate : Text → Text
terminate [] = []
terminate (b ∷ []) = 0 ∷ []
terminate (b ∷ b' ∷ output) = b ∷ terminate (b' ∷ output)

-- The buffer behind a call that came to its end.
unfoldable pub written_answer : Text → Text → Text
unfolding c_str copy_truncated
written_answer answer output =
    if is_empty answer then output else copy_truncated (c_str answer) output

-- The buffer and the world behind a call.
unfoldable pub rv_extension {ℓ} :
    {W : Type ℓ} → (Text → W → Option Text × W) → Bool → Bool → Text → Text → W → Text × W
unfolding written_answer terminate
rv_extension process shutting_down ready function [] w = ([], w)
rv_extension process shutting_down ready function (b ∷ output) w =
    let cleared = 0 ∷ output in
    if is_empty function || shutting_down || not ready
    then (cleared, w)
    else let (answered, w') = process function w in
      elim answered [
        | none ↦ (terminate cleared, w')
        | some answer ↦ (terminate (written_answer answer cleared), w')
      ]

-- The text of an answer: none where the processor threw.
abbrev pub text_of : Option Text → Text
text_of none = []
text_of (some answer) = answer

length-copy_truncated : (text output : Text) → length (copy_truncated text output) ≡ length output
unfolding copy_truncated
length-copy_truncated text [] = refl
length-copy_truncated text (b ∷ []) = refl
length-copy_truncated [] (b ∷ b' ∷ output) = refl
length-copy_truncated (c ∷ text) (b ∷ b' ∷ output) =
    ap suc (length-copy_truncated text (b' ∷ output))

length-terminate : (output : Text) → length (terminate output) ≡ length output
unfolding terminate
length-terminate [] = refl
length-terminate (b ∷ []) = refl
length-terminate (b ∷ b' ∷ output) = ap suc (length-terminate (b' ∷ output))

IsWhole : Text → Type 0
IsWhole = All (λ c. (c == 0) ≡ false)

c_str-IsWhole : (text : Text) → IsWhole (c_str text)
unfolding c_str IsWhole
c_str-IsWhole [] = tt
c_str-IsWhole (c ∷ text) =
    if_keeps IsWhole (c == 0) (λ _. tt) (λ nonzero. (nonzero, c_str-IsWhole text))

terminate-cons : (c : ℕ) (s : Text) → 0 < length s → terminate (c ∷ s) ≡ c ∷ terminate s
unfolding terminate
terminate-cons c [] h = absurd (omega arith)
terminate-cons c (b ∷ s) h = refl

-- A text with no zero byte, in a buffer of `n` + 1 bytes.
c_str-copied :
    (n : ℕ) (text output : Text)
    → length output ≡ suc n
    → IsWhole text
    → c_str (terminate (copy_truncated text output)) ≡ take n text
unfolding c_str terminate copy_truncated IsWhole
c_str-copied n text [] size h = absurd (omega arith)
c_str-copied zero text (b ∷ []) size h = refl
c_str-copied zero text (b ∷ b' ∷ output) size h = absurd (omega arith)
c_str-copied (suc n) text (b ∷ []) size h = absurd (omega arith)
c_str-copied (suc n) [] (b ∷ b' ∷ output) size h = refl
c_str-copied (suc n) (c ∷ text) (b ∷ b' ∷ output) size h =
    let long = length-copy_truncated text (b' ∷ output) in
    let rest = c_str-copied n text (b' ∷ output) (omega arith) h.1 in
    rw (terminate-cons c (copy_truncated text (b' ∷ output)) (omega (arith, long)), c_str)
      (rw (h.0, rest) refl)

c_str-cleared : (output : Text) → c_str (terminate (0 ∷ output)) ≡ []
unfolding c_str terminate
c_str-cleared [] = refl
c_str-cleared (b ∷ output) = refl

take-nil {ℓ} : {A : Type ℓ} (n : ℕ) → take {A = A} n [] ≡ []
take-nil zero = refl
take-nil (suc n) = refl

written_answer-copied :
    (n : ℕ) (answer output : Text)
    → length output ≡ n
    → (length (terminate (written_answer answer (0 ∷ output))) ≡ suc n)
      × (c_str (terminate (written_answer answer (0 ∷ output))) ≡ take n (c_str answer))
unfolding written_answer
written_answer-copied n [] output size = (
  omega (arith, length-terminate (0 ∷ output)),
  c_str-cleared output ∙ sym (take-nil n) ∙ unfold c_str in refl,
)
written_answer-copied n (a ∷ answer) output size =
    let copied = copy_truncated (c_str (a ∷ answer)) (0 ∷ output) in
    (
      omega
          (arith, length-terminate copied, length-copy_truncated (c_str (a ∷ answer)) (0 ∷ output)),
      c_str-copied n (c_str (a ∷ answer)) (0 ∷ output) (omega arith) (c_str-IsWhole (a ∷ answer)),
    )

-- The early return of a call, and when there is none.
runs_or_not :
    (empty shutting_down ready : Bool)
    → ((empty || shutting_down || not ready ≡ true)
        × (not empty && not shutting_down && ready ≡ false))
      ⊎ ((empty || shutting_down || not ready ≡ false)
          × (not empty && not shutting_down && ready ≡ true))
runs_or_not true shutting_down ready = inl (refl, refl)
runs_or_not false true ready = inl (refl, refl)
runs_or_not false false false = inl (refl, refl)
runs_or_not false false true = inr (refl, refl)

-- Whatever happens in a call, into a buffer of `n` + 1 bytes: nothing is written behind the buffer;
-- what the game reads ends within it and is the processor's answer up to its first zero byte, cut to
-- `n` bytes, or empty if there is no call, the extension shuts down or is not ready, or the processor
-- throws. The world is what the processor leaves, also where it throws, and is unchanged where it
-- does not run.
pub rv_extension-answers {ℓ} :
    {W : Type ℓ} (process : Text → W → Option Text × W) (shutting_down ready : Bool)
    (function output : Text) (w : W) (n : ℕ)
    → length output ≡ suc n
    → let r = rv_extension process shutting_down ready function output w in
      let runs = not (is_empty function) && not shutting_down && ready in
      let (answered, left) = process function w in
      (length r.0 ≡ length output)
      × (c_str r.0 ≡ take n (if runs then c_str (text_of answered) else []))
      × (r.1 ≡ (if runs then left else w))
unfolding rv_extension
rv_extension-answers process shutting_down ready function [] w n size = absurd (omega arith)
rv_extension-answers process shutting_down ready function (b ∷ output) w n size =
    elim (runs_or_not (is_empty function) shutting_down ready) [
      | inl (stays, not_run) ↦ rw (stays, not_run) (refl, unfold c_str in sym (take-nil n), refl)
      | inr (goes, run) ↦ elim (Option-cases (process function w).0) [
        | inl throws ↦
            rw (goes, run, throws, rv_extension)
              (
                length-terminate (0 ∷ output),
                c_str-cleared output ∙ sym (take-nil n) ∙ unfold c_str in refl,
                refl,
              )
        | inr (answer, answers) ↦
            let (long, reads) = written_answer-copied n answer output (omega arith) in
            rw (goes, run, answers, rv_extension) (omega (arith, long), reads, refl)
      ]
    ]

module _ (fl : Float) where
  open fl use {F, le, decimal, trunc}

  unfoldable pub parse_port : F → ℕ
  parse_port value =
      if not (le (zero_f fl) value && le value (decimal 65535 0)) then 0 else pos_part (trunc value)

  -- A port that is no number, or out of range, starts no connection: with it as the setting, a round
  -- of the network thread does nothing at all, and so it neither serves nor closes a connection that
  -- is up.
  pub bad_port_waits :
      (value : F) (host password : Text) (reply : Option Accept) (now : ℕ) (queue : List Text)
      (c : Client)
      → (le (zero_f fl) value && le value (decimal 65535 0)) ≡ false
      → thread_round reply now queue (set_server host (parse_port value) password c)
        ≡ ([], queue, set_server host 0 password c)
  unfolding thread_round set_server parse_port
  bad_port_waits value host password reply now queue c bad = ground arith
