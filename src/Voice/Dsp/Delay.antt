-- ===== src/Voice/Dsp/Delay.antt =====
-- The delay line of the effect chain
-- (addon/extensions/task_force_radio_pipe/src/Voice/Dsp/RadioEffectChain.cpp: delay).
use native.Mathlib.Nat.{mod-eq_of_lt, mod_self}
use task_force_radio_standal.Base.{
  length, get_or, take, set, length-append, set-append, get_or-append, replicate, length-replicate,
  run_over, ℕ, suc, ◌+◌, ◌%◌, ◌≤◌, ◌<◌, ◌≡◌, refl, sym, ap, ◌∙◌, List, [], ◌∷◌, ◌++◌, arith,
}
use task_force_radio_standal.Float.{Float}
use task_force_radio_standal.Geometry.{zero_f}
use mathlib.Core.List.{append-nil, append_assoc}

-- The line and the place of the last write.
pub record DelayLine (fl : Float) : Type 0 where
  pub line : List fl.F
  pub pos : ℕ

-- `kDelaySamples`, a twentieth of the sample rate
abbrev pub delay_samples : ℕ
delay_samples = 2400

wraps : (n samples : ℕ) → n + 1 ≡ samples → (n + 1) % samples ≡ 0
wraps n samples h = rw h (mod_self samples)

module _ (fl : Float) where
  open fl use {F}

  unfoldable pub new_delay_of : ℕ → DelayLine fl
  unfolding replicate
  new_delay_of samples = record { line = replicate samples (zero_f fl); pos = 0 }

  -- One sample through a line of `samples` places.
  unfoldable pub delay_of : ℕ → F → DelayLine fl → F × DelayLine fl
  delay_of samples input d =
      let line = set d.line d.pos input in
      let next = (d.pos + 1) % samples in
      (get_or line next (zero_f fl), record { line = line; pos = next })

  -- The line whose last write is `last`.
  abbrev at : List F → F → List F → DelayLine fl
  at before last behind = record { line = before ++ last ∷ behind; pos = length before }

  -- What has still to come out of a line: the places behind `pos`, then those before it.
  record Holds (samples : ℕ) (d : DelayLine fl) (queue : List F) : Type 0 where
    before : List F
    last : F
    behind : List F
    line_is : d ≡ at before last behind
    size_is : length before + suc (length behind) ≡ samples
    queue_is : queue ≡ behind ++ before

  next_place :
      (samples : ℕ) (before : List F) (x : F)
      → length before + 1 < samples
      → (length before + 1) % samples ≡ length (before ++ x ∷ [])
  next_place samples before x h = mod-eq_of_lt h ∙ omega (arith, length-append before (x ∷ []))

  delay_of-inside :
      (samples : ℕ) (x o last : F) (before behind : List F)
      → length before + suc (suc (length behind)) ≡ samples
      → delay_of samples x (at before last (o ∷ behind)) ≡ (o, at (before ++ x ∷ []) o behind)
  unfolding delay_of
  delay_of-inside samples x o last before behind size =
      rw
        (
          set-append before last x (o ∷ behind),
          next_place samples before x (omega arith),
          ← append_assoc before (x ∷ []) (o ∷ behind),
          get_or-append (before ++ x ∷ []) o behind (zero_f fl),
        )
        refl

  delay_of-wraps :
      (samples : ℕ) (x o last : F) (front : List F)
      → length front + 2 ≡ samples
      → delay_of samples x (at (o ∷ front) last []) ≡ (o, at [] o (front ++ x ∷ []))
  unfolding delay_of
  delay_of-wraps samples x o last front size =
      rw (set-append front last x [], wraps (suc (length front)) samples (omega arith)) refl

  -- The queue of a line that has just been made: one zero less than it has places.
  new_delay_of-Holds : (n : ℕ) → Holds (suc n) (new_delay_of (suc n)) (replicate n (zero_f fl))
  unfolding new_delay_of replicate
  new_delay_of-Holds n = record {
    before = [];
    last = zero_f fl;
    behind = replicate n (zero_f fl);
    line_is = refl;
    size_is = omega (arith, length-replicate n (zero_f fl));
    queue_is = sym (append-nil (replicate n (zero_f fl)));
  }

  -- One sample: the oldest comes out, the new one queues up.
  Stepped : ℕ → F → DelayLine fl → List F → Type 0
  Stepped samples x d queue =
      (o : F) × (q : List F) × (queue ≡ o ∷ q)
      × ((delay_of samples x d).0 ≡ o)
      × Holds samples (delay_of samples x d).1 (q ++ x ∷ [])

  at-Stepped :
      (samples : ℕ) (x last : F) (before behind : List F)
      → 2 ≤ samples
      → length before + suc (length behind) ≡ samples
      → Stepped samples x (at before last behind) (behind ++ before)
  unfolding Stepped
  at-Stepped samples x last [] [] two size = absurd (omega arith)
  at-Stepped samples x last (o ∷ front) [] two size =
      let e = delay_of-wraps samples x o last front (omega arith) in
      (
        o,
        front,
        refl,
        ap (λ r. r.0) e,
        record {
          before = [];
          last = o;
          behind = front ++ x ∷ [];
          line_is = ap (λ r. r.1) e;
          size_is = omega (arith, length-append front (x ∷ []));
          queue_is = sym (append-nil (front ++ x ∷ []));
        },
      )
  at-Stepped samples x last before (o ∷ behind) two size =
      let e = delay_of-inside samples x o last before behind (omega arith) in
      (
        o,
        behind ++ before,
        refl,
        ap (λ r. r.0) e,
        record {
          before = before ++ x ∷ [];
          last = o;
          behind = behind;
          line_is = ap (λ r. r.1) e;
          size_is = omega (arith, length-append before (x ∷ []));
          queue_is = append_assoc behind before (x ∷ []);
        },
      )

  delay_of-Stepped :
      (samples : ℕ) (x : F) (d : DelayLine fl) (queue : List F)
      → 2 ≤ samples
      → Holds samples d queue
      → Stepped samples x d queue
  delay_of-Stepped samples x d queue two h =
      rw (h.line_is, h.queue_is) (at-Stepped samples x h.last h.before h.behind two h.size_is)

  run_delay :
      (samples : ℕ) (xs : List F) (d : DelayLine fl) (queue : List F)
      → 2 ≤ samples
      → Holds samples d queue
      → (run_over (delay_of samples) xs d).0 ≡ take (length xs) (queue ++ xs)
  unfolding run_over Stepped
  run_delay samples [] d queue two h = refl
  run_delay samples (x ∷ xs) d queue two h =
      let (o, q, queue_is, out_is, h') = delay_of-Stepped samples x d queue two h in
      let rest = run_delay samples xs (delay_of samples x d).1 (q ++ x ∷ []) two h' in
      rw (queue_is, out_is, rest, append_assoc q (x ∷ []) xs) refl

  -- `delay` of the source.
  unfoldable pub delay : F → DelayLine fl → F × DelayLine fl
  unfolding delay_of
  delay = delay_of delay_samples

  unfoldable pub new_delay : DelayLine fl
  unfolding new_delay_of
  new_delay = new_delay_of delay_samples

  -- The line gives silence for 2399 samples, one less than it has places, and then its input in
  -- order: what comes out of `xs` is the first part, as long as `xs`, of 2399 zeros and `xs`.
  pub delay_is_fifo :
      (xs : List F)
      → (run_over delay xs new_delay).0 ≡ take (length xs) (replicate 2399 (zero_f fl) ++ xs)
  unfolding delay new_delay
  delay_is_fifo xs =
      run_delay delay_samples xs (new_delay_of delay_samples) (replicate 2399 (zero_f fl))
        (omega arith) (new_delay_of-Holds 2399)
