-- ===== src/Voice/Dsp/Stages.antt =====
-- Filters and cascades of them
-- (addon/extensions/task_force_radio_pipe/src/Voice/Dsp/BiquadFilter.cpp: BiquadFilter::process,
-- CascadedFilter::process).
use task_force_radio_standal.Base.{
  length, drop, run_over, length-run_over, run_over-append, ◌≡◌, refl, sym, ap, ◌∙◌, List, [], ◌∷◌,
  ◌++◌, map,
}
use task_force_radio_standal.Float.{Float}
use task_force_radio_standal.Voice.Dsp.{Biquad, biquad_step, biquad_process, cascade_process}

module _ (fl : Float) where
  open fl use {F, D, d_add, d_sub, d_mul, narrow, widen}

  -- The difference equation of a filter with the coefficients of `s`, at every place of an input and
  -- an output, each with its two values before the first:
  -- y(n) = b0 x(n) + b1 x(n-1) + b2 x(n-2) - a1 y(n-1) - a2 y(n-2), rounded as it is written.
  abbrev pub IsFiltered : Biquad fl → List D → List D → Type 0
  IsFiltered s (x2 ∷ x1 ∷ x0 ∷ xs) (y2 ∷ y1 ∷ y0 ∷ ys) =
      (y0
        ≡ d_sub
            (d_sub (d_add (d_add (d_mul s.b0 x0) (d_mul s.b1 x1)) (d_mul s.b2 x2)) (d_mul s.a1 y1))
            (d_mul s.a2 y2))
      × IsFiltered s (x1 ∷ x0 ∷ xs) (y1 ∷ y0 ∷ ys)
  IsFiltered s (x2 ∷ x1 ∷ []) (y2 ∷ y1 ∷ []) = Unit
  IsFiltered s _ _ = ⊥

  -- A filter computes its difference equation over a whole buffer, going on from the two inputs and
  -- outputs that its state holds: there is one exact output for each sample, all of them obey the
  -- equation, and the buffer is left with them narrowed. The state is left with the last two inputs
  -- and exact outputs, so that the next buffer goes on from there.
  pub biquad_process-IsFiltered :
      (xs : List F) (s : Biquad fl)
      → let (out, s') = biquad_process fl xs s in
        (ys : List D) × (out ≡ map narrow ys)
        × IsFiltered s (s.x2 ∷ s.x1 ∷ map widen xs) (s.y2 ∷ s.y1 ∷ ys)
        × (drop (length xs) (s.x2 ∷ s.x1 ∷ map widen xs) ≡ s'.x2 ∷ s'.x1 ∷ [])
        × (drop (length xs) (s.y2 ∷ s.y1 ∷ ys) ≡ s'.y2 ∷ s'.y1 ∷ [])
  unfolding biquad_process run_over biquad_step
  biquad_process-IsFiltered [] s = ([], refl, tt, refl, refl)
  biquad_process-IsFiltered (x ∷ xs) s =
      let step = biquad_step fl x s in
      let (ys, out, filtered, inputs, outputs) = biquad_process-IsFiltered xs step.1 in
      (step.1.y1 ∷ ys, ap (λ l. step.0 ∷ l) out, (refl, filtered), inputs, outputs)

  -- One sample through all stages: the order that a loop over the samples would have.
  unfoldable pub stages_step : F → List (Biquad fl) → F × List (Biquad fl)
  stages_step x [] = (x, [])
  stages_step x (stage ∷ stages) =
      let (y, stage') = biquad_step fl x stage in
      let (z, stages') = stages_step y stages in (z, stage' ∷ stages')

  pub length-biquad_process :
      (xs : List F) (s : Biquad fl) → length (biquad_process fl xs s).0 ≡ length xs
  unfolding biquad_process
  length-biquad_process xs s = length-run_over (biquad_step fl) xs s

  pub length-cascade_process :
      (xs : List F) (stages : List (Biquad fl))
      → length (cascade_process fl xs stages).0 ≡ length xs
  unfolding cascade_process
  length-cascade_process xs [] = refl
  length-cascade_process xs (stage ∷ stages) =
      length-cascade_process (biquad_process fl xs stage).0 stages ∙ length-biquad_process xs stage

  no_stages : (xs : List F) → run_over stages_step xs [] ≡ (xs, [])
  unfolding run_over stages_step
  no_stages [] = refl
  no_stages (x ∷ xs) = ap (λ (r : List F × List (Biquad fl)). (x ∷ r.0, r.1)) (no_stages xs)

  -- The first stage's loop, then the others' loop, are one loop over the samples.
  first_stage :
      (xs : List F) (stage : Biquad fl) (stages : List (Biquad fl))
      → run_over stages_step xs (stage ∷ stages) ≡ (
        (run_over stages_step (run_over (biquad_step fl) xs stage).0 stages).0,
        (run_over (biquad_step fl) xs stage).1
            ∷ (run_over stages_step (run_over (biquad_step fl) xs stage).0 stages).1,
      )
  unfolding run_over stages_step
  first_stage [] stage stages = refl
  first_stage (x ∷ xs) stage stages =
      ap
        (λ (r : List F × List (Biquad fl)).
          ((stages_step (biquad_step fl x stage).0 stages).0 ∷ r.0, r.1))
        (first_stage xs (biquad_step fl x stage).1
          (stages_step (biquad_step fl x stage).0 stages).1)

  -- A cascade runs the whole buffer through one stage after the other; that is the same as to run
  -- each sample through all stages, in the samples and in the state left behind.
  pub cascade_process-samples :
      (xs : List F) (stages : List (Biquad fl))
      → cascade_process fl xs stages ≡ run_over stages_step xs stages
  unfolding cascade_process biquad_process
  cascade_process-samples xs [] = sym (no_stages xs)
  cascade_process-samples xs (stage ∷ stages) =
      ap (λ (r : List F × List (Biquad fl)). (r.0, (run_over (biquad_step fl) xs stage).1 ∷ r.1))
        (cascade_process-samples (run_over (biquad_step fl) xs stage).0 stages)
      ∙ sym (first_stage xs stage stages)

  -- How a stream is cut into buffers does not matter to a cascade.
  pub cascade_process-append :
      (xs ys : List F) (stages : List (Biquad fl))
      → cascade_process fl (xs ++ ys) stages ≡ (
        (cascade_process fl xs stages).0
            ++ (cascade_process fl ys (cascade_process fl xs stages).1).0,
        (cascade_process fl ys (cascade_process fl xs stages).1).1,
      )
  cascade_process-append xs ys stages =
      let after = cascade_process-samples ys (run_over stages_step xs stages).1 in
      rw (cascade_process-samples (xs ++ ys) stages, cascade_process-samples xs stages, after)
        (run_over-append stages_step xs ys stages)
