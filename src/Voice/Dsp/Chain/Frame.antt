-- ===== src/Voice/Dsp/Chain/Frame.antt =====
-- What the effect chain keeps of a frame
-- (addon/extensions/task_force_radio_pipe/src/Voice/Dsp/RadioEffectChain.cpp: process).
use task_force_radio_standal.Base.{
  length, run_over, length-run_over, ℕ, suc, ◌+◌, ◌<◌, ◌≡◌, refl, ap, ◌∙◌, Option, none, some, List,
  [], ◌∷◌, map, arith,
}
use task_force_radio_standal.Float.{Float}
use task_force_radio_standal.Voice.Dsp.{
  SourceEffect, direct, sw, lr, airborne, dd, phone, speaker, intercom, Biquad,
}
use task_force_radio_standal.Voice.Dsp.Stages.{length-biquad_process, length-cascade_process}
use task_force_radio_standal.Voice.Dsp.Chain.{
  Chain, new_chain, error_levels, error_part, calc_error_level, foldback, modulate, filter_by,
  cascade_by, fold_threshold, process_distorted, drop_sample, process_diver, process_band,
  process_by, chain_process,
}

pub length-map {ℓ κ} :
    {A : Type ℓ} {B : Type κ} (f : A → B) (xs : List A) → length (map f xs) ≡ length xs
length-map f [] = refl
length-map f (x ∷ xs) = ap suc (length-map f xs)

module _ (fl : Float) where
  open fl use {F, D}

  -- A loop over samples whose every step keeps the effect keeps it.
  run_over-effect :
      (f : F → Chain fl → F × Chain fl)
      → ((x : F) (c : Chain fl) → (f x c).1.effect ≡ c.effect)
      → (xs : List F) (c : Chain fl) → (run_over f xs c).1.effect ≡ c.effect
  unfolding run_over
  run_over-effect f keeps [] c = refl
  run_over-effect f keeps (x ∷ xs) c = run_over-effect f keeps xs (f x c).1 ∙ keeps x c

  length-filter_by :
      (buffer : List F) (o : Option (Biquad fl)) → length (filter_by fl buffer o).0 ≡ length buffer
  unfolding filter_by
  length-filter_by buffer none = refl
  length-filter_by buffer (some stage) = length-biquad_process fl buffer stage

  length-cascade_by :
      (buffer : List F) (o : Option (List (Biquad fl)))
      → length (cascade_by fl buffer o).0 ≡ length buffer
  unfolding cascade_by
  length-cascade_by buffer none = refl
  length-cascade_by buffer (some stages) = length-cascade_process fl buffer stages

  -- A frame stays as long as it is, and the chain stays one of its effect.
  Keeps : List F → Chain fl → List F × Chain fl → Type 0
  Keeps buffer c r = (length r.0 ≡ length buffer) × (r.1.effect ≡ c.effect)

  distorted-Keeps :
      (buffer : List F) (level : F) (c : Chain fl)
      → Keeps buffer c (process_distorted fl buffer level c)
  unfolding Keeps process_distorted
  distorted-Keeps buffer raw c =
      let level = calc_error_level fl raw in
      let folded = map (foldback fl (fold_threshold fl buffer level)) buffer in
      let r = run_over (modulate fl level) folded c in
      let high = filter_by fl r.0 r.1.high_pass in
      (
        length-filter_by high.0 r.1.low_pass
            ∙ length-filter_by r.0 r.1.high_pass
            ∙ length-run_over (modulate fl level) folded c
            ∙ length-map (foldback fl (fold_threshold fl buffer level)) buffer,
        run_over-effect (modulate fl level) (unfold modulate in λ x c'. refl) folded c,
      )

  diver-Keeps :
      (buffer : List F) (level : F) (c : Chain fl)
      → Keeps buffer c (process_diver fl buffer level c)
  unfolding Keeps process_diver
  diver-Keeps buffer level c =
      let kept = run_over (drop_sample fl level) buffer (c.drawn, c.draws) in
      (
        length-map _ (cascade_by fl kept.0 c.band_pass).0
            ∙ length-cascade_by kept.0 c.band_pass
            ∙ length-run_over (drop_sample fl level) buffer (c.drawn, c.draws),
        refl,
      )

  band-Keeps : (buffer : List F) (c : Chain fl) → Keeps buffer c (process_band fl buffer c)
  unfolding Keeps process_band
  band-Keeps buffer c = (length-cascade_by buffer c.band_pass, refl)

  by-Keeps :
      (effect : SourceEffect) (buffer : List F) (level : F) (c : Chain fl)
      → Keeps buffer c (process_by fl effect buffer level c)
  unfolding process_by
  by-Keeps direct buffer level c = unfold Keeps in (refl, refl)
  by-Keeps dd buffer level c = diver-Keeps buffer level c
  by-Keeps phone buffer level c = band-Keeps buffer c
  by-Keeps speaker buffer level c = band-Keeps buffer c
  by-Keeps sw buffer level c = distorted-Keeps buffer level c
  by-Keeps lr buffer level c = distorted-Keeps buffer level c
  by-Keeps airborne buffer level c = distorted-Keeps buffer level c
  by-Keeps intercom buffer level c = distorted-Keeps buffer level c

  pub chain_process-Keeps :
      (buffer : List F) (level : F) (c : Chain fl)
      → (length (chain_process fl buffer level c).0 ≡ length buffer)
        × ((chain_process fl buffer level c).1.effect ≡ c.effect)
  unfolding chain_process Keeps
  chain_process-Keeps buffer level c = by-Keeps c.effect buffer level c

  pub new_chain-effect :
      (effect : SourceEffect) (draws : ℕ → D) → (new_chain fl effect draws).effect ≡ effect
  unfolding new_chain
  new_chain-effect direct draws = refl
  new_chain-effect dd draws = refl
  new_chain-effect phone draws = refl
  new_chain-effect speaker draws = refl
  new_chain-effect sw draws = refl
  new_chain-effect lr draws = refl
  new_chain-effect airborne draws = refl
  new_chain-effect intercom draws = refl

  -- The distortion is interpolated between two entries of the table, whatever the error level is,
  -- below nothing and above one included: both places lie in the table.
  pub error_part_bounds : (level : F) → error_part fl level + 1 < length (error_levels fl)
  unfolding error_part
  error_part_bounds level = ground arith
