-- ===== src/Voice/Source/Slots.antt =====
-- The slots of the effect chains
-- (addon/extensions/task_force_radio_pipe/src/Voice/RemoteVoiceSource.cpp: chainForPath).
use task_force_radio_standal.Base.{
  if_keeps, length, take, drop, length-append, take-append, replicate, ℕ, zero, suc, ◌+◌, ◌≡◌, refl,
  ap, ◌∙◌, true, Option, none, some, List, [], ◌∷◌, ◌++◌, map, arith,
}
use task_force_radio_standal.Float.{Float}
use task_force_radio_standal.Geometry.{zero_f}
use task_force_radio_standal.Voice.Dsp.{SourceEffect, effect_eq}
use task_force_radio_standal.Voice.Dsp.Chain.{Chain, chain_process}
use task_force_radio_standal.Voice.Dsp.Chain.Frame.{chain_process-Keeps, new_chain-effect}
use task_force_radio_standal.Voice.Source.{
  RemoteSourceState, Decoded, Source, stereo_samples, channel_gains,
}
use task_force_radio_standal.Voice.Source.Mixdown.{
  Codec, decoded_shorts, of_short, chain_in, with_slot, run_path, add_stereo, mix_paths, mix_frame,
}
use mathlib.Core.List.{append-nil, append_assoc}

-- What a slot is used for, seen without the state of its chain.
set_slot : ℕ → SourceEffect → List (Option SourceEffect) → List (Option SourceEffect)
set_slot zero effect [] = some effect ∷ []
set_slot zero effect (c ∷ cs) = some effect ∷ cs
set_slot (suc i) effect [] = none ∷ set_slot i effect []
set_slot (suc i) effect (c ∷ cs) = c ∷ set_slot i effect cs

effect_eq-eq : (a b : SourceEffect) → effect_eq a b ≡ true → a ≡ b
unfolding effect_eq
effect_eq-eq a b h = ground arith

module _ (fl : Float) where
  open fl use {F, D}

  abbrev effect_of : Option (Chain fl) → Option SourceEffect
  effect_of none = none
  effect_of (some c) = some c.effect

  abbrev pub effects : List (Option (Chain fl)) → List (Option SourceEffect)
  effects [] = []
  effects (slot ∷ cs) = effect_of slot ∷ effects cs

  chain_in-effect :
      (effect : SourceEffect) (draws : ℕ → D) (slot : Option (Chain fl))
      → (chain_in fl effect draws slot).effect ≡ effect
  unfolding chain_in
  chain_in-effect effect draws none = new_chain-effect fl effect draws
  chain_in-effect effect draws (some c) =
      if_keeps (λ (r : Chain fl). r.effect ≡ effect) (effect_eq c.effect effect)
        (λ same. effect_eq-eq c.effect effect same) (λ _. new_chain-effect fl effect draws)

  with_slot-effects :
      (i : ℕ) (f : Option (Chain fl) → List F × Chain fl) (effect : SourceEffect)
      (cs : List (Option (Chain fl)))
      → ((slot : Option (Chain fl)) → (f slot).1.effect ≡ effect)
      → effects (with_slot fl i f cs).1 ≡ set_slot i effect (effects cs)
  unfolding with_slot set_slot
  with_slot-effects zero f effect [] h = ap (λ e. some e ∷ []) (h none)
  with_slot-effects zero f effect (slot ∷ cs) h = ap (λ e. some e ∷ effects cs) (h slot)
  with_slot-effects (suc i) f effect [] h = ap (λ l. none ∷ l) (with_slot-effects i f effect [] h)
  with_slot-effects (suc i) f effect (slot ∷ cs) h =
      ap (λ l. effect_of slot ∷ l) (with_slot-effects i f effect cs h)

  set_slots :
      ℕ → List (RemoteSourceState fl) → List (Option SourceEffect) → List (Option SourceEffect)
  set_slots index [] cs = cs
  set_slots index (p ∷ ps) cs = set_slots (suc index) ps (set_slot index p.effect cs)

  mix_paths-effects :
      (draws : ℕ → ℕ → D) (index : ℕ) (mono : List F) (ps : List (RemoteSourceState fl))
      (cs : List (Option (Chain fl))) (acc : List F)
      → effects (mix_paths fl draws index mono ps cs acc).1 ≡ set_slots index ps (effects cs)
  unfolding mix_paths run_path set_slots
  mix_paths-effects draws index mono [] cs acc = refl
  mix_paths-effects draws index mono (p ∷ ps) cs acc =
      let f : Option (Chain fl) → List F × Chain fl =
        λ slot. chain_process fl mono p.error_level (chain_in fl p.effect (draws index) slot) in
      let slot_is = with_slot-effects index f p.effect cs (λ slot.
        (chain_process-Keeps fl mono p.error_level (chain_in fl p.effect (draws index) slot)).1
        ∙ chain_in-effect p.effect (draws index) slot) in
      mix_paths-effects draws (suc index) mono ps (with_slot fl index f cs).1
        (add_stereo fl (channel_gains fl p) (with_slot fl index f cs).0 acc)
      ∙ ap (set_slots (suc index) ps) slot_is

  set_slot-append :
      (done cs : List (Option SourceEffect)) (effect : SourceEffect)
      → set_slot (length done) effect (done ++ cs) ≡ (done ++ some effect ∷ []) ++ drop 1 cs
  unfolding set_slot
  set_slot-append [] [] effect = refl
  set_slot-append [] (c ∷ cs) effect = refl
  set_slot-append (d ∷ done) cs effect = ap (λ l. d ∷ l) (set_slot-append done cs effect)

  -- One slot per path, with its effect.
  abbrev pub slots : List (RemoteSourceState fl) → List (Option SourceEffect)
  slots [] = []
  slots (p ∷ ps) = some p.effect ∷ slots ps

  the_length : (n : ℕ) → n + 0 ≡ n
  the_length n = omega arith

  past_one : (m n : ℕ) → m + suc n ≡ m + 1 + n
  past_one m n = omega arith

  suc_plus : (n : ℕ) → suc n ≡ n + 1
  suc_plus n = omega arith

  none_before : (n : ℕ) → 0 + n ≡ n
  none_before n = omega arith

  set_slots-slots :
      (done : List (Option SourceEffect)) (ps : List (RemoteSourceState fl))
      (cs : List (Option SourceEffect))
      → take (length done + length ps) (set_slots (length done) ps (done ++ cs)) ≡ done ++ slots ps
  unfolding set_slots
  set_slots-slots done [] cs = rw (the_length (length done), append-nil done) (take-append done cs)
  set_slots-slots done (p ∷ ps) cs =
      let rest = set_slots-slots (done ++ some p.effect ∷ []) ps (drop 1 cs) in
      rw
        (
          set_slot-append done cs p.effect,
          past_one (length done) (length ps),
          suc_plus (length done),
        )
        (rw
          (
            length-append done (some p.effect ∷ []),
            append_assoc done (some p.effect ∷ []) (slots ps),
          )
          at rest)

  effects-take : (n : ℕ) (cs : List (Option (Chain fl))) → effects (take n cs) ≡ take n (effects cs)
  effects-take zero cs = refl
  effects-take (suc n) [] = refl
  effects-take (suc n) (slot ∷ cs) = ap (λ l. effect_of slot ∷ l) (effects-take n cs)

  -- A mix leaves one chain per path, in the paths' order and each of its path's effect, whatever
  -- chains there were.
  pub mix_frame-slots :
      (codec : Codec fl) (d : Decoded) (s : Source fl)
      → effects (mix_frame fl codec d s).chains ≡ slots s.render_states
  unfolding mix_frame
  mix_frame-slots codec d s =
      let draws = codec.draws s.session_id (length (d ∷ s.decoder)) in
      let mono = map (of_short fl) (decoded_shorts fl codec (d ∷ s.decoder)) in
      let blank = replicate stereo_samples (zero_f fl) in
      let n = length s.render_states in
      effects-take n (mix_paths fl draws 0 mono s.render_states s.chains blank).1
      ∙ ap (take n) (mix_paths-effects draws 0 mono s.render_states s.chains blank)
      ∙ rw (none_before n) at (set_slots-slots [] s.render_states (effects s.chains))
