-- ===== src/Voice/Mixer/Kept.antt =====
-- What the operations on a mixer keep of it
-- (addon/extensions/task_force_radio_pipe/src/Voice/PlaybackMixer.cpp).
use task_force_radio_standal.Base.{
  ltb, leb, Option-cases, nat_eq, if_keeps, length, All, Text, text_is_eq, ℕ, zero, suc, ◌+◌, ◌*◌,
  ◌/◌, ◌≡◌, refl, ◌∙◌, inl, inr, Bool, true, false, ◌&&◌, Option, none, some, List, [], ◌∷◌,
}
use task_force_radio_standal.Base.Map.{Map, lookup, All-insert, All-lookup}
use task_force_radio_standal.Float.{Float}
use task_force_radio_standal.Voice.Source.{
  RemoteSourceState, BeepClip, Source, enqueue_opus_frame, set_states, trigger_beep,
}
use task_force_radio_standal.Voice.Source.Mixdown.{Codec}
use task_force_radio_standal.Voice.Source.Rendered.{IsFramed}
use task_force_radio_standal.Voice.Mixer.{
  find_beep_clip, Mixer, on_source, trigger_remote_beep, trigger_local_beep,
}
use task_force_radio_standal.Voice.Mixer.Chunk.{render_all, generate_chunk}
use task_force_radio_standal.Voice.Mixer.Device.{
  top_up, read_frame, advance, fill_frames, drop_consumed, fill_device,
}
use task_force_radio_standal.Voice.Mixer.Filled.{IsMixable, generate_chunk-appends}
use mathlib.Core.Path.{subst}

module _ (fl : Float) where
  open fl use {F, D, d_trunc}

  -- Every source gives whole frames.
  abbrev pub AreFramed : Mixer fl → Type 0
  AreFramed m = All (λ e. IsFramed fl e.1) m.sources

  -- The debug mode is the same, there are no new sources where there were none, and the sources
  -- stay ones that give whole frames.
  pub record Keeps (m m' : Mixer fl) : Type 0 where
    pub forced : m'.debug_force_audible ≡ m.debug_force_audible
    pub none_new : m.sources ≡ [] → m'.sources ≡ []
    pub framed : AreFramed m → AreFramed m'

  pub Keeps-refl : (m : Mixer fl) → Keeps m m
  Keeps-refl m = record { forced = refl; none_new = λ h. h; framed = λ h. h }

  pub Keeps-trans : (m m' m'' : Mixer fl) → Keeps m m' → Keeps m' m'' → Keeps m m''
  Keeps-trans m m' m'' h h' = record {
    forced = h'.forced ∙ h.forced;
    none_new = λ e. h'.none_new (h.none_new e);
    framed = λ a. h'.framed (h.framed a);
  }

  none_there :
      (k : ℕ) (sources : Map ℕ (Source fl)) (source : Source fl)
      → lookup k sources ≡ some source
      → sources ≡ []
      → ⊥
  unfolding lookup
  none_there k [] source there h = cc
  none_there k (e ∷ sources) source there h = cc

  pub on_source-Keeps :
      (k : ℕ) (f : Source fl → Source fl) (m : Mixer fl)
      → ((s : Source fl) → IsFramed fl s → IsFramed fl (f s))
      → Keeps m (on_source fl k f m)
  unfolding on_source
  on_source-Keeps k f m h = elim (Option-cases (lookup k m.sources)) [
    | inl missing ↦ rw (missing, on_source) (Keeps-refl m)
    | inr (source, there) ↦
        let P : ℕ × Source fl → Type 0 = λ e. IsFramed fl e.1 in
        rw (there, on_source)
          (record {
            forced = refl;
            none_new = λ e. absurd (none_there k m.sources source there e);
            framed = λ a.
                All-insert P k (f source) m.sources (h source (All-lookup P k m.sources a there)) a;
          })
  ]

  pub set_states-IsFramed :
      (states : List (RemoteSourceState fl)) (s : Source fl)
      → IsFramed fl s
      → IsFramed fl (set_states fl states s)
  unfolding set_states
  set_states-IsFramed states s h = record {
    whole = h.whole;
    aligned = h.aligned;
    within = h.within;
  }

  pub enqueue_opus_frame-IsFramed :
      (opus : Text) (is_last : Bool) (s : Source fl)
      → IsFramed fl s
      → IsFramed fl (enqueue_opus_frame fl opus is_last s)
  unfolding enqueue_opus_frame
  enqueue_opus_frame-IsFramed opus is_last s h = record {
    whole = h.whole;
    aligned = h.aligned;
    within = h.within;
  }

  trigger_beep-IsFramed :
      (clip : BeepClip) (s : Source fl) → IsFramed fl s → IsFramed fl (trigger_beep fl clip s)
  unfolding trigger_beep
  trigger_beep-IsFramed clip s h = record {
    whole = h.whole;
    aligned = h.aligned;
    within = h.within;
  }

  pub trigger_remote_beep-Keeps :
      (session_id : ℕ) (subtype : Text) (start : Bool) (m : Mixer fl)
      → Keeps m (trigger_remote_beep fl session_id subtype start m)
  unfolding trigger_remote_beep
  trigger_remote_beep-Keeps session_id subtype start m =
      elim (Option-cases (find_beep_clip subtype false start)) [
        | inl missing ↦ rw (missing, trigger_remote_beep) (Keeps-refl m)
        | inr (clip, found) ↦
            rw (found, trigger_remote_beep)
              (on_source-Keeps session_id (trigger_beep fl clip) m (trigger_beep-IsFramed clip))
      ]

  pub trigger_local_beep-Keeps :
      (subtype : Text) (start : Bool) (m : Mixer fl)
      → Keeps m (trigger_local_beep fl subtype start m)
  unfolding trigger_local_beep
  trigger_local_beep-Keeps subtype start m =
      elim (Option-cases (find_beep_clip subtype true start)) [
        | inl missing ↦ rw (missing, trigger_local_beep) (Keeps-refl m)
        | inr (clip, found) ↦
            rw (found, trigger_local_beep)
              (record { forced = refl; none_new = λ h. h; framed = λ h. h })
      ]

  module _ (codec : Codec fl) where
    render_all-none :
        (sources : Map ℕ (Source fl)) (mix : List F)
        → sources ≡ []
        → (render_all fl codec sources mix).1 ≡ []
    unfolding render_all
    render_all-none [] mix h = refl
    render_all-none (e ∷ sources) mix h = cc

    generate_chunk-Keeps : (m : Mixer fl) → Keeps m (generate_chunk fl codec m)
    unfolding generate_chunk
    generate_chunk-Keeps m = record {
      forced = refl;
      none_new = λ h. render_all-none m.sources _ h;
      framed = λ a. unfold IsMixable in (generate_chunk-appends fl codec m a).1;
    }

    top_up-Keeps : (fuel : ℕ) (m : Mixer fl) → Keeps m (top_up fl codec fuel m)
    unfolding top_up
    top_up-Keeps zero m = Keeps-refl m
    top_up-Keeps (suc fuel) m =
        if_keeps (Keeps m) (leb (length m.mixed_48k / 2) (d_trunc m.resample_cursor + 1))
          (λ _.
            Keeps-trans m (generate_chunk fl codec m) _ (generate_chunk-Keeps m)
              (top_up-Keeps fuel (generate_chunk fl codec m)))
          (λ _. Keeps-refl m)

    -- The mixer behind a fill of the device.
    KeepsFilled : Mixer fl → Option (List (F × F) × Mixer fl) → Type 0
    KeepsFilled m none = Unit
    KeepsFilled m (some (frames, m')) = Keeps m m'

    KeepsFilled-trans :
        (m m' : Mixer fl) (o : Option (List (F × F) × Mixer fl))
        → Keeps m m'
        → KeepsFilled m' o
        → KeepsFilled m o
    unfolding KeepsFilled
    KeepsFilled-trans m m' none h h' = tt
    KeepsFilled-trans m m' (some (frames, m'')) h h' = Keeps-trans m m' m'' h h'

    -- One frame more.
    KeepsFilled-cons :
        (m : Mixer fl) (o : Option (F × F)) (r : Option (List (F × F) × Mixer fl))
        → KeepsFilled m r
        → KeepsFilled m (elim o [
          | none ↦ none
          | some frame ↦ elim r [ none ↦ none | some (frames, m'') ↦ some (frame ∷ frames, m'') ]
        ])
    unfolding KeepsFilled
    KeepsFilled-cons m none r h = tt
    KeepsFilled-cons m (some frame) none h = tt
    KeepsFilled-cons m (some frame) (some (frames, m'')) h = h

    fill_frames-Keeps :
        (step : D) (n : ℕ) (m : Mixer fl) → KeepsFilled m (fill_frames fl codec step n m)
    unfolding fill_frames
    fill_frames-Keeps step zero m = unfold KeepsFilled in Keeps-refl m
    fill_frames-Keeps step (suc n) m =
        let m' = top_up fl codec (d_trunc m.resample_cursor + 2) m in
        let kept = top_up-Keeps (d_trunc m.resample_cursor + 2) m in
        let moved : Keeps m (advance fl codec step m') = record {
          forced = kept.forced;
          none_new = kept.none_new;
          framed = kept.framed;
        } in
        KeepsFilled-cons m (read_frame fl codec m') _ (
          KeepsFilled-trans m (advance fl codec step m') _ moved
            (fill_frames-Keeps step n (advance fl codec step m')))

    drop_consumed-Keeps : (m : Mixer fl) → Keeps m (drop_consumed fl codec m)
    unfolding drop_consumed
    drop_consumed-Keeps m =
        if_keeps (Keeps m)
          (ltb 0 (d_trunc m.resample_cursor)
            && leb (d_trunc m.resample_cursor * 2) (length m.mixed_48k))
          (λ _. record { forced = refl; none_new = λ h. h; framed = λ h. h }) (λ _. Keeps-refl m)

    drop_filled :
        (m : Mixer fl) (o : Option (List (F × F) × Mixer fl))
        → KeepsFilled m o
        → KeepsFilled m
            (elim o [ none ↦ none | some (frames, m') ↦ some (frames, drop_consumed fl codec m') ])
    unfolding KeepsFilled
    drop_filled m none h = tt
    drop_filled m (some (frames, m')) h =
        Keeps-trans m m' (drop_consumed fl codec m') h (drop_consumed-Keeps m')

    pub fill_device-Keeps :
        (step : D) (needed : ℕ) (frames : List (F × F)) (m m' : Mixer fl)
        → fill_device fl codec step needed m ≡ some (frames, m')
        → Keeps m m'
    unfolding fill_device KeepsFilled
    fill_device-Keeps step needed frames m m' filled =
        subst (KeepsFilled m) filled
          (drop_filled m (fill_frames fl codec step needed m) (fill_frames-Keeps step needed m))
