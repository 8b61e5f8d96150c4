-- ===== src/Voice/Mixer.antt =====
-- The sources that are mixed
-- (addon/extensions/task_force_radio_pipe/src/Voice/PlaybackMixer.h and PlaybackMixer.cpp), and the
-- table of beeps (findBeepClip of RadioBeepAssets.cpp). Chunk mixes their samples, Device fills
-- the audio device's buffer.
pub mod Chunk
pub mod Device
pub mod Filled
pub mod Kept
pub mod Owned
pub mod Played
pub mod Session
pub mod Written
use task_force_radio_standal.Base.{
  ◌==◌, if◌then◌else◌, ==_iff, Bool-cases, Option-cases, nat_eq, Text, codes, text_eq, text_is_eq,
  ℕ, ◌≡◌, refl, sym, ◌∙◌, inl, inr, Bool, true, false, Option, none, some, List, [], ◌∷◌,
}
use task_force_radio_standal.Base.Int.{pos}
use task_force_radio_standal.Base.Map.{Map, lookup, insert, erase, lookup-insert}
use task_force_radio_standal.Float.{Float}
use task_force_radio_standal.Geometry.{zero_f, one_f}
use task_force_radio_standal.Voice.Dsp.{SourceEffect, direct}
use task_force_radio_standal.Voice.Source.{
  RemoteSourceState, BeepClip, Source, new_source, enqueue_opus_frame, set_states, trigger_beep,
}
use mathlib.Core.Path.{subst}

-- The four clips of a radio family: local start and end, remote start and end.
abbrev clip_of : Text → Bool → Bool → ℕ → ℕ → ℕ → ℕ → BeepClip
clip_of family is_local is_start local_start local_end remote_start remote_end = record {
  family = family;
  is_local = is_local;
  is_start = is_start;
  count =
      if is_local
      then (if is_start then local_start else local_end)
      else (if is_start then remote_start else remote_end);
}

unfoldable pub find_beep_clip : Text → Bool → Bool → Option BeepClip
unfolding text_eq
find_beep_clip subtype is_local is_start =
    if text_eq subtype (codes "digital")
    then some (clip_of (codes "digital") is_local is_start 7929 7929 12669 22570)
    else if text_eq subtype (codes "digital_lr")
    then some (clip_of (codes "digital_lr") is_local is_start 19616 19876 8970 19644)
    else if text_eq subtype (codes "airborne")
    then some (clip_of (codes "airborne") is_local is_start 17310 21077 24000 24000)
    else if text_eq subtype (codes "dd")
    then some (clip_of (codes "dd") is_local is_start 9731 3047 10190 11513)
    else none

pub record Mixer (fl : Float) : Type 0 where
  pub sources : Map ℕ (Source fl)
  pub debug_force_audible : Bool
  pub master_volume : fl.F
  pub is_muted : Bool
  pub local_beep : Option BeepClip
  pub local_beep_pos : ℕ
  -- interleaved stereo, ahead of the resampler, whose cursor counts stereo frames
  pub mixed_48k : List fl.F
  pub resample_cursor : fl.D

module _ (fl : Float) where
  open fl use {F, lt, decimal}

  abbrev pub new_mixer : Mixer fl
  new_mixer = record {
    sources = [];
    debug_force_audible = false;
    master_volume = one_f fl;
    is_muted = false;
    local_beep = none;
    local_beep_pos = 0;
    mixed_48k = [];
    resample_cursor = fl.d_decimal 0 0;
  }

  abbrev forced_path : RemoteSourceState fl
  forced_path = record {
    gain = one_f fl;
    azimuth_radians = zero_f fl;
    muted = false;
    effect = SourceEffect.direct;
    error_level = zero_f fl;
    stereo_mode = pos 0;
  }

  unfoldable pub add_source : ℕ → Text → Mixer fl → Mixer fl
  unfolding new_source set_states
  add_source session_id uid m = elim (lookup session_id m.sources) [
    | some _ ↦ m
    | none ↦
        let source = new_source fl session_id uid in
        let source' =
          if m.debug_force_audible then set_states fl (forced_path ∷ []) source else source in
        record m { sources = insert session_id source' m.sources }
  ]

  -- An operation on the source of a session, if it is there.
  unfoldable pub on_source : ℕ → (Source fl → Source fl) → Mixer fl → Mixer fl
  on_source session_id f m = elim (lookup session_id m.sources) [
    | none ↦ m
    | some source ↦ record m { sources = insert session_id (f source) m.sources }
  ]

  abbrev pub set_source_states : ℕ → List (RemoteSourceState fl) → Mixer fl → Mixer fl
  set_source_states session_id states = on_source session_id (set_states fl states)

  abbrev pub enqueue_for : ℕ → Text → Bool → Mixer fl → Mixer fl
  enqueue_for session_id opus is_last = on_source session_id (enqueue_opus_frame fl opus is_last)

  unfoldable pub remove_source : ℕ → Mixer fl → Mixer fl
  remove_source session_id m = record m { sources = erase session_id m.sources }

  unfoldable pub remove_all_sources : Mixer fl → Mixer fl
  remove_all_sources m = record m { sources = [] }

  unfoldable pub trigger_remote_beep : ℕ → Text → Bool → Mixer fl → Mixer fl
  unfolding on_source trigger_beep
  trigger_remote_beep session_id subtype start m = elim (find_beep_clip subtype false start) [
    | none ↦ m
    | some clip ↦ on_source session_id (trigger_beep fl clip) m
  ]

  unfoldable pub trigger_local_beep : Text → Bool → Mixer fl → Mixer fl
  trigger_local_beep subtype start m = elim (find_beep_clip subtype true start) [
    | none ↦ m
    | some clip ↦ record m { local_beep = some clip; local_beep_pos = 0 }
  ]

  -- `std::clamp(volume, 0.0f, 2.0f)`
  unfoldable pub set_master_volume : F → Mixer fl → Mixer fl
  set_master_volume volume m = record m {
    master_volume =
        if lt volume (zero_f fl)
        then zero_f fl
        else if lt (decimal 2 0) volume
        then decimal 2 0
        else volume;
  }

  unfoldable pub set_muted : Bool → Mixer fl → Mixer fl
  set_muted muted m = record m { is_muted = muted }

  pub on_source-other :
      (k j : ℕ) (f : Source fl → Source fl) (m : Mixer fl)
      → (k == j) ≡ false
      → lookup j (on_source k f m).sources ≡ lookup j m.sources
  unfolding on_source
  on_source-other k j f m other = elim (Option-cases (lookup k m.sources)) [
    | inl none_there ↦ rw (none_there, on_source) refl
    | inr (source, there) ↦
        rw (there, on_source) (rw (lookup-insert k j (f source) m.sources, other) refl)
  ]

  pub on_source-here :
      (k : ℕ) (f : Source fl → Source fl) (m : Mixer fl) (source : Source fl)
      → lookup k m.sources ≡ some source
      → lookup k (on_source k f m).sources ≡ some (f source)
  unfolding on_source
  on_source-here k f m source there =
      rw (there, on_source) (rw (lookup-insert k k (f source) m.sources, (==_iff k k).1 refl) refl)

  -- What `lookup` sees of an operation on one source.
  pub lookup-on_source :
      (k j : ℕ) (f : Source fl → Source fl) (m : Mixer fl) (source : Source fl)
      → lookup j m.sources ≡ some source
      → lookup j (on_source k f m).sources ≡ some (if k == j then f source else source)
  lookup-on_source k j f m source there = elim (Bool-cases (k == j)) [
    | inl same ↦ rw same (
        subst (λ i. lookup i (on_source k f m).sources ≡ some (f source)) ((==_iff k j).0 same)
          (on_source-here k f m source
            (subst (λ i. lookup i m.sources ≡ some source) (sym ((==_iff k j).0 same)) there)))
    | inr other ↦ rw other (on_source-other k j f m other ∙ there)
  ]
