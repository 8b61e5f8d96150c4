-- ===== src/Voice/Source/Playing.antt =====
-- A cue under way
-- (addon/extensions/task_force_radio_pipe/src/Voice/RemoteVoiceSource.cpp: triggerBeep, render).
use Prim.Native.Nat.{min}
use task_force_radio_standal.Base.{
  leb, if_keeps, take, drop, ℕ, ◌+◌, ◌-◌, ◌≡◌, refl, sym, ap, ◌∙◌, Option, none, some, List, arith,
}
use task_force_radio_standal.Float.{Float}
use task_force_radio_standal.Voice.Source.{RemoteSourceState, BeepClip, Source, channel_gains}
use task_force_radio_standal.Voice.Source.Mixdown.{Codec}
use task_force_radio_standal.Voice.Source.Render.{
  render_voice, take_triggered, take_beep, beep_total, radio_path_of, mix_clip, mix_heard, mix_beep,
  render,
}
use task_force_radio_standal.Voice.Source.Kept.{render_voice-KeepsCue}
use task_force_radio_standal.Voice.Source.Sound.{with_sounds, clip_sounds, mix_heard_sound}
use mathlib.Core.Path.{subst}

module _ (fl : Float) (codec : Codec fl) where
  open fl use {F}

  -- How far a callback plays a cue: not at all while the source is not heard as radio.
  abbrev pub played : Option (RemoteSourceState fl) → ℕ → ℕ → ℕ
  played none n left = 0
  played (some p) n left = min n left

  mix_heard-pos :
      (beep : Option BeepClip) (path : Option (RemoteSourceState fl)) (n : ℕ) (out : List F)
      (s : Source fl)
      → (mix_heard fl codec beep path n out s).1.beep_pos
        ≡ s.beep_pos + played path n (beep_total fl codec beep - s.beep_pos)
  unfolding mix_heard mix_clip
  mix_heard-pos none none n out s = omega arith
  mix_heard-pos none (some p) n out s = omega arith
  mix_heard-pos (some clip) none n out s = omega arith
  mix_heard-pos (some clip) (some p) n out s = ground arith

  mix_heard-out :
      (beep : Option BeepClip) (n : ℕ) (out : List F) (s : Source fl)
      → mix_heard fl codec beep none n out s ≡ (out, s)
  unfolding mix_heard
  mix_heard-out none n out s = refl
  mix_heard-out (some clip) n out s = refl

  -- A cue under way in a source that is heard by `path`.
  pub record IsPlaying (clip : BeepClip) (states : List (RemoteSourceState fl)) (at : ℕ)
      (s : Source fl) : Type 0 where
    pub heard_by : s.states ≡ states
    pub none_pending : s.pending_beep ≡ none
    pub clip_is : s.beep ≡ some clip
    pub pos_is : s.beep_pos ≡ at

  mix_heard-keeps :
      (beep : Option BeepClip) (path : Option (RemoteSourceState fl)) (n : ℕ) (out : List F)
      (s : Source fl)
      → let s' = (mix_heard fl codec beep path n out s).1 in
        (s'.states ≡ s.states) × (s'.pending_beep ≡ s.pending_beep) × (s'.beep ≡ s.beep)
  unfolding mix_heard mix_clip
  mix_heard-keeps none path n out s = (refl, refl, refl)
  mix_heard-keeps (some clip) none n out s = (refl, refl, refl)
  mix_heard-keeps (some clip) (some p) n out s =
      if_keeps {A = List F × Source fl}
        (λ r. (r.1.states ≡ s.states) × (r.1.pending_beep ≡ s.pending_beep) × (r.1.beep ≡ s.beep))
        (leb clip.count s.beep_pos) (λ _. (refl, refl, refl)) (λ _. (refl, refl, refl))

  -- How far a cue is after `n` frames more, by what the source is heard.
  abbrev pub advanced : List (RemoteSourceState fl) → BeepClip → ℕ → ℕ → ℕ
  advanced states clip n at = at + played (radio_path_of fl codec states) n (clip.count - at)

  mix_beep-IsPlaying :
      (clip : BeepClip) (states : List (RemoteSourceState fl)) (at n : ℕ) (out : List F)
      (s : Source fl)
      → IsPlaying clip states at s
      → IsPlaying clip states (advanced states clip n at) (mix_beep fl codec n out s).1
  unfolding mix_beep
  mix_beep-IsPlaying clip states at n out s h =
      let path = radio_path_of fl codec s.states in
      let (states_kept, pending_kept, beep_kept) = mix_heard-keeps s.beep path n out s in
      let moved = mix_heard-pos s.beep path n out s in
      let total = ap (beep_total fl codec) h.clip_is in
      record {
        heard_by = states_kept ∙ h.heard_by;
        none_pending = pending_kept ∙ h.none_pending;
        clip_is = beep_kept ∙ h.clip_is;
        pos_is =
            moved
            ∙ ap (λ (t : ℕ). s.beep_pos + played path n (t - s.beep_pos)) total
            ∙ ap (λ (a : ℕ). a + played path n (clip.count - a)) h.pos_is
            ∙ ap (λ l. advanced l clip n at) h.heard_by;
      }

  -- The source behind the voice of a callback, with the cue taken that was triggered.
  pub voiced : ℕ → Source fl → Source fl
  unfolding take_beep
  voiced n s = take_beep fl codec (render_voice fl codec n n s).1

  pub voiced-IsPlaying :
      (clip : BeepClip) (states : List (RemoteSourceState fl)) (at n : ℕ) (s : Source fl)
      → IsPlaying clip states at s
      → IsPlaying clip states at (voiced n s)
  unfolding voiced take_beep take_triggered
  voiced-IsPlaying clip states at n s h =
      let voice = render_voice fl codec n n s in
      let kept = render_voice-KeepsCue fl codec n n s in
      let still : take_triggered fl codec voice.1.pending_beep voice.1 ≡ voice.1 =
        ap (λ o. take_triggered fl codec o voice.1) (kept.pending_beep ∙ h.none_pending) in
      subst (IsPlaying clip states at) (sym still) (record {
        heard_by = kept.states ∙ h.heard_by;
        none_pending = kept.pending_beep ∙ h.none_pending;
        clip_is = kept.beep ∙ h.clip_is;
        pos_is = kept.beep_pos ∙ h.pos_is;
      })

  pub voiced_triggered :
      (clip : BeepClip) (n : ℕ) (s : Source fl)
      → s.pending_beep ≡ some clip
      → IsPlaying clip s.states 0 (voiced n s)
  unfolding voiced take_beep take_triggered
  voiced_triggered clip n s triggered =
      let voice = render_voice fl codec n n s in
      let kept = render_voice-KeepsCue fl codec n n s in
      let taken : take_triggered fl codec voice.1.pending_beep voice.1
          ≡ take_triggered fl codec (some clip) voice.1 =
        ap (λ o. take_triggered fl codec o voice.1) (kept.pending_beep ∙ triggered) in
      subst (IsPlaying clip s.states 0) (sym taken)
        (record { heard_by = kept.states; none_pending = refl; clip_is = refl; pos_is = refl })

  pub render-IsPlaying :
      (clip : BeepClip) (states : List (RemoteSourceState fl)) (at n : ℕ) (s : Source fl)
      → IsPlaying clip states at (voiced n s)
      → IsPlaying clip states (advanced states clip n at) (render fl codec n s).1
  unfolding render voiced
  render-IsPlaying clip states at n s h =
      mix_beep-IsPlaying clip states at n (render_voice fl codec n n s).0 (voiced n s) h

  -- The sound of a callback: the voice, and over it the piece of the clip that is due.
  pub render_sound :
      (clip : BeepClip) (p : RemoteSourceState fl) (states : List (RemoteSourceState fl)) (at n : ℕ)
      (s : Source fl)
      → radio_path_of fl codec states ≡ some p
      → IsPlaying clip states at (voiced n s)
      → (render fl codec n s).0
        ≡ with_sounds fl codec
            (channel_gains fl p)
            (take n (drop at (clip_sounds fl codec clip)))
            (render_voice fl codec n n s).0
  unfolding render voiced mix_beep
  render_sound clip p states at n s heard h =
      let voice = (render_voice fl codec n n s).0 in
      let path : radio_path_of fl codec (voiced n s).states ≡ some p =
        ap (radio_path_of fl codec) h.heard_by ∙ heard in
      ap
        (λ (o : Option BeepClip).
          (mix_heard fl codec o (radio_path_of fl codec (voiced n s).states) n voice
            (voiced n s)).0)
        h.clip_is
      ∙ ap
          (λ (o : Option (RemoteSourceState fl)).
            (mix_heard fl codec (some clip) o n voice (voiced n s)).0)
          path
      ∙ mix_heard_sound fl codec clip p at n voice (voiced n s) h.pos_is

  -- With no path, the voice alone.
  pub render_unheard :
      (clip : BeepClip) (states : List (RemoteSourceState fl)) (at n : ℕ) (s : Source fl)
      → radio_path_of fl codec states ≡ none
      → IsPlaying clip states at (voiced n s)
      → (render fl codec n s).0 ≡ (render_voice fl codec n n s).0
  unfolding render voiced mix_beep
  render_unheard clip states at n s unheard h =
      let voice = (render_voice fl codec n n s).0 in
      let path = ap (radio_path_of fl codec) h.heard_by ∙ unheard in
      ap
        (λ (o : Option (RemoteSourceState fl)).
          (mix_heard fl codec (voiced n s).beep o n voice (voiced n s)).0)
        path
      ∙ ap (λ (r : List F × Source fl). r.0) (mix_heard-out (voiced n s).beep n voice (voiced n s))
