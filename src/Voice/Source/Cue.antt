-- ===== src/Voice/Source/Cue.antt =====
-- The cue over a remote speaker's voice
-- (addon/extensions/task_force_radio_pipe/src/Voice/RemoteVoiceSource.cpp: triggerBeep, render).
use Prim.Native.Nat.{min}
use task_force_radio_standal.Base.{
  take, drop, ℕ, zero, suc, ◌+◌, ◌-◌, ◌*◌, ◌≤◌, ◌≡◌, ap, ◌∙◌, none, some, List, arith,
}
use task_force_radio_standal.Float.{Float}
use task_force_radio_standal.Voice.Source.{RemoteSourceState, BeepClip, Source, channel_gains}
use task_force_radio_standal.Voice.Source.Mixdown.{Codec}
use task_force_radio_standal.Voice.Source.Render.{render_voice, radio_path_of, render}
use task_force_radio_standal.Voice.Source.Playing.{
  played, IsPlaying, advanced, voiced, voiced-IsPlaying, voiced_triggered, render-IsPlaying,
  render_sound, render_unheard,
}
use task_force_radio_standal.Voice.Source.Sound.{with_sounds, clip_sounds, drop-clip_sounds}
use mathlib.Core.Path.{subst}

module _ (fl : Float) (codec : Codec fl) where
  open fl use {F}

  -- The source after `k` callbacks of `n` frames.
  unfoldable pub render_times : ℕ → ℕ → Source fl → Source fl
  unfolding render
  render_times zero n s = s
  render_times (suc k) n s = render_times k n (render fl codec n s).1

  -- A cue that plays is where the callbacks since have brought it.
  heard_on :
      (clip : BeepClip) (states : List (RemoteSourceState fl)) (p : RemoteSourceState fl)
      (k at n : ℕ) (s : Source fl)
      → radio_path_of fl codec states ≡ some p
      → at ≤ clip.count
      → IsPlaying fl codec clip states at s
      → IsPlaying fl codec clip states (min clip.count (at + k * n)) (render_times k n s)
  unfolding render_times
  heard_on clip states p zero at n s heard within h =
      let same : at ≡ min clip.count (at + 0 * n) = omega arith in
      subst (λ (a : ℕ). IsPlaying fl codec clip states a s) same h
  heard_on clip states p (suc k) at n s heard within h =
      let next =
        render-IsPlaying fl codec clip states at n s
          (voiced-IsPlaying fl codec clip states at n s h) in
      let moved : advanced fl codec states clip n at ≡ at + min n (clip.count - at) =
        ap (λ o. at + played fl codec o n (clip.count - at)) heard in
      let later =
        heard_on clip states p k (advanced fl codec states clip n at) n (render fl codec n s).1
          heard (omega (arith, moved)) next in
      let same : min clip.count (advanced fl codec states clip n at + k * n)
          ≡ min clip.count (at + suc k * n) =
        grind (arith, moved) in
      subst (λ (a : ℕ). IsPlaying fl codec clip states a (render_times k n (render fl codec n s).1))
        same later

  -- What is due of a triggered cue in the callback behind `k` others.
  due :
      (clip : BeepClip) (p : RemoteSourceState fl) (k n : ℕ) (s : Source fl)
      → s.pending_beep ≡ some clip
      → radio_path_of fl codec s.states ≡ some p
      → IsPlaying fl codec clip s.states
          (min clip.count (k * n))
          (voiced fl codec n (render_times k n s))
  unfolding render_times
  due clip p zero n s triggered heard =
      let same : 0 ≡ min clip.count (0 * n) = omega arith in
      subst (λ (a : ℕ). IsPlaying fl codec clip s.states a (voiced fl codec n s)) same
        (voiced_triggered fl codec clip n s triggered)
  due clip p (suc k) n s triggered heard =
      let moved : advanced fl codec s.states clip n 0 ≡ 0 + min n (clip.count - 0) =
        ap (λ o. 0 + played fl codec o n (clip.count - 0)) heard in
      let first =
        render-IsPlaying fl codec clip s.states 0 n s
          (voiced_triggered fl codec clip n s triggered) in
      let later =
        heard_on clip s.states p k (advanced fl codec s.states clip n 0) n (render fl codec n s).1
          heard (omega (arith, moved)) first in
      let same : min clip.count (advanced fl codec s.states clip n 0 + k * n)
          ≡ min clip.count (suc k * n) =
        grind (arith, moved) in
      voiced-IsPlaying fl codec clip s.states (min clip.count (suc k * n)) n
        (render_times k n (render fl codec n s).1)
        (subst
          (λ (a : ℕ). IsPlaying fl codec clip s.states a (render_times k n (render fl codec n s).1))
          same later)

  -- A triggered cue is played from its start to its end while the source is heard as radio,
  -- whatever the size of the callbacks: of callbacks of `n` frames, the one behind `k` others gives
  -- the voice with the clip's samples from `k` * `n` on, `n` of them or as many as are left, mixed
  -- over its front with the path's gains, and the cue has then come to (k + 1) * n samples, or to
  -- its end.
  pub cue_is_played :
      (clip : BeepClip) (p : RemoteSourceState fl) (k n : ℕ) (s : Source fl)
      → s.pending_beep ≡ some clip
      → radio_path_of fl codec s.states ≡ some p
      → let s' = render_times k n s in
        ((render fl codec n s').0
          ≡ with_sounds fl codec
              (channel_gains fl p)
              (take n (drop (k * n) (clip_sounds fl codec clip)))
              (render_voice fl codec n n s').0)
        × ((render fl codec n s').1.beep_pos ≡ min clip.count (suc k * n))
  cue_is_played clip p k n s triggered heard =
      let s' = render_times k n s in
      let at = min clip.count (k * n) in
      let playing = due clip p k n s triggered heard in
      let moved : advanced fl codec s.states clip n at ≡ at + min n (clip.count - at) =
        ap (λ o. at + played fl codec o n (clip.count - at)) heard in
      (
        render_sound fl codec clip p s.states at n s' heard playing
            ∙ ap
                (λ (l : List F).
                  with_sounds fl codec (channel_gains fl p) (take n l)
                    (render_voice fl codec n n s').0)
                (drop-clip_sounds fl codec clip (k * n)),
        (render-IsPlaying fl codec clip s.states at n s' playing).pos_is ∙ grind (arith, moved),
      )

  waits_on :
      (clip : BeepClip) (states : List (RemoteSourceState fl)) (k n : ℕ) (s : Source fl)
      → radio_path_of fl codec states ≡ none
      → IsPlaying fl codec clip states 0 s
      → IsPlaying fl codec clip states 0 (render_times k n s)
  unfolding render_times
  waits_on clip states zero n s unheard h = h
  waits_on clip states (suc k) n s unheard h =
      let still : advanced fl codec states clip n 0 ≡ 0 =
        ap (λ o. 0 + played fl codec o n (clip.count - 0)) unheard ∙ omega arith in
      waits_on clip states k n (render fl codec n s).1 unheard (
        subst (λ at. IsPlaying fl codec clip states at (render fl codec n s).1) still
          (render-IsPlaying fl codec clip states 0 n s
            (voiced-IsPlaying fl codec clip states 0 n s h)))

  -- A triggered cue that is not heard yet stands at its start in every callback.
  due_unheard :
      (clip : BeepClip) (k n : ℕ) (s : Source fl)
      → s.pending_beep ≡ some clip
      → radio_path_of fl codec s.states ≡ none
      → IsPlaying fl codec clip s.states 0 (voiced fl codec n (render_times k n s))
  unfolding render_times
  due_unheard clip zero n s triggered unheard = voiced_triggered fl codec clip n s triggered
  due_unheard clip (suc k) n s triggered unheard =
      let still : advanced fl codec s.states clip n 0 ≡ 0 =
        ap (λ o. 0 + played fl codec o n (clip.count - 0)) unheard ∙ omega arith in
      let first =
        subst (λ at. IsPlaying fl codec clip s.states at (render fl codec n s).1) still
          (render-IsPlaying fl codec clip s.states 0 n s
            (voiced_triggered fl codec clip n s triggered)) in
      voiced-IsPlaying fl codec clip s.states 0 n (render_times k n (render fl codec n s).1)
        (waits_on clip s.states k n (render fl codec n s).1 unheard first)

  -- While no path carries the source as radio, a triggered cue is neither heard nor lost: every
  -- callback, of any size and behind any number of others of that size, gives the voice alone, and
  -- leaves the cue at its start.
  pub cue_waits :
      (clip : BeepClip) (k n : ℕ) (s : Source fl)
      → s.pending_beep ≡ some clip
      → radio_path_of fl codec s.states ≡ none
      → let s' = render_times k n s in
        ((render fl codec n s').0 ≡ (render_voice fl codec n n s').0)
        × ((render fl codec n s').1.beep ≡ some clip)
        × ((render fl codec n s').1.beep_pos ≡ 0)
  cue_waits clip k n s triggered unheard =
      let s' = render_times k n s in
      let waiting = due_unheard clip k n s triggered unheard in
      let still : advanced fl codec s.states clip n 0 ≡ 0 =
        ap (λ o. 0 + played fl codec o n (clip.count - 0)) unheard ∙ omega arith in
      let next = render-IsPlaying fl codec clip s.states 0 n s' waiting in
      (
        render_unheard fl codec clip s.states 0 n s' unheard waiting,
        next.clip_is,
        next.pos_is ∙ still,
      )
