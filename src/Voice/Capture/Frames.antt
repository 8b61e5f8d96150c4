-- ===== src/Voice/Capture/Frames.antt =====
-- What the gate is given of the microphone
-- (addon/extensions/task_force_radio_pipe/src/Voice/WasapiCaptureEngine.cpp: resampleAndEmit).
use mathlib.Core.List.{append-nil, append_assoc}
use task_force_radio_standal.Base.{
  ltb, leb, ◌==◌, leb→le, le→leb, Bool-cases, if_keeps, length, take, drop, All, length-append,
  length-take, length-drop, take-drop, concat, All-append, is_empty, ℕ, zero, suc, ◌+◌, ◌≤◌, ◌<◌,
  ◌≡◌, refl, sym, ap, ◌∙◌, ◌⊎◌, inl, inr, true, false, ◌&&◌, Option, some, List, [], ◌∷◌, ◌++◌,
  arith,
}
use task_force_radio_standal.Float.{Float}
use task_force_radio_standal.Voice.Source.{frame_samples}
use task_force_radio_standal.Voice.Capture.{
  Capture, sample_at, push_sample, resample_loop, drop_used, step_of, resample_and_emit,
}
use mathlib.Core.Path.{subst}

concat-append {ℓ} :
    {A : Type ℓ} (xs ys : List (List A)) → concat (xs ++ ys) ≡ concat xs ++ concat ys
unfolding concat
concat-append [] ys = refl
concat-append (x ∷ xs) ys =
    ap (λ l. x ++ l) (concat-append xs ys) ∙ sym (append_assoc x (concat xs) (concat ys))

module _ (fl : Float) where
  open fl use {F, D, d_add, d_sub, d_of_nat, d_trunc}

  -- The cursor after `n` samples, and the samples: what resampling is, with no frames in sight.
  unfoldable pub advanced : ℕ → D → D → D
  advanced zero step cursor = cursor
  advanced (suc n) step cursor = advanced n step (d_add cursor step)

  unfoldable pub resampled : ℕ → D → List F → D → List F
  resampled zero step mono cursor = []
  resampled (suc n) step mono cursor =
      sample_at fl cursor mono ∷ resampled n step mono (d_add cursor step)

  unfoldable pub IsFrame : List F → Type 0
  IsFrame frame = length frame ≡ 960

  -- The samples of `stream` in frames, and a rest that is less than one.
  pub IsCut : List F → List (List F) → List F → Type 0
  IsCut stream frames rest =
      (concat frames ++ rest ≡ stream) × All IsFrame frames × (length rest < 960)

  push_sample-IsCut :
      (x : F) (buffer : List F)
      → length buffer < 960
      → IsCut (buffer ++ x ∷ []) (push_sample fl x buffer).0 (push_sample fl x buffer).1
  unfolding push_sample IsCut IsFrame concat
  push_sample-IsCut x buffer h =
      let longer = buffer ++ x ∷ [] in
      let size = length-append buffer (x ∷ []) in
      if_keeps {A = List (List F) × List F}
        (λ r. (concat r.0 ++ r.1 ≡ longer) × All IsFrame r.0 × (length r.1 < 960))
        (leb frame_samples (length longer))
        (λ full. (
          ap (λ l. l ++ drop 960 longer) (append-nil (take 960 longer)) ∙ take-drop 960 longer,
          (omega (arith, length-take 960 longer, leb→le 960 (length longer) full), tt),
          omega (arith, size, length-drop 960 longer),
        ))
        (λ open_yet. (refl, tt, ground arith))

  -- The loop ends, by its test, with the samples cut to frames.
  IsResampled : D → List F → D → List F → ℕ → Option (List (List F) × List F × D) → Type 0
  IsResampled step mono cursor buffer most o =
      (n : ℕ) × (frames : List (List F)) × (rest : List F) × (o
        ≡ some (frames, rest, advanced n step cursor))
      × (n ≤ most)
      × IsCut (buffer ++ resampled n step mono cursor) frames rest
      × (length mono ≤ d_trunc (advanced n step cursor) + 1)

  -- Frames cut from what was there and one sample, then from the rest and more samples.
  IsCut-trans :
      (x : F) (buffer xs rest rest' : List F) (frames frames' : List (List F))
      → IsCut (buffer ++ x ∷ []) frames rest
      → IsCut (rest ++ xs) frames' rest'
      → IsCut (buffer ++ x ∷ xs) (frames ++ frames') rest'
  unfolding IsCut
  IsCut-trans x buffer xs rest rest' frames frames' (cut, all, _) (cut', all', small) = (
    ap (λ l. l ++ rest') (concat-append frames frames')
        ∙ append_assoc (concat frames) (concat frames') rest'
        ∙ ap (λ l. concat frames ++ l) cut'
        ∙ sym (append_assoc (concat frames) rest xs)
        ∙ ap (λ l. l ++ xs) cut
        ∙ append_assoc buffer (x ∷ []) xs,
    All-append IsFrame frames frames' all all',
    small,
  )

  ended :
      (k fuel : ℕ) (step : D) (mono : List F) (cursor : D) (buffer : List F)
      → leb (length mono) (d_trunc cursor + 1) ≡ true
      → length buffer < 960
      → IsResampled step mono cursor buffer k (resample_loop fl (suc fuel) step mono cursor buffer)
  unfolding resample_loop IsResampled advanced resampled
  ended k fuel step mono cursor buffer end h = (
    0,
    [],
    buffer,
    rw end refl,
    omega arith,
    unfold IsCut concat in (sym (append-nil buffer), tt, h),
    leb→le _ _ end,
  )

  goes_on :
      (k fuel : ℕ) (step : D) (mono : List F) (cursor : D) (buffer : List F)
      → leb (length mono) (d_trunc cursor + 1) ≡ false
      → let pushed = push_sample fl (sample_at fl cursor mono) buffer in
        IsCut (buffer ++ sample_at fl cursor mono ∷ []) pushed.0 pushed.1
        → IsResampled step mono
            (d_add cursor step)
            pushed.1
            k
            (resample_loop fl fuel step mono (d_add cursor step) pushed.1)
        → IsResampled step mono cursor buffer
            (suc k)
            (resample_loop fl (suc fuel) step mono cursor buffer)
  unfolding resample_loop IsResampled advanced resampled
  goes_on k fuel step mono cursor buffer more cut (n, frames, rest, ends, most, cut', used) =
      let x = sample_at fl cursor mono in
      let pushed = push_sample fl x buffer in
      let xs = resampled n step mono (d_add cursor step) in
      (
        suc n,
        pushed.0 ++ frames,
        rest,
        rw more (rw ends refl),
        omega arith,
        IsCut-trans x buffer xs pushed.1 rest pushed.0 frames cut cut',
        used,
      )

  resample_loop-IsResampled :
      (k fuel : ℕ) (step : D) (mono : List F) (cursor : D) (buffer : List F)
      → k < fuel
      → length mono ≤ d_trunc (advanced k step cursor) + 1
      → length buffer < 960
      → IsResampled step mono cursor buffer k (resample_loop fl fuel step mono cursor buffer)
  unfolding advanced
  resample_loop-IsResampled k zero step mono cursor buffer enough far h = absurd (omega arith)
  resample_loop-IsResampled zero (suc fuel) step mono cursor buffer enough far h =
      ended zero fuel step mono cursor buffer (le→leb _ _ far) h
  resample_loop-IsResampled (suc k) (suc fuel) step mono cursor buffer enough far h =
      elim (Bool-cases (leb (length mono) (d_trunc cursor + 1))) [
        | inl end ↦ ended (suc k) fuel step mono cursor buffer end h
        | inr more ↦
            let x = sample_at fl cursor mono in
            let pushed = push_sample fl x buffer in
            let cut = push_sample-IsCut x buffer h in
            let later =
              resample_loop-IsResampled k fuel step mono (d_add cursor step) pushed.1 (omega arith)
                far (unfold IsCut in cut.2) in
            goes_on k fuel step mono cursor buffer more cut later
      ]

  drop_used-buffer : (c : Capture fl) → (drop_used fl c).frame_buffer ≡ c.frame_buffer
  unfolding drop_used
  drop_used-buffer c =
      if_keeps (λ (r : Capture fl). r.frame_buffer ≡ c.frame_buffer)
        (ltb 0 (d_trunc c.resample_cursor)
          && leb (d_trunc c.resample_cursor) (length c.native_mono))
        (λ _. refl) (λ _. refl)

  -- What is left of the device's samples with the cursor at `cursor` in them: all of them, where the
  -- cursor has passed none, or more than there are; else those from the cursor's place on, counted
  -- from there.
  abbrev pub IsLeft : D → List F → Capture fl → Type 0
  IsLeft cursor mono c =
      ((c.native_mono ≡ mono)
        × (c.resample_cursor ≡ cursor)
        × ((d_trunc cursor ≡ 0) ⊎ (length mono < d_trunc cursor)))
      ⊎ ((take (d_trunc cursor) mono ++ c.native_mono ≡ mono)
          × (c.resample_cursor ≡ d_sub cursor (d_of_nat (d_trunc cursor)))
          × (d_trunc cursor ≤ length mono))

  drop_used-IsLeft : (c : Capture fl) → IsLeft c.resample_cursor c.native_mono (drop_used fl c)
  unfolding drop_used
  drop_used-IsLeft c =
      let consumed = d_trunc c.resample_cursor in
      if_keeps (IsLeft c.resample_cursor c.native_mono)
        (ltb 0 consumed && leb consumed (length c.native_mono))
        (λ used. inr (take-drop consumed c.native_mono, refl, ground (arith, used)))
        (λ unused. inl (refl, refl, ground (arith, unused)))

  -- The microphone's samples reach the gate in frames of exactly 960, with none lost, repeated or
  -- out of order. Where the device's rate is not 0, its samples are not empty, and `k` steps carry
  -- the cursor past them: the loop ends within `k` turns, the frames emitted and what stays in the
  -- buffer are the old buffer and the resampled signal up to where it needs more of the device's
  -- samples, and less than a frame stays. For the next call, the device's samples before the place
  -- that the cursor has come to are dropped, all behind it are kept, and the cursor is set back by
  -- their number; where it has passed none, or more than there are, both stay as they are. The fuel
  -- exceeds `k`, and less than a frame waits in the buffer at first.
  pub resample_and_emit-frames :
      (k fuel rate : ℕ) (c : Capture fl)
      → (rate == 0) ≡ false
      → is_empty c.native_mono ≡ false
      → k < fuel
      → length c.native_mono ≤ d_trunc (advanced k (step_of fl rate) c.resample_cursor) + 1
      → length c.frame_buffer < 960
      → (n : ℕ) × (frames : List (List F)) × (c' : Capture fl) × (resample_and_emit fl fuel rate c
          ≡ some (frames, c'))
        × (n ≤ k)
        × IsCut
            (c.frame_buffer ++ resampled n (step_of fl rate) c.native_mono c.resample_cursor)
            frames
            c'.frame_buffer
        × (length c.native_mono ≤ d_trunc (advanced n (step_of fl rate) c.resample_cursor) + 1)
        × IsLeft (advanced n (step_of fl rate) c.resample_cursor) c.native_mono c'
  unfolding resample_and_emit IsResampled
  resample_and_emit-frames k fuel rate c running some_there enough far h =
      let (n, frames, rest, ends, most, cut, used) =
        resample_loop-IsResampled k fuel (step_of fl rate) c.native_mono c.resample_cursor
          c.frame_buffer enough far h in
      let cursor = advanced n (step_of fl rate) c.resample_cursor in
      let c' : Capture fl = record c { frame_buffer = rest; resample_cursor = cursor } in
      let buffer_kept : (drop_used fl c').frame_buffer ≡ rest = drop_used-buffer c' in
      (
        n,
        frames,
        drop_used fl c',
        rw (running, some_there) (rw (ends, resample_and_emit) refl),
        most,
        subst
            (λ l.
              IsCut
                (c.frame_buffer ++ resampled n (step_of fl rate) c.native_mono c.resample_cursor)
                frames l)
            (sym buffer_kept) cut,
        used,
        drop_used-IsLeft c',
      )
