-- ===== src/Voice/Mixer/Played.antt =====
-- Every buffer of the speaker is filled
-- (addon/extensions/task_force_radio_pipe/src/Voice/PlaybackMixer.cpp: runDeviceSession).
use task_force_radio_standal.Resource.{◌>>=◌}
use task_force_radio_standal.Base.{
  ◌==◌, Bool-cases, Option-cases, nat_eq, All, All-append, Text, ℕ, ◌*◌, ◌<◌, ◌≡◌, refl, sym, ap,
  ◌∙◌, ◌⊎◌, inl, inr, Bool, true, false, Option, none, some, List, [], ◌∷◌, ◌++◌,
}
use task_force_radio_standal.Float.{Float}
use task_force_radio_standal.Resource.{Run, return, break_if}
use task_force_radio_standal.Resource.Values.{>>=-gives, say-gives, Holds, >>=-none}
use task_force_radio_standal.Voice.Device.{Endpoint, Format}
use task_force_radio_standal.Voice.Device.Loop.{Opening, feed, go_on}
use task_force_radio_standal.Voice.Device.Switched.{check_device-found}
use task_force_radio_standal.Voice.Source.Mixdown.{Codec}
use task_force_radio_standal.Voice.Mixer.{Mixer}
use task_force_radio_standal.Voice.Mixer.Filled.{IsMixable, fill_device-total}
use task_force_radio_standal.Voice.Mixer.Session.{
  is_writable, open_playback, Answer, got, gone, transient, Readiness, ready, waited, wait_broken,
  needed_frames, polls, poll_if, write_out, Filled, PlaybackFed, speaker_step, fill_buffer, fetch,
  serve_ready, SpeakerTurn, playback_loop, playback_session,
}
use task_force_radio_standal.Voice.Mixer.Written.{
  IsUsable, open_playback-Gives, IsWritten, IsWhole, write_out-IsWhole,
}
use mathlib.Core.Path.{subst}

module _ (fl : Float) (codec : Codec fl) where
  -- What a turn comes to: no fuel runs out, the buffers are whole and the sources stay sound.
  IsServed : Format → Option (Bool × List (Filled fl codec) × Mixer fl) → Type 0
  IsServed format o =
      (goes_on : Bool) × (filled : List (Filled fl codec)) × (m' : Mixer fl) × (o
        ≡ some (goes_on, filled, m'))
      × All (IsWhole fl codec format) filled
      × IsMixable fl codec m'

  fill_buffer-IsServed :
      (format : Format) (needed : ℕ) (m : Mixer fl)
      → is_writable format ≡ true
      → 0 < format.channels
      → IsMixable fl codec m
      → IsServed format (fill_buffer fl codec format needed m)
  unfolding IsServed fill_buffer
  fill_buffer-IsServed format needed m writable h mixable =
      let (frames, m', filled, size, mixable') =
        fill_device-total fl codec (speaker_step fl codec format.rate) needed m mixable in
      (
        true,
        (needed, write_out fl codec format frames) ∷ [],
        m',
        rw (filled, fill_buffer) refl,
        (
          subst
              (λ n.
                IsWritten fl codec format (n * format.channels) (write_out fl codec format frames))
              size (write_out-IsWhole fl codec format frames writable h),
          tt,
        ),
        mixable',
      )

  fetch-IsServed :
      (format : Format) (needed : ℕ) (answer : Answer) (m : Mixer fl)
      → is_writable format ≡ true
      → 0 < format.channels
      → IsMixable fl codec m
      → (o : Option (Bool × List (Filled fl codec) × Mixer fl)) × ((fetch fl codec format needed
            answer m).1
          ≡ some o)
        × IsServed format o
  unfolding fetch
  fetch-IsServed format needed got m writable h mixable = (
    fill_buffer fl codec format needed m,
    refl,
    fill_buffer-IsServed format needed m writable h mixable,
  )
  fetch-IsServed format needed gone m writable h mixable =
      (some (false, [], m), refl, unfold IsServed in (false, [], m, refl, tt, mixable))
  fetch-IsServed format needed transient m writable h mixable =
      (some (true, [], m), refl, unfold IsServed in (true, [], m, refl, tt, mixable))

  serve_ready-IsServed :
      (format : Format) (size : ℕ) (wait : Readiness) (m : Mixer fl)
      → is_writable format ≡ true
      → 0 < format.channels
      → IsMixable fl codec m
      → (o : Option (Bool × List (Filled fl codec) × Mixer fl)) × ((serve_ready fl codec format size
            wait m).1
          ≡ some o)
        × IsServed format o
  unfolding serve_ready return
  serve_ready-IsServed format size (ready none answer) m writable h mixable =
      (some (false, [], m), refl, unfold IsServed in (false, [], m, refl, tt, mixable))
  serve_ready-IsServed format size (ready (some padding) answer) m writable h mixable =
      let needed = needed_frames size padding in
      elim (Bool-cases (needed == 0)) [
        | inl idle ↦ (
          some (true, [], m),
          say-gives _ _ ∙ rw idle refl,
          unfold IsServed in (true, [], m, refl, tt, mixable),
        )
        | inr busy ↦
            let (o, served, sound) = fetch-IsServed format needed answer m writable h mixable in
            (o, say-gives _ _ ∙ rw busy served, sound)
      ]
  serve_ready-IsServed format size waited m writable h mixable =
      (some (true, [], m), refl, unfold IsServed in (true, [], m, refl, tt, mixable))
  serve_ready-IsServed format size wait_broken m writable h mixable =
      (some (false, [], m), refl, unfold IsServed in (false, [], m, refl, tt, mixable))

  -- What the loop comes to.
  IsPlayed : Format → Option (PlaybackFed fl codec) → Type 0
  IsPlayed format o =
      (filled : List (Filled fl codec)) × (m' : Mixer fl) × (o ≡ some (some (filled, m')))
      × All (IsWhole fl codec format) filled
      × IsMixable fl codec m'

  -- What the other threads do to the mixer keeps the sources sound.
  abbrev pub KeepsSound : SpeakerTurn fl codec → Type 0
  KeepsSound turn = (m : Mixer fl) → IsMixable fl codec m → IsMixable fl codec (turn.meanwhile m)

  rest-IsPlayed :
      (format : Format) (filled : List (Filled fl codec)) (m : Run (PlaybackFed fl codec))
      → All (IsWhole fl codec format) filled
      → IsPlayed format m.1
      → IsPlayed format (m >>= λ fed. return (feed filled fed)).1
  unfolding IsPlayed return feed
  rest-IsPlayed format filled m whole (more, m', played, whole', mixable) = (
    filled ++ more,
    m',
    >>=-gives m _ played,
    All-append (IsWhole fl codec format) filled more whole whole',
    mixable,
  )

  -- What a loop that ends here has given out.
  ended-IsPlayed :
      (format : Format) (filled : List (Filled fl codec)) (m : Mixer fl)
      → All (IsWhole fl codec format) filled
      → IsMixable fl codec m
      → IsPlayed format (return (some (filled, m))).1
  unfolding IsPlayed return
  ended-IsPlayed format filled m whole mixable = (filled, m, refl, whole, mixable)

  go_on-IsPlayed :
      (format : Format) (goes_on : Bool) (filled : List (Filled fl codec)) (m : Mixer fl)
      (rest : List (Filled fl codec) → Mixer fl → Run (PlaybackFed fl codec))
      → All (IsWhole fl codec format) filled
      → IsMixable fl codec m
      → IsPlayed format (rest filled m).1
      → IsPlayed format (go_on (some (goes_on, filled, m)) rest).1
  unfolding go_on
  go_on-IsPlayed format false filled m rest whole mixable h =
      ended-IsPlayed format filled m whole mixable
  go_on-IsPlayed format true filled m rest whole mixable h = h

  break_if-IsPlayed :
      (format : Format) (b : Bool) (filled : List (Filled fl codec)) (m : Mixer fl)
      (rest : Run (PlaybackFed fl codec))
      → All (IsWhole fl codec format) filled
      → IsMixable fl codec m
      → IsPlayed format rest.1
      → IsPlayed format (break_if b (some (filled, m)) rest).1
  unfolding break_if
  break_if-IsPlayed format true filled m rest whole mixable h =
      ended-IsPlayed format filled m whole mixable
  break_if-IsPlayed format false filled m rest whole mixable h = h

  poll_if-found :
      (b : Bool) (name : Text) (now last : ℕ) (a : Endpoint)
      → (x : Bool × ℕ) × ((poll_if b name now last a).1 ≡ some x)
  unfolding poll_if return
  poll_if-found true name now last a = check_device-found name now last a
  poll_if-found false name now last a = ((false, last), refl)

  playback_loop-IsPlayed :
      (format : Format) (size : ℕ) (name : Text) (last : ℕ) (turns : List (SpeakerTurn fl codec))
      (m : Mixer fl)
      → is_writable format ≡ true
      → 0 < format.channels
      → All KeepsSound turns
      → IsMixable fl codec m
      → IsPlayed format (playback_loop fl codec format size name last turns m).1
  unfolding playback_loop IsServed
  playback_loop-IsPlayed format size name last [] m writable h sound mixable =
      unfold IsPlayed return in ([], m, refl, tt, mixable)
  playback_loop-IsPlayed format size name last (turn ∷ turns) m writable h sound mixable =
      let (o, served, turned) =
        serve_ready-IsServed format size turn.wait (turn.meanwhile m) writable h
          (sound.0 m mixable) in
      let (goes_on, filled, m', done, whole, mixable') = turned in
      let (x, found) = poll_if-found (polls size turn.wait) name turn.now last turn.default in
      let later =
        playback_loop-IsPlayed format size name x.1 turns m' writable h sound.1 mixable' in
      subst (IsPlayed format) (sym (say-gives _ _ ∙ >>=-gives _ _ (served ∙ ap some done))) (
        go_on-IsPlayed format goes_on filled m' _ whole mixable' (
          subst (IsPlayed format) (sym (>>=-gives _ _ found)) (
            break_if-IsPlayed format x.0 filled m' _ whole mixable'
              (rest-IsPlayed format filled _ whole later))))

  -- A session of the speaker that is opened gives the device only buffers that are written in whole:
  -- each holds a sample for every channel of every frame that was asked for, real numbers for a device
  -- of floats and 16-bit integers for another, which has 16 bits a sample then,
  -- whatever the waits, the poll and the failures on the way are; no resampling loop runs out. One
  -- that is not opened gives it none. Where the sources are sound at first, and what the other
  -- threads do between two waits keeps them so, they are sound at the end.
  pub playback_session-fills :
      (o : Opening) (size last : ℕ) (turns : List (SpeakerTurn fl codec)) (m : Mixer fl)
      → All KeepsSound turns
      → IsMixable fl codec m
      → (((open_playback o).1 ≡ none) × ((playback_session fl codec o size last turns m).1 ≡ none))
        ⊎ ((format : Format) × (name : Text) × (filled : List (Filled fl codec)) × (m' : Mixer fl)
            × ((open_playback o).1 ≡ some (format, name))
            × ((playback_session fl codec o size last turns m).1 ≡ some (some (filled, m')))
            × All (IsWhole fl codec format) filled
            × IsMixable fl codec m')
  unfolding playback_session IsPlayed return
  playback_session-fills o size last turns m sound mixable =
      elim (Option-cases (open_playback o).1) [
        | inl refused ↦ inl (refused, >>=-none (open_playback o) _ refused)
        | inr ((format, name), opened) ↦
            let usable : IsUsable (format, name) =
              subst (Holds IsUsable) opened (open_playback-Gives o).given in
            let (filled, m', played, whole, mixable') =
              playback_loop-IsPlayed format size name last turns m usable.0 usable.1 sound
                mixable in
            inr (
              format,
              name,
              filled,
              m',
              opened,
              >>=-gives (open_playback o) _ opened ∙ >>=-gives _ _ played ∙ say-gives _ _,
              whole,
              mixable',
            )
      ]
