-- ===== src/Tests/Playback.antt =====
-- Examples of the theorems on the playback of a speaker.
use task_force_radio_standal.Base.{
  length, take, drop, replicate, run_over, codes, ◌-◌, ◌≡◌, refl, true, false, some, List, [], ◌∷◌,
  ◌++◌, map,
}
use task_force_radio_standal.Float.Fixed.{whole}
use task_force_radio_standal.Voice.Dsp.{Biquad, rbj_low_pass, biquad_process}
use task_force_radio_standal.Voice.Source.{
  packet_loss, Source, new_source, trigger_beep, audible_paths, channel_gains,
}
use task_force_radio_standal.Voice.Source.Talkspurt.{
  try_times, talkspurt_plays_out, loss_is_concealed,
}
use task_force_radio_standal.Tests.Data.{
  fl, radio_path, speech_frame, end_frame, heard_source, codec, start_clip,
}
use task_force_radio_standal.Voice.Source.Mixdown.{mix_frame}
use task_force_radio_standal.Voice.Source.Slots.{effects, slots, mix_frame-slots}
use task_force_radio_standal.Voice.Source.Render.{render_voice, radio_path_of, render}
use task_force_radio_standal.Voice.Source.Rendered.{
  IsFramed, new_source-IsFramed, render-IsRendered,
}
use task_force_radio_standal.Voice.Source.Cue.{render_times, cue_is_played, cue_waits}
use task_force_radio_standal.Voice.Source.Sound.{with_sounds, clip_sounds}
use task_force_radio_standal.Voice.Dsp.Stages.{IsFiltered, biquad_process-IsFiltered}
use task_force_radio_standal.Voice.Dsp.Delay.{delay, new_delay, delay_is_fifo}
use Prim.Native.Nat.{min}

mix_frame-slots_example :
    effects fl
      (mix_frame fl codec packet_loss
        (record heard_source { render_states = radio_path ∷ [] })).chains
    ≡ slots fl (radio_path ∷ [])
mix_frame-slots_example =
    mix_frame-slots fl codec packet_loss (record heard_source { render_states = radio_path ∷ [] })

abbrev short_talkspurt : Source fl
short_talkspurt = record heard_source { pending = speech_frame ∷ end_frame ∷ [] }

talkspurt_plays_out_example :
    ((try_times fl codec 2 short_talkspurt).0 ≡ 2)
    × ((try_times fl codec 2 short_talkspurt).1.pending ≡ [])
    × ((try_times fl codec 2 short_talkspurt).1.is_playing ≡ false)
unfolding audible_paths
talkspurt_plays_out_example =
    talkspurt_plays_out fl codec (speech_frame ∷ []) end_frame short_talkspurt refl refl refl

abbrev running_dry : Source fl
running_dry = record heard_source { is_playing = true; concealment_count = 3 }

loss_is_concealed_example : (try_times fl codec 20 running_dry).0 ≡ min 20 (10 - 3)
unfolding audible_paths new_source
loss_is_concealed_example = loss_is_concealed fl codec 20 running_dry refl refl refl

abbrev cued_source : Source fl
cued_source = trigger_beep fl start_clip heard_source

render-IsRendered_example :
    (length (render fl codec 441 (new_source fl 3 (codes "765"))).0 ≡ 882)
    × IsFramed fl (render fl codec 441 (new_source fl 3 (codes "765"))).1
render-IsRendered_example =
    render-IsRendered fl codec 441 (new_source fl 3 (codes "765"))
      (new_source-IsFramed fl 3 (codes "765"))

-- The third callback of 441 frames.
cue_is_played_example :
    let s' = render_times fl codec 2 441 cued_source in
    ((render fl codec 441 s').0
      ≡ with_sounds fl codec
          (channel_gains fl radio_path)
          (take 441 (drop 882 (clip_sounds fl codec start_clip)))
          (render_voice fl codec 441 441 s').0)
    × ((render fl codec 441 s').1.beep_pos ≡ min start_clip.count 1323)
unfolding trigger_beep radio_path_of
cue_is_played_example = cue_is_played fl codec start_clip radio_path 2 441 cued_source refl refl

abbrev unheard_source : Source fl
unheard_source = trigger_beep fl start_clip (new_source fl 3 (codes "765"))

cue_waits_example :
    let s' = render_times fl codec 2 441 unheard_source in
    ((render fl codec 441 s').0 ≡ (render_voice fl codec 441 441 s').0)
    × ((render fl codec 441 s').1.beep ≡ some start_clip)
    × ((render fl codec 441 s').1.beep_pos ≡ 0)
unfolding trigger_beep radio_path_of new_source
cue_waits_example = cue_waits fl codec start_clip 2 441 unheard_source refl refl

delay_is_fifo_example :
    (run_over (delay fl) (whole 1 ∷ whole 2 ∷ []) (new_delay fl)).0
    ≡ take 2 (replicate 2399 (whole 0) ++ whole 1 ∷ whole 2 ∷ [])
delay_is_fifo_example = delay_is_fifo fl (whole 1 ∷ whole 2 ∷ [])

abbrev filter : Biquad fl
filter = rbj_low_pass fl (whole 48000) (whole 1000) (whole 1)

biquad_process-IsFiltered_example :
    (ys : List fl.D) × ((biquad_process fl (whole 1 ∷ whole 2 ∷ []) filter).0 ≡ map fl.narrow ys)
    × IsFiltered fl filter
        (filter.x2 ∷ filter.x1 ∷ map fl.widen (whole 1 ∷ whole 2 ∷ []))
        (filter.y2 ∷ filter.y1 ∷ ys)
    × (drop 2 (filter.x2 ∷ filter.x1 ∷ map fl.widen (whole 1 ∷ whole 2 ∷ []))
        ≡ (biquad_process fl (whole 1 ∷ whole 2 ∷ []) filter).1.x2
          ∷ (biquad_process fl (whole 1 ∷ whole 2 ∷ []) filter).1.x1
          ∷ [])
    × (drop 2 (filter.y2 ∷ filter.y1 ∷ ys)
        ≡ (biquad_process fl (whole 1 ∷ whole 2 ∷ []) filter).1.y2
          ∷ (biquad_process fl (whole 1 ∷ whole 2 ∷ []) filter).1.y1
          ∷ [])
biquad_process-IsFiltered_example = biquad_process-IsFiltered fl (whole 1 ∷ whole 2 ∷ []) filter
