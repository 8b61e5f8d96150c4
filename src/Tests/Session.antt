-- ===== src/Tests/Session.antt =====
-- Examples of the theorems on the session, the gate and the tick.
use task_force_radio_standal.Base.{
  ◌==◌, if◌then◌else◌, nat_eq, any, run_over, codes, text_is_eq, ℕ, ◌≡◌, refl, ◌⊎◌, inl, true,
  false, some, List, [], ◌∷◌,
}
use task_force_radio_standal.Base.Int.{pos}
use task_force_radio_standal.Base.Map.{lookup}
use task_force_radio_standal.Float.Fixed.{milli}
use task_force_radio_standal.Voice.Mixer.{new_mixer}
use task_force_radio_standal.Voice.Session.{
  AudibilityUpdate, Session, new_session, apply_audibility,
}
use task_force_radio_standal.Voice.Session.Audibility.{paths_of, apply_audibility-replaces}
use task_force_radio_standal.Voice.Transmit.{
  CapturedFrame, Transmit, determine_should_transmit, new_transmit,
}
use task_force_radio_standal.Voice.Transmit.Gate.{
  run_frames, marker, blocked_sends_marker_once, decide, voice_activation_hangs_over,
}
use task_force_radio_standal.Tick.{Announcement, TxRelay, new_relay}
use task_force_radio_standal.Tick.Relay.{count_sends, end_is_announced_thrice}
use task_force_radio_standal.Tests.Data.{fl, radio_path, heard_source}
use Prim.Native.Nat.{min}

-- Bravo is session 3, with a source.
abbrev with_bravo : Session fl
with_bravo = record (new_session fl) {
  uid_to_session = (codes "765", 3) ∷ [];
  mixer = record (new_mixer fl) { sources = (3, heard_source) ∷ [] };
  last_active = 3 ∷ [];
}

abbrev update : AudibilityUpdate fl
update = record { uid = codes "765"; nickname = codes "Bravo"; path = radio_path }

apply_audibility-replaces_example :
    (lookup 3 (apply_audibility fl (update ∷ []) with_bravo).mixer.sources
      ≡ some (record heard_source { states = paths_of fl 3 (update ∷ []) with_bravo }))
    × ((any (◌==◌ 3) (apply_audibility fl (update ∷ []) with_bravo).last_active ≡ true)
        ⊎ (paths_of fl 3 (update ∷ []) with_bravo ≡ []))
unfolding lookup
apply_audibility-replaces_example =
    apply_audibility-replaces fl (update ∷ []) 3 heard_source with_bravo refl refl (inl refl)

abbrev speech : CapturedFrame fl
speech = record {
  raw_rms = milli (pos 50);
  gained_rms = λ gain. gain;
  encoded = λ gain. some (b'a' ∷ []);
  encoded_silence = some (b'z' ∷ []);
}

abbrev gate : Transmit fl
gate = record (new_transmit fl) { was_transmitting = true }

abbrev blocked_gate : Transmit fl
blocked_gate = record gate { has_addon_override = true }

blocked_sends_marker_once_example :
    run_frames fl ((speech, 7) ∷ (speech, 20000007) ∷ []) blocked_gate
    ≡ (if blocked_gate.was_transmitting then marker fl speech else [])
blocked_sends_marker_once_example =
    blocked_sends_marker_once fl speech 7 ((speech, 20000007) ∷ []) blocked_gate refl refl

abbrev quiet_levels : List (fl.F × ℕ)
quiet_levels = (milli (pos 1), 9) ∷ (milli (pos 2), 200000007) ∷ (milli (pos 1), 300000008) ∷ []

voice_activation_hangs_over_example :
    ((determine_should_transmit fl (milli (pos 50)) 7 gate).0 ≡ true)
    × ((run_over
          (decide fl)
          quiet_levels
          (determine_should_transmit fl (milli (pos 50)) 7 gate).1).0
        ≡ true ∷ true ∷ false ∷ [])
voice_activation_hangs_over_example =
    voice_activation_hangs_over fl (milli (pos 50)) 7 quiet_levels gate refl refl refl refl
      (refl, (refl, (refl, tt)))

abbrev announced : TxRelay
announced = record new_relay {
  sent = record { active = true; freq = codes "50.1"; range = 5000; subtype = codes "digital" };
}

abbrev idle : Announcement
idle = record { active = false; freq = []; range = 0; subtype = [] }

end_is_announced_thrice_example : count_sends (1 ∷ 2 ∷ 3 ∷ 4 ∷ 5 ∷ []) idle announced ≡ min 5 3
end_is_announced_thrice_example =
    end_is_announced_thrice (1 ∷ 2 ∷ 3 ∷ 4 ∷ 5 ∷ []) idle announced refl refl
