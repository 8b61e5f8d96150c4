-- ===== src/Voice/Session/Radio.antt =====
-- The cache of the others' transmissions, their cues, and the roster
-- (addon/extensions/task_force_radio_pipe/src/Voice/VoiceSession.cpp: onRadioTx, currentRadioTx,
-- onRemoteJoined, onRemoteLeft).
use task_force_radio_standal.Base.{
  ltb, ◌==◌, if◌then◌else◌, ==_iff, Bool-cases, nat_eq, All, Text, is_empty, text_eq, text_is_eq, ℕ,
  ◌-◌, ◌≤◌, ◌≡◌, refl, ap, inl, inr, Bool, true, false, none, [], ◌∷◌,
}
use task_force_radio_standal.Base.Map.{Map, lookup, insert, lookup-insert, lookup-erase}
use task_force_radio_standal.Float.{Float}
use task_force_radio_standal.Voice.Mixer.{add_source, remove_source, trigger_remote_beep}
use task_force_radio_standal.Voice.Session.{
  RadioTxInfo, Session, erase_session, key_of_session, on_remote_joined, on_remote_left,
  update_cache, edge_cue, on_radio_tx, fresh_entries, current_radio_tx,
}
use mathlib.Core.Option.{some-ne-none}

module _ (fl : Float) where
  -- What a packet of a known sender does.
  noted : ℕ → Bool → RadioTxInfo → Text → ℕ → Session fl → Session fl
  noted sender active info sub now s = record s {
    tx_cache = update_cache fl sender active info now s.tx_cache;
    mixer = edge_cue fl sender active sub (lookup sender s.tx_cache) s.mixer;
  }

  abbrev pub info_of : ℕ → Text → ℕ → Text → Session fl → RadioTxInfo
  info_of sender freq range sub s = record {
    uid = key_of_session sender s.uid_to_session;
    active = true;
    freq = freq;
    range = range;
    subtype = sub;
  }

  on_radio_tx-noted :
      (sender : ℕ) (active : Bool) (freq : Text) (range : ℕ) (sub : Text) (now : ℕ) (s : Session fl)
      → is_empty (key_of_session sender s.uid_to_session) ≡ false
      → on_radio_tx fl sender active freq range sub now s
        ≡ noted sender active (info_of sender freq range sub s) sub now s
  unfolding on_radio_tx noted
  on_radio_tx-noted sender active freq range sub now s known =
      ap (λ b. if b then s else noted sender active (info_of sender freq range sub s) sub now s)
        known

  noted-refresh :
      (sender : ℕ) (i j : RadioTxInfo) (sub sub' : Text) (now later : ℕ) (s : Session fl)
      → (noted sender true j sub' later (noted sender true i sub now s)).mixer
        ≡ (noted sender true i sub now s).mixer
  unfolding noted update_cache edge_cue
  noted-refresh sender i j sub sub' now later s =
      rw
        (
          lookup-insert sender sender (record { info = i; received_at = now }) s.tx_cache,
          (==_iff sender sender).1 refl,
        )
        refl

  noted-end :
      (sender : ℕ) (i j : RadioTxInfo) (sub sub' : Text) (now later : ℕ) (s : Session fl)
      → (noted sender false j sub' later (noted sender true i sub now s)).mixer
        ≡ trigger_remote_beep fl sender i.subtype false (noted sender true i sub now s).mixer
  unfolding noted update_cache edge_cue
  noted-end sender i j sub sub' now later s =
      rw
        (
          lookup-insert sender sender (record { info = i; received_at = now }) s.tx_cache,
          (==_iff sender sender).1 refl,
        )
        refl

  noted-ended :
      (sender : ℕ) (i j : RadioTxInfo) (sub sub' : Text) (now later : ℕ) (s : Session fl)
      → (noted sender false j sub' later (noted sender false i sub now s)).mixer
        ≡ (noted sender false i sub now s).mixer
  unfolding noted update_cache edge_cue
  noted-ended sender i j sub sub' now later s =
      rw (lookup-erase sender sender s.tx_cache, (==_iff sender sender).1 refl) refl

  -- The relay repeats an announcement while a transmission lasts. A repeated one, in whatever it
  -- says, plays no further cue: after an announcement of a known sender the mixer is left as it is
  -- by the next one.
  refresh_plays_no_cue :
      (sender : ℕ) (freq freq' sub sub' : Text) (range range' now later : ℕ) (s : Session fl)
      → is_empty (key_of_session sender s.uid_to_session) ≡ false
      → (on_radio_tx fl sender true freq' range' sub' later
          (on_radio_tx fl sender true freq range sub now s)).mixer
        ≡ (on_radio_tx fl sender true freq range sub now s).mixer
  unfolding noted
  refresh_plays_no_cue sender freq freq' sub sub' range range' now later s known =
      let i = info_of sender freq range sub s in
      let s' = noted sender true i sub now s in
      rw (on_radio_tx-noted sender true freq range sub now s known) (
        rw (on_radio_tx-noted sender true freq' range' sub' later s' known)
          (noted-refresh sender i (info_of sender freq' range' sub' s) sub sub' now later s))

  -- The end of a transmission plays the end cue of the radio that the announcement named, whatever
  -- subtype the end packet carries, and only if the sender was transmitting.
  end_cue_of_announced :
      (sender : ℕ) (freq freq' sub sub' : Text) (range range' now later : ℕ) (s : Session fl)
      → is_empty (key_of_session sender s.uid_to_session) ≡ false
      → ((on_radio_tx fl sender false freq' range' sub' later
            (on_radio_tx fl sender true freq range sub now s)).mixer
          ≡ trigger_remote_beep fl sender sub false
              (on_radio_tx fl sender true freq range sub now s).mixer)
        × ((on_radio_tx fl sender false freq' range' sub' later
              (on_radio_tx fl sender false freq range sub now s)).mixer
            ≡ (on_radio_tx fl sender false freq range sub now s).mixer)
  unfolding noted
  end_cue_of_announced sender freq freq' sub sub' range range' now later s known =
      let i = info_of sender freq range sub s in
      let j = info_of sender freq' range' sub' s in
      let began = on_radio_tx-noted sender true freq range sub now s known in
      let ended = on_radio_tx-noted sender false freq range sub now s known in
      let end_of_begun =
        on_radio_tx-noted sender false freq' range' sub' later (noted sender true i sub now s)
          known in
      let end_of_ended =
        on_radio_tx-noted sender false freq' range' sub' later (noted sender false i sub now s)
          known in
      (
        rw began (rw end_of_begun (noted-end sender i j sub sub' now later s)),
        rw ended (rw end_of_ended (noted-ended sender i j sub sub' now later s)),
      )

  -- An announcement that is not refreshed is passed on to the solver for a second and a half after
  -- it arrived and no longer: what is current at a time is the cached entries received less than
  -- that ago.
  current_radio_tx-expires :
      (sender : ℕ) (freq sub : Text) (range now later : ℕ) (s : Session fl)
      → is_empty (key_of_session sender s.uid_to_session) ≡ false
      → s.tx_cache ≡ []
      → now ≤ later
      → current_radio_tx fl later (on_radio_tx fl sender true freq range sub now s)
        ≡ (if ltb (later - now) 1500000000 then info_of sender freq range sub s ∷ [] else [])
  unfolding noted current_radio_tx fresh_entries update_cache insert
  current_radio_tx-expires sender freq sub range now later s known fresh order =
      rw (on_radio_tx-noted sender true freq range sub now s known) (rw fresh refl)

  erase_session-insert :
      (session_id : ℕ) (k : Text) (m : Map Text ℕ)
      → All (λ e. (e.1 == session_id) ≡ false) m
      → lookup k m ≡ none
      → erase_session session_id (insert k session_id m) ≡ m
  unfolding erase_session insert lookup
  erase_session-insert session_id k [] unused fresh =
      rw ((==_iff session_id session_id).1 refl) refl
  erase_session-insert session_id k ((j, v) ∷ m) unused fresh = elim (Bool-cases (text_eq j k)) [
    | inl same ↦ absurd (some-ne-none v (rw same at fresh))
    | inr other ↦
        rw (other, unused.0)
          (ap (λ l. (j, v) ∷ l) (erase_session-insert session_id k m unused.1 (rw other at fresh)))
  ]

  -- A client that joins under a session, a uid and a name that are new, and leaves again, leaves no
  -- trace in the rosters, and no source of it is there.
  left-joined :
      (session_id : ℕ) (uid name : Text) (s : Session fl)
      → All (λ e. (e.1 == session_id) ≡ false) s.uid_to_session
      → All (λ e. (e.1 == session_id) ≡ false) s.name_to_session
      → lookup uid s.uid_to_session ≡ none
      → lookup name s.name_to_session ≡ none
      → is_empty name ≡ false
      → ((on_remote_left fl session_id (on_remote_joined fl session_id uid name s)).uid_to_session
          ≡ s.uid_to_session)
        × ((on_remote_left fl session_id
              (on_remote_joined fl session_id uid name s)).name_to_session
            ≡ s.name_to_session)
        × (lookup session_id
              (on_remote_left fl session_id
                (on_remote_joined fl session_id uid name s)).mixer.sources
            ≡ none)
  unfolding on_remote_left on_remote_joined remove_source
  left-joined session_id uid name s no_uid no_name new_uid new_name named = (
    erase_session-insert session_id uid s.uid_to_session no_uid new_uid,
    rw named (erase_session-insert session_id name s.name_to_session no_name new_name),
    rw
        (
          lookup-erase session_id session_id (add_source fl session_id uid s.mixer).sources,
          (==_iff session_id session_id).1 refl,
        )
        refl,
  )
