-- ===== src/Voice/Session.antt =====
-- The voice session
-- (addon/extensions/task_force_radio_pipe/src/Voice/VoiceSession.h and VoiceSession.cpp): the
-- rosters of the relay's clients, the cache of their transmissions, and what the audibility solver
-- hands to the playback. The network client calls the `on_` functions; the tick calls the others.
pub mod Audibility
pub mod Radio
use task_force_radio_standal.Base.{
  ltb, ◌==◌, if◌then◌else◌, nat_eq, any, Text, is_empty, text_is_eq, ℕ, ◌-◌, Bool, true, false,
  ◌&&◌, Option, none, some, List, [], ◌∷◌, ◌++◌,
}
use task_force_radio_standal.Base.Map.{Map, lookup, insert, erase}
use task_force_radio_standal.Float.{Float}
use task_force_radio_standal.Voice.Source.{RemoteSourceState}
use task_force_radio_standal.Voice.Mixer.{
  Mixer, new_mixer, add_source, set_source_states, enqueue_for, remove_source, remove_all_sources,
  trigger_remote_beep,
}
use task_force_radio_standal.State.Queries.{ktx_expiry}

pub record AudibilityUpdate (fl : Float) : Type 0 where
  pub uid : Text
  pub nickname : Text
  pub path : RemoteSourceState fl

pub record RadioTxInfo : Type 0 where
  pub uid : Text
  pub active : Bool
  pub freq : Text
  pub range : ℕ
  pub subtype : Text

pub record TxCacheEntry : Type 0 where
  pub info : RadioTxInfo
  pub received_at : ℕ

pub record Session (fl : Float) : Type 0 where
  pub uid_to_session : Map Text ℕ
  pub name_to_session : Map Text ℕ
  pub last_active : List ℕ
  pub tx_cache : Map ℕ TxCacheEntry
  pub mixer : Mixer fl

-- The loops that erase the first entry of a session.
unfoldable pub erase_session : ℕ → Map Text ℕ → Map Text ℕ
erase_session session_id [] = []
erase_session session_id ((k, v) ∷ m) =
    if v == session_id then m else (k, v) ∷ erase_session session_id m

-- The key of a session, empty if it has none.
unfoldable pub key_of_session : ℕ → Map Text ℕ → Text
key_of_session session_id [] = []
key_of_session session_id ((k, v) ∷ m) = if v == session_id then k else key_of_session session_id m

module _ (fl : Float) where
  abbrev pub new_session : Session fl
  new_session = record {
    uid_to_session = [];
    name_to_session = [];
    last_active = [];
    tx_cache = [];
    mixer = new_mixer fl;
  }

  unfoldable pub on_voice_frame : ℕ → Bool → Text → Session fl → Session fl
  on_voice_frame session_id is_last opus s = record s {
    mixer = enqueue_for fl session_id opus is_last s.mixer;
  }

  unfoldable pub on_remote_joined : ℕ → Text → Text → Session fl → Session fl
  on_remote_joined session_id uid name s = record s {
    mixer = add_source fl session_id uid s.mixer;
    uid_to_session = insert uid session_id s.uid_to_session;
    name_to_session =
        if is_empty name then s.name_to_session else insert name session_id s.name_to_session;
  }

  unfoldable pub on_remote_left : ℕ → Session fl → Session fl
  unfolding erase_session
  on_remote_left session_id s = record s {
    mixer = remove_source fl session_id s.mixer;
    uid_to_session = erase_session session_id s.uid_to_session;
    name_to_session = erase_session session_id s.name_to_session;
  }

  unfoldable pub update_cache : ℕ → Bool → RadioTxInfo → ℕ → Map ℕ TxCacheEntry → Map ℕ TxCacheEntry
  update_cache sender active info now cache =
      if active
      then insert sender (record { info = info; received_at = now }) cache
      else erase sender cache

  -- The cue of an edge: start with the subtype of the packet, end with the one that was cached.
  unfoldable pub edge_cue : ℕ → Bool → Text → Option TxCacheEntry → Mixer fl → Mixer fl
  edge_cue sender active sub none m = if active then trigger_remote_beep fl sender sub true m else m
  edge_cue sender active sub (some entry) m =
      if active then m else trigger_remote_beep fl sender entry.info.subtype false m

  unfoldable pub on_radio_tx : ℕ → Bool → Text → ℕ → Text → ℕ → Session fl → Session fl
  unfolding key_of_session update_cache edge_cue
  on_radio_tx sender active freq range sub now s =
      let uid = key_of_session sender s.uid_to_session in
      let info : RadioTxInfo = record {
        uid = uid;
        active = true;
        freq = freq;
        range = range;
        subtype = sub;
      } in
      if is_empty uid then s else record s {
        tx_cache = update_cache sender active info now s.tx_cache;
        mixer = edge_cue sender active sub (lookup sender s.tx_cache) s.mixer;
      }

  -- `forced` is what the network client says of the relay's debug mode.
  unfoldable pub on_connection_state_changed : Bool → Bool → Session fl → Session fl
  on_connection_state_changed connected forced s =
      let m = record s.mixer { debug_force_audible = connected && forced } in
      if connected then record s { mixer = m } else record s {
        mixer = remove_all_sources fl m;
        uid_to_session = [];
        name_to_session = [];
        tx_cache = [];
      }

  -- The session that an update means, by its uid or else by its nickname.
  unfoldable pub resolve : AudibilityUpdate fl → Session fl → Option ℕ
  resolve unit s = elim (lookup unit.uid s.uid_to_session) [
    | some session_id ↦ some session_id
    | none ↦ if is_empty unit.nickname then none else lookup unit.nickname s.name_to_session
  ]

  -- `paths_by_session[session_id].push_back(path)`
  unfoldable pub push_path :
      ℕ
      → RemoteSourceState fl
      → Map ℕ (List (RemoteSourceState fl))
      → Map ℕ (List (RemoteSourceState fl))
  push_path session_id path g = elim (lookup session_id g) [
    | none ↦ insert session_id (path ∷ []) g
    | some paths ↦ insert session_id (paths ++ path ∷ []) g
  ]

  unfoldable pub group_paths :
      List (AudibilityUpdate fl)
      → Session fl
      → Map ℕ (List (RemoteSourceState fl))
      → Map ℕ (List (RemoteSourceState fl))
  unfolding resolve push_path
  group_paths [] s g = g
  group_paths (unit ∷ units) s g = elim (resolve unit s) [
    | none ↦ group_paths units s g
    | some session_id ↦ group_paths units s (push_path session_id unit.path g)
  ]

  -- The loop over the groups, in an order that the standard leaves open: here from the back.
  unfoldable pub set_groups : Map ℕ (List (RemoteSourceState fl)) → Mixer fl → Mixer fl
  set_groups [] m = m
  set_groups ((session_id, paths) ∷ g) m = set_source_states fl session_id paths (set_groups g m)

  abbrev pub seen : Map ℕ (List (RemoteSourceState fl)) → List ℕ
  seen [] = []
  seen ((session_id, paths) ∷ g) = session_id ∷ seen g

  -- What was active and is missing from the snapshot goes silent.
  unfoldable pub silence : List ℕ → List ℕ → Mixer fl → Mixer fl
  silence [] now_active m = m
  silence (session_id ∷ before) now_active m =
      let m' =
        if any (◌==◌ session_id) now_active then m else set_source_states fl session_id [] m in
      silence before now_active m'

  unfoldable pub apply_audibility : List (AudibilityUpdate fl) → Session fl → Session fl
  unfolding group_paths set_groups silence
  apply_audibility units s =
      let g = group_paths units s [] in
      if s.mixer.debug_force_audible then s else record s {
        mixer = silence s.last_active (seen g) (set_groups g s.mixer);
        last_active = seen g;
      }

  unfoldable pub fresh_entries : ℕ → Map ℕ TxCacheEntry → List RadioTxInfo
  fresh_entries now [] = []
  fresh_entries now ((sender, entry) ∷ cache) =
      let rest = fresh_entries now cache in
      if ltb (now - entry.received_at) ktx_expiry then entry.info ∷ rest else rest

  unfoldable pub current_radio_tx : ℕ → Session fl → List RadioTxInfo
  unfolding fresh_entries
  current_radio_tx now s = fresh_entries now s.tx_cache
