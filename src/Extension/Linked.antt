-- ===== src/Extension/Linked.antt =====
-- The voice session and the connection that it stands on
-- (addon/extensions/task_force_radio_pipe/src/Voice/VoiceSession.cpp: the callbacks of start, and
-- applyAudibility; Voice/VoiceNetworkClient.cpp: threadMain).
use task_force_radio_standal.Base.{
  leb, ◌==◌, if◌then◌else◌, if_keeps, All, All-append, any, Text, ℕ, zero, suc, ◌-◌, ◌/◌, ◌≡◌, refl,
  ◌∙◌, Bool, true, false, not, ◌||◌, Option, none, some, List, [], ◌∷◌,
}
use task_force_radio_standal.Base.Map.{Map}
use task_force_radio_standal.Float.{Float}
use task_force_radio_standal.Voice.Source.{RemoteSourceState, set_states}
use task_force_radio_standal.Voice.Mixer.{Mixer, set_source_states}
use task_force_radio_standal.Voice.Mixer.Kept.{
  AreFramed, Keeps, Keeps-refl, Keeps-trans, on_source-Keeps, set_states-IsFramed,
}
use task_force_radio_standal.Voice.Session.{
  AudibilityUpdate, Session, group_paths, set_groups, seen, silence, apply_audibility,
}
use task_force_radio_standal.Voice.Network.{
  Event, voice_frame, remote_joined, remote_left, radio_tx, connection_changed, sent, nonzero,
  read_voice_down, read_client_joined, read_client_left, read_radio_tx, handle_packet, ping_packet,
  Client, send_raw,
}
use task_force_radio_standal.Voice.Network.Thread.{
  ping_interval, or_nothing, pump_loop, roster_request_packet, ping_server,
}
use task_force_radio_standal.Protocol.{
  voice_down, client_joined, client_left, radio_tx_broadcast, packet_code, last_frame_flag,
  max_name_length, max_uid_length, max_freq_length, max_subtype_length, PacketWriter, read_byte,
  read_uint16, read_uint32, ◌>>=◌, read_string8,
}
use Prim.Native.Nat.{bit_and}

-- A callback other than a change of the connection.
abbrev pub IsPlain : Event → Type 0
IsPlain (connection_changed connected) = ⊥
IsPlain (voice_frame sender sequence is_last opus) = Unit
IsPlain (remote_joined session_id uid name) = Unit
IsPlain (remote_left session_id) = Unit
IsPlain (radio_tx sender active freq range sub) = Unit
IsPlain (sent bytes) = Unit

ArePlain : Option (List Event) → Type 0
ArePlain none = Unit
ArePlain (some events) = All IsPlain events

-- A reader that goes on with what it has read.
ArePlain-then {ℓ} :
    {A : Type ℓ} (o : Option A) (f : A → Option (List Event))
    → ((a : A) → ArePlain (f a))
    → ArePlain (o >>= f)
unfolding ArePlain
ArePlain-then none f h = tt
ArePlain-then (some a) f h = h a

one_plain : (e : Event) → IsPlain e → ArePlain (some (e ∷ []))
unfolding ArePlain
one_plain e h = (h, tt)

read_voice_down-ArePlain : (bs : Text) → ArePlain (read_voice_down bs)
unfolding read_voice_down
read_voice_down-ArePlain bs = ArePlain-then (read_uint32 bs) _ λ r.
    ArePlain-then (read_uint16 r.1) _ λ r'.
      ArePlain-then (read_byte r'.1) _
        λ r''. one_plain (voice_frame r.0 r'.0 (nonzero (bit_and r''.0 last_frame_flag)) r''.1) tt

read_client_joined-ArePlain : (bs : Text) → ArePlain (read_client_joined bs)
unfolding read_client_joined
read_client_joined-ArePlain bs = ArePlain-then (read_uint32 bs) _ λ r.
    ArePlain-then (read_string8 max_uid_length r.1) _ λ r'.
      ArePlain-then (read_string8 max_name_length r'.1) _
        λ r''. one_plain (remote_joined r.0 r'.0 r''.0) tt

read_client_left-ArePlain : (bs : Text) → ArePlain (read_client_left bs)
unfolding read_client_left
read_client_left-ArePlain bs = ArePlain-then (read_uint32 bs) _ λ r. one_plain (remote_left r.0) tt

read_radio_tx-ArePlain : (bs : Text) → ArePlain (read_radio_tx bs)
unfolding read_radio_tx
read_radio_tx-ArePlain bs = ArePlain-then (read_uint32 bs) _ λ r.
    ArePlain-then (read_byte r.1) _ λ r'. ArePlain-then (read_string8 max_freq_length r'.1) _ λ f.
      ArePlain-then (read_uint16 f.1) _ λ n.
        ArePlain-then (read_string8 max_subtype_length n.1) _
          λ s. one_plain (radio_tx r.0 (nonzero r'.0) f.0 n.0 s.0) tt

handle_packet-ArePlain : (datagram : Text) → ArePlain (handle_packet datagram)
unfolding handle_packet
handle_packet-ArePlain [] = unfold ArePlain in tt
handle_packet-ArePlain (code ∷ bs) =
    if_keeps ArePlain (code == packet_code voice_down) (λ _. read_voice_down-ArePlain bs)
      λ _.
        if_keeps ArePlain (code == packet_code client_joined) (λ _. read_client_joined-ArePlain bs)
          λ _.
            if_keeps ArePlain (code == packet_code client_left) (λ _. read_client_left-ArePlain bs)
              λ _.
                if_keeps ArePlain (code == packet_code radio_tx_broadcast)
                  (λ _. read_radio_tx-ArePlain bs) (λ _. unfold ArePlain in tt)

or_nothing-ArePlain : (o : Option (List Event)) → ArePlain o → All IsPlain (or_nothing o)
unfolding ArePlain
or_nothing-ArePlain none h = tt
or_nothing-ArePlain (some events) h = h

pub pump_loop-ArePlain :
    (n now : ℕ) (queue : List Text) (c : Client) → All IsPlain (pump_loop n now queue c).0
unfolding pump_loop
pump_loop-ArePlain zero now queue c = tt
pump_loop-ArePlain (suc n) now [] c = tt
pump_loop-ArePlain (suc n) now ([] ∷ queue) c = tt
pump_loop-ArePlain (suc n) now ((b ∷ bs) ∷ queue) c =
    All-append IsPlain _ _
      (or_nothing-ArePlain (handle_packet (b ∷ bs)) (handle_packet-ArePlain (b ∷ bs)))
      (pump_loop-ArePlain n now queue (record c { last_recv_time = now }))

send_raw-ArePlain : (packet : Option PacketWriter) (c : Client) → All IsPlain (send_raw packet c)
unfolding send_raw
send_raw-ArePlain none c =
    if_keeps (All IsPlain) (not c.has_socket || not c.connected) (λ _. tt) (λ _. tt)
send_raw-ArePlain (some w) c =
    if_keeps (All IsPlain) (not c.has_socket || not c.connected) (λ _. tt) (λ _. (tt, tt))

pub ping_server-ArePlain : (now : ℕ) (c : Client) → All IsPlain (ping_server now c).0
unfolding ping_server
ping_server-ArePlain now c =
    if_keeps {A = List Event × Client} (λ r. All IsPlain r.0)
      (leb ping_interval (now - c.last_ping_time))
      (λ _.
        All-append IsPlain _ _ (send_raw-ArePlain (ping_packet (now / 1000000)) c)
          (send_raw-ArePlain roster_request_packet c))
      (λ _. tt)

module _ (fl : Float) where
  -- The playback follows the connection's debug mode, and a session without a connection is empty.
  abbrev pub IsLinked : Bool → Bool → Session fl → Type 0
  IsLinked true forced s = (s.mixer.debug_force_audible ≡ forced) × AreFramed fl s.mixer
  IsLinked false forced s =
      (s.mixer.debug_force_audible ≡ false)
      × (s.mixer.sources ≡ [])
      × (s.uid_to_session ≡ [])
      × (s.name_to_session ≡ [])
      × (s.tx_cache ≡ [])

  -- The rosters and the cache are the same, and the mixer keeps what it has to.
  pub record Follows (s s' : Session fl) : Type 0 where
    pub mixer : Keeps fl s.mixer s'.mixer
    pub uids : s'.uid_to_session ≡ s.uid_to_session
    pub names : s'.name_to_session ≡ s.name_to_session
    pub cache : s'.tx_cache ≡ s.tx_cache

  pub Follows-IsLinked :
      (connected forced : Bool) (s s' : Session fl)
      → Follows s s'
      → IsLinked connected forced s
      → IsLinked connected forced s'
  Follows-IsLinked true forced s s' f (debug, framed) =
      (f.mixer.forced ∙ debug, f.mixer.framed framed)
  Follows-IsLinked false forced s s' f (debug, no_sources, uids, names, cache) = (
    f.mixer.forced ∙ debug,
    f.mixer.none_new no_sources,
    f.uids ∙ uids,
    f.names ∙ names,
    f.cache ∙ cache,
  )

  pub Follows-mixer :
      (s : Session fl) (m : Mixer fl) → Keeps fl s.mixer m → Follows s (record s { mixer = m })
  Follows-mixer s m h = record { mixer = h; uids = refl; names = refl; cache = refl }

  set_groups-Keeps :
      (g : Map ℕ (List (RemoteSourceState fl))) (m : Mixer fl) → Keeps fl m (set_groups fl g m)
  unfolding set_groups
  set_groups-Keeps [] m = Keeps-refl fl m
  set_groups-Keeps ((session_id, paths) ∷ g) m =
      Keeps-trans fl m (set_groups fl g m) _ (set_groups-Keeps g m) (
        on_source-Keeps fl session_id (set_states fl paths) (set_groups fl g m)
          (set_states-IsFramed fl paths))

  silence-Keeps :
      (before now_active : List ℕ) (m : Mixer fl) → Keeps fl m (silence fl before now_active m)
  unfolding silence
  silence-Keeps [] now_active m = Keeps-refl fl m
  silence-Keeps (session_id ∷ before) now_active m =
      let m' =
        if any (◌==◌ session_id) now_active then m else set_source_states fl session_id [] m in
      Keeps-trans fl m m' _
        (if_keeps (Keeps fl m) (any (◌==◌ session_id) now_active) (λ _. Keeps-refl fl m)
          (λ _. on_source-Keeps fl session_id (set_states fl []) m (set_states-IsFramed fl [])))
        (silence-Keeps before now_active m')

  pub apply_audibility-Follows :
      (units : List (AudibilityUpdate fl)) (s : Session fl)
      → Follows s (apply_audibility fl units s)
  unfolding apply_audibility
  apply_audibility-Follows units s =
      let g = group_paths fl units s [] in
      let grouped = set_groups fl g s.mixer in
      if_keeps (Follows s) s.mixer.debug_force_audible
        (λ _. Follows-mixer s s.mixer (Keeps-refl fl s.mixer))
        (λ _. record {
          mixer =
              Keeps-trans fl s.mixer grouped _ (set_groups-Keeps g s.mixer)
                (silence-Keeps s.last_active (seen fl g) grouped);
          uids = refl;
          names = refl;
          cache = refl;
        })
