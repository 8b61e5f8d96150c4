-- ===== src/Extension/Delivered.antt =====
-- What the network client's callbacks do to the session
-- (addon/extensions/task_force_radio_pipe/src/Voice/VoiceSession.cpp: the callbacks of start;
-- Voice/VoiceNetworkClient.cpp: threadMain).
use task_force_radio_standal.Base.{nat_eq}
use task_force_radio_standal.Base.{
  Option-cases, if_keeps, All, Text, is_empty, text_is_eq, ℕ, ◌≡◌, refl, ◌∙◌, inl, inr, Bool, true,
  false, Option, none, some, List, [], ◌∷◌, ◌++◌,
}
use task_force_radio_standal.Base.Map.{Map, lookup, All-insert, All-erase}
use task_force_radio_standal.Float.{Float}
use task_force_radio_standal.Voice.Source.{Source, new_source, enqueue_opus_frame}
use task_force_radio_standal.Voice.Source.Rendered.{IsFramed, new_source-IsFramed}
use task_force_radio_standal.Voice.Mixer.{Mixer, add_source, remove_source}
use task_force_radio_standal.Voice.Mixer.Kept.{
  AreFramed, Keeps, Keeps-refl, on_source-Keeps, set_states-IsFramed, enqueue_opus_frame-IsFramed,
  trigger_remote_beep-Keeps,
}
use task_force_radio_standal.Voice.Session.{
  TxCacheEntry, Session, key_of_session, on_voice_frame, on_remote_joined, on_remote_left, edge_cue,
  on_radio_tx,
}
use task_force_radio_standal.Voice.Network.{
  Event, voice_frame, remote_joined, remote_left, radio_tx, connection_changed, sent, Client,
}
use task_force_radio_standal.Extension.Threads.{on_event, deliver}
use task_force_radio_standal.Extension.Linked.{IsPlain, IsLinked}

module _ (fl : Float) where
  -- The session fits the client.
  abbrev pub Linked : Client → Session fl → Type 0
  Linked c s = IsLinked fl c.connected c.debug_force_audible s

  add_source-IsLinked :
      (session_id : ℕ) (uid : Text) (m : Mixer fl)
      → ((add_source fl session_id uid m).debug_force_audible ≡ m.debug_force_audible)
        × (AreFramed fl m → AreFramed fl (add_source fl session_id uid m))
  unfolding add_source
  add_source-IsLinked session_id uid m = elim (Option-cases (lookup session_id m.sources)) [
    | inr (source, there) ↦ rw (there, add_source) (refl, λ h. h)
    | inl missing ↦
        let fresh = new_source-IsFramed fl session_id uid in
        let P : ℕ × Source fl → Type 0 = λ e. IsFramed fl e.1 in
        rw (missing, add_source)
          (
            refl,
            λ h.
                All-insert P session_id _ m.sources
                  (if_keeps (IsFramed fl) m.debug_force_audible
                    (λ _. set_states-IsFramed fl _ (new_source fl session_id uid) fresh)
                    (λ _. fresh))
                  h,
          )
  ]

  edge_cue-Keeps :
      (sender : ℕ) (active : Bool) (sub : Text) (o : Option TxCacheEntry) (m : Mixer fl)
      → Keeps fl m (edge_cue fl sender active sub o m)
  unfolding edge_cue
  edge_cue-Keeps sender active sub none m =
      if_keeps (Keeps fl m) active (λ _. trigger_remote_beep-Keeps fl sender sub true m)
        (λ _. Keeps-refl fl m)
  edge_cue-Keeps sender active sub (some entry) m =
      if_keeps (Keeps fl m) active (λ _. Keeps-refl fl m)
        (λ _. trigger_remote_beep-Keeps fl sender entry.info.subtype false m)

  -- A callback while the connection is up.
  pub on_event-IsLinked :
      (forced now_forced : Bool) (now : ℕ) (e : Event) (s : Session fl)
      → IsPlain e
      → IsLinked fl true forced s
      → IsLinked fl true forced (on_event fl now_forced now e s)
  unfolding on_event
  on_event-IsLinked forced f now (voice_frame sender sequence is_last opus) s p h =
      let kept =
        on_source-Keeps fl sender (enqueue_opus_frame fl opus is_last) s.mixer
          (enqueue_opus_frame-IsFramed fl opus is_last) in
      unfold on_voice_frame in (kept.forced ∙ h.0, kept.framed h.1)
  on_event-IsLinked forced f now (remote_joined session_id uid name) s p h =
      let added = add_source-IsLinked session_id uid s.mixer in
      unfold on_remote_joined in (added.0 ∙ h.0, added.1 h.1)
  on_event-IsLinked forced f now (remote_left session_id) s p h =
      unfold on_remote_left remove_source in
      (h.0, All-erase (λ e. IsFramed fl e.1) session_id s.mixer.sources h.1)
  on_event-IsLinked forced f now (radio_tx sender active freq range sub) s p h =
      let kept = edge_cue-Keeps sender active sub (lookup sender s.tx_cache) s.mixer in
      unfold on_radio_tx in
      if_keeps (IsLinked fl true forced) (is_empty (key_of_session sender s.uid_to_session))
        (λ _. h) (λ _. (kept.forced ∙ h.0, kept.framed h.1))
  on_event-IsLinked forced f now (sent bytes) s p h = h
  on_event-IsLinked forced f now (connection_changed connected) s p h = absurd p

  pub deliver-IsLinked :
      (forced now_forced : Bool) (now : ℕ) (events : List Event) (s : Session fl)
      → All IsPlain events
      → IsLinked fl true forced s
      → IsLinked fl true forced (deliver fl now_forced now events s)
  unfolding deliver
  deliver-IsLinked forced f now [] s p h = h
  deliver-IsLinked forced f now (e ∷ events) s p h =
      deliver-IsLinked forced f now events (on_event fl f now e s) p.1
        (on_event-IsLinked forced f now e s p.0 h)

  pub deliver-append :
      (f : Bool) (now : ℕ) (xs ys : List Event) (s : Session fl)
      → deliver fl f now (xs ++ ys) s ≡ deliver fl f now ys (deliver fl f now xs s)
  unfolding deliver
  deliver-append f now [] ys s = refl
  deliver-append f now (x ∷ xs) ys s = deliver-append f now xs ys (on_event fl f now x s)

  none_unframed : (sources : Map ℕ (Source fl)) → sources ≡ [] → All (λ e. IsFramed fl e.1) sources
  none_unframed [] h = tt
  none_unframed (e ∷ sources) h = cc

  pub IsLinked-framed :
      (connected forced : Bool) (s : Session fl)
      → IsLinked fl connected forced s
      → AreFramed fl s.mixer
  IsLinked-framed true forced s h = h.1
  IsLinked-framed false forced s h = none_unframed s.mixer.sources h.1
