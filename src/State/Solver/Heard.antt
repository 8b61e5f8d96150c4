-- ===== src/State/Solver/Heard.antt =====
-- Whom the solver lets us hear
-- (addon/extensions/task_force_radio_pipe/src/State.cpp: computeAudibleUnits).
use task_force_radio_standal.Base.{
  ltb, if◌then◌else◌, Option-cases, if_keeps, All, All-append, any, Text, codes, is_empty, text_eq,
  text_eq_refl, text_is_eq, ℕ, ◌-◌, ◌≡◌, refl, inl, inr, Bool, true, false, not, ◌&&◌, ◌||◌, Option,
  none, some, List, [], ◌∷◌, ◌++◌,
}
use task_force_radio_standal.Base.Map.{Map, lookup}
use task_force_radio_standal.Float.{Float}
use task_force_radio_standal.Geometry.{zero_f, no_antenna_loss, is_null}
use task_force_radio_standal.State.Data.{RemoteClient, SpeakerData, RemoteTx, AudibleUnit, State}
use task_force_radio_standal.State.Parse.{subtype_to_fx}
use task_force_radio_standal.State.Queries.{kclient_expiry, uid_for, config_bool}
use task_force_radio_standal.State.WellFormed.{IsWellFormed}
use task_force_radio_standal.State.Solver.{effective_distance, antenna_loss}
use task_force_radio_standal.State.Solver.Paths.{
  Scene, scene, if_audible, receiving_radio, earpiece_unit, radio_paths, speaker_place,
  speaker_unit, speaker_paths,
}
use task_force_radio_standal.State.Solver.Snapshot.{
  current_tx, transmission_paths, intercom_paths, direct_paths, client_paths, is_listed, all_paths,
  finish, finish_all, world_paths, compute_audible_units,
}

All-imp {ℓ κ μ} :
    {A : Type ℓ} {P : A → Type κ} {Q : A → Type μ} (xs : List A)
    → ((x : A) → P x → Q x)
    → All P xs
    → All Q xs
All-imp [] f h = tt
All-imp (x ∷ xs) f h = (f x h.0, All-imp xs f h.1)

pub both_true : (a b : Bool) → a && b ≡ true → (a ≡ true) × (b ≡ true)
both_true true b h = (refl, h)
both_true false b h = cc

is_denied : (a : Bool) → not a ≡ true → a ≡ false
is_denied true h = cc
is_denied false h = refl

module _ (fl : Float) where
  abbrev IsOf : Text → AudibleUnit fl → Type 0
  IsOf name unit = unit.nickname ≡ name

  AreOf : Text → List (AudibleUnit fl) → Type 0
  AreOf name = All (IsOf name)

  AreOf-if_audible :
      (name : Text) (unit : AudibleUnit fl) → unit.nickname ≡ name → AreOf name (if_audible fl unit)
  unfolding AreOf
  AreOf-if_audible name unit h =
      if_keeps (AreOf name) (fl.lt (zero_f fl) unit.gain) (λ _. (h, tt)) (λ _. tt)

  AreOf-if :
      (name : Text) (b : Bool) (unit : AudibleUnit fl)
      → unit.nickname ≡ name
      → AreOf name (if b then if_audible fl unit else [])
  unfolding AreOf
  AreOf-if name true unit h = AreOf-if_audible name unit h
  AreOf-if name false unit h = tt

  AreOf-speaker_paths :
      (v : Scene fl) (tx : RemoteTx fl) (effective loss : fl.F) (s : State fl)
      (speakers : List (SpeakerData fl))
      → AreOf v.other.nickname (speaker_paths fl v tx effective loss s speakers)
  unfolding speaker_paths speaker_unit AreOf
  AreOf-speaker_paths v tx effective loss s [] = tt
  AreOf-speaker_paths v tx effective loss s (box ∷ speakers) =
      let rest = AreOf-speaker_paths v tx effective loss s speakers in
      if_keeps (AreOf v.other.nickname)
        (text_eq box.owner_nickname v.other.nickname
          || not (any (λ f. text_eq f tx.frequency) box.frequencies))
        (λ _. rest)
        (λ _.
          elim (speaker_place fl v box s)
            as (λ o. AreOf v.other.nickname (elim o [
              | none ↦ speaker_paths fl v tx effective loss s speakers
              | some place ↦
                  if is_null fl place || fl.lt place.z (zero_f fl)
                  then speaker_paths fl v tx effective loss s speakers
                  else if_audible fl (speaker_unit fl v tx effective loss box place s)
                    ++ speaker_paths fl v tx effective loss s speakers
            ])) [
              | none ↦ rest
              | some place ↦
                  if_keeps (AreOf v.other.nickname) (is_null fl place || fl.lt place.z (zero_f fl))
                    (λ _. rest)
                    (λ _.
                      All-append (IsOf v.other.nickname) _ _
                        (AreOf-if_audible v.other.nickname
                          (speaker_unit fl v tx effective loss box place s) refl)
                        rest)
            ])

  AreOf-radio_paths :
      (v : Scene fl) (tx : RemoteTx fl) (effective loss : fl.F) (s : State fl)
      → AreOf v.other.nickname (radio_paths fl v tx effective loss s).0
  unfolding radio_paths AreOf earpiece_unit
  AreOf-radio_paths v tx effective loss s =
      let under = fl.lt v.his_pos.z (zero_f fl) && not v.other.can_use_sw in
      elim (Option-cases (receiving_radio fl v tx s)) [
        | inl e ↦ rw (e, radio_paths) tt
        | inr ((f, via_lr), e) ↦ elim (Option-cases (subtype_to_fx tx.subtype under)) [
          | inl e' ↦ rw (e, radio_paths) (rw e' tt)
          | inr (fx, e') ↦
              rw (e, radio_paths)
                (rw e' (
                  AreOf-if_audible v.other.nickname (earpiece_unit fl v tx effective loss f fx s)
                    refl))
        ]
      ]

  AreOf-transmission_paths :
      (v : Scene fl) (tx : RemoteTx fl) (s : State fl)
      → AreOf v.other.nickname (transmission_paths fl v tx s).0
  unfolding transmission_paths AreOf
  AreOf-transmission_paths v tx s =
      let effective = effective_distance fl v.my_pos v.other v.now s in
      let loss = antenna_loss fl v.his_pos tx.range v.my_pos s in
      if_keeps {A = List (AudibleUnit fl) × Bool} (λ r. AreOf v.other.nickname r.0)
        ((fl.lt (zero_f fl) tx.range && fl.le effective tx.range)
          || fl.lt loss (no_antenna_loss fl))
        (λ _.
          All-append (IsOf v.other.nickname) _ _ (AreOf-radio_paths v tx effective loss s)
            (AreOf-speaker_paths v tx effective loss s s.speakers))
        (λ _. tt)

  AreOf-intercom_paths :
      (v : Scene fl) (transmits : Bool) (s : State fl)
      → AreOf v.other.nickname (intercom_paths fl v transmits s)
  unfolding intercom_paths
  AreOf-intercom_paths v transmits s = AreOf-if v.other.nickname _ _ refl

  AreOf-direct_paths : (v : Scene fl) (s : State fl) → AreOf v.other.nickname (direct_paths fl v s)
  unfolding direct_paths
  AreOf-direct_paths v s = AreOf-if v.other.nickname _ _ refl

  AreOf-told :
      (v : Scene fl) (s : State fl) (o : Option (RemoteTx fl))
      → AreOf v.other.nickname
          (elim o as (λ x. List (AudibleUnit fl) × Bool) [
            | none ↦ ([], false)
            | some t ↦ if v.other.is_spectating then ([], false) else transmission_paths fl v t s
          ]).0
  unfolding AreOf
  AreOf-told v s none = tt
  AreOf-told v s (some t) =
      if_keeps {A = List (AudibleUnit fl) × Bool} (λ r. AreOf v.other.nickname r.0)
        v.other.is_spectating (λ _. tt) (λ _. AreOf-transmission_paths v t s)

  AreOf-client_paths :
      (v : Scene fl) (s : State fl) → AreOf v.other.nickname (client_paths fl v s).0
  unfolding client_paths AreOf
  AreOf-client_paths v s =
      let name = v.other.nickname in
      if_keeps {A = List (AudibleUnit fl) × Bool} (λ r. AreOf name r.0)
        (v.me.is_spectating && v.other.is_spectating)
        (λ _.
          if_keeps (AreOf name) (config_bool fl (codes "muteSpectators") false s) (λ _. tt)
            (λ _. (refl, tt)))
        (λ _.
          All-append (IsOf name) _ _
            (All-append (IsOf name) _ _ (AreOf-told v s (current_tx fl name v.now s))
              (AreOf-intercom_paths v _ s))
            (AreOf-direct_paths v s))

  -- A client of that name that has been heard of in time.
  abbrev pub is_fresh : ℕ → Text → Text × RemoteClient fl → Bool
  is_fresh now name e = text_eq e.1.nickname name && ltb (now - e.1.last_update) kclient_expiry

  abbrev IsHeard : ℕ → State fl → Map Text (RemoteClient fl) → AudibleUnit fl → Type 0
  IsHeard now s clients unit =
      (text_eq unit.nickname s.my_nickname ≡ false)
      × (any (is_fresh now unit.nickname) clients ≡ true)

  IsHeard-listed :
      (now : ℕ) (s : State fl) (name : Text) (other : RemoteClient fl)
      (clients : Map Text (RemoteClient fl)) (unit : AudibleUnit fl)
      → is_listed fl now other s ≡ true
      → IsOf other.nickname unit
      → IsHeard now s ((name, other) ∷ clients) unit
  unfolding is_listed
  IsHeard-listed now s name other clients unit listed of_other =
      let (alien, fresh) = both_true (not (text_eq other.nickname s.my_nickname)) _ listed in
      let fresh_self : is_fresh now other.nickname (name, other) ≡ true =
        rw (text_eq_refl other.nickname, fresh) refl in
      rw of_other (is_denied _ alien, rw (any, fresh_self) refl)

  any_rest : (b rest : Bool) → rest ≡ true → elim b [ true ↦ true | false ↦ rest ] ≡ true
  any_rest true rest h = refl
  any_rest false rest h = h

  all_paths-IsHeard :
      (now : ℕ) (me : RemoteClient fl) (s : State fl) (clients : Map Text (RemoteClient fl))
      → All (IsHeard now s clients) (all_paths fl now me s clients).0
  unfolding all_paths AreOf
  all_paths-IsHeard now me s [] = tt
  all_paths-IsHeard now me s ((name, other) ∷ clients) =
      let rest =
        All-imp (all_paths fl now me s clients).0
          (λ u h. (h.0, any_rest (is_fresh now u.nickname (name, other)) _ h.1))
          (all_paths-IsHeard now me s clients) in
      if_keeps {A = List (AudibleUnit fl) × Bool}
        (λ r. All (IsHeard now s ((name, other) ∷ clients)) r.0) (is_listed fl now other s)
        (λ listed.
          All-append (IsHeard now s ((name, other) ∷ clients)) _ _
            (All-imp (client_paths fl (scene fl now me other s) s).0
              (λ u h. IsHeard-listed now s name other clients u listed h)
              (AreOf-client_paths (scene fl now me other s) s))
            rest)
        (λ _. rest)

  -- A tick's run of the solver keeps the state well formed.
  pub compute_audible_units-IsWellFormed :
      (now : ℕ) (s : State fl)
      → IsWellFormed fl s
      → IsWellFormed fl (compute_audible_units fl now s).1
  unfolding compute_audible_units
  compute_audible_units-IsWellFormed now s h = assumption

  -- A row of the snapshot: whom it tells of, and under which name of the voice client.
  pub IsRow : ℕ → State fl → AudibleUnit fl → Type 0
  IsRow now s unit = IsHeard now s s.clients unit × (unit.uid ≡ uid_for fl unit.nickname s)

  finish_all-IsRow :
      (now : ℕ) (s : State fl) (units : List (AudibleUnit fl))
      → All (IsHeard now s s.clients) units
      → All (IsRow now s) (finish_all fl s units)
  unfolding finish_all finish IsRow
  finish_all-IsRow now s [] h = tt
  finish_all-IsRow now s (unit ∷ units) h = ((h.0, refl), finish_all-IsRow now s units h.1)

  world_paths-IsHeard :
      (now : ℕ) (s : State fl) → All (IsHeard now s s.clients) (world_paths fl now s).0
  unfolding world_paths
  world_paths-IsHeard now s =
      if_keeps {A = List (AudibleUnit fl) × Bool} (λ r. All (IsHeard now s s.clients) r.0)
        (is_empty s.my_nickname) (λ _. tt)
        (λ _.
          elim (lookup s.my_nickname s.clients)
            as (λ o.
              All (IsHeard now s s.clients)
                (elim o as (λ x. List (AudibleUnit fl) × Bool) [
                  | none ↦ ([], false)
                  | some me ↦
                      if ltb (now - me.last_update) kclient_expiry
                      then all_paths fl now me s s.clients
                      else ([], false)
                ]).0) [
                  | none ↦ tt
                  | some me ↦
                      if_keeps {A = List (AudibleUnit fl) × Bool}
                        (λ r. All (IsHeard now s s.clients) r.0)
                        (ltb (now - me.last_update) kclient_expiry)
                        (λ _. all_paths-IsHeard now me s s.clients) (λ _. tt)
                ])

  -- Every row of a tick's snapshot tells of a client that is not ourselves and that was heard of
  -- within the expiry of clients, and it carries the voice client's name for that nickname.
  pub compute_audible_units-IsRow :
      (now : ℕ) (s : State fl) → All (IsRow now s) (compute_audible_units fl now s).0
  unfolding compute_audible_units
  compute_audible_units-IsRow now s =
      finish_all-IsRow now s (world_paths fl now s).0 (world_paths-IsHeard now s)
