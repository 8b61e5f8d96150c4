-- ===== src/State/Solver/Rules.antt =====
-- Whom a rule of the game keeps us from hearing
-- (addon/extensions/task_force_radio_pipe/src/State.cpp: addAudibleForClientLocked).
use task_force_radio_standal.Base.{
  if◌then◌else◌, if_keeps, All, All-append, ◌≡◌, refl, sym, Bool, true, false, not, ◌&&◌, Option,
  none, some, List, [], ◌∷◌,
}
use task_force_radio_standal.Float.{Float}
use task_force_radio_standal.State.Data.{RemoteTx, Fx, AudibleUnit, State}
use task_force_radio_standal.State.Solver.Paths.{Scene}
use task_force_radio_standal.State.Solver.Snapshot.{
  current_tx, transmission_paths, intercom_paths, direct_paths, client_paths,
}
use task_force_radio_standal.State.Solver.Heard.{both_true}
use mathlib.Core.Path.{subst}

module _ (fl : Float) where
  -- The units are of the intercom.
  pub AreIntercom : List (AudibleUnit fl) → Type 0
  AreIntercom = All (λ unit. unit.fx ≡ Fx.intercom)

  AreIntercom-if_both :
      (a b : Bool) (unit : AudibleUnit fl)
      → unit.fx ≡ Fx.intercom
      → AreIntercom (if a then (if b then unit ∷ [] else []) else [])
  unfolding AreIntercom
  AreIntercom-if_both true true unit h = (h, tt)
  AreIntercom-if_both true false unit h = tt
  AreIntercom-if_both false b unit h = tt

  AreIntercom-intercom_paths :
      (v : Scene fl) (transmits : Bool) (s : State fl)
      → AreIntercom (intercom_paths fl v transmits s)
  unfolding intercom_paths
  AreIntercom-intercom_paths v transmits s = AreIntercom-if_both _ _ _ refl

  AreIntercom-told :
      (v : Scene fl) (s : State fl) (o : Option (RemoteTx fl))
      → v.other.is_spectating ≡ true
      → AreIntercom
          (elim o as (λ x. List (AudibleUnit fl) × Bool) [
            | none ↦ ([], false)
            | some t ↦ if v.other.is_spectating then ([], false) else transmission_paths fl v t s
          ]).0
  unfolding AreIntercom
  AreIntercom-told v s none dead = tt
  AreIntercom-told v s (some t) dead =
      subst (λ b. AreIntercom (if b then ([], false) else transmission_paths fl v t s).0) (sym dead)
        tt

  AreIntercom-if_living :
      (spectating near audible : Bool) (units : List (AudibleUnit fl))
      → spectating ≡ true
      → AreIntercom (if not spectating && near && audible then units else [])
  unfolding AreIntercom
  AreIntercom-if_living true near audible units dead = tt
  AreIntercom-if_living false near audible units dead = cc

  AreIntercom-direct_paths :
      (v : Scene fl) (s : State fl)
      → v.other.is_spectating ≡ true
      → AreIntercom (direct_paths fl v s)
  unfolding direct_paths
  AreIntercom-direct_paths v s dead = AreIntercom-if_living v.other.is_spectating _ _ _ dead

  -- While we do not spectate, every row of a client that does is an intercom row: neither speech nor
  -- radio nor a speaker carries it.
  pub client_paths-spectator :
      (v : Scene fl) (s : State fl)
      → v.me.is_spectating ≡ false
      → v.other.is_spectating ≡ true
      → AreIntercom (client_paths fl v s).0
  unfolding client_paths AreIntercom
  client_paths-spectator v s alive dead =
      let IsIntercom = (λ (unit : AudibleUnit fl). unit.fx ≡ Fx.intercom) in
      if_keeps {A = List (AudibleUnit fl) × Bool} (λ r. AreIntercom r.0)
        (v.me.is_spectating && v.other.is_spectating)
        (λ both. let shown = (both_true v.me.is_spectating v.other.is_spectating both).0 in cc)
        (λ _.
          All-append IsIntercom _ _
            (All-append IsIntercom _ _
              (AreIntercom-told v s (current_tx fl v.other.nickname v.now s) dead)
              (AreIntercom-intercom_paths v _ s))
            (AreIntercom-direct_paths v s dead))
