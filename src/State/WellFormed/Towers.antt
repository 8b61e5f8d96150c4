-- ===== src/State/WellFormed/Towers.antt =====
-- RadioTwrAdd and RadioTwrDel keep the antennas' ids apart, and act on the antennas as on a map
-- from ids.
use task_force_radio_standal.Base.{
  ◌==◌, if◌then◌else◌, ==_iff, Bool-cases, if_keeps, length, any, Text, is_empty, text_eq,
  text_eq_iff, text_eq_comm, ◌≡◌, refl, ◌∙◌, inl, inr, false, not, Option, none, some, List, [],
  ◌∷◌, arith,
}
use task_force_radio_standal.Float.{Float}
use task_force_radio_standal.Util.{split, parse_arma_number}
use task_force_radio_standal.Geometry.{parse_vec3}
use task_force_radio_standal.State.Data.{AntennaData, State}
use task_force_radio_standal.State.Handlers.{token}
use task_force_radio_standal.State.World.{
  put_antenna, add_tower, add_towers, handle_add_radio_towers, remove_antenna, del_towers,
  handle_del_radio_towers,
}
use task_force_radio_standal.State.WellFormed.{
  Fresh, AntennasOk, IsWellFormed, IsWellFormed-antennas,
}

module _ (fl : Float) where
  -- The antenna of an id.
  unfoldable pub find_antenna : Text → List (AntennaData fl) → Option (AntennaData fl)
  unfolding text_eq
  find_antenna id [] = none
  find_antenna id (b ∷ l) = if text_eq b.net_id id then some b else find_antenna id l

  put_antenna-Fresh :
      (id : Text) (a : AntennaData fl) (l : List (AntennaData fl))
      → text_eq a.net_id id ≡ false
      → Fresh fl id l
      → Fresh fl id (put_antenna fl a l)
  unfolding put_antenna
  put_antenna-Fresh id a [] other h = (other, tt)
  put_antenna-Fresh id a (b ∷ l) other h =
      if_keeps (Fresh fl id) (text_eq b.net_id a.net_id) (λ _. (other, h.1))
        (λ _. (h.0, put_antenna-Fresh id a l other h.1))

  pub put_antenna-AntennasOk :
      (a : AntennaData fl) (l : List (AntennaData fl))
      → is_empty a.net_id ≡ false
      → AntennasOk fl l
      → AntennasOk fl (put_antenna fl a l)
  unfolding put_antenna
  put_antenna-AntennasOk a [] named h = (named, tt, tt)
  put_antenna-AntennasOk a (b ∷ l) named h =
      if_keeps (AntennasOk fl) (text_eq b.net_id a.net_id)
        (λ same. (named, rw ((text_eq_iff b.net_id a.net_id).0 same) at h.1, h.2))
        (λ other. (
          h.0,
          put_antenna-Fresh b.net_id a l (text_eq_comm a.net_id b.net_id ∙ other) h.1,
          put_antenna-AntennasOk a l named h.2,
        ))

  add_tower-AntennasOk :
      (entry : Text) (l : List (AntennaData fl))
      → AntennasOk fl l
      → AntennasOk fl (add_tower fl entry l)
  unfolding add_tower
  add_tower-AntennasOk entry l h =
      let fields = split entry b';' in
      if_keeps (AntennasOk fl) (is_empty entry) (λ _. h)
        (λ _.
          if_keeps (AntennasOk fl) (not (length fields == 3)) (λ _. h)
            (λ _.
              if_keeps (AntennasOk fl) (is_empty (token fields 0)) (λ _. h)
                (λ named. put_antenna-AntennasOk _ l named h)))

  add_towers-AntennasOk :
      (entries : List Text) (l : List (AntennaData fl))
      → AntennasOk fl l
      → AntennasOk fl (add_towers fl entries l)
  unfolding add_towers
  add_towers-AntennasOk [] l h = h
  add_towers-AntennasOk (entry ∷ entries) l h =
      add_towers-AntennasOk entries (add_tower fl entry l) (add_tower-AntennasOk entry l h)

  remove_antenna-Fresh :
      (id gone : Text) (l : List (AntennaData fl))
      → Fresh fl id l
      → Fresh fl id (remove_antenna fl gone l)
  unfolding remove_antenna
  remove_antenna-Fresh id gone [] h = tt
  remove_antenna-Fresh id gone (b ∷ l) h =
      if_keeps (Fresh fl id) (text_eq b.net_id gone) (λ _. h.1)
        (λ _. (h.0, remove_antenna-Fresh id gone l h.1))

  pub remove_antenna-AntennasOk :
      (gone : Text) (l : List (AntennaData fl))
      → AntennasOk fl l
      → AntennasOk fl (remove_antenna fl gone l)
  unfolding remove_antenna
  remove_antenna-AntennasOk gone [] h = tt
  remove_antenna-AntennasOk gone (b ∷ l) h =
      if_keeps (AntennasOk fl) (text_eq b.net_id gone) (λ _. h.2)
        (λ _. (h.0, remove_antenna-Fresh b.net_id gone l h.1, remove_antenna-AntennasOk gone l h.2))

  del_towers-AntennasOk :
      (entries : List Text) (l : List (AntennaData fl))
      → AntennasOk fl l
      → AntennasOk fl (del_towers fl entries l)
  unfolding del_towers
  del_towers-AntennasOk [] l h = h
  del_towers-AntennasOk (entry ∷ entries) l h = del_towers-AntennasOk entries _ (
      if_keeps (AntennasOk fl) (is_empty entry) (λ _. h) (λ _. remove_antenna-AntennasOk entry l h))

  pub handle_add_radio_towers-IsWellFormed :
      (payload : Text) (s : State fl)
      → IsWellFormed fl s
      → IsWellFormed fl (handle_add_radio_towers fl payload s)
  unfolding handle_add_radio_towers
  handle_add_radio_towers-IsWellFormed payload s h =
      if_keeps (IsWellFormed fl) (is_empty payload) (λ _. h)
        (λ _.
          IsWellFormed-antennas fl _ s
            (add_towers-AntennasOk (split payload 0x0a) s.antennas h.antennas) h)

  pub handle_del_radio_towers-IsWellFormed :
      (payload : Text) (s : State fl)
      → IsWellFormed fl s
      → IsWellFormed fl (handle_del_radio_towers fl payload s)
  unfolding handle_del_radio_towers
  handle_del_radio_towers-IsWellFormed payload s h =
      if_keeps (IsWellFormed fl) (is_empty payload) (λ _. h)
        (λ _.
          IsWellFormed-antennas fl _ s
            (del_towers-AntennasOk (split payload 0x0a) s.antennas h.antennas) h)

  find-put_antenna :
      (id : Text) (a : AntennaData fl) (l : List (AntennaData fl))
      → find_antenna id (put_antenna fl a l)
        ≡ (if text_eq a.net_id id then some a else find_antenna id l)
  unfolding find_antenna put_antenna
  find-put_antenna id a [] = refl
  find-put_antenna id a (b ∷ l) = ground (
    arith,
    text_eq_iff b.net_id a.net_id,
    text_eq_iff b.net_id id,
    text_eq_iff a.net_id id,
    find-put_antenna id a l,
  )

  find-Fresh : (id : Text) (l : List (AntennaData fl)) → Fresh fl id l → find_antenna id l ≡ none
  unfolding find_antenna
  find-Fresh id [] h = refl
  find-Fresh id (b ∷ l) h = rw h.0 (find-Fresh id l h.1)

  find-remove_antenna :
      (id gone : Text) (l : List (AntennaData fl))
      → AntennasOk fl l
      → find_antenna id (remove_antenna fl gone l)
        ≡ (if text_eq gone id then none else find_antenna id l)
  unfolding find_antenna remove_antenna
  find-remove_antenna id gone [] h = ground arith
  find-remove_antenna id gone (b ∷ l) h = ground (
    arith,
    text_eq_iff b.net_id gone,
    text_eq_iff b.net_id id,
    text_eq_iff gone id,
    λ (same : b.net_id ≡ gone). find-Fresh gone l (rw same at h.1),
    find-remove_antenna id gone l h.2,
  )

  find-del_towers :
      (id : Text) (entries : List Text) (l : List (AntennaData fl))
      → is_empty id ≡ false
      → AntennasOk fl l
      → find_antenna id (del_towers fl entries l)
        ≡ (if any (text_eq id) entries then none else find_antenna id l)
  unfolding del_towers
  find-del_towers id [] l named h = refl
  find-del_towers id (entry ∷ entries) l named h = elim (Bool-cases (is_empty entry)) [
    | inl blank ↦
        rw blank (ground (arith, text_eq_iff id entry, find-del_towers id entries l named h))
    | inr some_id ↦
        let rest = remove_antenna fl entry l in
        rw some_id (
          ground (
            arith,
            text_eq_comm id entry,
            find-del_towers id entries rest named (remove_antenna-AntennasOk entry l h),
            find-remove_antenna id entry l h,
          ))
  ]

  -- RadioTwrDel takes away exactly the antennas whose ids the payload lists, and leaves every
  -- other antenna as it was, in a well-formed state.
  pub find-handle_del_radio_towers :
      (id payload : Text) (s : State fl)
      → IsWellFormed fl s
      → is_empty id ≡ false
      → find_antenna id (handle_del_radio_towers fl payload s).antennas
        ≡ (if any (text_eq id) (split payload 0x0a) then none else find_antenna id s.antennas)
  unfolding handle_del_radio_towers
  find-handle_del_radio_towers id [] s h named = unfold split text_eq in ground arith
  find-handle_del_radio_towers id (c ∷ payload) s h named =
      find-del_towers id (split (c ∷ payload) 0x0a) s.antennas named h.antennas

  -- RadioTwrAdd of one complete entry sets the antenna of its id, in place if it was there, and
  -- no other.
  find-add_tower :
      (id entry : Text) (l : List (AntennaData fl))
      → (length (split entry b';') ≡ 3)
      → is_empty (token (split entry b';') 0) ≡ false
      → is_empty entry ≡ false
      → find_antenna id (add_tower fl entry l) ≡ (
          if text_eq (token (split entry b';') 0) id
          then some (record {
            net_id = token (split entry b';') 0;
            pos = parse_vec3 fl (token (split entry b';') 2);
            range = parse_arma_number fl (token (split entry b';') 1);
          })
          else find_antenna id l)
  unfolding add_tower
  find-add_tower id entry l three named filled =
      let fields = split entry b';' in
      rw (filled, (==_iff (length fields) 3).1 three, named)
        (find-put_antenna id
          (record {
            net_id = token fields 0;
            pos = parse_vec3 fl (token fields 2);
            range = parse_arma_number fl (token fields 1);
          })
          l)
