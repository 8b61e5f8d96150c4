-- ===== src/Voice/Session/Audibility.antt =====
-- What the audibility solver's snapshot makes of the sources
-- (addon/extensions/task_force_radio_pipe/src/Voice/VoiceSession.cpp: applyAudibility).
use task_force_radio_standal.Base.{
  ◌==◌, if◌then◌else◌, ==_iff, Bool-cases, Option-cases, nat_eq, any, text_is_eq, ℕ, ◌≡◌, refl, sym,
  ap, ◌∙◌, ◌⊎◌, inl, inr, Bool, true, false, not, ◌&&◌, Option, none, some, List, [], ◌∷◌, ◌++◌,
  arith,
}
use task_force_radio_standal.Base.Map.{Map, lookup, lookup-insert}
use task_force_radio_standal.Float.{Float}
use task_force_radio_standal.Voice.Source.{RemoteSourceState, Source, set_states}
use task_force_radio_standal.Voice.Mixer.{Mixer, set_source_states, lookup-on_source}
use task_force_radio_standal.Voice.Session.{
  AudibilityUpdate, Session, resolve, push_path, group_paths, set_groups, seen, silence,
  apply_audibility,
}
use mathlib.Core.Path.{subst}
use mathlib.Core.List.{append-nil, append_assoc}

module _ (fl : Float) where
  -- The paths of the snapshot that mean a session, in the snapshot's order.
  unfoldable pub paths_of :
      ℕ → List (AudibilityUpdate fl) → Session fl → List (RemoteSourceState fl)
  paths_of session_id [] s = []
  paths_of session_id (unit ∷ units) s =
      let rest = paths_of session_id units s in
      elim (resolve fl unit s) [
        | none ↦ rest
        | some j ↦ if j == session_id then unit.path ∷ rest else rest
      ]

  group_of : ℕ → Map ℕ (List (RemoteSourceState fl)) → List (RemoteSourceState fl)
  group_of session_id g = elim (lookup session_id g) [ none ↦ [] | some paths ↦ paths ]

  lookup-push_path :
      (k j : ℕ) (path : RemoteSourceState fl) (g : Map ℕ (List (RemoteSourceState fl)))
      → lookup j (push_path fl k path g)
        ≡ (if k == j then some (group_of k g ++ path ∷ []) else lookup j g)
  unfolding push_path group_of
  lookup-push_path k j path g = elim (Option-cases (lookup k g)) [
    | inl e ↦ rw (e, push_path, group_of) (lookup-insert k j (path ∷ []) g)
    | inr (paths, e) ↦ rw (e, push_path, group_of) (lookup-insert k j (paths ++ path ∷ []) g)
  ]

  group_of-push_path :
      (j k : ℕ) (path : RemoteSourceState fl) (g : Map ℕ (List (RemoteSourceState fl)))
      → group_of k (push_path fl j path g)
        ≡ (if j == k then group_of k g ++ path ∷ [] else group_of k g)
  unfolding group_of
  group_of-push_path j k path g = elim (Bool-cases (j == k)) [
    | inl same ↦
        rw (lookup-push_path j k path g, group_of, same)
          (ap (λ i. group_of i g ++ path ∷ []) ((==_iff j k).0 same))
    | inr other ↦ rw (lookup-push_path j k path g, group_of, other) refl
  ]

  append-if :
      (b : Bool) (l r : List (RemoteSourceState fl)) (path : RemoteSourceState fl)
      → (if b then l ++ path ∷ [] else l) ++ r ≡ l ++ (if b then path ∷ r else r)
  append-if true l r path = append_assoc l (path ∷ []) r
  append-if false l r path = refl

  -- Grouping appends to each group the session's paths, in order.
  group_of-group_paths :
      (k : ℕ) (units : List (AudibilityUpdate fl)) (s : Session fl)
      (g : Map ℕ (List (RemoteSourceState fl)))
      → group_of k (group_paths fl units s g) ≡ group_of k g ++ paths_of k units s
  unfolding group_paths paths_of
  group_of-group_paths k [] s g = sym (append-nil (group_of k g))
  group_of-group_paths k (unit ∷ units) s g = elim (Option-cases (resolve fl unit s)) [
    | inl e ↦ rw (e, group_paths, paths_of) (group_of-group_paths k units s g)
    | inr (j, e) ↦
        rw (e, group_paths, paths_of)
          (group_of-group_paths k units s (push_path fl j unit.path g)
            ∙ ap (λ l. l ++ paths_of k units s) (group_of-push_path j k unit.path g)
            ∙ append-if (j == k) (group_of k g) (paths_of k units s) unit.path)
  ]

  set_to : Option (List (RemoteSourceState fl)) → Source fl → Source fl
  set_to none source = source
  set_to (some paths) source = set_states fl paths source

  set_to-if :
      (b : Bool) (paths : List (RemoteSourceState fl)) (o : Option (List (RemoteSourceState fl)))
      (source : Source fl)
      → (if b then set_states fl paths (set_to o source) else set_to o source)
        ≡ set_to (if b then some paths else o) source
  unfolding set_to set_states
  set_to-if true paths none source = refl
  set_to-if true paths (some old) source = refl
  set_to-if false paths o source = refl

  lookup-set_groups :
      (k : ℕ) (g : Map ℕ (List (RemoteSourceState fl))) (m : Mixer fl) (source : Source fl)
      → lookup k m.sources ≡ some source
      → lookup k (set_groups fl g m).sources ≡ some (set_to (lookup k g) source)
  unfolding set_groups lookup set_to set_states
  lookup-set_groups k [] m source there = there
  lookup-set_groups k ((j, paths) ∷ g) m source there =
      lookup-on_source fl j k (set_states fl paths) (set_groups fl g m) (set_to (lookup k g) source)
        (lookup-set_groups k g m source there)
      ∙ ap some (set_to-if (j == k) paths (lookup k g) source)

  any-seen :
      (k : ℕ) (g : Map ℕ (List (RemoteSourceState fl)))
      → any (◌==◌ k) (seen fl g) ≡ elim (lookup k g) [ none ↦ false | some _ ↦ true ]
  unfolding lookup
  any-seen k [] = refl
  any-seen k ((j, paths) ∷ g) = ground (arith, any-seen k g)

  silent_if : Bool → Source fl → Source fl
  silent_if b source = if b then set_states fl [] source else source

  lookup-silence_one :
      (k j : ℕ) (now_active : List ℕ) (m : Mixer fl) (source : Source fl)
      → lookup k m.sources ≡ some source
      → lookup k (if any (◌==◌ j) now_active then m else set_source_states fl j [] m).sources
        ≡ some (silent_if ((j == k) && not (any (◌==◌ k) now_active)) source)
  unfolding silent_if
  lookup-silence_one k j now_active m source there = elim (Bool-cases (any (◌==◌ j) now_active)) [
    | inl active ↦ elim (Bool-cases (j == k)) [
      | inl same ↦ rw (active, same) (rw (rw ((==_iff j k).0 same) at active) there)
      | inr other ↦ rw (active, other) there
    ]
    | inr gone ↦ rw gone (
        lookup-on_source fl j k (set_states fl []) m source there ∙ elim (Bool-cases (j == k)) [
          | inl same ↦ rw (same, rw ((==_iff j k).0 same) at gone) refl
          | inr other ↦ rw other refl
        ])
  ]

  silent_if-twice :
      (b c d : Bool) (source : Source fl)
      → silent_if (c && not d) (silent_if (b && not d) source)
        ≡ silent_if (elim b [ true ↦ true | false ↦ c ] && not d) source
  unfolding silent_if set_states
  silent_if-twice true true true source = refl
  silent_if-twice true true false source = refl
  silent_if-twice true false true source = refl
  silent_if-twice true false false source = refl
  silent_if-twice false c d source = refl

  lookup-silence :
      (k : ℕ) (before now_active : List ℕ) (m : Mixer fl) (source : Source fl)
      → lookup k m.sources ≡ some source
      → lookup k (silence fl before now_active m).sources
        ≡ some (silent_if (any (λ j. j == k) before && not (any (◌==◌ k) now_active)) source)
  unfolding silence silent_if
  lookup-silence k [] now_active m source there = there
  lookup-silence k (j ∷ before) now_active m source there =
      let one = lookup-silence_one k j now_active m source there in
      lookup-silence k before now_active _ _ one
      ∙ ap some
          (silent_if-twice (j == k) (any (λ i. i == k) before) (any (◌==◌ k) now_active) source)

  settled :
      (was : Bool) (o : Option (List (RemoteSourceState fl))) (source : Source fl)
      → (was ≡ true) ⊎ (source.states ≡ [])
      → silent_if (was && not (elim o [ none ↦ false | some _ ↦ true ])) (set_to o source)
        ≡ set_states fl (elim o [ none ↦ [] | some paths ↦ paths ]) source
  unfolding silent_if set_to set_states
  settled true none source known = refl
  settled false none source (inl absent) = cc
  settled false none source (inr e) = ap (λ l. set_states fl l source) e
  settled true (some paths) source known = refl
  settled false (some paths) source known = refl

  seen_or_empty :
      (k : ℕ) (g : Map ℕ (List (RemoteSourceState fl)))
      → (any (◌==◌ k) (seen fl g) ≡ true) ⊎ (group_of k g ≡ [])
  unfolding group_of
  seen_or_empty k g = elim (Option-cases (lookup k g)) [
    | inl e ↦ inr (rw (e, group_of) refl)
    | inr (paths, e) ↦ inl (rw (any-seen k g, e) refl)
  ]

  -- A snapshot of the solver replaces what is heard of every session: outside the debug mode, a
  -- source whose session was active or which no path made audible carries afterwards exactly the
  -- paths of the updates that mean its session, in their order, and so none if there is none. A
  -- source that is not active afterwards carries no path, so the next snapshot finds it the same.
  pub apply_audibility-replaces :
      (units : List (AudibilityUpdate fl)) (k : ℕ) (source : Source fl) (s : Session fl)
      → s.mixer.debug_force_audible ≡ false
      → lookup k s.mixer.sources ≡ some source
      → (any (λ j. j == k) s.last_active ≡ true) ⊎ (source.states ≡ [])
      → (lookup k (apply_audibility fl units s).mixer.sources
          ≡ some (record source { states = paths_of k units s }))
        × ((any (◌==◌ k) (apply_audibility fl units s).last_active ≡ true)
            ⊎ (paths_of k units s ≡ []))
  unfolding apply_audibility group_of set_states lookup
  apply_audibility-replaces units k source s plain there known =
      let g = group_paths fl units s [] in
      let o = lookup k g in
      let set = lookup-set_groups k g s.mixer source there in
      let quiet =
        lookup-silence k s.last_active (seen fl g) (set_groups fl g s.mixer) (set_to o source)
          set in
      let was = any (λ j. j == k) s.last_active in
      let paths = group_of-group_paths k units s [] in
      let result =
        (rw (any-seen k g) at quiet)
        ∙ ap some (settled was o source known)
        ∙ ap (λ l. some (set_states fl l source)) paths in
      let after : Session fl = record s {
        mixer = silence fl s.last_active (seen fl g) (set_groups fl g s.mixer);
        last_active = seen fl g;
      } in
      let active : (any (◌==◌ k) (seen fl g) ≡ true) ⊎ (paths_of k units s ≡ []) =
        elim (seen_or_empty k g) [ inl seen' ↦ inl seen' | inr e ↦ inr (sym paths ∙ e) ] in
      subst
        (λ t.
          (lookup k t.mixer.sources ≡ some (record source { states = paths_of k units s }))
          × ((any (◌==◌ k) t.last_active ≡ true) ⊎ (paths_of k units s ≡ [])))
        (sym (ap (λ b. if b then s else after) plain)) (result, active)
