-- ===== src/Delta/Invariant.antt =====
-- The invariant of the loop of `run`: the maps hold the delta of what was received so far.
use icingadb.Prelude.{
  String, List, ◌∷◌, Option, none, some, Bool, true, false, ◌≡◌, refl, arith, str_eq, eq_iff,
  if◌then◌else◌, inl, inr, Option-cases, sym, ◌∙◌,
}
use icingadb.Prelude.Maps.{StringMap, insert, delete}
use icingadb.Delta.{
  Entity, Run, Outcome, waiting, note_update, entities_equal, on_actual, on_desired,
}
use icingadb.Delta.Spec.{find, only, if_changed, changed, unit_of, IsComparable, find-id}

module _ {E : Type 0} ⦃k : Entity E⦄ where
  -- `tracked` says whether `update` is a map.
  abbrev pub UpdateIs : Bool → List E → List E → Option (StringMap E) → Type 0
  UpdateIs true have want (some u) = (i : String) → u i ≡ changed have want i
  UpdateIs true have want none = ⊥
  UpdateIs false have want (some u) = ⊥
  UpdateIs false have want none = Unit

  pub record Inv (tracked : Bool) (have want : List E) (s : Run E) : Type 0 where
    pub actual_only : (i : String) → s.actual i ≡ only have want i
    pub desired_only : (i : String) → s.desired i ≡ only want have i
    pub snapshot : (i : String) → s.redis_snapshot i ≡ unit_of (find i want)
    pub updates : UpdateIs tracked have want s.update

  -- A pair `a`, `d` becomes complete.
  abbrev Completes : List E → List E → List E → List E → E → E → Type 0
  Completes have want have' want' a d =
      (i : String)
      → changed have' want' i
        ≡ (if str_eq (k.id d) i then if_changed (entities_equal a d) d else changed have want i)

  note_update-UpdateIs :
      (tracked : Bool) (have want have' want' : List E) (a d : E) (u : Option (StringMap E))
      → IsComparable k
      → changed have want (k.id d) ≡ none
      → Completes have want have' want' a d
      → UpdateIs tracked have want u
      → (u' : Option (StringMap E)) × (note_update a d u ≡ some u')
        × UpdateIs tracked have' want' u'
  unfolding note_update
  note_update-UpdateIs true have want have' want' a d none c fresh step h = absurd h
  note_update-UpdateIs false have want have' want' a d none c fresh step h = (none, refl, tt)
  note_update-UpdateIs false have want have' want' a d (some u) c fresh step h = absurd h
  note_update-UpdateIs true have want have' want' a d (some u) c fresh step h = elim (c a d) [
    | inl e ↦ (
      some u,
      ground (arith, e),
      λ i. ground (arith, e, h i, step i, eq_iff (k.id d) i, h (k.id d), fresh),
    )
    | inr e ↦ (
      some (insert (k.id d) d u),
      ground (arith, e),
      λ i. ground (arith, e, h i, step i, eq_iff (k.id d) i),
    )
  ]

  UpdateIs-congr :
      (tracked : Bool) (have want have' want' : List E) (u : Option (StringMap E))
      → ((i : String) → changed have' want' i ≡ changed have want i)
      → UpdateIs tracked have want u
      → UpdateIs tracked have' want' u
  UpdateIs-congr true have want have' want' none e h = absurd h
  UpdateIs-congr true have want have' want' (some u) e h = λ i. h i ∙ sym (e i)
  UpdateIs-congr false have want have' want' none e h = tt
  UpdateIs-congr false have want have' want' (some u) e h = absurd h

  -- The loop goes on, the invariant holds of the new lists, and no channel was closed.
  abbrev pub Goes : Bool → List E → List E → Run E → Outcome E → Type 0
  Goes tracked have want s o =
      (s' : Run E) × (o ≡ waiting s')
      × Inv tracked have want s'
      × (s'.actual_open ≡ s.actual_open)
      × (s'.desired_open ≡ s.desired_open)

  pub on_actual-Inv :
      (tracked : Bool) (have want : List E) (s : Run E) (a : E)
      → IsComparable k
      → find (k.id a) have ≡ none
      → Inv tracked have want s
      → Goes tracked (a ∷ have) want s (on_actual s a)
  unfolding on_actual
  on_actual-Inv tracked have want s a c fresh inv = elim (Option-cases (find (k.id a) want)) [
    | inl no_pair ↦ (
      record s { actual = insert (k.id a) a s.actual },
      ground (arith, inv.desired_only (k.id a)),
      record {
        actual_only = λ i. ground (arith, inv.actual_only i, eq_iff (k.id a) i);
        desired_only = λ i. ground (arith, inv.desired_only i, eq_iff (k.id a) i);
        snapshot = inv.snapshot;
        updates =
            UpdateIs-congr tracked have want (a ∷ have) want s.update
              (λ i. ground (arith, eq_iff (k.id a) i)) inv.updates;
      },
      refl,
      refl,
    )
    | inr (d, e) ↦
        let same_id : k.id d ≡ k.id a = find-id (k.id a) want d e in
        let (u, noted, upd) =
          note_update-UpdateIs tracked have want (a ∷ have) want a d s.update c
            (ground (arith, same_id))
            (λ i. ground (arith, same_id, e, eq_iff (k.id a) i, eq_iff (k.id d) i)) inv.updates in
        (
          record s { desired = delete (k.id a) s.desired; update = u },
          ground (arith, inv.desired_only (k.id a)),
          record {
            actual_only = λ i. ground (arith, inv.actual_only i, eq_iff (k.id a) i);
            desired_only = λ i. ground (arith, inv.desired_only i, eq_iff (k.id a) i);
            snapshot = inv.snapshot;
            updates = upd;
          },
          refl,
          refl,
        )
  ]

  pub on_desired-Inv :
      (tracked : Bool) (have want : List E) (s : Run E) (d : E)
      → IsComparable k
      → find (k.id d) want ≡ none
      → Inv tracked have want s
      → Goes tracked have (d ∷ want) s (on_desired s d)
  unfolding on_desired
  on_desired-Inv tracked have want s d c fresh inv = elim (Option-cases (find (k.id d) have)) [
    | inl no_pair ↦ (
      record s {
        redis_snapshot = insert (k.id d) tt s.redis_snapshot;
        desired = insert (k.id d) d s.desired;
      },
      ground (arith, inv.actual_only (k.id d)),
      record {
        actual_only = λ i. ground (arith, inv.actual_only i, eq_iff (k.id d) i);
        desired_only = λ i. ground (arith, inv.desired_only i, eq_iff (k.id d) i);
        snapshot = λ i. ground (arith, inv.snapshot i, eq_iff (k.id d) i);
        updates =
            UpdateIs-congr tracked have want have (d ∷ want) s.update
              (λ i. ground (arith, eq_iff (k.id d) i)) inv.updates;
      },
      refl,
      refl,
    )
    | inr (a, e) ↦
        let (u, noted, upd) =
          note_update-UpdateIs tracked have want have (d ∷ want) a d s.update c (ground arith)
            (λ i. ground (arith, e, eq_iff (k.id d) i)) inv.updates in
        (
          record s {
            redis_snapshot = insert (k.id d) tt s.redis_snapshot;
            actual = delete (k.id d) s.actual;
            update = u;
          },
          ground (arith, inv.actual_only (k.id d)),
          record {
            actual_only = λ i. ground (arith, inv.actual_only i, eq_iff (k.id d) i);
            desired_only = λ i. ground (arith, inv.desired_only i, eq_iff (k.id d) i);
            snapshot = λ i. ground (arith, inv.snapshot i, eq_iff (k.id d) i);
            updates = upd;
          },
          refl,
          refl,
        )
  ]
