-- ===== src/Notifications/Relations/Objects.antt =====
-- The object and the variables that a case is about to store.
use icingadb.Prelude.{
  ℕ, Bool, true, false, not, ◌&&◌, ◌||◌, Option, none, some, if◌then◌else◌, ◌≡◌, refl, arith,
  Bool-cases, Option-cases, inl, inr, ap,
}
use icingadb.Notifications.Relations.{
  Vars, IcingaObject, ObjectType, Sources, Failing, fetch_object, vars_entry, fetch_custom_vars,
  fetches_vars, fetches_object, object_for, vars_for,
}
use icingadb.Notifications.Relations.Claims.{IsFetched}

-- Where both are there, they make a fetched object.
abbrev pub Ready :
    Sources → ObjectType → ℕ → Bool → Option (Option IcingaObject) → Option (Option Vars) → Type 0
Ready s typ id known none vars = Unit
Ready s typ id known (some o) none = Unit
Ready s typ id known (some none) (some vars) = ⊥
Ready s typ id known (some (some o)) (some vars) =
    IsFetched s typ id known (record o { vars = vars })

-- The object that is fetched, without and with its variables.
Ready-fetched :
    (s : Sources) (f : Failing) (typ : ObjectType) (id : ℕ) (existing : Option IcingaObject)
    → Ready s typ id false (object_for true existing (fetch_object s f typ id)) (some none)
unfolding fetch_object
Ready-fetched s f typ id existing = elim (Bool-cases (f.redis)) [
  | inl fails ↦ rw fails tt
  | inr works ↦ elim (Option-cases (s.redis typ id)) [
    | inl absent ↦ rw (works, absent) tt
    | inr (r, present) ↦ rw (works, present) (r, present, refl)
  ]
]

Ready-fetched_both :
    (s : Sources) (f : Failing) (typ : ObjectType) (id : ℕ) (existing : Option IcingaObject)
    → Ready s typ id true
        (object_for true existing (fetch_object s f typ id))
        (fetch_custom_vars s f typ id)
unfolding fetch_object fetch_custom_vars
Ready-fetched_both s f typ id existing = elim (Bool-cases (f.redis)) [
  | inl fails ↦ rw fails tt
  | inr works ↦ elim (Option-cases (s.redis typ id)) [
    | inl absent ↦ rw (works, absent) tt
    | inr (r, present) ↦ elim (Bool-cases (f.custom_vars)) [
      | inl fails ↦ rw (works, present, fails) tt
      | inr answers ↦ rw (works, present, answers) (r, present, refl)
    ]
  ]
]

-- The object that is there, with its variables.
Ready-existing :
    (s : Sources) (f : Failing) (typ : ObjectType) (id : ℕ) (o : IcingaObject)
    → IsFetched s typ id false o
    → Ready s typ id true (some (some o)) (fetch_custom_vars s f typ id)
unfolding fetch_custom_vars
Ready-existing s f typ id o h = elim (Bool-cases (f.custom_vars)) [
  | inl fails ↦ rw fails tt
  | inr answers ↦
      let (r, present, same) = h in
      rw answers (
        r,
        present,
        ap (λ (p : IcingaObject). record p { vars = vars_entry (s.custom_vars typ id) }) same,
      )
]

-- What the case works with, for the flags before it.
pub Ready-all :
    (s : Sources) (f : Failing) (typ : ObjectType) (id : ℕ) (named known fo fv : Bool)
    (existing : Option IcingaObject)
    → (known ≡ true → named ≡ true)
    → (named ≡ true → (o : IcingaObject) × (existing ≡ some o) × IsFetched s typ id known o)
    → not (fetches_object named known fo fv) && not (fetches_vars known fv) ≡ false
    → Ready s typ id
        (known || fetches_vars known fv)
        (object_for
          (fetches_object named known fo fv)
          (if named then existing else none)
          (fetch_object s f typ id))
        (vars_for (fetches_vars known fv) (fetch_custom_vars s f typ id))
Ready-all s f typ id true true true true existing kn h some_work = cc
Ready-all s f typ id true true true false existing kn h some_work = cc
Ready-all s f typ id true true false true existing kn h some_work = cc
Ready-all s f typ id true true false false existing kn h some_work = cc
Ready-all s f typ id true false true true existing kn h some_work =
    let (o, there, fetched) = h refl in rw there (Ready-existing s f typ id o fetched)
Ready-all s f typ id true false false true existing kn h some_work =
    let (o, there, fetched) = h refl in rw there (Ready-existing s f typ id o fetched)
Ready-all s f typ id true false true false existing kn h some_work = cc
Ready-all s f typ id true false false false existing kn h some_work = cc
Ready-all s f typ id false true fo fv existing kn h some_work = cc (kn refl)
Ready-all s f typ id false false true true existing kn h some_work =
    Ready-fetched_both s f typ id none
Ready-all s f typ id false false false true existing kn h some_work =
    Ready-fetched_both s f typ id none
Ready-all s f typ id false false true false existing kn h some_work = Ready-fetched s f typ id none
Ready-all s f typ id false false false false existing kn h some_work = cc

-- What is complete after the case: variables only with their object.
pub fetches_complete :
    (named known fo fv : Bool)
    → (known ≡ true → named ≡ true)
    → (known || fetches_vars known fv) ≡ true
    → (named || fetches_object named known fo fv) ≡ true
fetches_complete named known fo fv kn h = ground (arith, kn)
