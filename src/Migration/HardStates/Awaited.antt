-- ===== src/Migration/HardStates/Awaited.antt =====
-- What waits in the cache, and what it gets from the rows to come.
use icingadb.Prelude.{
  ℕ, ◌+◌, List, [], ◌∷◌, All, count, Bool, true, false, not, ◌&&◌, Option, none, some, is_some,
  if◌then◌else◌, ◌==◌, ◌≡◌, refl, arith, Bool-cases, inl, inr, sym, ap, ◌∙◌, subst, ==_refl, ==_iff,
}
use icingadb.Migration.CacheTables.{select_by, delete_by, select_by-delete_by}
use icingadb.Migration.HardStates.{HardRow, delete_ids, waiting_with}

-- The object's latest state among the rows that is not the given one; the rows go back in time.
abbrev pub previous_from : ℕ → ℕ → List HardRow → ℕ
previous_from o s [] = 99
previous_from o s (r ∷ rs) =
    if (r.object_id == o) && not (r.last_hard_state == s)
    then r.last_hard_state
    else previous_from o s rs

-- The previous hard state of every row.
abbrev pub previous_states : List HardRow → List (ℕ × ℕ)
previous_states [] = []
previous_states (r ∷ rs) =
    (r.id, previous_from r.object_id r.last_hard_state rs) ∷ previous_states rs

abbrev pub previous_of : Option ℕ → ℕ → List HardRow → ℕ
previous_of none o rows = 99
previous_of (some s) o rows = previous_from o s rows

-- What the waiting IDs get from the rows to come.
abbrev pub awaited : List (ℕ × ℕ) → List HardRow → List (ℕ × ℕ) → List (ℕ × ℕ)
awaited states rows [] = []
awaited states rows ((h, o) ∷ m) =
    (h, previous_of (select_by o states) o rows) ∷ awaited states rows m

-- Every object that waits has a state.
abbrev pub IsKnown : List (ℕ × ℕ) → ℕ × ℕ → Type 0
IsKnown states (h, o) = is_some (select_by o states) ≡ true

pub previous_from-other :
    (o o' s' : ℕ) (r : HardRow) (rs : List HardRow)
    → r.object_id ≡ o
    → (o == o') ≡ false
    → previous_from o' s' (r ∷ rs) ≡ previous_from o' s' rs
previous_from-other o o' s' r rs is other =
    let no : (r.object_id == o') ≡ false = subst (λ x. (x == o') ≡ false) (sym is) other in
    rw no refl

pub previous_of-other :
    (x : Option ℕ) (o' : ℕ) (r : HardRow) (rs : List HardRow)
    → (r.object_id == o') ≡ false
    → previous_of x o' rs ≡ previous_of x o' (r ∷ rs)
previous_of-other none o' r rs other = refl
previous_of-other (some s') o' r rs other =
    sym (previous_from-other r.object_id o' s' r rs refl other)

module _ (q : ℕ × ℕ → Bool) (r : HardRow) (rs : List HardRow) where
  pub awaited-start :
      (states ids : List (ℕ × ℕ))
      → select_by r.object_id states ≡ none
      → All (IsKnown states) ids
      → awaited ((r.object_id, r.last_hard_state) ∷ states) rs ids ≡ awaited states (r ∷ rs) ids
  awaited-start states [] new known = refl
  awaited-start states ((h, o') ∷ ids) new known = elim (Bool-cases (r.object_id == o')) [
    | inl e ↦
        let is : r.object_id ≡ o' = (==_iff r.object_id o').0 e in
        let none_there : select_by o' states ≡ none =
          subst (λ o. select_by o states ≡ none) is new in
        let bad = known.0 in cc
    | inr e ↦
        let same : select_by o' ((r.object_id, r.last_hard_state) ∷ states) ≡ select_by o' states =
          rw e refl in
        ap (λ x. (h, x) ∷ awaited ((r.object_id, r.last_hard_state) ∷ states) rs ids)
          (ap (λ x. previous_of x o' rs) same ∙ previous_of-other (select_by o' states) o' r rs e)
        ∙ ap (λ xs. (h, previous_of (select_by o' states) o' (r ∷ rs)) ∷ xs)
            (awaited-start states ids new known.1)
  ]

  pub awaited-keep :
      (states ids : List (ℕ × ℕ))
      → select_by r.object_id states ≡ some r.last_hard_state
      → awaited states rs ids ≡ awaited states (r ∷ rs) ids
  awaited-keep states [] same = refl
  awaited-keep states ((h, o') ∷ ids) same =
      ap (λ x. (h, x) ∷ awaited states rs ids) here
      ∙ ap (λ xs. (h, previous_of (select_by o' states) o' (r ∷ rs)) ∷ xs)
          (awaited-keep states ids same)
    where
      here : previous_of (select_by o' states) o' rs ≡ previous_of (select_by o' states) o' (r ∷ rs)
      here = elim (Bool-cases (r.object_id == o')) [
        | inl e ↦
            let is : r.object_id ≡ o' = (==_iff r.object_id o').0 e in
            let state : select_by o' states ≡ some r.last_hard_state =
              subst (λ o. select_by o states ≡ some r.last_hard_state) is same in
            rw (state, e, ==_refl r.last_hard_state) refl
        | inr e ↦ previous_of-other (select_by o' states) o' r rs e
      ]

  pub awaited-end :
      (s : ℕ) (states ids : List (ℕ × ℕ))
      → select_by r.object_id states ≡ some s
      → (r.last_hard_state == s) ≡ false
      → count q (awaited states (r ∷ rs) ids)
        ≡ count q (waiting_with r.object_id r.last_hard_state ids)
          + count q (
              awaited
                ((r.object_id, r.last_hard_state) ∷ delete_by r.object_id states)
                rs
                (delete_ids r.object_id ids))
  awaited-end s states [] same changed = refl
  awaited-end s states ((h, o') ∷ ids) same changed =
      let rest = awaited-end s states ids same changed in
      let states' : List (ℕ × ℕ) =
        (r.object_id, r.last_hard_state) ∷ delete_by r.object_id states in
      elim (Bool-cases (r.object_id == o')) [
        | inl e ↦
            let is : r.object_id ≡ o' = (==_iff r.object_id o').0 e in
            let back : (o' == r.object_id) ≡ true = ground (arith, is) in
            let state : select_by o' states ≡ some s =
              subst (λ o. select_by o states ≡ some s) is same in
            let value : previous_of (select_by o' states) o' (r ∷ rs) ≡ r.last_hard_state =
              rw (state, e, changed) refl in
            rw (back, value) (omega (arith, rest))
        | inr e ↦
            let back : (o' == r.object_id) ≡ false = ground (arith, e) in
            let state : select_by o' states' ≡ select_by o' states =
              rw e (select_by-delete_by r.object_id o' states e) in
            let value : previous_of (select_by o' states) o' (r ∷ rs)
                ≡ previous_of (select_by o' states') o' rs =
              sym (
                ap (λ x. previous_of x o' rs) state
                ∙ previous_of-other (select_by o' states) o' r rs e) in
            rw (back, value) (omega (arith, rest))
      ]

pub IsKnown-cons :
    (o s : ℕ) (states : List (ℕ × ℕ)) (p : ℕ × ℕ) → IsKnown states p → IsKnown ((o, s) ∷ states) p
IsKnown-cons o s states (h, o') known = elim (Bool-cases (o == o')) [
  | inl e ↦ rw e refl
  | inr e ↦ rw e known
]

pub delete-IsKnown :
    (o : ℕ) (states ids : List (ℕ × ℕ))
    → All (IsKnown states) ids
    → All (IsKnown (delete_by o states)) (delete_ids o ids)
delete-IsKnown o states [] known = tt
delete-IsKnown o states ((h, o') ∷ ids) known = elim (Bool-cases (o' == o)) [
  | inl e ↦ rw e (delete-IsKnown o states ids known.1)
  | inr e ↦
      let other : (o == o') ≡ false = ground (arith, e) in
      rw e (
        ap is_some (select_by-delete_by o o' states other) ∙ known.0,
        delete-IsKnown o states ids known.1,
      )
]
