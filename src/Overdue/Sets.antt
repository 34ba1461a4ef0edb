-- ===== src/Overdue/Sets.antt =====
-- What the operations on sets and rows do, by their members.
use icingadb.Prelude.{
  ℕ, contains, String, str_eq, eq_iff, List, [], ◌∷◌, ◌++◌, append_assoc, Bool, true, false, not,
  ◌&&◌, ◌||◌, ltb, ◌==◌, ◌+◌, ◌≡◌, refl, sym, ap, ◌∙◌, subst, Bool-cases, inl, inr,
}
use icingadb.Overdue.{sadd, srem, zrangebyscore, Row, select_overdue, sadd_batches, update}

pub same_text : (x i : String) → str_eq x i ≡ true → x ≡ i
same_text x i e = (eq_iff x i).0 e

pub and_false : (a : Bool) → (a && false) ≡ false
and_false true = refl
and_false false = refl

pub contains-sadd :
    (i : String) (xs s : List String) → contains i (sadd xs s) ≡ (contains i xs || contains i s)
contains-sadd i [] s = refl
contains-sadd i (x ∷ xs) s =
    let rest = contains-sadd i xs s in
    elim (Bool-cases (contains x (sadd xs s))) [
      | inl there ↦ elim (Bool-cases (str_eq x i)) [
        | inl e ↦
            let is = subst (λ y. contains y (sadd xs s) ≡ true) (same_text x i e) there in
            rw (there, e) is
        | inr e ↦ rw (there, e) rest
      ]
      | inr new ↦ rw new (elim (Bool-cases (str_eq x i)) [ inl e ↦ rw e refl | inr e ↦ rw e rest ])
    ]

pub contains-srem :
    (i : String) (xs s : List String)
    → contains i (srem xs s) ≡ (contains i s && not (contains i xs))
contains-srem i xs [] = refl
contains-srem i xs (y ∷ s) =
    let rest = contains-srem i xs s in
    elim (Bool-cases (str_eq y i)) [
      | inl e ↦
          let is : contains y xs ≡ contains i xs = ap (λ z. contains z xs) (same_text y i e) in
          elim (Bool-cases (contains i xs)) [
            | inl gone ↦
                rw (is, gone, e)
                  (rest ∙ ap (λ b. contains i s && not b) gone ∙ and_false (contains i s))
            | inr kept ↦ rw (is, kept, e) refl
          ]
      | inr e ↦ elim (Bool-cases (contains y xs)) [
        | inl gone ↦ rw (gone, e) rest
        | inr kept ↦ rw (kept, e) rest
      ]
    ]

contains-append :
    (i : String) (xs ys : List String) → contains i (xs ++ ys) ≡ (contains i xs || contains i ys)
contains-append i [] ys = refl
contains-append i (x ∷ xs) ys = elim (Bool-cases (str_eq x i)) [
  | inl e ↦ rw e refl
  | inr e ↦ rw e (contains-append i xs ys)
]

or_assoc : (a b c : Bool) → ((a || b) || c) ≡ (a || (b || c))
or_assoc true b c = refl
or_assoc false b c = refl

or_swap : (a b c : Bool) → (a || (b || c)) ≡ (b || (a || c))
or_swap true true c = refl
or_swap true false c = refl
or_swap false b c = refl

pub or_false : (a : Bool) → (a || false) ≡ a
or_false true = refl
or_false false = refl

-- The batches add all IDs, whatever their size.
pub contains-sadd_batches :
    (i : String) (ids : List String) (n : ℕ) (xs s : List String)
    → contains i (sadd_batches ids n xs s) ≡ (contains i (ids ++ xs) || contains i s)
contains-sadd_batches i [] n [] s = refl
contains-sadd_batches i (j ∷ js) n [] s =
    contains-sadd i (j ∷ js) s
    ∙ ap (λ b. b || contains i s)
        (sym (contains-append i (j ∷ js) [] ∙ or_false (contains i (j ∷ js))))
contains-sadd_batches i ids n (x ∷ xs) s = elim (Bool-cases (n + 1 == 100)) [
  | inl full ↦ rw full (
      contains-sadd_batches i [] 0 xs (sadd (ids ++ x ∷ []) s)
      ∙ ap (λ b. contains i xs || b) (contains-sadd i (ids ++ x ∷ []) s)
      ∙ or_swap (contains i xs) (contains i (ids ++ x ∷ [])) (contains i s)
      ∙ sym (or_assoc (contains i (ids ++ x ∷ [])) (contains i xs) (contains i s))
      ∙ ap (λ b. b || contains i s) (sym (contains-append i (ids ++ x ∷ []) xs) ∙ regroup))
  | inr more ↦
      rw more
        (contains-sadd_batches i (ids ++ x ∷ []) (n + 1) xs s ∙ ap (λ b. b || contains i s) regroup)
]
  where
    regroup : contains i ((ids ++ x ∷ []) ++ xs) ≡ contains i (ids ++ x ∷ xs)
    regroup = ap (contains i) (append_assoc ids (x ∷ []) xs)

-- A score of the member is below the time.
abbrev pub is_late : String → List (String × ℕ) → ℕ → Bool
is_late i [] now = false
is_late i ((j, score) ∷ z) now = (str_eq j i && ltb score now) || is_late i z now

pub contains-zrangebyscore :
    (i : String) (z : List (String × ℕ)) (now : ℕ)
    → contains i (zrangebyscore z now) ≡ is_late i z now
contains-zrangebyscore i [] now = refl
contains-zrangebyscore i ((j, score) ∷ z) now =
    let rest = contains-zrangebyscore i z now in
    elim (Bool-cases (ltb score now)) [
      | inl below ↦ elim (Bool-cases (str_eq j i)) [
        | inl e ↦ rw (below, e) refl
        | inr e ↦ rw (below, e) rest
      ]
      | inr above ↦ elim (Bool-cases (str_eq j i)) [
        | inl e ↦ rw (above, e) rest
        | inr e ↦ rw (above, e) rest
      ]
    ]

-- A row of this ID, and one that is overdue.
abbrev pub has_row : String → List Row → Bool
has_row i [] = false
has_row i (r ∷ rs) = str_eq r.id i || has_row i rs

abbrev pub is_overdue : String → List Row → Bool
is_overdue i [] = false
is_overdue i (r ∷ rs) = (str_eq r.id i && r.is_overdue) || is_overdue i rs

pub is_overdue-select :
    (i : String) (rs : List Row) → contains i (select_overdue rs) ≡ is_overdue i rs
is_overdue-select i [] = refl
is_overdue-select i (r ∷ rs) =
    let rest = is_overdue-select i rs in
    elim (Bool-cases r.is_overdue) [
      | inl b ↦ elim (Bool-cases (str_eq r.id i)) [
        | inl e ↦ rw (b, e) refl
        | inr e ↦ rw (b, e) rest
      ]
      | inr b ↦ elim (Bool-cases (str_eq r.id i)) [
        | inl e ↦ rw (b, e) rest
        | inr e ↦ rw (b, e) rest
      ]
    ]

-- Whoever is overdue has a row.
pub overdue-has_row :
    (i : String) (rs : List Row) → is_overdue i rs ≡ (has_row i rs && is_overdue i rs)
overdue-has_row i [] = refl
overdue-has_row i (r ∷ rs) = elim (Bool-cases (str_eq r.id i)) [
  | inl e ↦ rw e refl
  | inr e ↦ rw e (overdue-has_row i rs)
]

pub has_row-update :
    (i j : String) (b : Bool) (rs : List Row) → has_row i (update j b rs) ≡ has_row i rs
has_row-update i j b [] = refl
has_row-update i j b (r ∷ rs) = elim (Bool-cases (str_eq r.id j)) [
  | inl e ↦ rw e (ap (λ x. str_eq r.id i || x) (has_row-update i j b rs))
  | inr e ↦ rw e (ap (λ x. str_eq r.id i || x) (has_row-update i j b rs))
]

pub is_overdue-update :
    (i : String) (b : Bool) (rs : List Row) → is_overdue i (update i b rs) ≡ (has_row i rs && b)
is_overdue-update i b [] = refl
is_overdue-update i b (r ∷ rs) =
    let rest = is_overdue-update i b rs in
    elim (Bool-cases (str_eq r.id i)) [ inl e ↦ rw (e, e) (either b rest) | inr e ↦ rw (e, e) rest ]
  where
    either :
        (b : Bool)
        → is_overdue i (update i b rs) ≡ (has_row i rs && b)
        → (b || is_overdue i (update i b rs)) ≡ b
    either true h = refl
    either false h = h ∙ and_false (has_row i rs)

pub is_overdue-other :
    (i j : String) (b : Bool) (rs : List Row)
    → str_eq j i ≡ false
    → is_overdue i (update j b rs) ≡ is_overdue i rs
is_overdue-other i j b [] other = refl
is_overdue-other i j b (r ∷ rs) other = elim (Bool-cases (str_eq r.id j)) [
  | inl e ↦
      let not_i : str_eq r.id i ≡ false =
        subst (λ x. str_eq x i ≡ false) (sym (same_text r.id j e)) other in
      rw (e, not_i) (is_overdue-other i j b rs other)
  | inr e ↦ rw e (ap (λ x. (str_eq r.id i && r.is_overdue) || x) (is_overdue-other i j b rs other))
]
