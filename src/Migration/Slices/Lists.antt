-- ===== src/Migration/Slices/Lists.antt =====
-- Lists of rows: what is taken, left and kept of them.
use icingadb.Prelude.{
  ℕ, zero, suc, ◌≤◌, ◌<◌, List, [], ◌∷◌, ◌++◌, All, length, Bool, true, ◌≡◌, refl, arith,
  Bool-cases, inl, inr,
}
use icingadb.Migration.Slices.{take, filter}

module _ {ℓ} {A : Type ℓ} where
  abbrev pub drop : ℕ → List A → List A
  drop zero xs = xs
  drop (suc n) [] = []
  drop (suc n) (x ∷ xs) = drop n xs

  pub length-drop : (n : ℕ) (x : A) (xs : List A) → length (drop n xs) < suc (length xs)
  length-drop zero x xs = omega arith
  length-drop (suc n) x [] = omega arith
  length-drop (suc n) x (y ∷ xs) = omega (arith, length-drop n x xs)

  abbrev pub last : A → List A → A
  last x [] = x
  last x (y ∷ ys) = last y ys

  pub All-last :
      (P : A → Type 0) (n : ℕ) (x : A) (xs : List A) → P x → All P xs → P (last x (take n xs))
  All-last P zero x xs here all = here
  All-last P (suc n) x [] here all = here
  All-last P (suc n) x (y ∷ ys) here all = All-last P n y ys all.0 all.1

  pub All-middle : (P : A → Type 0) (xs : List A) (y : A) (ys : List A) → All P (xs ++ y ∷ ys) → P y
  All-middle P [] y ys all = all.0
  All-middle P (x ∷ xs) y ys all = All-middle P xs y ys all.1

  pub All-prefix : (P : A → Type 0) (xs ys : List A) → All P (xs ++ ys) → All P xs
  All-prefix P [] ys all = tt
  All-prefix P (x ∷ xs) ys all = (all.0, All-prefix P xs ys all.1)

  pub filter_all : (p : A → Bool) (xs : List A) → All (λ x. p x ≡ true) xs → filter p xs ≡ xs
  filter_all p [] all = refl
  filter_all p (x ∷ xs) all = rw (all.0, filter_all p xs all.1) refl

  pub length-filter : (p : A → Bool) (xs : List A) → length (filter p xs) ≤ length xs
  length-filter p [] = omega arith
  length-filter p (x ∷ xs) = ground (arith, length-filter p xs)

  pub filter-filter :
      (p q : A → Bool)
      → ((x : A) → q x ≡ true → p x ≡ true)
      → (xs : List A) → filter q (filter p xs) ≡ filter q xs
  filter-filter p q h [] = refl
  filter-filter p q h (x ∷ xs) = elim (Bool-cases (p x)) [
    | inl yes_p ↦ rw (yes_p, filter-filter p q h xs) refl
    | inr no_p ↦ elim (Bool-cases (q x)) [
      | inl yes_q ↦ let bad = h x yes_q in cc
      | inr no_q ↦ rw (no_p, no_q, filter-filter p q h xs) refl
    ]
  ]

  pub All-filter : (p : A → Bool) (xs : List A) → All (λ x. p x ≡ true) (filter p xs)
  All-filter p [] = tt
  All-filter p (x ∷ xs) = elim (Bool-cases (p x)) [
    | inl e ↦ rw e (e, All-filter p xs)
    | inr e ↦ rw e (All-filter p xs)
  ]

  abbrev pub fold {κ} : {S : Type κ} → (A → S → S) → List A → S → S
  fold f [] s = s
  fold f (x ∷ xs) s = fold f xs (f x s)

  pub fold-take-drop {κ} :
      {S : Type κ} (f : A → S → S) (n : ℕ) (xs : List A) (s : S)
      → fold f (drop n xs) (fold f (take n xs) s) ≡ fold f xs s
  fold-take-drop f zero xs s = refl
  fold-take-drop f (suc n) [] s = refl
  fold-take-drop f (suc n) (x ∷ xs) s = fold-take-drop f n xs (f x s)

  pub fold-append {κ} :
      {S : Type κ} (f : A → S → S) (xs ys : List A) (s : S)
      → fold f ys (fold f xs s) ≡ fold f (xs ++ ys) s
  fold-append f [] ys s = refl
  fold-append f (x ∷ xs) ys s = fold-append f xs ys (f x s)
