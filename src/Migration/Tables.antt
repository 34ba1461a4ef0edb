-- ===== src/Migration/Tables.antt =====
-- Entries that are appended to a table.
use icingadb.Prelude.{
  String, List, [], ◌∷◌, ◌++◌, All, All-append, Bool, true, false, if◌then◌else◌, ◌≡◌, refl, inl,
  inr,
}
use icingadb.Migration.{Has}

module _ {A : Type 0} (f : A → String) where
  pub Has-append : (i : String) (xs ys : List A) → Has f i xs → Has f i (xs ++ ys)
  Has-append i [] ys h = absurd h
  Has-append i (x ∷ xs) ys (inl e) = inl e
  Has-append i (x ∷ xs) ys (inr h) = inr (Has-append i xs ys h)

  pub Has-appended : (i : String) (xs ys : List A) → Has f i ys → Has f i (xs ++ ys)
  Has-appended i [] ys h = h
  Has-appended i (x ∷ xs) ys h = inr (Has-appended i xs ys h)

pub All-appended :
    {A : Type 0} (P : A → Type 0) (xs : List A) (x : A) → All P xs → P x → All P (xs ++ x ∷ [])
All-appended P xs x all here = All-append P xs (x ∷ []) all (here, tt)

pub All-appended_if :
    {A : Type 0} (P : A → Type 0) (b : Bool) (xs ys : List A)
    → All P xs
    → (b ≡ true → All P ys)
    → All P (if b then xs ++ ys else xs)
All-appended_if P true xs ys all here = All-append P xs ys all (here refl)
All-appended_if P false xs ys all here = all
