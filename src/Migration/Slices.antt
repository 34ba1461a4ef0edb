-- ===== src/Migration/Slices.antt =====
-- The reading of a table in slices: `sliceIdoHistory` in cmd/icingadb-migrate/misc.go.
--
-- `all` are the rows of the query in its order, without its conditions on the checkpoint and its limit;
-- `beyond c i` is the condition on an ID i for the checkpoint c. The loop has fuel, and `none` is that it
-- ran out.
pub mod Lists
pub mod Folds
use icingadb.Prelude.{
  ℕ, zero, suc, List, [], ◌∷◌, Bool, true, false, Option, none, some, if◌then◌else◌,
}

abbrev pub take {ℓ} : {A : Type ℓ} → ℕ → List A → List A
take zero xs = []
take (suc n) [] = []
take (suc n) (x ∷ xs) = x ∷ take n xs

abbrev pub filter {ℓ} : {A : Type ℓ} → (A → Bool) → List A → List A
filter p [] = []
filter p (x ∷ xs) = let rest = filter p xs in if p x then x ∷ rest else rest

abbrev pub rows_beyond : {R : Type 0} → (R → ℕ) → (ℕ → ℕ → Bool) → List R → ℕ → List R
rows_beyond id_of beyond all c = filter (λ r. beyond c (id_of r)) all

-- The loop ends where the callback returns no checkpoint.
abbrev pub on_checkpoint : {S : Type 0} → (ℕ → S → Option S) → S × Option ℕ → Option S
on_checkpoint again (s, none) = some s
on_checkpoint again (s, some c) = again c s

module _ {R S : Type 0} (on_rows : List R → S → S × Option ℕ) where
  -- What follows a slice, where `again` is the loop.
  abbrev pub on_slice : (ℕ → S → Option S) → List R → S → Option S
  on_slice again [] s = some s
  on_slice again (r ∷ rs) s = on_checkpoint again (on_rows (r ∷ rs) s)

  unfoldable pub slice_ido_history : (ℕ → List R) → ℕ → ℕ → ℕ → S → Option S
  slice_ido_history rows bulk zero c s = none
  slice_ido_history rows bulk (suc fuel) c s =
      on_slice (slice_ido_history rows bulk fuel) (take bulk (rows c)) s
