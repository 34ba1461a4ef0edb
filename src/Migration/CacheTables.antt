-- ===== src/Migration/CacheTables.antt =====
-- The tables of the SQLite caches of cmd/icingadb-migrate/cache.go: the queries and statements that its
-- two functions have in common.
use icingadb.Prelude.{
  ℕ, List, [], ◌∷◌, false, Option, none, some, if◌then◌else◌, ◌==◌, ◌≡◌, refl, ap, arith,
  Bool-cases, inl, inr,
}

module _ {ℓ} {A : Type ℓ} where
  -- `SELECT ... WHERE object_id=?`, of which the first row is used.
  abbrev pub select_by : ℕ → List (ℕ × A) → Option A
  select_by o [] = none
  select_by o ((o', s) ∷ m) = if o' == o then some s else select_by o m

  -- `DELETE ... WHERE object_id=?`
  abbrev pub delete_by : ℕ → List (ℕ × A) → List (ℕ × A)
  delete_by o [] = []
  delete_by o ((o', s) ∷ m) = let rest = delete_by o m in if o' == o then rest else (o', s) ∷ rest

  pub select_by-delete_by :
      (o o' : ℕ) (m : List (ℕ × A))
      → (o == o') ≡ false
      → select_by o' (delete_by o m) ≡ select_by o' m
  select_by-delete_by o o' [] e = refl
  select_by-delete_by o o' ((k, s) ∷ m) e = elim (Bool-cases (k == o)) [
    | inl here ↦
        let other : (k == o') ≡ false = ground (arith, here, e) in
        rw (here, other) (select_by-delete_by o o' m e)
    | inr there ↦ rw there (same_head (select_by-delete_by o o' m e))
  ]
    where
      same_head :
          select_by o' (delete_by o m) ≡ select_by o' m
          → select_by o' ((k, s) ∷ delete_by o m) ≡ select_by o' ((k, s) ∷ m)
      same_head h = ap (λ (x : Option A). if k == o' then some s else x) h

  pub select_by-deleted : (o : ℕ) (m : List (ℕ × A)) → select_by o (delete_by o m) ≡ none
  select_by-deleted o [] = refl
  select_by-deleted o ((k, s) ∷ m) = elim (Bool-cases (k == o)) [
    | inl here ↦ rw here (select_by-deleted o m)
    | inr there ↦ rw (there, there) (select_by-deleted o m)
  ]
