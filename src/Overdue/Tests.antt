-- ===== src/Overdue/Tests.antt =====
-- The examples of the overdue indicators.
use icingadb.Prelude.{ℕ, String, [], ◌∷◌, Bool, true, false, none, ◌≡◌, refl}
use icingadb.Overdue.{Row, Store, Round, init_sync, sync}
use icingadb.Overdue.Sets.{is_overdue}
use icingadb.Overdue.Exact.{Goes, IsExact, sync-IsExact}
use icingadb.Overdue.Unnoticed.{sync-unnoticed}

abbrev every : String → Bool
every i = true

-- Two goroutines that take turns, and at the end the second one first.
abbrev round_at : ℕ → Round
round_at t = record {
  now = t;
  next_update = ("a", 5) ∷ ("b", 8) ∷ ("c", 20) ∷ [];
  script_fails = false;
  schedule = true ∷ false ∷ true ∷ false ∷ [];
  stops = none;
}

abbrev row : String → Bool → Row
row i b = record { id = i; is_overdue = b }

abbrev stale : Store
stale = record {
  overdue = "b" ∷ "x" ∷ [];
  table = row "a" false ∷ row "b" false ∷ row "c" true ∷ [];
}

abbrev goes : (t : ℕ) → Goes every (round_at t)
goes t = record { calm = record { script = refl; completes = refl }; ids = λ i h. refl }

sync-IsExact_example :
    (s' : Store) × (sync every (round_at 6 ∷ round_at 9 ∷ []) (init_sync stale) ≡ (s', none))
    × IsExact (round_at 9) stale.table s'
sync-IsExact_example =
    sync-IsExact every (round_at 9) (round_at 6 ∷ []) stale (λ i h. refl) (goes 6, (goes 9, tt))

sync-unnoticed_example :
    (s' : Store) × (sync every (round_at 9 ∷ round_at 10 ∷ []) stale ≡ (s', none))
    × (is_overdue "b" s'.table ≡ false)
sync-unnoticed_example =
    sync-unnoticed every "b" (round_at 9 ∷ round_at 10 ∷ []) stale (λ i h. refl) refl refl
      (goes 9, (goes 10, tt)) (refl, (refl, tt))
