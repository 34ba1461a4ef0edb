-- ===== src/Cleanup.antt =====
-- The cleanup of history tables: pkg/icingadb/cleanup.go, `CleanupOlderThan`.
--
-- The table is the list of the environment's rows, a row is the time of the statement's column, and no
-- one else changes old rows meanwhile. A round that the database retries leaves no trace. The loop has
-- fuel: one round more than there are rows is enough where `count` is not 0.
pub mod Rounds
mod Tests
use icingadb.Prelude.{ℕ, zero, suc, ◌+◌, ◌-◌, List, [], ◌∷◌, Bool, true, false, if◌then◌else◌, ltb}

-- "DELETE ... WHERE environment_id = :environment_id AND column < :time LIMIT count": the rows left.
unfoldable pub delete_rows : ℕ → ℕ → List ℕ → List ℕ
delete_rows zero older_than rows = rows
delete_rows (suc limit) older_than [] = []
delete_rows (suc limit) older_than (t ∷ rows) =
    let deleted = delete_rows limit older_than rows in
    let kept = delete_rows (suc limit) older_than rows in
    if ltb t older_than then deleted else t ∷ kept

-- `RowsAffected` of the same statement.
unfoldable pub rows_affected : ℕ → ℕ → List ℕ → ℕ
rows_affected zero older_than rows = 0
rows_affected (suc limit) older_than [] = 0
rows_affected (suc limit) older_than (t ∷ rows) =
    let deleted = rows_affected limit older_than rows in
    let kept = rows_affected (suc limit) older_than rows in
    if ltb t older_than then suc deleted else kept

-- How a round goes: `execute_failed` is an error that is not retried, `on_success_failed` one of a callback.
pub data Round : Type 0 where
  good : Round
  execute_failed : Round
  on_success_failed : Round

-- The total and the table, or the table at an error.
pub data Result : Type 0 where
  cleaned : ℕ → List ℕ → Result
  failed : List ℕ → Result
  out_of_fuel : Result

unfoldable pub cleanup_rounds : ℕ → ℕ → ℕ → (ℕ → Round) → ℕ → List ℕ → Result
cleanup_rounds zero count older_than rounds counter rows = out_of_fuel
cleanup_rounds (suc fuel) count older_than rounds counter rows =
    let deleted = rows_affected count older_than rows in
    let left = delete_rows count older_than rows in
    let rest =
      cleanup_rounds fuel count older_than (λ n. rounds (suc n)) (counter + deleted) left in
    elim (rounds 0) [
      | execute_failed ↦ failed rows
      | on_success_failed ↦ failed left
      | good ↦ if ltb deleted count then cleaned (counter + deleted) left else rest
    ]

-- `CleanupOlderThan` with a `count` and the time `older_than`.
unfoldable pub cleanup_older_than : ℕ → ℕ → ℕ → (ℕ → Round) → List ℕ → Result
cleanup_older_than fuel count older_than rounds rows =
    cleanup_rounds fuel count older_than rounds 0 rows
