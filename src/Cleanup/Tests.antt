-- ===== src/Cleanup/Tests.antt =====
-- A cleanup of three rows, two of them old, by one row a round.
use icingadb.Prelude.{[], ◌∷◌, ◌≡◌, refl, arith}
use icingadb.Cleanup.{good, cleanup_older_than, cleaned}
use icingadb.Cleanup.Rounds.{old_rows, recent, cleanup_older_than-cleaned}

cleanup_older_than-cleaned_example :
    cleanup_older_than 4 1 5 (λ n. good) (3 ∷ 9 ∷ 4 ∷ [])
    ≡ cleaned (old_rows 5 (3 ∷ 9 ∷ 4 ∷ [])) (recent 5 (3 ∷ 9 ∷ 4 ∷ []))
cleanup_older_than-cleaned_example =
    cleanup_older_than-cleaned 4 1 5 (3 ∷ 9 ∷ 4 ∷ []) (omega arith) (omega arith)

two_removed : (old_rows 5 (3 ∷ 9 ∷ 4 ∷ []) ≡ 2) × (recent 5 (3 ∷ 9 ∷ 4 ∷ []) ≡ 9 ∷ [])
unfolding old_rows recent
two_removed = (refl, refl)
