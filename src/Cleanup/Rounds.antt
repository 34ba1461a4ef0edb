-- ===== src/Cleanup/Rounds.antt =====
-- What the rounds of a cleanup leave, and that they end.
use icingadb.Prelude.{
  ℕ, zero, suc, ◌+◌, ◌<◌, ◌≤◌, List, [], ◌∷◌, ◌≡◌, refl, arith, if◌then◌else◌, ltb, inl, inr,
  Bool-cases, ◌∙◌, ap, length, ltb→lt,
}
use icingadb.Cleanup.{delete_rows, rows_affected, good, cleaned, cleanup_rounds, cleanup_older_than}

-- The number of the rows that are older, and the rows that are not.
unfoldable pub old_rows : ℕ → List ℕ → ℕ
old_rows older_than [] = 0
old_rows older_than (t ∷ rows) = (if ltb t older_than then 1 else 0) + old_rows older_than rows

unfoldable pub recent : ℕ → List ℕ → List ℕ
recent older_than [] = []
recent older_than (t ∷ rows) =
    let rest = recent older_than rows in if ltb t older_than then rest else t ∷ rest

old_rows-delete_rows :
    (limit o : ℕ) (rows : List ℕ)
    → rows_affected limit o rows + old_rows o (delete_rows limit o rows) ≡ old_rows o rows
unfolding delete_rows rows_affected old_rows
old_rows-delete_rows zero o rows = omega arith
old_rows-delete_rows (suc limit) o [] = refl
old_rows-delete_rows (suc limit) o (t ∷ rows) =
    ground (arith, old_rows-delete_rows limit o rows, old_rows-delete_rows (suc limit) o rows)

recent-delete_rows :
    (limit o : ℕ) (rows : List ℕ) → recent o (delete_rows limit o rows) ≡ recent o rows
unfolding delete_rows recent
recent-delete_rows zero o rows = refl
recent-delete_rows (suc limit) o [] = refl
recent-delete_rows (suc limit) o (t ∷ rows) =
    ground (arith, recent-delete_rows limit o rows, recent-delete_rows (suc limit) o rows)

-- Where fewer rows than the limit are deleted, none that is old is left.
delete_rows-recent :
    (limit o : ℕ) (rows : List ℕ)
    → rows_affected limit o rows < limit
    → delete_rows limit o rows ≡ recent o rows
unfolding delete_rows recent rows_affected
delete_rows-recent zero o rows h = ground (arith, h)
delete_rows-recent (suc limit) o [] h = refl
delete_rows-recent (suc limit) o (t ∷ rows) h = elim (Bool-cases (ltb t o)) [
  | inl old ↦ rw old (delete_rows-recent limit o rows (ground (arith, h, old)))
  | inr new ↦
      rw new (ap (λ l. t ∷ l) (delete_rows-recent (suc limit) o rows (ground (arith, h, new))))
]

old_rows-recent : (o : ℕ) (rows : List ℕ) → old_rows o (recent o rows) ≡ 0
unfolding old_rows recent
old_rows-recent o [] = refl
old_rows-recent o (t ∷ rows) = ground (arith, old_rows-recent o rows)

cleaned_eq : {m n : ℕ} {l k : List ℕ} → m ≡ n → l ≡ k → cleaned m l ≡ cleaned n k
cleaned_eq e e' = rw (e, e') refl

old_rows-length : (o : ℕ) (rows : List ℕ) → old_rows o rows ≤ length rows
unfolding old_rows
old_rows-length o [] = omega arith
old_rows-length o (t ∷ rows) = ground (arith, old_rows-length o rows)

cleanup_rounds-cleaned :
    (fuel count o counter : ℕ) (rows : List ℕ)
    → 0 < count
    → old_rows o rows < fuel
    → cleanup_rounds fuel count o (λ n. good) counter rows
      ≡ cleaned (counter + old_rows o rows) (recent o rows)
unfolding cleanup_rounds
cleanup_rounds-cleaned zero count o counter rows c h = ground (arith, h)
cleanup_rounds-cleaned (suc fuel) count o counter rows c h =
    elim (Bool-cases (ltb (rows_affected count o rows) count)) [
      | inl last ↦
          let left = delete_rows-recent count o rows (ltb→lt _ _ last) in
          let total : rows_affected count o rows ≡ old_rows o rows = omega (
            arith,
            old_rows-delete_rows count o rows,
            ap (old_rows o) left,
            old_rows-recent o rows,
          ) in
          rw (last, left, total) refl
      | inr more ↦
          let total = old_rows-delete_rows count o rows in
          let rest =
            cleanup_rounds-cleaned fuel count o (counter + rows_affected count o rows)
              (delete_rows count o rows) c (ground (arith, total, more)) in
          rw more (rest ∙ cleaned_eq (omega (arith, total)) (recent-delete_rows count o rows))
    ]

-- With a positive `count` and where no round fails, the cleanup ends after at most one round more than
-- there are rows: it has deleted exactly the rows older than the time, and it returns their number.
pub cleanup_older_than-cleaned :
    (fuel count o : ℕ) (rows : List ℕ)
    → 0 < count
    → length rows < fuel
    → cleanup_older_than fuel count o (λ n. good) rows ≡ cleaned (old_rows o rows) (recent o rows)
unfolding cleanup_older_than
cleanup_older_than-cleaned fuel count o rows c h =
    cleanup_rounds-cleaned fuel count o 0 rows c (omega (arith, h, old_rows-length o rows))
    ∙ cleaned_eq (omega arith) refl
