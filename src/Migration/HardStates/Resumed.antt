-- ===== src/Migration/HardStates/Resumed.antt =====
-- The cache is complete, and an interrupted run is resumed where it was.
use icingadb.Prelude.{
  ℕ, suc, ◌≤◌, ◌<◌, List, [], ◌∷◌, ◌++◌, All, All-map, count, length, Bool, true, false, Option,
  none, some, if◌then◌else◌, ◌==◌, ltb, ltb→lt, ◌≡◌, refl, arith, Bool-cases, Option-cases, inl,
  inr, sym, ap, ◌∙◌,
}
use icingadb.Migration.Slices.{take, rows_beyond}
use icingadb.Migration.Slices.Lists.{drop, last, fold, filter_all, length-filter, fold-append}
use icingadb.Migration.Slices.Folds.{
  filter-drop, IdOrder, IsOrdered, row_by_row, slice_ido_history-fold, IsOrdered-prefix,
}
use icingadb.Migration.CacheTables.{select_by}
use icingadb.Migration.HardStates.{
  HardRow, HardCache, empty_cache, delete_ids, start_waiting, keep_waiting, end_waiting, on_next,
  cache_row, cache_rows, min_id, is_empty, max_int64, checkpoint_of, finish, below,
  build_previous_hard_state_cache,
}
use icingadb.Migration.HardStates.Awaited.{previous_states}
use icingadb.Migration.HardStates.Previous.{fold-outcome}

abbrev pub row_id : HardRow → ℕ
row_id r = r.id

-- The rows are those of a query that is ordered by descending IDs.
abbrev pub IsDescending : List HardRow → Type 0
IsDescending = IsOrdered row_id below

descending : IdOrder below
descending = record {
  asymmetric = λ a b h. ground (arith, h);
  transitive = λ a b c h h'. ground (arith, h, h');
}

cache_rows-some :
    (r : HardRow) (rs : List HardRow) (c : HardCache)
    → cache_rows (some r.id) rs c ≡ (fold cache_row rs c, some (row_id (last r rs)))
unfolding cache_rows
cache_rows-some r [] c = refl
cache_rows-some r (r' ∷ rs) c = cache_rows-some r' rs (cache_row r' c)

cache_rows-row_by_row :
    (rs : List HardRow) (c : HardCache)
    → cache_rows none rs c ≡ row_by_row row_id below cache_row rs c
unfolding cache_rows
cache_rows-row_by_row [] c = refl
cache_rows-row_by_row (r ∷ rs) c = cache_rows-some r rs (cache_row r c)

module _ (bulk : ℕ) where
  -- The cache is filled from its checkpoint on, and finished.
  build-fold :
      (fuel : ℕ) (rows : List HardRow) (c : HardCache)
      → IsDescending rows
      → length rows < fuel
      → build_previous_hard_state_cache (suc bulk) fuel rows c
        ≡ some (finish (fold cache_row (rows_beyond row_id below rows (checkpoint_of c)) c))
  unfolding build_previous_hard_state_cache
  build-fold fuel rows c ordered enough =
      let shorter = length-filter (λ (r : HardRow). below (checkpoint_of c) r.id) rows in
      ap (λ o. elim o [ none ↦ none | some c' ↦ some (finish c') ])
        (slice_ido_history-fold row_id below descending (cache_rows none) cache_row
          cache_rows-row_by_row rows ordered bulk fuel (checkpoint_of c) c
          (omega (arith, shorter, enough)))

-- The ID of the last row that was handled waits, and no smaller one does.
abbrev IsLeast : ℕ → List (ℕ × ℕ) → Type 0
IsLeast m [] = ⊥
IsLeast m ((h, o) ∷ rest) = (h ≡ m) × All (λ (p : ℕ × ℕ). m ≤ p.0) rest

min_id-at_least :
    (m : ℕ) (ids : List (ℕ × ℕ))
    → All (λ (p : ℕ × ℕ). m ≤ p.0) ids
    → (k : ℕ) → min_id ids ≡ some k
    → m ≤ k
min_id-at_least m [] all k e = cc
min_id-at_least m ((h, o) ∷ ids) all k e = elim (Option-cases (min_id ids)) [
  | inl none_there ↦ ground (arith, all, e, none_there)
  | inr (k', there) ↦ ground (arith, all, e, there, min_id-at_least m ids all.1 k' there)
]

min_id-IsLeast : (m : ℕ) (ids : List (ℕ × ℕ)) → IsLeast m ids → min_id ids ≡ some m
min_id-IsLeast m [] h = absurd h
min_id-IsLeast m ((h, o) ∷ ids) (e, all) = elim (Option-cases (min_id ids)) [
  | inl none_there ↦ rw none_there (ap (λ (x : ℕ). some x) e)
  | inr (k, there) ↦
      let le = min_id-at_least m ids all k there in
      let not_less : ltb k h ≡ false = ground (arith, e, le) in
      rw (there, not_less) (ap (λ (x : ℕ). some x) e)
]

All-delete_ids :
    (P : ℕ × ℕ → Type 0) (o : ℕ) (ids : List (ℕ × ℕ)) → All P ids → All P (delete_ids o ids)
All-delete_ids P o [] all = tt
All-delete_ids P o ((h, o') ∷ ids) all = elim (Bool-cases (o' == o)) [
  | inl e ↦ rw e (All-delete_ids P o ids all.1)
  | inr e ↦ rw e (all.0, All-delete_ids P o ids all.1)
]

cache_row-IsLeast :
    (r : HardRow) (c : HardCache)
    → All (λ (p : ℕ × ℕ). r.id ≤ p.0) c.next_ids
    → IsLeast r.id (cache_row r c).next_ids
unfolding cache_row
cache_row-IsLeast r c all = on_next_least (select_by r.object_id c.next_hard_state)
  where
    by_test :
        (b : Bool)
        → IsLeast r.id (if b then keep_waiting r c else start_waiting r (end_waiting r c)).next_ids
    by_test true = (refl, all)
    by_test false = (refl, All-delete_ids (λ (p : ℕ × ℕ). r.id ≤ p.0) r.object_id c.next_ids all)

    on_next_least : (o : Option ℕ) → IsLeast r.id (on_next r o c).next_ids
    on_next_least none = (refl, all)
    on_next_least (some s) = by_test (r.last_hard_state == s)

IsLeast-at_least :
    (m k : ℕ) (ids : List (ℕ × ℕ)) → IsLeast m ids → k ≤ m → All (λ (p : ℕ × ℕ). k ≤ p.0) ids
IsLeast-at_least m k [] least le = absurd least
IsLeast-at_least m k ((h, o) ∷ ids) (e, all) le =
    (omega (arith, e, le), All-map ids (λ p h. omega (arith, h, le)) all)

fold-IsLeast :
    (r : HardRow) (rs : List HardRow) (c : HardCache)
    → IsDescending (r ∷ rs)
    → All (λ (p : ℕ × ℕ). r.id ≤ p.0) c.next_ids
    → IsLeast (row_id (last r rs)) (fold cache_row (r ∷ rs) c).next_ids
fold-IsLeast r [] c ordered all = cache_row-IsLeast r c all
fold-IsLeast r (r' ∷ rs) c ordered all =
    let less = ltb→lt r'.id r.id ordered.0.0 in
    fold-IsLeast r' rs (cache_row r c) ordered.1 (
      IsLeast-at_least r.id r'.id (cache_row r c).next_ids (cache_row-IsLeast r c all)
        (omega (arith, less)))

checkpoint_of-fold :
    (r : HardRow) (rs : List HardRow)
    → IsDescending (r ∷ rs)
    → checkpoint_of (fold cache_row (r ∷ rs) empty_cache) ≡ row_id (last r rs)
unfolding checkpoint_of
checkpoint_of-fold r rs ordered =
    let c = fold cache_row (r ∷ rs) empty_cache in
    ap (λ o. elim o [ some m ↦ m | none ↦ if is_empty c.previous_hard_state then max_int64 else 0 ])
      (min_id-IsLeast _ c.next_ids (fold-IsLeast r rs empty_cache ordered tt))

take-append : (xs ys : List HardRow) → take (length xs) (xs ++ ys) ≡ xs
take-append [] ys = refl
take-append (x ∷ xs) ys = ap (λ zs. x ∷ zs) (take-append xs ys)

drop-append : (xs ys : List HardRow) → drop (length xs) (xs ++ ys) ≡ ys
drop-append [] ys = refl
drop-append (x ∷ xs) ys = drop-append xs ys

-- The rows that are left after some of them.
rest_of :
    (r : HardRow) (xs ys : List HardRow)
    → IsDescending (r ∷ (xs ++ ys))
    → rows_beyond row_id below (r ∷ (xs ++ ys)) (row_id (last r xs)) ≡ ys
rest_of r xs ys ordered =
    let all = r ∷ (xs ++ ys) in
    ap (λ zs. rows_beyond row_id below all (row_id (last r zs))) (sym (take-append xs ys))
    ∙ filter-drop row_id below descending (length xs) r (xs ++ ys) ordered
    ∙ drop-append xs ys

-- The IDs are those of signed 64-bit integers, but for the largest.
abbrev pub IsBelowMax : HardRow → Type 0
IsBelowMax r = below max_int64 r.id ≡ true

module _ (bulk fuel : ℕ) (rows : List HardRow) (ordered : IsDescending rows)
    (enough : length rows < fuel) where
  from_empty :
      All IsBelowMax rows
      → build_previous_hard_state_cache (suc bulk) fuel rows empty_cache
        ≡ some (finish (fold cache_row rows empty_cache))
  unfolding checkpoint_of
  from_empty within =
      build-fold bulk fuel rows empty_cache ordered enough
      ∙ ap (λ rs. some (finish (fold cache_row rs empty_cache)))
          (filter_all (λ (r : HardRow). below max_int64 r.id) rows within)

  -- With more fuel than there are rows, and whatever the size of the slices: the cache is built, and it has
  -- exactly one entry for each row, with the latest other state of the row's object before it, or pending.
  pub build-previous_states :
      All IsBelowMax rows
      → (c : HardCache) × (build_previous_hard_state_cache (suc bulk) fuel rows empty_cache
          ≡ some c)
        × ((q : ℕ × ℕ → Bool) → count q c.previous_hard_state ≡ count q (previous_states rows))
  build-previous_states within = (
    finish (fold cache_row rows empty_cache),
    from_empty within,
    λ q. omega (arith, fold-outcome q rows empty_cache tt),
  )

-- A run that was interrupted after some rows is resumed with the row after them: what is built then is
-- what a run would have built that was not interrupted.
pub build-resumed :
    (bulk fuel : ℕ) (xs ys : List HardRow)
    → IsDescending (xs ++ ys)
    → length (xs ++ ys) < fuel
    → All IsBelowMax (xs ++ ys)
    → build_previous_hard_state_cache (suc bulk) fuel (xs ++ ys) (fold cache_row xs empty_cache)
      ≡ build_previous_hard_state_cache (suc bulk) fuel (xs ++ ys) empty_cache
build-resumed bulk fuel [] ys ordered enough within = refl
build-resumed bulk fuel (r ∷ xs) ys ordered enough within =
    let c = fold cache_row (r ∷ xs) empty_cache in
    let checkpoint = checkpoint_of-fold r xs (IsOrdered-prefix row_id below (r ∷ xs) ys ordered) in
    build-fold bulk fuel (r ∷ (xs ++ ys)) c ordered enough
    ∙ ap (λ k. some (finish (fold cache_row (rows_beyond row_id below (r ∷ (xs ++ ys)) k) c)))
        checkpoint
    ∙ ap (λ rs. some (finish (fold cache_row rs c))) (rest_of r xs ys ordered)
    ∙ ap (λ (d : HardCache). some (finish d)) (fold-append cache_row (r ∷ xs) ys empty_cache)
    ∙ sym (from_empty bulk fuel (r ∷ (xs ++ ys)) ordered enough within)
