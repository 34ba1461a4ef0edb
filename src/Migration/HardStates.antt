-- ===== src/Migration/HardStates.antt =====
-- The cache of previous hard states: `buildPreviousHardStateCache` in cmd/icingadb-migrate/cache.go.
--
-- A table of the cache is a list of its rows. The rows of the IDO are those of the query without its
-- checkpoint and limit, from the largest ID on. A transaction is committed after a row, or after the
-- whole: what an interrupted run leaves is what it had after some of the rows, or after all. A row with an
-- ID or object that a table with a primary key has already would end the program; the IDs are those of a
-- primary key of the IDO, and an object's state is deleted before it is inserted again.
pub mod Awaited
pub mod Previous
pub mod Resumed
mod Tests
use icingadb.Prelude.{
  ℕ, ◌≤◌, List, [], ◌∷◌, ◌++◌, length, Bool, true, false, Option, none, some, if◌then◌else◌, ◌==◌,
  ltb,
}
use icingadb.Migration.CacheTables.{select_by, delete_by}
use icingadb.Migration.Slices.{rows_beyond, slice_ido_history}

pub record HardRow : Type 0 where
  pub id : ℕ
  pub object_id : ℕ
  pub last_hard_state : ℕ

-- The tables: the next hard state by object, the objects by history ID that wait for their previous
-- state, and the previous states by history ID.
pub record HardCache : Type 0 where
  pub next_hard_state : List (ℕ × ℕ)
  pub next_ids : List (ℕ × ℕ)
  pub previous_hard_state : List (ℕ × ℕ)

abbrev pub empty_cache : HardCache
empty_cache = record { next_hard_state = []; next_ids = []; previous_hard_state = [] }

abbrev pub delete_ids : ℕ → List (ℕ × ℕ) → List (ℕ × ℕ)
delete_ids o [] = []
delete_ids o ((h, o') ∷ m) = let rest = delete_ids o m in if o' == o then rest else (h, o') ∷ rest

-- The IDs that wait for the object's state, with this state.
abbrev pub waiting_with : ℕ → ℕ → List (ℕ × ℕ) → List (ℕ × ℕ)
waiting_with o s [] = []
waiting_with o s ((h, o') ∷ m) =
    let rest = waiting_with o s m in if o' == o then (h, s) ∷ rest else rest

-- All IDs that wait, with this state.
abbrev pub all_with : ℕ → List (ℕ × ℕ) → List (ℕ × ℕ)
all_with s [] = []
all_with s ((h, o) ∷ m) = (h, s) ∷ all_with s m

abbrev pub start_waiting : HardRow → HardCache → HardCache
start_waiting r c = record c {
  next_hard_state = (r.object_id, r.last_hard_state) ∷ c.next_hard_state;
  next_ids = (r.id, r.object_id) ∷ c.next_ids;
}

abbrev pub keep_waiting : HardRow → HardCache → HardCache
keep_waiting r c = record c { next_ids = (r.id, r.object_id) ∷ c.next_ids }

abbrev pub end_waiting : HardRow → HardCache → HardCache
end_waiting r c = record {
  next_hard_state = delete_by r.object_id c.next_hard_state;
  next_ids = delete_ids r.object_id c.next_ids;
  previous_hard_state =
      waiting_with r.object_id r.last_hard_state c.next_ids ++ c.previous_hard_state;
}

abbrev pub on_next : HardRow → Option ℕ → HardCache → HardCache
on_next r none c = start_waiting r c
on_next r (some s) c =
    if r.last_hard_state == s then keep_waiting r c else start_waiting r (end_waiting r c)

unfoldable pub cache_row : HardRow → HardCache → HardCache
cache_row r c = on_next r (select_by r.object_id c.next_hard_state) c

-- The callback for a slice, with the checkpoint so far.
unfoldable pub cache_rows : Option ℕ → List HardRow → HardCache → HardCache × Option ℕ
unfolding cache_row
cache_rows checkpoint [] c = (c, checkpoint)
cache_rows checkpoint (r ∷ rs) c = cache_rows (some r.id) rs (cache_row r c)

-- `MIN(history_id)`
abbrev pub min_id : List (ℕ × ℕ) → Option ℕ
min_id [] = none
min_id ((h, o) ∷ m) = elim (min_id m) [
  | none ↦ some h
  | some k ↦ if ltb k h then some k else some h
]

abbrev pub is_empty {ℓ} : {A : Type ℓ} → List A → Bool
is_empty [] = true
is_empty (x ∷ xs) = false

abbrev pub max_int64 : ℕ
max_int64 = 0x7fff_ffff_ffff_ffff

unfoldable pub checkpoint_of : HardCache → ℕ
checkpoint_of c = elim (min_id c.next_ids) [
  | some m ↦ m
  | none ↦ if is_empty c.previous_hard_state then max_int64 else 0
]

-- The checkable's state before its first row is taken to be pending.
unfoldable pub finish : HardCache → HardCache
finish c = record {
  next_hard_state = [];
  next_ids = [];
  previous_hard_state = all_with 99 c.next_ids ++ c.previous_hard_state;
}

abbrev pub below : ℕ → ℕ → Bool
below c i = ltb i c

abbrev pub finished : Option HardCache → Option HardCache
unfolding finish
finished none = none
finished (some c) = some (finish c)

unfoldable pub build_previous_hard_state_cache : ℕ → ℕ → List HardRow → HardCache → Option HardCache
unfolding cache_rows checkpoint_of slice_ido_history finish
build_previous_hard_state_cache bulk fuel rows c = finished (
    slice_ido_history (cache_rows none) (rows_beyond (λ (r : HardRow). r.id) below rows) bulk fuel
      (checkpoint_of c) c)
