-- ===== src/Migration/Flapping.antt =====
-- The flapping: `convertFlappingRows` in cmd/icingadb-migrate/convert.go.
--
-- `select_cache` is the query of the cache. The environment's ID, which every entry is given, and the
-- columns that are only copied from the row are left out.
pub mod Pairs
mod Tests
use icingadb.Prelude.{
  ℕ, String, List, [], ◌∷◌, ◌++◌, Bool, true, false, Option, none, some, if◌then◌else◌, ◌==◌,
}
use icingadb.Migration.{Field, text, Hash, Time, convert_time, unix_milli, Meta, meta_of, full_name}

pub record FlappingRow : Type 0 where
  pub id : ℕ
  pub event_time : Option ℕ
  pub event_time_usec : ℕ
  pub event_type : ℕ
  pub objecttype_id : ℕ
  pub name1 : String
  pub name2 : String

-- What the cache yields: the start of the flapping that a row ends.
pub record CachedStart : Type 0 where
  pub history_id : ℕ
  pub event_time : ℕ
  pub event_time_usec : ℕ

pub record FlappingHistory : Type 0 where
  pub id : String
  pub meta : Meta
  pub start_time : Time
  pub end_time : Time

pub record HistoryFlapping : Type 0 where
  pub id : String
  pub meta : Meta
  pub event_type : String
  pub flapping_history_id : String
  pub start_time : Time
  pub end_time : Time

-- The stages, in the order in which they are written, and the checkpoint.
pub record FlappingStages : Type 0 where
  pub flapping_history : List FlappingHistory
  pub flapping_history_upserts : List FlappingHistory
  pub all_history : List HistoryFlapping
  pub checkpoint : Option ℕ

-- `cachedById`: of two entries for an ID, the later one counts.
abbrev pub start_by_id : List CachedStart → ℕ → Option Time
start_by_id [] id = none
start_by_id (c ∷ cs) id = elim (start_by_id cs id) [
  | some t ↦ some t
  | none ↦ if c.history_id == id then some (convert_time c.event_time c.event_time_usec) else none
]

abbrev pub flapping_id : Hash → String → FlappingRow → Time → String
flapping_id hash env r start =
    hash (text env ∷ text (full_name r.name1 r.name2) ∷ unix_milli start ∷ [])

abbrev pub flapping_of : Hash → String → FlappingRow → Time → Time → FlappingHistory
flapping_of hash env r start end_ = record {
  id = flapping_id hash env r start;
  meta = meta_of hash env r.objecttype_id r.name1 r.name2;
  start_time = start;
  end_time = end_;
}

abbrev pub flapping_event : Hash → String → String → FlappingRow → Time → Time → HistoryFlapping
flapping_event hash env kind r start end_ = record {
  id = hash (text env ∷ text kind ∷ text (full_name r.name1 r.name2) ∷ unix_milli start ∷ []);
  meta = meta_of hash env r.objecttype_id r.name1 r.name2;
  event_type = kind;
  flapping_history_id = flapping_id hash env r start;
  start_time = start;
  end_time = end_;
}

-- The end of a flapping whose start is cached.
abbrev pub add_end :
    Hash → String → FlappingRow → Time → Option Time → FlappingStages → FlappingStages
add_end hash env r ts none out = out
add_end hash env r ts (some start) out = record out {
  flapping_history_upserts = out.flapping_history_upserts ++ flapping_of hash env r start ts ∷ [];
  all_history = out.all_history ++ flapping_event hash env "flapping_end" r start ts ∷ [];
}

abbrev pub add_start : Hash → String → FlappingRow → Time → FlappingStages → FlappingStages
add_start hash env r ts out = record out {
  flapping_history = out.flapping_history ++ flapping_of hash env r ts none ∷ [];
  all_history = out.all_history ++ flapping_event hash env "flapping_start" r ts none ∷ [];
}

abbrev pub on_event :
    Hash → String → (ℕ → Option Time) → FlappingRow → Option ℕ → FlappingStages → FlappingStages
on_event hash env cached r none out = out
on_event hash env cached r (some time) out =
    let ts = convert_time time r.event_time_usec in
    if r.event_type == 1001
    then add_end hash env r ts (cached r.id) out
    else add_start hash env r ts out

unfoldable pub convert_flapping :
    Hash → String → (ℕ → Option Time) → List FlappingRow → FlappingStages → FlappingStages
convert_flapping hash env cached [] out = out
convert_flapping hash env cached (r ∷ rs) out =
    convert_flapping hash env cached rs
      (on_event hash env cached r r.event_time (record out { checkpoint = some r.id }))

abbrev pub no_flapping : FlappingStages
no_flapping = record {
  flapping_history = [];
  flapping_history_upserts = [];
  all_history = [];
  checkpoint = none;
}

abbrev pub last_row : FlappingRow → List FlappingRow → ℕ
last_row r [] = r.id
last_row r (r' ∷ rs) = last_row r' rs

unfoldable pub convert_flapping_rows :
    Hash → String → (ℕ → ℕ → List CachedStart) → List FlappingRow → FlappingStages
unfolding convert_flapping
convert_flapping_rows hash env select_cache [] = no_flapping
convert_flapping_rows hash env select_cache (r ∷ rs) =
    convert_flapping hash env (start_by_id (select_cache r.id (last_row r rs))) (r ∷ rs) no_flapping
