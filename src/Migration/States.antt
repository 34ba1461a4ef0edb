-- ===== src/Migration/States.antt =====
-- The states: `convertStateRows` and `convertStateType` in cmd/icingadb-migrate/convert.go.
--
-- `select_cache` is the query of the cache. The environment's ID, which every entry is given, and the
-- columns that are only copied from the row are left out; `none` is a panic.
pub mod Bounds
mod Tests
use icingadb.Prelude.{
  ℕ, String, str_append, str_eq, List, [], ◌∷◌, ◌++◌, map, Bool, true, false, not, ◌&&◌, Option,
  none, some, if◌then◌else◌, ◌==◌, ltb,
}
use icingadb.Migration.{
  Field, text, Hash, Time, convert_time, unix_milli, object_type, Meta, meta_of,
}

pub record StateRow : Type 0 where
  pub id : ℕ
  pub state_time : Option ℕ
  pub state_time_usec : ℕ
  pub state : ℕ
  pub state_type : ℕ
  pub last_state : ℕ
  pub last_hard_state : ℕ
  pub objecttype_id : ℕ
  pub name1 : String
  pub name2 : String

pub record StateHistory : Type 0 where
  pub id : String
  pub meta : Meta
  pub event_time : Time
  pub state_type : String
  pub soft_state : ℕ
  pub hard_state : ℕ
  pub previous_soft_state : ℕ
  pub previous_hard_state : ℕ

pub record HistoryState : Type 0 where
  pub id : String
  pub meta : Meta
  pub state_history_id : String
  pub event_time : Time

pub record SlaHistoryState : Type 0 where
  pub id : String
  pub meta : Meta
  pub event_time : Time
  pub state_type : String
  pub hard_state : ℕ
  pub previous_hard_state : ℕ

-- The stages, in the order in which they are written, and the checkpoint.
pub record StateStages : Type 0 where
  pub state_history : List StateHistory
  pub all_history : List HistoryState
  pub sla : List SlaHistoryState
  pub checkpoint : Option ℕ

-- `cachedById`: of two entries for an ID, the later one counts.
abbrev pub cached_by_id : List (ℕ × ℕ) → ℕ → Option ℕ
cached_by_id [] id = none
cached_by_id ((id', state) ∷ cs) id = elim (cached_by_id cs id) [
  | some s ↦ some s
  | none ↦ if id' == id then some state else none
]

-- `convertStateType`
abbrev pub convert_state_type : ℕ → Option String
convert_state_type n = if n == 0 then some "soft" else if n == 1 then some "hard" else none

-- `stateUpperBound`
abbrev pub state_upper_bound : String → Option ℕ
state_upper_bound typ =
    if str_eq typ "host" then some 1 else if str_eq typ "service" then some 3 else none

abbrev pub clamp : ℕ → ℕ → ℕ
clamp bound v = if ltb bound v && not (v == 99) then bound else v

abbrev pub hard_state_of : String → ℕ → ℕ → ℕ
hard_state_of typ state last_hard = if str_eq typ "hard" then state else last_hard

abbrev pub state_name : StateRow → String
state_name r = str_append r.name1 (str_append "!" r.name2)

abbrev pub state_id : Hash → String → StateRow → Time → String
state_id hash env r ts = hash (text env ∷ text (state_name r) ∷ unix_milli ts ∷ [])

-- What is appended for one row, with its bound, its state type and the previous hard state.
abbrev pub add_state : Hash → String → StateRow → ℕ → ℕ → String → ℕ → StateStages → StateStages
add_state hash env r time bound typ previous out =
    let ts = convert_time time r.state_time_usec in
    let id = state_id hash env r ts in
    let meta = meta_of hash env r.objecttype_id r.name1 r.name2 in
    let soft = clamp bound r.state in
    let hard = hard_state_of typ soft (clamp bound r.last_hard_state) in
    record out {
      state_history =
          out.state_history
          ++ record {
            id = id;
            meta = meta;
            event_time = ts;
            state_type = typ;
            soft_state = soft;
            hard_state = hard;
            previous_soft_state = clamp bound r.last_state;
            previous_hard_state = previous;
          }
            ∷ [];
      all_history =
          out.all_history
          ++ record {
            id = hash (text env ∷ text "state_change" ∷ text (state_name r) ∷ unix_milli ts ∷ []);
            meta = meta;
            state_history_id = id;
            event_time = ts;
          }
            ∷ [];
      sla =
          if str_eq typ "hard"
          then out.sla
            ++ record {
              id = id;
              meta = meta;
              event_time = ts;
              state_type = typ;
              hard_state = hard;
              previous_hard_state = previous;
            }
              ∷ []
          else out.sla;
    }

abbrev pub with_bound :
    Hash → String → StateRow → ℕ → ℕ → Option ℕ → Option String → StateStages → Option StateStages
with_bound hash env r time previous none typ out = none
with_bound hash env r time previous (some bound) none out = none
with_bound hash env r time previous (some bound) (some typ) out =
    some (add_state hash env r time bound typ previous out)

abbrev pub on_cached : Hash → String → StateRow → ℕ → Option ℕ → StateStages → Option StateStages
on_cached hash env r time none out = some out
on_cached hash env r time (some previous) out =
    with_bound hash env r time previous (state_upper_bound (object_type r.objecttype_id))
      (convert_state_type r.state_type) out

abbrev pub on_time :
    Hash → String → (ℕ → Option ℕ) → StateRow → Option ℕ → StateStages → Option StateStages
on_time hash env cached r none out = some out
on_time hash env cached r (some time) out = on_cached hash env r time (cached r.id) out

abbrev pub on_row : Hash → String → (ℕ → Option ℕ) → StateRow → StateStages → Option StateStages
on_row hash env cached r out =
    on_time hash env cached r r.state_time (record out { checkpoint = some r.id })

unfoldable pub convert_rows :
    Hash → String → (ℕ → Option ℕ) → List StateRow → StateStages → Option StateStages
convert_rows hash env cached [] out = some out
convert_rows hash env cached (r ∷ rs) out = elim (on_row hash env cached r out) [
  | none ↦ none
  | some out' ↦ convert_rows hash env cached rs out'
]

abbrev pub no_stages : StateStages
no_stages = record { state_history = []; all_history = []; sla = []; checkpoint = none }

abbrev pub last_id : StateRow → List StateRow → ℕ
last_id r [] = r.id
last_id r (r' ∷ rs) = last_id r' rs

unfoldable pub convert_state_rows :
    Hash → String → (ℕ → ℕ → List (ℕ × ℕ)) → List StateRow → Option StateStages
unfolding convert_rows
convert_state_rows hash env select_cache [] = some no_stages
convert_state_rows hash env select_cache (r ∷ rs) =
    convert_rows hash env (cached_by_id (select_cache r.id (last_id r rs))) (r ∷ rs) no_stages
