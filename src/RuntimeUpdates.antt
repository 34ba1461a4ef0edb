-- ===== src/RuntimeUpdates.antt =====
-- The runtime updates: pkg/icingadb/runtime_updates.go.
--
-- `structify` is the structifier of an object type with the test that its result is an entity. A
-- schedule is the list of what the goroutines do: `xRead` and `structifyStream` take one message and
-- dispatch it, and the two writers of the type execute what was dispatched, in its order each. `read`
-- and `dispatched` keep what was read and dispatched, the latest first.
pub mod Lanes
pub mod InOrder
pub mod Order
mod Tests
use icingadb.Prelude.{
  String, str_eq, List, [], ◌∷◌, ◌++◌, Bool, true, false, not, ◌&&◌, Option, none, some,
  if◌then◌else◌,
}
use icingadb.Prelude.Maps.{StringMap, insert, delete as delete_key}

-- What is read of a message: whether a value is no string, or is absent, is `none`.
pub record Message (V : Type 0) : Type 0 where
  pub id : String
  pub redis_key : Option String
  pub runtime_type : Option String
  pub values : V

pub record Row (E : Type 0) : Type 0 where
  pub id : String
  pub entity : E

pub data Op (E : Type 0) : Type 0 where
  upsert : Row E → Op E
  delete : String → Op E

-- A table of the database, by the rows' IDs.
abbrev pub Table : Type 0 → Type 0
Table E = StringMap E

-- The goroutines of one object type: the channels `upsertEntities` and `deleteIds`, whether
-- `structifyStream` waits for `serializerInCh`, and the table.
pub record Lane (E : Type 0) : Type 0 where
  pub upserts : List (Row E)
  pub deletes : List String
  pub waiting : Bool
  pub dispatched : List (Op E)
  pub table : Table E

pub record Updates (V E : Type 0) : Type 0 where
  pub lanes : StringMap (Lane E)
  pub read : List (Message V)
  pub acknowledged : List String
  pub failed : Bool

pub data Event (V : Type 0) : Type 0 where
  read_message : Message V → Event V
  execute_upsert : String → Event V
  execute_delete : String → Event V

pub data Outcome (V E : Type 0) : Type 0 where
  running : Updates V E → Outcome V E
  blocked : Outcome V E

module _ {E : Type 0} where
  abbrev pub apply : Op E → Table E → Table E
  apply (upsert r) t = insert r.id r.entity t
  apply (delete d) t = delete_key d t

  abbrev pub op_of : Option String → Row E → Option (Op E)
  op_of none r = none
  op_of (some t) r =
      if str_eq t "upsert"
      then some (upsert r)
      else if str_eq t "delete"
      then some (delete r.id)
      else none

  -- With parallel updates, `serializerInCh` is closed, and nothing is waited for.
  abbrev pub dispatch : Bool → Op E → Lane E → Lane E
  dispatch allow_parallel (upsert r) l = record l {
    upserts = l.upserts ++ r ∷ [];
    waiting = not allow_parallel;
    dispatched = upsert r ∷ l.dispatched;
  }
  dispatch allow_parallel (delete d) l = record l {
    deletes = l.deletes ++ d ∷ [];
    waiting = not allow_parallel;
    dispatched = delete d ∷ l.dispatched;
  }

  abbrev pub do_upsert : List (Row E) → Lane E → Option (Lane E)
  do_upsert [] l = none
  do_upsert (r ∷ rs) l =
      some (record l { upserts = rs; waiting = false; table = apply (upsert r) l.table })

  abbrev pub do_delete : List String → Lane E → Option (Lane E)
  do_delete [] l = none
  do_delete (d ∷ ds) l =
      some (record l { deletes = ds; waiting = false; table = apply (delete d) l.table })

  abbrev pub upsert_in : Option (Lane E) → Option (Lane E)
  upsert_in none = none
  upsert_in (some l) = do_upsert l.upserts l

  abbrev pub delete_in : Option (Lane E) → Option (Lane E)
  delete_in none = none
  delete_in (some l) = do_delete l.deletes l

module _ {V E : Type 0} where
  abbrev pub executed : String → Option (Lane E) → Updates V E → Outcome V E
  executed k none s = blocked
  executed k (some l) s = running (record s { lanes = insert k l s.lanes })

module _ {V E : Type 0} (structify : String → V → Option (Row E)) where
  -- What `structifyStream` makes of a message: an error is `none`.
  abbrev pub convert : String → Message V → Option (Op E)
  convert k m = elim (structify k m.values) [ none ↦ none | some r ↦ op_of m.runtime_type r ]

module _ {V E : Type 0} (allow_parallel : Bool) (structify : String → V → Option (Row E)) where
  abbrev pub on_op : String → Message V → Lane E → Option (Op E) → Updates V E → Updates V E
  on_op k m l none s = record s { acknowledged = m.id ∷ s.acknowledged; failed = true }
  on_op k m l (some op) s = record s {
    lanes = insert k (dispatch allow_parallel op l) s.lanes;
    read = m ∷ s.read;
    acknowledged = m.id ∷ s.acknowledged;
  }

  abbrev pub on_lane : String → Message V → Option (Lane E) → Updates V E → Outcome V E
  on_lane k m none s = running (record s { failed = true })
  on_lane k m (some l) s =
      if l.waiting then blocked else running (on_op k m l (convert structify k m) s)

  abbrev pub on_key : Message V → Option String → Updates V E → Outcome V E
  on_key m none s = running (record s { failed = true })
  on_key m (some k) s = on_lane k m (s.lanes k) s

  unfoldable pub step : Event V → Updates V E → Outcome V E
  step (read_message m) s = if s.failed then blocked else on_key m m.redis_key s
  step (execute_upsert k) s = executed k (upsert_in (s.lanes k)) s
  step (execute_delete k) s = executed k (delete_in (s.lanes k)) s

  unfoldable pub run : List (Event V) → Updates V E → Outcome V E
  unfolding step
  run [] s = running s
  run (e ∷ es) s = elim (step e s) [ running s' ↦ run es s' | blocked ↦ blocked ]
