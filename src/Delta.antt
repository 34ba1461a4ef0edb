-- ===== src/Delta.antt =====
-- The delta of actual and desired entities: pkg/icingadb/delta.go.
--
-- A schedule is the list of what the `select` of `run` receives, in order: the interleaving of the
-- two channels and the cancellation of the context are the scheduler's choice. Go maps are
-- functions from the key; an entity is anything with the interfaces that the code asks for.
pub mod Spec
mod Schedule
pub mod Invariant
pub mod Result
mod Tests
use icingadb.Prelude.{
  String, List, [], ◌∷◌, Option, none, some, Bool, true, false, ◌||◌, str_eq, if◌then◌else◌,
}
use icingadb.Prelude.Maps.{StringMap, empty_map, insert, delete}

-- `database.Entity` with the optional interfaces `contracts.Checksumer` and `contracts.Equaler`: a
-- failed type assertion is `none`.
pub record Entity (E : Type 0) : Type 0 where
  pub id : E → String
  pub checksum : E → Option String
  pub equal : E → Option (E → Bool)

-- What `run` asks of its `common.SyncSubject`.
pub record SyncSubject : Type 0 where
  pub entity_equaler : Bool
  pub with_checksum : Bool

-- `Delta`'s published fields. A nil `Update` is `none`.
pub record Delta (E : Type 0) : Type 0 where
  pub redis_snapshot : StringMap (Unit {0})
  pub create : StringMap E
  pub update : Option (StringMap E)
  pub remove : StringMap E

-- The local variables of `run`; `actual_open` is `actualCh != nil`.
pub record Run (E : Type 0) : Type 0 where
  pub actual : StringMap E
  pub desired : StringMap E
  pub update : Option (StringMap E)
  pub redis_snapshot : StringMap (Unit {0})
  pub actual_open : Bool
  pub desired_open : Bool

-- What the `select` receives: a value, the end of a channel, or `ctx.Done()`.
pub data Recv (E : Type 0) : Type 0 where
  recv_actual : E → Recv E
  recv_desired : E → Recv E
  end_actual : Recv E
  end_desired : Recv E
  ctx_done : Recv E

-- Where `run` stands: `waiting` is the loop, `finished` its normal end, `cancelled` the return with
-- `ctx.Err()`, `panicked` the panic of `entitiesEqual`.
pub data Outcome (E : Type 0) : Type 0 where
  waiting : Run E → Outcome E
  finished : Delta E → Outcome E
  cancelled : Outcome E
  panicked : Outcome E

module _ {E : Type 0} ⦃k : Entity E⦄ where
  equal_by_interface : E → E → Option Bool
  equal_by_interface a b = elim (k.equal a) [ none ↦ none | some eq ↦ some (eq b) ]

  -- `none` is the panic.
  unfoldable pub entities_equal : E → E → Option Bool
  unfolding equal_by_interface
  entities_equal a b = elim (k.checksum a) [
    | none ↦ equal_by_interface a b
    | some ca ↦ elim (k.checksum b) [
      | none ↦ equal_by_interface a b
      | some cb ↦ some (str_eq ca cb)
    ]
  ]

  unfoldable pub start : SyncSubject → Run E
  start subject = record {
    actual = empty_map;
    desired = empty_map;
    update = if subject.entity_equaler || subject.with_checksum then some empty_map else none;
    redis_snapshot = empty_map;
    actual_open = true;
    desired_open = true;
  }

  -- `if update != nil && !entitiesEqual(actual, desired) { update[id] = desired }`; `none` is the
  -- panic.
  unfoldable pub note_update : E → E → Option (StringMap E) → Option (Option (StringMap E))
  note_update a d none = some none
  note_update a d (some u) = elim (entities_equal a d) [
    | none ↦ none
    | some same ↦ some (some (if same then u else insert (k.id d) d u))
  ]

  -- A pair is complete: the loop goes on with the new `update`, unless the comparison panicked.
  paired : Run E → Option (Option (StringMap E)) → Outcome E
  paired s none = panicked
  paired s (some u) = waiting (record s { update = u })

  -- `case actualValue, ok := <-actualCh`
  unfoldable pub on_actual : Run E → E → Outcome E
  unfolding paired note_update
  on_actual s a = elim (s.desired (k.id a)) [
    | some d ↦ paired (record s { desired = delete (k.id a) s.desired }) (note_update a d s.update)
    | none ↦ waiting (record s { actual = insert (k.id a) a s.actual })
  ]

  -- `case desiredValue, ok := <-desiredCh`
  desired_known : Run E → E → Outcome E
  unfolding paired note_update
  desired_known s d = elim (s.actual (k.id d)) [
    | some a ↦ paired (record s { actual = delete (k.id d) s.actual }) (note_update a d s.update)
    | none ↦ waiting (record s { desired = insert (k.id d) d s.desired })
  ]

  unfoldable pub on_desired : Run E → E → Outcome E
  unfolding desired_known
  on_desired s d =
      desired_known (record s { redis_snapshot = insert (k.id d) tt s.redis_snapshot }) d

  -- `for actualCh != nil || desiredCh != nil`: past the loop the result is published.
  loop_test : Run E → Outcome E
  loop_test s =
      if s.actual_open || s.desired_open
      then waiting s
      else finished (record {
        redis_snapshot = s.redis_snapshot;
        create = s.desired;
        update = s.update;
        remove = s.actual;
      })

  -- A nil channel is never ready, so a receive from one does not happen.
  unfoldable pub step : Run E → Recv E → Outcome E
  unfolding on_actual on_desired loop_test
  step s (recv_actual a) = if s.actual_open then on_actual s a else waiting s
  step s (recv_desired d) = if s.desired_open then on_desired s d else waiting s
  step s end_actual = loop_test (record s { actual_open = false })
  step s end_desired = loop_test (record s { desired_open = false })
  step s ctx_done = cancelled

  -- The loop over a schedule; nothing is received once it has ended.
  unfoldable pub loop : Outcome E → List (Recv E) → Outcome E
  loop o [] = o
  loop (waiting s) (r ∷ rs) = loop (step s r) rs
  loop o (r ∷ rs) = o

  unfoldable pub run : SyncSubject → List (Recv E) → Outcome E
  unfolding loop start
  run subject rs = loop (waiting (start subject)) rs
