-- ===== src/ConfigSync.antt =====
-- The synchronisation of the configuration: `Sync` and `ApplyDelta` in pkg/icingadb/sync.go, with `CreateEntities` and
-- `SetChecksums` in pkg/icingaredis/utils.go, for a subject with checksums or without.
--
-- A map's keys come in any order: the lists of keys are arguments. The table is the map from the ID to the row.
-- The schedules say in which order the goroutines' statements, a row at a time, reach the database, and `stops`
-- after how many of them the context, Redis, the database or the hook ended them. The entities come in the order of
-- the keys; in which order the workers pass them on is left to the order of the keys.
pub mod Prepared
pub mod Effects
pub mod Keyed
pub mod Rows
pub mod Right
pub mod Synced
pub mod Landed
pub mod Followed
mod Tests
use icingadb.Prelude.{
  ℕ, zero, suc, String, List, [], ◌∷◌, map, Bool, true, false, ◌&&◌, Option, none, some,
  if◌then◌else◌, is_some,
}
use icingadb.Prelude.Maps.{StringMap, insert, delete}
use icingadb.Prelude.Interleavings.{interleave}
use icingadb.Delta.{
  Entity, SyncSubject, Delta, Recv, Outcome, waiting, finished, cancelled, panicked, run,
}

-- What the operations on an entity are: those of its type, and its decoding from JSON; `none` is an error, and for
-- `set_checksum` that it is no `contracts.Checksumer`.
pub record Codec (E V : Type 0) : Type 0 where
  pub is_id : String → Bool
  pub unmarshal : V → Option E
  pub set_id : String → E → E
  pub set_checksum : String → E → Option E

pub data Statement (E : Type 0) : Type 0 where
  create : E → Statement E
  upsert : E → Statement E
  remove : String → Statement E

pub data Error : Type 0 where
  no_delta : Error
  group_failed : Error

-- What is outside: how the goroutines go, and in which order.
pub record Outside : Type 0 where
  pub stops : Option ℕ
  pub first : List Bool
  pub second : List Bool

module _ {E : Type 0} ⦃k : Entity E⦄ where
  -- A row that is there already.
  abbrev pub is_duplicate : Statement E → StringMap E → Bool
  is_duplicate (create e) table = is_some (table (k.id e))
  is_duplicate (upsert e) table = false
  is_duplicate (remove i) table = false

  abbrev pub execute : Statement E → StringMap E → StringMap E
  execute (create e) table = insert (k.id e) e table
  execute (upsert e) table = insert (k.id e) e table
  execute (remove i) table = delete i table

  abbrev pub perform : List (Statement E) → StringMap E → StringMap E × Bool
  perform [] table = (table, true)
  perform (s ∷ ss) table =
      let rest = perform ss (execute s table) in
      if is_duplicate s table then (table, false) else rest

  abbrev pub take : ℕ → List (Statement E) → List (Statement E)
  take zero ss = []
  take (suc n) [] = []
  take (suc n) (s ∷ ss) = s ∷ take n ss

  abbrev pub end_of : Bool → StringMap E × Bool → StringMap E × Option Error
  end_of true (table, true) = (table, none)
  end_of true (table, false) = (table, some group_failed)
  end_of false (table, done) = (table, some group_failed)

  abbrev pub wait : Option ℕ → Bool → List (Statement E) → StringMap E → StringMap E × Option Error
  wait (some n) ok ss table = end_of false (perform (take n ss) table)
  wait none ok ss table = end_of ok (perform ss table)

-- `delta.Update`, where nil has no keys.
abbrev pub updates_of : {E : Type 0} → Option (StringMap E) → StringMap E
updates_of none i = none
updates_of (some u) i = u i

-- `EntitiesById.Entities`
abbrev pub values : {E : Type 0} → StringMap E → List String → List E
values m [] = []
values m (i ∷ is) = let rest = values m is in elim (m i) [ none ↦ rest | some e ↦ e ∷ rest ]

-- `EntitiesById.IDs`
abbrev pub ids : {E : Type 0} ⦃k : Entity E⦄ → StringMap E → List String → List String
ids ⦃k⦄ m keys = map k.id (values m keys)

module _ {E V : Type 0} ⦃k : Entity E⦄ (codec : Codec E V) where
  abbrev pub with_id : String → Option E → Option E
  with_id i none = none
  with_id i (some e) = some (codec.set_id i e)

  -- `CreateEntities`, for one pair.
  abbrev pub create_entity : String → V → Option E
  create_entity i v = if codec.is_id i then with_id i (codec.unmarshal v) else none

  abbrev pub checksum_from : Option E → E → Option E
  checksum_from none e = none
  checksum_from (some d) e = elim (k.checksum d) [ none ↦ none | some c ↦ codec.set_checksum c e ]

  -- `SetChecksums`, for one entity.
  abbrev pub set_checksums : StringMap E → Option E → Option E
  set_checksums checksums none = none
  set_checksums checksums (some e) = checksum_from (checksums (k.id e)) e

  -- `HMYield` yields the pairs of the fields that are there.
  abbrev pub hm_yield : (String → Option V) → List String → List (String × V)
  hm_yield config [] = []
  hm_yield config (i ∷ is) =
      let rest = hm_yield config is in elim (config i) [ none ↦ rest | some v ↦ (i, v) ∷ rest ]

  abbrev pub next_entity : Option E → List E × Bool → List E × Bool
  next_entity none rest = ([], false)
  next_entity (some e) (es, ok) = (e ∷ es, ok)

  -- `SetChecksums` is only used for a subject with checksums.
  abbrev pub checked : Bool → StringMap E → Option E → Option E
  checked true checksums o = set_checksums checksums o
  checked false checksums o = o

  -- The entities up to the first error.
  abbrev pub entities : Bool → StringMap E → List (String × V) → List E × Bool
  entities with_checksum checksums [] = ([], true)
  entities with_checksum checksums ((i, v) ∷ pairs) =
      next_entity (checked with_checksum checksums (create_entity i v))
        (entities with_checksum checksums pairs)

  abbrev pub new_entities : Bool → (String → Option V) → StringMap E → List String → List E × Bool
  new_entities true config m keys = entities true m (hm_yield config keys)
  new_entities false config m keys = (values m keys, true)

  abbrev pub run_group :
      Outside
      → List E × Bool
      → List E × Bool
      → List String
      → StringMap E
      → StringMap E × Option Error
  run_group out (new, ok) (newer, ok') old table =
      wait out.stops (ok && ok')
        (interleave out.second
          (interleave out.first (map (λ (e : E). create e) new) (map (λ (e : E). upsert e) newer))
          (map (λ (i : String). remove i) old))
        table

  unfoldable pub apply_delta :
      Outside
      → SyncSubject
      → (String → Option V)
      → Delta E
      → List String
      → List String
      → List String
      → StringMap E
      → StringMap E × Option Error
  apply_delta out subject config δ create_keys update_keys delete_keys table =
      run_group out (new_entities subject.with_checksum config δ.create create_keys)
        (entities subject.with_checksum (updates_of δ.update) (hm_yield config update_keys))
        (ids δ.remove delete_keys) table

  -- `none` is that the delta is still waited for, or has panicked.
  abbrev pub when_done :
      Outside
      → SyncSubject
      → (String → Option V)
      → List String
      → List String
      → List String
      → StringMap E
      → Outcome E
      → Option (StringMap E × Option Error)
  unfolding apply_delta
  when_done out subject config create_keys update_keys delete_keys table (finished δ) =
      some (apply_delta out subject config δ create_keys update_keys delete_keys table)
  when_done out subject config create_keys update_keys delete_keys table cancelled =
      some (table, some no_delta)
  when_done out subject config create_keys update_keys delete_keys table panicked = none
  when_done out subject config create_keys update_keys delete_keys table (waiting r) = none

  -- `Sync`, where the schedule is what the delta receives from the table and from Redis.
  unfoldable pub sync :
      Outside
      → SyncSubject
      → List (Recv E)
      → (String → Option V)
      → List String
      → List String
      → List String
      → StringMap E
      → Option (StringMap E × Option Error)
  unfolding run
  sync out subject rs config create_keys update_keys delete_keys table =
      when_done out subject config create_keys update_keys delete_keys table (run subject rs)
