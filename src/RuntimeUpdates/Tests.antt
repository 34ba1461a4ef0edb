-- ===== src/RuntimeUpdates/Tests.antt =====
-- A host that is created and deleted.
use icingadb.Prelude.{
  ℕ, String, List, [], ◌∷◌, true, false, Option, none, some, if◌then◌else◌, ◌≡◌, refl,
}
use icingadb.Prelude.Maps.{StringMap, empty_map, insert}
use icingadb.RuntimeUpdates.{
  Message, Row, Table, Lane, Updates, Event, read_message, execute_upsert, execute_delete, Outcome,
  running, step, run,
}
use icingadb.RuntimeUpdates.Lanes.{apply_all, without_latest}
use icingadb.RuntimeUpdates.InOrder.{routed, new_updates}
use icingadb.RuntimeUpdates.Order.{run-in_order}

abbrev structify : String → ℕ → Option (Row ℕ)
structify k n = some (record { id = "a"; entity = n })

abbrev message_of : String → ℕ → Message ℕ
message_of t n = record {
  id = t;
  redis_key = some "icinga:host";
  runtime_type = some t;
  values = n;
}

abbrev init : StringMap (Table ℕ)
init = insert "icinga:host" empty_map empty_map

abbrev created : Event ℕ
created = read_message (message_of "upsert" 1)

abbrev deleted : Event ℕ
deleted = read_message (message_of "delete" 2)

abbrev schedule : List (Event ℕ)
schedule = created ∷ execute_upsert "icinga:host" ∷ deleted ∷ []

abbrev state_of : Outcome ℕ ℕ → Updates ℕ ℕ
state_of (running s) = s
state_of _ = new_updates structify init

abbrev final : Updates ℕ ℕ
final = state_of (run false structify schedule (new_updates structify init))

abbrev no_lane : Lane ℕ
no_lane = record { upserts = []; deletes = []; waiting = false; dispatched = []; table = empty_map }

abbrev host_lane : Lane ℕ
host_lane = elim (final.lanes "icinga:host") [ none ↦ no_lane | some l ↦ l ]

final_reached : run false structify schedule (new_updates structify init) ≡ running final
unfolding run step
final_reached = refl

host_there : final.lanes "icinga:host" ≡ some host_lane
unfolding run step
host_there = refl

run-in_order_example :
    (t : Table ℕ) × (init "icinga:host" ≡ some t)
    × (host_lane.table
        ≡ apply_all t (
            if host_lane.waiting
            then without_latest (routed structify "icinga:host" final.read)
            else routed structify "icinga:host" final.read))
run-in_order_example =
    run-in_order structify init schedule final final_reached "icinga:host" host_lane host_there

deletion_waits : host_lane.waiting ≡ true
unfolding run step
deletion_waits = refl

abbrev entity_of : Outcome ℕ ℕ → Option ℕ
entity_of (running s) = elim (s.lanes "icinga:host") [ none ↦ none | some l ↦ l.table "a" ]
entity_of _ = none

-- In parallel, the deletion may come first, and the host stays.
parallel_reorders :
    entity_of (
      run true structify
        (created ∷ deleted ∷ execute_delete "icinga:host" ∷ execute_upsert "icinga:host" ∷ [])
        (new_updates structify init))
    ≡ some 1
unfolding run step
parallel_reorders = refl
