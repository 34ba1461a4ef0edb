-- ===== src/Notifications/CheckOutputs/Tests.antt =====
-- The examples of the check outputs.
use icingadb.Prelude.{ℕ, [], ◌∷◌, true, false, some, ◌≡◌, refl, arith}
use icingadb.Notifications.Events.{severity_crit}
use icingadb.Notifications.Incidents.{OpenIncident}
use icingadb.Notifications.CheckOutputs.{CheckState, Request, Round, sync_check_outputs}
use icingadb.Notifications.CheckOutputs.Requests.{requests_for}
use icingadb.Notifications.CheckOutputs.Asked.{Asks}
use icingadb.Notifications.CheckOutputs.Once.{sync-once}

abbrev state : CheckState
state = record { output = some "down"; long_output = some "since noon"; last_update = 105 }

abbrev host_down : OpenIncident
host_down = record {
  state = record { severity = severity_crit; is_muted = false };
  object_tags = ("host", "a") ∷ [];
}

abbrev round_at : ℕ → Round
round_at t = record {
  tick = t;
  incidents = ("1", host_down) ∷ [];
  host_states = ("1", state) ∷ [];
  service_states = [];
  schedule = true ∷ [];
}

sync-once_example :
    (q : Request) × Asks "1" state host_down.object_tags q
    × (requests_for "1" (sync_check_outputs 100 (round_at 110 ∷ round_at 120 ∷ [])) ≡ q ∷ [])
sync-once_example =
    sync-once "1" 100 (round_at 110) (round_at 120 ∷ []) state host_down refl
      (record { as_host = refl; as_service = refl })
      (record { has_output = refl; updated = omega arith }) (omega arith, tt)
      (((omega arith, tt), tt), tt)
