-- ===== src/Notifications/Incidents/Tests.antt =====
-- A host whose state is in an incident already, one that has changed, and a pending service.
use icingadb.Prelude.{String, str_append, ℕ, List, [], ◌∷◌, true, false, none, some, ◌≡◌, refl}
use icingadb.Notifications.Events.{
  State, Entity, host_state, service_state, severity_crit, severity_ok, state_to_severity,
}
use icingadb.Notifications.Events.SameState.{have_same_state, same_as}
use icingadb.Notifications.Incidents.{
  OpenIncident, Incidents, Packing, host_states, submit_changed, apply_delta, retrieve,
  obsolete_tags,
}
use icingadb.Notifications.Incidents.Comparing.{
  any, is_incomparable, unsettled, submit_changed-failed, submit_changed-unsettled,
}

abbrev state : ℕ → State
state n = record {
  environment_id = "e";
  hard_state = n;
  previous_hard_state = 0;
  state_type = "hard";
  output = none;
  long_output = none;
  in_downtime = none;
  is_acknowledged = none;
  is_flapping = none;
}

abbrev host_down : OpenIncident
host_down = record {
  state = record { severity = severity_crit; is_muted = false };
  object_tags = ("host", "a") ∷ [];
}

abbrev gone : OpenIncident
gone = record {
  state = record { severity = severity_ok; is_muted = true };
  object_tags = ("host", "b") ∷ [];
}

abbrev incidents : Incidents
incidents = ("e a", host_down) ∷ ("e b", gone) ∷ []

abbrev pending : List (String × Entity)
pending = ("e a", host_state (state 1)) ∷ ("e b", service_state (state 99)) ∷ []

abbrev known : List (String × Entity)
known = ("e a", host_state (state 1)) ∷ ("e b", host_state (state 1)) ∷ []

submit_changed-failed_example :
    (submit_changed incidents pending).failed ≡ any (is_incomparable incidents) pending
submit_changed-failed_example = submit_changed-failed incidents pending

pending_fails : (submit_changed incidents pending).failed ≡ true
unfolding submit_changed have_same_state same_as state_to_severity
pending_fails = refl

submit_changed-unsettled_example :
    (submit_changed incidents known).submitted ≡ unsettled incidents known
unfolding submit_changed have_same_state same_as state_to_severity
submit_changed-unsettled_example = submit_changed-unsettled incidents known refl

abbrev packing : Packing
packing = record {
  pack = λ tags. elim tags [
    | [] ↦ ("", false)
    | env ∷ [] ↦ (env, true)
    | env ∷ name ∷ _ ↦ (str_append env (str_append " " name), true)
  ];
  digest = λ t. t;
}

-- The incident of a host that is not in Redis is closed, and the one of the same state is left alone.
applies :
    apply_delta packing "e" none
      (host_down ∷ gone ∷ [])
      (record { subject = host_states; delete = []; redis_snapshot = "e a" ∷ [] })
      (("e a", host_state (state 1)) ∷ [])
      false
    ≡ record {
      incidents = some incidents;
      submitted = [];
      closed = gone.object_tags ∷ [];
      failed = false;
    }
unfolding apply_delta retrieve submit_changed obsolete_tags have_same_state same_as
    state_to_severity
applies = refl
