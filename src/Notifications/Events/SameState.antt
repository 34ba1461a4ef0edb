-- ===== src/Notifications/Events/SameState.antt =====
-- Whether an incident has the state of an entity: `HaveSameState` in pkg/notifications/notifications.go.
use icingadb.Prelude.{Bool, true, false, not, ◌&&◌, Option, none, some}
use icingadb.Notifications.Events.{
  State, Severity, severity_none, severity_ok, severity_warning, severity_crit, severity_err,
  state_to_severity, state_muted, Entity, host_state, service_state,
}

-- The fields of `source.Incident` that are compared.
pub record Incident : Type 0 where
  pub severity : Severity
  pub is_muted : Bool

abbrev pub same_severity : Severity → Severity → Bool
same_severity severity_none severity_none = true
same_severity severity_ok severity_ok = true
same_severity severity_warning severity_warning = true
same_severity severity_crit severity_crit = true
same_severity severity_err severity_err = true
same_severity _ _ = false

abbrev pub same_bool : Bool → Bool → Bool
same_bool true b = b
same_bool false b = not b

unfoldable pub same_as : Incident → State → Option Severity → Option Bool
same_as i s none = none
same_as i s (some sev) = some (same_severity i.severity sev && same_bool i.is_muted (state_muted s))

-- `HaveSameState`: `none` is an error.
unfoldable pub have_same_state : Incident → Entity → Option Bool
unfolding same_as
have_same_state i (host_state s) = same_as i s (state_to_severity s.hard_state false)
have_same_state i (service_state s) = same_as i s (state_to_severity s.hard_state true)
have_same_state i _ = none
