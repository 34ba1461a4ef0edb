-- ===== src/Notifications/Events.antt =====
-- The events that are sent to Icinga Notifications: pkg/notifications/notifications.go.
--
-- The operations of other libraries are the record `Library`; `now` is the text of `time.Now`'s
-- milliseconds. An invalid `types.Bool` or `types.String` is `none`.
pub mod Sending
pub mod SameState
pub mod Submission
pub mod Regarded
mod Tests
use icingadb.Prelude.{
  ℕ, String, str_append, str_eq, List, [], ◌∷◌, Bool, true, false, not, ◌&&◌, ◌||◌, Option, none,
  some, if◌then◌else◌, ◌==◌, ◌≡◌, is_some,
}
use icingadb.Notifications.Relations.{IcingaObject, Relations, Provided, done, failed, panicked}
use icingadb.Notifications.Relations.Cases.{first}

-- What is read of a `v1.State`.
pub record State : Type 0 where
  pub environment_id : String
  pub hard_state : ℕ
  pub previous_hard_state : ℕ
  pub state_type : String
  pub output : Option String
  pub long_output : Option String
  pub in_downtime : Option Bool
  pub is_acknowledged : Option Bool
  pub is_flapping : Option Bool

-- The values of `event.Severity` that are used.
pub data Severity : Type 0 where
  severity_none severity_ok severity_warning severity_crit severity_err : Severity

pub record Event : Type 0 where
  pub id : String
  pub name : String
  pub url : String
  pub tags : List (String × String)
  pub message : String
  pub severity : Severity
  pub muted : Option Bool
  pub muted_reason : String
  pub incident : Option Bool
  pub close : Option Bool
  pub notify : Option Bool

-- `utils.RawUrlEncode`, `Event.IsMuted` of the field `Muted`, and whether `Event.Validate` succeeds.
pub record Library : Type 0 where
  pub raw_url_encode : String → String
  pub is_muted : Option Bool → Bool
  pub validate : Event → Bool
  pub is_muted_some : (b : Bool) → is_muted (some b) ≡ b

-- A valid and true `types.Bool`.
abbrev pub is_true : Option Bool → Bool
is_true none = false
is_true (some b) = b

infixr 65 ◌+++◌
abbrev pub ◌+++◌ : String → String → String
s +++ t = str_append s t

abbrev new_event : String → String → String → List (String × String) → Event
new_event id name url tags = record {
  id = id;
  name = name;
  url = url;
  tags = tags;
  message = "";
  severity = severity_none;
  muted = none;
  muted_reason = "";
  incident = none;
  close = none;
  notify = none;
}

abbrev host_event : Library → String → IcingaObject → Event
host_event lib now h =
    new_event (h.display_name +++ "!" +++ now) h.display_name
      ("/icingadb/host?name=" +++ lib.raw_url_encode h.name) (("host", h.name) ∷ [])

abbrev service_event : Library → String → IcingaObject → IcingaObject → Event
service_event lib now h s =
    let name = h.display_name +++ ": " +++ s.display_name in
    new_event (name +++ "!" +++ now) name
      ("/icingadb/service?name="
        +++ lib.raw_url_encode s.name
        +++ "&host.name="
        +++ lib.raw_url_encode h.name)
      (("host", h.name) ∷ ("service", s.name) ∷ [])

-- `buildCommonEvent` on the relations: `none` is an error.
unfoldable pub build_common_event :
    Library → String → Bool → Option IcingaObject → Option IcingaObject → Option Event
build_common_event lib now is_service none s = none
build_common_event lib now false (some h) s = some (host_event lib now h)
build_common_event lib now true (some h) none = none
build_common_event lib now true (some h) (some s) = some (service_event lib now h s)

-- `StateToSeverity`
unfoldable pub state_to_severity : ℕ → Bool → Option Severity
state_to_severity hard true =
    if hard == 0
    then some severity_ok
    else if hard == 1
    then some severity_warning
    else if hard == 2
    then some severity_crit
    else if hard == 3
    then some severity_err
    else none
state_to_severity hard false =
    if hard == 0 then some severity_ok else if hard == 1 then some severity_crit else none

abbrev pub is_ok : Severity → Bool
is_ok severity_ok = true
is_ok _ = false

abbrev pub state_muted : State → Bool
state_muted s = is_true s.in_downtime || (is_true s.is_acknowledged || is_true s.is_flapping)

unfoldable pub muted_reason : Bool → Bool → Bool → String
muted_reason in_downtime is_acked is_flapping =
    "Checkable is muted due to"
    +++ (if in_downtime then " currently active downtime" else "")
    +++ (if is_acked && in_downtime
        then ", and an acknowledgement"
        else if is_acked
        then " an acknowledgement"
        else "")
    +++ (if is_flapping && (in_downtime || is_acked)
        then ", and flapping as well"
        else if is_flapping
        then " flapping state"
        else "")
    +++ "."

abbrev state_message : State → String
state_message s =
    elim (s.output) [ none ↦ "" | some t ↦ t ]
    +++ elim (s.long_output) [ none ↦ "" | some t ↦ "\n" +++ t ]

-- What `buildStateEvent` sets once the severity is known.
abbrev pub with_state : Library → State → Severity → Event → Event
with_state lib s sev ev =
    let muted = lib.is_muted (some (state_muted s)) in
    let closes = is_ok sev && not muted in
    record ev {
      tags = ("environment", s.environment_id) ∷ ev.tags;
      message = state_message s;
      severity = sev;
      muted = some (state_muted s);
      muted_reason =
          if muted
          then muted_reason (is_true s.in_downtime) (is_true s.is_acknowledged)
              (is_true s.is_flapping)
          else "Checkable is not muted (no active downtime, no acknowledgement, and not flapping)";
      incident = some true;
      close = if closes then some true else ev.close;
      notify =
          if closes
          then ev.notify
          else if s.previous_hard_state == s.hard_state
          then some true
          else ev.notify;
    }

-- How the building of an event ends: `skipped` is `errNonVolatileNonHardState`.
pub data Built : Type 0 where
  built : Event → Built
  skipped : Built
  not_built : Built
  build_panicked : Built

abbrev pub is_volatile_of : Bool → Option IcingaObject → Option IcingaObject → Bool
is_volatile_of true h (some s) = s.is_volatile
is_volatile_of true h none = false
is_volatile_of false (some h) s = h.is_volatile
is_volatile_of false none s = false

abbrev with_severity : Library → State → Event → Option Severity → Built
with_severity lib s ev none = not_built
with_severity lib s ev (some sev) = built (with_state lib s sev ev)

abbrev with_event : Library → State → Bool → Bool → Option Event → Built
with_event lib s is_service is_volatile none = not_built
with_event lib s is_service is_volatile (some ev) =
    if not (str_eq s.state_type "hard") && not is_volatile
    then skipped
    else with_severity lib s ev (state_to_severity s.hard_state is_service)

-- `buildStateEvent`, on what `fetchHostServiceData` yields.
unfoldable pub build_state_event : Library → String → State → Bool → Provided → Built
unfolding build_common_event
build_state_event lib now s is_service (done rel) =
    with_event lib s is_service (is_volatile_of is_service rel.host (first rel.services))
      (build_common_event lib now is_service rel.host (first rel.services))
build_state_event lib now s is_service (failed rel) = not_built
build_state_event lib now s is_service panicked = build_panicked

-- The entities that `Submit` tells apart.
pub data Entity : Type 0 where
  acknowledgement_history downtime_history_meta flapping_history : Entity
  host_state : State → Entity
  service_state : State → Entity
  dependency_edge_state redundancygroup_state unsupported : Entity

-- What `Submit` does before it sends: nothing, panic, or send an event.
pub data Plan : Type 0 where
  ignored : Plan
  submit_panicked : Plan
  sends : Event → Plan

unfoldable pub can_ignore_state_update : State → Bool
can_ignore_state_update s = s.hard_state == 99 || (s.hard_state == 0 && s.previous_hard_state == 99)

unfoldable pub plan_of : Library → Built → Plan
plan_of lib (built ev) = if lib.validate ev then sends ev else ignored
plan_of lib skipped = ignored
plan_of lib not_built = ignored
plan_of lib build_panicked = submit_panicked

unfoldable pub submit_state : Library → String → State → Bool → Provided → Plan
unfolding can_ignore_state_update plan_of
submit_state lib now s is_service fetched =
    if can_ignore_state_update s
    then ignored
    else plan_of lib (build_state_event lib now s is_service fetched)

-- `Submit` up to the request. The deferred functions of the three builders for history panic
-- whatever the builders do.
unfoldable pub submit_plan : Library → String → Entity → Provided → Plan
unfolding submit_state
submit_plan lib now acknowledgement_history fetched = submit_panicked
submit_plan lib now downtime_history_meta fetched = submit_panicked
submit_plan lib now flapping_history fetched = submit_panicked
submit_plan lib now (host_state s) fetched = submit_state lib now s false fetched
submit_plan lib now (service_state s) fetched = submit_state lib now s true fetched
submit_plan lib now dependency_edge_state fetched = ignored
submit_plan lib now redundancygroup_state fetched = ignored
submit_plan lib now unsupported fetched = ignored
