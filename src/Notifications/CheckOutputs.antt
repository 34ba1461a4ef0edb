-- ===== src/Notifications/CheckOutputs.antt =====
-- The check outputs of open incidents: `SyncCheckOutputs` in pkg/notifications/notifications.go.
--
-- A round has what its tick, its incidents, and the visitor of each of its two streams get: the IDs and states
-- in the order in which Redis yields them, which ends early where a stream fails, as the error is ignored.
-- `ModifyIncidents` is called until it succeeds. `none` is an output that is not valid, or a zero long one.
pub mod Requests
pub mod Asked
pub mod Once
mod Tests
use icingadb.Prelude.{
  ℕ, String, str_append, List, [], ◌∷◌, ◌++◌, Bool, true, false, Option, none, some, if◌then◌else◌,
  ltb, is_some,
}
use icingadb.Prelude.Interleavings.{interleave}
use icingadb.Notifications.Incidents.{Tags, OpenIncident, Incidents, assoc}

-- What `modify` uses of a `v1.State`.
pub record CheckState : Type 0 where
  pub output : Option String
  pub long_output : Option String
  pub last_update : ℕ

-- A call of `ModifyIncidents`, with the ID of the object that it is made for.
pub record Request : Type 0 where
  pub object : String
  pub message : String
  pub filter : List (String × Option String)

abbrev pub message_of : String → Option String → String
message_of output none = output
message_of output (some long) = str_append output (str_append "\n" long)

abbrev pub all_tags : Tags → List (String × Option String)
all_tags [] = []
all_tags ((k, v) ∷ tags) = (k, some v) ∷ all_tags tags

-- Without a tag for a service, only the host itself is matched.
abbrev pub filter_of : Tags → List (String × Option String)
filter_of tags =
    if is_some (assoc "service" tags) then all_tags tags else ("service", none) ∷ all_tags tags

abbrev pub modify_output : ℕ → String → Tags → CheckState → Option String → List Request
modify_output last_sync id tags s none = []
modify_output last_sync id tags s (some output) =
    if ltb s.last_update last_sync
    then []
    else record { object = id; message = message_of output s.long_output; filter = filter_of tags }
      ∷ []

unfoldable pub modify : ℕ → String → Tags → CheckState → List Request
modify last_sync id tags s = modify_output last_sync id tags s s.output

-- A key that is missing yields an incident without tags.
abbrev pub tags_of : Option OpenIncident → Tags
tags_of none = []
tags_of (some i) = i.object_tags

unfoldable pub visit : ℕ → Incidents → List (String × CheckState) → List Request
unfolding modify
visit last_sync m [] = []
visit last_sync m ((id, s) ∷ states) =
    modify last_sync id (tags_of (assoc id m)) s ++ visit last_sync m states

abbrev pub host_incidents : Incidents → Incidents
host_incidents [] = []
host_incidents ((id, i) ∷ m) =
    let rest = host_incidents m in
    if is_some (assoc "service" i.object_tags) then rest else (id, i) ∷ rest

abbrev pub service_incidents : Incidents → Incidents
service_incidents [] = []
service_incidents ((id, i) ∷ m) =
    let rest = service_incidents m in
    if is_some (assoc "service" i.object_tags) then (id, i) ∷ rest else rest

pub record Round : Type 0 where
  pub tick : ℕ
  pub incidents : Incidents
  pub host_states : List (String × CheckState)
  pub service_states : List (String × CheckState)
  pub schedule : List Bool

-- Nothing is streamed where there are no incidents.
abbrev pub seen : Incidents → List (String × CheckState) → List (String × CheckState)
seen [] states = []
seen (i ∷ m) states = states

abbrev pub seen_hosts : Round → List (String × CheckState)
seen_hosts r = seen (host_incidents r.incidents) r.host_states

abbrev pub seen_services : Round → List (String × CheckState)
seen_services r = seen (service_incidents r.incidents) r.service_states

unfoldable pub on_tick : ℕ → Round → List Request
unfolding visit
on_tick last_sync r =
    interleave r.schedule (visit last_sync (host_incidents r.incidents) (seen_hosts r))
      (visit last_sync (service_incidents r.incidents) (seen_services r))

unfoldable pub sync_check_outputs : ℕ → List Round → List Request
unfolding on_tick
sync_check_outputs last_sync [] = []
sync_check_outputs last_sync (r ∷ rs) = on_tick last_sync r ++ sync_check_outputs r.tick rs
