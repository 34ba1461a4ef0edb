-- ===== src/Notifications/Events/Tests.antt =====
-- A service in downtime that turns OK without a change of its hard state.
use icingadb.Prelude.{
  String, [], ◌∷◌, Bool, true, false, not, ◌&&◌, ◌||◌, ◌==◌, str_eq, is_some, none, some, ◌≡◌, refl,
  sym, ap, ◌∙◌,
}
use icingadb.Notifications.Relations.{IcingaObject, Relations, done}
use icingadb.Notifications.Relations.Cases.{first}
use icingadb.Notifications.Events.{
  State, Event, Library, built, severity_ok, submit_plan, submit_state, can_ignore_state_update,
  plan_of, build_state_event, build_common_event, state_to_severity, muted_reason, is_volatile_of,
  sends, service_state,
}
use icingadb.Notifications.Events.SameState.{Incident, have_same_state}
use icingadb.Notifications.Events.Sending.{state_entity, event_of}
use icingadb.Notifications.Events.Submission.{submit_plan-same_state, submit_plan-Answers, Answers}
use icingadb.Notifications.Events.Regarded.{is_sent, IsValidOf, submit_plan-is_sent}

abbrev lib : Library
lib = record {
  raw_url_encode = λ s. s;
  is_muted = λ b. elim b [ none ↦ false | some b ↦ b ];
  validate = λ e. not (str_eq e.name "");
  is_muted_some = λ b. refl;
}

abbrev state : State
state = record {
  environment_id = "e";
  hard_state = 0;
  previous_hard_state = 0;
  state_type = "hard";
  output = some "OK";
  long_output = none;
  in_downtime = some true;
  is_acknowledged = none;
  is_flapping = some false;
}

abbrev object : String → IcingaObject
object n = record { name = n; display_name = n; vars = none; is_volatile = false }

abbrev relations : Relations
relations = record {
  host_id = 1;
  service_id = some 2;
  complete_relations = [];
  object_type = "service";
  host = some (object "db1");
  services = object "disk" ∷ [];
  hostgroups = [];
  servicegroups = [];
}

abbrev event : Event
event = record {
  id = "db1: disk!5";
  name = "db1: disk";
  url = "/icingadb/service?name=disk&host.name=db1";
  tags = ("environment", "e") ∷ ("host", "db1") ∷ ("service", "disk") ∷ [];
  message = "OK";
  severity = severity_ok;
  muted = some true;
  muted_reason = "Checkable is muted due to currently active downtime.";
  incident = some true;
  close = none;
  notify = some true;
}

event_sent : submit_plan lib "5" (service_state state) (done relations) ≡ sends event
unfolding submit_plan submit_state can_ignore_state_update plan_of build_state_event
    build_common_event state_to_severity muted_reason
event_sent = refl

abbrev incident : Incident
incident = record { severity = severity_ok; is_muted = true }

submit_plan-same_state_example : have_same_state incident (service_state state) ≡ some true
submit_plan-same_state_example =
    submit_plan-same_state lib "5" (service_state state) (done relations) event incident event_sent
      refl refl

submit_plan-Answers_example :
    (s : State) × (b : Bool) × (service_state state ≡ state_entity b s) × Answers s b event
submit_plan-Answers_example =
    submit_plan-Answers lib "5" (service_state state) (done relations) event event_sent

event_built : build_state_event lib "5" state true (done relations) ≡ built event
unfolding build_state_event build_common_event state_to_severity muted_reason
event_built = refl

event-IsValidOf : IsValidOf lib (build_state_event lib "5" state true (done relations))
event-IsValidOf ev h = ap (λ b. lib.validate (event_of event b)) (sym h ∙ event_built)

submit_plan-is_sent_example :
    is_sent (submit_plan lib "5" (service_state state) (done relations))
    ≡ not (state.hard_state == 99 || (state.hard_state == 0 && state.previous_hard_state == 99))
      && ((str_eq state.state_type "hard"
            || is_volatile_of true relations.host (first relations.services))
          && is_some (state_to_severity state.hard_state true))
submit_plan-is_sent_example =
    submit_plan-is_sent lib "5" state true relations event-IsValidOf refl (λ e. refl)
