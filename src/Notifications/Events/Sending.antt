-- ===== src/Notifications/Events/Sending.antt =====
-- Which event is sent, and the state that it stands for.
use icingadb.Prelude.{
  String, str_eq, Bool, true, false, not, ◌&&◌, Option, none, some, ◌≡◌, refl, sym, ap, ◌∙◌,
  Bool-cases, inl, inr,
}
use icingadb.Notifications.Relations.{IcingaObject, Provided, done, failed, panicked}
use icingadb.Notifications.Relations.Cases.{first}
use icingadb.Notifications.Events.{
  State, Severity, Event, Library, build_common_event, state_to_severity, with_state, Built, built,
  skipped, not_built, build_panicked, with_severity, with_event, build_state_event, Entity,
  acknowledgement_history, downtime_history_meta, flapping_history, host_state, service_state,
  dependency_edge_state, redundancygroup_state, unsupported, Plan, ignored, sends,
  can_ignore_state_update, plan_of, submit_state, submit_plan, is_true,
}

abbrev pub state_entity : Bool → State → Entity
state_entity false s = host_state s
state_entity true s = service_state s

-- The event that is sent, and the state it stands for.
pub record Sent (lib : Library) (entity : Entity) (ev : Event) : Type 0 where
  pub state : State
  pub is_service : Bool
  pub severity : Severity
  pub common : Event
  pub is_state : entity ≡ state_entity is_service state
  pub has_severity : state_to_severity state.hard_state is_service ≡ some severity
  pub is_event : ev ≡ with_state lib state severity common
  pub no_close : is_true common.close ≡ false
  pub no_notify : is_true common.notify ≡ false

-- The part of `Sent` that the building yields.
pub record Stated (lib : Library) (s : State) (is_service : Bool) (ev : Event) : Type 0 where
  pub severity : Severity
  pub common : Event
  pub has_severity : state_to_severity s.hard_state is_service ≡ some severity
  pub is_event : ev ≡ with_state lib s severity common
  pub no_close : is_true common.close ≡ false
  pub no_notify : is_true common.notify ≡ false

pub IsFresh : Option Event → Type 0
IsFresh o = (e : Event) → o ≡ some e → (is_true e.close ≡ false) × (is_true e.notify ≡ false)

pub build_common_event-IsFresh :
    (lib : Library) (now : String) (b : Bool) (h s : Option IcingaObject)
    → (e : Event) → build_common_event lib now b h s ≡ some e
    → (is_true e.close ≡ false) × (is_true e.notify ≡ false)
unfolding build_common_event
build_common_event-IsFresh lib now b none s e eq = cc
build_common_event-IsFresh lib now false (some h) s e eq = (
  ap (λ (o : Option Event). elim o [ none ↦ false | some e ↦ is_true e.close ]) (sym eq),
  ap (λ (o : Option Event). elim o [ none ↦ false | some e ↦ is_true e.notify ]) (sym eq),
)
build_common_event-IsFresh lib now true (some h) none e eq = cc
build_common_event-IsFresh lib now true (some h) (some s) e eq = (
  ap (λ (o : Option Event). elim o [ none ↦ false | some e ↦ is_true e.close ]) (sym eq),
  ap (λ (o : Option Event). elim o [ none ↦ false | some e ↦ is_true e.notify ]) (sym eq),
)

abbrev pub event_of : Event → Built → Event
event_of e (built e') = e'
event_of e _ = e

pub with_severity-Stated :
    (lib : Library) (s : State) (b : Bool) (e : Event) (o : Option Severity) (ev : Event)
    → state_to_severity s.hard_state b ≡ o
    → (is_true e.close ≡ false) × (is_true e.notify ≡ false)
    → with_severity lib s e o ≡ built ev
    → Stated lib s b ev
with_severity-Stated lib s b e none ev h fresh eq = cc
with_severity-Stated lib s b e (some sev) ev h fresh eq = record {
  severity = sev;
  common = e;
  has_severity = h;
  is_event = ap (event_of e) (sym eq);
  no_close = fresh.0;
  no_notify = fresh.1;
}

pub with_event-Stated :
    (lib : Library) (s : State) (b v : Bool) (o : Option Event) (ev : Event)
    → ((e : Event) → o ≡ some e → (is_true e.close ≡ false) × (is_true e.notify ≡ false))
    → with_event lib s b v o ≡ built ev
    → Stated lib s b ev
with_event-Stated lib s b v none ev fresh eq = cc
with_event-Stated lib s b v (some e) ev fresh eq =
    elim (Bool-cases (not (str_eq s.state_type "hard") && not v)) [
      | inl soft ↦ let same : with_event lib s b v (some e) ≡ skipped = rw soft refl in cc
      | inr hard ↦
          let same : with_event lib s b v (some e)
              ≡ with_severity lib s e (state_to_severity s.hard_state b) =
            rw hard refl in
          with_severity-Stated lib s b e _ ev refl (fresh e refl) (sym same ∙ eq)
    ]

pub build_state_event-Stated :
    (lib : Library) (now : String) (s : State) (b : Bool) (fetched : Provided) (ev : Event)
    → build_state_event lib now s b fetched ≡ built ev
    → Stated lib s b ev
unfolding build_state_event
build_state_event-Stated lib now s b (done rel) ev eq =
    with_event-Stated lib s b _ _ ev
      (build_common_event-IsFresh lib now b rel.host (first rel.services)) eq
build_state_event-Stated lib now s b (failed rel) ev eq = cc
build_state_event-Stated lib now s b panicked ev eq = cc

abbrev pub sent_of : Event → Plan → Event
sent_of e (sends e') = e'
sent_of e _ = e

pub plan_of-built :
    (lib : Library) (b : Built) (ev : Event) → plan_of lib b ≡ sends ev → b ≡ built ev
unfolding plan_of
plan_of-built lib (built e) ev eq = elim (Bool-cases (lib.validate e)) [
  | inl valid ↦
      let same : plan_of lib (built e) ≡ sends e = rw valid refl in
      ap (λ p. built (sent_of e p)) (sym same ∙ eq)
  | inr invalid ↦ let same : plan_of lib (built e) ≡ ignored = rw invalid refl in cc
]
plan_of-built lib skipped ev eq = cc
plan_of-built lib not_built ev eq = cc
plan_of-built lib build_panicked ev eq = cc

pub submit_state-Sent :
    (lib : Library) (now : String) (s : State) (b : Bool) (fetched : Provided) (ev : Event)
    → submit_state lib now s b fetched ≡ sends ev
    → Sent lib (state_entity b s) ev
unfolding submit_state
submit_state-Sent lib now s b fetched ev eq = elim (Bool-cases (can_ignore_state_update s)) [
  | inl ignore ↦ let same : submit_state lib now s b fetched ≡ ignored = rw ignore refl in cc
  | inr regard ↦
      let same : submit_state lib now s b fetched
          ≡ plan_of lib (build_state_event lib now s b fetched) =
        rw regard refl in
      let st =
        build_state_event-Stated lib now s b fetched ev (plan_of-built lib _ ev (sym same ∙ eq)) in
      record {
        state = s;
        is_service = b;
        severity = st.severity;
        common = st.common;
        is_state = refl;
        has_severity = st.has_severity;
        is_event = st.is_event;
        no_close = st.no_close;
        no_notify = st.no_notify;
      }
]

pub submit_plan-Sent :
    (lib : Library) (now : String) (entity : Entity) (fetched : Provided) (ev : Event)
    → submit_plan lib now entity fetched ≡ sends ev
    → Sent lib entity ev
unfolding submit_plan
submit_plan-Sent lib now acknowledgement_history fetched ev eq = cc
submit_plan-Sent lib now downtime_history_meta fetched ev eq = cc
submit_plan-Sent lib now flapping_history fetched ev eq = cc
submit_plan-Sent lib now (host_state s) fetched ev eq =
    submit_state-Sent lib now s false fetched ev eq
submit_plan-Sent lib now (service_state s) fetched ev eq =
    submit_state-Sent lib now s true fetched ev eq
submit_plan-Sent lib now dependency_edge_state fetched ev eq = cc
submit_plan-Sent lib now redundancygroup_state fetched ev eq = cc
submit_plan-Sent lib now unsupported fetched ev eq = cc
