-- ===== src/Notifications/Events/Submission.antt =====
-- What an event that is sent says of the state it was built from.
use icingadb.Prelude.{
  String, Bool, true, false, not, ◌&&◌, Option, some, if◌then◌else◌, ◌==◌, ◌≡◌, refl, sym, ap, ◌∙◌,
  subst,
}
use icingadb.Notifications.Relations.{Provided}
use icingadb.Notifications.Events.{
  State, Severity, severity_none, severity_ok, severity_warning, severity_crit, severity_err, Event,
  Library, state_to_severity, is_ok, state_muted, with_state, Entity, sends, submit_plan, is_true,
}
use icingadb.Notifications.Events.SameState.{
  Incident, same_severity, same_bool, same_as, have_same_state,
}
use icingadb.Notifications.Events.Sending.{state_entity, submit_plan-Sent}

have_same_state-entity :
    (i : Incident) (b : Bool) (s : State)
    → have_same_state i (state_entity b s) ≡ same_as i s (state_to_severity s.hard_state b)
unfolding have_same_state
have_same_state-entity i false s = refl
have_same_state-entity i true s = refl

same_severity_refl : (s : Severity) → same_severity s s ≡ true
same_severity_refl severity_none = refl
same_severity_refl severity_ok = refl
same_severity_refl severity_warning = refl
same_severity_refl severity_crit = refl
same_severity_refl severity_err = refl

same_bool_refl : (b : Bool) → same_bool b b ≡ true
same_bool_refl true = refl
same_bool_refl false = refl

-- An incident with the severity of an event that is sent, and muted if the event is, has the state of the
-- entity that the event is sent for.
pub submit_plan-same_state :
    (lib : Library) (now : String) (entity : Entity) (fetched : Provided) (ev : Event)
    (i : Incident)
    → submit_plan lib now entity fetched ≡ sends ev
    → i.severity ≡ ev.severity
    → some i.is_muted ≡ ev.muted
    → have_same_state i entity ≡ some true
unfolding same_as
submit_plan-same_state lib now entity fetched ev i eq same_severity_as muted_as =
    let t = submit_plan-Sent lib now entity fetched ev eq in
    let severity_is : i.severity ≡ t.severity =
      same_severity_as ∙ ap (λ (e : Event). e.severity) t.is_event in
    let muted_is : i.is_muted ≡ state_muted t.state =
      ap is_true (muted_as ∙ ap (λ (e : Event). e.muted) t.is_event) in
    ap (have_same_state i) t.is_state
    ∙ have_same_state-entity i t.is_service t.state
    ∙ ap (same_as i t.state) t.has_severity
    ∙ rw
        (severity_is, muted_is, same_severity_refl t.severity, same_bool_refl (state_muted t.state))
        refl

closes_case :
    (b prev : Bool) (o o' : Option Bool)
    → is_true o ≡ false
    → is_true o' ≡ false
    → (is_true (if b then some true else o) ≡ b)
      × (is_true (if b then o' else if prev then some true else o') ≡ not b && prev)
closes_case true prev o o' e e' = (refl, e')
closes_case false true o o' e e' = (e, refl)
closes_case false false o o' e e' = (e, e')

-- What an event says of the state of a host or a service.
pub record Answers (s : State) (is_service : Bool) (ev : Event) : Type 0 where
  pub severity : state_to_severity s.hard_state is_service ≡ some ev.severity
  pub muted : is_true ev.muted ≡ state_muted s
  pub close : is_true ev.close ≡ is_ok ev.severity && not (state_muted s)
  pub notify : is_true ev.notify ≡ not (is_true ev.close) && (s.previous_hard_state == s.hard_state)

with_state-Answers :
    (lib : Library) (s : State) (b : Bool) (sev : Severity) (e : Event)
    → state_to_severity s.hard_state b ≡ some sev
    → is_true e.close ≡ false
    → is_true e.notify ≡ false
    → Answers s b (with_state lib s sev e)
with_state-Answers lib s b sev e h c n =
    let closes = is_ok sev && not (lib.is_muted (some (state_muted s))) in
    let prev = s.previous_hard_state == s.hard_state in
    let cases = closes_case closes prev e.close e.notify c n in
    record {
      severity = h;
      muted = refl;
      close = cases.0 ∙ ap (λ m. is_ok sev && not m) (lib.is_muted_some (state_muted s));
      notify = cases.1 ∙ ap (λ k. not k && prev) (sym cases.0);
    }

-- An event that is sent stands for the state of a host or a service: it has its severity and says
-- whether it is muted; it closes the incident if and only if the severity is OK and the state is not
-- muted; and it asks for a notification if and only if it does not close the incident and the hard
-- state is the previous one.
pub submit_plan-Answers :
    (lib : Library) (now : String) (entity : Entity) (fetched : Provided) (ev : Event)
    → submit_plan lib now entity fetched ≡ sends ev
    → (s : State) × (b : Bool) × (entity ≡ state_entity b s) × Answers s b ev
submit_plan-Answers lib now entity fetched ev eq =
    let t = submit_plan-Sent lib now entity fetched ev eq in
    (
      t.state,
      t.is_service,
      t.is_state,
      subst (Answers t.state t.is_service) (sym t.is_event) (
          with_state-Answers lib t.state t.is_service t.severity t.common t.has_severity t.no_close
            t.no_notify),
    )
