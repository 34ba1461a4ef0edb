-- ===== src/Notifications/Events/Regarded.antt =====
-- For which states an event is sent.
use icingadb.Prelude.{
  String, str_eq, Bool, true, false, not, ◌&&◌, ◌||◌, Option, none, some, ◌==◌, ◌≡◌, refl, ap, ◌∙◌,
  is_some, Bool-cases, inl, inr,
}
use icingadb.Notifications.Relations.{IcingaObject, Relations, done}
use icingadb.Notifications.Relations.Cases.{first}
use icingadb.Notifications.Events.{
  State, Severity, Event, Library, Built, built, build_common_event, state_to_severity, with_state,
  is_volatile_of, with_severity, with_event, build_state_event, Plan, sends,
  can_ignore_state_update, plan_of, submit_state, submit_plan,
}
use icingadb.Notifications.Events.Sending.{state_entity}

abbrev pub is_sent : Plan → Bool
is_sent (sends ev) = true
is_sent _ = false

-- Whether an event is built for a state of a host or service that was found.
abbrev pub is_worth : State → Bool → Bool → Bool
is_worth s is_service is_volatile =
    (str_eq s.state_type "hard" || is_volatile)
    && is_some (state_to_severity s.hard_state is_service)

-- What is built is valid.
abbrev pub IsValidOf : Library → Built → Type 0
IsValidOf lib b = (ev : Event) → b ≡ built ev → lib.validate ev ≡ true

plan_of-with_severity :
    (lib : Library) (s : State) (e : Event) (o : Option Severity)
    → IsValidOf lib (with_severity lib s e o)
    → is_sent (plan_of lib (with_severity lib s e o)) ≡ is_some o
unfolding plan_of
plan_of-with_severity lib s e none valid = refl
plan_of-with_severity lib s e (some sev) valid = rw (valid (with_state lib s sev e) refl) refl

plan_of-built_alike :
    (lib : Library) (b b' : Built) (r : Bool)
    → b ≡ b'
    → IsValidOf lib b
    → (IsValidOf lib b' → is_sent (plan_of lib b') ≡ r)
    → is_sent (plan_of lib b) ≡ r
plan_of-built_alike lib b b' r same valid sent =
    ap (λ x. is_sent (plan_of lib x)) same ∙ sent (λ ev h. valid ev (same ∙ h))

plan_of-with_event :
    (lib : Library) (s : State) (b v : Bool) (o : Option Event)
    → IsValidOf lib (with_event lib s b v o)
    → is_some o ≡ true
    → is_sent (plan_of lib (with_event lib s b v o)) ≡ is_worth s b v
unfolding plan_of
plan_of-with_event lib s b v none valid found = cc
plan_of-with_event lib s b v (some e) valid found =
    let by_severity = plan_of-with_severity lib s e (state_to_severity s.hard_state b) in
    elim (Bool-cases (str_eq s.state_type "hard")) [
      | inl hard ↦
          plan_of-built_alike lib _ _ _ (rw hard refl) valid (λ ok. by_severity ok ∙ rw hard refl)
      | inr soft ↦ elim (Bool-cases v) [
        | inl volatile ↦
            plan_of-built_alike lib _ _ _ (rw (soft, volatile) refl) valid
              (λ ok. by_severity ok ∙ rw (soft, volatile) refl)
        | inr steady ↦ rw (soft, steady) refl
      ]
    ]

build_common_event-found :
    (lib : Library) (now : String) (b : Bool) (h s : Option IcingaObject)
    → is_some h ≡ true
    → (b ≡ true → is_some s ≡ true)
    → is_some (build_common_event lib now b h s) ≡ true
unfolding build_common_event
build_common_event-found lib now b none s has_host has_service = cc
build_common_event-found lib now false (some h) s has_host has_service = refl
build_common_event-found lib now true (some h) none has_host has_service = has_service refl
build_common_event-found lib now true (some h) (some s) has_host has_service = refl

submit_state-is_sent :
    (lib : Library) (now : String) (s : State) (b : Bool) (rel : Relations)
    → IsValidOf lib (build_state_event lib now s b (done rel))
    → is_some rel.host ≡ true
    → (b ≡ true → is_some (first rel.services) ≡ true)
    → is_sent (submit_state lib now s b (done rel))
      ≡ not (can_ignore_state_update s)
        && is_worth s b (is_volatile_of b rel.host (first rel.services))
unfolding submit_state build_state_event
submit_state-is_sent lib now s b rel valid has_host has_service =
    elim (Bool-cases (can_ignore_state_update s)) [
      | inl ignore ↦ rw ignore refl
      | inr regard ↦ rw regard (
          plan_of-with_event lib s b _ _ valid
            (build_common_event-found lib now b rel.host (first rel.services) has_host has_service))
    ]

-- Where the relations have the host, and the service of a service's state, and the event
-- that is built, if any, is valid, an event is sent for a state if and only if it neither is pending nor turns from pending to OK, is hard
-- or of a volatile object, and has a severity.
pub submit_plan-is_sent :
    (lib : Library) (now : String) (s : State) (b : Bool) (rel : Relations)
    → IsValidOf lib (build_state_event lib now s b (done rel))
    → is_some rel.host ≡ true
    → (b ≡ true → is_some (first rel.services) ≡ true)
    → is_sent (submit_plan lib now (state_entity b s) (done rel))
      ≡ not (s.hard_state == 99 || (s.hard_state == 0 && s.previous_hard_state == 99))
        && ((str_eq s.state_type "hard" || is_volatile_of b rel.host (first rel.services))
            && is_some (state_to_severity s.hard_state b))
unfolding submit_plan can_ignore_state_update
submit_plan-is_sent lib now s false rel = submit_state-is_sent lib now s false rel
submit_plan-is_sent lib now s true rel = submit_state-is_sent lib now s true rel
