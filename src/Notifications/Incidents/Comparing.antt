-- ===== src/Notifications/Incidents/Comparing.antt =====
-- Which entities are submitted again, and when the comparison fails.
use icingadb.Prelude.{
  String, List, [], ◌∷◌, Bool, true, false, not, ◌&&◌, ◌||◌, Option, none, some, if◌then◌else◌,
  is_some, ◌≡◌, refl, sym, ◌∙◌, ap,
}
use icingadb.Notifications.Events.{
  State, Entity, Severity, host_state, service_state, acknowledgement_history,
  downtime_history_meta, flapping_history, dependency_edge_state, redundancygroup_state,
  unsupported, state_to_severity, is_true,
}
use icingadb.Notifications.Events.SameState.{Incident, same_as, have_same_state}
use icingadb.Notifications.Incidents.{
  OpenIncident, Incidents, assoc, Submitted, on_compared, on_entity, submit_changed,
}

-- The severity of the entity's state, where it has one.
abbrev pub severity_of : Entity → Option Severity
severity_of (host_state s) = state_to_severity s.hard_state false
severity_of (service_state s) = state_to_severity s.hard_state true
severity_of _ = none

-- Whether the entity has an open incident, but no severity to compare it with.
abbrev pub is_incomparable : Incidents → String × Entity → Bool
is_incomparable m (id, e) = is_some (assoc id m) && not (is_some (severity_of e))

abbrev pub any {ℓ} : {A : Type ℓ} → (A → Bool) → List A → Bool
any p [] = false
any p (x ∷ xs) = p x || any p xs

-- Whether an open incident has the entity's state.
abbrev pub is_settled : Option OpenIncident → Entity → Bool
is_settled none e = false
is_settled (some i) e = is_true (have_same_state i.state e)

abbrev pub unsettled : Incidents → List (String × Entity) → List Entity
unsettled m [] = []
unsettled m ((id, e) ∷ es) =
    if is_settled (assoc id m) e then unsettled m es else e ∷ unsettled m es

same_as-is_some :
    (i : Incident) (s : State) (o : Option Severity) → is_some (same_as i s o) ≡ is_some o
unfolding same_as
same_as-is_some i s none = refl
same_as-is_some i s (some sev) = refl

have_same_state-is_some :
    (i : Incident) (e : Entity) → is_some (have_same_state i e) ≡ is_some (severity_of e)
unfolding have_same_state
have_same_state-is_some i (host_state s) = same_as-is_some i s _
have_same_state-is_some i (service_state s) = same_as-is_some i s _
have_same_state-is_some i acknowledgement_history = refl
have_same_state-is_some i downtime_history_meta = refl
have_same_state-is_some i flapping_history = refl
have_same_state-is_some i dependency_edge_state = refl
have_same_state-is_some i redundancygroup_state = refl
have_same_state-is_some i unsupported = refl

on_compared-failed :
    (o : Option Bool) (e : Entity) (rest : Submitted)
    → (on_compared o e rest).failed ≡ not (is_some o) || rest.failed
on_compared-failed none e rest = refl
on_compared-failed (some true) e rest = refl
on_compared-failed (some false) e rest = refl

on_entity-failed :
    (o : Option OpenIncident) (e : Entity) (rest : Submitted)
    → (on_entity o e rest).failed ≡ (is_some o && not (is_some (severity_of e))) || rest.failed
on_entity-failed none e rest = refl
on_entity-failed (some i) e rest =
    rw (sym (have_same_state-is_some i.state e))
      (on_compared-failed (have_same_state i.state e) e rest)

-- The comparison fails if and only if an entity whose object has an open incident is in a state that
-- has no severity, as a pending one is.
pub submit_changed-failed :
    (m : Incidents) (es : List (String × Entity))
    → (submit_changed m es).failed ≡ any (is_incomparable m) es
unfolding submit_changed
submit_changed-failed m [] = refl
submit_changed-failed m ((id, e) ∷ es) =
    on_entity-failed (assoc id m) e (submit_changed m es)
    ∙ ap (λ b. is_incomparable m (id, e) || b) (submit_changed-failed m es)

on_compared-submitted :
    (o : Option Bool) (e : Entity) (rest : Submitted)
    → (on_compared o e rest).failed ≡ false
    → (rest.failed ≡ false)
      × ((on_compared o e rest).submitted
          ≡ (if is_true o then rest.submitted else e ∷ rest.submitted))
on_compared-submitted none e rest h = cc
on_compared-submitted (some true) e rest h = (h, refl)
on_compared-submitted (some false) e rest h = (h, refl)

on_entity-submitted :
    (o : Option OpenIncident) (e : Entity) (rest : Submitted)
    → (on_entity o e rest).failed ≡ false
    → (rest.failed ≡ false)
      × ((on_entity o e rest).submitted
          ≡ (if is_settled o e then rest.submitted else e ∷ rest.submitted))
on_entity-submitted none e rest h = (h, refl)
on_entity-submitted (some i) e rest h = on_compared-submitted (have_same_state i.state e) e rest h

-- Where the comparison does not fail, exactly the entities without an open incident of their state are
-- submitted, in the order that they come in.
pub submit_changed-unsettled :
    (m : Incidents) (es : List (String × Entity))
    → (submit_changed m es).failed ≡ false
    → (submit_changed m es).submitted ≡ unsettled m es
unfolding submit_changed
submit_changed-unsettled m [] h = refl
submit_changed-unsettled m ((id, e) ∷ es) h =
    let step = on_entity-submitted (assoc id m) e (submit_changed m es) h in
    step.1
    ∙ ap (λ rest. if is_settled (assoc id m) e then rest else e ∷ rest)
        (submit_changed-unsettled m es step.0)
