-- ===== src/Ha/Rounds.antt =====
-- What a round of the HA controller does to who is responsible.
use icingadb.Prelude.{
  ℕ, ◌+◌, ◌&&◌, Bool, true, false, Option, none, some, ◌≡◌, refl, ltb, inl, inr, Bool-cases, subst,
  sym,
}
use icingadb.Ha.{Database, peer_timeout, Node, unhealthy}
use icingadb.Ha.Controller.{
  Message, Outside, Event, beat, lost, notifications_heartbeat, heartbeat_done, ctx_done,
  verify_notifications_state, on_beat_at, on_beat, on_lost, step, realize_ids, same_id,
  same_environment, set_environment, on_environment, Verified, handed_over, kept, no_environment,
  hand_over_unless_alone, counted, is_valid_unhealthy, is_past, on_verified,
}
use icingadb.Ha.Signals.{handed_over-responsible}
use icingadb.Ha.Takeover.{Before, After}
use icingadb.Ha.Realizing.{
  OutcomeAfter, handed-After, stay-After, abort-After, retracted-After, lost-After, frame-Before,
  realize-After,
}

-- A round for a heartbeat of the environment `env`.
realize_ids-After :
    (o : Outside) (env : ℕ) (endpoint : Option ℕ) (R : ℕ → Bool) (h : Node) (db : Database)
    → o.delivered ≡ true
    → Before env o.tx_now R h db
    → OutcomeAfter env h.instance_id R (realize_ids o (some env) endpoint h db)
unfolding realize_ids
realize_ids-After o env none R h db e b = abort-After (stay-After b)
realize_ids-After o env (some endpoint) R h db e b = realize-After _ o env endpoint R h db e b

same_environment-After :
    (current : Option (Option ℕ)) (o : Outside) (m : Message) (env : ℕ) (R : ℕ → Bool) (h : Node)
    (db : Database)
    → o.delivered ≡ true
    → m.environment_id ≡ some env
    → Before env o.tx_now R h db
    → OutcomeAfter env h.instance_id R
        (on_environment o m (same_environment current m.environment_id h) db)
unfolding on_environment same_environment
same_environment-After none o m env R h db e eq b =
    subst
      (λ q.
        OutcomeAfter env h.instance_id R
          (realize_ids o q m.endpoint_id (record h { environment = some (m.environment_id) }) db))
      (sym eq) (realize_ids-After o env m.endpoint_id R _ db e (frame-Before _ h.notifications b))
same_environment-After (some current) o m env R h db e eq b =
    elim (Bool-cases (same_id current (m.environment_id))) [
      | inl same ↦ rw same (
          subst (λ q. OutcomeAfter env h.instance_id R (realize_ids o q m.endpoint_id h db))
            (sym eq) (realize_ids-After o env m.endpoint_id R h db e b))
      | inr other ↦ rw other tt
    ]

-- The verdict on the notifications' state.
VerifiedAfter : ℕ → ℕ → ℕ → (ℕ → Bool) → Verified → Database → Type 0
VerifiedAfter env i now R (handed_over h) db = (h.responsible ≡ false) × After env i R h db
VerifiedAfter env i now R (kept h) db = (h.instance_id ≡ i) × Before env now R h db
VerifiedAfter env i now R no_environment db = Unit

hand_over-VerifiedAfter :
    (current : Option (Option ℕ)) (o : Outside) (env now : ℕ) (R : ℕ → Bool) (h : Node)
    (db : Database)
    → o.delivered ≡ true
    → Before env now R h db
    → VerifiedAfter env h.instance_id now R (hand_over_unless_alone current o h db) db
unfolding hand_over_unless_alone VerifiedAfter
hand_over-VerifiedAfter none o env now R h db e b = tt
hand_over-VerifiedAfter (some current) o env now R h db e b =
    elim (Bool-cases (ltb 1 (counted o current db))) [
      | inl several ↦
          rw (several, e)
            (handed_over-responsible o.now unhealthy h, handed-After o.now unhealthy (stay-After b))
      | inr alone ↦ rw alone (refl, frame-Before h.environment _ b)
    ]

verify-VerifiedAfter :
    (timeout : ℕ) (o : Outside) (env now : ℕ) (R : ℕ → Bool) (h : Node) (db : Database)
    → o.delivered ≡ true
    → Before env now R h db
    → VerifiedAfter env h.instance_id now R (verify_notifications_state timeout o h db) db
unfolding verify_notifications_state VerifiedAfter
verify-VerifiedAfter timeout o env now R h db e b =
    elim (Bool-cases (
      is_valid_unhealthy h.notifications
      && is_past timeout o.now h.notifications.unhealthy_since)) [
        | inl bad ↦ rw bad (hand_over-VerifiedAfter h.environment o env now R h db e b)
        | inr good ↦ rw good (refl, frame-Before h.environment _ b)
      ]

on_verified-After :
    (o : Outside) (m : Message) (v : Verified) (env i : ℕ) (R : ℕ → Bool) (db : Database)
    → o.delivered ≡ true
    → m.environment_id ≡ some env
    → VerifiedAfter env i o.tx_now R v db
    → OutcomeAfter env i R (on_verified o m v db)
unfolding on_verified VerifiedAfter set_environment
on_verified-After o m no_environment env i R db e eq v = tt
on_verified-After o m (handed_over h) env i R db e eq v =
    let a = retracted-After o.update_ok v.0 v.1 in
    record { same_id = a.same_id; own = a.own; rest = a.rest }
on_verified-After o m (kept h) env i R db e eq v =
    subst (λ j. OutcomeAfter env j R (on_environment o m (set_environment m.environment_id h) db))
      v.0 (same_environment-After h.environment o m env R h db e eq v.1)

-- The heartbeats that an event brings are of the environment.
abbrev pub IsOf : ℕ → Event → Type 0
IsOf env (beat m) = m.environment_id ≡ some env
IsOf env _ = Unit

on_beat-After :
    (timeout : ℕ) (o : Outside) (t : Option ℕ) (m : Message) (env : ℕ) (R : ℕ → Bool) (h : Node)
    (db : Database)
    → o.delivered ≡ true
    → m.environment_id ≡ some env
    → Before env o.tx_now R h db
    → OutcomeAfter env h.instance_id R (on_beat timeout o t m h db)
unfolding on_beat on_beat_at
on_beat-After timeout o none m env R h db e eq b = tt
on_beat-After timeout o (some t) m env R h db e eq b =
    elim (Bool-cases (ltb (t + peer_timeout) o.now)) [
      | inl past ↦ rw (past, e) (lost-After o.update_ok o.now _ b)
      | inr now ↦ rw now (
          on_verified-After o m _ env h.instance_id R db e eq
            (verify-VerifiedAfter timeout o env o.tx_now R h db e b))
    ]

pub step-After :
    (timeout : ℕ) (o : Outside) (ev : Event) (env : ℕ) (R : ℕ → Bool) (h : Node) (db : Database)
    → o.delivered ≡ true
    → IsOf env ev
    → Before env o.tx_now R h db
    → OutcomeAfter env h.instance_id R (step timeout o ev h db)
unfolding step on_lost
step-After timeout o (beat m) env R h db e eq b = on_beat-After timeout o m.time m env R h db e eq b
step-After timeout o lost env R h db e eq b = rw e (lost-After o.update_ok o.now _ b)
step-After timeout o (notifications_heartbeat ok) env R h db e eq b =
    stay-After (frame-Before h.environment _ b)
step-After timeout o (heartbeat_done true) env R h db e eq b = abort-After (stay-After b)
step-After timeout o (heartbeat_done false) env R h db e eq b = stay-After b
step-After timeout o ctx_done env R h db e eq b = tt
