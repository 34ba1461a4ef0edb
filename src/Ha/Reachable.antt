-- ===== src/Ha/Reachable.antt =====
-- What the nodes that the loop reaches store and signal.
use icingadb.Prelude.{
  ℕ, ◌+◌, ◌&&◌, ltb, true, false, Option, none, some, ◌≡◌, inl, inr, Bool-cases, subst,
}
use icingadb.Ha.{Database, peer_timeout, unhealthy, Node, new_ha}
use icingadb.Ha.Controller.{
  Message, TxResult, committed, committed_late, deadline, deadline_committed, failed, Outside,
  Event, beat, lost, notifications_heartbeat, heartbeat_done, ctx_done, Outcome, goes, returned,
  fatal, panicked, verify_notifications_state, set_environment, realize, on_beat_at, on_beat,
  on_lost, step, realize_ids, same_id, same_environment, on_environment, Verified, handed_over,
  kept, no_environment, hand_over_unless_alone, counted, is_valid_unhealthy, is_past, on_verified,
}
use icingadb.Ha.Signals.{
  NodeOk, new_ha-NodeOk, abort-NodeOk, signal_handover-NodeOk, conclude-NodeOk, frame-NodeOk,
}

-- Every node that a round leaves satisfies `NodeOk`.
abbrev pub OutcomeOk : Outcome → Type 0
OutcomeOk (goes h db) = NodeOk h
OutcomeOk (returned h db) = NodeOk h
OutcomeOk fatal = Unit
OutcomeOk panicked = Unit

realize-OutcomeOk :
    (tx : TxResult) (o : Outside) (env endpoint : ℕ) (h : Node) (db : Database)
    → o.delivered ≡ true
    → NodeOk h
    → OutcomeOk (realize tx o env endpoint h db)
unfolding realize
realize-OutcomeOk committed o env endpoint h db e ok = rw e (conclude-NodeOk o.tx_now _ h ok)
realize-OutcomeOk committed_late o env endpoint h db e ok =
    rw e (signal_handover-NodeOk o.tx_now _ _ (conclude-NodeOk o.tx_now _ h ok))
realize-OutcomeOk deadline o env endpoint h db e ok = rw e (signal_handover-NodeOk o.tx_now _ h ok)
realize-OutcomeOk deadline_committed o env endpoint h db e ok =
    rw e (signal_handover-NodeOk o.tx_now _ h ok)
realize-OutcomeOk failed o env endpoint h db e ok = abort-NodeOk h ok

realize_ids-OutcomeOk :
    (o : Outside) (env endpoint : Option ℕ) (h : Node) (db : Database)
    → o.delivered ≡ true
    → NodeOk h
    → OutcomeOk (realize_ids o env endpoint h db)
unfolding realize_ids
realize_ids-OutcomeOk o none endpoint h db e ok = abort-NodeOk h ok
realize_ids-OutcomeOk o (some env) none h db e ok = abort-NodeOk h ok
realize_ids-OutcomeOk o (some env) (some endpoint) h db e ok =
    realize-OutcomeOk _ o env endpoint h db e ok

same_environment-OutcomeOk :
    (current : Option (Option ℕ)) (env : Option ℕ) (o : Outside) (m : Message) (h : Node)
    (db : Database)
    → o.delivered ≡ true
    → NodeOk h
    → OutcomeOk (on_environment o m (same_environment current env h) db)
unfolding on_environment same_environment
same_environment-OutcomeOk none env o m h db e ok =
    realize_ids-OutcomeOk o _ _ _ db e (frame-NodeOk h (some env) h.notifications ok)
same_environment-OutcomeOk (some current) env o m h db e ok =
    elim (Bool-cases (same_id current env)) [
      | inl same ↦ rw same (realize_ids-OutcomeOk o _ _ h db e ok)
      | inr other ↦ rw other tt
    ]

VerifiedOk : Verified → Type 0
VerifiedOk (handed_over h) = NodeOk h
VerifiedOk (kept h) = NodeOk h
VerifiedOk no_environment = Unit

hand_over-VerifiedOk :
    (env : Option (Option ℕ)) (o : Outside) (h : Node) (db : Database)
    → o.delivered ≡ true
    → NodeOk h
    → VerifiedOk (hand_over_unless_alone env o h db)
unfolding VerifiedOk hand_over_unless_alone
hand_over-VerifiedOk none o h db e ok = tt
hand_over-VerifiedOk (some env) o h db e ok = elim (Bool-cases (ltb 1 (counted o env db))) [
  | inl several ↦ rw (several, e) (signal_handover-NodeOk o.now unhealthy h ok)
  | inr alone ↦ rw alone (frame-NodeOk h h.environment _ ok)
]

verify-VerifiedOk :
    (timeout : ℕ) (o : Outside) (h : Node) (db : Database)
    → o.delivered ≡ true
    → NodeOk h
    → VerifiedOk (verify_notifications_state timeout o h db)
unfolding VerifiedOk verify_notifications_state
verify-VerifiedOk timeout o h db e ok =
    elim (Bool-cases (
      is_valid_unhealthy h.notifications
      && is_past timeout o.now h.notifications.unhealthy_since)) [
        | inl bad ↦ rw bad (hand_over-VerifiedOk h.environment o h db e ok)
        | inr good ↦ rw good (frame-NodeOk h h.environment _ ok)
      ]

on_verified-OutcomeOk :
    (o : Outside) (m : Message) (v : Verified) (db : Database)
    → o.delivered ≡ true
    → VerifiedOk v
    → OutcomeOk (on_verified o m v db)
unfolding on_verified VerifiedOk set_environment
on_verified-OutcomeOk o m no_environment db e ok = tt
on_verified-OutcomeOk o m (handed_over h) db e ok = frame-NodeOk h h.environment _ ok
on_verified-OutcomeOk o m (kept h) db e ok =
    same_environment-OutcomeOk h.environment m.environment_id o m h db e ok

on_beat-OutcomeOk :
    (timeout : ℕ) (o : Outside) (t : Option ℕ) (m : Message) (h : Node) (db : Database)
    → o.delivered ≡ true
    → NodeOk h
    → OutcomeOk (on_beat timeout o t m h db)
unfolding on_beat on_beat_at
on_beat-OutcomeOk timeout o none m h db e ok = tt
on_beat-OutcomeOk timeout o (some t) m h db e ok =
    elim (Bool-cases (ltb (t + peer_timeout) o.now)) [
      | inl past ↦ rw (past, e) (signal_handover-NodeOk o.now _ h ok)
      | inr now ↦ rw now (on_verified-OutcomeOk o m _ db e (verify-VerifiedOk timeout o h db e ok))
    ]

-- Where the signals are received, a round keeps `NodeOk`.
pub step-OutcomeOk :
    (timeout : ℕ) (o : Outside) (e : Event) (h : Node) (db : Database)
    → o.delivered ≡ true
    → NodeOk h
    → OutcomeOk (step timeout o e h db)
unfolding step on_lost
step-OutcomeOk timeout o (beat m) h db e ok = on_beat-OutcomeOk timeout o m.time m h db e ok
step-OutcomeOk timeout o lost h db e ok = rw e (signal_handover-NodeOk o.now _ h ok)
step-OutcomeOk timeout o (notifications_heartbeat b) h db e ok = record {
  state_exact = ok.state_exact;
  since = ok.since;
  no_other = ok.no_other;
  alternates = ok.alternates;
}
step-OutcomeOk timeout o (heartbeat_done true) h db e ok = abort-NodeOk h ok
step-OutcomeOk timeout o (heartbeat_done false) h db e ok = ok
step-OutcomeOk timeout o ctx_done h db e ok = ok

-- The nodes that the rounds of the loop reach; the table may be changed by others in between.
pub data Reaches (timeout : ℕ) : Node → Type 0 where
  start : (id : ℕ) → Reaches timeout (new_ha id)
  round :
      {h h' : Node} (db db' : Database) (o : Outside) (e : Event)
      → Reaches timeout h
      → o.delivered ≡ true
      → step timeout o e h db ≡ goes h' db'
      → Reaches timeout h'

-- As long as its signals are received, `State()` tells a node's own responsibility and the time of its latest
-- signal, a responsible node reports no other one, and the signals that the node has sent alternate,
-- beginning with a takeover, so that the last one tells the responsibility.
pub reaches-NodeOk : (timeout : ℕ) (h : Node) → Reaches timeout h → NodeOk h
reaches-NodeOk timeout h (start id) = new_ha-NodeOk id
reaches-NodeOk timeout h (round db db' o e r d eq) =
    subst OutcomeOk eq (step-OutcomeOk timeout o e _ _ d (reaches-NodeOk timeout _ r))
