-- ===== src/Ha/Published.antt =====
-- What `State()` tells after a transaction that is committed: pkg/icingadb/ha.go, `realize` and `State`.
use icingadb.Prelude.{
  ℕ, ◌+◌, Bool, true, false, not, Option, none, some, ltb, ◌≡◌, refl, sym, ap, subst, ◌∙◌, inl, inr,
  Bool-cases, if◌then◌else◌,
}
use icingadb.Ha.{
  Instance, Database, Reason, none_active, other_responsible, peer_timeout, Node, signal_handover,
  signal_takeover, find_other, decide, note_other_state, note_other, conclude,
}
use icingadb.Ha.Controller.{Outside, committed_node}
use icingadb.Ha.Signals.{
  NodeOk, signal_takeover_idle, note_other_state_eq, conclude-NodeOk, note_other-NodeOk,
  note_other-responsible,
}
use icingadb.Ha.Reachable.{Reaches, reaches-NodeOk}

-- Whether the row that the query yields, if any, is of an instance that is heard of.
abbrev pub is_alive : ℕ → Option Instance → Bool
is_alive now none = false
is_alive now (some r) = not (ltb (r.heartbeat + peer_timeout) now)

-- Of the node and another one, exactly one is told to be responsible.
pub record Tells (h : Node) (another : Bool) : Type 0 where
  pub itself : h.state.responsible ≡ not another
  pub other : h.state.other_responsible ≡ another

responsible-Tells : (h : Node) → NodeOk h → h.responsible ≡ true → Tells h false
responsible-Tells h ok e = record { itself = ok.state_exact ∙ e; other = ok.no_other e }

takeover-Tells :
    (now : ℕ) (r : Reason) (h : Node) → NodeOk h → Tells (signal_takeover now true r h) false
unfolding signal_takeover
takeover-Tells now r h ok = elim (Bool-cases (h.responsible)) [
  | inl e ↦
      subst (λ x. Tells x false) (sym (signal_takeover_idle now true r h e))
        (responsible-Tells h ok e)
  | inr e ↦ rw e (record { itself = refl; other = refl })
]

noted : (h : Node) → (note_other_state h).state.other_responsible ≡ true
noted h = elim (Bool-cases (h.state.other_responsible)) [
  | inl e ↦ ap (λ (x : Node). x.state.other_responsible) (note_other_state_eq h e) ∙ e
  | inr e ↦ rw e refl
]

note_other-noted : (now : ℕ) (h : Node) → (note_other now true h).state.other_responsible ≡ true
unfolding note_other
note_other-noted now h =
    noted (if h.state.responsible then signal_handover now true other_responsible h else h)

note_other-Tells : (now : ℕ) (h : Node) → NodeOk h → Tells (note_other now true h) true
note_other-Tells now h ok = record {
  itself = (note_other-NodeOk now h ok).state_exact ∙ note_other-responsible now h ok;
  other = note_other-noted now h;
}

conclude-Tells :
    (now : ℕ) (o : Option Instance) (h : Node)
    → NodeOk h
    → Tells (conclude now true (decide h now o) h) (is_alive now o)
unfolding conclude decide
conclude-Tells now none h ok = elim (Bool-cases (h.responsible)) [
  | inl e ↦ subst by_decision (sym e) (responsible-Tells h ok e)
  | inr e ↦ subst by_decision (sym e) (takeover-Tells now none_active h ok)
]
  where
    by_decision : Bool → Type 0
    by_decision b =
        Tells (conclude now true (if b then (none, false) else (some none_active, false)) h) false
conclude-Tells now (some r) h ok = elim (Bool-cases (ltb (r.heartbeat + peer_timeout) now)) [
  | inl e ↦ rw e (takeover-Tells now _ h ok)
  | inr e ↦ rw e (note_other-Tells now h ok)
]

-- As long as its signals are received, `State()` tells in every state that the controller reaches the node's
-- own responsibility and the time of its latest signal (0 before the first), a responsible node reports no other
-- one, and its handover and takeover signals alternate, beginning with a takeover, the latest telling the
-- responsibility. After the next transaction that is committed in time, `State()` tells that another instance
-- is responsible if the row of a responsible one that the query yields is not expired, and otherwise that the
-- node itself is, and never both.
pub reaches-Tells :
    (timeout : ℕ) (h : Node) (reached : Reaches timeout h) (o : Outside) (env : ℕ) (db : Database)
    (delivered : o.delivered ≡ true)
    → NodeOk h
      × NodeOk (committed_node o env h db)
      × Tells (committed_node o env h db) (is_alive o.tx_now (find_other env h.instance_id db))
reaches-Tells timeout h reached o env db delivered =
    let ok = reaches-NodeOk timeout h reached in
    let found = find_other env h.instance_id db in
    (
      ok,
      rw delivered (conclude-NodeOk o.tx_now (decide h o.tx_now found) h ok),
      rw delivered (conclude-Tells o.tx_now found h ok),
    )
