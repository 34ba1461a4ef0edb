-- ===== src/Ha/Signals.antt =====
-- What a node stores and signals agrees with its own responsibility.
use icingadb.Prelude.{
  ℕ, List, [], ◌∷◌, Bool, true, false, if◌then◌else◌, Option, none, some, ◌≡◌, refl, arith, inl,
  inr, Bool-cases, subst, sym,
}
use icingadb.Ha.{
  NotificationsState, Reason, Signal, handover, takeover, Node, new_ha, abort, signal_handover,
  signal_takeover, note_other_state, note_other, conclude, other_responsible,
}

-- The signals alternate, the last one is the first of the list, and it tells the responsibility.
abbrev pub Alternates : Bool → List (ℕ × Signal) → Type 0
Alternates false [] = Unit
Alternates true [] = ⊥
Alternates true ((t, takeover r) ∷ l) = Alternates false l
Alternates true ((t, handover r) ∷ l) = ⊥
Alternates false ((t, takeover r) ∷ l) = ⊥
Alternates false ((t, handover r) ∷ l) = Alternates true l

-- The time of the latest signal, and 0 before the first one.
abbrev pub last_signal_at : List (ℕ × Signal) → ℕ
last_signal_at [] = 0
last_signal_at ((t, s) ∷ l) = t

-- `State()` tells the node's own responsibility and since when, and a responsible node reports no other one.
pub record NodeOk (h : Node) : Type 0 where
  pub state_exact : h.state.responsible ≡ h.responsible
  pub since : h.state.responsible_ts_milli ≡ last_signal_at h.signals
  pub no_other : h.responsible ≡ true → h.state.other_responsible ≡ false
  pub alternates : Alternates h.responsible h.signals

pub new_ha-NodeOk : (id : ℕ) → NodeOk (new_ha id)
unfolding new_ha
new_ha-NodeOk id = record {
  state_exact = refl;
  since = refl;
  no_other = λ e. refl;
  alternates = tt;
}

pub abort-NodeOk : (h : Node) → NodeOk h → NodeOk (abort h)
unfolding abort
abort-NodeOk h ok = record {
  state_exact = ok.state_exact;
  since = ok.since;
  no_other = ok.no_other;
  alternates = ok.alternates;
}

signal_handover_idle :
    (now : ℕ) (d : Bool) (r : Reason) (h : Node)
    → h.responsible ≡ false
    → signal_handover now d r h ≡ h
unfolding signal_handover
signal_handover_idle now d r h e = ground arith

pub signal_takeover_idle :
    (now : ℕ) (d : Bool) (r : Reason) (h : Node)
    → h.responsible ≡ true
    → signal_takeover now d r h ≡ h
unfolding signal_takeover
signal_takeover_idle now d r h e = ground arith

pub signal_handover-NodeOk :
    (now : ℕ) (r : Reason) (h : Node) → NodeOk h → NodeOk (signal_handover now true r h)
unfolding signal_handover
signal_handover-NodeOk now r h ok = elim (Bool-cases (h.responsible)) [
  | inl e ↦ rw e (record {
    state_exact = refl;
    since = refl;
    no_other = λ e'. refl;
    alternates = subst (λ b. Alternates b h.signals) e ok.alternates;
  })
  | inr e ↦ subst NodeOk (sym (signal_handover_idle now true r h e)) ok
]

signal_takeover-NodeOk :
    (now : ℕ) (r : Reason) (h : Node) → NodeOk h → NodeOk (signal_takeover now true r h)
unfolding signal_takeover
signal_takeover-NodeOk now r h ok = elim (Bool-cases (h.responsible)) [
  | inl e ↦ subst NodeOk (sym (signal_takeover_idle now true r h e)) ok
  | inr e ↦ rw e (record {
    state_exact = refl;
    since = refl;
    no_other = λ e'. refl;
    alternates = subst (λ b. Alternates b h.signals) e ok.alternates;
  })
]

-- After a handover the node is not responsible.
pub handed_over-responsible :
    (now : ℕ) (r : Reason) (h : Node) → (signal_handover now true r h).responsible ≡ false
unfolding signal_handover
handed_over-responsible now r h = ground arith

pub note_other-responsible :
    (now : ℕ) (h : Node) → NodeOk h → (note_other now true h).responsible ≡ false
unfolding note_other signal_handover
note_other-responsible now h ok = ground (arith, ok.state_exact)

pub note_other_state_eq : (h : Node) → h.state.other_responsible ≡ true → note_other_state h ≡ h
note_other_state_eq h e = ground arith

note_other_state-NodeOk :
    (h : Node) → h.responsible ≡ false → NodeOk h → NodeOk (note_other_state h)
note_other_state-NodeOk h e ok = elim (Bool-cases (h.state.other_responsible)) [
  | inl other ↦ subst NodeOk (sym (note_other_state_eq h other)) ok
  | inr e₀ ↦ rw e₀ (record {
    state_exact = ok.state_exact;
    since = ok.since;
    no_other = λ e'. ground (arith, e);
    alternates = ok.alternates;
  })
]

pub note_other-NodeOk : (now : ℕ) (h : Node) → NodeOk h → NodeOk (note_other now true h)
unfolding note_other
note_other-NodeOk now h ok =
    let handed = signal_handover now true other_responsible h in
    let motive = λ (b : Bool). NodeOk (note_other_state (if b then handed else h)) in
    elim (Bool-cases (h.state.responsible)) [
      | inl e ↦ subst motive (sym e) (
          note_other_state-NodeOk handed (handed_over-responsible now other_responsible h)
            (signal_handover-NodeOk now other_responsible h ok))
      | inr e ↦ subst motive (sym e) (note_other_state-NodeOk h (ground (arith, ok.state_exact)) ok)
    ]

pub conclude-NodeOk :
    (now : ℕ) (d : Option Reason × Bool) (h : Node) → NodeOk h → NodeOk (conclude now true d h)
unfolding conclude
conclude-NodeOk now (some why, b) h ok = signal_takeover-NodeOk now why h ok
conclude-NodeOk now (none, true) h ok = note_other-NodeOk now h ok
conclude-NodeOk now (none, false) h ok = ok

-- Other fields than those of `NodeOk` may change.
pub frame-NodeOk :
    (h : Node) (env : Option (Option ℕ)) (ns : NotificationsState)
    → NodeOk h
    → NodeOk (record h { environment = env; notifications = ns })
frame-NodeOk h env ns ok = record {
  state_exact = ok.state_exact;
  since = ok.since;
  no_other = ok.no_other;
  alternates = ok.alternates;
}
