-- ===== src/Ha/Realizing.antt =====
-- What `realize` and a handover do to who is responsible.
use icingadb.Prelude.{ℕ, Bool, true, false, Option, ◌≡◌, refl, arith, sym, ◌∙◌}
use icingadb.Ha.{
  Database, NotificationsState, Reason, Node, abort, signal_handover, realize_lost_heartbeat,
  deadline_exceeded,
}
use icingadb.Ha.Controller.{
  TxResult, committed, committed_late, deadline, deadline_committed, failed, Outside, Outcome, goes,
  returned, fatal, panicked, realize,
}
use icingadb.Ha.Rows.{NoOther-realize_lost_heartbeat, is_active-realize_lost_heartbeat_ne}
use icingadb.Ha.Signals.{frame-NodeOk, handed_over-responsible}
use icingadb.Ha.Takeover.{Before, After, committed-After}

-- The table and the node that a round leaves.
abbrev pub OutcomeAfter : ℕ → ℕ → (ℕ → Bool) → Outcome → Type 0
OutcomeAfter env i R (goes h db) = After env i R h db
OutcomeAfter env i R (returned h db) = Unit
OutcomeAfter env i R fatal = Unit
OutcomeAfter env i R panicked = Unit

signal_handover-instance_id :
    (now : ℕ) (d : Bool) (r : Reason) (h : Node)
    → (signal_handover now d r h).instance_id ≡ h.instance_id
unfolding signal_handover
signal_handover-instance_id now d r h = ground arith

-- A handover takes the own claim away, and nothing of the others.
pub handed-After :
    {env i : ℕ} {R : ℕ → Bool} {h : Node} {db : Database} (now : ℕ) (r : Reason)
    → After env i R h db
    → After env i R (signal_handover now true r h) db
handed-After {env} {i} {R} {h} {db} now r a = record {
  same_id = signal_handover-instance_id now true r h ∙ a.same_id;
  own = λ e. ground (arith, e, handed_over-responsible now r h);
  rest = a.rest;
}

pub stay-After :
    {env now : ℕ} {R : ℕ → Bool} {h : Node} {db : Database}
    → Before env now R h db
    → After env h.instance_id R h db
stay-After {env} {now} {R} {h} {db} b = record {
  same_id = refl;
  own = λ e. b.held h.instance_id (b.responsible ∙ e);
  rest = λ j n e. b.held j e;
}

pub abort-After :
    {env i : ℕ} {R : ℕ → Bool} {h : Node} {db : Database}
    → After env i R h db
    → After env i R (abort h) db
unfolding abort
abort-After a = record { same_id = a.same_id; own = a.own; rest = a.rest }

-- A node that is not responsible and whose row is retracted.
pub retracted-After :
    {env i : ℕ} {R : ℕ → Bool} {h : Node} {db : Database} (ok : Bool)
    → h.responsible ≡ false
    → After env i R h db
    → After env i R h (realize_lost_heartbeat ok h db)
retracted-After {env} {i} {R} {h} {db} ok e a = record {
  same_id = a.same_id;
  own = λ e'. ground (arith, e, e');
  rest = λ j n e'. record {
    active =
        is_active-realize_lost_heartbeat_ne ok env j h db (λ q. n (sym a.same_id ∙ q))
        ∙ (a.rest j n e').active;
    alone = NoOther-realize_lost_heartbeat ok env j h db (a.rest j n e').alone;
  };
}

pub lost-After :
    {env now : ℕ} {R : ℕ → Bool} {h : Node} {db : Database} (ok : Bool) (t : ℕ) (r : Reason)
    → Before env now R h db
    → After env h.instance_id R
        (signal_handover t true r h)
        (realize_lost_heartbeat ok (signal_handover t true r h) db)
lost-After {h = h} ok t r b =
    retracted-After ok (handed_over-responsible t r h) (handed-After t r (stay-After b))

-- Other fields than the responsibility may change.
pub frame-Before :
    {env now : ℕ} {R : ℕ → Bool} {h : Node} {db : Database} (e : Option (Option ℕ))
    (ns : NotificationsState)
    → Before env now R h db
    → Before env now R (record h { environment = e; notifications = ns }) db
frame-Before {h = h} e ns b = record {
  ok = frame-NodeOk h e ns b.ok;
  responsible = b.responsible;
  held = b.held;
  punctual = b.punctual;
}

pub realize-After :
    (tx : TxResult) (o : Outside) (env endpoint : ℕ) (R : ℕ → Bool) (h : Node) (db : Database)
    → o.delivered ≡ true
    → Before env o.tx_now R h db
    → OutcomeAfter env h.instance_id R (realize tx o env endpoint h db)
unfolding realize
realize-After committed o env endpoint R h db e b =
    rw e (committed-After env endpoint o.tx_now o.last_message R h db b)
realize-After committed_late o env endpoint R h db e b =
    rw e (handed-After o.tx_now _ (committed-After env endpoint o.tx_now o.last_message R h db b))
realize-After deadline o env endpoint R h db e b = rw e (handed-After o.tx_now _ (stay-After b))
realize-After deadline_committed o env endpoint R h db e b = rw e (record {
  same_id = signal_handover-instance_id o.tx_now true _ h;
  own = λ e'. ground (arith, e', handed_over-responsible o.tx_now deadline_exceeded h);
  rest = (committed-After env endpoint o.tx_now o.last_message R h db b).rest;
})
realize-After failed o env endpoint R h db e b = abort-After (stay-After b)
