-- ===== src/Ha/Cluster.antt =====
-- Several instances that share `icingadb_instance`: who is responsible for one environment.
--
-- The nodes are numbered by their instance IDs. A round of the controller's loop is one step: the
-- transaction of `realize` is serializable, or it locks the rows that it reads. `removeOldInstances` and
-- `removeInstance` are steps.
use icingadb.Prelude.{
  ℕ, ◌+◌, ◌&&◌, [], ◌∷◌, Bool, true, false, not, ◌≡◌, ◌≢◌, refl, arith, All, ltb, ◌==◌, ==_iff, inl,
  inr, Bool-cases, ap, subst, sym, ◌∙◌, if◌then◌else◌,
}
use icingadb.Ha.{Database, peer_timeout, Node, new_ha, remove_instance, remove_old_instances}
use icingadb.Ha.Controller.{Outside, Event, goes, step}
use icingadb.Ha.Rows.{NoOther, is_active}
use icingadb.Ha.Signals.{NodeOk, new_ha-NodeOk}
use icingadb.Ha.Reachable.{OutcomeOk, step-OutcomeOk}
use icingadb.Ha.Takeover.{Held, Before, After, Held-unique, is_expired}
use icingadb.Ha.Realizing.{OutcomeAfter}
use icingadb.Ha.Rounds.{IsOf, step-After}

abbrev pub Nodes : Type 0
Nodes = ℕ → Node

abbrev pub put : ℕ → Node → Nodes → Nodes
put i h nodes = λ j. if j == i then h else nodes j

-- A node whose row is expired at `now` has handed over: it must, by `heartbeatTimeout` and by the
-- deadline of its transactions, as long as the clocks agree.
abbrev pub Punctual : ℕ → Nodes → Database → Type 0
Punctual now nodes = All (λ r. is_expired now r ≡ true → (nodes r.id).responsible ≡ false)

-- What the nodes of an environment reach from a start at which none is responsible.
pub data Reaches (timeout env : ℕ) : Nodes → Database → Type 0 where
  start : (db : Database) → Reaches timeout env (λ i. new_ha i) db
  -- Node `i` goes round its loop.
  round :
      (i : ℕ) (nodes : Nodes) (db db' : Database) (h : Node) (o : Outside) (e : Event)
      → Reaches timeout env nodes db
      → Punctual o.tx_now nodes db
      → o.delivered ≡ true
      → IsOf env e
      → step timeout o e (nodes i) db ≡ goes h db'
      → Reaches timeout env (put i h nodes) db'
  -- The process of node `i` ends, and removes its row if it can.
  stop :
      (i : ℕ) (nodes : Nodes) (db : Database) (removed : Bool)
      → Reaches timeout env nodes db
      → Reaches timeout env
          (put i (new_ha i) nodes)
          (if removed then remove_instance (nodes i) db else db)
  -- Node `i` cleans up at the time `now`.
  clean :
      (i : ℕ) (nodes : Nodes) (db : Database) (endpoint now : ℕ)
      → Reaches timeout env nodes db
      → Punctual now nodes db
      → Reaches timeout env nodes (remove_old_instances (nodes i) env endpoint now db)

-- What every reachable state satisfies.
record Inv (env : ℕ) (nodes : Nodes) (db : Database) : Type 0 where
  ids : (i : ℕ) → (nodes i).instance_id ≡ i
  ok : (i : ℕ) → NodeOk (nodes i)
  held : (i : ℕ) → (nodes i).responsible ≡ true → Held env i db

NoOther-remove_instance :
    (env j : ℕ) (h : Node) (db : Database) → NoOther env j db → NoOther env j (remove_instance h db)
unfolding remove_instance
NoOther-remove_instance env j h [] n = tt
NoOther-remove_instance env j h (r ∷ rows) n = elim (Bool-cases (r.id == h.instance_id)) [
  | inl e ↦ rw e (NoOther-remove_instance env j h rows n.1)
  | inr e ↦ rw e (n.0, NoOther-remove_instance env j h rows n.1)
]

is_active-remove_instance :
    (env j : ℕ) (h : Node) (db : Database)
    → h.instance_id ≢ j
    → is_active env j (remove_instance h db) ≡ is_active env j db
unfolding remove_instance
is_active-remove_instance env j h [] n = refl
is_active-remove_instance env j h (r ∷ rows) n =
    ground (arith, is_active-remove_instance env j h rows n)

NoOther-remove_old_instances :
    (env j env' endpoint now : ℕ) (h : Node) (db : Database)
    → NoOther env j db
    → NoOther env j (remove_old_instances h env' endpoint now db)
unfolding remove_old_instances
NoOther-remove_old_instances env j env' endpoint now h [] n = tt
NoOther-remove_old_instances env j env' endpoint now h (r ∷ rows) n =
    elim (Bool-cases (
      not (r.id == h.instance_id)
      && (r.environment_id == env'
          && (r.endpoint_id == endpoint && ltb (r.heartbeat + peer_timeout) now)))) [
            | inl e ↦ rw e (NoOther-remove_old_instances env j env' endpoint now h rows n.1)
            | inr e ↦ rw e (n.0, NoOther-remove_old_instances env j env' endpoint now h rows n.1)
          ]

-- The row of a responsible node is not expired, hence not removed.
is_active-remove_old_instances :
    (env j env' endpoint now : ℕ) (nodes : Nodes) (h : Node) (db : Database)
    → Punctual now nodes db
    → (nodes j).responsible ≡ true
    → is_active env j (remove_old_instances h env' endpoint now db) ≡ is_active env j db
unfolding remove_old_instances
is_active-remove_old_instances env j env' endpoint now nodes h [] p e = refl
is_active-remove_old_instances env j env' endpoint now nodes h (r ∷ rows) p e =
    let rest = is_active-remove_old_instances env j env' endpoint now nodes h rows p.1 e in
    elim (Bool-cases (is_expired now r)) [
      | inl late ↦
          let other : r.id ≢ j =
            λ q. ground (arith, subst (λ k. (nodes k).responsible ≡ false) q (p.0 late), e) in
          ground (arith, rest, other)
      | inr on_time ↦ ground (arith, rest, on_time)
    ]

put-Inv :
    (env i : ℕ) (nodes : Nodes) (h : Node) (db db' : Database)
    → Inv env nodes db
    → NodeOk h
    → After env i (λ j. (nodes j).responsible) h db'
    → Inv env (put i h nodes) db'
put-Inv env i nodes h db db' inv ok a = record {
  ids = λ j. elim (Bool-cases (j == i)) [
    | inl e ↦ rw e (ground (arith, a.same_id, e))
    | inr e ↦ rw e (inv.ids j)
  ];
  ok = λ j. elim (Bool-cases (j == i)) [ inl e ↦ rw e ok | inr e ↦ rw e (inv.ok j) ];
  held = λ j. elim (Bool-cases (j == i)) [
    | inl e ↦ rw e (λ q. subst (λ k. Held env k db') (sym ((==_iff j i).0 e)) (a.own q))
    | inr e ↦ rw e (λ q. a.rest j (ground (arith, e)) q)
  ];
}

stop-After :
    (env i : ℕ) (nodes : Nodes) (db : Database) (removed : Bool)
    → Inv env nodes db
    → After env i
        (λ j. (nodes j).responsible)
        (new_ha i)
        (if removed then remove_instance (nodes i) db else db)
unfolding new_ha
stop-After env i nodes db false inv = record {
  same_id = refl;
  own = λ e. ground (arith, e);
  rest = λ j n e. inv.held j e;
}
stop-After env i nodes db true inv = record {
  same_id = refl;
  own = λ e. ground (arith, e);
  rest = λ j n e. record {
    active =
        is_active-remove_instance env j (nodes i) db (λ q. n (sym (inv.ids i) ∙ q))
        ∙ (inv.held j e).active;
    alone = NoOther-remove_instance env j (nodes i) db (inv.held j e).alone;
  };
}

reaches-Inv :
    (timeout env : ℕ) (nodes : Nodes) (db : Database)
    → Reaches timeout env nodes db
    → Inv env nodes db
unfolding new_ha
reaches-Inv timeout env nodes db (start _) = record {
  ids = λ i. refl;
  ok = new_ha-NodeOk;
  held = λ i e. ground (arith, e);
}
reaches-Inv timeout env nodes db (round i before db₀ db' h o e r p d of eq) =
    let inv = reaches-Inv timeout env _ _ r in
    let R = λ (j : ℕ). (before j).responsible in
    let held_before : Before env o.tx_now R (before i) db₀ = record {
      ok = inv.ok i;
      responsible = ap R (inv.ids i);
      held = inv.held;
      punctual = p;
    } in
    let after =
      subst (λ k. After env k R h db') (inv.ids i)
        (subst (OutcomeAfter env (before i).instance_id R) eq
          (step-After timeout o e env R (before i) db₀ d of held_before)) in
    put-Inv env i before h db₀ db' inv
      (subst OutcomeOk eq (step-OutcomeOk timeout o e (before i) db₀ d (inv.ok i))) after
reaches-Inv timeout env nodes db (stop i before db₀ removed r) =
    let inv = reaches-Inv timeout env _ _ r in
    put-Inv env i before (new_ha i) db₀ _ inv (new_ha-NodeOk i)
      (stop-After env i before db₀ removed inv)
reaches-Inv timeout env nodes db (clean i before db₀ endpoint now r p) =
    let inv = reaches-Inv timeout env _ _ r in
    record {
      ids = inv.ids;
      ok = inv.ok;
      held = λ j e. record {
        active =
            is_active-remove_old_instances env j env endpoint now before _ db₀ p e
            ∙ (inv.held j e).active;
        alone = NoOther-remove_old_instances env j env endpoint now _ db₀ (inv.held j e).alone;
      };
    }

-- Whatever the rounds, restarts and cleanups, at most one node is responsible for the environment,
-- provided that the signals are received and that no round or cleanup finds the row of a node that is
-- still responsible to be expired.
pub reaches-responsible_unique :
    (timeout env : ℕ) (nodes : Nodes) (db : Database) (i j : ℕ)
    → Reaches timeout env nodes db
    → (nodes i).responsible ≡ true
    → (nodes j).responsible ≡ true
    → i ≡ j
reaches-responsible_unique timeout env nodes db i j r ei ej =
    let inv = reaches-Inv timeout env nodes db r in Held-unique (inv.held i ei) (inv.held j ej)
