-- ===== src/Ha/Takeover.antt =====
-- What a committed transaction of `realize` does to who is responsible.
use icingadb.Prelude.{
  ℕ, ◌+◌, [], ◌∷◌, Bool, true, false, Option, none, some, ◌≡◌, ◌≢◌, refl, arith, All, ltb, inl, inr,
  Bool-cases, Option-cases, subst, sym, ◌∙◌,
}
use icingadb.Ha.{
  Instance, Database, peer_timeout, Reason, other_expired, none_active, Node, find_other, decide,
  is_other_active, own_row, write_rows, transaction, conclude, signal_takeover, note_other,
  signal_handover,
}
use icingadb.Ha.Rows.{
  NoOther, is_active, find_other-none, find_other_of_NoOther, find_other-is_active, not-is_active,
  NoOther-upsert, is_active-upsert, is_active-upsert_ne, NoOther-retract_others,
  is_active-retract_others,
}
use icingadb.Ha.Signals.{NodeOk, note_other-responsible}

-- The table says that the instance, and no other one, is responsible.
pub record Held (env id : ℕ) (db : Database) : Type 0 where
  pub active : is_active env id db ≡ true
  pub alone : NoOther env id db

abbrev pub is_expired : ℕ → Instance → Bool
is_expired now r = ltb (r.heartbeat + peer_timeout) now

find_other-All :
    (P : Instance → Type 0) (env self : ℕ) (db : Database) (r : Instance)
    → All P db
    → find_other env self db ≡ some r
    → P r
unfolding find_other
find_other-All P env self [] r all e = cc
find_other-All P env self (x ∷ rows) r all e = elim (Bool-cases (is_other_active env self x)) [
  | inl found ↦ subst P (ground (arith, e, found)) all.0
  | inr other ↦ find_other-All P env self rows r all.1 (ground (arith, e, other))
]

pub Held-unique : {env i j : ℕ} {db : Database} → Held env i db → Held env j db → i ≡ j
Held-unique {env} {i} {j} {db} hi hj = ground (arith, not-is_active env i j db hi.alone, hj.active)

-- After a takeover the table says that this instance, and no other one, is responsible.
takeover-Held :
    (h : Node) (env endpoint last : ℕ) (why : Reason) (db : Database)
    → Held env h.instance_id (write_rows h env endpoint last (some why) db)
unfolding write_rows own_row
takeover-Held h env endpoint last why db = record {
  active =
      is_active-retract_others env h.instance_id _
      ∙ is_active-upsert env (own_row h env endpoint last (some why)) db refl refl;
  alone = NoOther-retract_others env h.instance_id _;
}

-- A node that stays responsible keeps its row.
keep-Held :
    (h : Node) (env endpoint last : ℕ) (db : Database)
    → h.responsible ≡ true
    → NoOther env h.instance_id db
    → Held env h.instance_id (write_rows h env endpoint last none db)
unfolding write_rows own_row
keep-Held h env endpoint last db e alone = record {
  active = is_active-upsert env (own_row h env endpoint last none) db refl e;
  alone = NoOther-upsert env h.instance_id _ db (ground arith) alone;
}

-- The row of a node that is not responsible takes nothing away from another.
write-Held :
    (h : Node) (env endpoint last j : ℕ) (db : Database)
    → h.responsible ≡ false
    → h.instance_id ≢ j
    → Held env j db
    → Held env j (write_rows h env endpoint last none db)
unfolding write_rows own_row
write-Held h env endpoint last j db e n held = record {
  active = is_active-upsert_ne env j (own_row h env endpoint last none) db n ∙ held.active;
  alone = NoOther-upsert env j _ db (ground (arith, e)) held.alone;
}

-- What becomes of a table in which `R j` says that node `j` is responsible, by a round of node `i`.
pub record After (env i : ℕ) (R : ℕ → Bool) (h : Node) (db : Database) : Type 0 where
  pub same_id : h.instance_id ≡ i
  pub own : h.responsible ≡ true → Held env i db
  pub rest : (j : ℕ) → i ≢ j → R j ≡ true → Held env j db

-- The nodes before a round of `h`, and that a node whose row is expired is not responsible.
pub record Before (env now : ℕ) (R : ℕ → Bool) (h : Node) (db : Database) : Type 0 where
  pub ok : NodeOk h
  pub responsible : R h.instance_id ≡ h.responsible
  pub held : (j : ℕ) → R j ≡ true → Held env j db
  pub punctual : All (λ r. is_expired now r ≡ true → R r.id ≡ false) db

alone_of-none :
    {env now : ℕ} {R : ℕ → Bool} {h : Node} {db : Database}
    → Before env now R h db
    → find_other env h.instance_id db ≡ none
    → (j : ℕ) → h.instance_id ≢ j
    → R j ≡ false
alone_of-none {env} {now} {R} {h} {db} b e j n = elim (Bool-cases (R j)) [
  | inl e' ↦ ground (
    arith,
    (b.held j e').active,
    not-is_active env h.instance_id j db (find_other-none env h.instance_id db e) (λ q. n (sym q)),
  )
  | inr e' ↦ e'
]

alone_of-expired :
    {env now : ℕ} {R : ℕ → Bool} {h : Node} {db : Database}
    → Before env now R h db
    → (r : Instance) → find_other env h.instance_id db ≡ some r
    → is_expired now r ≡ true
    → (j : ℕ) → R j ≡ false
alone_of-expired {env} {now} {R} {h} {db} b r e late j = elim (Bool-cases (R j)) [
  | inl e' ↦
      let (n, active) = find_other-is_active env h.instance_id db r e in
      let on_time = find_other-All _ env h.instance_id db r b.punctual e late in
      let other = not-is_active env j r.id db (b.held j e').alone in
      ground (arith, active, on_time, other, e')
  | inr e' ↦ e'
]

signal_takeover-instance_id :
    (now : ℕ) (d : Bool) (r : Reason) (h : Node)
    → (signal_takeover now d r h).instance_id ≡ h.instance_id
unfolding signal_takeover
signal_takeover-instance_id now d r h = ground arith

-- Nobody else is responsible, and the table says that this node is.
sole-After :
    {env : ℕ} {R : ℕ → Bool} (i : ℕ) (h : Node) (db : Database)
    → h.instance_id ≡ i
    → Held env i db
    → ((j : ℕ) → i ≢ j → R j ≡ false)
    → After env i R h db
sole-After i h db e held alone = record {
  same_id = e;
  own = λ e'. held;
  rest = λ j n e'. ground (arith, alone j n, e');
}

note_other-instance_id :
    (now : ℕ) (d : Bool) (h : Node) → (note_other now d h).instance_id ≡ h.instance_id
unfolding note_other signal_handover
note_other-instance_id now d h = ground arith

not-responsible_of-some :
    {env now : ℕ} {R : ℕ → Bool} {h : Node} {db : Database}
    → Before env now R h db
    → (r : Instance) → find_other env h.instance_id db ≡ some r
    → h.responsible ≡ false
not-responsible_of-some {env} {now} {R} {h} {db} b r e = elim (Bool-cases (h.responsible)) [
  | inl e' ↦
      let held = b.held h.instance_id (b.responsible ∙ e') in
      ground (arith, e, find_other_of_NoOther env h.instance_id db held.alone)
  | inr e' ↦ e'
]

pub committed-After :
    (env endpoint now last : ℕ) (R : ℕ → Bool) (h : Node) (db : Database)
    → Before env now R h db
    → After env h.instance_id R
        (conclude now true (decide h now (find_other env h.instance_id db)) h)
        (transaction h env endpoint now last db)
unfolding transaction conclude decide
committed-After env endpoint now last R h db b =
    let motive = λ (d : Option Reason × Bool).
      After env h.instance_id R (conclude now true d h) (write_rows h env endpoint last d.0 db) in
    let taken = λ (why : Reason) (alone : (j : ℕ) → h.instance_id ≢ j → R j ≡ false).
      sole-After h.instance_id (signal_takeover now true why h) _
        (signal_takeover-instance_id now true why h) (takeover-Held h env endpoint last why db)
        alone in
    let decided =
      λ (d : Option Reason × Bool) (eq : decide h now (find_other env h.instance_id db) ≡ d)
          (m : motive d).
        subst motive (sym eq) m in
    elim (Option-cases (find_other env h.instance_id db)) [
      | inl e ↦ elim (Bool-cases (h.responsible)) [
        | inl e' ↦
            decided (none, false) (rw (e, e') refl)
              (sole-After h.instance_id h _ refl
                (keep-Held h env endpoint last db e' (find_other-none env h.instance_id db e))
                (alone_of-none b e))
        | inr e' ↦
            decided (some none_active, false) (rw (e, e') refl)
              (taken none_active (alone_of-none b e))
      ]
      | inr (r, e) ↦ elim (Bool-cases (is_expired now r)) [
        | inl late ↦
            decided (some other_expired, false) (rw (e, late) refl)
              (taken other_expired (λ j n. alone_of-expired b r e late j))
        | inr on_time ↦
            decided (none, true) (rw (e, on_time) refl)
              (record {
                same_id = note_other-instance_id now true h;
                own = λ e'. ground (arith, e', note_other-responsible now h b.ok);
                rest = λ j n e'.
                    write-Held h env endpoint last j db (not-responsible_of-some b r e) n
                      (b.held j e');
              })
      ]
    ]
