-- ===== src/Ha/Rows.antt =====
-- What the statements of the HA controller do to the responsibilities in `icingadb_instance`.
use icingadb.Prelude.{
  ℕ, [], ◌∷◌, Bool, true, false, ◌&&◌, ◌||◌, none, some, ◌≡◌, ◌≢◌, refl, arith, All, ◌==◌, inl, inr,
  Bool-cases,
}
use icingadb.Ha.{
  Instance, Database, Node, is_other_active, find_other, upsert, retract_others,
  realize_lost_heartbeat,
}

-- No instance of the environment but `self` has a row that says it is responsible.
abbrev pub NoOther : ℕ → ℕ → Database → Type 0
NoOther env self = All (λ r. is_other_active env self r ≡ false)

-- Some row says that the instance is responsible for the environment.
abbrev pub is_active : ℕ → ℕ → Database → Bool
is_active env id [] = false
is_active env id (r ∷ rows) =
    (r.environment_id == env && (r.responsible && r.id == id)) || is_active env id rows

pub find_other-none :
    (env self : ℕ) (db : Database) → find_other env self db ≡ none → NoOther env self db
unfolding find_other
find_other-none env self [] h = tt
find_other-none env self (r ∷ rows) h = elim (Bool-cases (is_other_active env self r)) [
  | inl e ↦ ground (arith, e)
  | inr e ↦ (e, find_other-none env self rows (ground (arith, e)))
]

pub find_other_of_NoOther :
    (env self : ℕ) (db : Database) → NoOther env self db → find_other env self db ≡ none
unfolding find_other
find_other_of_NoOther env self [] h = refl
find_other_of_NoOther env self (r ∷ rows) h =
    rw (h.0, find_other) (find_other_of_NoOther env self rows h.1)

-- The row that is found is one of another instance, and it says that this one is responsible.
pub find_other-is_active :
    (env self : ℕ) (db : Database) (r : Instance)
    → find_other env self db ≡ some r
    → (r.id ≢ self) × (is_active env r.id db ≡ true)
unfolding find_other
find_other-is_active env self [] r h = cc
find_other-is_active env self (x ∷ rows) r h = elim (Bool-cases (is_other_active env self x)) [
  | inl e ↦ ground (arith, e)
  | inr e ↦
      let (ne, active) = find_other-is_active env self rows r (ground (arith, e)) in
      (ne, ground (arith, active))
]

pub not-is_active :
    (env self id : ℕ) (db : Database)
    → NoOther env self db
    → id ≢ self
    → is_active env id db ≡ false
not-is_active env self id [] h n = refl
not-is_active env self id (r ∷ rows) h n = ground (arith, not-is_active env self id rows h.1 n)

-- The upsert of an own row.
pub NoOther-upsert :
    (env self : ℕ) (i : Instance) (db : Database)
    → (is_other_active env self i ≡ false)
    → NoOther env self db
    → NoOther env self (upsert i db)
unfolding upsert
NoOther-upsert env self i [] e h = (e, tt)
NoOther-upsert env self i (r ∷ rows) e h = elim (Bool-cases (r.id == i.id)) [
  | inl same ↦ rw same (e, h.1)
  | inr other ↦ rw other (h.0, NoOther-upsert env self i rows e h.1)
]

pub is_active-upsert :
    (env : ℕ) (i : Instance) (db : Database)
    → i.environment_id ≡ env
    → i.responsible ≡ true
    → is_active env i.id (upsert i db) ≡ true
unfolding upsert
is_active-upsert env i [] e h = ground arith
is_active-upsert env i (r ∷ rows) e h = ground (arith, is_active-upsert env i rows e h)

pub is_active-upsert_ne :
    (env id : ℕ) (i : Instance) (db : Database)
    → i.id ≢ id
    → is_active env id (upsert i db) ≡ is_active env id db
unfolding upsert
is_active-upsert_ne env id i [] n = ground arith
is_active-upsert_ne env id i (r ∷ rows) n = ground (arith, is_active-upsert_ne env id i rows n)

pub NoOther-retract_others :
    (env self : ℕ) (db : Database) → NoOther env self (retract_others env self db)
unfolding retract_others
NoOther-retract_others env self [] = tt
NoOther-retract_others env self (r ∷ rows) = (ground arith, NoOther-retract_others env self rows)

pub is_active-retract_others :
    (env self : ℕ) (db : Database)
    → is_active env self (retract_others env self db) ≡ is_active env self db
unfolding retract_others
is_active-retract_others env self [] = refl
is_active-retract_others env self (r ∷ rows) =
    ground (arith, is_active-retract_others env self rows)

pub NoOther-realize_lost_heartbeat :
    (ok : Bool) (env self : ℕ) (h : Node) (db : Database)
    → NoOther env self db
    → NoOther env self (realize_lost_heartbeat ok h db)
unfolding realize_lost_heartbeat
NoOther-realize_lost_heartbeat false env self h db n = n
NoOther-realize_lost_heartbeat true env self h [] n = tt
NoOther-realize_lost_heartbeat true env self h (r ∷ rows) n =
    (ground arith, NoOther-realize_lost_heartbeat true env self h rows n.1)

pub is_active-realize_lost_heartbeat_ne :
    (ok : Bool) (env id : ℕ) (h : Node) (db : Database)
    → h.instance_id ≢ id
    → is_active env id (realize_lost_heartbeat ok h db) ≡ is_active env id db
unfolding realize_lost_heartbeat
is_active-realize_lost_heartbeat_ne false env id h db n = refl
is_active-realize_lost_heartbeat_ne true env id h [] n = refl
is_active-realize_lost_heartbeat_ne true env id h (r ∷ rows) n =
    ground (arith, is_active-realize_lost_heartbeat_ne true env id h rows n)

-- The update that a lost heartbeat makes retracts the own rows and nothing else.
pub is_active-realize_lost_heartbeat :
    (env : ℕ) (h : Node) (db : Database)
    → is_active env h.instance_id (realize_lost_heartbeat true h db) ≡ false
unfolding realize_lost_heartbeat
is_active-realize_lost_heartbeat env h [] = refl
is_active-realize_lost_heartbeat env h (r ∷ rows) =
    ground (arith, is_active-realize_lost_heartbeat env h rows)
