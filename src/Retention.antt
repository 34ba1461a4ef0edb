-- ===== src/Retention.antt =====
-- The retention of history: pkg/icingadb/history/retention.go, `Validate` and `Start`.
--
-- The options are the map's pairs, in any order. The names of tables and the periodic timer are left
-- out: `Start` yields the statements that it runs, with their retention period in days.
pub mod Days
mod Tests
use icingadb.Prelude.{
  ℕ, String, List, [], ◌∷◌, Bool, true, false, ◌&&◌, ◌||◌, Option, none, some, if◌then◌else◌, ltb,
  str_eq,
}

pub data RetentionType : Type 0 where
  retention_history : RetentionType
  retention_sla : RetentionType

pub record RetentionStatement : Type 0 where
  pub retention_type : RetentionType
  pub category : String

abbrev pub history : String → RetentionStatement
history c = record { retention_type = retention_history; category = c }

abbrev pub sla : String → RetentionStatement
sla c = record { retention_type = retention_sla; category = c }

abbrev pub retention_statements : List RetentionStatement
retention_statements =
    history "acknowledgement"
    ∷ history "comment"
    ∷ history "downtime"
    ∷ history "flapping"
    ∷ history "notification"
    ∷ history "state"
    ∷ sla "sla_downtime"
    ∷ sla "sla_state"
    ∷ []

abbrev pub RetentionOptions : Type 0
RetentionOptions = List (String × ℕ)

abbrev pub option_days : String → RetentionOptions → Option ℕ
option_days c [] = none
option_days c ((k, d) ∷ l) = if str_eq k c then some d else option_days c l

abbrev pub is_history : RetentionType → Bool
is_history retention_history = true
is_history retention_sla = false

-- Membership in `allowedCategories`.
unfoldable pub is_allowed : String → List RetentionStatement → Bool
is_allowed c [] = false
is_allowed c (s ∷ l) = (is_history s.retention_type && str_eq s.category c) || is_allowed c l

-- `Validate`, over the statements: whether there is no error.
unfoldable pub validate : List RetentionStatement → RetentionOptions → Bool
validate statements [] = true
validate statements ((c, d) ∷ l) = is_allowed c statements && validate statements l

pub record Retention : Type 0 where
  pub history_days : ℕ
  pub sla_days : ℕ
  pub options : RetentionOptions

abbrev pub or_default : ℕ → Option ℕ → ℕ
or_default d none = d
or_default d (some n) = n

unfoldable pub days_for : Retention → RetentionType → String → ℕ
days_for r retention_history c = or_default r.history_days (option_days c r.options)
days_for r retention_sla c = r.sla_days

-- The loop of `Start`: the statements that are run, each with its days.
unfoldable pub start : Retention → List RetentionStatement → List (RetentionStatement × ℕ)
start r [] = []
start r (s ∷ l) =
    let rest = start r l in
    let days = days_for r s.retention_type s.category in
    if ltb days 1 then rest else (s, days) ∷ rest
