-- ===== src/Migration.antt =====
-- The migration of an IDO database: what the conversions share (cmd/icingadb-migrate/misc.go).
--
-- `hash` is `hashAny`: the SHA-1 hash of what `objectpacker` packs, a slice of texts and of numbers.
-- `digits n` is the text of the number n. Times are in microseconds, and the zero time is `none`. A nil ID is `none`.
pub mod Tables
mod Samples
pub mod States
pub mod Comments
pub mod Flapping
pub mod Notifications
pub mod Slices
pub mod CacheTables
pub mod HardStates
pub mod StartTimes
use icingadb.Prelude.{
  ℕ, ◌+◌, ◌*◌, ◌/◌, String, str_append, str_eq, List, [], ◌∷◌, Bool, true, false, ◌&&◌, Option,
  none, some, if◌then◌else◌, ◌==◌, ◌≡◌, ◌⊎◌,
}

pub data Field : Type 0 where
  text : String → Field
  number : ℕ → Field
  negative : ℕ → Field
  digits : ℕ → Field

abbrev pub Hash : Type 0
Hash = List Field → String

abbrev pub Time : Type 0
Time = Option ℕ

abbrev pub convert_time : ℕ → ℕ → Time
convert_time ts us = if ts == 0 && us == 0 then none else some (ts * 1000000 + us)

-- `float64(t.UnixMilli())`: the zero time is that of the year 1.
abbrev pub unix_milli : Time → Field
unix_milli none = negative 62135596800000
unix_milli (some t) = number (t / 1000)

abbrev pub is_zero : Time → Bool
is_zero none = true
is_zero (some t) = false

abbrev pub calc_object_id : Hash → String → String → Option String
calc_object_id hash env name =
    if str_eq name "" then none else some (hash (text env ∷ text name ∷ []))

abbrev pub calc_service_id : Hash → String → String → String → Option String
calc_service_id hash env name1 name2 =
    if str_eq name2 ""
    then none
    else some (hash (text env ∷ text (str_append name1 (str_append "!" name2)) ∷ []))

-- `objectTypes`: a key that is missing yields the empty string.
abbrev pub object_type : ℕ → String
object_type n = if n == 1 then "host" else if n == 2 then "service" else ""

-- `history.HistoryTableMeta`, and the same fields of `history.HistoryMeta`.
pub record Meta : Type 0 where
  pub object_type : String
  pub host_id : Option String
  pub service_id : Option String

abbrev pub meta_of : Hash → String → ℕ → String → String → Meta
meta_of hash env typ name1 name2 = record {
  object_type = object_type typ;
  host_id = calc_object_id hash env name1;
  service_id = calc_service_id hash env name1 name2;
}

-- The name that the migrated entries are hashed with.
abbrev pub full_name : String → String → String
full_name name1 name2 = if str_eq name2 "" then name1 else str_append name1 (str_append "!" name2)

-- An ID is among those of a table.
abbrev pub Has {ℓ} : {A : Type ℓ} → (A → String) → String → List A → Type 0
Has f i [] = ⊥
Has f i (x ∷ xs) = (f x ≡ i) ⊎ Has f i xs
