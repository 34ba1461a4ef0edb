-- ===== src/Notifications/Relations.antt =====
-- The relations of an object that an event carries: pkg/notifications/fetch.go.
--
-- What Redis and the SQL database hold is the record `Sources`, and `Failing` says which of the queries
-- of one call fail; their retries are left out. An error leaves what was completed before it, since
-- `relations` is changed in place. A selector is its text, as `selector.String()` gives it.
pub mod Cases
pub mod Provider
pub mod Flags
pub mod Claims
pub mod Objects
pub mod Kept
pub mod Selectors
pub mod Complete
mod Tests
use mathlib.Core.Option
use icingadb.Prelude.{
  ℕ, String, str_append, str_eq, List, [], ◌∷◌, ◌++◌, map, Bool, true, false, not, ◌&&◌, ◌||◌,
  Option, none, some, if◌then◌else◌, is_some,
}

-- Custom variables: their names, and their values as JSON texts.
abbrev pub Vars : Type 0
Vars = List (String × String)

-- What is unmarshalled from Redis: absent variables and an invalid `is_volatile` are `none`.
pub record RedisObject : Type 0 where
  pub name : String
  pub display_name : String
  pub vars : Option Vars
  pub is_volatile : Option Bool

-- `icingaObject`; the field `IsVolatile` is always reset.
pub record IcingaObject : Type 0 where
  pub name : String
  pub display_name : String
  pub vars : Option Vars
  pub is_volatile : Bool

pub data ObjectType : Type 0 where
  host_type : ObjectType
  service_type : ObjectType

pub data GroupsOf : Type 0 where
  hostgroups_of : ℕ → GroupsOf
  servicegroups_of_service : ℕ → GroupsOf
  servicegroups_of_host : ℕ → GroupsOf

-- `custom_vars` lists the rows of an object, `services_of` the IDs of a host's services.
pub record Sources : Type 0 where
  pub redis : ObjectType → ℕ → Option RedisObject
  pub custom_vars : ObjectType → ℕ → Vars
  pub services_of : ℕ → List ℕ
  pub groups : GroupsOf → List IcingaObject

pub record Failing : Type 0 where
  pub redis : Bool
  pub custom_vars : Bool
  pub services_of : Bool
  pub groups : Bool

-- `relations`, without its provider; `object_type` is `Object.Type`.
pub record Relations : Type 0 where
  pub host_id : ℕ
  pub service_id : Option ℕ
  pub complete_relations : List String
  pub object_type : String
  pub host : Option IcingaObject
  pub services : List IcingaObject
  pub hostgroups : List IcingaObject
  pub servicegroups : List IcingaObject

-- How a call ends: `failed` is an error, `panicked` the use of a nil pointer or of a missing element.
pub data Provided : Type 0 where
  done : Relations → Provided
  failed : Relations → Provided
  panicked : Provided

-- The visitor of `fetchObjectsFromRedis`.
abbrev pub to_object : RedisObject → IcingaObject
to_object r = record {
  name = r.name;
  display_name = r.display_name;
  vars = r.vars;
  is_volatile = elim (r.is_volatile) [ none ↦ false | some b ↦ b ];
}

-- `fetchObjectFromRedis`: an absent object is an error.
unfoldable pub fetch_object : Sources → Failing → ObjectType → ℕ → Option IcingaObject
fetch_object s f typ id = if f.redis then none else Option.map to_object (s.redis typ id)

-- The objects that Redis has, by their IDs.
unfoldable pub found_objects : Sources → ObjectType → List ℕ → List (ℕ × IcingaObject)
found_objects s typ [] = []
found_objects s typ (id ∷ ids) =
    let rest = found_objects s typ ids in
    elim (s.redis typ id) [ none ↦ rest | some r ↦ (id, to_object r) ∷ rest ]

-- `fetchObjectsFromRedis`
unfoldable pub fetch_objects :
    Sources → Failing → ObjectType → List ℕ → Option (List (ℕ × IcingaObject))
fetch_objects s f typ [] = some []
fetch_objects s f typ (id ∷ ids) = if f.redis then none else some (found_objects s typ (id ∷ ids))

-- The entry of an object in the map of `fetchMultiCustomVarsFromSql`: none where it has no rows.
abbrev pub vars_entry : Vars → Option Vars
vars_entry [] = none
vars_entry (v ∷ vs) = some (v ∷ vs)

-- `fetchCustomVarsFromSql`; the outer option is the error.
unfoldable pub fetch_custom_vars : Sources → Failing → ObjectType → ℕ → Option (Option Vars)
fetch_custom_vars s f typ id =
    if f.custom_vars then none else some (vars_entry (s.custom_vars typ id))

abbrev pub contains : List String → String → Bool
contains [] k = false
contains (j ∷ l) k = str_eq j k || contains l k

abbrev pub add_relation : String → List String → List String
add_relation k l = if contains l k then l else l ++ (k ∷ [])

abbrev pub add_relations : List String → List String → List String
add_relations [] l = l
add_relations (k ∷ ks) l = add_relations ks (add_relation k l)

-- `newRelations`, with the prefix.
abbrev pub new_relations : String → Bool → Bool → List String
new_relations prefix fetch_object fetch_vars =
    (if fetch_object
      then str_append prefix ".name" ∷ str_append prefix ".display_name" ∷ []
      else [])
    ++ (if fetch_vars then str_append prefix ".vars" ∷ [] else [])

-- `updateCompleteRelations`
abbrev pub update_complete : String → Bool → Bool → Relations → Relations
update_complete prefix fetch_object fetch_vars rel = record rel {
  complete_relations =
      add_relations (new_relations prefix fetch_object fetch_vars) rel.complete_relations;
}

-- What is fetched of one object: `named` and `known` say whether its name and its variables are complete.
abbrev pub fetches_vars : Bool → Bool → Bool
fetches_vars known fetch_vars = fetch_vars && not known

abbrev pub fetches_object : Bool → Bool → Bool → Bool → Bool
fetches_object named known fetch_object fetch_vars =
    let asked = fetch_object && not named in
    asked || (fetches_vars known fetch_vars && (not asked && not named))

-- The object whose variables are set: the one that is fetched, or the one that is there.
abbrev pub object_for :
    Bool → Option IcingaObject → Option IcingaObject → Option (Option IcingaObject)
object_for true existing none = none
object_for true existing (some o) = some (some o)
object_for false existing fetched = some existing

abbrev pub vars_for : Bool → Option (Option Vars) → Option (Option Vars)
vars_for true fetched = fetched
vars_for false fetched = some none

-- The end of the cases for a host and for a service: `put` stores the object.
unfoldable pub put_object :
    String
    → Bool
    → Bool
    → (IcingaObject → Relations → Relations)
    → Option (Option IcingaObject)
    → Option (Option Vars)
    → Relations
    → Provided
put_object prefix fo fv put none vars rel = failed rel
put_object prefix fo fv put (some o) none rel = failed rel
put_object prefix fo fv put (some none) (some vars) rel = panicked
put_object prefix fo fv put (some (some o)) (some vars) rel =
    done (put (record o { vars = vars }) (update_complete prefix fo fv rel))

abbrev pub set_host : IcingaObject → Relations → Relations
set_host o rel = record rel { host = some o }

abbrev pub set_service : IcingaObject → Relations → Relations
set_service o rel = record rel { services = o ∷ [] }
