-- ===== src/Notifications/Relations/Tests.antt =====
-- A service of which more and more relations are asked for, and a query that fails.
use icingadb.Prelude.{String, List, [], ◌∷◌, Bool, true, false, none, some, ◌≡◌, refl}
use icingadb.Notifications.Relations.{
  Sources, Failing, ObjectType, host_type, service_type, done, contains, Provided, fetch_object,
  fetch_custom_vars, put_object,
}
use icingadb.Notifications.Relations.Cases.{on_host, on_service, on_hostgroups}
use icingadb.Notifications.Relations.Provider.{
  complete_all, fetch_host_service_data, relations_provider, on_selectors, on_selector, on_root,
  asked, new_relations_of,
}

abbrev object_of : ObjectType → String
object_of host_type = "db1"
object_of service_type = "disk"

abbrev sources : Sources
sources = record {
  redis = λ typ id. some (record {
    name = object_of typ;
    display_name = object_of typ;
    vars = none;
    is_volatile = none;
  });
  custom_vars = λ typ id. ("os", "\"linux\"") ∷ [];
  services_of = λ id. 7 ∷ [];
  groups = λ g. [];
}

abbrev works : Failing
works = record { redis = false; custom_vars = false; services_of = false; groups = false }

abbrev no_vars : Failing
no_vars = record { redis = false; custom_vars = true; services_of = false; groups = false }

abbrev calls : List (Failing × List (List String))
calls =
    (no_vars, ("\"host\"" ∷ []) ∷ ("\"vars\"" ∷ []) ∷ [])
    ∷ (works, ("\"host\"" ∷ []) ∷ ("\"vars\"" ∷ []) ∷ [])
    ∷ (works, ("\"services\"" ∷ "\"hostgroups\"" ∷ []) ∷ [])
    ∷ []

abbrev claims_host_vars : Provided → Bool
claims_host_vars (done rel) = contains rel.complete_relations "host.vars"
claims_host_vars _ = false

vars_completed :
    claims_host_vars (complete_all sources calls (fetch_host_service_data sources works 1 (some 7)))
    ≡ true
unfolding complete_all fetch_host_service_data relations_provider on_selectors on_selector on_root
    asked new_relations_of on_host on_service on_hostgroups fetch_object fetch_custom_vars
    put_object
vars_completed = refl
