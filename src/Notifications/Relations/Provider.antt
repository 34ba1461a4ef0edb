-- ===== src/Notifications/Relations/Provider.antt =====
-- The loop of `relationsProvider` in pkg/notifications/fetch.go, and what starts it.
use icingadb.Prelude.{
  ℕ, String, str_eq, List, [], ◌∷◌, Bool, true, false, not, ◌||◌, Option, none, some, if◌then◌else◌,
}
use icingadb.Notifications.Relations.{Sources, Failing, Relations, Provided, done, failed, panicked}
use icingadb.Notifications.Relations.Cases.{
  on_host, on_service, on_host_services, on_hostgroups, on_servicegroups, first,
}

-- What the selectors of a child segment ask for: the object, and the variables.
abbrev pub asks_object : List String → Bool
asks_object [] = false
asks_object (s ∷ l) = not (str_eq s "\"vars\"") || asks_object l

abbrev pub asks_vars : List String → Bool
asks_vars [] = false
asks_vars (s ∷ l) = str_eq s "\"vars\"" || (str_eq s "*" || asks_vars l)

-- `fetchObject` and `fetchCustomVars` for a root selector and the child segments.
unfoldable pub asked : String → List (List String) → Bool × Bool
asked root [] = (true, true)
asked root (first ∷ []) =
    if str_eq root "\"host\"" then (asks_object first, asks_vars first) else (true, true)
asked root (first ∷ second ∷ rest) =
    if str_eq root "\"host\""
    then (asks_object first, asks_vars first)
    else (asks_object second, asks_vars second)

abbrev pub on_services : Option ℕ → Sources → Failing → Bool → Bool → Relations → Provided
on_services none s f fo fv rel = on_host_services s f fo fv rel
on_services (some id) s f fo fv rel = on_service s f id fo fv rel

unfoldable pub on_root : Sources → Failing → String → Bool × Bool → Relations → Provided
on_root s f root (fo, fv) rel =
    if str_eq root "\"host\""
    then on_host s f fo fv rel
    else if str_eq root "\"services\""
    then on_services rel.service_id s f fo fv rel
    else if str_eq root "\"hostgroups\""
    then on_hostgroups s f fo fv rel
    else if str_eq root "\"servicegroups\""
    then on_servicegroups s f fo fv rel
    else failed rel

-- One round of the loop over the root selectors.
unfoldable pub on_selector : Sources → Failing → List (List String) → String → Relations → Provided
on_selector s f children root rel =
    if str_eq root "\"object\"" then done rel else on_root s f root (asked root children) rel

unfoldable pub on_selectors :
    Sources → Failing → List (List String) → List String → Provided → Provided
on_selectors s f children [] o = o
on_selectors s f children (root ∷ roots) (done rel) =
    on_selectors s f children roots (on_selector s f children root rel)
on_selectors s f children (root ∷ roots) o = o

-- `relationsProvider`, and so `complete` for a path that is parsed to these segments.
unfoldable pub relations_provider : Sources → Failing → List (List String) → Relations → Provided
relations_provider s f [] rel = failed rel
relations_provider s f (roots ∷ children) rel = on_selectors s f children roots (done rel)

-- `populateObject` on the new relations of `fetchHostServiceData`.
unfoldable pub new_relations_of : ℕ → Option ℕ → Relations
new_relations_of host_id service_id = record {
  host_id = host_id;
  service_id = service_id;
  complete_relations = "object.type" ∷ [];
  object_type = elim service_id [ none ↦ "host" | some id ↦ "service" ];
  host = none;
  services = [];
  hostgroups = [];
  servicegroups = [];
}

abbrev pub and_then : Provided → (Relations → Provided) → Provided
and_then (done rel) g = g rel
and_then (failed rel) g = failed rel
and_then panicked g = panicked

abbrev pub host_name_path : List (List String)
host_name_path = ("\"host\"" ∷ []) ∷ ("\"name\"" ∷ []) ∷ []

abbrev pub services_name_path : List (List String)
services_name_path = ("\"services\"" ∷ []) ∷ ("*" ∷ []) ∷ ("\"name\"" ∷ []) ∷ []

abbrev pub fetch_service_data : Sources → Failing → Option ℕ → Relations → Provided
fetch_service_data s f none rel = done rel
fetch_service_data s f (some id) rel = relations_provider s f services_name_path rel

-- `fetchHostServiceData`: "$.host.name", and for a service "$.services[*].name".
unfoldable pub fetch_host_service_data : Sources → Failing → ℕ → Option ℕ → Provided
fetch_host_service_data s f host_id service_id =
    and_then (relations_provider s f host_name_path (new_relations_of host_id service_id))
      (fetch_service_data s f service_id)

-- The calls of `complete` by `completeAndUpdate`, one after another: after an error the submission is
-- tried again with the relations as they are.
unfoldable pub complete_all : Sources → List (Failing × List (List String)) → Provided → Provided
complete_all s [] o = o
complete_all s ((f, path) ∷ calls) (done rel) =
    complete_all s calls (relations_provider s f path rel)
complete_all s ((f, path) ∷ calls) (failed rel) =
    complete_all s calls (relations_provider s f path rel)
complete_all s ((f, path) ∷ calls) panicked = panicked
