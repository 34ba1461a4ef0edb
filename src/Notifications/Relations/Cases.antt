-- ===== src/Notifications/Relations/Cases.antt =====
-- The cases of `relationsProvider` in pkg/notifications/fetch.go, one for each root selector.
use icingadb.Prelude.{
  ℕ, List, [], ◌∷◌, map, Bool, true, false, not, ◌&&◌, ◌||◌, Option, none, some, if◌then◌else◌,
  is_some,
}
use icingadb.Notifications.Relations.{
  IcingaObject, host_type, service_type, GroupsOf, hostgroups_of, servicegroups_of_service,
  servicegroups_of_host, Sources, Failing, Relations, Provided, done, failed, panicked,
  fetch_object, found_objects, vars_entry, fetch_custom_vars, contains, update_complete,
  fetches_vars, fetches_object, object_for, vars_for, put_object, set_host, set_service,
}

-- The case `"host"`.
unfoldable pub on_host : Sources → Failing → Bool → Bool → Relations → Provided
unfolding fetch_object fetch_custom_vars
on_host s f fetch_object' fetch_vars rel =
    let named = contains rel.complete_relations "host.name" in
    let known = contains rel.complete_relations "host.vars" in
    let fo = fetches_object named known fetch_object' fetch_vars in
    let fv = fetches_vars known fetch_vars in
    if not fo && not fv
    then done rel
    else put_object "host" fo fv set_host
        (object_for fo (if named then rel.host else none) (fetch_object s f host_type rel.host_id))
        (vars_for fv (fetch_custom_vars s f host_type rel.host_id)) rel

abbrev pub first : List IcingaObject → Option IcingaObject
first [] = none
first (o ∷ l) = some o

-- The case `"services"` of a service; `rel.Services[0]` is read where its name is complete.
unfoldable pub on_service : Sources → Failing → ℕ → Bool → Bool → Relations → Provided
unfolding fetch_object fetch_custom_vars
on_service s f id fetch_object' fetch_vars rel =
    let named = contains rel.complete_relations "services[*].name" in
    let known = contains rel.complete_relations "services[*].vars" in
    let fo = fetches_object named known fetch_object' fetch_vars in
    let fv = fetches_vars known fetch_vars in
    if named && not (is_some (first rel.services))
    then panicked
    else if not fo && not fv
    then done rel
    else put_object "services[*]" fo fv set_service
        (object_for fo (if named then first rel.services else none)
          (fetch_object s f service_type id))
        (vars_for fv (fetch_custom_vars s f service_type id)) rel

-- The services of a host, with their variables where these are fetched and there are any at all.
abbrev pub has_any : Sources → List ℕ → Bool
has_any s [] = false
has_any s (id ∷ ids) = is_some (vars_entry (s.custom_vars service_type id)) || has_any s ids

abbrev pub with_vars : Sources → Bool → ℕ × IcingaObject → IcingaObject
with_vars s fetched (id, o) =
    if fetched then record o { vars = vars_entry (s.custom_vars service_type id) } else o

abbrev pub host_services : Sources → Bool → List ℕ → List IcingaObject
host_services s fetch_vars ids =
    map (with_vars s (fetch_vars && has_any s ids)) (found_objects s service_type ids)

unfoldable pub put_services : Sources → Bool → Bool → List ℕ → Bool → Bool → Relations → Provided
put_services s fo fv ids objects_fail vars_fail rel =
    if (fo && objects_fail) || (fv && vars_fail)
    then failed rel
    else done (record (update_complete "services[*]" fo fv rel) {
      services = if fo then host_services s fv ids else [];
    })

abbrev pub is_nonempty : List ℕ → Bool
is_nonempty [] = false
is_nonempty (id ∷ ids) = true

-- The case `"services"` of a host. A query for no IDs is not made.
unfoldable pub on_host_services : Sources → Failing → Bool → Bool → Relations → Provided
unfolding put_services
on_host_services s f fetch_object' fetch_vars rel =
    if contains rel.complete_relations "services[*].name" && not fetch_vars
    then done rel
    else if contains rel.complete_relations "services[*].vars"
    then done rel
    else if f.services_of
    then failed rel
    else let ids = s.services_of rel.host_id in
      put_services s (fetch_object' || fetch_vars) fetch_vars ids (f.redis && is_nonempty ids)
        (f.custom_vars && is_nonempty ids) rel

-- The cases `"hostgroups"` and `"servicegroups"`.
unfoldable pub on_hostgroups : Sources → Failing → Bool → Bool → Relations → Provided
on_hostgroups s f fo fv rel =
    if contains rel.complete_relations "hostgroups[*].name"
    then done rel
    else if f.groups
    then failed rel
    else done (record (update_complete "hostgroups[*]" fo false rel) {
      hostgroups = s.groups (hostgroups_of rel.host_id);
    })

abbrev pub servicegroups_of : Relations → GroupsOf
servicegroups_of rel = elim (rel.service_id) [
  | none ↦ servicegroups_of_host rel.host_id
  | some id ↦ servicegroups_of_service id
]

unfoldable pub on_servicegroups : Sources → Failing → Bool → Bool → Relations → Provided
on_servicegroups s f fo fv rel =
    if contains rel.complete_relations "servicegroups[*].name"
    then done rel
    else if f.groups
    then failed rel
    else done (record (update_complete "servicegroups[*]" fo false rel) {
      servicegroups = s.groups (servicegroups_of rel);
    })
