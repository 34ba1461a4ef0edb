-- ===== src/Notifications/Relations/Kept.antt =====
-- The claims are kept by each case of the provider.
use icingadb.Prelude.{
  ℕ, Bool, true, false, not, ◌&&◌, ◌||◌, Option, none, some, is_some, ◌≡◌, refl, Bool-cases, inl,
  inr, subst, sym, ap,
}
use icingadb.Notifications.Relations.{
  Vars, IcingaObject, host_type, service_type, Sources, Failing, Relations, contains,
  update_complete, fetches_vars, fetches_object, put_object, set_host, set_service,
}
use icingadb.Notifications.Relations.Flags.{flags-host, flags-services}
use icingadb.Notifications.Relations.Cases.{on_host, on_service, first}
use icingadb.Notifications.Relations.Claims.{IsFetched, ServicesClaimOf, ClaimsAt, Claims, Kept}
use icingadb.Notifications.Relations.Objects.{Ready, Ready-all, fetches_complete}

put_host-Kept :
    (s : Sources) (fo fv : Bool) (o : Option (Option IcingaObject)) (v : Option (Option Vars))
    (rel : Relations)
    → Claims s rel
    → Ready s host_type rel.host_id (contains rel.complete_relations "host.vars" || fv) o v
    → ((contains rel.complete_relations "host.vars" || fv) ≡ true
        → (contains rel.complete_relations "host.name" || fo) ≡ true)
    → Kept s (put_object "host" fo fv set_host o v rel)
unfolding put_object
put_host-Kept s fo fv none v rel c r kn = c
put_host-Kept s fo fv (some o) none rel c r kn = c
put_host-Kept s fo fv (some none) (some v) rel c r kn = absurd r
put_host-Kept s fo fv (some (some o)) (some v) rel c r kn =
    let rel' = set_host (record o { vars = v }) (update_complete "host" fo fv rel) in
    subst (λ k. ClaimsAt s k rel') (sym (flags-host fo fv rel.complete_relations))
      (record {
        host_vars = kn;
        host = λ e. (record o { vars = v }, refl, r);
        services_vars = c.services_vars;
        services = c.services;
        hostgroups = c.hostgroups;
        servicegroups = c.servicegroups;
      })

pub on_host-Kept :
    (s : Sources) (f : Failing) (fo fv : Bool) (rel : Relations)
    → Claims s rel
    → Kept s (on_host s f fo fv rel)
unfolding on_host
on_host-Kept s f fo fv rel c =
    let named = contains rel.complete_relations "host.name" in
    let known = contains rel.complete_relations "host.vars" in
    elim (Bool-cases (not (fetches_object named known fo fv) && not (fetches_vars known fv))) [
      | inl nothing ↦ rw nothing c
      | inr some_work ↦ rw some_work (
          put_host-Kept s (fetches_object named known fo fv) (fetches_vars known fv) _ _ rel c
            (Ready-all s f host_type rel.host_id named known fo fv rel.host c.host_vars c.host
              some_work)
            (fetches_complete named known fo fv c.host_vars))
    ]

put_service-Kept :
    (s : Sources) (id : ℕ) (fo fv : Bool) (o : Option (Option IcingaObject))
    (v : Option (Option Vars)) (rel : Relations)
    → rel.service_id ≡ some id
    → Claims s rel
    → Ready s service_type id (contains rel.complete_relations "services[*].vars" || fv) o v
    → ((contains rel.complete_relations "services[*].vars" || fv) ≡ true
        → (contains rel.complete_relations "services[*].name" || fo) ≡ true)
    → Kept s (put_object "services[*]" fo fv set_service o v rel)
unfolding put_object
put_service-Kept s id fo fv none v rel is c r kn = c
put_service-Kept s id fo fv (some o) none rel is c r kn = c
put_service-Kept s id fo fv (some none) (some v) rel is c r kn = absurd r
put_service-Kept s id fo fv (some (some o)) (some v) rel is c r kn =
    let rel' = set_service (record o { vars = v }) (update_complete "services[*]" fo fv rel) in
    let known' = contains rel.complete_relations "services[*].vars" || fv in
    subst (λ k. ClaimsAt s k rel') (sym (flags-services fo fv rel.complete_relations))
      (record {
        host_vars = c.host_vars;
        host = c.host;
        services_vars = kn;
        services =
            λ e. subst (ServicesClaimOf s known' rel') (sym is) (record o { vars = v }, refl, r);
        hostgroups = c.hostgroups;
        servicegroups = c.servicegroups;
      })

first_of :
    (s : Sources) (id : ℕ) (known : Bool) (rel : Relations)
    → ServicesClaimOf s known rel (some id)
    → (o : IcingaObject) × (first rel.services ≡ some o) × IsFetched s service_type id known o
first_of s id known rel (o, there, fetched) = (o, ap first there, fetched)

service_there :
    (named : Bool) (o : Option IcingaObject)
    → (named ≡ true → (x : IcingaObject) × (o ≡ some x))
    → named && not (is_some o) ≡ false
service_there false o h = refl
service_there true o h = let (x, e) = h refl in rw e refl

pub on_service-Kept :
    (s : Sources) (f : Failing) (id : ℕ) (fo fv : Bool) (rel : Relations)
    → rel.service_id ≡ some id
    → Claims s rel
    → Kept s (on_service s f id fo fv rel)
unfolding on_service
on_service-Kept s f id fo fv rel is c =
    let named = contains rel.complete_relations "services[*].name" in
    let known = contains rel.complete_relations "services[*].vars" in
    let there : (named ≡ true
        → (o : IcingaObject) × (first rel.services ≡ some o)
          × IsFetched s service_type id known o) =
      λ e. first_of s id known rel (subst (ServicesClaimOf s known rel) is (c.services e)) in
    let no_panic =
      service_there named (first rel.services) (λ e. let (o, e', x) = there e in (o, e')) in
    elim (Bool-cases (not (fetches_object named known fo fv) && not (fetches_vars known fv))) [
      | inl nothing ↦ rw (no_panic, nothing) c
      | inr some_work ↦
          rw (no_panic, some_work)
            (put_service-Kept s id (fetches_object named known fo fv) (fetches_vars known fv) _ _
              rel is c
              (Ready-all s f service_type id named known fo fv (first rel.services) c.services_vars
                there some_work)
              (fetches_complete named known fo fv c.services_vars))
    ]
