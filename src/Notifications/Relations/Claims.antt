-- ===== src/Notifications/Relations/Claims.antt =====
-- What `complete_relations` claims: a relation that it names is there, as the sources have it.
use icingadb.Prelude.{ℕ, [], ◌∷◌, Bool, true, Option, none, some, if◌then◌else◌, ◌≡◌}
use icingadb.Notifications.Relations.{
  RedisObject, IcingaObject, ObjectType, host_type, service_type, hostgroups_of, Sources, Relations,
  Provided, done, failed, panicked, to_object, vars_entry,
}
use icingadb.Notifications.Relations.Flags.{Flags, flags}
use icingadb.Notifications.Relations.Cases.{host_services, servicegroups_of}

-- The object with its variables, if they are known.
abbrev pub expected : Sources → ObjectType → ℕ → Bool → RedisObject → IcingaObject
expected s typ id known r = record (to_object r) {
  vars = if known then vars_entry (s.custom_vars typ id) else none;
}

-- The object is the one that Redis has, and the variables are those that the database has.
abbrev pub IsFetched : Sources → ObjectType → ℕ → Bool → IcingaObject → Type 0
IsFetched s typ id known o =
    (r : RedisObject) × (s.redis typ id ≡ some r) × (o ≡ expected s typ id known r)

abbrev pub HostClaim : Sources → Bool → Relations → Type 0
HostClaim s known rel =
    (o : IcingaObject) × (rel.host ≡ some o) × IsFetched s host_type rel.host_id known o

-- A service has itself in `services`, a host all its services.
abbrev pub ServicesClaimOf : Sources → Bool → Relations → Option ℕ → Type 0
ServicesClaimOf s known rel (some id) =
    (o : IcingaObject) × (rel.services ≡ o ∷ []) × IsFetched s service_type id known o
ServicesClaimOf s known rel none = rel.services ≡ host_services s known (s.services_of rel.host_id)

abbrev pub ServicesClaim : Sources → Bool → Relations → Type 0
ServicesClaim s known rel = ServicesClaimOf s known rel rel.service_id

pub record ClaimsAt (s : Sources) (k : Flags) (rel : Relations) : Type 0 where
  pub host_vars : k.host_vars ≡ true → k.host_name ≡ true
  pub host : k.host_name ≡ true → HostClaim s k.host_vars rel
  pub services_vars : k.services_vars ≡ true → k.services_name ≡ true
  pub services : k.services_name ≡ true → ServicesClaim s k.services_vars rel
  pub hostgroups : k.hostgroups_name ≡ true → rel.hostgroups ≡ s.groups (hostgroups_of rel.host_id)
  pub servicegroups :
      k.servicegroups_name ≡ true → rel.servicegroups ≡ s.groups (servicegroups_of rel)

abbrev pub Claims : Sources → Relations → Type 0
Claims s rel = ClaimsAt s (flags rel.complete_relations) rel

-- The claims hold where a call leaves the relations, and it does not panic.
abbrev pub Kept : Sources → Provided → Type 0
Kept s (done rel) = Claims s rel
Kept s (failed rel) = Claims s rel
Kept s panicked = ⊥
