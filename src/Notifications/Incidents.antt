-- ===== src/Notifications/Incidents.antt =====
-- The comparison of a delta with the incidents that are open: `ApplyDelta` and
-- `retrieveEnvironmentIncidents` in pkg/notifications/notifications.go.
--
-- `yielded` is what the API lists as open incidents, `entities` what Redis yields for the IDs of
-- `RedisSnapshot`, and `redis_failed` says that this ended with an error. A map is an association list.
pub mod Comparing
mod Tests
use icingadb.Prelude.{
  String, str_append, str_eq, List, [], ◌∷◌, ◌++◌, map, Bool, true, false, not, ◌&&◌, ◌||◌, Option,
  none, some, if◌then◌else◌, is_some,
}
use icingadb.Notifications.Events.{Entity}
use icingadb.Notifications.Events.SameState.{Incident, same_bool, have_same_state}

abbrev pub Tags : Type 0
Tags = List (String × String)

-- `source.Incident`
pub record OpenIncident : Type 0 where
  pub state : Incident
  pub object_tags : Tags

abbrev pub Incidents : Type 0
Incidents = List (String × OpenIncident)

abbrev pub assoc {ℓ} : {V : Type ℓ} → String → List (String × V) → Option V
assoc k [] = none
assoc k ((k', v) ∷ m) = if str_eq k' k then some v else assoc k m

abbrev pub put {ℓ} : {V : Type ℓ} → String → V → List (String × V) → List (String × V)
put k v [] = (k, v) ∷ []
put k v ((k', v') ∷ m) = if str_eq k' k then (k, v) ∷ m else (k', v') ∷ put k v m

-- `objectpacker.PackAny`, as the text that it writes and whether it succeeds, and the hash of a text
-- in hexadecimal digits.
pub record Packing : Type 0 where
  pub pack : List String → String × Bool
  pub digest : String → String

abbrev tag_or_empty : Option String → String
tag_or_empty none = ""
tag_or_empty (some t) = t

abbrev id_name : String → Option String → String
id_name host none = host
id_name host (some service) = str_append host (str_append "!" service)

abbrev pub id_tags : String → Tags → List String
id_tags env tags = env ∷ id_name (tag_or_empty (assoc "host" tags)) (assoc "service" tags) ∷ []

-- The loop of `retrieveEnvironmentIncidents`; the hash has `written` already.
unfoldable pub retrieve : Packing → String → List OpenIncident → String → Incidents → Incidents
retrieve lib env [] written m = m
retrieve lib env (i ∷ is) written m =
    let packed = lib.pack (id_tags env i.object_tags) in
    let all = str_append written (packed.0) in
    let stored = retrieve lib env is "" (put (lib.digest all) i m) in
    let skipped = retrieve lib env is all m in if packed.1 then stored else skipped

-- The types that the delta's subject is told apart by.
pub data Subject : Type 0 where
  host_states service_states other_subject : Subject

-- The keys of `delta.Delete` and of `delta.RedisSnapshot`.
pub record DeltaKeys : Type 0 where
  pub subject : Subject
  pub delete : List String
  pub redis_snapshot : List String

abbrev pub is_key : String → List String → Bool
is_key k [] = false
is_key k (k' ∷ ks) = str_eq k' k || is_key k ks

abbrev pub of_services : Subject → Bool
of_services service_states = true
of_services _ = false

abbrev pub is_obsolete : DeltaKeys → String → OpenIncident → Bool
is_obsolete d id i =
    is_key id d.delete
    || (not (is_key id d.redis_snapshot)
        && same_bool (of_services d.subject) (is_some (assoc "service" i.object_tags)))

-- The filter of the incidents to close.
unfoldable pub obsolete_tags : DeltaKeys → Incidents → List Tags
obsolete_tags d [] = []
obsolete_tags d ((id, i) ∷ m) =
    let rest = obsolete_tags d m in if is_obsolete d id i then i.object_tags ∷ rest else rest

-- What was given to `Submit`, and whether the loop ended with an error.
pub record Submitted : Type 0 where
  pub submitted : List Entity
  pub failed : Bool

abbrev submitting : Entity → Submitted → Submitted
submitting e rest = record { submitted = e ∷ rest.submitted; failed = rest.failed }

abbrev pub on_compared : Option Bool → Entity → Submitted → Submitted
on_compared none e rest = record { submitted = []; failed = true }
on_compared (some true) e rest = rest
on_compared (some false) e rest = submitting e rest

abbrev pub on_entity : Option OpenIncident → Entity → Submitted → Submitted
on_entity none e rest = submitting e rest
on_entity (some i) e rest = on_compared (have_same_state i.state e) e rest

unfoldable pub submit_changed : Incidents → List (String × Entity) → Submitted
submit_changed m [] = record { submitted = []; failed = false }
submit_changed m ((id, e) ∷ es) = on_entity (assoc id m) e (submit_changed m es)

-- The cache `incidentsByObjId`, what was submitted, the filter of what was closed, and the error.
pub record Applied : Type 0 where
  pub incidents : Option Incidents
  pub submitted : List Entity
  pub closed : List Tags
  pub failed : Bool

abbrev apply_incidents : DeltaKeys → List (String × Entity) → Bool → Incidents → Applied
apply_incidents d es redis_failed [] = record {
  incidents = some [];
  submitted = [];
  closed = [];
  failed = false;
}
apply_incidents d es redis_failed (i ∷ m) =
    let s = submit_changed (i ∷ m) es in
    record {
      incidents = some (i ∷ m);
      submitted = s.submitted;
      closed = obsolete_tags d (i ∷ m);
      failed = s.failed || redis_failed;
    }

abbrev pub cached_or : Option Incidents → Incidents → Incidents
cached_or none m = m
cached_or (some c) m = c

abbrev apply_states :
    Packing
    → String
    → Option Incidents
    → List OpenIncident
    → DeltaKeys
    → List (String × Entity)
    → Bool
    → Applied
unfolding retrieve
apply_states lib env cache yielded d es redis_failed =
    apply_incidents d es redis_failed (cached_or cache (retrieve lib env yielded "" []))

abbrev is_state_subject : Subject → Bool
is_state_subject other_subject = false
is_state_subject _ = true

unfoldable pub apply_delta :
    Packing
    → String
    → Option Incidents
    → List OpenIncident
    → DeltaKeys
    → List (String × Entity)
    → Bool
    → Applied
unfolding apply_states submit_changed obsolete_tags
apply_delta lib env cache yielded d es redis_failed =
    if is_state_subject d.subject
    then apply_states lib env cache yielded d es redis_failed
    else record { incidents = cache; submitted = []; closed = []; failed = false }
