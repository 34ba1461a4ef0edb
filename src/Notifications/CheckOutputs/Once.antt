-- ===== src/Notifications/CheckOutputs/Once.antt =====
-- An output is sent once: what the rounds of `SyncCheckOutputs` request for an object.
use icingadb.Prelude.{
  ℕ, ◌≤◌, ◌<◌, String, str_eq, eq_iff, List, [], ◌∷◌, ◌++◌, All, Bool, true, false, Option, none,
  some, is_some, if◌then◌else◌, ltb, lt→ltb, ◌≡◌, refl, arith, ap, ◌∙◌, Bool-cases, inl, inr,
}
use icingadb.Notifications.Incidents.{Tags, OpenIncident, Incidents, assoc}
use icingadb.Notifications.CheckOutputs.{
  CheckState, Request, filter_of, modify, modify_output, tags_of, visit, host_incidents,
  service_incidents, Round, seen_hosts, seen_services, on_tick, sync_check_outputs,
}
use icingadb.Notifications.CheckOutputs.Requests.{
  requests_for, requests_for-append, requests_for-first, requests_for-second,
}
use icingadb.Notifications.CheckOutputs.Asked.{
  text_of, Asks, filter_of-asked, assoc-host_incidents, assoc-service_incidents,
}

-- A state with an output, since the last synchronisation.
pub record IsNews (last_sync : ℕ) (s : CheckState) : Type 0 where
  pub has_output : is_some s.output ≡ true
  pub updated : last_sync ≤ s.last_update

abbrev pub IsOld : ℕ → CheckState → Type 0
IsOld last_sync s = s.last_update < last_sync

-- The states of the object, in the order in which they are seen.
abbrev pub states_of : String → List (String × CheckState) → List CheckState
states_of i [] = []
states_of i ((id, s) ∷ states) =
    let rest = states_of i states in if str_eq id i then s ∷ rest else rest

-- What a round sees of the object is old.
abbrev pub SeesOld : String → ℕ → Round → Type 0
SeesOld i t r =
    All (IsOld t) (states_of i (seen_hosts r)) × All (IsOld t) (states_of i (seen_services r))

abbrev pub AreAscending : ℕ → List Round → Type 0
AreAscending t [] = Unit
AreAscending t (r ∷ rs) = (t ≤ r.tick) × AreAscending r.tick rs

-- The round sees the object once, with the state, as a host or as a service.
pub record SeesOnce (i : String) (s : CheckState) (is_service : Bool) (r : Round) : Type 0 where
  pub as_host : states_of i (seen_hosts r) ≡ (if is_service then [] else s ∷ [])
  pub as_service : states_of i (seen_services r) ≡ (if is_service then s ∷ [] else [])

module _ (i : String) (t : ℕ) where
  abbrev modifies : Tags → List CheckState → List Request
  unfolding modify
  modifies tags [] = []
  modifies tags (s ∷ ss) = modify t i tags s ++ modifies tags ss

  modify-other :
      (id : String) (tags : Tags) (s : CheckState)
      → str_eq id i ≡ false
      → requests_for i (modify t id tags s) ≡ []
  unfolding modify
  modify-other id tags s other = by_output s.output
    where
      by_output : (o : Option String) → requests_for i (modify_output t id tags s o) ≡ []
      by_output none = refl
      by_output (some x) = elim (Bool-cases (ltb s.last_update t)) [
        | inl e ↦ rw e refl
        | inr e ↦ rw (e, other) refl
      ]

  modify-own :
      (id : String) (tags : Tags) (s : CheckState)
      → str_eq id i ≡ true
      → requests_for i (modify t id tags s) ≡ modify t i tags s
  unfolding modify
  modify-own id tags s same =
      by_output s.output ∙ ap (λ j. modify_output t j tags s s.output) ((eq_iff id i).0 same)
    where
      by_output :
          (o : Option String)
          → requests_for i (modify_output t id tags s o) ≡ modify_output t id tags s o
      by_output none = refl
      by_output (some x) = elim (Bool-cases (ltb s.last_update t)) [
        | inl e ↦ rw e refl
        | inr e ↦ rw (e, same) refl
      ]

  visit-states :
      (m : Incidents) (states : List (String × CheckState))
      → requests_for i (visit t m states) ≡ modifies (tags_of (assoc i m)) (states_of i states)
  unfolding visit
  visit-states m [] = refl
  visit-states m ((id, s) ∷ states) =
      let parts = requests_for-append i (modify t id (tags_of (assoc id m)) s) (visit t m states) in
      let rest = visit-states m states in by_test (str_eq id i) refl parts rest
    where
      by_test :
          (b : Bool)
          → str_eq id i ≡ b
          → requests_for i (modify t id (tags_of (assoc id m)) s ++ visit t m states)
            ≡ requests_for i (modify t id (tags_of (assoc id m)) s)
              ++ requests_for i (visit t m states)
          → requests_for i (visit t m states) ≡ modifies (tags_of (assoc i m)) (states_of i states)
          → requests_for i (modify t id (tags_of (assoc id m)) s ++ visit t m states)
            ≡ modifies
                (tags_of (assoc i m))
                (if b then s ∷ states_of i states else states_of i states)
      by_test true e parts rest =
          parts
          ∙ ap (λ qs. qs ++ requests_for i (visit t m states))
              (modify-own id (tags_of (assoc id m)) s e)
          ∙ ap (λ j. modify t i (tags_of (assoc j m)) s ++ requests_for i (visit t m states))
              ((eq_iff id i).0 e)
          ∙ ap (λ qs. modify t i (tags_of (assoc i m)) s ++ qs) rest
      by_test false e parts rest =
          parts
          ∙ ap (λ qs. qs ++ requests_for i (visit t m states))
              (modify-other id (tags_of (assoc id m)) s e)
          ∙ rest

  modifies-old : (tags : Tags) (ss : List CheckState) → All (IsOld t) ss → modifies tags ss ≡ []
  unfolding modify
  modifies-old tags [] old = refl
  modifies-old tags (s ∷ ss) old = by_output s.output (modifies-old tags ss old.1)
    where
      by_output :
          (o : Option String)
          → modifies tags ss ≡ []
          → (modify_output t i tags s o ++ modifies tags ss) ≡ []
      by_output none rest = rest
      by_output (some x) rest = rw (lt→ltb s.last_update t old.0) rest

  on_tick-old : (r : Round) → SeesOld i t r → requests_for i (on_tick t r) ≡ []
  unfolding on_tick
  on_tick-old r old =
      let hosts = host_incidents r.incidents in
      let services = service_incidents r.incidents in
      requests_for-first i r.schedule (visit t hosts (seen_hosts r))
        (visit t services (seen_services r))
        (visit-states services (seen_services r)
          ∙ modifies-old (tags_of (assoc i services)) (states_of i (seen_services r)) old.1)
      ∙ visit-states hosts (seen_hosts r)
      ∙ modifies-old (tags_of (assoc i hosts)) (states_of i (seen_hosts r)) old.0

  abbrev request : Tags → CheckState → Request
  request tags s = record {
    object = i;
    message = text_of s.output s.long_output;
    filter = filter_of tags;
  }

  modifies-news :
      (tags : Tags) (s : CheckState) → IsNews t s → modifies tags (s ∷ []) ≡ request tags s ∷ []
  unfolding modify
  modifies-news tags s news = by_output s.output s.long_output news.has_output
    where
      by_output :
          (o long : Option String)
          → is_some o ≡ true
          → (modify_output t i tags (record s { long_output = long }) o ++ [])
            ≡ record { object = i; message = text_of o long; filter = filter_of tags } ∷ []
      by_output none long bad = cc
      by_output (some x) none there =
          let late : ltb s.last_update t ≡ false = ground (arith, news.updated) in rw late refl
      by_output (some x) (some l) there =
          let late : ltb s.last_update t ≡ false = ground (arith, news.updated) in rw late refl

  on_tick-news :
      (r : Round) (s : CheckState) (inc : OpenIncident) (is_service : Bool)
      → assoc i r.incidents ≡ some inc
      → is_some (assoc "service" inc.object_tags) ≡ is_service
      → SeesOnce i s is_service r
      → IsNews t s
      → requests_for i (on_tick t r) ≡ request inc.object_tags s ∷ []
  unfolding on_tick
  on_tick-news r s inc true is_open service sees news =
      let hosts = host_incidents r.incidents in
      let services = service_incidents r.incidents in
      requests_for-second i r.schedule (visit t hosts (seen_hosts r))
        (visit t services (seen_services r))
        (visit-states hosts (seen_hosts r) ∙ ap (modifies (tags_of (assoc i hosts))) sees.as_host)
      ∙ visit-states services (seen_services r)
      ∙ ap (modifies (tags_of (assoc i services))) sees.as_service
      ∙ ap (λ (o : Option OpenIncident). modifies (tags_of o) (s ∷ []))
          (assoc-service_incidents i r.incidents inc is_open service)
      ∙ modifies-news inc.object_tags s news
  on_tick-news r s inc false is_open host sees news =
      let hosts = host_incidents r.incidents in
      let services = service_incidents r.incidents in
      requests_for-first i r.schedule (visit t hosts (seen_hosts r))
        (visit t services (seen_services r))
        (visit-states services (seen_services r)
          ∙ ap (modifies (tags_of (assoc i services))) sees.as_service)
      ∙ visit-states hosts (seen_hosts r)
      ∙ ap (modifies (tags_of (assoc i hosts))) sees.as_host
      ∙ ap (λ (o : Option OpenIncident). modifies (tags_of o) (s ∷ []))
          (assoc-host_incidents i r.incidents inc is_open host)
      ∙ modifies-news inc.object_tags s news

older : (t t' : ℕ) (ss : List CheckState) → t ≤ t' → All (IsOld t) ss → All (IsOld t') ss
older t t' [] le old = tt
older t t' (s ∷ ss) le old = (omega (arith, le, old.0), older t t' ss le old.1)

rounds-older :
    (i : String) (t t' : ℕ) (rs : List Round)
    → t ≤ t'
    → All (SeesOld i t) rs
    → All (SeesOld i t') rs
rounds-older i t t' [] le old = tt
rounds-older i t t' (r ∷ rs) le old = (
  (
    older t t' (states_of i (seen_hosts r)) le old.0.0,
    older t t' (states_of i (seen_services r)) le old.0.1,
  ),
  rounds-older i t t' rs le old.1,
)

-- While the states of an object are older than the last synchronisation, nothing is requested for it.
sync-nothing_late :
    (i : String) (last_sync : ℕ) (rs : List Round)
    → AreAscending last_sync rs
    → All (SeesOld i last_sync) rs
    → requests_for i (sync_check_outputs last_sync rs) ≡ []
unfolding sync_check_outputs
sync-nothing_late i t [] ascending old = refl
sync-nothing_late i t (r ∷ rs) ascending old =
    requests_for-append i (on_tick t r) (sync_check_outputs r.tick rs)
    ∙ ap (λ qs. qs ++ requests_for i (sync_check_outputs r.tick rs)) (on_tick-old i t r old.0)
    ∙ sync-nothing_late i r.tick rs ascending.1 (rounds-older i t r.tick rs ascending.0 old.1)

-- For an object with an open incident, and a state of it with an output and not older than the last
-- synchronisation, which the next round sees once, as a host's or a service's as the incident's tags say: if all
-- later rounds see only states of it that are older than that round's tick, and ticks do not go back, then all rounds
-- together make exactly one request for it. Its message is the output, with the long output on the lines after it if
-- there is one, and it asks for the incident's tags and, if these have no service, for no service.
pub sync-once :
    (i : String) (last_sync : ℕ) (r : Round) (rs : List Round) (s : CheckState) (inc : OpenIncident)
    → assoc i r.incidents ≡ some inc
    → SeesOnce i s (is_some (assoc "service" inc.object_tags)) r
    → IsNews last_sync s
    → AreAscending r.tick rs
    → All (SeesOld i r.tick) rs
    → (q : Request) × Asks i s inc.object_tags q
      × (requests_for i (sync_check_outputs last_sync (r ∷ rs)) ≡ q ∷ [])
unfolding sync_check_outputs
sync-once i t r rs s inc is_open sees news ascending old =
    let is_service = is_some (assoc "service" inc.object_tags) in
    (
      request i t inc.object_tags s,
      record { object = refl; message = refl; filter = λ k. filter_of-asked k inc.object_tags },
      requests_for-append i (on_tick t r) (sync_check_outputs r.tick rs)
          ∙ ap (λ qs. qs ++ requests_for i (sync_check_outputs r.tick rs))
              (on_tick-news i t r s inc is_service is_open refl sees news)
          ∙ ap (λ qs. request i t inc.object_tags s ∷ qs)
              (sync-nothing_late i r.tick rs ascending old),
    )
