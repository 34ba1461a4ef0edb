-- ===== src/Notifications/CheckOutputs/Asked.antt =====
-- What a request to modify an incident asks for.
use icingadb.Prelude.{
  String, str_append, str_eq, eq_iff, [], ◌∷◌, true, false, Option, none, some, is_some,
  if◌then◌else◌, ◌≡◌, refl, sym, ap, ◌∙◌, subst, inl, inr, Bool-cases,
}
use icingadb.Notifications.Incidents.{Tags, OpenIncident, Incidents, assoc}
use icingadb.Notifications.CheckOutputs.{
  CheckState, Request, all_tags, filter_of, host_incidents, service_incidents,
}

-- The output, and, if there is one, the long output on the lines after it.
abbrev pub text_of : Option String → Option String → String
text_of none long = ""
text_of (some o) none = o
text_of (some o) (some l) = str_append o (str_append "\n" l)

abbrev pub asked_without : String → Option String → Option (Option String)
asked_without k (some v) = some (some v)
asked_without k none = if str_eq "service" k then some none else none

-- What is asked of the tag `k`: its value; for `service`, if there is none, that there is none; or nothing.
abbrev pub asked : Tags → String → Option (Option String)
asked tags k = asked_without k (assoc k tags)

-- A request for the incident of an object to have the output of a state.
pub record Asks (i : String) (s : CheckState) (tags : Tags) (q : Request) : Type 0 where
  pub object : q.object ≡ i
  pub message : q.message ≡ text_of s.output s.long_output
  pub filter : (k : String) → assoc k q.filter ≡ asked tags k

abbrev given : Option String → Option (Option String)
given none = none
given (some v) = some (some v)

assoc-all_tags : (k : String) (tags : Tags) → assoc k (all_tags tags) ≡ given (assoc k tags)
assoc-all_tags k [] = refl
assoc-all_tags k ((k', v) ∷ tags) = elim (Bool-cases (str_eq k' k)) [
  | inl e ↦ rw e refl
  | inr e ↦ rw e (assoc-all_tags k tags)
]

-- With a tag for a service, the tags are all that is asked.
given-asked :
    (k : String) (tags : Tags)
    → is_some (assoc "service" tags) ≡ true
    → given (assoc k tags) ≡ asked tags k
given-asked k tags has = by_tag (assoc k tags) refl
  where
    by_tag : (o : Option String) → assoc k tags ≡ o → given o ≡ asked_without k o
    by_tag (some v) is = refl
    by_tag none is = elim (Bool-cases (str_eq "service" k)) [
      | inr e ↦ rw e refl
      | inl e ↦
          let bad : is_some (assoc k tags) ≡ true =
            subst (λ x. is_some (assoc x tags) ≡ true) ((eq_iff "service" k).0 e) has in
          let absent : is_some (assoc k tags) ≡ false = ap is_some is in cc
    ]

absent : (o : Option String) → is_some o ≡ false → o ≡ none
absent none e = refl
absent (some v) e = cc

host-asked :
    (k : String) (tags : Tags)
    → is_some (assoc "service" tags) ≡ false
    → assoc k (("service", none) ∷ all_tags tags) ≡ asked tags k
host-asked k tags no_tag = elim (Bool-cases (str_eq "service" k)) [
  | inl e ↦
      let is_none : assoc k tags ≡ none =
        subst (λ x. assoc x tags ≡ none) ((eq_iff "service" k).0 e)
          (absent (assoc "service" tags) no_tag) in
      rw (e, is_none, e) refl
  | inr e ↦ rw e (assoc-all_tags k tags ∙ without e (assoc k tags))
]
  where
    without : str_eq "service" k ≡ false → (o : Option String) → given o ≡ asked_without k o
    without e (some v) = refl
    without e none = rw e refl

pub filter_of-asked : (k : String) (tags : Tags) → assoc k (filter_of tags) ≡ asked tags k
filter_of-asked k tags = elim (Bool-cases (is_some (assoc "service" tags))) [
  | inl e ↦ rw e (assoc-all_tags k tags ∙ given-asked k tags e)
  | inr e ↦ rw e (host-asked k tags e)
]

-- An incident is among those of the hosts or of the services, as its tags say.
pub assoc-host_incidents :
    (i : String) (m : Incidents) (inc : OpenIncident)
    → assoc i m ≡ some inc
    → is_some (assoc "service" inc.object_tags) ≡ false
    → assoc i (host_incidents m) ≡ some inc
assoc-host_incidents i [] inc is host = cc
assoc-host_incidents i ((j, x) ∷ m) inc is host = elim (Bool-cases (str_eq j i)) [
  | inl e ↦
      let same : some x ≡ some inc = sym (ap (λ b. if b then some x else assoc i m) e) ∙ is in
      let x_host : is_some (assoc "service" x.object_tags) ≡ false =
        ap
          (λ (o : Option OpenIncident). elim o [
            | none ↦ false
            | some y ↦ is_some (assoc "service" y.object_tags)
          ])
          same
        ∙ host in
      rw (x_host, e) same
  | inr e ↦
      let rest =
        assoc-host_incidents i m inc (sym (ap (λ b. if b then some x else assoc i m) e) ∙ is)
          host in
      elim (Bool-cases (is_some (assoc "service" x.object_tags))) [
        | inl service ↦ rw service rest
        | inr other ↦ rw (other, e) rest
      ]
]

pub assoc-service_incidents :
    (i : String) (m : Incidents) (inc : OpenIncident)
    → assoc i m ≡ some inc
    → is_some (assoc "service" inc.object_tags) ≡ true
    → assoc i (service_incidents m) ≡ some inc
assoc-service_incidents i [] inc is service = cc
assoc-service_incidents i ((j, x) ∷ m) inc is service = elim (Bool-cases (str_eq j i)) [
  | inl e ↦
      let same : some x ≡ some inc = sym (ap (λ b. if b then some x else assoc i m) e) ∙ is in
      let x_service : is_some (assoc "service" x.object_tags) ≡ true =
        ap
          (λ (o : Option OpenIncident). elim o [
            | none ↦ true
            | some y ↦ is_some (assoc "service" y.object_tags)
          ])
          same
        ∙ service in
      rw (x_service, e) same
  | inr e ↦
      let rest =
        assoc-service_incidents i m inc (sym (ap (λ b. if b then some x else assoc i m) e) ∙ is)
          service in
      elim (Bool-cases (is_some (assoc "service" x.object_tags))) [
        | inl other ↦ rw (other, e) rest
        | inr host ↦ rw host rest
      ]
]
