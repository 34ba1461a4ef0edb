-- ===== src/Notifications/Relations/Flags.antt =====
-- Which of the relations that matter are claimed to be complete.
use icingadb.Prelude.{
  ap, ◌∙◌, String, str_eq, List, [], ◌∷◌, ◌++◌, Bool, true, false, ◌||◌, ◌≡◌, refl, arith,
  Bool-cases, inl, inr, subst, eq_iff,
}
use icingadb.Notifications.Relations.{contains, add_relation, add_relations, new_relations}

contains-snoc :
    (l : List String) (k j : String) → contains (l ++ (k ∷ [])) j ≡ (contains l j || str_eq k j)
contains-snoc [] k j = ground arith
contains-snoc (i ∷ l) k j = ground (arith, contains-snoc l k j)

contains-add_relation :
    (k j : String) (l : List String) → contains (add_relation k l) j ≡ (contains l j || str_eq k j)
contains-add_relation k j l = elim (Bool-cases (contains l k)) [
  | inl old ↦ rw old (elim (Bool-cases (str_eq k j)) [
    | inl same ↦
        let has : contains l j ≡ true =
          subst (λ i. contains l i ≡ true) ((eq_iff k j).0 same) old in
        ground (arith, has)
    | inr other ↦ ground (arith, other)
  ])
  | inr new ↦ rw new (contains-snoc l k j)
]

contains-add_relations :
    (ks : List String) (j : String) (l : List String)
    → contains (add_relations ks l) j ≡ (contains l j || contains ks j)
contains-add_relations [] j l = ground arith
contains-add_relations (k ∷ ks) j l =
    ground (arith, contains-add_relations ks j (add_relation k l), contains-add_relation k j l)

pub record Flags : Type 0 where
  pub host_name : Bool
  pub host_vars : Bool
  pub services_name : Bool
  pub services_vars : Bool
  pub hostgroups_name : Bool
  pub servicegroups_name : Bool

abbrev pub flags : List String → Flags
flags l = record {
  host_name = contains l "host.name";
  host_vars = contains l "host.vars";
  services_name = contains l "services[*].name";
  services_vars = contains l "services[*].vars";
  hostgroups_name = contains l "hostgroups[*].name";
  servicegroups_name = contains l "servicegroups[*].name";
}

-- The flags that new relations set, each of which says whether the relation is among them.
abbrev or_flags : Flags → Flags → Flags
or_flags a b = record {
  host_name = a.host_name || b.host_name;
  host_vars = a.host_vars || b.host_vars;
  services_name = a.services_name || b.services_name;
  services_vars = a.services_vars || b.services_vars;
  hostgroups_name = a.hostgroups_name || b.hostgroups_name;
  servicegroups_name = a.servicegroups_name || b.servicegroups_name;
}

flags-add_relations :
    (ks l : List String) → flags (add_relations ks l) ≡ or_flags (flags l) (flags ks)
flags-add_relations ks l = rw (
  contains-add_relations ks "host.name" l,
  contains-add_relations ks "host.vars" l,
  contains-add_relations ks "services[*].name" l,
  contains-add_relations ks "services[*].vars" l,
  contains-add_relations ks "hostgroups[*].name" l,
  contains-add_relations ks "servicegroups[*].name" l,
)

abbrev no_flags : Flags
no_flags = record {
  host_name = false;
  host_vars = false;
  services_name = false;
  services_vars = false;
  hostgroups_name = false;
  servicegroups_name = false;
}

or_false : (b : Bool) → (b || false) ≡ b
or_false true = refl
or_false false = refl

flags-host_keys :
    (fo fv : Bool)
    → flags (new_relations "host" fo fv) ≡ record no_flags { host_name = fo; host_vars = fv }
flags-host_keys true true = refl
flags-host_keys true false = refl
flags-host_keys false true = refl
flags-host_keys false false = refl

flags-services_keys :
    (fo fv : Bool)
    → flags (new_relations "services[*]" fo fv)
      ≡ record no_flags { services_name = fo; services_vars = fv }
flags-services_keys true true = refl
flags-services_keys true false = refl
flags-services_keys false true = refl
flags-services_keys false false = refl

flags-hostgroups_keys :
    (fo : Bool)
    → flags (new_relations "hostgroups[*]" fo false) ≡ record no_flags { hostgroups_name = fo }
flags-hostgroups_keys true = refl
flags-hostgroups_keys false = refl

flags-servicegroups_keys :
    (fo : Bool)
    → flags (new_relations "servicegroups[*]" fo false)
      ≡ record no_flags { servicegroups_name = fo }
flags-servicegroups_keys true = refl
flags-servicegroups_keys false = refl

pub flags-host :
    (fo fv : Bool) (l : List String)
    → flags (add_relations (new_relations "host" fo fv) l) ≡ record (flags l) {
      host_name = contains l "host.name" || fo;
      host_vars = contains l "host.vars" || fv;
    }
flags-host fo fv l =
    flags-add_relations (new_relations "host" fo fv) l
    ∙ ap (or_flags (flags l)) (flags-host_keys fo fv)
    ∙ simp or_false

pub flags-services :
    (fo fv : Bool) (l : List String)
    → flags (add_relations (new_relations "services[*]" fo fv) l) ≡ record (flags l) {
      services_name = contains l "services[*].name" || fo;
      services_vars = contains l "services[*].vars" || fv;
    }
flags-services fo fv l =
    flags-add_relations (new_relations "services[*]" fo fv) l
    ∙ ap (or_flags (flags l)) (flags-services_keys fo fv)
    ∙ simp or_false

pub flags-hostgroups :
    (fo : Bool) (l : List String)
    → flags (add_relations (new_relations "hostgroups[*]" fo false) l)
      ≡ record (flags l) { hostgroups_name = contains l "hostgroups[*].name" || fo }
flags-hostgroups fo l =
    flags-add_relations (new_relations "hostgroups[*]" fo false) l
    ∙ ap (or_flags (flags l)) (flags-hostgroups_keys fo)
    ∙ simp or_false

pub flags-servicegroups :
    (fo : Bool) (l : List String)
    → flags (add_relations (new_relations "servicegroups[*]" fo false) l)
      ≡ record (flags l) { servicegroups_name = contains l "servicegroups[*].name" || fo }
flags-servicegroups fo l =
    flags-add_relations (new_relations "servicegroups[*]" fo false) l
    ∙ ap (or_flags (flags l)) (flags-servicegroups_keys fo)
    ∙ simp or_false
