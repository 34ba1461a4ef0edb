-- ===== src/Notifications/Relations/Selectors.antt =====
-- Each selector of a relation keeps what is claimed.
use icingadb.Prelude.{
  ℕ, String, str_eq, List, [], ◌∷◌, Bool, true, false, not, ◌&&◌, ◌||◌, Option, none, some,
  if◌then◌else◌, ◌≡◌, refl, arith, Bool-cases, inl, inr, subst, sym,
}
use icingadb.Notifications.Relations.{
  IcingaObject, hostgroups_of, Sources, Failing, Relations, Provided, done, failed, panicked,
  contains, update_complete,
}
use icingadb.Notifications.Relations.Flags.{flags-services, flags-hostgroups, flags-servicegroups}
use icingadb.Notifications.Relations.Cases.{
  on_host_services, on_hostgroups, on_servicegroups, put_services, host_services, servicegroups_of,
}
use icingadb.Notifications.Relations.Claims.{ServicesClaimOf, ClaimsAt, Claims, Kept}
use icingadb.Notifications.Relations.Kept.{on_host-Kept, on_service-Kept}
use icingadb.Notifications.Relations.Provider.{
  on_services, on_root, on_selector, on_selectors, asked,
}

pub all_services :
    (s : Sources) (b fv known : Bool) (ids : List ℕ)
    → b ≡ true
    → known ≡ false
    → (if b then host_services s fv ids else []) ≡ host_services s (known || fv) ids
all_services s b fv known ids e e' = rw (e, e') refl

pub put_services-Kept :
    (s : Sources) (fo fv objects_fail vars_fail : Bool) (rel : Relations)
    → rel.service_id ≡ none
    → Claims s rel
    → contains rel.complete_relations "services[*].name" && not fv ≡ false
    → contains rel.complete_relations "services[*].vars" ≡ false
    → Kept s (put_services s (fo || fv) fv (s.services_of rel.host_id) objects_fail vars_fail rel)
unfolding put_services
put_services-Kept s fo fv of vf rel is c new unknown =
    let ids = s.services_of rel.host_id in
    let list : Bool → List IcingaObject = λ b. if b then host_services s fv ids else [] in
    let rel' = record (update_complete "services[*]" (fo || fv) fv rel) {
      services = list (fo || fv);
    } in
    elim (Bool-cases (((fo || fv) && of) || (fv && vf))) [
      | inl fails ↦ rw fails c
      | inr works ↦ rw works (
          subst (λ k. ClaimsAt s k rel') (sym (flags-services (fo || fv) fv rel.complete_relations))
            (record {
              host_vars = c.host_vars;
              host = c.host;
              services_vars = λ e. ground (arith, e, unknown);
              services = λ e.
                  let asks : (fo || fv) ≡ true = ground (arith, e, new) in
                  subst
                    (ServicesClaimOf s (contains rel.complete_relations "services[*].vars" || fv)
                      rel')
                    (sym is) (all_services s (fo || fv) fv _ ids asks unknown);
              hostgroups = c.hostgroups;
              servicegroups = c.servicegroups;
            }))
    ]

pub on_host_services-Kept :
    (s : Sources) (f : Failing) (fo fv : Bool) (rel : Relations)
    → rel.service_id ≡ none
    → Claims s rel
    → Kept s (on_host_services s f fo fv rel)
unfolding on_host_services
on_host_services-Kept s f fo fv rel is c =
    elim (Bool-cases (contains rel.complete_relations "services[*].name" && not fv)) [
      | inl old ↦ rw old c
      | inr new ↦ elim (Bool-cases (contains rel.complete_relations "services[*].vars")) [
        | inl known ↦ rw (new, known) c
        | inr unknown ↦ elim (Bool-cases (f.services_of)) [
          | inl fails ↦ rw (new, unknown, fails) c
          | inr works ↦
              rw (new, unknown, works) (put_services-Kept s fo fv _ _ rel is c new unknown)
        ]
      ]
    ]

pub on_hostgroups-Kept :
    (s : Sources) (f : Failing) (fo fv : Bool) (rel : Relations)
    → Claims s rel
    → Kept s (on_hostgroups s f fo fv rel)
unfolding on_hostgroups
on_hostgroups-Kept s f fo fv rel c =
    let rel' = record (update_complete "hostgroups[*]" fo false rel) {
      hostgroups = s.groups (hostgroups_of rel.host_id);
    } in
    elim (Bool-cases (contains rel.complete_relations "hostgroups[*].name")) [
      | inl old ↦ rw old c
      | inr new ↦ elim (Bool-cases (f.groups)) [
        | inl fails ↦ rw (new, fails) c
        | inr works ↦
            rw (new, works)
              (subst (λ k. ClaimsAt s k rel') (sym (flags-hostgroups fo rel.complete_relations))
                (record {
                  host_vars = c.host_vars;
                  host = c.host;
                  services_vars = c.services_vars;
                  services = c.services;
                  hostgroups = λ e. refl;
                  servicegroups = c.servicegroups;
                }))
      ]
    ]

pub on_servicegroups-Kept :
    (s : Sources) (f : Failing) (fo fv : Bool) (rel : Relations)
    → Claims s rel
    → Kept s (on_servicegroups s f fo fv rel)
unfolding on_servicegroups
on_servicegroups-Kept s f fo fv rel c =
    let rel' = record (update_complete "servicegroups[*]" fo false rel) {
      servicegroups = s.groups (servicegroups_of rel);
    } in
    elim (Bool-cases (contains rel.complete_relations "servicegroups[*].name")) [
      | inl old ↦ rw old c
      | inr new ↦ elim (Bool-cases (f.groups)) [
        | inl fails ↦ rw (new, fails) c
        | inr works ↦
            rw (new, works)
              (subst (λ k. ClaimsAt s k rel') (sym (flags-servicegroups fo rel.complete_relations))
                (record {
                  host_vars = c.host_vars;
                  host = c.host;
                  services_vars = c.services_vars;
                  services = c.services;
                  hostgroups = c.hostgroups;
                  servicegroups = λ e. refl;
                }))
      ]
    ]

pub on_services-Kept :
    (id : Option ℕ) (s : Sources) (f : Failing) (fo fv : Bool) (rel : Relations)
    → rel.service_id ≡ id
    → Claims s rel
    → Kept s (on_services id s f fo fv rel)
on_services-Kept none s f fo fv rel is c = on_host_services-Kept s f fo fv rel is c
on_services-Kept (some id) s f fo fv rel is c = on_service-Kept s f id fo fv rel is c

pub on_root-Kept :
    (s : Sources) (f : Failing) (root : String) (fo fv : Bool) (rel : Relations)
    → Claims s rel
    → Kept s (on_root s f root (fo, fv) rel)
unfolding on_root
on_root-Kept s f root fo fv rel c = elim (Bool-cases (str_eq root "\"host\"")) [
  | inl e ↦ rw e (on_host-Kept s f fo fv rel c)
  | inr e ↦ elim (Bool-cases (str_eq root "\"services\"")) [
    | inl e' ↦ rw (e, e') (on_services-Kept rel.service_id s f fo fv rel refl c)
    | inr e' ↦ elim (Bool-cases (str_eq root "\"hostgroups\"")) [
      | inl g ↦ rw (e, e', g) (on_hostgroups-Kept s f fo fv rel c)
      | inr g ↦ elim (Bool-cases (str_eq root "\"servicegroups\"")) [
        | inl g' ↦ rw (e, e', g, g') (on_servicegroups-Kept s f fo fv rel c)
        | inr g' ↦ rw (e, e', g, g') c
      ]
    ]
  ]
]

pub on_selector-Kept :
    (s : Sources) (f : Failing) (children : List (List String)) (root : String) (rel : Relations)
    → Claims s rel
    → Kept s (on_selector s f children root rel)
unfolding on_selector
on_selector-Kept s f children root rel c = elim (Bool-cases (str_eq root "\"object\"")) [
  | inl e ↦ rw e c
  | inr e ↦ rw e (on_root-Kept s f root (asked root children).0 (asked root children).1 rel c)
]

pub on_selectors-Kept :
    (s : Sources) (f : Failing) (children : List (List String)) (roots : List String) (o : Provided)
    → Kept s o
    → Kept s (on_selectors s f children roots o)
unfolding on_selectors
on_selectors-Kept s f children [] o k = k
on_selectors-Kept s f children (root ∷ roots) (done rel) k =
    on_selectors-Kept s f children roots _ (on_selector-Kept s f children root rel k)
on_selectors-Kept s f children (root ∷ roots) (failed rel) k = k
on_selectors-Kept s f children (root ∷ roots) panicked k = k
