-- ===== src/Notifications/CheckOutputs/Requests.antt =====
-- The requests that are made for an object, among those of the two streams.
use icingadb.Prelude.{
  String, str_eq, List, [], ◌∷◌, ◌++◌, Bool, true, false, if◌then◌else◌, ◌≡◌, refl, ap, ◌∙◌, inl,
  inr, Bool-cases,
}
use icingadb.Prelude.Interleavings.{interleave}
use icingadb.Notifications.CheckOutputs.{Request}

module _ (i : String) where
  -- The requests for the object.
  abbrev pub requests_for : List Request → List Request
  requests_for [] = []
  requests_for (q ∷ qs) = let rest = requests_for qs in if str_eq q.object i then q ∷ rest else rest

  pub requests_for-append :
      (xs ys : List Request) → requests_for (xs ++ ys) ≡ requests_for xs ++ requests_for ys
  requests_for-append [] ys = refl
  requests_for-append (q ∷ xs) ys = elim (Bool-cases (str_eq q.object i)) [
    | inl e ↦ rw e (ap (λ qs. q ∷ qs) (requests_for-append xs ys))
    | inr e ↦ rw e (requests_for-append xs ys)
  ]

  -- Where there is none, the first request is for another object.
  none_for :
      (q : Request) (qs : List Request)
      → requests_for (q ∷ qs) ≡ []
      → (str_eq q.object i ≡ false) × (requests_for qs ≡ [])
  none_for q qs none = by_test (str_eq q.object i) refl none
    where
      by_test :
          (b : Bool)
          → str_eq q.object i ≡ b
          → (if b then q ∷ requests_for qs else requests_for qs) ≡ []
          → (str_eq q.object i ≡ false) × (requests_for qs ≡ [])
      by_test true e bad = cc
      by_test false e h = (e, h)

  skip :
      (q : Request) (qs : List Request)
      → str_eq q.object i ≡ false
      → requests_for (q ∷ qs) ≡ requests_for qs
  skip q qs e = rw e refl

  both_alike :
      (q : Request) (qs qs' : List Request)
      → requests_for qs ≡ requests_for qs'
      → requests_for (q ∷ qs) ≡ requests_for (q ∷ qs')
  both_alike q qs qs' e = ap (λ r. if str_eq q.object i then q ∷ r else r) e

  -- If one stream makes no request for the object, those that are made are the other's.
  pub requests_for-first :
      (sched : List Bool) (xs ys : List Request)
      → requests_for ys ≡ []
      → requests_for (interleave sched xs ys) ≡ requests_for xs
  requests_for-first [] [] ys none = none
  requests_for-first [] (x ∷ xs) ys none =
      both_alike x (xs ++ ys) xs (requests_for-first [] xs ys none)
  requests_for-first (true ∷ sched) [] ys none = none
  requests_for-first (true ∷ sched) (x ∷ xs) ys none =
      both_alike x (interleave sched xs ys) xs (requests_for-first sched xs ys none)
  requests_for-first (false ∷ sched) xs [] none = refl
  requests_for-first (false ∷ sched) xs (y ∷ ys) none =
      let rest = none_for y ys none in
      skip y (interleave sched xs ys) rest.0 ∙ requests_for-first sched xs ys rest.1

  pub requests_for-second :
      (sched : List Bool) (xs ys : List Request)
      → requests_for xs ≡ []
      → requests_for (interleave sched xs ys) ≡ requests_for ys
  requests_for-second [] xs ys none =
      requests_for-append xs ys ∙ ap (λ qs. qs ++ requests_for ys) none
  requests_for-second (true ∷ sched) [] ys none = refl
  requests_for-second (true ∷ sched) (x ∷ xs) ys none =
      let rest = none_for x xs none in
      skip x (interleave sched xs ys) rest.0 ∙ requests_for-second sched xs ys rest.1
  requests_for-second (false ∷ sched) xs [] none = none
  requests_for-second (false ∷ sched) xs (y ∷ ys) none =
      both_alike y (interleave sched xs ys) ys (requests_for-second sched xs ys none)
