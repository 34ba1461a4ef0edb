-- ===== src/History/Stage/Found.antt =====
-- The entities of a slice, and what the deletion of an entry changes.
use icingadb.Prelude.{
  ℕ, suc, ◌+◌, ◌≤◌, ◌<◌, List, [], ◌∷◌, ◌++◌, map, All, length, true, false, some, if◌then◌else◌,
  ◌==◌, ◌≡◌, refl, arith, ==_refl, Bool-cases, inl, inr, sym, ap, ◌∙◌,
}
use icingadb.History.Stage.{Ref, same_ref, find, delete, is_in, remove, refs, owned_by}
use icingadb.History.Stage.Invariant.{bit, count_ref, count_key, count_job, IsOwned}

pub same_ref_refl : (r : Ref) → same_ref r r ≡ true
same_ref_refl r = rw (==_refl r.job, ==_refl r.place) refl

pub count_key-refs :
    {E : Type 0} (r : Ref) (j k i : ℕ) (es : List E) (m : List (Ref × ℕ))
    → count_key r (map (owned_by i) (refs j k es) ++ m) ≡ count_ref r (refs j k es) + count_key r m
count_key-refs r j k i [] m = omega arith
count_key-refs r j k i (e ∷ es) m = omega (arith, count_key-refs r j (suc k) i es m)

pub count_job-refs :
    {E : Type 0} (i j k : ℕ) (es : List E) (m : List (Ref × ℕ))
    → count_job i (map (owned_by j) (refs j k es) ++ m)
      ≡ (if j == i then length es else 0) + count_job i m
count_job-refs i j k [] m = ground arith
count_job-refs i j k (e ∷ es) m = ground (arith, count_job-refs i j (suc k) es m)

pub refs-IsOwned :
    {E : Type 0} (next j k : ℕ) (es : List E) (m : List (Ref × ℕ))
    → j < next
    → All (IsOwned next) m
    → All (IsOwned next) (map (owned_by j) (refs j k es) ++ m)
refs-IsOwned next j k [] m less all = all
refs-IsOwned next j k (e ∷ es) m less all =
    ((refl, less), refs-IsOwned next j (suc k) es m less all)

pub count_ref-refs :
    {E : Type 0} (j i k : ℕ) (es : List E)
    → k ≤ i
    → i < k + length es
    → 1 ≤ count_ref (record { job = j; place = i }) (refs j k es)
count_ref-refs j i k [] low high = absurd (omega arith)
count_ref-refs j i k (e ∷ es) low high = elim (Bool-cases (i == k)) [
  | inl e ↦ rw (==_refl j, e) (omega arith)
  | inr e ↦
      let rest = count_ref-refs j i (suc k) es (ground arith) (omega arith) in omega (arith, rest)
]

same_ref-eq : (r r' : Ref) → same_ref r r' ≡ true → r ≡ r'
same_ref-eq r r' h =
    let same_job : r.job ≡ r'.job = ground arith in
    let same_place : r.place ≡ r'.place = ground arith in
    ap (λ (j : ℕ). record { job = j; place = r.place }) same_job
    ∙ ap (λ (p : ℕ). record { job = r'.job; place = p }) same_place

is_in_tail :
    (r r' : Ref) (rs : List Ref)
    → same_ref r r' ≡ false
    → is_in r (r' ∷ rs) ≡ true
    → is_in r rs ≡ true
is_in_tail r r' rs other h =
    let same : is_in r (r' ∷ rs) ≡ is_in r rs = rw other refl in sym same ∙ h

pub remove-count_ref :
    (q r : Ref) (rs : List Ref)
    → is_in r rs ≡ true
    → count_ref q rs ≡ bit (same_ref q r) + count_ref q (remove r rs)
remove-count_ref q r [] h = cc
remove-count_ref q r (r' ∷ rs) h = elim (Bool-cases (same_ref r r')) [
  | inl same ↦ rw (same, same_ref-eq r r' same) refl
  | inr other ↦
      let rest = remove-count_ref q r rs (is_in_tail r r' rs other h) in
      rw other (omega (arith, rest))
]

pub is_in-count_ref : (r : Ref) (rs : List Ref) → is_in r rs ≡ true → 1 ≤ count_ref r rs
is_in-count_ref r [] h = cc
is_in-count_ref r (r' ∷ rs) h = ground (arith, is_in-count_ref r rs)

-- What an entry that is found and deleted has.
pub record Found (r : Ref) (next : ℕ) (m : List (Ref × ℕ)) : Type 0 where
  pub owner : ℕ
  pub is : find r m ≡ some owner
  pub below : owner < next
  pub job : r.job ≡ owner
  pub keys : (q : Ref) → count_key q m ≡ bit (same_ref q r) + count_key q (delete r m)
  pub jobs : (i : ℕ) → count_job i m ≡ bit (owner == i) + count_job i (delete r m)
  pub owned : All (IsOwned next) (delete r m)

here-Found :
    (r r' : Ref) (next j : ℕ) (m : List (Ref × ℕ))
    → All (IsOwned next) ((r', j) ∷ m)
    → same_ref r r' ≡ true
    → Found r next ((r', j) ∷ m)
here-Found r r' next j m all same =
    let eq = same_ref-eq r r' same in
    record {
      owner = j;
      is = rw same refl;
      below = all.0.1;
      job = ap (λ (p : Ref). p.job) eq ∙ all.0.0;
      keys = λ q. rw (same, eq) refl;
      jobs = λ i. rw same refl;
      owned = rw same (all.1);
    }

later-Found :
    (r r' : Ref) (next j : ℕ) (m : List (Ref × ℕ))
    → All (IsOwned next) ((r', j) ∷ m)
    → same_ref r r' ≡ false
    → Found r next m
    → Found r next ((r', j) ∷ m)
later-Found r r' next j m all other f = record {
  owner = f.owner;
  is = rw other (f.is);
  below = f.below;
  job = f.job;
  keys = λ q. rw other (omega (arith, f.keys q));
  jobs = λ i. rw other (omega (arith, f.jobs i));
  owned = rw other (all.0, f.owned);
}

pub find-Found :
    (r : Ref) (next : ℕ) (m : List (Ref × ℕ))
    → 1 ≤ count_key r m
    → All (IsOwned next) m
    → Found r next m
find-Found r next [] h all = absurd (omega (arith, h))
find-Found r next ((r', j) ∷ m) h all = elim (Bool-cases (same_ref r r')) [
  | inl same ↦ here-Found r r' next j m all same
  | inr other ↦
      let later : 1 ≤ count_key r m = ground (arith, h, other) in
      later-Found r r' next j m all other (find-Found r next m later all.1)
]

-- A job without entries has no entities in the map.
pub count_key-count_job :
    (next j k : ℕ) (m : List (Ref × ℕ))
    → All (IsOwned next) m
    → count_key (record { job = j; place = k }) m ≤ count_job j m
count_key-count_job next j k [] all = omega arith
count_key-count_job next j k ((r, i) ∷ m) all =
    ground (arith, all, count_key-count_job next j k m all.1)

pub count_job_fresh :
    (next j : ℕ) (m : List (Ref × ℕ)) → All (IsOwned next) m → next ≤ j → count_job j m ≡ 0
count_job_fresh next j [] all le = refl
count_job_fresh next j ((r, i) ∷ m) all le = ground (arith, all, count_job_fresh next j m all.1 le)
