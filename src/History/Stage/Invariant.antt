-- ===== src/History/Stage/Invariant.antt =====
-- What holds of a stage at any time.
use icingadb.Prelude.{
  ℕ, suc, ◌+◌, ◌≤◌, ◌<◌, List, [], ◌∷◌, All, length, Bool, true, not, ◌&&◌, Option, none, some,
  ◌==◌, ◌≡◌, ◌⊎◌, zero, if◌then◌else◌,
}
pub use icingadb.Prelude.{bit, count}
use icingadb.History.Stage.{Ref, Stage, Outcome, running, blocked, panicked, same_ref}

abbrev pub count_ref : Ref → List Ref → ℕ
count_ref r [] = 0
count_ref r (r' ∷ rs) = bit (same_ref r r') + count_ref r rs

abbrev pub count_key : Ref → List (Ref × ℕ) → ℕ
count_key r [] = 0
count_key r ((r', j) ∷ m) = bit (same_ref r r') + count_key r m

abbrev pub count_job : ℕ → List (Ref × ℕ) → ℕ
count_job j [] = 0
count_job j ((r, j') ∷ m) = bit (j' == j) + count_job j m

-- An entry of the map is one of a job that was started.
abbrev pub IsOwned : ℕ → Ref × ℕ → Type 0
IsOwned next (r, j) = (r.job ≡ j) × (j < next)

abbrev pub size_of {ℓ} : {E : Type ℓ} → Option (List E) → ℕ
size_of none = 0
size_of (some es) = length es

-- The messages of the jobs below a number that wait for entities.
abbrev pub outstanding {ℓ} : {M : Type ℓ} → (ℕ → M) → (ℕ → ℕ) → ℕ → List M
outstanding message pending zero = []
outstanding message pending (suc n) =
    let before = outstanding message pending n in
    if pending n == 0 then before else message n ∷ before

abbrev pub skipped_list {ℓ} : {M : Type ℓ} → Option M → List M
skipped_list none = []
skipped_list (some m) = m ∷ []

module _ {M E : Type 0} (convert : M → Option (List E)) where
  -- All entities of the message are in the database.
  abbrev pub IsWritten : Stage M → M → Type 0
  IsWritten s m =
      (convert m ≡ some [])
      ⊎ ((j : ℕ) × (j < s.next)
          × (s.message j ≡ m)
          × ((k : ℕ)
              → k < size_of (convert m)
              → 1 ≤ count_ref (record { job = j; place = k }) s.written))

  pub record Inv (s : Stage M) : Type 0 where
    pub keys : (r : Ref) → count_key r s.state ≡ count_ref r s.todo + count_ref r s.inserting
    pub owned : All (IsOwned s.next) s.state
    pub pending : (j : ℕ) → s.pending j ≡ count_job j s.state
    pub kept :
        (j k : ℕ)
        → j < s.next
        → k < size_of (convert (s.message j))
        → 1
          ≤ count_key (record { job = j; place = k }) s.state
            + count_ref (record { job = j; place = k }) s.written
    pub forwarded : All (IsWritten s) s.out
    pub skipping : (m : M) → s.skipping ≡ some m → convert m ≡ some []
    pub at_most :
        (q : M → Bool)
        → count q s.out
            + count q (skipped_list s.skipping)
            + count q (outstanding s.message s.pending s.next)
          ≤ count q s.received
    pub balance :
        (q : M → Bool)
        → s.forwarding && not s.failed ≡ true
        → count q s.received
          ≡ count q s.out
            + count q (skipped_list s.skipping)
            + count q (outstanding s.message s.pending s.next)

  -- An operation does not panic, and what it leaves has the invariant.
  abbrev pub Safe : Outcome M → Type 0
  Safe (running s) = Inv s
  Safe blocked = Unit
  Safe panicked = ⊥
