-- ===== src/History/Stage/Outstanding.antt =====
-- What a change of one counter does to the messages that are outstanding.
use icingadb.Prelude.{
  ℕ, zero, suc, ◌+◌, ◌-◌, ◌≤◌, ◌<◌, Bool, true, false, ◌==◌, ◌≡◌, refl, arith, ==_refl, ==_iff,
  Bool-cases, inl, inr, sym, ap, ◌∙◌, subst,
}
use icingadb.History.Stage.{set}
use icingadb.History.Stage.Invariant.{bit, count, outstanding}

pub set_other {ℓ} :
    {A : Type ℓ} (j i : ℕ) (a : A) (f : ℕ → A) → (i == j) ≡ false → f i ≡ set j a f i
set_other j i a f e = rw e refl

pub set_same {ℓ} : {A : Type ℓ} (j : ℕ) (a : A) (f : ℕ → A) → set j a f j ≡ a
set_same j a f = rw (==_refl j) refl

module _ {M : Type 0} (q : M → Bool) where
  -- What one number adds.
  abbrev pub counted : Bool → M → ℕ
  counted true m = 0
  counted false m = bit (q m)

  pub count-outstanding-suc :
      (message : ℕ → M) (pending : ℕ → ℕ) (n : ℕ)
      → count q (outstanding message pending (suc n))
        ≡ counted (pending n == 0) (message n) + count q (outstanding message pending n)
  count-outstanding-suc message pending n = elim (Bool-cases (pending n == 0)) [
    | inl e ↦ rw e (omega arith)
    | inr e ↦ rw e refl
  ]

  -- The numbers below another one are not changed with it.
  pub count-outstanding_fresh :
      (message message' : ℕ → M) (pending pending' : ℕ → ℕ) (n : ℕ)
      → ((i : ℕ) → i < n → message i ≡ message' i)
      → ((i : ℕ) → i < n → pending i ≡ pending' i)
      → count q (outstanding message pending n) ≡ count q (outstanding message' pending' n)
  count-outstanding_fresh message message' pending pending' zero sm sp = refl
  count-outstanding_fresh message message' pending pending' (suc n) sm sp =
      let rest =
        count-outstanding_fresh message message' pending pending' n (λ i less. sm i (omega arith))
          (λ i less. sp i (omega arith)) in
      let here = sp n (omega arith) in
      let same = sm n (omega arith) in
      count-outstanding-suc message pending n
      ∙ rw (here, same, rest) (sym (count-outstanding-suc message' pending' n))

  -- The counter of the last job is changed.
  count-outstanding_last :
      (message : ℕ → M) (pending : ℕ → ℕ) (v n : ℕ)
      → count q (outstanding message pending (suc n)) + counted (v == 0) (message n)
        ≡ count q (outstanding message (set n v pending) (suc n))
          + counted (pending n == 0) (message n)
  count-outstanding_last message pending v n =
      let before = count-outstanding-suc message pending n in
      let after : count q (outstanding message (set n v pending) (suc n))
          ≡ counted (v == 0) (message n) + count q (outstanding message (set n v pending) n) =
        count-outstanding-suc message (set n v pending) n
        ∙ ap (λ c. counted (c == 0) (message n) + count q (outstanding message (set n v pending) n))
            (set_same n v pending) in
      let rest =
        count-outstanding_fresh message message pending (set n v pending) n (λ i less. refl)
          (λ i less. set_other n i v pending (ground arith)) in
      rw (before, after, rest) (omega arith)

  -- The counter of a job below the number is changed.
  pub count-outstanding-set :
      (message : ℕ → M) (pending : ℕ → ℕ) (j v n : ℕ)
      → j < n
      → count q (outstanding message pending n) + counted (v == 0) (message j)
        ≡ count q (outstanding message (set j v pending) n) + counted (pending j == 0) (message j)
  count-outstanding-set message pending j v zero less = absurd (omega arith)
  count-outstanding-set message pending j v (suc n) less = elim (Bool-cases (n == j)) [
    | inl e ↦
        subst
          (λ (j : ℕ).
            count q (outstanding message pending (suc n)) + counted (v == 0) (message j)
            ≡ count q (outstanding message (set j v pending) (suc n))
              + counted (pending j == 0) (message j))
          ((==_iff n j).0 e) (count-outstanding_last message pending v n)
    | inr e ↦
        let rest = count-outstanding-set message pending j v n (ground arith) in
        let before = count-outstanding-suc message pending n in
        let after : count q (outstanding message (set j v pending) (suc n))
            ≡ counted (pending n == 0) (message n)
              + count q (outstanding message (set j v pending) n) =
          count-outstanding-suc message (set j v pending) n
          ∙ ap
              (λ c.
                counted (c == 0) (message n) + count q (outstanding message (set j v pending) n))
              (sym (set_other j n v pending e)) in
        rw (before, after) (omega (arith, rest))
  ]

  -- A job is started.
  pub count-outstanding_start :
      (message : ℕ → M) (pending : ℕ → ℕ) (n v : ℕ) (m : M)
      → 1 ≤ v
      → count q (outstanding (set n m message) (set n v pending) (suc n))
        ≡ bit (q m) + count q (outstanding message pending n)
  count-outstanding_start message pending n v m positive =
      let rest =
        count-outstanding_fresh message (set n m message) pending (set n v pending) n
          (λ i less. set_other n i m message (ground arith))
          (λ i less. set_other n i v pending (ground arith)) in
      let busy : (v == 0) ≡ false = ground arith in
      count-outstanding-suc (set n m message) (set n v pending) n
      ∙ rw (set_same n v pending, set_same n m message, busy, rest) refl

  counted_busy : (v : ℕ) (m : M) → 1 ≤ v → counted (v == 0) m ≡ bit (q m)
  counted_busy v m positive = let e : (v == 0) ≡ false = ground arith in rw e refl

  -- One of several entities of a job is reported.
  pub count-outstanding_more :
      (message : ℕ → M) (pending : ℕ → ℕ) (j n : ℕ)
      → j < n
      → 2 ≤ pending j
      → count q (outstanding message pending n)
        ≡ count q (outstanding message (set j (pending j - 1) pending) n)
  count-outstanding_more message pending j n below more = omega (
    arith,
    count-outstanding-set message pending j (pending j - 1) n below,
    counted_busy (pending j) (message j) (omega arith),
    counted_busy (pending j - 1) (message j) (omega arith),
  )

  -- The last entity of a job is reported.
  pub count-outstanding_done :
      (message : ℕ → M) (pending : ℕ → ℕ) (j n : ℕ)
      → j < n
      → pending j ≡ 1
      → count q (outstanding message pending n)
        ≡ bit (q (message j)) + count q (outstanding message (set j (pending j - 1) pending) n)
  count-outstanding_done message pending j n below last =
      let zero_now : counted (pending j - 1 == 0) (message j) ≡ 0 = rw last refl in
      omega (
        arith,
        count-outstanding-set message pending j (pending j - 1) n below,
        zero_now,
        counted_busy (pending j) (message j) (omega arith),
      )
