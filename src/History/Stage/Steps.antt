-- ===== src/History/Stage/Steps.antt =====
-- Every operation of a stage keeps its invariant.
use icingadb.Prelude.{
  ℕ, suc, ◌+◌, ◌≤◌, ◌<◌, List, [], ◌∷◌, All-map, length, Bool, true, false, not, ◌&&◌, Option, none,
  some, ◌==◌, ◌≡◌, refl, arith, ==_refl, ==_iff, Bool-cases, inl, inr, sym, ap, ◌∙◌, subst,
}
use icingadb.History.Stage.{Ref, Stage, set, start_job, on_entities}
use icingadb.History.Stage.Invariant.{
  count, count_ref, count_key, count_job, size_of, skipped_list, IsWritten, Inv,
}
use icingadb.History.Stage.Found.{
  count_key-refs, count_job-refs, refs-IsOwned, count_ref-refs, count_job_fresh,
}
use icingadb.History.Stage.Outstanding.{count-outstanding_start, set_same, set_other}

module _ {M E : Type 0} (convert : M → Option (List E)) where
  pub IsWritten_grows :
      (s s' : Stage M) (m : M)
      → s.next ≤ s'.next
      → ((j : ℕ) → j < s.next → s.message j ≡ s'.message j)
      → ((r : Ref) → count_ref r s.written ≤ count_ref r s'.written)
      → IsWritten convert s m
      → IsWritten convert s' m
  IsWritten_grows s s' m le same grows (inl e) = inl e
  IsWritten_grows s s' m le same grows (inr (j, less, is, all)) = inr (
    j,
    omega (arith, less, le),
    sym (same j less) ∙ is,
    λ k h. omega (arith, all k h, grows (record { job = j; place = k })),
  )

  abbrev pub IsIdle : Stage M → Type 0
  IsIdle s = (s.todo ≡ []) × (s.skipping ≡ none)

  pub idle_parts :
      (b : Bool) (t : List Ref) (o : Option M)
      → (b && elim t [ [] ↦ elim o [ none ↦ true | _ ↦ false ] | _ ↦ false ]) ≡ true
      → (t ≡ []) × (o ≡ none)
  idle_parts true [] none h = (refl, refl)
  idle_parts true [] (some m) h = cc
  idle_parts true (r ∷ t) o h = cc
  idle_parts false t o h = cc

  skip-Inv :
      (m : M) (s : Stage M)
      → IsIdle s
      → convert m ≡ some []
      → Inv convert s
      → Inv convert (record s { skipping = some m; received = m ∷ s.received })
  skip-Inv m s idle e i = record {
    keys = i.keys;
    owned = i.owned;
    pending = i.pending;
    kept = i.kept;
    forwarded = i.forwarded;
    skipping = λ m' h. ap convert (some_eq h) ∙ e;
    at_most = λ q.
        let none_before = ap (λ o. count q (skipped_list o)) idle.1 in
        omega (arith, i.at_most q, none_before);
    balance = λ q h.
        let none_before = ap (λ o. count q (skipped_list o)) idle.1 in
        omega (arith, i.balance q h, none_before);
  }
    where
      some_eq : {m' : M} → some m ≡ some m' → m' ≡ m
      some_eq h = sym (ap (λ o. elim o [ none ↦ m | some x ↦ x ]) h)

  reject-Inv :
      (m : M) (s : Stage M)
      → Inv convert s
      → Inv convert (record s { reading = false; failed = true; received = m ∷ s.received })
  reject-Inv m s i = record {
    keys = i.keys;
    owned = i.owned;
    pending = i.pending;
    kept = i.kept;
    forwarded = i.forwarded;
    skipping = i.skipping;
    at_most = λ q. omega (arith, i.at_most q);
    balance = λ q h. absurd (never s.forwarding h);
  }
    where
      never : (b : Bool) → b && not true ≡ true → ⊥
      never true h = cc
      never false h = cc

  start_job-kept :
      (m : M) (xs : List E) (s : Stage M) (k : ℕ)
      → k < length xs
      → 1
        ≤ count_key (record { job = s.next; place = k }) (start_job m xs s).state
          + count_ref (record { job = s.next; place = k }) s.written
  start_job-kept m xs s k less =
      let r : Ref = record { job = s.next; place = k } in
      omega (
        arith,
        count_key-refs r s.next 0 s.next xs s.state,
        count_ref-refs s.next k 0 xs (omega arith) (omega (arith, less)),
      )

  start_job-kept_all :
      (m : M) (xs : List E) (s : Stage M)
      → convert m ≡ some xs
      → Inv convert s
      → (j k : ℕ) → j < suc s.next
      → k < size_of (convert (set s.next m s.message j))
      → 1
        ≤ count_key (record { job = j; place = k }) (start_job m xs s).state
          + count_ref (record { job = j; place = k }) s.written
  start_job-kept_all m xs s conv i j k below less = elim (Bool-cases (j == s.next)) [
    | inl e ↦
        let is : j ≡ s.next = (==_iff j s.next).0 e in
        let message_is : set s.next m s.message j ≡ m = rw e refl in
        let size = ap (λ m. size_of (convert m)) message_is ∙ ap size_of conv in
        subst
          (λ (j : ℕ).
            1
            ≤ count_key (record { job = j; place = k }) (start_job m xs s).state
              + count_ref (record { job = j; place = k }) s.written)
          (sym is) (start_job-kept m xs s k (omega (arith, less, size)))
    | inr e ↦
        let r : Ref = record { job = j; place = k } in
        let size = ap (λ m. size_of (convert m)) (set_other s.next j m s.message e) in
        omega (
          arith,
          count_key-refs r s.next 0 s.next xs s.state,
          i.kept j k (ground arith) (omega (arith, less, size)),
        )
  ]

  start_job-pending :
      (m : M) (xs : List E) (s : Stage M)
      → Inv convert s
      → (j : ℕ) → set s.next (length xs) s.pending j ≡ count_job j (start_job m xs s).state
  start_job-pending m xs s i j =
      let all = count_job-refs j s.next 0 xs s.state in
      let fresh = count_job_fresh s.next s.next s.state i.owned (omega arith) in
      elim (Bool-cases (j == s.next)) [
        | inl e ↦
            subst
              (λ (j : ℕ). set s.next (length xs) s.pending j ≡ count_job j (start_job m xs s).state)
              (sym ((==_iff j s.next).0 e))
              (set_same s.next (length xs) s.pending
                ∙ rw (count_job-refs s.next s.next 0 xs s.state, ==_refl s.next)
                    (omega (arith, fresh)))
        | inr e ↦
            let other : (s.next == j) ≡ false = ground arith in
            sym (set_other s.next j (length xs) s.pending e)
            ∙ i.pending j
            ∙ sym (all ∙ rw other (omega arith))
      ]

  start_job-Inv :
      (m : M) (xs : List E) (s : Stage M)
      → IsIdle s
      → convert m ≡ some xs
      → 1 ≤ length xs
      → Inv convert s
      → Inv convert (start_job m xs s)
  start_job-Inv m xs s idle conv positive i = record {
    keys = λ r.
        let none_before : count_ref r s.todo ≡ 0 = ap (count_ref r) idle.0 in
        omega (arith, count_key-refs r s.next 0 s.next xs s.state, i.keys r, none_before);
    owned =
        refs-IsOwned (suc s.next) s.next 0 xs s.state (omega arith)
          (All-map s.state (λ p h. (h.0, omega (arith, h.1))) i.owned);
    pending = start_job-pending m xs s i;
    kept = start_job-kept_all m xs s conv i;
    forwarded =
        All-map s.out
          (λ m' h.
            IsWritten_grows s (start_job m xs s) m' (omega arith)
              (λ j less. set_other s.next j m s.message (ground arith)) (λ r. omega arith) h)
          i.forwarded;
    skipping = i.skipping;
    at_most = λ q. omega (
      arith,
      i.at_most q,
      count-outstanding_start q s.message s.pending s.next (length xs) m positive,
    );
    balance = λ q h. omega (
      arith,
      i.balance q h,
      count-outstanding_start q s.message s.pending s.next (length xs) m positive,
    );
  }

  pub on_entities-Inv :
      (m : M) (o : Option (List E)) (s : Stage M)
      → IsIdle s
      → convert m ≡ o
      → Inv convert s
      → Inv convert (on_entities m o s)
  on_entities-Inv m none s idle conv i = reject-Inv m s i
  on_entities-Inv m (some []) s idle conv i = skip-Inv m s idle conv i
  on_entities-Inv m (some (e ∷ es)) s idle conv i =
      start_job-Inv m (e ∷ es) s idle conv (omega arith) i
