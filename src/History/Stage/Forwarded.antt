-- ===== src/History/Stage/Forwarded.antt =====
-- Reports of the database keep the invariant, and a message is sent on once its entities are written.
use icingadb.Prelude.{
  ℕ, suc, ◌+◌, ◌-◌, ◌≤◌, ◌<◌, List, [], ◌∷◌, All, All-map, Bool, true, false, not, ◌&&◌, Option,
  none, some, ◌==◌, ◌≡◌, refl, arith, ==_refl, ==_iff, Bool-cases, inl, inr, sym, ap, ◌∙◌, subst,
}
use icingadb.History.Stage.{
  Ref, Stage, set, find, delete, is_in, remove, forward, count_down, on_state, forward_skipped,
}
use icingadb.History.Stage.Invariant.{
  bit, count, count_ref, count_key, count_job, IsOwned, size_of, outstanding, skipped_list,
  IsWritten, Inv, Safe,
}
use icingadb.History.Stage.Found.{remove-count_ref, Found, count_key-count_job}
use icingadb.History.Stage.Outstanding.{
  count-outstanding_more, count-outstanding_done, set_same, set_other,
}
use icingadb.History.Stage.Steps.{IsWritten_grows}

module _ {M E : Type 0} (convert : M → Option (List E)) where
  -- The invariant of a stage that is about to send a message on.
  record Due (m : M) (s : Stage M) : Type 0 where
    keys : (r : Ref) → count_key r s.state ≡ count_ref r s.todo + count_ref r s.inserting
    owned : All (IsOwned s.next) s.state
    pending : (j : ℕ) → s.pending j ≡ count_job j s.state
    kept :
        (j k : ℕ)
        → j < s.next
        → k < size_of (convert (s.message j))
        → 1
          ≤ count_key (record { job = j; place = k }) s.state
            + count_ref (record { job = j; place = k }) s.written
    forwarded : All (IsWritten convert s) s.out
    written : IsWritten convert s m
    skipping : (m : M) → s.skipping ≡ some m → convert m ≡ some []
    at_most :
        (q : M → Bool)
        → bit (q m)
            + count q s.out
            + count q (skipped_list s.skipping)
            + count q (outstanding s.message s.pending s.next)
          ≤ count q s.received
    balance :
        (q : M → Bool)
        → s.forwarding && not s.failed ≡ true
        → count q s.received
          ≡ bit (q m)
            + count q s.out
            + count q (skipped_list s.skipping)
            + count q (outstanding s.message s.pending s.next)

  forward-Inv : (m : M) (sent : Bool) (s : Stage M) → Due m s → Inv convert (forward m sent s)
  forward-Inv m true s d = record {
    keys = d.keys;
    owned = d.owned;
    pending = d.pending;
    kept = d.kept;
    forwarded = (d.written, d.forwarded);
    skipping = d.skipping;
    at_most = d.at_most;
    balance = d.balance;
  }
  forward-Inv m false s d = record {
    keys = d.keys;
    owned = d.owned;
    pending = d.pending;
    kept = d.kept;
    forwarded = d.forwarded;
    skipping = d.skipping;
    at_most = λ q. omega (arith, d.at_most q);
    balance = λ q h. cc;
  }

  skipped-Due :
      (m : M) (s : Stage M)
      → s.skipping ≡ some m
      → Inv convert s
      → Due m (record s { skipping = none })
  skipped-Due m s e i = record {
    keys = i.keys;
    owned = i.owned;
    pending = i.pending;
    kept = i.kept;
    forwarded = i.forwarded;
    written = inl (i.skipping m e);
    skipping = λ m' h. cc;
    at_most = λ q. omega (arith, i.at_most q, ap (λ o. count q (skipped_list o)) e);
    balance = λ q h. omega (arith, i.balance q h, ap (λ o. count q (skipped_list o)) e);
  }

  pub forward_skipped-Safe :
      (o : Option M) (sent : Bool) (s : Stage M)
      → s.skipping ≡ o
      → Inv convert s
      → Safe convert (forward_skipped o sent s)
  forward_skipped-Safe none sent s e i = tt
  forward_skipped-Safe (some m) sent s e i =
      forward-Inv m sent (record s { skipping = none }) (skipped-Due m s e i)

  -- What an entity's report leaves.
  module _ (r : Ref) (s : Stage M) (i : Inv convert s) (reported : is_in r s.inserting ≡ true)
      (f : Found r s.next s.state) where
    count_down-keys :
        (q : Ref)
        → count_key q (delete r s.state) ≡ count_ref q s.todo + count_ref q (remove r s.inserting)
    count_down-keys q = omega (arith, i.keys q, f.keys q, remove-count_ref q r s.inserting reported)

    count_down-positive : s.pending f.owner ≡ suc (count_job f.owner (delete r s.state))
    count_down-positive = i.pending f.owner ∙ f.jobs f.owner ∙ rw (==_refl f.owner) (omega arith)

    count_down-pending :
        (j : ℕ) → set f.owner (s.pending f.owner - 1) s.pending j ≡ count_job j (delete r s.state)
    count_down-pending j = elim (Bool-cases (j == f.owner)) [
      | inl e ↦
          subst
            (λ (j : ℕ).
              set f.owner (s.pending f.owner - 1) s.pending j ≡ count_job j (delete r s.state))
            (sym ((==_iff j f.owner).0 e))
            (set_same f.owner (s.pending f.owner - 1) s.pending
              ∙ omega (arith, count_down-positive))
      | inr e ↦
          let other : (f.owner == j) ≡ false = ground arith in
          let same : count_job j s.state ≡ count_job j (delete r s.state) =
            f.jobs j ∙ rw other (omega arith) in
          sym (set_other f.owner j (s.pending f.owner - 1) s.pending e) ∙ i.pending j ∙ same
    ]

    count_down-kept :
        (j k : ℕ)
        → j < s.next
        → k < size_of (convert (s.message j))
        → 1
          ≤ count_key (record { job = j; place = k }) (delete r s.state)
            + count_ref (record { job = j; place = k }) (r ∷ s.written)
    count_down-kept j k below less =
        omega (arith, i.kept j k below less, f.keys (record { job = j; place = k }))

    count_down-forwarded : All (IsWritten convert (count_down r f.owner s)) s.out
    count_down-forwarded =
        All-map s.out
          (λ m h.
            IsWritten_grows convert s (count_down r f.owner s) m (omega arith) (λ j less. refl)
              (λ r. omega arith) h)
          i.forwarded

    count_down-Inv : (s.pending f.owner == 1) ≡ false → Inv convert (count_down r f.owner s)
    count_down-Inv more =
        let same : (q : M → Bool)
            → count q (outstanding s.message s.pending s.next)
              ≡ count q
                  (outstanding s.message (set f.owner (s.pending f.owner - 1) s.pending) s.next) =
          λ q.
            count-outstanding_more q s.message s.pending f.owner s.next f.below
              (ground (arith, count_down-positive, more)) in
        record {
          keys = count_down-keys;
          owned = f.owned;
          pending = count_down-pending;
          kept = count_down-kept;
          forwarded = count_down-forwarded;
          skipping = i.skipping;
          at_most = λ q. omega (arith, i.at_most q, same q);
          balance = λ q h. omega (arith, i.balance q h, same q);
        }

    -- The last entity of a message was reported: none of them is left in the map.
    count_down-written :
        s.pending f.owner ≡ 1 → IsWritten convert (count_down r f.owner s) (s.message f.owner)
    count_down-written last = inr (
      f.owner,
      f.below,
      refl,
      λ k less.
          let gone : count_job f.owner (delete r s.state) ≡ 0 =
            omega (arith, last, count_down-positive) in
          omega (
            arith,
            gone,
            count_down-kept f.owner k f.below less,
            count_key-count_job s.next f.owner k (delete r s.state) f.owned,
          ),
    )

    count_down-Due : s.pending f.owner ≡ 1 → Due (s.message f.owner) (count_down r f.owner s)
    count_down-Due last =
        let less : (q : M → Bool)
            → count q (outstanding s.message s.pending s.next)
              ≡ bit (q (s.message f.owner))
                + count q
                    (outstanding s.message (set f.owner (s.pending f.owner - 1) s.pending) s.next) =
          λ q. count-outstanding_done q s.message s.pending f.owner s.next f.below last in
        record {
          keys = count_down-keys;
          owned = f.owned;
          pending = count_down-pending;
          kept = count_down-kept;
          forwarded = count_down-forwarded;
          written = count_down-written last;
          skipping = i.skipping;
          at_most = λ q. omega (arith, i.at_most q, less q);
          balance = λ q h. omega (arith, i.balance q h, less q);
        }

    pub on_state-Safe : (sent : Bool) → Safe convert (on_state r sent (find r s.state) s)
    on_state-Safe sent = elim (Bool-cases (s.pending f.owner == 1)) [
      | inl last ↦
          rw (f.is, last)
            (forward-Inv (s.message f.owner) sent (count_down r f.owner s)
              (count_down-Due ((==_iff (s.pending f.owner) 1).0 last)))
      | inr more ↦ rw (f.is, more) (count_down-Inv more)
    ]
