-- ===== src/History/Stage/Delivery.antt =====
-- What a stage promises to the stages around it.
use icingadb.Prelude.{
  ℕ, zero, suc, ◌≤◌, List, [], ◌∷◌, All, Bool, true, not, ◌&&◌, Option, none, ◌≡◌, ◌≢◌, refl, arith,
  ap, ◌∙◌, subst,
}
use icingadb.History.Stage.{Ref, Event, Stage, running, panicked, run, new_stage}
use icingadb.History.Stage.Invariant.{
  bit, count, count_ref, count_key, count_job, outstanding, skipped_list, IsWritten, Inv, Safe,
}
use icingadb.History.Stage.Found.{same_ref_refl}
use icingadb.History.Stage.Outstanding.{count-outstanding-suc}
use icingadb.History.Stage.Runs.{new_run-Safe}

none_left : (m : List (Ref × ℕ)) → ((r : Ref) → count_key r m ≡ 0) → (j : ℕ) → count_job j m ≡ 0
none_left [] h j = refl
none_left ((r, i) ∷ m) h j =
    let here = h r in let itself = ap bit (same_ref_refl r) in absurd (omega (arith, here, itself))

none_outstanding :
    {M : Type 0} (q : M → Bool) (message : ℕ → M) (pending : ℕ → ℕ) (n : ℕ)
    → ((j : ℕ) → pending j ≡ 0)
    → count q (outstanding message pending n) ≡ 0
none_outstanding q message pending zero h = refl
none_outstanding q message pending (suc n) h =
    count-outstanding-suc q message pending n
    ∙ rw (h n, none_outstanding q message pending n h) refl

module _ {M E : Type 0} (convert : M → Option (List E)) where
  -- The stage does not panic, whatever the goroutines do and whenever the context ends: an entity that the
  -- database reports is in the map.
  pub run-no_panic : (empty : M) (es : List (Event M)) → run convert es (new_stage empty) ≢ panicked
  run-no_panic empty es h = subst (Safe convert) h (new_run-Safe convert empty es)

  reached-Inv :
      (empty : M) (es : List (Event M)) (s : Stage M)
      → run convert es (new_stage empty) ≡ running s
      → Inv convert s
  reached-Inv empty es s h = subst (Safe convert) h (new_run-Safe convert empty es)

  -- Whatever the goroutines do, and however the stage ends: all entities of a message that is sent on are
  -- in the database, and no message is sent on more often than it was received.
  pub run-IsWritten :
      (empty : M) (es : List (Event M)) (s : Stage M)
      → run convert es (new_stage empty) ≡ running s
      → All (IsWritten convert s) s.out × ((q : M → Bool) → count q s.out ≤ count q s.received)
  run-IsWritten empty es s h =
      let i = reached-Inv empty es s h in (i.forwarded, λ q. omega (arith, i.at_most q))

  -- Once nothing is left to be inserted, reported or skipped, a stage that did neither fail nor lose its
  -- forwarding goroutine has sent on every message as often as it was received.
  pub run-delivers :
      (empty : M) (es : List (Event M)) (s : Stage M)
      → run convert es (new_stage empty) ≡ running s
      → s.forwarding && not s.failed ≡ true
      → s.todo ≡ []
      → s.inserting ≡ []
      → s.skipping ≡ none
      → (q : M → Bool) → count q s.out ≡ count q s.received
  run-delivers empty es s h live no_todo no_inserting no_skipped q =
      let i = reached-Inv empty es s h in
      let no_keys : (r : Ref) → count_key r s.state ≡ 0 =
        λ r. omega (arith, i.keys r, ap (count_ref r) no_todo, ap (count_ref r) no_inserting) in
      let no_pending : (j : ℕ) → s.pending j ≡ 0 = λ j. i.pending j ∙ none_left s.state no_keys j in
      omega (
        arith,
        i.balance q live,
        ap (λ o. count q (skipped_list o)) no_skipped,
        none_outstanding q s.message s.pending s.next no_pending,
      )
