-- ===== src/History/Stage/Runs.antt =====
-- Every operation of a stage, and so every schedule, keeps the invariant.
use icingadb.Prelude.{
  ◌≤◌, List, [], ◌∷◌, Bool, true, false, ◌&&◌, Option, if◌then◌else◌, ◌≡◌, refl, arith, ap,
}
use icingadb.History.Stage.{
  Ref, Event, receive, insert_next, upserted, take_skipped, close_in, cancel_reader, end_forwarder,
  Stage, Outcome, running, blocked, panicked, find, is_in, on_state, is_idle, insert_todo,
  no_skipping, step, run, new_stage,
}
use icingadb.History.Stage.Invariant.{count_ref, count_key, Inv, Safe}
use icingadb.History.Stage.Found.{is_in-count_ref, find-Found}
use icingadb.History.Stage.Steps.{idle_parts, on_entities-Inv}
use icingadb.History.Stage.Forwarded.{forward_skipped-Safe, on_state-Safe}

module _ {M E : Type 0} (convert : M → Option (List E)) where
  insert_todo-Safe :
      (t : List Ref) (s : Stage M) → s.todo ≡ t → Inv convert s → Safe convert (insert_todo t s)
  insert_todo-Safe [] s e i = tt
  insert_todo-Safe (r ∷ rs) s e i = record {
    keys = λ q. omega (arith, i.keys q, ap (count_ref q) e);
    owned = i.owned;
    pending = i.pending;
    kept = i.kept;
    forwarded = i.forwarded;
    skipping = i.skipping;
    at_most = i.at_most;
    balance = i.balance;
  }

  reader-Inv : (s : Stage M) → Inv convert s → Inv convert (record s { reading = false })
  reader-Inv s i = record {
    keys = i.keys;
    owned = i.owned;
    pending = i.pending;
    kept = i.kept;
    forwarded = i.forwarded;
    skipping = i.skipping;
    at_most = i.at_most;
    balance = i.balance;
  }

  end_forwarder-Inv : (s : Stage M) → Inv convert s → Inv convert (record s { forwarding = false })
  end_forwarder-Inv s i = record {
    keys = i.keys;
    owned = i.owned;
    pending = i.pending;
    kept = i.kept;
    forwarded = i.forwarded;
    skipping = i.skipping;
    at_most = i.at_most;
    balance = λ q h. cc;
  }

  new_stage-Inv : (empty : M) → Inv convert (new_stage empty)
  unfolding new_stage
  new_stage-Inv empty = record {
    keys = λ r. refl;
    owned = tt;
    pending = λ j. refl;
    kept = λ j k below less. absurd (omega (arith, below));
    forwarded = tt;
    skipping = λ m h. cc;
    at_most = λ q. omega arith;
    balance = λ q h. refl;
  }

  guard-Safe :
      (b : Bool) (o : Outcome M)
      → (b ≡ true → Safe convert o)
      → Safe convert (if b then o else blocked)
  guard-Safe true o h = h refl
  guard-Safe false o h = tt

  first_holds : (a b : Bool) → a && b ≡ true → a ≡ true
  first_holds true b h = refl
  first_holds false b h = h

  upserted-Safe :
      (r : Ref) (sent : Bool) (s : Stage M)
      → Inv convert s
      → is_in r s.inserting ≡ true
      → Safe convert (on_state r sent (find r s.state) s)
  upserted-Safe r sent s i reported =
      let there : 1 ≤ count_key r s.state =
        omega (arith, i.keys r, is_in-count_ref r s.inserting reported) in
      on_state-Safe convert r s i reported (find-Found r s.next s.state there i.owned) sent

  step-Safe : (e : Event M) (s : Stage M) → Inv convert s → Safe convert (step convert e s)
  unfolding step
  step-Safe (receive m) s i = guard-Safe (is_idle s) _ (λ idle.
      on_entities-Inv convert m (convert m) s (idle_parts convert s.reading s.todo s.skipping idle)
        refl i)
  step-Safe insert_next s i = guard-Safe s.reading _ (λ on. insert_todo-Safe s.todo s refl i)
  step-Safe (upserted r sent) s i =
      guard-Safe (is_in r s.inserting && s.forwarding) _
        (λ on. upserted-Safe r sent s i (first_holds _ _ on))
  step-Safe (take_skipped sent) s i =
      guard-Safe s.forwarding _ (λ on. forward_skipped-Safe convert s.skipping sent s refl i)
  step-Safe close_in s i = guard-Safe (is_idle s) _ (λ idle. reader-Inv s i)
  step-Safe cancel_reader s i =
      guard-Safe (s.reading && no_skipping s.skipping) _ (λ on. reader-Inv s i)
  step-Safe end_forwarder s i = end_forwarder-Inv s i

  on_outcome :
      (k : Stage M → Outcome M) (o : Outcome M)
      → ((s : Stage M) → Inv convert s → Safe convert (k s))
      → Safe convert o
      → Safe convert (elim o [ running s ↦ k s | blocked ↦ blocked | panicked ↦ panicked ])
  on_outcome k (running s) f i = f s i
  on_outcome k blocked f i = tt
  on_outcome k panicked f i = i

  pub run-Safe :
      (es : List (Event M)) (s : Stage M) → Inv convert s → Safe convert (run convert es s)
  unfolding run
  run-Safe [] s i = i
  run-Safe (e ∷ es) s i =
      on_outcome (run convert es) (step convert e s) (run-Safe es) (step-Safe e s i)

  pub new_run-Safe :
      (empty : M) (es : List (Event M)) → Safe convert (run convert es (new_stage empty))
  new_run-Safe empty es = run-Safe es (new_stage empty) (new_stage-Inv empty)
