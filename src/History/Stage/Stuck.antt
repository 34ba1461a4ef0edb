-- ===== src/History/Stage/Stuck.antt =====
-- The first goroutine at `skipped <- e`, once the third one has ended.
use icingadb.Prelude.{
  List, [], ◌∷◌, Bool, true, false, ◌&&◌, Option, none, some, if◌then◌else◌, ◌≡◌, refl, ap,
}
use icingadb.History.Stage.{
  Ref, Event, receive, insert_next, upserted, take_skipped, close_in, cancel_reader, end_forwarder,
  Stage, Outcome, running, blocked, panicked, is_in, is_idle, insert_todo, no_skipping, step, run,
}

-- The first goroutine waits to send a message that nothing receives.
pub record IsStuck {M : Type 0} (m : M) (s : Stage M) : Type 0 where
  pub reading : s.reading ≡ true
  pub skipping : s.skipping ≡ some m
  pub forwarding : s.forwarding ≡ false

abbrev pub StaysStuck : {M : Type 0} → M → Outcome M → Type 0
StaysStuck m (running s) = IsStuck m s
StaysStuck m blocked = Unit
StaysStuck m panicked = Unit

module _ {M E : Type 0} (convert : M → Option (List E)) (m : M) where
  guard-StaysStuck :
      (b : Bool) (o : Outcome M) → b ≡ false → StaysStuck m (if b then o else blocked)
  guard-StaysStuck true o h = cc
  guard-StaysStuck false o h = tt

  not_idle :
      (b : Bool) (t : List Ref) (o : Option M)
      → o ≡ some m
      → (b && elim t [ [] ↦ elim o [ none ↦ true | _ ↦ false ] | _ ↦ false ]) ≡ false
  not_idle b t none h = cc
  not_idle true [] (some x) h = refl
  not_idle true (r ∷ t) (some x) h = refl
  not_idle false t (some x) h = refl

  both_false : (a b : Bool) → b ≡ false → a && b ≡ false
  both_false true b h = h
  both_false false b h = refl

  insert_todo-StaysStuck :
      (t : List Ref) (s : Stage M) → IsStuck m s → StaysStuck m (insert_todo t s)
  insert_todo-StaysStuck [] s i = tt
  insert_todo-StaysStuck (r ∷ rs) s i = record {
    reading = i.reading;
    skipping = i.skipping;
    forwarding = i.forwarding;
  }

  insert_next-StaysStuck :
      (b : Bool) (s : Stage M)
      → IsStuck m s
      → StaysStuck m (if b then insert_todo s.todo s else blocked)
  insert_next-StaysStuck true s i = insert_todo-StaysStuck s.todo s i
  insert_next-StaysStuck false s i = tt

  step-StaysStuck : (e : Event M) (s : Stage M) → IsStuck m s → StaysStuck m (step convert e s)
  unfolding step
  step-StaysStuck (receive x) s i =
      guard-StaysStuck (is_idle s) _ (not_idle s.reading s.todo s.skipping i.skipping)
  step-StaysStuck insert_next s i = insert_next-StaysStuck s.reading s i
  step-StaysStuck (upserted r sent) s i =
      guard-StaysStuck (is_in r s.inserting && s.forwarding) _ (both_false _ _ i.forwarding)
  step-StaysStuck (take_skipped sent) s i = guard-StaysStuck s.forwarding _ i.forwarding
  step-StaysStuck close_in s i =
      guard-StaysStuck (is_idle s) _ (not_idle s.reading s.todo s.skipping i.skipping)
  step-StaysStuck cancel_reader s i =
      guard-StaysStuck (s.reading && no_skipping s.skipping) _
        (both_false _ _ (ap no_skipping i.skipping))
  step-StaysStuck end_forwarder s i = record {
    reading = i.reading;
    skipping = i.skipping;
    forwarding = refl;
  }

  on_outcome-StaysStuck :
      (k : Stage M → Outcome M) (o : Outcome M)
      → ((s : Stage M) → IsStuck m s → StaysStuck m (k s))
      → StaysStuck m o
      → StaysStuck m (elim o [ running s ↦ k s | blocked ↦ blocked | panicked ↦ panicked ])
  on_outcome-StaysStuck k (running s) f i = f s i
  on_outcome-StaysStuck k blocked f i = tt
  on_outcome-StaysStuck k panicked f i = tt

  -- Where the third goroutine has ended while the first one waits to send a message to `skipped`, the first
  -- one never ends, whatever happens then, the end of the context included.
  pub run-StaysStuck :
      (es : List (Event M)) (s : Stage M) → IsStuck m s → StaysStuck m (run convert es s)
  unfolding run
  run-StaysStuck [] s i = i
  run-StaysStuck (e ∷ es) s i =
      on_outcome-StaysStuck (run convert es) (step convert e s) (run-StaysStuck es)
        (step-StaysStuck e s i)
