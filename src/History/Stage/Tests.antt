-- ===== src/History/Stage/Tests.antt =====
-- A message with two entities, and one without, which overtakes it.
use icingadb.Prelude.{
  ℕ, ◌++◌, ◌≤◌, List, [], ◌∷◌, All, Bool, true, false, Option, none, some, ◌==◌, ◌≡◌, ◌≢◌, refl,
  if◌then◌else◌,
}
use icingadb.History.Stage.{
  Ref, Event, receive, insert_next, upserted, take_skipped, end_forwarder, Stage, running, panicked,
  run, step, new_stage, set,
}
use icingadb.History.Stage.Invariant.{count, IsWritten}
use icingadb.History.Stage.Delivery.{run-IsWritten, run-delivers, run-no_panic}
use icingadb.History.Stage.Stuck.{StaysStuck, run-StaysStuck}

abbrev convert : ℕ → Option (List ℕ)
convert n = if n == 7 then some (1 ∷ 2 ∷ []) else some []

abbrev first_entity : Ref
first_entity = record { job = 0; place = 0 }

abbrev second_entity : Ref
second_entity = record { job = 0; place = 1 }

abbrev schedule : List (Event ℕ)
schedule =
    receive 7
    ∷ insert_next
    ∷ insert_next
    ∷ upserted second_entity true
    ∷ receive 8
    ∷ take_skipped true
    ∷ upserted first_entity true
    ∷ []

abbrev final : Stage ℕ
final = record {
  state = [];
  message = set 0 7 (λ j. 0);
  pending = set 0 0 (set 0 1 (set 0 2 (λ j. 0)));
  next = 1;
  todo = [];
  inserting = [];
  written = first_entity ∷ second_entity ∷ [];
  skipping = none;
  received = 8 ∷ 7 ∷ [];
  out = 7 ∷ 8 ∷ [];
  reading = true;
  forwarding = true;
  failed = false;
}

final_reached : run convert schedule (new_stage 0) ≡ running final
unfolding run step new_stage
final_reached = refl

run-IsWritten_example :
    All (IsWritten convert final) final.out
    × ((q : ℕ → Bool) → count q final.out ≤ count q final.received)
run-IsWritten_example = run-IsWritten convert 0 schedule final final_reached

run-delivers_example : count (λ n. n == 7) final.out ≡ count (λ n. n == 7) final.received
run-delivers_example =
    run-delivers convert 0 schedule final final_reached refl refl refl refl (λ n. n == 7)

-- The context ends when a message without entities was received.
abbrev stuck : Stage ℕ
stuck = record final { received = 9 ∷ final.received; skipping = some 9; forwarding = false }

stuck_reached :
    run convert (schedule ++ receive 9 ∷ end_forwarder ∷ []) (new_stage 0) ≡ running stuck
unfolding run step new_stage
stuck_reached = refl

run-StaysStuck_example : StaysStuck 9 (run convert (end_forwarder ∷ end_forwarder ∷ []) stuck)
run-StaysStuck_example =
    run-StaysStuck convert 9 (end_forwarder ∷ end_forwarder ∷ []) stuck
      (record { reading = refl; skipping = refl; forwarding = refl })

run-no_panic_example : run convert schedule (new_stage 0) ≢ panicked
run-no_panic_example = run-no_panic convert 0 schedule
