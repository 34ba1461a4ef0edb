-- ===== src/Notifications/Sorter/Worker/Tests.antt =====
-- A heap that keeps its slice sorted, and schedules of two pipelines over it.
use mathlib.Core.List.{Perm}
use mathlib.Core.List.Perm
use icingadb.Prelude.{
  ℕ, ◌+◌, ◌≤◌, List, [], ◌∷◌, Bool, true, false, ◌≡◌, refl, inl, inr, map, if◌then◌else◌,
  Bool-cases,
}
use icingadb.Prelude.Int.{pos}
use icingadb.Notifications.Sorter.Submission.{Submission, less, less-IsStrictWeakOrder}
use icingadb.Notifications.Sorter.Heap.{HeapLib, IsFirst}
use icingadb.Notifications.Sorter.Worker.{
  Worker, Event, register_out, close_out, submission, due, callback_done, running, stopped,
  panicked, Outcome, init, loop, step, start_due, handle, on_register, on_close, on_submission,
  on_callback_done,
}
use icingadb.Notifications.Sorter.Worker.Start.{start_due-IsFirst}
use icingadb.Notifications.Sorter.Worker.Outputs.{Phase, fresh, Inv, Final}
use icingadb.Notifications.Sorter.Worker.Safety.{final_phase, loop-never_panics}
use icingadb.Notifications.Sorter.Worker.Ledger.{FinalLedger, loop-conserves}
use icingadb.Notifications.Sorter.Worker.Order.{FinalDrains, loop-forwards_in_order}

insert_sorted : Submission → List Submission → List Submission
insert_sorted s [] = s ∷ []
insert_sorted s (t ∷ l) = let rest = insert_sorted s l in if less s t then s ∷ t ∷ l else t ∷ rest

abbrev IsSorted : List Submission → Type 0
IsSorted [] = Unit
IsSorted (s ∷ l) = IsFirst s l × IsSorted l

insert_sorted-perm : (s : Submission) (l : List Submission) → Perm (insert_sorted s l) (s ∷ l)
unfolding insert_sorted
insert_sorted-perm s [] = Perm.rfl
insert_sorted-perm s (t ∷ l) = elim (Bool-cases (less s t)) [
  | inl e ↦ rw e Perm.rfl
  | inr e ↦ rw e (Perm.trans (Perm.cons t (insert_sorted-perm s l)) (Perm.swap s t l))
]

less_asymm : (s t : Submission) → less s t ≡ true → less t s ≡ false
less_asymm s t e = elim (Bool-cases (less t s)) [
  | inr n ↦ n
  | inl f ↦ let order = less-IsStrictWeakOrder s t s in cc (order.1 e f, order.0)
]

IsFirst-trans :
    (s t : Submission) (l : List Submission) → less s t ≡ true → IsFirst t l → IsFirst s l
IsFirst-trans s t [] e h = tt
IsFirst-trans s t (u ∷ l) e h = (not_first, IsFirst-trans s t l e h.1)
  where
    not_first : less u s ≡ false
    not_first = elim (Bool-cases (less u s)) [
      | inr n ↦ n
      | inl f ↦ cc ((less-IsStrictWeakOrder u s t).1 f e, h.0)
    ]

IsFirst-insert_sorted :
    (s t : Submission) (l : List Submission)
    → less s t ≡ false
    → IsFirst t l
    → IsFirst t (insert_sorted s l)
unfolding insert_sorted
IsFirst-insert_sorted s t [] e h = (e, tt)
IsFirst-insert_sorted s t (u ∷ l) e h = elim (Bool-cases (less s u)) [
  | inl f ↦ rw f (e, h)
  | inr f ↦ rw f (h.0, IsFirst-insert_sorted s t l e h.1)
]

insert_sorted-IsSorted :
    (s : Submission) (l : List Submission) → IsSorted l → IsSorted (insert_sorted s l)
unfolding insert_sorted
insert_sorted-IsSorted s [] h = (tt, tt)
insert_sorted-IsSorted s (t ∷ l) h = elim (Bool-cases (less s t)) [
  | inl e ↦ rw e ((less_asymm s t e, IsFirst-trans s t l e h.0), h)
  | inr e ↦ rw e (IsFirst-insert_sorted s t l e h.0, insert_sorted-IsSorted s l h.1)
]

abbrev tail : List Submission → List Submission
tail [] = []
tail (s ∷ l) = l

abbrev sorted_lib : HeapLib
sorted_lib = record {
  push = insert_sorted;
  pop = tail;
  IsHeap = IsSorted;
  empty_heap = tt;
  push_heap = insert_sorted-IsSorted;
  push_perm = insert_sorted-perm;
  pop_heap = λ s l h. h.1;
  pop_perm = λ s l. Perm.rfl;
  root_first = λ s l h. h.0;
}

abbrev message : ℕ → ℕ → ℕ → Submission
message out ms time = record {
  msg = record { id = ms ∷ []; values = [] };
  key = "downtime";
  out = out;
  stream_id_ms = pos ms;
  stream_id_seq = pos 0;
  submit_time = time;
}

-- Two pipelines, 7 and 8; the message of 8 arrives later and is older.
abbrev schedule : List (ℕ × Event)
schedule =
    (0, register_out 7)
    ∷ (0, register_out 8)
    ∷ (1, submission (message 7 20 1))
    ∷ (2, submission (message 8 10 2))
    ∷ (2, close_out 7)
    ∷ (5, due)
    ∷ (6, callback_done)
    ∷ (7, callback_done)
    ∷ []

abbrev forwarded_order : Submission → ℕ
forwarded_order s = s.submit_time

loop-never_panics_example :
    Final sorted_lib (final_phase (λ o. fresh) schedule) (loop sorted_lib 3 (running init) schedule)
loop-never_panics_example =
    loop-never_panics sorted_lib 3 schedule
      (refl, (refl, (refl, (refl, (refl, (tt, (tt, (tt, tt))))))))

loop-conserves_example : FinalLedger forwarded_order 3 (loop sorted_lib 3 (running init) schedule)
loop-conserves_example =
    loop-conserves sorted_lib 3 forwarded_order schedule
      (refl, (refl, (refl, (refl, (refl, (tt, (tt, (tt, tt))))))))

abbrev prefix : List (ℕ × Event)
prefix =
    (0, register_out 7)
    ∷ (0, register_out 8)
    ∷ (1, submission (message 7 20 1))
    ∷ (2, submission (message 8 10 2))
    ∷ []

abbrev after : Outcome → Worker
after (running w) = w
after (stopped w) = w
after panicked = init

abbrev is_running : Outcome → Bool
is_running (running w) = true
is_running _ = false

running-Inv :
    (phase : ℕ → Phase) (o : Outcome)
    → is_running o ≡ true
    → Final sorted_lib phase o
    → Inv sorted_lib phase (after o)
running-Inv phase (running w) e h = h
running-Inv phase (stopped w) e h = cc
running-Inv phase panicked e h = cc

-- Two messages wait, and no callback runs.
two_waiting : Worker
two_waiting = after (loop sorted_lib 3 (running init) prefix)

two_waiting-Inv : Inv sorted_lib (final_phase (λ o. fresh) prefix) two_waiting
unfolding two_waiting loop step init handle on_register start_due on_submission insert_sorted less
    on_close on_callback_done
two_waiting-Inv =
    running-Inv (final_phase (λ o. fresh) prefix) (loop sorted_lib 3 (running init) prefix) refl
      (loop-never_panics sorted_lib 3 prefix (refl, (refl, (refl, (refl, tt)))))

loop-forwards_in_order_example : FinalDrains sorted_lib 3 two_waiting.forwarded (
    loop sorted_lib 3
      (running two_waiting)
      ((6, callback_done) ∷ (7, callback_done) ∷ (8, callback_done) ∷ []))
unfolding two_waiting loop step init handle on_register start_due on_submission insert_sorted less
    on_close on_callback_done
loop-forwards_in_order_example =
    loop-forwards_in_order sorted_lib 3 (final_phase (λ o. fresh) prefix) two_waiting
      ((6, callback_done) ∷ (7, callback_done) ∷ (8, callback_done) ∷ []) two_waiting-Inv refl
      (tt, (tt, (tt, tt))) tt

start_due-IsFirst_example :
    ((message 8 10 2).submit_time + 3 ≤ 6) × IsFirst (message 8 10 2) two_waiting.submission_heap
unfolding two_waiting loop step init handle on_register start_due on_submission insert_sorted less
    on_close on_callback_done
start_due-IsFirst_example =
    start_due-IsFirst sorted_lib 3 two_waiting 6 (message 8 10 2) two_waiting-Inv.heap_ok refl refl

-- The older message of pipeline 8 goes first, though it arrived last.
forwarded_test :
    map (λ s. s.out) (after (loop sorted_lib 3 (running init) schedule)).forwarded ≡ 7 ∷ 8 ∷ []
unfolding loop step init handle on_register start_due on_submission insert_sorted less on_close
    on_callback_done
forwarded_test = refl
