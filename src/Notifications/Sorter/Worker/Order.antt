-- ===== src/Notifications/Sorter/Worker/Order.antt =====
-- The order in which submissions are forwarded once no more arrive.
use icingadb.Prelude.{
  ℕ, List, [], ◌∷◌, ◌++◌, Bool, false, Option, none, some, ◌≡◌, ◌⊎◌, ◌≢◌, refl, arith, ap, inl, inr,
  Bool-cases, Option-cases, subst, sym, ◌∙◌, All,
}
use mathlib.Core.List.Perm
use icingadb.Notifications.Sorter.Submission.{Submission, less}
use icingadb.Notifications.Sorter.Heap.{HeapLib, IsFirst, All-perm, All-IsProp}
use icingadb.Notifications.Sorter.Worker.{
  Worker, Event, register_out, close_out, submission, due, callback_done, ctx_done, Outcome,
  running, stopped, panicked, start_due, on_register, on_close, forward, on_callback_done,
  on_ctx_done, handle, step, loop,
}
use icingadb.Notifications.Sorter.Worker.Start.{
  start_due-Starts, callback_idle, callback_forwards, callback_closed, callback_missing,
}
use icingadb.Notifications.Sorter.Worker.Outputs.{Phase, next_phase, Inv, Safe}
use icingadb.Notifications.Sorter.Worker.Safety.{
  step_consistent, step_ctx_done, step-Safe, loop-stopped, AllAllowed,
}

-- `s` comes before none of the list.
abbrev pub IsAfter : Submission → List Submission → Type 0
IsAfter s l = All (λ t. less s t ≡ false) l

-- In the order of the stream IDs, the last one first.
abbrev pub Ordered : List Submission → Type 0
Ordered [] = Unit
Ordered (s ∷ l) = IsAfter s l × Ordered l

abbrev pub RunningAfter : Option Submission → List Submission → List Submission → Type 0
RunningAfter none done heap = Unit
RunningAfter (some r) done heap = IsAfter r done × IsFirst r heap

Bool-IsProp : (a b : Bool) → IsProp (a ≡ b)
Bool-IsProp a b = hlevel

-- What was forwarded on top of `old` is in order, and what is held comes after it.
pub record Drains (old : List Submission) (w : Worker) : Type 0 where
  pub done : List Submission
  pub sent : w.forwarded ≡ done ++ old
  pub in_order : Ordered done
  pub running_after : RunningAfter w.running_submission done w.submission_heap
  pub heap_after : All (λ h. IsAfter h done) w.submission_heap

abbrev pub NoSubmission : List (ℕ × Event) → Type 0
NoSubmission [] = Unit
NoSubmission ((now, submission s) ∷ es) = ⊥
NoSubmission ((now, e) ∷ es) = NoSubmission es

-- What an event other than a submission does to the submissions that the worker holds.
abbrev Moves : Worker → Worker → Type 0
Moves w w' =
    ((w'.submission_heap ≡ w.submission_heap)
      × (w'.running_submission ≡ w.running_submission)
      × (w'.forwarded ≡ w.forwarded))
    ⊎ ((r : Submission) × (w.running_submission ≡ some r)
        × ((w'.submission_heap ≡ w.submission_heap)
            × (w'.running_submission ≡ none)
            × (w'.forwarded ≡ r ∷ w.forwarded)))

forward-Moves :
    (w w' : Worker) (r : Submission)
    → w.running_submission ≡ some r
    → forward w r ≡ running w'
    → (w'.submission_heap ≡ w.submission_heap)
      × (w'.running_submission ≡ none)
      × (w'.forwarded ≡ r ∷ w.forwarded)
unfolding forward
forward-Moves w w' r e h = ground arith

callback-Moves : (w w' : Worker) → on_callback_done w ≡ running w' → Moves w w'
callback-Moves w w' h = elim (Bool-cases (w.running_callback)) [
  | inr idle ↦ inl (ground (arith, callback_idle w idle))
  | inl busy ↦ elim (Option-cases (w.running_submission)) [
    | inl missing ↦ cc (callback_missing w busy missing)
    | inr (r, e) ↦ elim (Bool-cases (w.closed r.out)) [
      | inl c ↦ cc (callback_closed w r busy e c)
      | inr c ↦ inr (r, e, forward-Moves w w' r e (sym (callback_forwards w r busy e c) ∙ h))
    ]
  ]
]

module _ (lib : HeapLib) (age : ℕ) where
  handle-Moves :
      (w w' : Worker) (e : Event)
      → ((s : Submission) → e ≢ submission s)
      → handle lib age w e ≡ running w'
      → Moves w w'
  unfolding handle on_register on_close on_callback_done forward
  handle-Moves w w' (register_out o) n h = ground arith
  handle-Moves w w' (close_out o) n h = ground arith
  handle-Moves w w' (submission s) n h = absurd (n s refl)
  handle-Moves w w' due n h = ground arith
  handle-Moves w w' callback_done n h = callback-Moves w w' h
  handle-Moves w w' ctx_done n h = cc

  start_due-Drains :
      (old : List Submission) (w : Worker) (now : ℕ)
      → lib.IsHeap w.submission_heap
      → Drains old w
      → Drains old (start_due lib age w now)
  start_due-Drains old w now heap d = elim (start_due-Starts lib age w now) [
    | inl same ↦ subst (Drains old) (sym same) d
    | inr (next, rest, e, idle, due_, taken) ↦
        let after = subst (All (λ h. IsAfter h d.done)) e d.heap_after in
        let rest_perm = Perm.symm (lib.pop_perm next rest) in
        subst (Drains old) (sym taken) (record {
          done = d.done;
          sent = d.sent;
          in_order = d.in_order;
          running_after = (
            after.0,
            All-perm (λ t. less t next ≡ false) (λ t. Bool-IsProp _ _) rest_perm
                (lib.root_first next rest (subst lib.IsHeap e heap)),
          );
          heap_after =
              All-perm (λ h. IsAfter h d.done) (λ h. All-IsProp _ (λ t. Bool-IsProp _ _) d.done)
                rest_perm after.1;
        })
  ]

  IsAfter-cons :
      (r : Submission) (done heap : List Submission)
      → IsFirst r heap
      → All (λ h. IsAfter h done) heap
      → All (λ h. IsAfter h (r ∷ done)) heap
  IsAfter-cons r done [] f a = tt
  IsAfter-cons r done (h ∷ heap) f a = ((f.0, a.0), IsAfter-cons r done heap f.1 a.1)

  Moves-Drains : (old : List Submission) (w w' : Worker) → Moves w w' → Drains old w → Drains old w'
  Moves-Drains old w w' (inl (heap, run, sent)) d = record {
    done = d.done;
    sent = sent ∙ d.sent;
    in_order = d.in_order;
    running_after =
        subst (λ x. RunningAfter x d.done w'.submission_heap) (sym run)
          (subst (RunningAfter w.running_submission d.done) (sym heap) d.running_after);
    heap_after = subst (All (λ h. IsAfter h d.done)) (sym heap) d.heap_after;
  }
  Moves-Drains old w w' (inr (r, e, (heap, run, sent))) d =
      let after : RunningAfter (some r) d.done w.submission_heap =
        subst (λ x. RunningAfter x d.done w.submission_heap) e d.running_after in
      record {
        done = r ∷ d.done;
        sent = sent ∙ ap (◌∷◌ r) d.sent;
        in_order = (after.0, d.in_order);
        running_after = subst (λ x. RunningAfter x (r ∷ d.done) w'.submission_heap) (sym run) tt;
        heap_after =
            subst (All (λ h. IsAfter h (r ∷ d.done))) (sym heap)
              (IsAfter-cons r d.done w.submission_heap after.1 d.heap_after);
      }

  -- Where a run stands that has not panicked.
  abbrev pub FinalDrains : List Submission → Outcome → Type 0
  FinalDrains old (running w) = Drains old w
  FinalDrains old (stopped w) = Drains old w
  FinalDrains old panicked = ⊥

  continues :
      (old : List Submission) (phase : ℕ → Phase) (w : Worker) (now : ℕ) (e : Event) (o : Outcome)
      (es : List (ℕ × Event))
      → ((w' : Worker)
          → Inv lib phase w'
          → Drains old w'
          → FinalDrains old (loop lib age (running w') es))
      → ((s : Submission) → e ≢ submission s)
      → step lib age w now e ≡ o
      → step lib age w now e ≡ handle lib age (start_due lib age w now) e
      → Drains old (start_due lib age w now)
      → Safe lib phase o
      → FinalDrains old (loop lib age o es)
  continues old phase w now e (running w') es rest n eq via d safe =
      rest w' safe
        (Moves-Drains old _ w' (handle-Moves (start_due lib age w now) w' e n (sym via ∙ eq)) d)
  continues old phase w now e (stopped w') es rest n eq via d safe = absurd safe
  continues old phase w now e panicked es rest n eq via d safe = absurd safe

  loop-Drains :
      (old : List Submission) (phase : ℕ → Phase) (w : Worker) (es : List (ℕ × Event))
      → Inv lib phase w
      → AllAllowed phase es
      → NoSubmission es
      → Drains old w
      → FinalDrains old (loop lib age (running w) es)
  unfolding loop on_ctx_done
  loop-Drains old phase w [] inv h n d = d
  loop-Drains old phase w ((now, submission s) ∷ es) inv h n d = absurd n
  loop-Drains old phase w ((now, ctx_done) ∷ es) inv h n d =
      let d' = start_due-Drains old w now inv.heap_ok d in
      rw (step_ctx_done lib age w now inv.consistent) (
        rw (loop-stopped lib age (on_ctx_done (start_due lib age w now)) es) (record {
          done = d'.done;
          sent = d'.sent;
          in_order = d'.in_order;
          running_after = d'.running_after;
          heap_after = d'.heap_after;
        }))
  loop-Drains old phase w ((now, e) ∷ es) inv h n d =
      elim (step-Safe lib age phase w now e inv h.0) [
        | inl stop ↦ cc
        | inr safe ↦
            continues old (next_phase phase e) w now e (step lib age w now e) es
              (λ w' inv' d'. loop-Drains old (next_phase phase e) w' es inv' h.1 n d') (λ s x. cc)
              refl (step_consistent lib age w now e inv.consistent)
              (start_due-Drains old w now inv.heap_ok d) safe
      ]

  -- From a state between two callbacks, and as long as no more submissions arrive, the worker
  -- forwards in the order of `Less`: among the messages forwarded from then on none is less than
  -- one before it, and none that the worker still holds is less than one of them.
  pub loop-forwards_in_order :
      (phase : ℕ → Phase) (w : Worker) (es : List (ℕ × Event))
      → Inv lib phase w
      → w.running_submission ≡ none
      → AllAllowed phase es
      → NoSubmission es
      → FinalDrains w.forwarded (loop lib age (running w) es)
  loop-forwards_in_order phase w es inv idle h n =
      loop-Drains w.forwarded phase w es inv h n (record {
        done = [];
        sent = refl;
        in_order = tt;
        running_after = subst (λ r. RunningAfter r [] w.submission_heap) (sym idle) tt;
        heap_after = All-const w.submission_heap;
      })
    where
      All-const : (l : List Submission) → All (λ h. IsAfter h []) l
      All-const [] = tt
      All-const (s ∷ l) = (tt, All-const l)
