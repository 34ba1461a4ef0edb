-- ===== src/Notifications/Sorter/Worker/Start.antt =====
-- When the worker starts the callback.
use icingadb.Prelude.{
  ℕ, ◌+◌, List, [], ◌∷◌, true, false, none, some, ◌≡◌, ◌⊎◌, refl, arith, ap, inl, inr, ◌≤◌, leb,
  Bool-cases, subst, sym,
}
use icingadb.Notifications.Sorter.Submission.{Submission, less-IsStrictWeakOrder}
use icingadb.Notifications.Sorter.Heap.{IsFirst, HeapLib}
use icingadb.Notifications.Sorter.Worker.{
  Worker, running, panicked, start_next, start_due, forward, on_callback_done,
}

module _ (lib : HeapLib) where
  -- The state at the `select`: the loop's head left it alone, or it took the root of the heap,
  -- which is old enough, and no callback ran before.
  abbrev pub Starts : ℕ → Worker → ℕ → Worker → Type 0
  Starts age w now w' =
      (w' ≡ w)
      ⊎ ((next : Submission) × (rest : List Submission) × (w.submission_heap ≡ next ∷ rest)
          × (w.running_callback ≡ false)
          × (next.submit_time + age ≤ now)
          × (w' ≡ record w {
            running_callback = true;
            running_submission = some next;
            submission_heap = lib.pop (next ∷ rest);
          }))

  start_next-Starts :
      (age : ℕ) (w : Worker) (now : ℕ) (heap : List Submission)
      → w.submission_heap ≡ heap
      → w.running_callback ≡ false
      → Starts age w now (start_next lib age w now heap)
  unfolding start_next
  start_next-Starts age w now [] e r = inl refl
  start_next-Starts age w now (next ∷ rest) e r =
      elim (Bool-cases (leb (next.submit_time + age) now)) [
        | inl old ↦ inr (next, rest, e, r, ground arith, rw old)
        | inr young ↦ inl (rw young)
      ]

  pub start_due-Starts :
      (age : ℕ) (w : Worker) (now : ℕ) → Starts age w now (start_due lib age w now)
  unfolding start_due
  start_due-Starts age w now = elim (Bool-cases (w.running_callback)) [
    | inl busy ↦ inl (ground arith)
    | inr idle ↦
        subst (Starts age w now) (ground arith)
          (start_next-Starts age w now w.submission_heap refl idle)
  ]

  -- A submission that the loop's head hands to the callback, while none is running, was submitted at
  -- least `submissionMinAge` ago, and no submission in the heap comes before it by `Less`.
  pub start_due-IsFirst :
      (age : ℕ) (w : Worker) (now : ℕ) (s : Submission)
      → lib.IsHeap w.submission_heap
      → w.running_submission ≡ none
      → (start_due lib age w now).running_submission ≡ some s
      → (s.submit_time + age ≤ now) × IsFirst s w.submission_heap
  start_due-IsFirst age w now s heap idle h = elim (start_due-Starts age w now) [
    | inl same ↦ cc (ap (λ v. v.running_submission) same)
    | inr (next, rest, e, free, old, taken) ↦
        let is_next : next ≡ s = cc (ap (λ v. v.running_submission) taken) in
        subst (λ t. (t.submit_time + age ≤ now) × IsFirst t w.submission_heap) is_next
          (
            old,
            subst (IsFirst next) (sym e) (
              (less-IsStrictWeakOrder next next next).0,
              lib.root_first next rest (subst lib.IsHeap e heap),
            ),
          )
  ]

-- The cases of the callback's end.
pub callback_idle : (w : Worker) → w.running_callback ≡ false → on_callback_done w ≡ running w
unfolding on_callback_done
callback_idle w h = ground arith

pub callback_forwards :
    (w : Worker) (sub : Submission)
    → w.running_callback ≡ true
    → w.running_submission ≡ some sub
    → w.closed sub.out ≡ false
    → on_callback_done w ≡ forward w sub
unfolding on_callback_done
callback_forwards w sub busy r c = ground arith

pub callback_closed :
    (w : Worker) (sub : Submission)
    → w.running_callback ≡ true
    → w.running_submission ≡ some sub
    → w.closed sub.out ≡ true
    → on_callback_done w ≡ panicked
unfolding on_callback_done
callback_closed w sub busy r c = ground arith

pub callback_missing :
    (w : Worker)
    → w.running_callback ≡ true
    → w.running_submission ≡ none
    → on_callback_done w ≡ panicked
unfolding on_callback_done
callback_missing w busy r = ground arith
