-- ===== src/Notifications/Sorter/Worker/Ledger.antt =====
-- Every submission is forwarded once, or still held by the worker.
use icingadb.Prelude.{
  ℕ, ◌+◌, List, [], ◌∷◌, Option, none, some, ◌≡◌, refl, arith, ap, inl, inr, ◌&&◌, ◌==◌, ltb,
  Bool-cases, Option-cases, subst, sym, ◌∙◌, is_some,
}
use icingadb.Notifications.Sorter.Submission.{Submission}
use icingadb.Notifications.Sorter.Heap.{HeapLib, total, total-perm}
use icingadb.Notifications.Sorter.Worker.{
  Worker, Event, register_out, close_out, submission, due, callback_done, ctx_done, Outcome,
  running, stopped, panicked, init, start_due, on_register, on_close, on_submission, forward,
  on_callback_done, on_ctx_done, handle, step, loop,
}
use icingadb.Notifications.Sorter.Worker.Start.{
  start_due-Starts, callback_idle, callback_forwards, callback_closed, callback_missing,
}
use icingadb.Notifications.Sorter.Worker.Safety.{
  step_consistent, step_ctx_done, step-Safe, loop-stopped, AllAllowed,
}
use icingadb.Notifications.Sorter.Worker.Outputs.{Phase, fresh, next_phase, Inv, Safe, init-Inv}

abbrev weight_running : (Submission → ℕ) → Option Submission → ℕ
weight_running f none = 0
weight_running f (some s) = f s

-- The weight of all that the worker has taken: forwarded, given to the callback, or in the heap.
abbrev pub ledger : (Submission → ℕ) → Worker → ℕ
ledger f w = total f w.forwarded + weight_running f w.running_submission + total f w.submission_heap

-- The weight of what was submitted to the worker before it stopped.
abbrev pub weight_event : (Submission → ℕ) → Event → ℕ
weight_event f (submission s) = f s
weight_event f _ = 0

abbrev pub submitted : (Submission → ℕ) → List (ℕ × Event) → ℕ
submitted f [] = 0
submitted f ((now, ctx_done) ∷ es) = 0
submitted f ((now, e) ∷ es) = weight_event f e + submitted f es

-- The ledger of a worker that goes on.
abbrev Balanced : (Submission → ℕ) → ℕ → Outcome → Type 0
Balanced f n (running w) = ledger f w ≡ n
Balanced f n (stopped w) = Unit
Balanced f n panicked = Unit

-- The ledger of a run: it has not panicked.
abbrev pub FinalLedger : (Submission → ℕ) → ℕ → Outcome → Type 0
FinalLedger f n (running w) = ledger f w ≡ n
FinalLedger f n (stopped w) = ledger f w ≡ n
FinalLedger f n panicked = ⊥

module _ (lib : HeapLib) (age : ℕ) (f : Submission → ℕ) where
  start_due-ledger :
      (w : Worker) (now : ℕ)
      → is_some w.running_submission ≡ w.running_callback
      → ledger f (start_due lib age w now) ≡ ledger f w
  start_due-ledger w now h = elim (start_due-Starts lib age w now) [
    | inl same ↦ ap (ledger f) same
    | inr (next, rest, e, idle, old, taken) ↦
        ap (ledger f) taken
        ∙ ground (arith, total-perm f (lib.pop_perm next rest), ap (total f) e, idle, h)
  ]

  forward-Balanced :
      (w : Worker) (sub : Submission)
      → w.running_submission ≡ some sub
      → Balanced f (ledger f w) (forward w sub)
  unfolding forward
  forward-Balanced w sub r = elim (Option-cases (w.registered_outputs sub.out)) [
    | inl e ↦ rw (e, forward) tt
    | inr (st, e) ↦ elim (Bool-cases (st.close && st.pending == 1)) [
      | inl last ↦ rw (e, forward) (rw last (omega (arith, ap (weight_running f) r)))
      | inr more ↦ rw (e, forward) (rw more (omega (arith, ap (weight_running f) r)))
    ]
  ]

  callback-Balanced : (w : Worker) → Balanced f (ledger f w) (on_callback_done w)
  callback-Balanced w = elim (Bool-cases (w.running_callback)) [
    | inr idle ↦ subst (Balanced f (ledger f w)) (sym (callback_idle w idle)) refl
    | inl busy ↦ elim (Option-cases (w.running_submission)) [
      | inl missing ↦ subst (Balanced f (ledger f w)) (sym (callback_missing w busy missing)) tt
      | inr (sub, r) ↦ elim (Bool-cases (w.closed sub.out)) [
        | inl c ↦ subst (Balanced f (ledger f w)) (sym (callback_closed w sub busy r c)) tt
        | inr c ↦
            subst (Balanced f (ledger f w)) (sym (callback_forwards w sub busy r c))
              (forward-Balanced w sub r)
      ]
    ]
  ]

  handle-Balanced :
      (w : Worker) (e : Event) → Balanced f (weight_event f e + ledger f w) (handle lib age w e)
  unfolding handle on_register on_close on_submission on_ctx_done
  handle-Balanced w (register_out o) = elim (Option-cases (w.registered_outputs o)) [
    | inl e ↦ rw (e, on_register) (omega arith)
    | inr (st, e) ↦ rw (e, on_register) tt
  ]
  handle-Balanced w (close_out o) = elim (Option-cases (w.registered_outputs o)) [
    | inl e ↦ rw (e, on_close) tt
    | inr (st, e) ↦ elim (Bool-cases (ltb 0 st.pending)) [
      | inl more ↦ rw (e, on_close) (rw more (omega arith))
      | inr last ↦ rw (e, on_close) (rw last (omega arith))
    ]
  ]
  handle-Balanced w (submission sub) = elim (Option-cases (w.registered_outputs sub.out)) [
    | inl e ↦ rw (e, on_submission) tt
    | inr (st, e) ↦
        rw (e, on_submission) (omega (arith, total-perm f (lib.push_perm sub w.submission_heap)))
  ]
  handle-Balanced w due = omega arith
  handle-Balanced w callback_done =
      subst (λ n. Balanced f n (on_callback_done w)) (omega arith) (callback-Balanced w)
  handle-Balanced w ctx_done = tt

  step-Balanced :
      (phase : ℕ → Phase) (w : Worker) (now : ℕ) (e : Event)
      → Inv lib phase w
      → Balanced f (weight_event f e + ledger f w) (step lib age w now e)
  step-Balanced phase w now e inv = rw (step_consistent lib age w now e inv.consistent) (
      subst (λ n. Balanced f (weight_event f e + n) (handle lib age (start_due lib age w now) e))
        (start_due-ledger w now inv.consistent) (handle-Balanced (start_due lib age w now) e))

  continues :
      (phase : ℕ → Phase) (o : Outcome) (es : List (ℕ × Event)) (n m : ℕ)
      → ((w : Worker)
          → Inv lib phase w
          → FinalLedger f (ledger f w + submitted f es) (loop lib age (running w) es))
      → n + submitted f es ≡ m
      → Safe lib phase o
      → Balanced f n o
      → FinalLedger f m (loop lib age o es)
  continues phase (running w) es n m rest e h b =
      subst (λ k. FinalLedger f k (loop lib age (running w) es)) (omega arith) (rest w h)
  continues phase (stopped w) es n m rest e h b = absurd h
  continues phase panicked es n m rest e h b = absurd h

  loop-FinalLedger :
      (phase : ℕ → Phase) (w : Worker) (es : List (ℕ × Event))
      → Inv lib phase w
      → AllAllowed phase es
      → FinalLedger f (ledger f w + submitted f es) (loop lib age (running w) es)
  unfolding loop on_ctx_done
  loop-FinalLedger phase w [] inv h = omega arith
  loop-FinalLedger phase w ((now, ctx_done) ∷ es) inv h =
      rw (step_ctx_done lib age w now inv.consistent) (
        rw (loop-stopped lib age (on_ctx_done (start_due lib age w now)) es)
          (omega (arith, start_due-ledger w now inv.consistent)))
  loop-FinalLedger phase w ((now, e) ∷ es) inv h = elim (step-Safe lib age phase w now e inv h.0) [
    | inl stop ↦ cc
    | inr safe ↦
        continues (next_phase phase e) (step lib age w now e) es _ _
          (λ w' inv'. loop-FinalLedger (next_phase phase e) w' es inv' h.1) (omega arith) safe
          (step-Balanced phase w now e inv)
  ]

  -- For every weight of submissions, and so for the multiset of them: what was submitted before the
  -- worker stopped is what it forwarded, what it gave to the callback and what is in its heap. The
  -- pipelines are to send only what `PipelineFunc` may send.
  pub loop-conserves :
      (es : List (ℕ × Event))
      → AllAllowed (λ o. fresh) es
      → FinalLedger f (submitted f es) (loop lib age (running init) es)
  unfolding init
  loop-conserves es h =
      subst (λ n. FinalLedger f n (loop lib age (running init) es)) (omega arith)
        (loop-FinalLedger (λ o. fresh) init es (init-Inv lib) h)
