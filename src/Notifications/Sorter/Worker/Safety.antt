-- ===== src/Notifications/Sorter/Worker/Safety.antt =====
-- No schedule of pipelines makes the worker panic.
use icingadb.Prelude.{ℕ, List, [], ◌∷◌, is_some, ◌≡◌, ◌⊎◌, refl, arith, inl, inr}
use icingadb.Notifications.Sorter.Heap.{HeapLib}
use icingadb.Notifications.Sorter.Worker.{
  Worker, Event, register_out, close_out, submission, due, callback_done, ctx_done, Outcome,
  running, stopped, panicked, init, start_due, on_ctx_done, handle, step, loop,
}
use icingadb.Notifications.Sorter.Worker.Outputs.{
  Phase, fresh, Allowed, next_phase, Inv, Safe, Final, init-Inv,
}
use icingadb.Notifications.Sorter.Worker.Events.{
  start_due-Inv, on_register-Safe, on_close-Safe, on_submission-Safe, on_callback_done-Safe,
  on_ctx_done-Final,
}

-- Every event of the schedule is one that its pipeline may send then.
abbrev pub AllAllowed : (ℕ → Phase) → List (ℕ × Event) → Type 0
AllAllowed phase [] = Unit
AllAllowed phase ((now, ctx_done) ∷ es) = Unit
AllAllowed phase ((now, e) ∷ es) = Allowed phase e × AllAllowed (next_phase phase e) es

-- Where the pipelines stand after the schedule, or when the worker stopped.
abbrev pub final_phase : (ℕ → Phase) → List (ℕ × Event) → ℕ → Phase
final_phase phase [] = phase
final_phase phase ((now, ctx_done) ∷ es) = phase
final_phase phase ((now, e) ∷ es) = final_phase (next_phase phase e) es

module _ (lib : HeapLib) (age : ℕ) where
  handle-Safe :
      (phase : ℕ → Phase) (w : Worker) (e : Event)
      → Inv lib phase w
      → Allowed phase e
      → (e ≡ ctx_done) ⊎ Safe lib (next_phase phase e) (handle lib age w e)
  unfolding handle
  handle-Safe phase w (register_out o) inv h = inr (on_register-Safe lib phase w o inv h)
  handle-Safe phase w (close_out o) inv h = inr (on_close-Safe lib phase w o inv h)
  handle-Safe phase w (submission sub) inv h = inr (on_submission-Safe lib phase w sub inv h)
  handle-Safe phase w due inv h = inr inv
  handle-Safe phase w callback_done inv h = inr (on_callback_done-Safe lib phase w inv)
  handle-Safe phase w ctx_done inv h = inl refl

  pub step_consistent :
      (w : Worker) (now : ℕ) (e : Event)
      → is_some w.running_submission ≡ w.running_callback
      → step lib age w now e ≡ handle lib age (start_due lib age w now) e
  unfolding step
  step_consistent w now e h = ground arith

  pub step-Safe :
      (phase : ℕ → Phase) (w : Worker) (now : ℕ) (e : Event)
      → Inv lib phase w
      → Allowed phase e
      → (e ≡ ctx_done) ⊎ Safe lib (next_phase phase e) (step lib age w now e)
  step-Safe phase w now e inv h =
      rw (step_consistent w now e inv.consistent)
        (handle-Safe phase (start_due lib age w now) e (start_due-Inv lib age phase w now inv) h)

  pub step_ctx_done :
      (w : Worker) (now : ℕ)
      → is_some w.running_submission ≡ w.running_callback
      → step lib age w now ctx_done ≡ stopped (on_ctx_done (start_due lib age w now))
  unfolding handle
  step_ctx_done w now h = step_consistent w now ctx_done h

  pub loop-stopped : (w : Worker) (es : List (ℕ × Event)) → loop lib age (stopped w) es ≡ stopped w
  unfolding loop
  loop-stopped w [] = refl
  loop-stopped w (x ∷ es) = refl

  -- The rest of the schedule, after an event that is not `ctx_done`.
  continues :
      (phase : ℕ → Phase) (o : Outcome) (es : List (ℕ × Event))
      → ((w : Worker)
          → Inv lib phase w
          → Final lib (final_phase phase es) (loop lib age (running w) es))
      → Safe lib phase o
      → Final lib (final_phase phase es) (loop lib age o es)
  continues phase (running w) es rest h = rest w h
  continues phase (stopped w) es rest h = absurd h
  continues phase panicked es rest h = absurd h

  loop-Final :
      (phase : ℕ → Phase) (w : Worker) (es : List (ℕ × Event))
      → Inv lib phase w
      → AllAllowed phase es
      → Final lib (final_phase phase es) (loop lib age (running w) es)
  unfolding loop
  loop-Final phase w [] inv h = inv
  loop-Final phase w ((now, ctx_done) ∷ es) inv h = rw (step_ctx_done w now inv.consistent) (
      rw (loop-stopped (on_ctx_done (start_due lib age w now)) es) (
        on_ctx_done-Final lib phase (start_due lib age w now)
          (start_due-Inv lib age phase w now inv)))
  loop-Final phase w ((now, e) ∷ es) inv h = elim (step-Safe phase w now e inv h.0) [
    | inl stop ↦ cc
    | inr safe ↦
        continues (next_phase phase e) (step lib age w now e) es
          (λ w' inv'. loop-Final (next_phase phase e) w' es inv' h.1) safe
  ]

  -- From its start, and whatever the timing, the worker never panics while each pipeline registers
  -- its output once, submits only to its own registered output, and signals its end once. As long
  -- as the worker runs, each output's counter is the number of its submissions that the worker
  -- holds, and an output is closed exactly when its pipeline has left and none is held; a worker
  -- that stops has closed every output that was registered.
  pub loop-never_panics :
      (es : List (ℕ × Event))
      → AllAllowed (λ o. fresh) es
      → Final lib (final_phase (λ o. fresh) es) (loop lib age (running init) es)
  loop-never_panics es h = loop-Final (λ o. fresh) init es (init-Inv lib) h
