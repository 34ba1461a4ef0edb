-- ===== src/Notifications/Sorter/Worker/Events.antt =====
-- Each event keeps the outputs in order.
use icingadb.Prelude.{
  ℕ, ◌+◌, ◌<◌, Bool, true, false, Option, some, is_some, ◌≡◌, ◌⊎◌, refl, arith, if◌then◌else◌, ◌==◌,
  ap, inl, inr, ltb, ◌||◌, Bool-cases, subst, sym, by_==, ==_refl, Option-cases,
}
use icingadb.Notifications.Sorter.Submission.{Submission}
use icingadb.Notifications.Sorter.Heap.{HeapLib, count_out, count_out-perm}
use icingadb.Notifications.Sorter.Worker.{
  Worker, OutputState, stopped, update, start_due, on_register, on_close, on_submission, forward,
  on_callback_done, on_ctx_done,
}
use icingadb.Notifications.Sorter.Worker.Outputs.{
  Phase, fresh, active, left, running_out, held, OutputOk, Inv, Safe, Final,
}
use icingadb.Notifications.Sorter.Worker.Start.{start_due-Starts, callback_idle, callback_forwards}

module _ (lib : HeapLib) where
  pub start_due-Inv :
      (age : ℕ) (phase : ℕ → Phase) (w : Worker) (now : ℕ)
      → Inv lib phase w
      → Inv lib phase (start_due lib age w now)
  start_due-Inv age phase w now inv = elim (start_due-Starts lib age w now) [
    | inl same ↦ subst (Inv lib phase) (sym same) inv
    | inr (next, rest, e, idle, old, taken) ↦ subst (Inv lib phase) (sym taken) (record {
      consistent = refl;
      heap_ok = lib.pop_heap next rest (subst lib.IsHeap e inv.heap_ok);
      outputs = λ o.
          subst (OutputOk (phase o) (w.registered_outputs o) (w.closed o))
            (ground (
              arith,
              inv.consistent,
              ap (count_out o) e,
              count_out-perm o (lib.pop_perm next rest),
            ))
            (inv.outputs o);
    })
  ]

  -- An output that an event does not touch stays in order.
  held-OutputOk :
      (phase : ℕ → Phase) (w : Worker)
      → Inv lib phase w
      → (p : ℕ) → (n : ℕ) → held w p ≡ n
      → OutputOk (phase p) (w.registered_outputs p) (w.closed p) n
  held-OutputOk phase w inv p n e =
      subst (OutputOk (phase p) (w.registered_outputs p) (w.closed p)) e (inv.outputs p)

  pub on_register-Safe :
      (phase : ℕ → Phase) (w : Worker) (o : ℕ)
      → Inv lib phase w
      → phase o ≡ fresh
      → Safe lib (update o active phase) (on_register w o)
  unfolding on_register
  on_register-Safe phase w o inv h =
      let ok : OutputOk fresh (w.registered_outputs o) (w.closed o) (held w o) =
        subst (λ p. OutputOk p (w.registered_outputs o) (w.closed o) (held w o)) h
          (inv.outputs o) in
      rw (ok.0, on_register)
        (record {
          consistent = inv.consistent;
          heap_ok = inv.heap_ok;
          outputs = by_== _ o (rw (==_refl o) (ground arith, ok.1)) (λ p e. rw e (inv.outputs p));
        })

  pub on_close-Safe :
      (phase : ℕ → Phase) (w : Worker) (o : ℕ)
      → Inv lib phase w
      → phase o ≡ active
      → Safe lib (update o left phase) (on_close w o)
  unfolding on_close
  on_close-Safe phase w o inv h =
      let ok : OutputOk active (w.registered_outputs o) (w.closed o) (held w o) =
        subst (λ p. OutputOk p (w.registered_outputs o) (w.closed o) (held w o)) h
          (inv.outputs o) in
      rw (ok.0, on_close)
        (elim (Bool-cases (ltb 0 (held w o))) [
          | inl more ↦ rw more (record {
            consistent = inv.consistent;
            heap_ok = inv.heap_ok;
            outputs =
                by_== _ o (rw (==_refl o) (inl (refl, ok.1, ground arith)))
                  (λ p e. rw e (inv.outputs p));
          })
          | inr last ↦ rw last (record {
            consistent = inv.consistent;
            heap_ok = inv.heap_ok;
            outputs =
                by_== _ o (rw (==_refl o) (inr (refl, refl, ground arith)))
                  (λ p e. rw e (inv.outputs p));
          })
        ])

  pub on_submission-Safe :
      (phase : ℕ → Phase) (w : Worker) (sub : Submission)
      → Inv lib phase w
      → phase sub.out ≡ active
      → Safe lib phase (on_submission lib w sub)
  unfolding on_submission
  on_submission-Safe phase w sub inv h =
      let o = sub.out in
      let ok : OutputOk active (w.registered_outputs o) (w.closed o) (held w o) =
        subst (λ p. OutputOk p (w.registered_outputs o) (w.closed o) (held w o)) h
          (inv.outputs o) in
      let counts : (p : ℕ)
          → count_out p (lib.push sub w.submission_heap)
            ≡ (if o == p then 1 else 0) + count_out p w.submission_heap =
        λ p. count_out-perm p (lib.push_perm sub w.submission_heap) in
      let moved = held-OutputOk phase w inv in
      rw (ok.0, on_submission)
        (record {
          consistent = inv.consistent;
          heap_ok = lib.push_heap sub w.submission_heap inv.heap_ok;
          outputs =
              by_== _ o (rw (h, ==_refl o) (ground (arith, counts o, ==_refl o), ok.1))
                (λ p e. rw (e, counts p) (rw e (moved p _ (omega arith))));
        })

  -- An output with a submission in the worker is open and registered.
  Held : Phase → Option OutputState → Bool → ℕ → Type 0
  Held p reg is_closed n =
      (is_closed ≡ false)
      × (((p ≡ active) × (reg ≡ some (record { pending = n; close = false })))
          ⊎ ((p ≡ left) × (reg ≡ some (record { pending = n; close = true }))))

  OutputOk-Held :
      (p : Phase) (reg : Option OutputState) (is_closed : Bool) (n : ℕ)
      → OutputOk p reg is_closed n
      → 0 < n
      → Held p reg is_closed n
  unfolding Held
  OutputOk-Held fresh reg c n ok h = absurd (omega (arith, ok.2))
  OutputOk-Held active reg c n ok h = (ok.1, inl (refl, ok.0))
  OutputOk-Held left reg c n ok h = ground arith

  forward-Safe :
      (phase : ℕ → Phase) (w : Worker) (sub : Submission)
      → Inv lib phase w
      → w.running_submission ≡ some sub
      → (w.closed sub.out ≡ false) × Safe lib phase (forward w sub)
  unfolding Held forward
  forward-Safe phase w sub inv r =
      let o = sub.out in
      let n = count_out o w.submission_heap in
      let held_o : held w o ≡ n + 1 = ground (arith, ap (running_out o) r, ==_refl o) in
      let off : (p : ℕ) → (o == p) ≡ false → held w p ≡ 0 + count_out p w.submission_heap =
        λ p e. ground (arith, ap (running_out p) r) in
      let h =
        OutputOk-Held (phase o) _ _ (n + 1) (held-OutputOk phase w inv o (n + 1) held_o)
          (omega arith) in
      let rest = λ (p : ℕ) (e : (o == p) ≡ false). held-OutputOk phase w inv p _ (off p e) in
      (
        h.0,
        elim (h.1) [
          | inl (a, reg) ↦
              rw (reg, forward)
                (record {
                  consistent = refl;
                  heap_ok = inv.heap_ok;
                  outputs =
                      by_== _ o (rw (a, ==_refl o) (ground arith, h.0)) (λ p e. rw e (rest p e));
                })
          | inr (a, reg) ↦ elim (Bool-cases ((n + 1) == 1)) [
            | inl last ↦
                rw (reg, forward)
                  (rw last (record {
                    consistent = refl;
                    heap_ok = inv.heap_ok;
                    outputs =
                        by_== _ o (rw (a, ==_refl o) (inr (refl, refl, ground arith)))
                          (λ p e. rw e (rest p e));
                  }))
            | inr more ↦
                rw (reg, forward)
                  (rw more (record {
                    consistent = refl;
                    heap_ok = inv.heap_ok;
                    outputs =
                        by_== _ o (rw (a, ==_refl o) (inl (ground arith, h.0, ground arith)))
                          (λ p e. rw e (rest p e));
                  }))
          ]
        ],
      )

  pub on_callback_done-Safe :
      (phase : ℕ → Phase) (w : Worker) → Inv lib phase w → Safe lib phase (on_callback_done w)
  on_callback_done-Safe phase w inv = elim (Bool-cases (w.running_callback)) [
    | inr idle ↦ subst (Safe lib phase) (sym (callback_idle w idle)) inv
    | inl busy ↦ elim (Option-cases (w.running_submission)) [
      | inl missing ↦ absurd (ground (arith, inv.consistent))
      | inr (sub, r) ↦
          let (is_open, safe) = forward-Safe phase w sub inv r in
          subst (Safe lib phase) (sym (callback_forwards w sub busy r is_open)) safe
    ]
  ]

  pub on_ctx_done-Final :
      (phase : ℕ → Phase) (w : Worker) → Inv lib phase w → Final lib phase (stopped (on_ctx_done w))
  unfolding on_ctx_done
  on_ctx_done-Final phase w inv o = closes (phase o) _ _ _ (inv.outputs o)
    where
      closes :
          (p : Phase) (r : Option OutputState) (c : Bool) (n : ℕ)
          → OutputOk p r c n
          → (p ≡ fresh) ⊎ ((c || is_some r) ≡ true)
      closes fresh r c n ok = inl refl
      closes active r c n ok = inr (ground arith)
      closes left r c n ok = inr (ground arith)
