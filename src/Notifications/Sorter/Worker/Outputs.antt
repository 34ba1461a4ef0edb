-- ===== src/Notifications/Sorter/Worker/Outputs.antt =====
-- The worker together with the pipelines that use it: what each output channel goes through.
use icingadb.Prelude.{
  ℕ, ◌+◌, ◌<◌, Bool, true, false, Option, none, some, is_some, ◌≡◌, ◌⊎◌, refl, if◌then◌else◌, ◌==◌,
}
use icingadb.Notifications.Sorter.Submission.{Submission}
use icingadb.Notifications.Sorter.Heap.{HeapLib, count_out}
use icingadb.Notifications.Sorter.Worker.{
  Worker, OutputState, Event, register_out, close_out, submission, Outcome, running, stopped,
  panicked, init, update,
}

-- Where `PipelineFunc` stands for its output: before the worker took `registerOutCh <- out`, in its
-- loop, or after its deferred `closeOutCh <- out`.
pub data Phase : Type 0 where
  fresh active left : Phase

-- What the pipelines may send: each registers its output once, submits only after that, and signals
-- the end once, as its last message.
abbrev pub Allowed : (ℕ → Phase) → Event → Type 0
Allowed phase (register_out o) = phase o ≡ fresh
Allowed phase (close_out o) = phase o ≡ active
Allowed phase (submission sub) = phase sub.out ≡ active
Allowed phase _ = Unit

abbrev pub next_phase : (ℕ → Phase) → Event → ℕ → Phase
next_phase phase (register_out o) = update o active phase
next_phase phase (close_out o) = update o left phase
next_phase phase _ = phase

abbrev pub running_out : ℕ → Option Submission → ℕ
running_out o none = 0
running_out o (some s) = if s.out == o then 1 else 0

-- The submissions for the output that the worker still holds.
abbrev pub held : Worker → ℕ → ℕ
held w o = running_out o w.running_submission + count_out o w.submission_heap

abbrev pub OutputOk : Phase → Option OutputState → Bool → ℕ → Type 0
OutputOk fresh reg is_closed n = (reg ≡ none) × (is_closed ≡ false) × (n ≡ 0)
OutputOk active reg is_closed n =
    (reg ≡ some (record { pending = n; close = false })) × (is_closed ≡ false)
OutputOk left reg is_closed n =
    ((reg ≡ some (record { pending = n; close = true })) × (is_closed ≡ false) × (0 < n))
    ⊎ ((reg ≡ none) × (is_closed ≡ true) × (n ≡ 0))

module _ (lib : HeapLib) where
  -- An output's counter is the number of its submissions that the worker holds, and the output is
  -- closed exactly when its pipeline has left and none is held.
  pub record Inv (phase : ℕ → Phase) (w : Worker) : Type 0 where
    pub consistent : is_some w.running_submission ≡ w.running_callback
    pub heap_ok : lib.IsHeap w.submission_heap
    pub outputs : (o : ℕ) → OutputOk (phase o) (w.registered_outputs o) (w.closed o) (held w o)

  -- The worker goes on, and the invariant holds.
  abbrev pub Safe : (ℕ → Phase) → Outcome → Type 0
  Safe phase (running w) = Inv phase w
  Safe phase (stopped w) = ⊥
  Safe phase panicked = ⊥

  -- Where a run may stand: in its loop, or stopped, when every output that was ever registered is
  -- closed.
  abbrev pub Final : (ℕ → Phase) → Outcome → Type 0
  Final phase (running w) = Inv phase w
  Final phase (stopped w) = (o : ℕ) → (phase o ≡ fresh) ⊎ (w.closed o ≡ true)
  Final phase panicked = ⊥

  pub init-Inv : Inv (λ o. fresh) init
  unfolding init
  init-Inv = record {
    consistent = refl;
    heap_ok = lib.empty_heap;
    outputs = λ o. (refl, refl, refl);
  }
