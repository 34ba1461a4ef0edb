-- ===== src/Notifications/Sorter/Worker.antt =====
-- The background worker of the stream sorter: pkg/notifications/sorter.go, `worker` and
-- `PipelineFunc`.
--
-- A step is one round of the worker's loop: the code before the `select` at the time `now`, then the
-- case that the `select` takes. Which case that is, and when, is up to the environment.
pub mod Outputs
pub mod Start
pub mod Events
pub mod Safety
pub mod Ledger
pub mod Order
mod Tests
use icingadb.Prelude.{
  ℕ, ◌+◌, ◌-◌, List, [], ◌∷◌, Bool, true, false, not, ◌&&◌, ◌||◌, Option, none, some, is_some,
  if◌then◌else◌, ltb, leb, ◌==◌,
}
use icingadb.Notifications.Sorter.Submission.{Submission}
use icingadb.Notifications.Sorter.Heap.{HeapLib}

pub record OutputState : Type 0 where
  pub pending : ℕ
  pub close : Bool

-- The worker's variables, with what it does to the output channels: `forwarded` holds the submissions
-- whose `msg` it sent to their `out`, the last one first; `closed` says which channels it closed.
pub record Worker : Type 0 where
  pub submission_heap : List Submission
  pub registered_outputs : ℕ → Option OutputState
  pub running_submission : Option Submission
  pub running_callback : Bool
  pub forwarded : List Submission
  pub closed : ℕ → Bool

-- What the `select` receives. `due` is `nextSubmissionDue`, `callback_done` is `runningCallbackCh`.
pub data Event : Type 0 where
  register_out : ℕ → Event
  close_out : ℕ → Event
  submission : Submission → Event
  due : Event
  callback_done : Event
  ctx_done : Event

pub data Outcome : Type 0 where
  running : Worker → Outcome
  stopped : Worker → Outcome
  panicked : Outcome

unfoldable pub init : Worker
init = record {
  submission_heap = [];
  registered_outputs = λ o. none;
  running_submission = none;
  running_callback = false;
  forwarded = [];
  closed = λ o. false;
}

-- `m[out] = v`, or `delete(m, out)` for `none`.
abbrev pub update {ℓ} : {V : Type ℓ} → ℕ → V → (ℕ → V) → ℕ → V
update o v m p = if o == p then v else m p

-- `close(out); delete(registeredOutputs, out)`
abbrev close_output : ℕ → Worker → Worker
close_output o w = record w {
  closed = update o true w.closed;
  registered_outputs = update o none w.registered_outputs;
}

unfoldable pub on_register : Worker → ℕ → Outcome
on_register w o = elim (w.registered_outputs o) [
  | some st ↦ panicked
  | none ↦ running (record w {
    registered_outputs =
        update o (some (record { pending = 0; close = false })) w.registered_outputs;
  })
]

unfoldable pub on_close : Worker → ℕ → Outcome
on_close w o = elim (w.registered_outputs o) [
  | none ↦ panicked
  | some st ↦ running (
      if ltb 0 st.pending
      then record w {
        registered_outputs = update o (some (record st { close = true })) w.registered_outputs;
      }
      else close_output o w)
]

module _ (lib : HeapLib) (submission_min_age : ℕ) where
  -- `Peek` is the root. `time.Since(t) >= age` is `t + age <= now`.
  start_next : Worker → ℕ → List Submission → Worker
  start_next w now [] = w
  start_next w now (next ∷ rest) =
      if leb (next.submit_time + submission_min_age) now
      then record w {
        running_callback = true;
        running_submission = some next;
        submission_heap = lib.pop (next ∷ rest);
      }
      else w

  -- The code between the head of the loop and the `select`.
  unfoldable pub start_due : Worker → ℕ → Worker
  unfolding start_next
  start_due w now = if w.running_callback then w else start_next w now w.submission_heap

module _ (lib : HeapLib) where
  unfoldable pub on_submission : Worker → Submission → Outcome
  on_submission w sub = elim (w.registered_outputs sub.out) [
    | none ↦ panicked
    | some st ↦ running (record w {
      registered_outputs =
          update sub.out (some (record st { pending = st.pending + 1 })) w.registered_outputs;
      submission_heap = lib.push sub w.submission_heap;
    })
  ]

-- `state.pending--` and what follows: `pending` is at least 1 in every run of the system, so that
-- the subtraction does not stop at 0.
finish_output : Worker → ℕ → OutputState → Worker
finish_output w o st = if st.close && st.pending == 1 then close_output o w else record w {
  registered_outputs =
      update o (some (record st { pending = st.pending - 1 })) w.registered_outputs;
}

unfoldable pub forward : Worker → Submission → Outcome
unfolding finish_output
forward w sub = elim (w.registered_outputs sub.out) [
  | none ↦ panicked
  | some st ↦
      let sent = record w { forwarded = sub ∷ w.forwarded } in
      running (record (finish_output sent sub.out st) {
        running_callback = false;
        running_submission = none;
      })
]

-- A send on a closed channel panics, and so does the use of a nil submission. A nil channel is
-- never ready.
unfoldable pub on_callback_done : Worker → Outcome
unfolding forward
on_callback_done w =
    if w.running_callback
    then elim (w.running_submission) [
      | none ↦ panicked
      | some sub ↦ if w.closed sub.out then panicked else forward w sub
    ]
    else running w

-- The deferred function closes what is still registered.
unfoldable pub on_ctx_done : Worker → Worker
on_ctx_done w = record w { closed = λ o. w.closed o || is_some (w.registered_outputs o) }

module _ (lib : HeapLib) (submission_min_age : ℕ) where
  unfoldable pub handle : Worker → Event → Outcome
  handle w (register_out o) = on_register w o
  handle w (close_out o) = on_close w o
  handle w (submission sub) = on_submission lib w sub
  handle w due = running w
  handle w callback_done = on_callback_done w
  handle w ctx_done = stopped (on_ctx_done w)

  -- `(runningSubmission == nil) != (runningCallbackCh == nil)` panics.
  unfoldable pub step : Worker → ℕ → Event → Outcome
  step w now e =
      if is_some w.running_submission
      then (if w.running_callback
          then handle (start_due lib submission_min_age w now) e
          else panicked)
      else (if w.running_callback
          then panicked
          else handle (start_due lib submission_min_age w now) e)

  -- The worker's loop over what its `select` receives; it ends when the worker stops.
  unfoldable pub loop : Outcome → List (ℕ × Event) → Outcome
  loop o [] = o
  loop (running w) ((now, e) ∷ es) = loop (step w now e) es
  loop o (x ∷ es) = o
