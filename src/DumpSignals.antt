-- ===== src/DumpSignals.antt =====
-- The dump signals: pkg/icingadb/dump_signals.go.
--
-- An event is a message of the stream `icinga:dump` that `Listen` handles, a failed read, or a call of
-- `Done`: both sides hold the mutex, so that a list of events is any interleaving. Channels are
-- numbers in the order in which they are made. `lastStreamId` and the logging are left out.
pub mod Heard
pub mod Calls
pub mod Receipts
pub mod Channels
pub mod Listening
mod Tests
use icingadb.Prelude.{
  ℕ, ◌+◌, String, List, [], ◌∷◌, Bool, true, false, ◌&&◌, ◌||◌, Option, none, some, if◌then◌else◌,
  str_eq, ◌==◌, is_some,
}

-- `DumpSignals` and the local `anyDoneSent` of `Listen`: `closed` says which channels are closed, and
-- `in_progress` whether `inProgressCh` is. `handed` lists what `Done` returned, the last one first.
pub record DumpSignals : Type 0 where
  pub done_ch : List (String × ℕ)
  pub all_done_ch : Option ℕ
  pub in_progress : Bool
  pub any_done_sent : Bool
  pub closed : ℕ → Bool
  pub next_ch : ℕ
  pub handed : List (String × ℕ)

-- The values of a message: `none` is one that is not a string.
pub data Event : Type 0 where
  message : Option String → Option String → Event
  read_failed : Event
  call_done : String → Event

-- `ended` is the return of `Listen` with nil, `failed` the one with an error.
pub data Outcome : Type 0 where
  listening : DumpSignals → Outcome
  ended : DumpSignals → Outcome
  failed : DumpSignals → Outcome

unfoldable pub new_dump_signals : DumpSignals
new_dump_signals = record {
  done_ch = [];
  all_done_ch = none;
  in_progress = false;
  any_done_sent = false;
  closed = λ c. false;
  next_ch = 0;
  handed = [];
}

abbrev pub lookup : String → List (String × ℕ) → Option ℕ
lookup k [] = none
lookup k ((j, c) ∷ l) = if str_eq j k then some c else lookup k l

-- A channel that is closed is not closed again.
abbrev pub safe_close : ℕ → (ℕ → Bool) → ℕ → Bool
safe_close c closed d = if c == d then true else closed d

unfoldable pub close_each : List (String × ℕ) → (ℕ → Bool) → ℕ → Bool
close_each [] closed = closed
close_each ((k, c) ∷ l) closed = close_each l (safe_close c closed)

unfoldable pub on_all_done : DumpSignals → DumpSignals
on_all_done s = if is_some s.all_done_ch then s else record s {
  all_done_ch = some s.next_ch;
  next_ch = s.next_ch + 1;
  closed = close_each s.done_ch (safe_close s.next_ch s.closed);
}

unfoldable pub on_key_done : String → DumpSignals → DumpSignals
on_key_done key s = elim (lookup key s.done_ch) [
  | none ↦ s
  | some c ↦ record s { closed = safe_close c s.closed }
]

abbrev pub on_done : String → DumpSignals → DumpSignals
on_done key s = if str_eq key "*" then on_all_done s else on_key_done key s

unfoldable pub on_state : String → Bool → DumpSignals → Outcome
on_state key true s = listening (record (on_done key s) { any_done_sent = true })
on_state key false s =
    if s.any_done_sent then ended (record s { in_progress = true }) else listening s

-- One entry of the loop over the messages.
unfoldable pub on_message : Option String → Option String → DumpSignals → Outcome
unfolding on_state
on_message none state s = failed s
on_message (some key) none s = failed s
on_message (some key) (some state) s = on_state key (str_eq state "done") s

-- `Done`, with the channel that it returns on top of `handed`.
abbrev hand : String → ℕ → DumpSignals → DumpSignals
hand key c s = record s { handed = (key, c) ∷ s.handed }

unfoldable pub done : String → DumpSignals → DumpSignals
done key s = elim (s.all_done_ch) [
  | some c ↦ hand key c s
  | none ↦ elim (lookup key s.done_ch) [
    | some c ↦ hand key c s
    | none ↦
        hand key s.next_ch
          (record s { done_ch = (key, s.next_ch) ∷ s.done_ch; next_ch = s.next_ch + 1 })
  ]
]

-- What becomes of the signals by an event while `Listen` is running.
unfoldable pub step : DumpSignals → Event → Outcome
step s (message key state) = on_message key state s
step s read_failed = failed s
step s (call_done key) = listening (done key s)

-- When `Listen` has returned, only calls of `Done` go on.
abbrev pub after : DumpSignals → Event → DumpSignals
after s (call_done key) = done key s
after s _ = s

unfoldable pub listen : Outcome → List Event → Outcome
listen o [] = o
listen (listening s) (e ∷ es) = listen (step s e) es
listen (ended s) (e ∷ es) = listen (ended (after s e)) es
listen (failed s) (e ∷ es) = listen (failed (after s e)) es
