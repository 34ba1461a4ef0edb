-- ===== src/Heartbeat.antt =====
-- The heartbeat of Icinga 2: the state loop and `sendEvent` in pkg/icingaredis/heartbeat.go.
--
-- A schedule is the list of what the loop's `select` receives and of when the channel of events, which
-- has room for one, is read. `sent` keeps what was sent, the latest first. Reading the Redis stream is
-- the environment's, and an environment ID or a time that cannot be read is `none`.
pub mod Liveness
mod Tests
use icingadb.Prelude.{
  ℕ, String, List, [], ◌∷◌, Bool, true, false, Option, none, some, if◌then◌else◌,
}

pub record Message : Type 0 where
  pub received : ℕ
  pub environment : Option String
  pub time : Option ℕ

-- `Heartbeat`: a loss is sent as a nil pointer, which is `none`.
pub record Heartbeat : Type 0 where
  pub active : Bool
  pub events : Option (Option Message)
  pub last_received : ℕ
  pub last_message : ℕ
  pub sent : List (Option Message)

pub data Signal : Type 0 where
  arrives : Message → Signal
  times_out : Signal
  is_read : Signal

-- `failed` is the end of the loop with an error.
pub data Beating : Type 0 where
  beating : Heartbeat → Beating
  failed : Heartbeat → Beating

pub new_heartbeat : Heartbeat
new_heartbeat = record {
  active = false;
  events = none;
  last_received = 0;
  last_message = 0;
  sent = [];
}

-- An event that was not read yet is replaced.
abbrev pub send_event : Option Message → Heartbeat → Heartbeat
send_event m h = record h { events = some m; sent = m ∷ h.sent }

abbrev time_or_zero : Option ℕ → ℕ
time_or_zero none = 0
time_or_zero (some t) = t

abbrev pub on_beat : Message → Heartbeat → Heartbeat
on_beat m h =
    send_event (some m)
      (record h { active = true; last_received = m.received; last_message = time_or_zero m.time })

abbrev pub on_first : Message → Option String → Heartbeat → Beating
on_first m none h = failed h
on_first m (some env) h = beating (on_beat m h)

abbrev pub on_timeout : Bool → Heartbeat → Heartbeat
on_timeout true h = record h {
  active = false;
  events = some none;
  sent = none ∷ h.sent;
  last_received = 0;
  last_message = 0;
}
on_timeout false h = record h { last_received = 0; last_message = 0 }

unfoldable pub beat : Signal → Heartbeat → Beating
beat (arrives m) h = if h.active then beating (on_beat m h) else on_first m m.environment h
beat times_out h = beating (on_timeout h.active h)
beat is_read h = beating (record h { events = none })

unfoldable pub state_loop : List Signal → Heartbeat → Beating
unfolding beat
state_loop [] h = beating h
state_loop (s ∷ ss) h = elim (beat s h) [ beating h' ↦ state_loop ss h' | failed h' ↦ failed h' ]
