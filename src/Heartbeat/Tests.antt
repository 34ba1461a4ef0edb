-- ===== src/Heartbeat/Tests.antt =====
-- Two heartbeats, of which one is not read in time, and a loss.
use icingadb.Prelude.{ℕ, List, [], ◌∷◌, some}
use icingadb.Heartbeat.{Message, Signal, arrives, times_out, is_read, state_loop, new_heartbeat}
use icingadb.Heartbeat.Liveness.{ExactOutcome, state_loop-IsExact}

abbrev message : ℕ → Message
message t = record { received = t; environment = some "e"; time = some t }

abbrev signals : List Signal
signals =
    times_out ∷ arrives (message 1) ∷ arrives (message 2) ∷ is_read ∷ times_out ∷ times_out ∷ []

state_loop-IsExact_example : ExactOutcome (state_loop signals new_heartbeat)
state_loop-IsExact_example = state_loop-IsExact signals
