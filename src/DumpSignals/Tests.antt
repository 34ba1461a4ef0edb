-- ===== src/DumpSignals/Tests.antt =====
-- A dump during which two types are waited for.
use icingadb.Prelude.{List, [], ◌∷◌, some, ◌≡◌, refl, false}
use icingadb.DumpSignals.{Event, message, call_done, listening, new_dump_signals, listen}
use icingadb.DumpSignals.Heard.{nothing}
use icingadb.DumpSignals.Listening.{Tells, heard, any_wip, listen-Tells}

-- The host's channel is closed by the first message; the signal for services comes before the call.
abbrev dump : List Event
dump =
    call_done "host"
    ∷ message (some "host") (some "done")
    ∷ message (some "service") (some "done")
    ∷ call_done "service"
    ∷ []

listen-Tells_example :
    Tells (heard nothing dump) (any_wip nothing dump) (listen (listening new_dump_signals) dump)
listen-Tells_example = listen-Tells dump

missed_service : (heard nothing dump).told "service" ≡ false
missed_service = refl
