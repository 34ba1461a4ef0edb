-- ===== src/Heartbeat/Liveness.antt =====
-- What the events tell of the heartbeat.
use icingadb.Prelude.{
  String, List, [], ◌∷◌, Bool, true, false, Option, none, some, if◌then◌else◌, ◌≡◌, refl, sym, ◌∙◌,
}
use icingadb.Heartbeat.{
  Message, Heartbeat, Signal, arrives, times_out, is_read, Beating, beating, failed, new_heartbeat,
  on_beat, on_first, on_timeout, beat, state_loop,
}

-- The latest event is a heartbeat.
abbrev pub is_alive : List (Option Message) → Bool
is_alive [] = false
is_alive (none ∷ ms) = false
is_alive (some m ∷ ms) = true

-- A loss is only sent right after a heartbeat.
abbrev pub LossesFollowBeats : List (Option Message) → Type 0
LossesFollowBeats [] = Unit
LossesFollowBeats (none ∷ ms) = (is_alive ms ≡ true) × LossesFollowBeats ms
LossesFollowBeats (some m ∷ ms) = LossesFollowBeats ms

-- What waits in the channel is the latest event.
abbrev pub IsLatest : Option (Option Message) → List (Option Message) → Type 0
IsLatest none ms = Unit
IsLatest (some m) [] = ⊥
IsLatest (some m) (m' ∷ ms) = m ≡ m'

pub record IsExact (h : Heartbeat) : Type 0 where
  pub active : h.active ≡ is_alive h.sent
  pub losses : LossesFollowBeats h.sent
  pub latest : IsLatest h.events h.sent

abbrev pub ExactOutcome : Beating → Type 0
ExactOutcome (beating h) = IsExact h
ExactOutcome (failed h) = IsExact h

on_beat-IsExact : (m : Message) (h : Heartbeat) → IsExact h → IsExact (on_beat m h)
on_beat-IsExact m h i = record { active = refl; losses = i.losses; latest = refl }

on_first-ExactOutcome :
    (m : Message) (o : Option String) (h : Heartbeat) → IsExact h → ExactOutcome (on_first m o h)
on_first-ExactOutcome m none h i = i
on_first-ExactOutcome m (some env) h i = on_beat-IsExact m h i

on_timeout-IsExact :
    (b : Bool) (h : Heartbeat) → h.active ≡ b → IsExact h → IsExact (on_timeout b h)
on_timeout-IsExact true h e i = record {
  active = refl;
  losses = (sym i.active ∙ e, i.losses);
  latest = refl;
}
on_timeout-IsExact false h e i = record { active = i.active; losses = i.losses; latest = i.latest }

arrives-ExactOutcome :
    (b : Bool) (m : Message) (h : Heartbeat)
    → IsExact h
    → ExactOutcome (if b then beating (on_beat m h) else on_first m m.environment h)
arrives-ExactOutcome true m h i = on_beat-IsExact m h i
arrives-ExactOutcome false m h i = on_first-ExactOutcome m m.environment h i

beat-ExactOutcome : (s : Signal) (h : Heartbeat) → IsExact h → ExactOutcome (beat s h)
unfolding beat
beat-ExactOutcome (arrives m) h i = arrives-ExactOutcome h.active m h i
beat-ExactOutcome times_out h i = on_timeout-IsExact h.active h refl i
beat-ExactOutcome is_read h i = record { active = i.active; losses = i.losses; latest = tt }

on_beating :
    (k : Heartbeat → Beating) (o : Beating)
    → ((h : Heartbeat) → IsExact h → ExactOutcome (k h))
    → ExactOutcome o
    → ExactOutcome (elim o [ beating h ↦ k h | failed h ↦ failed h ])
on_beating k (beating h) f i = f h i
on_beating k (failed h) f i = i

state_loop-ExactOutcome :
    (ss : List Signal) (h : Heartbeat) → IsExact h → ExactOutcome (state_loop ss h)
unfolding state_loop
state_loop-ExactOutcome [] h i = i
state_loop-ExactOutcome (s ∷ ss) h i =
    on_beating (state_loop ss) (beat s h) (state_loop-ExactOutcome ss) (beat-ExactOutcome s h i)

-- Whatever arrives, times out and is read, and also at the end by an error: the heartbeat is active if and
-- only if the latest event that was sent is a heartbeat, a loss is sent only right after a heartbeat, and
-- what waits to be read is the latest event.
pub state_loop-IsExact : (ss : List Signal) → ExactOutcome (state_loop ss new_heartbeat)
unfolding new_heartbeat
state_loop-IsExact ss =
    state_loop-ExactOutcome ss new_heartbeat (record { active = refl; losses = tt; latest = tt })
