-- ===== src/Ha/Tests.antt =====
-- Runs of the HA controller.
use icingadb.Prelude.{ℕ, [], ◌∷◌, Bool, true, false, Option, none, some, ◌≡◌, refl, arith, subst}
use icingadb.Ha.{
  Instance, Database, Node, new_ha, fresh_notifications, takeover, none_active, transaction,
  conclude, decide, find_other, note_other, own_row, upsert, retract_others, signal_takeover,
}
use icingadb.Ha.Controller.{
  Message, Outside, committed, beat, goes, step, on_beat, on_beat_at, on_verified,
  verify_notifications_state, is_valid_unhealthy, on_environment, set_environment, same_environment,
  realize_ids, realize, committed_node,
}
use icingadb.Ha.Rows.{is_active}
use icingadb.Ha.Reachable
use icingadb.Ha.Cluster
use icingadb.Ha.Signals.{NodeOk}
use icingadb.Ha.Reachable.{reaches-NodeOk}
use icingadb.Ha.Published.{Tells, is_alive, reaches-Tells}
use icingadb.Ha.Takeover.{is_expired}
use icingadb.Ha.Cluster.{Nodes, put, reaches-responsible_unique}
use icingadb.Ha.Dispute.{dispute-both_drop}

abbrev first_beat : Message
first_beat = record { time = some 1000; endpoint_id = some 5; environment_id = some 9 }

abbrev at_1000 : Outside
at_1000 = record {
  now = 1000;
  tx_now = 1001;
  last_message = 1000;
  tx = committed;
  delivered = true;
  update_ok = true;
  count_ok = true;
}

abbrev active_1 : Node
active_1 = record {
  instance_id = 1;
  environment = some (some 9);
  responsible = true;
  state = record { responsible_ts_milli = 1001; responsible = true; other_responsible = false };
  notifications = fresh_notifications;
  aborted = false;
  cancelled = false;
  signals = (1001, takeover none_active) ∷ [];
}

abbrev row_1 : Instance
row_1 = record {
  id = 1;
  environment_id = 9;
  endpoint_id = 5;
  heartbeat = 1000;
  responsible = true;
  notifications_healthy = none;
}

first_round : step 300000 at_1000 (beat first_beat) (new_ha 1) [] ≡ goes active_1 (row_1 ∷ [])
unfolding step on_beat on_beat_at on_verified verify_notifications_state is_valid_unhealthy
    on_environment set_environment same_environment realize_ids realize transaction own_row upsert
    retract_others signal_takeover conclude decide find_other new_ha
first_round = refl

reaches_1 : Reachable.Reaches 300000 active_1
reaches_1 =
    Reachable.round [] (row_1 ∷ []) at_1000 (beat first_beat) (Reachable.start 1) refl first_round

abbrev row_2 : Bool → Instance
row_2 active = record row_1 { id = 2; responsible = active }

abbrev standby_2 : Node
standby_2 = record {
  instance_id = 2;
  environment = some (some 9);
  responsible = false;
  state = record { responsible_ts_milli = 0; responsible = false; other_responsible = true };
  notifications = fresh_notifications;
  aborted = false;
  cancelled = false;
  signals = [];
}

second_round :
    step 300000 at_1000 (beat first_beat) (new_ha 2) (row_1 ∷ [])
    ≡ goes standby_2 (row_1 ∷ row_2 false ∷ [])
unfolding step on_beat on_beat_at on_verified verify_notifications_state is_valid_unhealthy
    on_environment set_environment same_environment realize_ids realize transaction own_row upsert
    retract_others signal_takeover conclude decide find_other new_ha note_other
second_round = refl

reaches_standby : Reachable.Reaches 300000 standby_2
reaches_standby =
    Reachable.round (row_1 ∷ []) (row_1 ∷ row_2 false ∷ []) at_1000 (beat first_beat)
      (Reachable.start 2) refl second_round

reaches-Tells_example :
    NodeOk standby_2
    × NodeOk (committed_node at_1000 9 standby_2 (row_1 ∷ row_2 false ∷ []))
    × Tells
        (committed_node at_1000 9 standby_2 (row_1 ∷ row_2 false ∷ []))
        (is_alive 1001 (find_other 9 2 (row_1 ∷ row_2 false ∷ [])))
reaches-Tells_example =
    reaches-Tells 300000 standby_2 reaches_standby at_1000 9 (row_1 ∷ row_2 false ∷ []) refl

-- The other instance is told to be responsible.
another_told : is_alive 1001 (find_other 9 2 (row_1 ∷ row_2 false ∷ [])) ≡ true
unfolding find_other
another_told = refl

abbrev two_nodes : Nodes
two_nodes = put 2 standby_2 (put 1 active_1 (λ i. new_ha i))

reaches_two : Cluster.Reaches 300000 9 two_nodes (row_1 ∷ row_2 false ∷ [])
reaches_two =
    Cluster.round 2 (put 1 active_1 (λ i. new_ha i)) (row_1 ∷ []) _ standby_2 at_1000
      (beat first_beat)
      (Cluster.round 1 (λ i. new_ha i) [] (row_1 ∷ []) active_1 at_1000 (beat first_beat)
        (Cluster.start []) tt refl refl first_round)
      (λ e. ground (arith, e), tt) refl refl second_round

reaches-responsible_unique_example : ◌≡◌ {A = ℕ} 1 1
reaches-responsible_unique_example =
    reaches-responsible_unique 300000 9 two_nodes (row_1 ∷ row_2 false ∷ []) 1 1 reaches_two refl
      refl

abbrev active_2 : Node
active_2 = record active_1 { instance_id = 2 }

-- The row that a query finds, if any, is not expired.
abbrev IsFresh : Option Instance → Type 0
IsFresh none = Unit
IsFresh (some r) = is_expired 1003 r ≡ false

active_2-NodeOk : NodeOk active_2
active_2-NodeOk = record { state_exact = refl; since = refl; no_other = λ e. refl; alternates = tt }

abbrev disputed : Database
disputed = row_1 ∷ row_2 true ∷ []

dispute-both_drop_example :
    (is_active 9 1 (transaction active_1 9 5 1002 1002 disputed) ≡ true)
    × ((conclude 1002 true (decide active_1 1002 (find_other 9 1 disputed)) active_1).responsible
        ≡ false)
    × ((conclude 1003 true
          (decide active_2 1003 (find_other 9 2 (transaction active_1 9 5 1002 1002 disputed)))
          active_2).responsible
        ≡ false)
unfolding find_other transaction own_row upsert decide
dispute-both_drop_example =
    dispute-both_drop 9 5 1002 1002 1003 active_1 active_2 (row_2 true) disputed
      (reaches-NodeOk 300000 active_1 reaches_1) active_2-NodeOk refl (λ e. ground (arith, e)) refl
      refl (λ r e. subst (λ q. IsFresh q) e refl)
