-- ===== src/Migration/Notifications/Tests.antt =====
-- A problem of which two contacts were notified, one of them twice.
use icingadb.Prelude.{ℕ, [], ◌∷◌, length, none, some, ◌≡◌, refl}
use icingadb.Migration.Samples.{hash}
use icingadb.Migration.Notifications.{
  NotificationRow, Queries, convert_notification_rows, convert_notifications,
}
use icingadb.Migration.Notifications.Sent.{IsSent, convert_notification_rows-IsSent}

abbrev row : ℕ → ℕ → NotificationRow
row id reason = record {
  id = id;
  reason = reason;
  end_time = some 5;
  end_time_usec = 0;
  state = 1;
  output = "bad";
  long_output = none;
  objecttype_id = 1;
  name1 = "a";
  name2 = "";
}

abbrev queries : Queries
queries = record {
  select_cache = λ from to. (1, 0) ∷ (2, 0) ∷ [];
  select_contacts = λ from to. (1, "x") ∷ (1, "y") ∷ (1, "x") ∷ [];
}

convert_notification_rows-IsSent_example :
    IsSent (convert_notification_rows hash (λ t. t) "e" queries (row 1 0 ∷ row 2 4 ∷ []))
convert_notification_rows-IsSent_example =
    convert_notification_rows-IsSent hash (λ t. t) "e" queries (row 1 0 ∷ row 2 4 ∷ [])

users_once :
    length
      (convert_notification_rows hash
        (λ t. t)
        "e"
        queries
        (row 1 0 ∷ row 2 4 ∷ [])).user_notification_history
    ≡ 2
unfolding convert_notification_rows convert_notifications
users_once = refl
