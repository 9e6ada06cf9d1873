-- ===== src/Notifications/Tests.antt =====
-- The theorems on notifications at concrete rows.
use travel_latest.Base.{ℕ, ◌+◌, ◌≡◌, Option, none, some, List, [], ◌∷◌}
use travel_latest.Notifications.{Notification, unread_count, mark_read}
use travel_latest.Notifications.Counts.{mark_read-unread_count}

abbrev notification_at : ℕ → ℕ → Option ℕ → Notification
notification_at id user_id read_at = record {
  id = id;
  user_id = user_id;
  notification_type = "order";
  payload_json = [];
  read_at = read_at;
  created_at = 10 + id;
}

abbrev inbox : List Notification
inbox =
    notification_at 1 7 none
    ∷ notification_at 2 7 none
    ∷ notification_at 3 8 none
    ∷ notification_at 4 7 (some 20)
    ∷ []

mark_read_example :
    let (count, rows) = mark_read 30 7 (some (2 ∷ [])) inbox in
    unread_count 7 inbox ≡ count + unread_count 7 rows
mark_read_example = mark_read-unread_count 30 7 (some (2 ∷ [])) inbox
