-- ===== src/Notifications.antt =====
-- `NotificationService` of backend/app/modules/notifications/service.py, on the table of
-- notifications/models.py.
pub mod Counts
pub mod Pages
mod Tests
use travel_latest.Base.{
  ℕ, suc, ◌+◌, ◌-◌, String, Bool, true, false, not, ◌&&◌, ◌||◌, Option, none, some, List, [], ◌∷◌,
  ◌==◌, ltb, leb, if◌then◌else◌, is_some,
}
use travel_latest.Base.Lists.{length, take, drop}
use travel_latest.Base.Tables.{scalar, add, count_where}
use travel_latest.Base.Exec.{Result, ok, err}
use travel_latest.Events.Outbox.{Payload}

pub record Notification : Type 0 where
  pub id : ℕ
  pub user_id : ℕ
  pub notification_type : String
  pub payload_json : Payload
  pub read_at : Option ℕ
  pub created_at : ℕ

pub data NotificationError : Type 0 where
  invalid_cursor : NotificationError

abbrev pub new_notification : ℕ → ℕ → ℕ → String → Payload → Notification
new_notification now id user_id notification_type payload = record {
  id = id;
  user_id = user_id;
  notification_type = notification_type;
  payload_json = payload;
  read_at = none;
  created_at = now;
}

-- The new row, under a new identifier, and the rows with it.
unfoldable pub create :
    ℕ → ℕ → ℕ → String → Payload → List Notification → Notification × List Notification
create now id user_id notification_type payload rows =
    let notification = new_notification now id user_id notification_type payload in
    (notification, add notification rows)

-- `Notification.user_id == user_id, Notification.read_at.is_(None)`
unfoldable pub is_unread : ℕ → Notification → Bool
is_unread user_id n = n.user_id == user_id && not (is_some n.read_at)

unfoldable pub unread_count : ℕ → List Notification → ℕ
unread_count user_id = count_where (is_unread user_id)

unfoldable pub contains : ℕ → List ℕ → Bool
contains i [] = false
contains i (j ∷ ids) = j == i || contains i ids

-- `if notification_ids is not None: ... where(Notification.id.in_(notification_ids))`
unfoldable pub is_marked : ℕ → Option (List ℕ) → Notification → Bool
is_marked user_id none n = is_unread user_id n
is_marked user_id (some ids) n = is_unread user_id n && contains n.id ids

-- The rows after the update, and how many it changed.
unfoldable pub mark_read : ℕ → ℕ → Option (List ℕ) → List Notification → ℕ × List Notification
mark_read now user_id ids [] = (0, [])
mark_read now user_id ids (n ∷ rows) =
    let (count, rest) = mark_read now user_id ids rows in
    if is_marked user_id ids n
    then (suc count, record n { read_at = some now } ∷ rest)
    else (count, n ∷ rest)

-- `order_by(Notification.created_at.desc(), Notification.id.desc())`; it is also the test for the
-- rows after a cursor.
unfoldable pub is_newer : Notification → Notification → Bool
is_newer a b = ltb b.created_at a.created_at || (b.created_at == a.created_at && ltb b.id a.id)

unfoldable pub insert_newest : Notification → List Notification → List Notification
insert_newest n [] = n ∷ []
insert_newest n (m ∷ ms) =
    let rest = insert_newest n ms in if is_newer m n then m ∷ rest else n ∷ m ∷ ms

-- The conditions on the rows of a list.
unfoldable pub is_listed : ℕ → Bool → Option Notification → Notification → Bool
is_listed user_id unread_only none n =
    n.user_id == user_id && (not unread_only || not (is_some n.read_at))
is_listed user_id unread_only (some cursor) n =
    n.user_id == user_id && (not unread_only || not (is_some n.read_at)) && is_newer cursor n

unfoldable pub listed : ℕ → Bool → Option Notification → List Notification → List Notification
listed user_id unread_only cursor [] = []
listed user_id unread_only cursor (n ∷ rows) =
    let rest = listed user_id unread_only cursor rows in
    if is_listed user_id unread_only cursor n then insert_newest n rest else rest

abbrev pub first_id : List Notification → Option ℕ
first_id [] = none
first_id (n ∷ _) = some n.id

-- The page of the sorted rows: one row more than the limit shows that there is a next page, which
-- starts after the last row of this one.
unfoldable pub page : ℕ → List Notification → List Notification × Option ℕ
page limit rows =
    let found = take (limit + 1) rows in
    (take limit found, if ltb limit (length found) then first_id (drop (limit - 1) found) else none)

-- The row of a cursor.
unfoldable pub cursor_row : ℕ → ℕ → List Notification → Option Notification
cursor_row user_id cursor = scalar (λ n. n.id == cursor && n.user_id == user_id)

-- An absent cursor is `none`; an empty one, 0, counts as absent.
unfoldable pub list_for_user :
    ℕ
    → Option ℕ
    → ℕ
    → Bool
    → List Notification
    → Result NotificationError (List Notification × Option ℕ)
list_for_user user_id none limit unread_only rows =
    ok (page limit (listed user_id unread_only none rows))
list_for_user user_id (some cursor) limit unread_only rows =
    if cursor == 0
    then ok (page limit (listed user_id unread_only none rows))
    else elim (cursor_row user_id cursor rows) [
      | none ↦ err invalid_cursor
      | some row ↦ ok (page limit (listed user_id unread_only (some row) rows))
    ]
