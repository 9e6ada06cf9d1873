-- ===== src/Notifications/Pages.antt =====
-- What a page of notifications holds.
use travel_latest.Base.{ℕ, ◌≤◌, ◌≡◌, Bool, true, Option, none, some, List, ◌==◌, if◌then◌else◌}
use travel_latest.Base.Lists.{length}
use travel_latest.Base.Tables.{All}
use travel_latest.Notifications.{Notification, is_listed, cursor_row}

-- The row after which a request asks for notifications.
abbrev pub start_row : ℕ → Option ℕ → List Notification → Option Notification
start_row u none rows = none
start_row u (some cursor) rows = if cursor == 0 then none else cursor_row u cursor rows

-- A page of a list.
pub record IsPage (u : ℕ) (cursor : Option ℕ) (limit : ℕ) (unread : Bool)
    (rows items : List Notification) : Type 0 where
  pub each : All (λ n. is_listed u unread (start_row u cursor rows) n ≡ true) items
  pub bounded : length items ≤ limit
