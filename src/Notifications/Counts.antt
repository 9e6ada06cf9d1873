-- ===== src/Notifications/Counts.antt =====
-- Unread notifications and their number.
use travel_latest.Base.{
  ℕ, ◌+◌, ◌≡◌, ◌≢◌, refl, true, false, Option, none, some, List, [], ◌∷◌, arith, Bool-cases, inl,
  inr,
}
use travel_latest.Notifications.{Notification, is_unread, unread_count, is_marked, mark_read}

-- A marked row was unread, and is read afterwards.
marked_was_unread :
    (u : ℕ) (ids : Option (List ℕ)) (n : Notification)
    → is_marked u ids n ≡ true
    → is_unread u n ≡ true
unfolding is_marked
marked_was_unread u none n h = h
marked_was_unread u (some ids) n h = ground arith

marked_is_read :
    (now u : ℕ) (n : Notification) → is_unread u (record n { read_at = some now }) ≡ false
unfolding is_unread
marked_is_read now u n = ground arith

marked_other :
    (now u v : ℕ) (n : Notification) → is_unread u n ≡ true → u ≢ v → is_unread v n ≡ false
unfolding is_unread
marked_other now u v n h ne = ground arith

-- The number of rows that are marked is exactly what the number of unread ones falls by, whichever
-- identifiers are given.
pub mark_read-unread_count :
    (now u : ℕ) (ids : Option (List ℕ)) (rows : List Notification)
    → let (count, rows') = mark_read now u ids rows in
      unread_count u rows ≡ count + unread_count u rows'
unfolding mark_read unread_count
mark_read-unread_count now u ids [] = refl
mark_read-unread_count now u ids (n ∷ rows) =
    let ih = mark_read-unread_count now u ids rows in
    elim (Bool-cases (is_marked u ids n)) [
      | inl marked ↦ ground (arith, ih, marked_was_unread u ids n, marked_is_read now u n)
      | inr other ↦ ground (arith, ih)
    ]

-- Without identifiers all are marked.
mark_read-all :
    (now u : ℕ) (rows : List Notification) → unread_count u (mark_read now u none rows).1 ≡ 0
unfolding mark_read unread_count is_marked
mark_read-all now u [] = refl
mark_read-all now u (n ∷ rows) = ground (arith, mark_read-all now u rows, marked_is_read now u n)

-- The notifications of another user stay as unread as they were.
pub mark_read-other :
    (now u v : ℕ) (ids : Option (List ℕ)) (rows : List Notification)
    → u ≢ v
    → unread_count v (mark_read now u ids rows).1 ≡ unread_count v rows
unfolding mark_read unread_count
mark_read-other now u v ids [] ne = refl
mark_read-other now u v ids (n ∷ rows) ne = ground (
  arith,
  mark_read-other now u v ids rows ne,
  marked_was_unread u ids n,
  marked_other now u v n,
  marked_is_read now v n,
)
