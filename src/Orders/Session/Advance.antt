-- ===== src/Orders/Session/Advance.antt =====
-- What a transition leaves in the table of orders.
use travel_latest.Base.{String, ℕ, ◌≡◌, Option, some, none, arith, true, refl}
use travel_latest.Base.Exec.{Session, ok, ◌>>=◌}
use travel_latest.Orders.Model.{Db, TravelOrder, Triple}
use travel_latest.Orders.Transition.{current, put_triple, member, allowed}
use travel_latest.Orders.Transition.Outcomes.{transition_iff, transition_permitted}
use travel_latest.Orders.Tables.{order_by_id, put_order}
use travel_latest.Orders.Tables.Laws.{order_by_id_sound, order_by_id-put}
use travel_latest.Orders.Session.{advance, save_order}

-- The session after a transition that succeeds.
abbrev pub advanced : TravelOrder → Triple → Session Db → Session Db
advanced o t s = record s { db = record s.db { orders = put_order (put_triple t o) s.db.orders } }

pub advance_ok :
    (o o' : TravelOrder) (actor : Option ℕ) (t : Triple) (s : Session Db)
    → (advance o actor t s).0 ≡ ok o'
    → (o' ≡ put_triple t o) × ((advance o actor t s).1 ≡ advanced o t s)
unfolding advance save_order ◌>>=◌
advance_ok o o' actor t s h = ground (arith, transition_iff o o' actor t)

-- The system can make every permitted change.
pub advance_permitted :
    (o : TravelOrder) (t : Triple) (s : Session Db)
    → member t (allowed (current o)) ≡ true
    → advance o none t s ≡ (ok (put_triple t o), advanced o t s)
unfolding advance save_order ◌>>=◌
advance_permitted o t s h = ground (arith, transition_permitted o t h)

-- The order is found with its new statuses.
pub advanced-found :
    (i : ℕ) (o : TravelOrder) (t : Triple) (s : Session Db)
    → order_by_id i s.db.orders ≡ some o
    → order_by_id i (put_order (put_triple t o) s.db.orders) ≡ some (put_triple t o)
advanced-found i o t s e =
    order_by_id-put i s.db.orders o (put_triple t o) e refl (order_by_id_sound i s.db.orders o e)

-- The order with a failure code is found again.
pub coded-found :
    (i : ℕ) (o : TravelOrder) (t : Triple) (code : Option String) (s : Session Db)
    → order_by_id i s.db.orders ≡ some o
    → order_by_id i (
        put_order
          (record (put_triple t o) { failure_code = code })
          (put_order (put_triple t o) s.db.orders))
      ≡ some (record (put_triple t o) { failure_code = code })
coded-found i o t code s e =
    order_by_id-put i _ (put_triple t o) _ (advanced-found i o t s e) refl
      (order_by_id_sound i s.db.orders o e)
