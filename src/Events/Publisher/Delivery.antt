-- ===== src/Events/Publisher/Delivery.antt =====
-- Which events are published, and which rows are left alone.
use travel_latest.Base.{
  ℕ, ◌≤◌, ◌≡◌, ◌≢◌, refl, sym, ◌∙◌, true, false, none, some, List, [], ◌∷◌, ltb, arith, Bool-cases,
  inl, inr,
}
use travel_latest.Base.Lists.{take, length, length-take}
use travel_latest.Base.Tables.{All, get, save, take-All}
use travel_latest.Base.Exec.{Result, ok}
use travel_latest.Events.Outbox.{OutboxEvent, outbox_key}
use travel_latest.Events.Publisher.{
  EventBroker, comes_before, insert_event, pending_events, is_published, is_confirmed, published,
  publish_events, publish_pending_events, PublishError,
}

module _ {κ} (P : OutboxEvent → Type κ) where
  insert_event-All :
      (e : OutboxEvent) (es : List OutboxEvent) → P e → All P es → All P (insert_event e es)
  unfolding insert_event
  insert_event-All e [] p a = (p, tt)
  insert_event-All e (x ∷ es) p a = elim (Bool-cases (comes_before e x)) [
    | inl before ↦ rw before (p, a)
    | inr after ↦ rw after (a.0, insert_event-All e es p a.1)
  ]

unpublished : (e : OutboxEvent) → is_published e ≡ false → e.published_at ≡ none
unfolding is_published
unpublished e h = ground arith

-- The rows that are chosen are rows of the table, and none of them is published.
pending_events-All {κ} :
    (P : OutboxEvent → Type κ) (rows : List OutboxEvent)
    → All P rows
    → All (λ e. P e × (e.published_at ≡ none)) (pending_events rows)
unfolding pending_events
pending_events-All P [] a = tt
pending_events-All P (e ∷ rows) a = elim (Bool-cases (is_published e)) [
  | inl there ↦ rw there (pending_events-All P rows a.1)
  | inr absent ↦ rw absent (
      insert_event-All _ e (pending_events rows) (a.0, unpublished e absent)
        (pending_events-All P rows a.1))
]

-- Every returned identifier is that of an event with `P` whose envelope the broker confirmed.
publish_events-All {κ} :
    (P : OutboxEvent → Type κ) (now : ℕ) (broker : EventBroker) (es rows : List OutboxEvent)
    → All P es
    → All
        (λ i. (e : OutboxEvent) × (e.event_id ≡ i) × P e × (is_confirmed broker e ≡ true))
        (publish_events now broker es rows).1
unfolding publish_events
publish_events-All P now broker [] rows a = tt
publish_events-All P now broker (e ∷ es) rows a = elim (Bool-cases (is_confirmed broker e)) [
  | inl confirmed ↦
      rw confirmed ((e, refl, a.0, confirmed), publish_events-All P now broker es _ a.1)
  | inr refused ↦ rw refused (publish_events-All P now broker es _ a.1)
]

publish_events-length :
    (now : ℕ) (broker : EventBroker) (es rows : List OutboxEvent)
    → length (publish_events now broker es rows).1 ≤ length es
unfolding publish_events
publish_events-length now broker [] rows = omega arith
publish_events-length now broker (e ∷ es) rows =
    let ih = publish_events-length now broker es (save (published now broker e) rows) in
    elim (Bool-cases (is_confirmed broker e)) [
      | inl confirmed ↦ rw confirmed (omega (arith, ih))
      | inr refused ↦ rw refused (omega (arith, ih))
    ]

-- The rows of a table that are found under their identifiers: all of them, where these differ.
abbrev pub IsStored : List OutboxEvent → OutboxEvent → Type 0
IsStored rows e = get e.event_id rows ≡ some e

get-save_other :
    (i : ℕ) (r : OutboxEvent) (rows : List OutboxEvent)
    → r.event_id ≢ i
    → get i (save r rows) ≡ get i rows
get-save_other i r [] ne = refl
get-save_other i r (e ∷ rows) ne = ground (arith, get-save_other i r rows ne)

published-event_id :
    (now : ℕ) (broker : EventBroker) (e : OutboxEvent)
    → (published now broker e).event_id ≡ e.event_id
unfolding published
published-event_id now broker e = ground arith

publish_events-get :
    (i now : ℕ) (broker : EventBroker) (es rows : List OutboxEvent)
    → All (λ e. e.event_id ≢ i) es
    → get i (publish_events now broker es rows).0 ≡ get i rows
unfolding publish_events
publish_events-get i now broker [] rows a = refl
publish_events-get i now broker (e ∷ es) rows a =
    publish_events-get i now broker es _ a.1
    ∙ get-save_other i (published now broker e) rows
        (λ h. a.0 (sym (published-event_id now broker e) ∙ h))

chosen-All :
    (batch : ℕ) (rows : List OutboxEvent)
    → All (IsStored rows) rows
    → All (λ e. IsStored rows e × (e.published_at ≡ none)) (take batch (pending_events rows))
chosen-All batch rows a =
    take-All _ batch (pending_events rows) (pending_events-All (IsStored rows) rows a)

-- What a call returns: identifiers of rows that were not published and whose envelopes the broker
-- has confirmed, no more than the batch.
pub record IsDelivery (broker : EventBroker) (batch : ℕ) (rows : List OutboxEvent)
    (r : Result PublishError (List ℕ)) : Type 0 where
  pub ids : List ℕ
  pub returned : r ≡ ok ids
  pub confirmed :
      All
        (λ i.
          (e : OutboxEvent) × (e.event_id ≡ i)
          × (IsStored rows e × (e.published_at ≡ none))
          × (is_confirmed broker e ≡ true))
        ids
  pub bounded : length ids ≤ batch

-- With a positive batch size the call returns, and the identifiers that it returns are those of rows
-- that were not published and whose envelopes the broker has confirmed, no more than the batch.
pub publish_pending_events-IsDelivery :
    (now : ℕ) (broker : EventBroker) (batch : ℕ) (rows : List OutboxEvent)
    → ltb batch 1 ≡ false
    → All (IsStored rows) rows
    → IsDelivery broker batch rows (publish_pending_events now broker batch rows).0
unfolding publish_pending_events
publish_pending_events-IsDelivery now broker batch rows h a =
    let chosen = take batch (pending_events rows) in
    record {
      ids = (publish_events now broker chosen rows).1;
      returned = rw h;
      confirmed = publish_events-All _ now broker chosen rows (chosen-All batch rows a);
      bounded = omega (
        arith,
        publish_events-length now broker chosen rows,
        length-take batch (pending_events rows),
      );
    }

chosen-other :
    (i t : ℕ) (rows es : List OutboxEvent) (e : OutboxEvent)
    → get i rows ≡ some e
    → e.published_at ≡ some t
    → All (λ x. IsStored rows x × (x.published_at ≡ none)) es
    → All (λ x. x.event_id ≢ i) es
chosen-other i t rows [] e f g a = tt
chosen-other i t rows (x ∷ es) e f g a =
    (λ same. ground (arith, a.0), chosen-other i t rows es e f g a.1)

-- A row that is published stays as it is, whatever the broker answers.
pub published_stays :
    (i t now : ℕ) (broker : EventBroker) (batch : ℕ) (rows : List OutboxEvent) (e : OutboxEvent)
    → All (IsStored rows) rows
    → get i rows ≡ some e
    → e.published_at ≡ some t
    → get i (publish_pending_events now broker batch rows).1 ≡ some e
unfolding publish_pending_events
published_stays i t now broker batch rows e a f g = elim (Bool-cases (ltb batch 1)) [
  | inl zero_batch ↦ rw zero_batch f
  | inr positive ↦ rw positive (
      publish_events-get i now broker (take batch (pending_events rows)) rows
        (chosen-other i t rows _ e f g (chosen-All batch rows a))
      ∙ f)
]
