-- ===== src/Lib.antt =====
-- A model of the travel platform's backend, and theorems about it: the life of a travel order,
-- from the selected offer through payment, fulfillment and refund; the delivery of its events;
-- membership plans, grants and purchases; itineraries that several people edit, with their
-- versions; exports of itineraries; the quotas of the AI features and the checks on their plans;
-- and notifications.
--
-- The parts and their files:
-- - backend/app/core/database.py, and the way in which the services use a SQLAlchemy session:
--   Base/Exec (a request is an action on the rows that it sees and the rows that are durable; an
--   exception ends it, and what it did not commit is lost) and Base/Tables (queries and writes on
--   lists of rows, with Base/Queries for ordered selections). Base/Exec/Keeps has the rules for
--   invariants of actions, Base/Exec/Clean those for requests that fail without a trace, and
--   Base/Exec/Gives those for what an action returns; Base/Keys has the lemmas on rows with
--   identifiers.
-- - backend/app/models/outbox.py: Events/Outbox; backend/app/events/publisher.py:
--   Events/Publisher; backend/app/events/consumer.py: Events/Consumer (consume_once) and
--   Events/Consumer/Message (_handle_message). The services write outbox rows with their own
--   changes; the publisher gives them to the broker, and the consumer runs the worker's handlers
--   on what the broker delivers.
-- - backend/app/modules/memberships: Memberships (the plans and the grants of MembershipService,
--   with the audit rows of backend/app/modules/admin/models.py).
-- - backend/app/modules/membership_purchases: Purchases, with Purchases/Create (create_purchase,
--   create_payment), Purchases/Attempts (the QR payments), Purchases/Settle (_settle),
--   Purchases/Callback (handle_callback), Purchases/Queries (the two queries of the provider) and
--   Purchases/Authorize (authorize_paid_purchase and _push_back_future_memberships), on the tables
--   of Memberships/Model.
-- - backend/app/modules/itineraries: Itineraries, with Itineraries/Access (collaborators and share
--   tokens), Itineraries/Snapshots (_snapshot, _record_version, _replace_snapshot),
--   Itineraries/Mutate, Itineraries/Reorder and Itineraries/Preview (_mutate, by operation) and
--   Itineraries/Operations (apply_operation, create_version, restore_version, create_itinerary).
-- - backend/app/modules/exports, with the handlers _run_export, _finalize_export_failure and
--   _cleanup_expired_exports of backend/app/workers/domain_handlers.py: Exports, with
--   Exports/Service (create, get, retry), Exports/Attempts (start_attempt, complete, prepare_retry,
--   finalize_failure) and Exports/Downloads (download_url, expire_succeeded_exports). An export
--   reads the versions of Itineraries, and Exports/Run composes the routes and the handlers to runs.
-- - backend/app/modules/notifications: Notifications; backend/app/modules/ai_safety: Planning.
-- - backend/app/modules/ai_entitlements/service.py: Quotas, on the table AIQuotaPeriod.
-- - backend/app/modules/orders/models.py: Orders/Model, with Orders/Names for the texts of the
--   statuses and Orders/Tables for the queries.
-- - backend/app/modules/orders/services.py: Orders/Create (OrderService.create_from_offer),
--   Orders/Search (SearchService.create), Orders/Passengers (_masked_passenger_facts),
--   Orders/Transition (OrderStateService), Orders/Ticket (MockTicketService), Orders/Fulfillment
--   and Orders/Confirm (FulfillmentService), Orders/Checkout, Orders/Settle and Orders/Callback
--   (PaymentService), Orders/Refund (RefundService).
-- - backend/app/workers/domain_handlers.py, the handlers _fulfill_paid_order and _process_refund:
--   Orders/Worker and Orders/Refund.
-- - Orders/Requests composes the routes and the handlers: each request has a session of its own,
--   and a run is a list of requests in any order. Orders/Samples and Orders/Tests run the theorems
--   at concrete tables.
--
-- How the state corresponds: a table is the list of its rows in the order in which they were
-- added; a query is the first row that meets its conditions; a row that the code changes is
-- written back under its identifier. Identifiers, idempotency keys, payment numbers and
-- transaction numbers are texts that the code compares, or tests for being empty: they are
-- numbers, and 0 is the empty text. New identifiers come from a supply that has handed out all the
-- numbers below its counter. Amounts are counted in hundredths, times in microseconds, and the
-- time of a call is an argument. Statuses are data types with the values that the check
-- constraints of the tables allow. The column `provider` has one value in this code and is left
-- out. Row locks are implicit, since a request runs alone; between its commits a handler reads its
-- rows again, as the code does.
--
-- Titles of itineraries are lists of characters, since a preview cuts them; dates are ordinals.
-- The payload of an operation on an itinerary is a data type with one constructor for each
-- operation, in which a field that is missing or malformed is written out. A handler reads the
-- clock once.
--
-- The payment provider (backend/app/integrations/alipay), the offer provider, the ticket issuer,
-- the supplier, the message broker, the map service, the renderer of documents, the object storage
-- and the digests are parameters: functions that say what each call answers, or that it raises.
-- Nothing is assumed of them. The structural recursion is on lists, and no definition needs fuel.
--
-- Not modelled: the web frontend, the routes' authentication and schemas, the adapters of the
-- providers, and the other modules of the backend (planning and memory of the AI features,
-- community, chat, media, search, administration). Of the itineraries, the copy of a field note,
-- the manual plan, the itinerary of a companion activity, the deletion and the calculation of
-- routes are not modelled.
pub mod Base
pub mod Events
pub mod Orders
pub mod Quotas
pub mod Exports
pub mod Itineraries
pub mod Memberships
pub mod Purchases
pub mod Notifications
pub mod Planning
