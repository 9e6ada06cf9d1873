-- ===== src/Orders.antt =====
-- Orders, payments, fulfillment and refunds (backend/app/modules/orders).
pub mod Model
pub mod Names
pub mod Transition
pub mod Passengers
pub mod Tables
pub mod Session
pub mod Search
pub mod Create
pub mod Ticket
pub mod Fulfillment
pub mod Alipay
pub mod Confirm
pub mod Checkout
pub mod Settle
pub mod Callback
pub mod Refund
pub mod Worker
pub mod Coherence
pub mod Requests
pub mod Samples
mod Tests
