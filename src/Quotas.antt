-- ===== src/Quotas.antt =====
-- The quotas of the AI features: `AIEntitlementService` of
-- backend/app/modules/ai_entitlements/service.py, and the table `AIQuotaPeriod` of
-- backend/app/modules/membership_purchases/models.py.
pub mod Months
pub mod Periods
pub mod Service
pub mod Limits
pub mod Returned
mod Tests
