-- ===== src/Billing.antt =====
-- What a workspace pays for: server/utils/pricing.ts, server/utils/billing.ts,
-- server/utils/call-billing.ts, and `chargeNumberProvision` of server/utils/wallet.ts.
pub mod Prices
pub mod Renewals
pub mod Plans
pub mod Seats
pub mod Calls
pub mod Balanced
pub mod Priced
pub mod Renewed
pub mod Spared
pub mod Charging
pub mod Metered
