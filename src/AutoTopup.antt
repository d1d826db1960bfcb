-- ===== src/AutoTopup.antt =====
-- server/utils/auto-topup*.ts: refilling a prepaid wallet from a saved card when a debit takes it
-- below the owner's threshold. `Policy` decides, `Attempts` queues and cancels the work.
pub mod Policy
pub mod Attempts
pub mod Queue
pub mod Observation
pub mod Settle
pub mod Reasons
pub mod Claim
pub mod Recover
pub mod Work
pub mod Sent
pub mod Keeps
pub mod Settling
pub mod Claiming
pub mod Once
pub mod Money
pub mod Chargeable
pub mod Final
pub mod Stale
pub mod Settings
pub mod Save
pub mod Saved
pub mod Ready
pub mod Enabling
pub mod Accepts
pub mod Charged
pub mod Withdrawn
pub mod Disabling
