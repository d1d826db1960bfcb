-- ===== src/Plans.antt =====
-- server/utils/entitlements.ts: what a workspace's plan, its trial and its overrides unlock.
-- server/utils/go-live.ts: the way of a workspace out of the sandbox.
pub mod Features
pub mod Overrides
pub mod Activation
pub mod Live
pub mod Request
pub mod Rows
pub mod Chosen
