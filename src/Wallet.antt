-- ===== src/Wallet.antt =====
-- server/utils/wallet.ts: debits, credits and sandbox entries of a workspace's wallet, each with its
-- row in the ledger.
pub mod Spend
pub mod Debit
pub mod Credit
pub mod Entries
pub mod Accounts
pub mod Balance
pub mod Conservation
pub mod Steps
pub mod Limits
pub mod Repeat
pub mod Tax
pub mod Replay
pub mod Succeeds
pub mod Unique
