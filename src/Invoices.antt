-- ===== src/Invoices.antt =====
-- server/utils/invoicing.ts and the end of `credit` in server/utils/wallet.ts: the invoice that states
-- a postpaid workspace's debt, its reminders, and what a payment settles.
pub mod Rows
pub mod Sync
pub mod Dunning
pub mod Payment
pub mod Stated
pub mod Single
pub mod Life
pub mod Resumed
pub mod Overdue
