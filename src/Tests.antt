-- ===== src/Tests.antt =====
-- The theorems at concrete inputs: a prepaid dollar workspace with a saved card, and a postpaid naira
-- one.
mod Data
mod Wallets
mod Topups
mod Configs
mod Dates
mod Debts
mod Prices
mod Renewals
mod Phones
mod Limits
mod Unlocked
mod Lives
mod Callers
