-- ===== src/Lib.antt =====
-- Telroi: money, from the wallet to the invoice, and the calls on hold.
--
-- The server keeps one wallet per workspace. Usage is debited from it, top-ups are credited to it,
-- and every movement writes a ledger row (server/utils/wallet.ts). A debit that takes a prepaid
-- wallet below the workspace's threshold queues an attempt to charge its saved card
-- (server/utils/auto-topup-attempts.ts). A worker claims the attempt in one transaction, asks the
-- provider once, and settles the attempt with what the provider answers, now or in a webhook
-- (server/utils/auto-topup-executor.ts, server/utils/auto-topup-provider.ts). The settlement credits
-- the wallet in the transaction that closes the attempt and its payment.
--
-- A scheduler renews the numbers and the plans of each workspace with debits of its wallet
-- (server/utils/billing.ts), each call is charged when it ends (server/utils/call-billing.ts), and
-- what a postpaid workspace owes is stated by one open invoice, which reminders follow and a payment
-- settles (server/utils/invoicing.ts and `credit` of server/utils/wallet.ts). Apart from money, the
-- control app runs a call through its flow (control-app/src/flow-run.ts) and keeps callers in line
-- until an agent is free (control-app/src/queue.ts).
--
-- The files:
--   Base, Base/*     numbers, integers, tables, and the transaction monad
--   Db, Db/*         server/db/schema.ts: the rows, with the columns this code uses, and the selects
--                    and updates that the components share
--   Wallet/Spend     canSpend, fxStamp, walletCreditVatMinor
--   Wallet/Debit     debitInTransaction
--   Wallet/Credit    creditInTransaction
--   Wallet/Entries   getOrCreateWallet, sandboxLedgerEntry, canAfford; currencyForCountry of
--                    server/utils/countries.ts
--   AutoTopup/Policy       autoTopupCancellationReason, providerSupportsWalletCurrency,
--                          crossedAutoTopupThreshold
--   AutoTopup/Attempts     enqueueAutoTopupAttemptWithDb, dueUnsentAutoTopups,
--                          cancelUnsentAutoTopups
--   AutoTopup/Observation  stripeObservation, paystackObservation
--   AutoTopup/Settle       settleAutoTopupObservation and its two assertions
--   AutoTopup/Reasons      autoTopupCardProblem, and the other reasons to cancel a charge
--   AutoTopup/Claim        claimAutoTopupForCharge
--   AutoTopup/Recover      markAutoTopupUncertain, claimAutoTopupRecovery
--   AutoTopup/Work         recordResult and the dispatch task of executeAutoTopups
--   AutoTopup/Settings     server/utils/auto-topup.ts: validateAutoTopupAmounts, getAutoTopupState
--   AutoTopup/Save         server/utils/auto-topup.ts: saveAutoTopupSettings
--   Invoices/Rows          server/utils/invoicing.ts: invoiceNumber and the selects of invoices
--   Invoices/Sync          syncOpenInvoice, runInvoiceSync
--   Invoices/Dunning       runDunning
--   Invoices/Payment       credit of server/utils/wallet.ts, with the settlement of invoices
--   Billing/Prices         server/utils/pricing.ts: getPricing, toCurrencyMinor, voiceCostMinor,
--                          otpCostMinor, planFeeUsdMinor
--   Billing/Renewals       server/utils/billing.ts: the loop over number subscriptions
--   Billing/Plans          the loop over plan fees, and runMonthlyBilling
--   Billing/Seats          seatCostMinor, canAffordSeat, prorateSeat
--   Billing/Calls          chargeCall of server/utils/call-billing.ts, isSandbox of
--                          server/utils/sandbox.ts, chargeNumberProvision of server/utils/wallet.ts
--   ControlApp/Queue       control-app/src/queue.ts: enqueue, dequeue, positionOf, queueLength, peek,
--                          snapshot
--   ControlApp/Hold        holdUntilFree
--   ControlApp/Flow        control-app/src/flow-run.ts: runFlow
--   Limits/Rate            rateLimit of server/utils/api.ts
--   Limits/Channels        server/utils/channel-limits.ts: channelCapacity, liveCallCount,
--                          channelUsage, assertChannelAvailable
--   Plans/Features         server/utils/entitlements.ts: effectivePlan, trialActive, trialDaysLeft,
--                          entitlementsFor, hasFeature, aiActive
--   Permissions/Caps       server/utils/permissions.ts: getCallCaps, canCallFromNumber
--   Plans/Activation       server/utils/go-live.ts: goLiveState, activateWorkspace
--   Plans/Request          server/api/go-live.post.ts, up to the activation
--   System           any interleaving of debits, credits, claims, settlements, marks, recovery claims,
--                    postponements and cancellations, as a step relation that records each charge
--                    handed to a provider
-- The other files of these folders hold proofs, and Tests concrete runs.
--
-- How the code corresponds: a transaction is a function from the state of the tables to an error or
-- a result with the next state, so an exception rolls everything back. What runs under the lock on
-- a wallet's row is sequential by it: debits, credits, claims, settlements and the saving of the
-- settings; `skipLocked` and lock timeouts are not modelled. Other code reads and writes without a
-- lock. The reads of a renewal and its writes are given two states, so that other transactions may
-- come between. The check before a plan fee, `syncOpenInvoice`, the settlement of invoices,
-- `runDunning`, the charge of a call, and the two updates and the clearing of a request to go live
-- are taken as one step each, which they are not in the code: nothing is shown of two of them at
-- once. The guard of the
-- channels only reads, and the rows of calls that handlers write after it are not modelled. A
-- select with `limit(1)` takes the first row that qualifies; a table keeps its newest row first.
-- `Ensures P (f s)` says that P holds of the result and the next state wherever f does not throw.
-- The clock, and the ids and tokens that the database and the random generator hand out, are the
-- record `Env`. Fresh ids are a hypothesis where they matter. Outside functions are parameters:
-- `decrypt`, `Date.UTC` as `utc`, the upper-casing of currency codes, the lower-casing of carriers'
-- names and of countries, and the provider.
--
-- Amounts are integers of unbounded size: the overflow of the database's integer columns is not
-- modelled. A rate of tax is a whole number of ten-thousandths, as its column is numeric(5, 4), and
-- the tax is computed exactly and rounded once, where the code uses doubles. The price of a call is
-- computed in doubles as the code does it (Base/Double), for values from 2^-28 to 2^53. JSON
-- metadata is a list of fields in the order in which the code spreads them, so the last of a key
-- counts. Dates are milliseconds from 1970 to the year 9999, in UTC. An invoice that the code calls
-- 'open' is `unpaid` here. A newest row is the first of its table. What the outside world answers
-- over a hold or a flow is a list: the polls, and the digits. The only bound on turns is the code's
-- own, 25 in a flow; a list of polls that runs out is a hold that still waits.
--
-- Not modelled: mail and Slack notices, the requests to the providers, the counts and the deadline
-- of the batch loop, the monthly fallback runInvoicing, the rates of regions and the units of
-- notifications, the reaper of channels, and the server's other parts: sessions, the
-- routing of calls, the provisioning of numbers, the web pages and the telephony configuration.
pub mod Base
pub mod Db
pub mod AutoTopup
pub mod Wallet
pub mod Billing
pub mod ControlApp
pub mod Invoices
pub mod Limits
pub mod Permissions
pub mod Plans
pub mod System
mod Tests
