-- ===== src/Billing/Priced.antt =====
-- The monthly price of a number in server/utils/billing.ts, against the rates that it is made of.
use telroi_ai_app.Base.Rows.{find}
use telroi_ai_app.Db.{NumberSubscription, Currency, PricingOverride}
use telroi_ai_app.Billing.Renewals.{BillingRates, channel_count, renewal_amount}
use telroi_ai_app.Billing.Prices.{to_currency_minor}
use telroi_ai_app.Base.{
  ℕ, zero, suc, ◌≤◌, String, ◌≡◌, refl, ◌⊎◌, inl, inr, Option, none, some, List, Option-cases,
  or_else, arith, ◌==◌,
}
use telroi_ai_app.Base.Int.{ℤ, pos, ◌+ℤ◌, ◌*ℤ◌}

-- The rates that a workspace pays: its own where it has them.
abbrev pub own_rate : Option ℤ → ℤ → ℤ
own_rate none global = global
own_rate (some own) global = own

-- The monthly price of so many channels of a number, at the prices of the number and of a channel in
-- cents: in dollars as it stands, in naira with each of the two prices at the rate of exchange.
abbrev pub IsPrice : Currency → ℤ → ℤ → ℤ → ℕ → ℤ → Type 0
IsPrice Currency.usd did channel ngn_per_usd n a = a ≡ did +ℤ channel *ℤ pos n
IsPrice Currency.ngn did channel ngn_per_usd n a =
    a ≡ did *ℤ ngn_per_usd +ℤ channel *ℤ ngn_per_usd *ℤ pos n

-- At least one channel is paid for.
abbrev pub IsPaidChannels : ℕ → ℕ → Type 0
IsPaidChannels channels n = ((channels ≡ 0) × (n ≡ 1)) ⊎ ((1 ≤ channels) × (n ≡ channels))

-- The price at the global rates and a workspace's own, if it has a row of them.
abbrev pub IsRenewalPrice :
    BillingRates → Currency → NumberSubscription → Option PricingOverride → ℤ → Type 0
IsRenewalPrice rates currency sub none a =
    (n : ℕ) × IsPaidChannels sub.channels n
    × IsPrice currency rates.did_usd rates.channel_usd rates.ngn_per_usd n a
IsRenewalPrice rates currency sub (some o) a =
    (n : ℕ) × IsPaidChannels sub.channels n
    × IsPrice currency (own_rate o.did_monthly_usd_minor rates.did_usd)
        (own_rate o.channel_monthly_usd_minor rates.channel_usd) rates.ngn_per_usd n a

-- The row of its own prices that a workspace has.
abbrev pub own_prices : String → List PricingOverride → Option PricingOverride
own_prices tenant_id os = find (λ o. o.tenant_id == tenant_id) os

channel_count-IsPaid : (n : ℕ) → IsPaidChannels n (channel_count n)
channel_count-IsPaid zero = inl (refl, refl)
channel_count-IsPaid (suc n) = inr (omega arith, refl)

or_else-own_rate : (own : Option ℤ) (global : ℤ) → or_else own global ≡ own_rate own global
or_else-own_rate none global = refl
or_else-own_rate (some own) global = refl

to_currency_minor-IsPrice :
    (currency : Currency) (did channel ngn_per_usd : ℤ) (n : ℕ)
    → IsPrice currency did channel ngn_per_usd n (
        to_currency_minor did currency ngn_per_usd
        +ℤ to_currency_minor channel currency ngn_per_usd *ℤ pos n)
unfolding to_currency_minor
to_currency_minor-IsPrice Currency.usd did channel ngn_per_usd n = refl
to_currency_minor-IsPrice Currency.ngn did channel ngn_per_usd n = refl

pub renewal_amount-IsPrice :
    (rates : BillingRates) (currency : Currency) (sub : NumberSubscription)
    → IsRenewalPrice rates currency sub
        (own_prices sub.tenant_id rates.overrides)
        (renewal_amount rates currency sub)
unfolding renewal_amount
renewal_amount-IsPrice rates currency sub =
    let n = channel_count sub.channels in
    let paid = channel_count-IsPaid sub.channels in
    elim (Option-cases (own_prices sub.tenant_id rates.overrides)) [
      | inl global ↦
          rw (global, renewal_amount)
            (
              n,
              paid,
              to_currency_minor-IsPrice currency rates.did_usd rates.channel_usd rates.ngn_per_usd
                  n,
            )
      | inr (o, own) ↦
          let did = or_else-own_rate o.did_monthly_usd_minor rates.did_usd in
          let channel = or_else-own_rate o.channel_monthly_usd_minor rates.channel_usd in
          rw (own, renewal_amount, did, channel)
            (
              n,
              paid,
              to_currency_minor-IsPrice currency (own_rate o.did_monthly_usd_minor rates.did_usd)
                  (own_rate o.channel_monthly_usd_minor rates.channel_usd) rates.ngn_per_usd n,
            )
    ]
