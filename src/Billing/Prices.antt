-- ===== src/Billing/Prices.antt =====
-- server/utils/pricing.ts: the rates of a workspace, and what calls and plans cost in the currency of
-- its wallet. Notifications are left out.
use telroi_ai_app.Base.Rows.{find}
use telroi_ai_app.Db.{PricingOverride, Currency, Db, Plan, Pricing}
use telroi_ai_app.Base.Double.{ceil, round, times, Double, quotient}
use telroi_ai_app.Base.{or_else, ℕ, zero, suc, String, Option, none, some, ◌==◌}
use telroi_ai_app.Base.Int.{ℤ, pos, negsuc, ◌*ℤ◌}

-- What `getPricing` answers with, as far as billing reads it; the annual prices are absent from its
-- default.
pub record Rates : Type 0 where
  pub voice_minute_usd_micro : ℤ
  pub channel_monthly_usd_minor : ℤ
  pub did_monthly_usd_minor : ℤ
  pub plan_startup_usd_minor : ℤ
  pub plan_growth_usd_minor : ℤ
  pub plan_startup_annual_usd_minor : Option ℤ
  pub plan_growth_annual_usd_minor : Option ℤ
  pub ngn_per_usd : ℤ

abbrev pub default_rates : Rates
default_rates = record {
  voice_minute_usd_micro = pos 10_200;
  channel_monthly_usd_minor = pos 200;
  did_monthly_usd_minor = pos 170;
  plan_startup_usd_minor = pos 1_000;
  plan_growth_usd_minor = pos 1_500;
  plan_startup_annual_usd_minor = none;
  plan_growth_annual_usd_minor = none;
  ngn_per_usd = pos 1_600;
}

abbrev pub rates_of_row : Pricing → Rates
rates_of_row p = record {
  voice_minute_usd_micro = p.voice_minute_usd_micro;
  channel_monthly_usd_minor = p.channel_monthly_usd_minor;
  did_monthly_usd_minor = p.did_monthly_usd_minor;
  plan_startup_usd_minor = p.plan_startup_usd_minor;
  plan_growth_usd_minor = p.plan_growth_usd_minor;
  plan_startup_annual_usd_minor = some p.plan_startup_annual_usd_minor;
  plan_growth_annual_usd_minor = some p.plan_growth_annual_usd_minor;
  ngn_per_usd = p.ngn_per_usd;
}

abbrev pub override_of : String → Db → Option PricingOverride
override_of tenant_id db = find (λ o. o.tenant_id == tenant_id) db.pricing_overrides

-- `getPricing` of a workspace, without a region
unfoldable pub get_pricing : String → Db → Rates
get_pricing tenant_id db =
    let base : Rates = elim db.pricing [ none ↦ default_rates | some p ↦ rates_of_row p ] in
    elim (override_of tenant_id db) [
      | none ↦ base
      | some o ↦ record base {
        voice_minute_usd_micro = or_else o.voice_minute_usd_micro base.voice_minute_usd_micro;
        channel_monthly_usd_minor =
            or_else o.channel_monthly_usd_minor base.channel_monthly_usd_minor;
        did_monthly_usd_minor = or_else o.did_monthly_usd_minor base.did_monthly_usd_minor;
      }
    ]

-- `toCurrencyMinor` of whole cents, and the `conv` of the billing runs.
unfoldable pub to_currency_minor : ℤ → Currency → ℤ → ℤ
unfolding ◌*ℤ◌
to_currency_minor usd_minor Currency.usd ngn_per_usd = usd_minor
to_currency_minor usd_minor Currency.ngn ngn_per_usd = usd_minor *ℤ ngn_per_usd

-- A rate that is above zero, or the default.
abbrev pub positive_rate : ℤ → ℕ → ℕ
positive_rate (pos (suc n)) default = suc n
positive_rate (pos zero) default = default
positive_rate (negsuc n) default = default

abbrev pub at_least_one : ℕ → ℕ
at_least_one zero = 1
at_least_one (suc n) = suc n

-- Cents as minor units of a currency, one at least; a rate below zero gives nothing above one.
abbrev pub minor_of_cents : Double → Currency → ℤ → ℕ
minor_of_cents cents Currency.usd ngn_per_usd = at_least_one (round cents)
minor_of_cents cents Currency.ngn (pos n) = at_least_one (round (times cents n))
minor_of_cents cents Currency.ngn (negsuc n) = 1

-- The micro-dollars of so many seconds.
unfoldable pub micro_usd : ℕ → ℕ → ℕ
unfolding quotient times ceil
micro_usd seconds rate = ceil (times (quotient seconds 60) rate)

-- `voiceCostMinor`
unfoldable pub voice_cost_minor : ℕ → Currency → ℤ → ℤ → ℕ
unfolding micro_usd quotient times round
voice_cost_minor seconds currency ngn_per_usd micro_usd_per_min =
    minor_of_cents (quotient (micro_usd seconds (positive_rate micro_usd_per_min 10_200)) 10_000)
      currency ngn_per_usd

-- `otpCostMinor`
unfoldable pub otp_cost_minor : Currency → ℤ → ℤ → ℕ
unfolding quotient times round
otp_cost_minor currency ngn_per_usd micro_usd_per_call =
    minor_of_cents (quotient (positive_rate micro_usd_per_call 10_000) 10_000) currency ngn_per_usd

pub data Interval : Type 0 where
  monthly annual : Interval

-- `planFeeUsdMinor`
unfoldable pub plan_fee_usd_minor : Plan → Rates → Interval → ℤ
unfolding ◌*ℤ◌
plan_fee_usd_minor Plan.growth p Interval.annual =
    or_else p.plan_growth_annual_usd_minor (p.plan_growth_usd_minor *ℤ pos 12)
plan_fee_usd_minor Plan.startup p Interval.annual =
    or_else p.plan_startup_annual_usd_minor (p.plan_startup_usd_minor *ℤ pos 12)
plan_fee_usd_minor Plan.custom p Interval.annual = pos 0
plan_fee_usd_minor Plan.growth p Interval.monthly = p.plan_growth_usd_minor
plan_fee_usd_minor Plan.startup p Interval.monthly = p.plan_startup_usd_minor
plan_fee_usd_minor Plan.custom p Interval.monthly = pos 0
