-- ===== src/Tests/Renewals.antt =====
-- Renewals of a number of the prepaid dollar workspace, and of the postpaid one; and its plan fee.
use telroi_ai_app.Base.{String, ◌≡◌, refl, false, none, some, [], ◌∷◌, arith}
use telroi_ai_app.Base.Int.{neg, pos, ◌+ℤ◌, ◌-ℤ◌, ◌*ℤ◌}
use telroi_ai_app.Billing.Priced.{IsRenewalPrice}
use telroi_ai_app.Billing.Metered.{charge_twice}
use telroi_ai_app.Wallet.Repeat.{repeated}
use telroi_ai_app.Base.Double.{round, ceil, times, quotient}
use telroi_ai_app.Wallet.Entries.{get_or_create_wallet}
use telroi_ai_app.Billing.Calls.{
  call_cost, charge_wallet, charge_seconds, CallArgs, CallCharge, charge_call,
}
use telroi_ai_app.Base.Calendar.{civil_of_days, iso_date}
use telroi_ai_app.Wallet.Debit.{
  Debited, trigger_auto_topup, move_debit, fresh_debit, apply_debit, debit_in_transaction,
}
use telroi_ai_app.Wallet.Spend.{can_spend}
use telroi_ai_app.Billing.Prices.{micro_usd, voice_cost_minor, get_pricing, to_currency_minor}
use telroi_ai_app.Billing.Balanced.{billing-IsBalanced}
use telroi_ai_app.Billing.Plans.{run_monthly_billing}
use telroi_ai_app.Billing.Renewed.{renew_twice, renew-IsRenewed, IsRenewed, OnCharge}
use telroi_ai_app.Wallet.Balance.{IsBalanced}
use telroi_ai_app.Base.Tx.{ok, Result}
use telroi_ai_app.Billing.Renewals.{
  collect_renewal, renewal_amount, Renewal, renew_unbilled, BillingRates, renew_subscription,
}
use telroi_ai_app.Billing.Spared.{renewal_spares_postpaid, status_in}
use telroi_ai_app.Db.{SubscriptionStatus, NumberSubscription, usd, Db}
use telroi_ai_app.Tests.Data.{acme, lagos_wallet, acme_wallet, lagos, db, env}
use telroi_ai_app.Billing.Charging.{renewal_charges}

abbrev line : NumberSubscription
line = record {
  id = "n1";
  tenant_id = "t1";
  telnum = "+2341";
  channels = 0;
  status = SubscriptionStatus.active;
  next_billing_at = 4_000;
  last_billed_at = none;
  department_id = none;
}

abbrev lagos_line : NumberSubscription
lagos_line = record line { id = "n2"; tenant_id = "t2" }

abbrev rates : BillingRates
rates = record { did_usd = pos 50; channel_usd = pos 70; ngn_per_usd = pos 1_600; overrides = [] }

abbrev numbered : Db
numbered = record db { number_subscriptions = line ∷ lagos_line ∷ []; auto_topup_settings = [] }

-- The first renewal.
abbrev first : Result Renewal × Db
first = renew_subscription rates env 5_000 line numbered numbered

first_charges : first.0 ≡ ok (Renewal.charged (pos 120))
unfolding renew_subscription renew_unbilled collect_renewal renewal_amount to_currency_minor ◌+ℤ◌
    ◌*ℤ◌ ◌-ℤ◌ can_spend debit_in_transaction apply_debit fresh_debit move_debit trigger_auto_topup
    iso_date civil_of_days
first_charges = refl

renew-IsRenewed_example :
    OnCharge
      (λ a t. IsRenewalPrice rates usd line none a × IsRenewed 5_000 line acme_wallet numbered a t)
      first
renew-IsRenewed_example =
    renew-IsRenewed rates env 5_000 line acme_wallet acme_wallet numbered numbered refl refl

renewal_charges_example :
    (renew_subscription rates env 5_000 line numbered numbered).0 ≡ ok (Renewal.charged (pos 120))
unfolding renewal_amount to_currency_minor can_spend ◌+ℤ◌ ◌*ℤ◌ ◌-ℤ◌ iso_date civil_of_days
    telroi_ai_app.AutoTopup.Attempts.auto_topup_attempt_key
renewal_charges_example =
    renewal_charges rates env 5_000 120 line acme_wallet acme_wallet acme acme numbered numbered
      refl refl refl refl refl refl refl refl refl (λ s is. absurd (ground (arith, is))) refl

renew_twice_example :
    renew_subscription rates env 9_000 line first.1 first.1 ≡ (ok Renewal.skipped, first.1)
unfolding renew_subscription renew_unbilled collect_renewal renewal_amount to_currency_minor ◌+ℤ◌
    ◌*ℤ◌ ◌-ℤ◌ can_spend debit_in_transaction apply_debit fresh_debit move_debit trigger_auto_topup
    iso_date civil_of_days
renew_twice_example =
    renew_twice rates rates env env 5_000 9_000 line acme_wallet acme_wallet (pos 120) numbered
      numbered first.1 first.1 refl refl refl refl

renewal_spares_postpaid_example :
    status_in "n2" (renew_subscription rates env 5_000 lagos_line numbered numbered).1
    ≡ status_in "n2" numbered
renewal_spares_postpaid_example =
    renewal_spares_postpaid "n2" rates env 5_000 lagos_line lagos numbered numbered refl refl refl
      refl refl

-- The postpaid workspace in good standing, and what another debit leaves of its wallet.
abbrev in_credit : Db
in_credit = record numbered { tenants = acme ∷ record lagos { billing_suspended_at = none } ∷ [] }

abbrev drained : Db
drained = record in_credit {
  wallets = acme_wallet ∷ record lagos_wallet { balance_minor = neg (pos 500) } ∷ [];
}

-- Where another debit uses the credit up between the reads and the debit, the number of the postpaid
-- workspace is suspended.
raced_number_suspended :
    status_in "n2"
      (renew_subscription
        (record rates { ngn_per_usd = pos 1 })
        env
        5_000
        lagos_line
        in_credit
        drained).1
    ≡ some SubscriptionStatus.suspended
unfolding renew_subscription renew_unbilled collect_renewal renewal_amount to_currency_minor ◌+ℤ◌
    ◌*ℤ◌ ◌-ℤ◌ neg can_spend debit_in_transaction apply_debit fresh_debit move_debit
    trigger_auto_topup iso_date civil_of_days
raced_number_suspended = refl

billing-IsBalanced_example :
    IsBalanced (run_monthly_billing (λ id. env) (λ id s. s) 5_000 numbered).1
unfolding ◌+ℤ◌
billing-IsBalanced_example =
    billing-IsBalanced (λ id. env) (λ id s. s) 5_000 numbered (λ id s h. h) (refl, (refl, tt))

abbrev phoned : CallArgs
phoned = record {
  tenant_id = "t1";
  call_id = "c7";
  seconds = pos 600;
  provider = some "Telnyx";
  source = some "dialer";
  direction = none;
}

abbrev lower : String → String
lower s = s

-- What a call of ten minutes costs and leaves.
abbrev metered : Result CallCharge × Db
metered = charge_call lower env phoned numbered

abbrev receipt : Debited
receipt = record {
  balance_minor = pos 290;
  ledger_id = "l9";
  idempotent = false;
  auto_topup_attempt_id = none;
}

charge_twice_example :
    charge_call lower env phoned metered.1
    ≡ (ok (CallCharge.charged 10 usd (repeated receipt)), metered.1)
unfolding charge_call charge_seconds charge_wallet get_or_create_wallet call_cost get_pricing
    voice_cost_minor micro_usd quotient times ceil round debit_in_transaction apply_debit
    fresh_debit move_debit trigger_auto_topup can_spend ◌-ℤ◌
charge_twice_example = charge_twice lower env env phoned 10 usd receipt numbered metered.1 refl
