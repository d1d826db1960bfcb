-- ===== src/Billing/Renewals.antt =====
-- server/utils/billing.ts, `runMonthlyBilling`, its first loop: the renewal of number subscriptions.
use telroi_ai_app.Base.Rows.{find, count}
use telroi_ai_app.Wallet.Spend.{int, can_spend}
use telroi_ai_app.Base.Calendar.{add_days, iso_date}
use telroi_ai_app.Wallet.Debit.{debit_in_transaction, DebitArgs}
use telroi_ai_app.Base.Rows.{update_where}
use telroi_ai_app.Billing.Prices.{to_currency_minor}
use telroi_ai_app.Base.Tx.{fault, api, err, ok, Result, Error}
use telroi_ai_app.Db.{
  num, text, debit, ledger_entry, tenant_of, wallet_of, Currency, Wallet, Db, Env,
  NumberSubscription, PricingOverride, SubscriptionStatus, Tenant,
}
use telroi_ai_app.Base.{
  or_else, ℕ, zero, suc, ◌+◌, String, Bool, true, false, ◌&&◌, Option, none, some, List, [], ◌∷◌,
  ◌==◌, leb, if◌then◌else◌,
}
use telroi_ai_app.Base.Int.{ℤ, pos, ◌+ℤ◌, ◌*ℤ◌}
use Prim.Native.String.{◌++◌}

-- `isInsufficientFunds`
abbrev pub is_insufficient_funds : Error → Bool
is_insufficient_funds (api code status) = code == "insufficient_funds"
is_insufficient_funds (fault message) = false

-- What became of a subscription; `charged` carries the amount.
pub data Renewal : Type 0 where
  charged : ℤ → Renewal
  suspended skipped : Renewal

-- What the loop reads once, before it starts.
pub record BillingRates : Type 0 where
  pub did_usd : ℤ
  pub channel_usd : ℤ
  pub ngn_per_usd : ℤ
  pub overrides : List PricingOverride

abbrev pub billing_rates : Db → BillingRates
billing_rates db = elim db.pricing [
  | none ↦ record {
    did_usd = pos 170;
    channel_usd = pos 200;
    ngn_per_usd = pos 1_600;
    overrides = db.pricing_overrides;
  }
  | some p ↦ record {
    did_usd = p.did_monthly_usd_minor;
    channel_usd = p.channel_monthly_usd_minor;
    ngn_per_usd = p.ngn_per_usd;
    overrides = db.pricing_overrides;
  }
]

-- `sub.channels || 1`
abbrev pub channel_count : ℕ → ℕ
channel_count zero = 1
channel_count (suc n) = suc n

-- The price of a number and its channels, under the workspace's own rates if it has any.
unfoldable pub renewal_amount : BillingRates → Currency → NumberSubscription → ℤ
unfolding to_currency_minor ◌+ℤ◌ ◌*ℤ◌
renewal_amount rates currency sub =
    elim (find (λ o. o.tenant_id == sub.tenant_id) rates.overrides) [
      | none ↦
          to_currency_minor rates.did_usd currency rates.ngn_per_usd
          +ℤ to_currency_minor rates.channel_usd currency rates.ngn_per_usd
            *ℤ pos (channel_count sub.channels)
      | some o ↦
          to_currency_minor (or_else o.did_monthly_usd_minor rates.did_usd) currency
            rates.ngn_per_usd
          +ℤ to_currency_minor (or_else o.channel_monthly_usd_minor rates.channel_usd) currency
              rates.ngn_per_usd
            *ℤ pos (channel_count sub.channels)
    ]

-- The reference of a subscription's renewal on a day.
abbrev pub number_cycle_ref : ℕ → NumberSubscription → String
number_cycle_ref now sub = "numbill_" ++ sub.id ++ "_" ++ iso_date now

abbrev pub renewal_args : ℕ → NumberSubscription → ℤ → DebitArgs
renewal_args now sub amount = record {
  tenant_id = sub.tenant_id;
  amount_minor = int amount;
  reason = "number_monthly";
  reference = some (number_cycle_ref now sub);
  meta = ("telnum", text sub.telnum) ∷ ("channels", num (pos sub.channels)) ∷ [];
}

abbrev pub update_subscription : String → (NumberSubscription → NumberSubscription) → Db → Db
update_subscription id f db = record db {
  number_subscriptions = update_where (λ s. s.id == id) f db.number_subscriptions;
}

abbrev pub suspend_subscription : NumberSubscription → Db → Db
suspend_subscription sub =
    update_subscription sub.id (λ s. record s { status = SubscriptionStatus.suspended })

-- The next date of the cycle, thirty days on.
abbrev pub renewed : ℕ → NumberSubscription → Db → Db
renewed now sub =
    update_subscription sub.id (λ s. record s {
      last_billed_at = some now;
      next_billing_at = add_days 30 sub.next_billing_at;
    })

-- The transaction of a renewal, with its `catch`. The state beside an error is the one that the
-- rolled back transaction leaves.
unfoldable pub collect_renewal : Env → ℕ → NumberSubscription → ℤ → Db → Result Renewal × Db
collect_renewal env now sub amount db =
    elim (debit_in_transaction env (renewal_args now sub amount) db) [
      | ok p ↦ (ok (if p.0.idempotent then skipped else charged amount), renewed now sub p.1)
      | err e ↦
          if is_insufficient_funds e
          then (ok suspended, suspend_subscription sub db)
          else (err e, db)
    ]

abbrev pub is_postpaid : Option Tenant → Bool
is_postpaid none = false
is_postpaid (some t) = t.postpaid

-- From the amount on, when this cycle is not billed yet. The workspace is read in `seen`; the
-- writes meet `db`, where other transactions may have moved its money since.
unfoldable pub renew_unbilled :
    Env → ℕ → NumberSubscription → Wallet → ℤ → Db → Db → Result Renewal × Db
unfolding collect_renewal
renew_unbilled env now sub wallet amount seen db =
    let t = tenant_of sub.tenant_id seen in
    if can_spend t wallet.balance_minor amount
    then collect_renewal env now sub amount db
    else if is_postpaid t
    then (ok skipped, db)
    else (ok suspended, suspend_subscription sub db)

-- The body of the loop: the reads, without a lock, on `seen`, and the writes on `db`.
unfoldable pub renew_subscription :
    BillingRates → Env → ℕ → NumberSubscription → Db → Db → Result Renewal × Db
unfolding renew_unbilled
renew_subscription rates env now sub seen db = elim (wallet_of sub.tenant_id seen) [
  | none ↦ (ok skipped, db)
  | some wallet ↦ elim (ledger_entry (number_cycle_ref now sub) debit seen) [
    | some dupe ↦ (ok skipped, db)
    | none ↦ renew_unbilled env now sub wallet (renewal_amount rates wallet.currency sub) seen db
  ]
]

-- `BillingResult`, its details and its plans left out
pub record BillingResult : Type 0 where
  pub due : ℕ
  pub charged : ℕ
  pub suspended : ℕ
  pub skipped : ℕ

abbrev pub tallied : Renewal → BillingResult → BillingResult
tallied (Renewal.charged a) r = record r { charged = r.charged + 1 }
tallied Renewal.suspended r = record r { suspended = r.suspended + 1 }
tallied Renewal.skipped r = record r { skipped = r.skipped + 1 }

-- The loop over what was due; an error ends it, and keeps what was committed before. `envs` hands
-- out the ids of each subscription's transaction, and `others` is what other transactions do between
-- its reads and its writes.
unfoldable pub renew_all :
    BillingRates
    → (String → Env)
    → (String → Db → Db)
    → ℕ
    → List NumberSubscription
    → BillingResult
    → Db
    → Result BillingResult × Db
unfolding renew_subscription
renew_all rates envs others now [] r db = (ok r, db)
renew_all rates envs others now (sub ∷ subs) r db =
    let p = renew_subscription rates (envs sub.id) now sub db (others sub.id db) in
    elim p.0 [
      | err e ↦ (err e, p.1)
      | ok outcome ↦ renew_all rates envs others now subs (tallied outcome r) p.1
    ]

abbrev pub is_active_number : SubscriptionStatus → Bool
is_active_number SubscriptionStatus.active = true
is_active_number SubscriptionStatus.suspended = false
is_active_number SubscriptionStatus.cancelled = false

-- The active subscriptions whose date has come.
abbrev pub due_subscriptions : ℕ → List NumberSubscription → List NumberSubscription
due_subscriptions now [] = []
due_subscriptions now (s ∷ ss) =
    if is_active_number s.status && leb s.next_billing_at now
    then s ∷ due_subscriptions now ss
    else due_subscriptions now ss

-- The first loop of `runMonthlyBilling`.
unfoldable pub run_renewals :
    (String → Env) → (String → Db → Db) → ℕ → Db → Result BillingResult × Db
unfolding renew_all
run_renewals envs others now db =
    let due = due_subscriptions now db.number_subscriptions in
    renew_all (billing_rates db) envs others now due
      (record { due = count (λ s. true) due; charged = 0; suspended = 0; skipped = 0 }) db
