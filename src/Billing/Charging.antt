-- ===== src/Billing/Charging.antt =====
-- A renewal of server/utils/billing.ts that can be paid.
use telroi_ai_app.Billing.Spared.{earlier_none}
use telroi_ai_app.Billing.Renewed.{amount_of_int}
use telroi_ai_app.Wallet.Succeeds.{debit_succeeds, IsFreshTrigger}
use telroi_ai_app.Wallet.Debit.{enabled_settings}
use telroi_ai_app.Wallet.Spend.{can_spend, int}
use telroi_ai_app.Billing.Renewals.{renewal_args, Renewal, renewal_amount}
use telroi_ai_app.Wallet.Spend.{int, positive_integer}
use telroi_ai_app.Db.{
  AutoTopupSettings, debit, ledger_entry, tenant_of, wallet_of, Db, Tenant, Wallet,
  NumberSubscription, Env,
}
use telroi_ai_app.Billing.Renewals.{
  number_cycle_ref, BillingRates, collect_renewal, renew_unbilled, renew_subscription,
}
use telroi_ai_app.Base.{ℕ, ◌≡◌, sym, ap, subst, true, none, some}
use telroi_ai_app.Base.Int.{pos, ◌<ℤ◌}
use telroi_ai_app.Base.Tx.{ok}

-- A renewal is charged its price, if the price is positive, the workspace could spend it when it was
-- read and can spend it when the debit meets the wallet, the cycle is billed in neither state, an
-- automatic top-up that is on asks for a positive amount, and no attempt has the key of the debit's
-- row or was triggered by it.
pub renewal_charges :
    (rates : BillingRates) (env : Env) (now n : ℕ) (sub : NumberSubscription) (read w : Wallet)
    (before tenant : Tenant) (seen db : Db)
    → wallet_of sub.tenant_id seen ≡ some read
    → tenant_of sub.tenant_id seen ≡ some before
    → ledger_entry (number_cycle_ref now sub) debit seen ≡ none
    → positive_integer (int (renewal_amount rates read.currency sub)) ≡ some n
    → can_spend (some before) read.balance_minor (pos n) ≡ true
    → wallet_of sub.tenant_id db ≡ some w
    → tenant_of sub.tenant_id db ≡ some tenant
    → ledger_entry (number_cycle_ref now sub) debit db ≡ none
    → can_spend (some tenant) w.balance_minor (pos n) ≡ true
    → ((s : AutoTopupSettings)
        → enabled_settings sub.tenant_id db ≡ some s
        → pos 0 <ℤ s.topup_amount_minor)
    → IsFreshTrigger env.ledger_id db
    → (renew_subscription rates env now sub seen db).0 ≡ ok (Renewal.charged (pos n))
unfolding renew_subscription renew_unbilled collect_renewal
renewal_charges rates env now n sub read w before tenant seen db found was new price may found'
      known new' may' asks fresh =
    let amount = renewal_amount rates read.currency sub in
    let worth : amount ≡ pos n = amount_of_int amount n price in
    let may_spend : can_spend (some before) read.balance_minor amount ≡ true =
      subst (λ x. can_spend (some before) read.balance_minor x ≡ true) (sym worth) may in
    let unbilled = earlier_none (number_cycle_ref now sub) db new' in
    let (r, t, done, paid) =
      debit_succeeds env (renewal_args now sub amount) n tenant w db price found' known unbilled
        may' asks fresh in
    let (_, _, _, _, _, _, _, _, _, _, _, _, once) = paid in
    rw (found, new, renew_subscription, renew_unbilled, was, may_spend, collect_renewal, done, once)
      (ap (λ x. ok (Renewal.charged x)) worth)
