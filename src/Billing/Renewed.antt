-- ===== src/Billing/Renewed.antt =====
-- A renewal of server/utils/billing.ts that is charged, and the next one of the same day.
use telroi_ai_app.Base.{
  ℕ, zero, suc, ◌+◌, ◌*◌, ◌≡◌, refl, sym, ap, ◌∙◌, subst, ◌⊎◌, inl, inr, some, ◌∷◌, eq_refl,
  Option-cases, Bool-cases, arith, ◌==◌,
}
use telroi_ai_app.Base.Int.{ℤ, pos, negsuc, ◌-ℤ◌}
use telroi_ai_app.Base.Calendar.{iso_date, add_days, day_ms}
use telroi_ai_app.Base.Rows.{update_where}
use telroi_ai_app.Wallet.Accounts.{debit-SameAccounts, SameAccounts}
use telroi_ai_app.Wallet.Limits.{with_balance, debit_within_limit, RepeatedDebit, NewDebit}
use telroi_ai_app.Wallet.Debit.{debit_row, debit_in_transaction}
use telroi_ai_app.Base.Tx.{Result-cases, err, ok, Result}
use telroi_ai_app.Billing.Renewals.{
  is_insufficient_funds, is_postpaid, number_cycle_ref, renewal_amount, renewal_args, Renewal,
  BillingRates, collect_renewal, renew_subscription, renew_unbilled,
}
use telroi_ai_app.Db.{
  debit, tenant_of, ledger_entry, LedgerRow, wallet_of, Env, Wallet, Db, NumberSubscription,
}
use telroi_ai_app.Wallet.Spend.{fx_stamp, can_spend, int, positive_integer}
use Prim.Native.String.{◌++◌}
use mathlib.Core.Option.{some-injective}
use telroi_ai_app.Billing.Priced.{IsRenewalPrice, own_prices, renewal_amount-IsPrice}

-- What holds of the amount and the state if the renewal is charged.
abbrev pub OnCharge : (ℤ → Db → Type 0) → Result Renewal × Db → Type 0
OnCharge P (ok (Renewal.charged a), t) = P a t
OnCharge P (ok Renewal.suspended, t) = Unit
OnCharge P (ok Renewal.skipped, t) = Unit
OnCharge P (err e, t) = Unit

-- The wallet has paid the amount, the ledger has the cycle's debit on top, and the subscription has
-- its dates moved.
abbrev pub IsRenewed : ℕ → NumberSubscription → Wallet → Db → ℤ → Db → Type 0
IsRenewed now sub w db a t =
    (v : Wallet) × (row : LedgerRow) × (wallet_of sub.tenant_id t ≡ some v)
    × (v.balance_minor ≡ w.balance_minor -ℤ a)
    × (t.ledger ≡ row ∷ db.ledger)
    × (row.amount_minor ≡ a)
    × (ledger_entry (number_cycle_ref now sub) debit t ≡ some row)
    × (t.number_subscriptions
        ≡ update_where (λ s. s.id == sub.id)
            (λ s. record s {
              last_billed_at = some now;
              next_billing_at = sub.next_billing_at + 30 * day_ms;
            })
            db.number_subscriptions)

pub amount_of_int : (a : ℤ) (n : ℕ) → positive_integer (int a) ≡ some n → a ≡ pos n
amount_of_int (pos zero) n h = absurd (ground (arith, h))
amount_of_int (pos (suc k)) n h = ground (arith, h)
amount_of_int (negsuc k) n h = absurd (ground (arith, h))

collect_renewal-IsRenewed :
    (env : Env) (now : ℕ) (sub : NumberSubscription) (w : Wallet) (amount : ℤ) (db : Db)
    → wallet_of sub.tenant_id db ≡ some w
    → OnCharge
        (λ a t. (a ≡ amount) × IsRenewed now sub w db a t)
        (collect_renewal env now sub amount db)
unfolding collect_renewal
collect_renewal-IsRenewed env now sub w amount db own =
    let args = renewal_args now sub amount in
    elim (Result-cases (debit_in_transaction env args db)) [
      | inr (x, e) ↦ elim (Bool-cases (is_insufficient_funds x)) [
        | inl short ↦ rw (e, collect_renewal, short) tt
        | inr other ↦ rw (e, collect_renewal, other) tt
      ]
      | inl ((r, t), e) ↦ elim (Bool-cases r.idempotent) [
        | inl again ↦ rw (e, collect_renewal, again) tt
        | inr new ↦
            let what : NewDebit env args db r t ⊎ RepeatedDebit args db r t =
              rw e at (debit_within_limit env args db) in
            let same : SameAccounts db t = rw e at (debit-SameAccounts env args db) in
            elim what [
              | inr (n, p, row, v, dupe, found, b, i, again, rest) ↦
                  absurd (ground (arith, again, new))
              | inl (n, tenant, v, p, found, known, free, above, b, found', top, i, fresh) ↦
                  let worth : amount ≡ pos n = amount_of_int amount n p in
                  let mine : w ≡ v = some-injective w v (sym own ∙ found) in
                  rw (e, collect_renewal, new)
                    (
                      refl,
                      (
                        with_balance v r.balance_minor env.now,
                        debit_row env args n v (fx_stamp v.currency db),
                        found',
                        b
                            ∙ ap (λ x. v.balance_minor -ℤ x) (sym worth)
                            ∙ ap (λ x. x.balance_minor -ℤ amount) (sym mine),
                        top,
                        sym worth,
                        rw (top, eq_refl (number_cycle_ref now sub)) refl,
                        ap
                            (update_where (λ s. s.id == sub.id)
                              (λ s. record s {
                                last_billed_at = some now;
                                next_billing_at = add_days 30 sub.next_billing_at;
                              }))
                            same.2,
                      ),
                    )
            ]
      ]
    ]

renew_unbilled-IsRenewed :
    (env : Env) (now : ℕ) (sub : NumberSubscription) (read w : Wallet) (amount : ℤ) (seen db : Db)
    → wallet_of sub.tenant_id db ≡ some w
    → OnCharge
        (λ a t. (a ≡ amount) × IsRenewed now sub w db a t)
        (renew_unbilled env now sub read amount seen db)
unfolding renew_unbilled
renew_unbilled-IsRenewed env now sub read w amount seen db own =
    elim (Bool-cases (can_spend (tenant_of sub.tenant_id seen) read.balance_minor amount)) [
      | inl may ↦ rw may (collect_renewal-IsRenewed env now sub w amount db own)
      | inr short ↦ elim (Bool-cases (is_postpaid (tenant_of sub.tenant_id seen))) [
        | inl postpaid ↦ rw (short, postpaid) tt
        | inr prepaid ↦ rw (short, prepaid) tt
      ]
    ]

OnCharge-imp :
    (P Q : ℤ → Db → Type 0) (r : Result Renewal × Db)
    → ((a : ℤ) (t : Db) → P a t → Q a t)
    → OnCharge P r
    → OnCharge Q r
OnCharge-imp P Q (ok (Renewal.charged a), t) k h = k a t h
OnCharge-imp P Q (ok Renewal.suspended, t) k h = tt
OnCharge-imp P Q (ok Renewal.skipped, t) k h = tt
OnCharge-imp P Q (err e, t) k h = tt

renew-charges :
    (rates : BillingRates) (env : Env) (now : ℕ) (sub : NumberSubscription) (read w : Wallet)
    (seen db : Db)
    → wallet_of sub.tenant_id seen ≡ some read
    → wallet_of sub.tenant_id db ≡ some w
    → OnCharge
        (λ a t. (a ≡ renewal_amount rates read.currency sub) × IsRenewed now sub w db a t)
        (renew_subscription rates env now sub seen db)
unfolding renew_subscription
renew-charges rates env now sub read w seen db found own =
    let amount = renewal_amount rates read.currency sub in
    elim (Option-cases (ledger_entry (number_cycle_ref now sub) debit seen)) [
      | inr (row, dupe) ↦ rw (found, dupe, renew_subscription) tt
      | inl new ↦
          rw (found, new, renew_subscription)
            (renew_unbilled-IsRenewed env now sub read w amount seen db own)
    ]

-- A renewal that is charged takes the price of the number and of each of its channels, at least one,
-- at the workspace's own rates where it has them and in the wallet's currency, off the wallet as it
-- is when the debit meets it, whatever happened since the reads; it puts one debit of that amount on
-- the ledger, under the cycle's reference, and moves the subscription's next date by thirty days. A
-- price of the number's own in the inventory plays no part.
pub renew-IsRenewed :
    (rates : BillingRates) (env : Env) (now : ℕ) (sub : NumberSubscription) (read w : Wallet)
    (seen db : Db)
    → wallet_of sub.tenant_id seen ≡ some read
    → wallet_of sub.tenant_id db ≡ some w
    → OnCharge
        (λ a t.
          IsRenewalPrice rates read.currency sub (own_prices sub.tenant_id rates.overrides) a
          × IsRenewed now sub w db a t)
        (renew_subscription rates env now sub seen db)
renew-IsRenewed rates env now sub read w seen db found own =
    let price = renewal_amount-IsPrice rates read.currency sub in
    let prices = own_prices sub.tenant_id rates.overrides in
    OnCharge-imp _ _ (renew_subscription rates env now sub seen db)
      (λ a t h. (subst (IsRenewalPrice rates read.currency sub prices) (sym h.0) price, h.1))
      (renew-charges rates env now sub read w seen db found own)

-- A second renewal of a charged subscription on the same day, at whatever rates, that reads the
-- state after the first is skipped, and changes nothing of the state that it meets.
pub renew_twice :
    (rates rates' : BillingRates) (env env' : Env) (now now' : ℕ) (sub : NumberSubscription)
    (read w : Wallet) (a : ℤ) (seen db t u : Db)
    → wallet_of sub.tenant_id seen ≡ some read
    → wallet_of sub.tenant_id db ≡ some w
    → iso_date now ≡ iso_date now'
    → renew_subscription rates env now sub seen db ≡ (ok (Renewal.charged a), t)
    → renew_subscription rates' env' now' sub t u ≡ (ok Renewal.skipped, u)
unfolding renew_subscription
renew_twice rates rates' env env' now now' sub read w a seen db t u found own day done =
    let (_, (v, row, paid, _, _, _, billed, _)) =
      rw done at (renew-charges rates env now sub read w seen db found own) in
    let billed' : ledger_entry (number_cycle_ref now' sub) debit t ≡ some row =
      subst (λ d. ledger_entry ("numbill_" ++ sub.id ++ "_" ++ d) debit t ≡ some row) day billed in
    rw (paid, renew_subscription, billed') refl
