-- ===== src/Billing/Spared.antt =====
-- Renewals of server/utils/billing.ts for a postpaid workspace, and plan fees that cannot be paid.
use telroi_ai_app.Wallet.Accounts.{debit-SameAccounts, SameAccounts}
use telroi_ai_app.Base.{
  ℕ, zero, suc, String, ◌≡◌, refl, ap, ◌∙◌, inl, inr, true, false, Option, none, some, Option-cases,
  Bool-cases, is_present, ◌==◌,
}
use telroi_ai_app.Base.Int.{ℤ, pos, negsuc}
use telroi_ai_app.Base.Calendar.{add_days}
use telroi_ai_app.Base.Rows.{find-update_keeps, find}
use telroi_ai_app.Billing.Renewals.{
  renewal_amount, number_cycle_ref, BillingRates, renewal_args, is_insufficient_funds,
  renew_unbilled, collect_renewal, renew_subscription, renewed,
}
use telroi_ai_app.Db.{
  wallet_of, tenant_of, Wallet, Tenant, Env, debit, SubscriptionStatus, ledger_entry, Db,
  NumberSubscription,
}
use telroi_ai_app.Wallet.Debit.{
  DebitArgs, trigger_auto_topup, earlier_debit, move_debit, fresh_debit, apply_debit,
  debit_in_transaction,
}
use telroi_ai_app.Base.Tx.{Result-cases, ◌>>=◌, err, ok, Result, Error}
use mathlib.Core.Option
use telroi_ai_app.Wallet.Spend.{can_spend, int}

-- What an error is, if the transaction throws one.
abbrev Throws : {A : Type 0} → (Error → Type 0) → Result (A × Db) → Type 0
Throws P (ok p) = Unit
Throws P (err e) = P e

pub earlier_none :
    (reference : String) (db : Db)
    → ledger_entry reference debit db ≡ none
    → earlier_debit (some reference) db ≡ none
earlier_none reference db h = elim (Bool-cases (is_present (some reference))) [
  | inl given ↦ rw given h
  | inr empty ↦ rw empty refl
]

-- A postpaid workspace that may spend the amount is not short of it.
postpaid_debit_pays :
    (env : Env) (args : DebitArgs) (reference : String) (tenant : Tenant) (w : Wallet) (a : ℤ)
    (db : Db)
    → args.amount_minor ≡ int a
    → args.reference ≡ some reference
    → tenant_of args.tenant_id db ≡ some tenant
    → tenant.postpaid ≡ true
    → wallet_of args.tenant_id db ≡ some w
    → can_spend (some tenant) w.balance_minor a ≡ true
    → ledger_entry reference debit db ≡ none
    → Throws (λ e. is_insufficient_funds e ≡ false) (debit_in_transaction env args db)
unfolding debit_in_transaction apply_debit fresh_debit move_debit trigger_auto_topup
postpaid_debit_pays env args reference tenant w (negsuc n) db amount named known postpaid own may
      new =
    rw (amount) refl
postpaid_debit_pays env args reference tenant w (pos zero) db amount named known postpaid own may
      new =
    rw (amount) refl
postpaid_debit_pays env args reference tenant w (pos (suc n)) db amount named known postpaid own may
      new =
    let first = earlier_none reference db new in
    rw
      (
        amount, own, named, first, fresh_debit, move_debit, trigger_auto_topup, ◌>>=◌, known, may,
        postpaid,
      )
      tt

-- The status of a subscription.
abbrev pub status_in : String → Db → Option SubscriptionStatus
status_in id db = Option.map (λ s. s.status) (find (λ s. s.id == id) db.number_subscriptions)

renewed_keeps_status :
    (id : String) (now : ℕ) (sub : NumberSubscription) (db : Db)
    → status_in id (renewed now sub db) ≡ status_in id db
renewed_keeps_status id now sub db =
    find-update_keeps (λ s. s.id == id) (λ s. s.id == sub.id)
      (λ s. record s {
        last_billed_at = some now;
        next_billing_at = add_days 30 sub.next_billing_at;
      })
      (λ s. s.status) db.number_subscriptions (λ s. refl) (λ s. refl)

collect_renewal_keeps_status :
    (id : String) (env : Env) (now : ℕ) (sub : NumberSubscription) (amount : ℤ) (db : Db)
    → Throws
        (λ e. is_insufficient_funds e ≡ false)
        (debit_in_transaction env (renewal_args now sub amount) db)
    → status_in id (collect_renewal env now sub amount db).1 ≡ status_in id db
unfolding collect_renewal
collect_renewal_keeps_status id env now sub amount db pays =
    let args = renewal_args now sub amount in
    elim (Result-cases (debit_in_transaction env args db)) [
      | inl ((r, t), e) ↦
          let same : SameAccounts db t = rw e at (debit-SameAccounts env args db) in
          rw (e, collect_renewal)
            (renewed_keeps_status id now sub t
              ∙ ap (λ ss. Option.map (λ s. s.status) (find (λ s. s.id == id) ss)) same.2)
      | inr (x, e) ↦
          let other : is_insufficient_funds x ≡ false = rw e at pays in
          rw (e, collect_renewal, other) refl
    ]

-- A renewal of a number of a postpaid workspace, charged or not, leaves the status of every
-- subscription as it is, if no other transaction has changed the workspace's own row, its wallet and
-- the debit of this cycle between the reads and the debit.
pub renewal_spares_postpaid :
    (id : String) (rates : BillingRates) (env : Env) (now : ℕ) (sub : NumberSubscription)
    (tenant : Tenant) (seen db : Db)
    → tenant_of sub.tenant_id seen ≡ some tenant
    → tenant.postpaid ≡ true
    → tenant_of sub.tenant_id db ≡ tenant_of sub.tenant_id seen
    → wallet_of sub.tenant_id db ≡ wallet_of sub.tenant_id seen
    → ledger_entry (number_cycle_ref now sub) debit db
      ≡ ledger_entry (number_cycle_ref now sub) debit seen
    → status_in id (renew_subscription rates env now sub seen db).1 ≡ status_in id db
unfolding renew_subscription renew_unbilled
renewal_spares_postpaid id rates env now sub tenant seen db known postpaid same_t same_w same_l =
    elim (Option-cases (wallet_of sub.tenant_id seen)) [
      | inl gone ↦ rw (gone, renew_subscription) refl
      | inr (w, own) ↦ elim (Option-cases (ledger_entry (number_cycle_ref now sub) debit seen)) [
        | inr (row, dupe) ↦ rw (own, dupe, renew_subscription) refl
        | inl new ↦
            let amount = renewal_amount rates w.currency sub in
            elim (Bool-cases (can_spend (some tenant) w.balance_minor amount)) [
              | inr short ↦
                  rw (own, new, renew_subscription, renew_unbilled, known, short, postpaid) refl
              | inl may ↦
                  rw (own, new, renew_subscription, renew_unbilled, known, may)
                    (collect_renewal_keeps_status id env now sub amount db (
                      postpaid_debit_pays env (renewal_args now sub amount)
                        (number_cycle_ref now sub) tenant w amount db refl refl (same_t ∙ known)
                        postpaid (same_w ∙ own) may (same_l ∙ new)))
            ]
      ]
    ]
