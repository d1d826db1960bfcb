-- ===== src/Wallet/Accounts.antt =====
-- The movements of server/utils/wallet.ts, against the workspaces, their invoices, their
-- numbers and the prices.
use telroi_ai_app.Base.{
  or_else, Option-cases, ℕ, zero, suc, ◌≡◌, refl, ◌∙◌, inl, inr, Option, none, some, arith,
}
use telroi_ai_app.Wallet.Spend.{positive_integer}
use telroi_ai_app.Base.Int.{ℤ}
use telroi_ai_app.Base.Tx.{Ensures-bind, Ensures}
use telroi_ai_app.Db.{wallet_of, AutoTopupSettings, LedgerRow, Tenant, Wallet, Env, Db}
use telroi_ai_app.AutoTopup.Attempts.{
  EnqueueInput, cancel_unsent_auto_topups, enqueue_auto_topup_attempt,
}
use telroi_ai_app.Wallet.Credit.{
  vat_rate_of, credit_vat, CreditArgs, apply_credit, cancel_recovered, credit_in_transaction,
  fresh_credit,
}
use telroi_ai_app.Wallet.Debit.{
  trigger_input, card_of, enabled_settings, DebitArgs, debit_in_transaction, fresh_debit,
  move_debit, trigger_auto_topup, trigger_settings,
}

-- No workspace, no invoice, no number subscription and no price has changed.
abbrev pub SameAccounts : Db → Db → Type 0
SameAccounts s t =
    (t.invoices ≡ s.invoices)
    × (t.tenants ≡ s.tenants)
    × (t.number_subscriptions ≡ s.number_subscriptions)
    × (t.pricing ≡ s.pricing)
    × (t.pricing_overrides ≡ s.pricing_overrides)

pub SameAccounts-trans : (s t u : Db) → SameAccounts s t → SameAccounts t u → SameAccounts s u
SameAccounts-trans s t u h k = (k.0 ∙ h.0, k.1 ∙ h.1, k.2 ∙ h.2, k.3 ∙ h.3, k.4 ∙ h.4)

enqueue-SameAccounts :
    (env : Env) (input : EnqueueInput) (db : Db)
    → Ensures (λ _ t. SameAccounts db t) (enqueue_auto_topup_attempt env input db)
unfolding enqueue_auto_topup_attempt
enqueue-SameAccounts env input db = ground arith

move_debit-SameAccounts :
    (env : Env) (args : DebitArgs) (amount : ℕ) (w : Wallet) (db : Db)
    → Ensures (λ _ t. SameAccounts db t) (move_debit env args amount w db)
unfolding move_debit
move_debit-SameAccounts env args amount w db = ground arith

trigger_settings-SameAccounts :
    (env : Env) (w : Wallet) (row : LedgerRow) (s : Option AutoTopupSettings) (db : Db)
    → Ensures (λ _ t. SameAccounts db t) (trigger_settings env w row s db)
unfolding trigger_settings
trigger_settings-SameAccounts env w row none db = (refl, refl, refl, refl, refl)
trigger_settings-SameAccounts env w row (some s) db =
    elim (Option-cases (card_of (or_else s.payment_method_id "") row.tenant_id db)) [
      | inl absent ↦ ground arith
      | inr (card, e) ↦ ground (arith, enqueue-SameAccounts env (trigger_input row s card w) db)
    ]

trigger-SameAccounts :
    (env : Env) (tenant : Tenant) (w : Wallet) (row : LedgerRow) (db : Db)
    → Ensures (λ _ t. SameAccounts db t) (trigger_auto_topup env tenant w row db)
unfolding trigger_auto_topup
trigger-SameAccounts env tenant w row db =
    ground (arith, trigger_settings-SameAccounts env w row (enabled_settings row.tenant_id db) db)

fresh_debit-SameAccounts :
    (env : Env) (args : DebitArgs) (amount : ℕ) (w : Wallet) (db : Db)
    → Ensures (λ _ t. SameAccounts db t) (fresh_debit env args amount w db)
unfolding fresh_debit
fresh_debit-SameAccounts env args amount w db =
    Ensures-bind (λ _ t. SameAccounts db t) (λ _ t. SameAccounts db t)
      (move_debit env args amount w) _ db (move_debit-SameAccounts env args amount w db)
      (λ m t moved.
        Ensures-bind (λ _ u. SameAccounts t u) (λ _ u. SameAccounts db u)
          (trigger_auto_topup env m.0 w m.1) _ t (trigger-SameAccounts env m.0 w m.1 t)
          (λ _ u same. SameAccounts-trans db t u moved same))

pub debit-SameAccounts :
    (env : Env) (args : DebitArgs) (db : Db)
    → Ensures (λ _ t. SameAccounts db t) (debit_in_transaction env args db)
unfolding debit_in_transaction
debit-SameAccounts env args db = elim (Option-cases (positive_integer args.amount_minor)) [
  | inl bad ↦ ground arith
  | inr (n, p) ↦ elim (Option-cases (wallet_of args.tenant_id db)) [
    | inl absent ↦ ground arith
    | inr (w, e) ↦ ground (arith, fresh_debit-SameAccounts env args n w db)
  ]
]

fresh_credit-SameAccounts :
    (env : Env) (args : CreditArgs) (amount vat_minor : ℕ) (rate : ℤ) (w : Wallet) (db : Db)
    → SameAccounts db (fresh_credit env args amount vat_minor rate w db)
unfolding fresh_credit cancel_recovered cancel_unsent_auto_topups
fresh_credit-SameAccounts env args amount zero rate w db = ground arith
fresh_credit-SameAccounts env args amount (suc v) rate w db = ground arith

pub credit-SameAccounts :
    (env : Env) (args : CreditArgs) (db : Db)
    → Ensures (λ _ t. SameAccounts db t) (credit_in_transaction env args db)
unfolding credit_in_transaction apply_credit
credit-SameAccounts env args db = elim (Option-cases (positive_integer args.amount_minor)) [
  | inl bad ↦ ground arith
  | inr (n, p) ↦ elim (Option-cases (wallet_of args.tenant_id db)) [
    | inl absent ↦ ground arith
    | inr (w, e) ↦ ground (
      arith,
      fresh_credit-SameAccounts env args n (credit_vat args n w db) (vat_rate_of args.tenant_id db)
          w db,
    )
  ]
]
