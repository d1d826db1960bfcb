-- ===== src/AutoTopup/Keeps.antt =====
-- The operations on the attempts of server/utils/auto-topup*.ts, and the debits and credits of
-- server/utils/wallet.ts, against the marks of what was sent.
use telroi_ai_app.Base.{
  zero, suc, ◌-◌, ℕ, ◌≡◌, refl, Option, some, none, String, arith, Option-cases, inl, inr, or_else,
}
use telroi_ai_app.Base.Int.{pos, ◌+ℤ◌, ℤ}
use telroi_ai_app.Base.Tx.{Ensures, Ensures-bind}
use telroi_ai_app.Db.{set_balance, Tenant, Wallet, LedgerRow, AutoTopupSettings, Db, Env, wallet_of}
use telroi_ai_app.AutoTopup.Attempts.{
  EnqueueInput, enqueue_auto_topup_attempt, cancel_unsent_auto_topups, is_cancellable,
  cancelled_attempt, new_attempt,
}
use telroi_ai_app.AutoTopup.Sent.{StillSent, IsFreshAttempt, update-StillSent, cons-StillSent}
use telroi_ai_app.Wallet.Spend.{positive_integer}
use telroi_ai_app.Wallet.Debit.{
  DebitArgs, move_debit, trigger_settings, trigger_auto_topup, fresh_debit, debit_in_transaction,
  card_of, trigger_input, enabled_settings,
}
use telroi_ai_app.Wallet.Credit.{
  vat_rate_of, credit_vat, CreditArgs, credit_in_transaction, fresh_credit, cancel_recovered,
}

pub StillSent-refl : (db : Db) → StillSent db db
StillSent-refl db id h = h

pub StillSent-trans : (s t u : Db) → StillSent s t → StillSent t u → StillSent s u
StillSent-trans s t u f g id h = g id (f id h)

-- The attempts are the same rows.
pub StillSent-of_eq : (s t : Db) → t.auto_topup_attempts ≡ s.auto_topup_attempts → StillSent s t
StillSent-of_eq s t e id h = rw e h

pub cancel-StillSent :
    (env : Env) (tenant_id reason : String) (attempt_id : Option String) (db : Db)
    → StillSent db (cancel_unsent_auto_topups env tenant_id reason attempt_id db)
unfolding cancel_unsent_auto_topups
cancel-StillSent env tenant_id reason attempt_id db =
    update-StillSent (is_cancellable db.payments tenant_id attempt_id)
      (cancelled_attempt reason env.now) db (λ a. (refl, omega arith))

pub enqueue-StillSent :
    (env : Env) (input : EnqueueInput) (db : Db)
    → IsFreshAttempt env db
    → Ensures (λ _ t. StillSent db t) (enqueue_auto_topup_attempt env input db)
unfolding enqueue_auto_topup_attempt
enqueue-StillSent env input db fresh =
    ground (arith, cons-StillSent env (new_attempt env input) db refl fresh, StillSent-refl db)

trigger_settings-StillSent :
    (env : Env) (w : Wallet) (row : LedgerRow) (s : Option AutoTopupSettings) (db : Db)
    → IsFreshAttempt env db
    → Ensures (λ _ t. StillSent db t) (trigger_settings env w row s db)
unfolding trigger_settings
trigger_settings-StillSent env w row none db fresh = StillSent-refl db
trigger_settings-StillSent env w row (some s) db fresh =
    elim (Option-cases (card_of (or_else s.payment_method_id "") row.tenant_id db)) [
      | inl absent ↦ ground (arith, StillSent-refl db)
      | inr (card, e) ↦
          ground
            (arith, StillSent-refl db, enqueue-StillSent env (trigger_input row s card w) db fresh)
    ]

trigger-StillSent :
    (env : Env) (tenant : Tenant) (w : Wallet) (row : LedgerRow) (db : Db)
    → IsFreshAttempt env db
    → Ensures (λ _ t. StillSent db t) (trigger_auto_topup env tenant w row db)
unfolding trigger_auto_topup
trigger-StillSent env tenant w row db fresh = ground (
  arith,
  StillSent-refl db,
  trigger_settings-StillSent env w row (enabled_settings row.tenant_id db) db fresh,
)

move_debit-attempts :
    (env : Env) (args : DebitArgs) (amount : ℕ) (w : Wallet) (db : Db)
    → Ensures
        (λ _ t. t.auto_topup_attempts ≡ db.auto_topup_attempts)
        (move_debit env args amount w db)
unfolding move_debit
move_debit-attempts env args amount w db = ground arith

fresh_debit-StillSent :
    (env : Env) (args : DebitArgs) (amount : ℕ) (w : Wallet) (db : Db)
    → IsFreshAttempt env db
    → Ensures (λ _ t. StillSent db t) (fresh_debit env args amount w db)
unfolding fresh_debit
fresh_debit-StillSent env args amount w db fresh =
    Ensures-bind (λ _ t. t.auto_topup_attempts ≡ db.auto_topup_attempts) (λ _ u. StillSent db u)
      (move_debit env args amount w) _ db (move_debit-attempts env args amount w db)
      (λ m t same.
        Ensures-bind (λ _ u. StillSent t u) (λ _ u. StillSent db u)
          (trigger_auto_topup env m.0 w m.1) _ t (trigger-StillSent env m.0 w m.1 t (rw same fresh))
          (λ _ u later. StillSent-trans db t u (StillSent-of_eq db t same) later))

pub debit-StillSent :
    (env : Env) (args : DebitArgs) (db : Db)
    → IsFreshAttempt env db
    → Ensures (λ _ t. StillSent db t) (debit_in_transaction env args db)
unfolding debit_in_transaction
debit-StillSent env args db fresh = elim (Option-cases (positive_integer args.amount_minor)) [
  | inl bad ↦ ground arith
  | inr (n, p) ↦ elim (Option-cases (wallet_of args.tenant_id db)) [
    | inl absent ↦ ground arith
    | inr (w, e) ↦ ground (arith, StillSent-refl db, fresh_debit-StillSent env args n w db fresh)
  ]
]

cancel_recovered-StillSent :
    (env : Env) (tenant_id : String) (after : ℤ) (db : Db)
    → StillSent db (cancel_recovered env tenant_id after db)
unfolding cancel_recovered
cancel_recovered-StillSent env tenant_id after db =
    ground (arith, StillSent-refl db, cancel-StillSent env tenant_id "balance_recovered" none db)

fresh_credit-StillSent :
    (env : Env) (args : CreditArgs) (amount vat_minor : ℕ) (rate : ℤ) (w : Wallet) (db : Db)
    → StillSent db (fresh_credit env args amount vat_minor rate w db)
unfolding fresh_credit
fresh_credit-StillSent env args amount zero rate w db =
    let after = w.balance_minor +ℤ pos (amount - 0) in
    cancel_recovered-StillSent env args.tenant_id after (set_balance w.id after env.now db)
fresh_credit-StillSent env args amount (suc v) rate w db =
    let after = w.balance_minor +ℤ pos (amount - suc v) in
    cancel_recovered-StillSent env args.tenant_id after (set_balance w.id after env.now db)

pub credit-StillSent :
    (env : Env) (args : CreditArgs) (db : Db)
    → Ensures (λ _ t. StillSent db t) (credit_in_transaction env args db)
unfolding credit_in_transaction
credit-StillSent env args db = elim (Option-cases (positive_integer args.amount_minor)) [
  | inl bad ↦ ground arith
  | inr (n, p) ↦ elim (Option-cases (wallet_of args.tenant_id db)) [
    | inl absent ↦ ground arith
    | inr (w, e) ↦ ground (
      arith,
      StillSent-refl db,
      fresh_credit-StillSent env args n (credit_vat args n w db) (vat_rate_of args.tenant_id db) w
          db,
    )
  ]
]
