-- ===== src/Wallet/Conservation.antt =====
-- The operations of server/utils/wallet.ts, against the sums of the ledger.
use telroi_ai_app.Base.{
  Option-cases, inl, inr, or_else, ℕ, ◌-◌, zero, suc, ◌≡◌, refl, Option, some, none, String, ◌==◌,
  arith,
}
use telroi_ai_app.Base.Int.{ℤ, pos, ◌+ℤ◌, ◌-ℤ◌, neg, int_laws}
use telroi_ai_app.Base.Rows.{All-find}
use telroi_ai_app.Base.Tx.{Ensures, Ensures-bind, Ensures-imp}
use telroi_ai_app.Db.{
  AutoTopupSettings, Tenant, Wallet, LedgerRow, Db, Env, insert_ledger, set_balance, wallet_of,
}
use telroi_ai_app.AutoTopup.Queue.{SameBooks, enqueue-SameBooks, cancel-SameBooks}
use telroi_ai_app.Wallet.Spend.{positive_integer, fx_stamp}
use telroi_ai_app.Wallet.Debit.{
  DebitArgs, move_debit, card_of, trigger_input, enabled_settings, trigger_settings,
  trigger_auto_topup, fresh_debit, debit_in_transaction, debit_row,
}
use telroi_ai_app.Wallet.Credit.{
  vat_row, CreditArgs, fresh_credit, credit_in_transaction, cancel_recovered, credit_vat,
  vat_rate_of, credit_row,
}
use telroi_ai_app.Wallet.Balance.{
  IsBalanced, WalletBalanced, ledger_total, post-WalletBalanced, note-IsBalanced,
}

-- A wallet that a select finds is balanced.
found_balanced :
    (tenant_id : String) (db : Db) (w : Wallet)
    → IsBalanced db
    → wallet_of tenant_id db ≡ some w
    → w.balance_minor ≡ ledger_total w.id db.ledger
found_balanced tenant_id db w h e =
    All-find (WalletBalanced db.ledger) (λ v. v.tenant_id == tenant_id) db.wallets w h e

debited : (b t : ℤ) (n : ℕ) → b ≡ t → b -ℤ pos n ≡ neg (pos n) +ℤ t
debited b t n e = rw e (omega int_laws)

move_debit-IsBalanced :
    (env : Env) (args : DebitArgs) (amount : ℕ) (w : Wallet) (db : Db)
    → IsBalanced db
    → w.balance_minor ≡ ledger_total w.id db.ledger
    → Ensures (λ _ t. IsBalanced t) (move_debit env args amount w db)
unfolding move_debit
move_debit-IsBalanced env args amount w db h e = ground (
  arith,
  post-WalletBalanced (debit_row env args amount w (fx_stamp w.currency db))
      (w.balance_minor -ℤ pos amount) env.now db.ledger db.wallets h
      (debited w.balance_minor (ledger_total w.id db.ledger) amount e),
)

trigger_settings-SameBooks :
    (env : Env) (w : Wallet) (row : LedgerRow) (s : Option AutoTopupSettings) (db : Db)
    → Ensures (λ _ t. SameBooks db t) (trigger_settings env w row s db)
unfolding trigger_settings
trigger_settings-SameBooks env w row none db = (refl, refl, refl, refl, refl)
trigger_settings-SameBooks env w row (some s) db =
    elim (Option-cases (card_of (or_else s.payment_method_id "") row.tenant_id db)) [
      | inl absent ↦ ground arith
      | inr (card, e) ↦ ground (arith, enqueue-SameBooks env (trigger_input row s card w) db)
    ]

pub trigger-SameBooks :
    (env : Env) (tenant : Tenant) (w : Wallet) (row : LedgerRow) (db : Db)
    → Ensures (λ _ t. SameBooks db t) (trigger_auto_topup env tenant w row db)
unfolding trigger_auto_topup
trigger-SameBooks env tenant w row db =
    ground (arith, trigger_settings-SameBooks env w row (enabled_settings row.tenant_id db) db)

-- The same wallets and the same ledger are as balanced.
SameBooks-IsBalanced : (s t : Db) → IsBalanced s → SameBooks s t → IsBalanced t
SameBooks-IsBalanced s t h same = rw (same.0, same.1) h

fresh_debit-IsBalanced :
    (env : Env) (args : DebitArgs) (amount : ℕ) (w : Wallet) (db : Db)
    → IsBalanced db
    → w.balance_minor ≡ ledger_total w.id db.ledger
    → Ensures (λ _ t. IsBalanced t) (fresh_debit env args amount w db)
unfolding fresh_debit
fresh_debit-IsBalanced env args amount w db h e =
    Ensures-bind (λ _ t. IsBalanced t) (λ _ t. IsBalanced t) (move_debit env args amount w) _ db
      (move_debit-IsBalanced env args amount w db h e)
      (λ m t balanced.
        Ensures-bind (λ _ u. IsBalanced u) (λ _ u. IsBalanced u) (trigger_auto_topup env m.0 w m.1)
          _ t
          (Ensures-imp (λ _ u. SameBooks t u) (λ _ u. IsBalanced u) _
            (trigger-SameBooks env m.0 w m.1 t)
            (λ _ u same. SameBooks-IsBalanced t u balanced same))
          (λ _ u done. done))

-- A debit, refused or repeated or new, with or without a top-up queued, leaves every balance equal
-- to the sum of its ledger rows.
pub debit-IsBalanced :
    (env : Env) (args : DebitArgs) (db : Db)
    → IsBalanced db
    → Ensures (λ _ t. IsBalanced t) (debit_in_transaction env args db)
unfolding debit_in_transaction
debit-IsBalanced env args db h = elim (Option-cases (positive_integer args.amount_minor)) [
  | inl bad ↦ ground arith
  | inr (n, p) ↦ elim (Option-cases (wallet_of args.tenant_id db)) [
    | inl absent ↦ ground arith
    | inr (w, e) ↦
        ground
          (arith, fresh_debit-IsBalanced env args n w db h (found_balanced args.tenant_id db w h e))
  ]
]

credited : (b t : ℤ) (n : ℕ) → b ≡ t → b +ℤ pos n ≡ pos n +ℤ t
credited b t n e = rw e (omega int_laws)

pub cancel_recovered-SameBooks :
    (env : Env) (tenant_id : String) (after : ℤ) (db : Db)
    → SameBooks db (cancel_recovered env tenant_id after db)
unfolding cancel_recovered
cancel_recovered-SameBooks env tenant_id after db =
    ground (arith, cancel-SameBooks env tenant_id "balance_recovered" none db)

-- The movement of a credit, before its tax row.
credit_row-IsBalanced :
    (env : Env) (args : CreditArgs) (amount vat_minor : ℕ) (rate : ℤ) (w : Wallet) (db : Db)
    → IsBalanced db
    → w.balance_minor ≡ ledger_total w.id db.ledger
    → let after = w.balance_minor +ℤ pos (amount - vat_minor) in
      IsBalanced (
        insert_ledger
          (credit_row env args amount vat_minor rate w after (fx_stamp w.currency db))
          (cancel_recovered env args.tenant_id after (set_balance w.id after env.now db)))
credit_row-IsBalanced env args amount vat_minor rate w db h e =
    let after = w.balance_minor +ℤ pos (amount - vat_minor) in
    let same =
      cancel_recovered-SameBooks env args.tenant_id after (set_balance w.id after env.now db) in
    rw (same.0, same.1)
      (post-WalletBalanced
        (credit_row env args amount vat_minor rate w after (fx_stamp w.currency db)) after env.now
        db.ledger db.wallets h
        (credited w.balance_minor (ledger_total w.id db.ledger) (amount - vat_minor) e))

fresh_credit-IsBalanced :
    (env : Env) (args : CreditArgs) (amount vat_minor : ℕ) (rate : ℤ) (w : Wallet) (db : Db)
    → IsBalanced db
    → w.balance_minor ≡ ledger_total w.id db.ledger
    → IsBalanced (fresh_credit env args amount vat_minor rate w db)
unfolding fresh_credit
fresh_credit-IsBalanced env args amount zero rate w db h e =
    credit_row-IsBalanced env args amount zero rate w db h e
fresh_credit-IsBalanced env args amount (suc v) rate w db h e =
    let after = w.balance_minor +ℤ pos (amount - suc v) in
    let fx = fx_stamp w.currency db in
    note-IsBalanced (vat_row env args amount (suc v) w after fx)
      (insert_ledger (credit_row env args amount (suc v) rate w after fx)
        (cancel_recovered env args.tenant_id after (set_balance w.id after env.now db)))
      (credit_row-IsBalanced env args amount (suc v) rate w db h e) refl

-- A credit, refused or repeated or new, with or without tax, leaves every balance equal to the sum
-- of its ledger rows.
pub credit-IsBalanced :
    (env : Env) (args : CreditArgs) (db : Db)
    → IsBalanced db
    → Ensures (λ _ t. IsBalanced t) (credit_in_transaction env args db)
unfolding credit_in_transaction
credit-IsBalanced env args db h = elim (Option-cases (positive_integer args.amount_minor)) [
  | inl bad ↦ ground arith
  | inr (n, p) ↦ elim (Option-cases (wallet_of args.tenant_id db)) [
    | inl absent ↦ ground arith
    | inr (w, e) ↦ ground (
      arith,
      fresh_credit-IsBalanced env args n (credit_vat args n w db) (vat_rate_of args.tenant_id db) w
          db h (found_balanced args.tenant_id db w h e),
    )
  ]
]
