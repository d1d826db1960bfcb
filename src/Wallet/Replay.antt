-- ===== src/Wallet/Replay.antt =====
-- A credit of server/utils/wallet.ts that is sent again, as payment webhooks are.
use telroi_ai_app.Base.{
  ℕ, zero, suc, ◌-◌, ◌≡◌, refl, ◌∙◌, inl, inr, Option, some, none, String, eq_refl, arith,
  Option-cases, Bool-cases, true,
}
use telroi_ai_app.Base.Int.{ℤ, pos, ◌+ℤ◌, eqb_ℤ_refl}
use telroi_ai_app.Base.Tx.{Ensures, ok}
use telroi_ai_app.Db.{credit, Wallet, LedgerRow, Db, Env, wallet_of, ledger_entry, set_balance}
use telroi_ai_app.Wallet.Spend.{positive_integer, fx_stamp}
use telroi_ai_app.Wallet.Credit.{
  CreditArgs, Credited, credit_row, credit_vat, vat_rate_of, fresh_credit, apply_credit,
  credit_in_transaction, same_credit,
}
use telroi_ai_app.Wallet.Limits.{with_balance, wallet_of-set_balance}
use telroi_ai_app.Wallet.Conservation.{cancel_recovered-SameBooks}
use telroi_ai_app.Wallet.Steps.{credit_step}

-- What is left of a credit that went through: the wallet with its balance, and a credit of the
-- reference for the net amount.
abbrev pub IsCredited : CreditArgs → Credited → Db → Type 0
IsCredited args r t =
    (n : ℕ) × (w : Wallet) × (row : LedgerRow) × (positive_integer args.amount_minor ≡ some n)
    × (wallet_of args.tenant_id t ≡ some w)
    × (w.balance_minor ≡ r.balance_minor)
    × (ledger_entry args.reference credit t ≡ some row)
    × (same_credit row w args.tenant_id (n - credit_vat args n w t) ≡ true)

-- The answer to a repeated credit.
abbrev pub repeated_credit : Credited → Credited
repeated_credit r = record { balance_minor = r.balance_minor; idempotent = true; vat_minor = 0 }

replay_of :
    (env : Env) (args : CreditArgs) (r : Credited) (t : Db)
    → IsCredited args r t
    → credit_in_transaction env args t ≡ ok (repeated_credit r, t)
unfolding apply_credit
replay_of env args r t (n, w, row, p, e, b, x, same) =
    credit_step env args n w t p e ∙ rw (x, apply_credit) (rw (same, b))

-- The rows of a new credit: its own is the one that its reference finds, above it at most the tax.
ledger_entry-fresh :
    (env : Env) (args : CreditArgs) (n vat_minor : ℕ) (rate : ℤ) (w : Wallet) (db : Db)
    → ledger_entry args.reference credit (fresh_credit env args n vat_minor rate w db)
      ≡ some (
          credit_row env args n vat_minor rate w
            (w.balance_minor +ℤ pos (n - vat_minor))
            (fx_stamp w.currency db))
unfolding fresh_credit
ledger_entry-fresh env args n zero rate w db = ground (arith, eq_refl args.reference)
ledger_entry-fresh env args n (suc v) rate w db = ground (arith, eq_refl args.reference)

-- The wallet of a new credit.
wallet_of-fresh :
    (env : Env) (args : CreditArgs) (n vat_minor : ℕ) (rate : ℤ) (w : Wallet) (db : Db)
    → wallet_of args.tenant_id db ≡ some w
    → wallet_of args.tenant_id (fresh_credit env args n vat_minor rate w db)
      ≡ some (with_balance w (w.balance_minor +ℤ pos (n - vat_minor)) env.now)
unfolding fresh_credit
wallet_of-fresh env args n zero rate w db h =
    let after = w.balance_minor +ℤ pos (n - 0) in
    rw ((cancel_recovered-SameBooks env args.tenant_id after (set_balance w.id after env.now db)).0)
      (wallet_of-set_balance args.tenant_id w after env.now db h)
wallet_of-fresh env args n (suc v) rate w db h =
    let after = w.balance_minor +ℤ pos (n - suc v) in
    rw ((cancel_recovered-SameBooks env args.tenant_id after (set_balance w.id after env.now db)).0)
      (wallet_of-set_balance args.tenant_id w after env.now db h)

-- The rates of a workspace do not change.
overrides-fresh :
    (env : Env) (args : CreditArgs) (n vat_minor : ℕ) (rate : ℤ) (w : Wallet) (db : Db)
    → (fresh_credit env args n vat_minor rate w db).pricing_overrides ≡ db.pricing_overrides
unfolding fresh_credit
overrides-fresh env args n zero rate w db =
    let after = w.balance_minor +ℤ pos (n - 0) in
    (cancel_recovered-SameBooks env args.tenant_id after (set_balance w.id after env.now db)).4
overrides-fresh env args n (suc v) rate w db =
    let after = w.balance_minor +ℤ pos (n - suc v) in
    (cancel_recovered-SameBooks env args.tenant_id after (set_balance w.id after env.now db)).4

vat_rate_of-eq :
    (tenant_id : String) (s t : Db)
    → t.pricing_overrides ≡ s.pricing_overrides
    → vat_rate_of tenant_id t ≡ vat_rate_of tenant_id s
vat_rate_of-eq tenant_id s t e = rw (e, vat_rate_of)

apply_credit-IsCredited :
    (env : Env) (args : CreditArgs) (n : ℕ) (w : Wallet) (earlier : Option LedgerRow) (db : Db)
    → positive_integer args.amount_minor ≡ some n
    → wallet_of args.tenant_id db ≡ some w
    → ledger_entry args.reference credit db ≡ earlier
    → Ensures (IsCredited args) (apply_credit env args n w earlier db)
unfolding apply_credit
apply_credit-IsCredited env args n w none db p e x =
    let v = credit_vat args n w db in
    let rate = vat_rate_of args.tenant_id db in
    let after = w.balance_minor +ℤ pos (n - v) in
    (
      n,
      with_balance w after env.now,
      credit_row env args n v rate w after (fx_stamp w.currency db),
      p,
      wallet_of-fresh env args n v rate w db e,
      refl,
      ledger_entry-fresh env args n v rate w db,
      rw
          (vat_rate_of-eq args.tenant_id db (fresh_credit env args n v rate w db)
            (overrides-fresh env args n v rate w db))
          (rw (eq_refl w.id, eq_refl args.tenant_id, eqb_ℤ_refl (pos (n - v)))),
    )
apply_credit-IsCredited env args n w (some row) db p e x =
    elim (Bool-cases (same_credit row w args.tenant_id (n - credit_vat args n w db))) [
      | inl same ↦ rw same (n, w, row, p, e, refl, x, same)
      | inr other ↦ rw other tt
    ]

credit-IsCredited :
    (env : Env) (args : CreditArgs) (db : Db)
    → Ensures (IsCredited args) (credit_in_transaction env args db)
credit-IsCredited env args db = elim (Option-cases (positive_integer args.amount_minor)) [
  | inl bad ↦ unfold credit_in_transaction in ground arith
  | inr (n, p) ↦ elim (Option-cases (wallet_of args.tenant_id db)) [
    | inl absent ↦ unfold credit_in_transaction in ground arith
    | inr (w, e) ↦
        rw (credit_step env args n w db p e)
          (apply_credit-IsCredited env args n w (ledger_entry args.reference credit db) db p e refl)
  ]
]

-- A credit that went through, sent again with the same arguments, answers with the same balance,
-- marked idempotent, and changes nothing: a payment webhook that is retried credits once.
pub credit_twice :
    (env env' : Env) (args : CreditArgs) (r : Credited) (db t : Db)
    → credit_in_transaction env args db ≡ ok (r, t)
    → credit_in_transaction env' args t ≡ ok (repeated_credit r, t)
credit_twice env env' args r db t done =
    replay_of env' args r t (rw done at (credit-IsCredited env args db))
