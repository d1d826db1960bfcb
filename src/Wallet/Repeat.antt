-- ===== src/Wallet/Repeat.antt =====
-- A debit of server/utils/wallet.ts that is sent again under its reference.
use telroi_ai_app.Base.{
  List, sym, List, ◌∷◌, ◌⊎◌, ℕ, ◌≡◌, refl, ◌∙◌, inl, inr, Option, some, none, String, eq_refl,
  arith, is_present, true,
}
use telroi_ai_app.Base.Tx.{ok}
use telroi_ai_app.Db.{Wallet, Db, Env, LedgerRow, debit, wallet_of}
use telroi_ai_app.Wallet.Debit.{
  DebitArgs, Debited, debit_in_transaction, apply_debit, earlier_debit, debit_row,
}
use telroi_ai_app.Wallet.Limits.{NewDebit, RepeatedDebit, debit_within_limit, with_balance}
use telroi_ai_app.Wallet.Spend.{positive_integer, fx_stamp}
use telroi_ai_app.Wallet.Steps.{debit_step}

-- The answer to a repeated debit.
abbrev pub repeated : Debited → Debited
repeated r = record r { idempotent = true; auto_topup_attempt_id = none }

-- The row of a new debit is the one that its reference finds.
earlier_debit-new :
    (asked : Option String) (reference : String) (row : LedgerRow) (t : Db) {rows : List LedgerRow}
    → asked ≡ some reference
    → is_present (some reference) ≡ true
    → row.reference ≡ asked
    → row.kind ≡ debit
    → t.ledger ≡ row ∷ rows
    → earlier_debit asked t ≡ some row
earlier_debit-new none reference row t asks given named is_debit top = cc
earlier_debit-new (some s) reference row t asks given named is_debit top =
    rw top (ground (arith, eq_refl s))

repeat_of :
    (env : Env) (args : DebitArgs) (r : Debited) (amount : ℕ) (w : Wallet) (row : LedgerRow)
    (t : Db)
    → positive_integer args.amount_minor ≡ some amount
    → wallet_of args.tenant_id t ≡ some w
    → earlier_debit args.reference t ≡ some row
    → w.balance_minor ≡ r.balance_minor
    → row.id ≡ r.ledger_id
    → debit_in_transaction env args t ≡ ok (repeated r, t)
unfolding apply_debit
repeat_of env args r amount w row t p e x b i = debit_step env args amount w t p e ∙ rw (x, b, i)

outcome_of :
    (env : Env) (args : DebitArgs) (r : Debited) (db t : Db)
    → debit_in_transaction env args db ≡ ok (r, t)
    → NewDebit env args db r t ⊎ RepeatedDebit args db r t
outcome_of env args r db t done = rw done at (debit_within_limit env args db)

-- A debit that went through under a reference, sent again with the same arguments at any later time,
-- answers with the same balance and ledger row, marked idempotent, and changes nothing.
pub debit_twice :
    (env env' : Env) (args : DebitArgs) (reference : String) (r : Debited) (db t : Db)
    → args.reference ≡ some reference
    → is_present (some reference) ≡ true
    → debit_in_transaction env args db ≡ ok (r, t)
    → debit_in_transaction env' args t ≡ ok (repeated r, t)
debit_twice env env' args reference r db t named given done =
    elim (outcome_of env args r db t done) [
      | inl (amount, tenant, w, p, e, _, _, _, _, found, top, i, _) ↦
          repeat_of env' args r amount (with_balance w r.balance_minor env.now)
            (debit_row env args amount w (fx_stamp w.currency db)) t p found
            (earlier_debit-new args.reference reference
              (debit_row env args amount w (fx_stamp w.currency db)) t named given refl refl top)
            refl (sym i)
      | inr (amount, p, row, w, x, e, b, i, _, same) ↦
          rw same (repeat_of env' args r amount w row db p e x (sym b) (sym i))
    ]
