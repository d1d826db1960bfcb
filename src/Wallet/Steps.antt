-- ===== src/Wallet/Steps.antt =====
-- The transactions of server/utils/wallet.ts past their first checks: with a positive amount and a
-- wallet, a debit or a credit is its step from the lookup of an earlier row on.
use telroi_ai_app.Base.{ℕ, ◌≡◌, some}
use telroi_ai_app.Db.{credit, Wallet, Db, Env, wallet_of, ledger_entry}
use telroi_ai_app.Wallet.Spend.{positive_integer}
use telroi_ai_app.Wallet.Debit.{DebitArgs, apply_debit, debit_in_transaction, earlier_debit}
use telroi_ai_app.Wallet.Credit.{CreditArgs, apply_credit, credit_in_transaction}

pub debit_step :
    (env : Env) (args : DebitArgs) (n : ℕ) (w : Wallet) (db : Db)
    → positive_integer args.amount_minor ≡ some n
    → wallet_of args.tenant_id db ≡ some w
    → debit_in_transaction env args db
      ≡ apply_debit env args n w (earlier_debit args.reference db) db
unfolding debit_in_transaction
debit_step env args n w db p e = rw (p, e)

pub credit_step :
    (env : Env) (args : CreditArgs) (n : ℕ) (w : Wallet) (db : Db)
    → positive_integer args.amount_minor ≡ some n
    → wallet_of args.tenant_id db ≡ some w
    → credit_in_transaction env args db
      ≡ apply_credit env args n w (ledger_entry args.reference credit db) db
unfolding credit_in_transaction
credit_step env args n w db p e = rw (p, e)
