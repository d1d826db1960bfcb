-- ===== src/Wallet/Limits.antt =====
-- What a debit of server/utils/wallet.ts does when it goes through: the new balance, its ledger
-- row, and the limit.
use telroi_ai_app.Base.{
  ◌∙◌, ap, Bool-cases, ℕ, ◌≡◌, refl, ◌⊎◌, inl, inr, Option, some, none, ◌∷◌, String, ◌==◌, eq_refl,
  arith, if◌then◌else◌, Option-cases, true, false,
}
use telroi_ai_app.Base.Int.{ℤ, pos, ◌-ℤ◌, ◌≤ℤ◌, int_laws}
use telroi_ai_app.Base.Rows.{find-update}
use telroi_ai_app.Base.Tx.{Ensures, Ensures-bind, Ensures-imp}
use telroi_ai_app.Db.{
  Currency, Tenant, Wallet, LedgerRow, Db, Env, wallet_of, tenant_of, set_balance,
}
use telroi_ai_app.AutoTopup.Queue.{SameBooks}
use telroi_ai_app.Wallet.Spend.{positive_integer, can_spend, floor, fx_stamp}
use telroi_ai_app.Wallet.Debit.{
  DebitArgs, Debited, debit_row, move_debit, fresh_debit, apply_debit, debit_in_transaction,
  trigger_auto_topup, earlier_debit,
}
use telroi_ai_app.Wallet.Steps.{debit_step}
use telroi_ai_app.Wallet.Conservation.{trigger-SameBooks}

-- The lowest balance of a workspace: zero, or minus its credit limit if it is postpaid.
abbrev pub limit : Tenant → ℤ
limit tenant = if tenant.postpaid then floor tenant else pos 0

pub can_spend_within :
    (tenant : Tenant) (b a : ℤ)
    → can_spend (some tenant) b a ≡ true
    → (tenant.billing_suspended_at ≡ none) × (limit tenant ≤ℤ b -ℤ a)
unfolding can_spend
can_spend_within tenant b a h = (ground arith, grind (int_laws))

-- A wallet after its balance was set.
abbrev pub with_balance : Wallet → ℤ → ℕ → Wallet
with_balance w b now = record w { balance_minor = b; updated_at = now }

pub wallet_of-set_balance :
    (tenant_id : String) (w : Wallet) (b : ℤ) (now : ℕ) (db : Db)
    → wallet_of tenant_id db ≡ some w
    → wallet_of tenant_id (set_balance w.id b now db) ≡ some (with_balance w b now)
wallet_of-set_balance tenant_id w b now db h =
    rw
      (find-update (λ v. v.tenant_id == tenant_id) (λ v. v.id == w.id) (λ v. with_balance v b now)
        db.wallets (λ v. refl))
      (rw (h, eq_refl w.id))

-- What a movement leaves: the wallet with its new balance, and the row on top of the ledger.
abbrev Moved : Env → DebitArgs → ℕ → Wallet → Db → Tenant × LedgerRow → Db → Type 0
Moved env args amount w db m t =
    (tenant_of args.tenant_id db ≡ some m.0)
    × (can_spend (some m.0) w.balance_minor (pos amount) ≡ true)
    × (m.1 ≡ debit_row env args amount w (fx_stamp w.currency db))
    × (wallet_of args.tenant_id t ≡ some (with_balance w (w.balance_minor -ℤ pos amount) env.now))
    × (t.ledger ≡ m.1 ∷ db.ledger)

fx_stamp-set_balance :
    (c : Currency) (id : String) (b : ℤ) (now : ℕ) (db : Db)
    → fx_stamp c (set_balance id b now db) ≡ fx_stamp c db
unfolding fx_stamp
fx_stamp-set_balance Currency.ngn id b now db = refl
fx_stamp-set_balance Currency.usd id b now db = refl

move_debit-Moved :
    (env : Env) (args : DebitArgs) (amount : ℕ) (w : Wallet) (db : Db)
    → wallet_of args.tenant_id db ≡ some w
    → Ensures (Moved env args amount w db) (move_debit env args amount w db)
unfolding move_debit
move_debit-Moved env args amount w db h = elim (Option-cases (tenant_of args.tenant_id db)) [
  | inl absent ↦ ground arith
  | inr (tenant, e) ↦ elim (Bool-cases (can_spend (some tenant) w.balance_minor (pos amount))) [
    | inl may ↦
        rw (e, may)
          (
            e,
            may,
            ap (debit_row env args amount w)
                (fx_stamp-set_balance w.currency w.id (w.balance_minor -ℤ pos amount) env.now db),
            wallet_of-set_balance args.tenant_id w (w.balance_minor -ℤ pos amount) env.now db h,
            refl,
          )
    | inr short ↦ rw (e, short) tt
  ]
]

-- What a debit that goes through has done: nothing, where its reference was charged before; or one
-- movement within the limit of a workspace that is not suspended.
abbrev pub NewDebit : Env → DebitArgs → Db → Debited → Db → Type 0
NewDebit env args db r t =
    (amount : ℕ) × (tenant : Tenant) × (w : Wallet) × (positive_integer args.amount_minor
      ≡ some amount)
    × (wallet_of args.tenant_id db ≡ some w)
    × (tenant_of args.tenant_id db ≡ some tenant)
    × (tenant.billing_suspended_at ≡ none)
    × (limit tenant ≤ℤ r.balance_minor)
    × (r.balance_minor ≡ w.balance_minor -ℤ pos amount)
    × (wallet_of args.tenant_id t ≡ some (with_balance w r.balance_minor env.now))
    × (t.ledger ≡ debit_row env args amount w (fx_stamp w.currency db) ∷ db.ledger)
    × (r.ledger_id ≡ env.ledger_id)
    × (r.idempotent ≡ false)

abbrev pub RepeatedDebit : DebitArgs → Db → Debited → Db → Type 0
RepeatedDebit args db r t =
    (amount : ℕ) × (positive_integer args.amount_minor ≡ some amount)
    × (row : LedgerRow) × (w : Wallet) × (earlier_debit args.reference db ≡ some row)
    × (wallet_of args.tenant_id db ≡ some w)
    × (r.balance_minor ≡ w.balance_minor)
    × (r.ledger_id ≡ row.id)
    × (r.idempotent ≡ true)
    × (t ≡ db)

pub fresh_debit-NewDebit :
    (env : Env) (args : DebitArgs) (amount : ℕ) (w : Wallet) (db : Db)
    → positive_integer args.amount_minor ≡ some amount
    → wallet_of args.tenant_id db ≡ some w
    → Ensures (NewDebit env args db) (fresh_debit env args amount w db)
unfolding fresh_debit
fresh_debit-NewDebit env args amount w db p h =
    Ensures-bind (Moved env args amount w db) (NewDebit env args db) (move_debit env args amount w)
      _ db (move_debit-Moved env args amount w db h)
      (λ m t (known, may, is_row, found, posted).
        Ensures-bind (λ _ u. SameBooks t u) (NewDebit env args db)
          (trigger_auto_topup env m.0 w m.1) _ t (trigger-SameBooks env m.0 w m.1 t)
          (λ _ u (same_wallets, same_ledger, _, _, _).
            let bal : m.1.balance_after_minor ≡ w.balance_minor -ℤ pos amount =
              ap (λ row. row.balance_after_minor) is_row in
            let (free, above) = can_spend_within m.0 w.balance_minor (pos amount) may in
            (
              amount,
              m.0,
              w,
              p,
              h,
              known,
              free,
              rw bal above,
              bal,
              rw (same_wallets, bal) found,
              same_ledger ∙ posted ∙ ap (λ row. row ∷ db.ledger) is_row,
              ap (λ row. row.id) is_row,
              refl,
            )))

apply_debit-NewDebit :
    (env : Env) (args : DebitArgs) (amount : ℕ) (w : Wallet) (earlier : Option LedgerRow) (db : Db)
    → positive_integer args.amount_minor ≡ some amount
    → wallet_of args.tenant_id db ≡ some w
    → earlier_debit args.reference db ≡ earlier
    → Ensures
        (λ r t. NewDebit env args db r t ⊎ RepeatedDebit args db r t)
        (apply_debit env args amount w earlier db)
unfolding apply_debit
apply_debit-NewDebit env args amount w none db p h e =
    Ensures-imp (NewDebit env args db) _ _ (fresh_debit-NewDebit env args amount w db p h)
      (λ _ t done. inl done)
apply_debit-NewDebit env args amount w (some row) db p h e =
    inr (amount, p, row, w, e, h, refl, refl, refl, refl)

-- A debit that goes through either repeats an earlier one of its reference and changes nothing, or
-- it takes exactly its amount off the workspace's wallet, leaves at least zero (or minus the credit
-- limit, for a postpaid workspace), puts exactly one row on the ledger, and the workspace is not
-- suspended.
pub debit_within_limit :
    (env : Env) (args : DebitArgs) (db : Db)
    → Ensures
        (λ r t. NewDebit env args db r t ⊎ RepeatedDebit args db r t)
        (debit_in_transaction env args db)
debit_within_limit env args db = elim (Option-cases (positive_integer args.amount_minor)) [
  | inl bad ↦ unfold debit_in_transaction in ground arith
  | inr (n, p) ↦ elim (Option-cases (wallet_of args.tenant_id db)) [
    | inl absent ↦ unfold debit_in_transaction in ground arith
    | inr (w, e) ↦
        rw (debit_step env args n w db p e)
          (apply_debit-NewDebit env args n w (earlier_debit args.reference db) db p e refl)
  ]
]
