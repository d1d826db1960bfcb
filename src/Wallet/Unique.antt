-- ===== src/Wallet/Unique.antt =====
-- The references of the credits that server/utils/wallet.ts puts on the ledger.
use telroi_ai_app.Wallet.Steps.{credit_step}
use telroi_ai_app.Wallet.Spend.{fx_stamp, positive_integer}
use telroi_ai_app.Wallet.Conservation.{cancel_recovered-SameBooks}
use telroi_ai_app.Wallet.Limits.{debit_within_limit}
use telroi_ai_app.Base.Rows.{count-eq_zero, find, count}
use telroi_ai_app.AutoTopup.Money.{SameMoney}
use telroi_ai_app.Wallet.Credit.{
  vat_row, credit_row, same_credit, vat_rate_of, credit_vat, apply_credit, credit_in_transaction,
  CreditArgs, fresh_credit,
}
use telroi_ai_app.Wallet.Debit.{debit_in_transaction, DebitArgs}
use telroi_ai_app.Base.{
  eq_iff, subst, Bool-cases, Option-cases, ◌-◌, List, ℕ, zero, suc, Bool, false, Option, some, none,
  String, ◌≡◌, refl, inl, inr, ◌∷◌, arith, ◌==◌, ◌&&◌, ◌≤◌, text_is,
}
use telroi_ai_app.Base.Int.{◌+ℤ◌, ℤ, pos}
use telroi_ai_app.Base.Tx.{Ensures-imp, Ensures}
use telroi_ai_app.Db.{
  set_balance, wallet_of, ledger_entry, Wallet, LedgerRow, credit, Db, Env, kind_is,
}

-- A credit of a reference.
abbrev pub is_credit_of : String → LedgerRow → Bool
is_credit_of reference row = text_is row.reference reference && kind_is row.kind credit

-- Each reference has at most one credit on the ledger.
abbrev pub AreUnique : Db → Type 0
AreUnique db = (reference : String) → count (is_credit_of reference) db.ledger ≤ 1

pub SameMoney-AreUnique : (s t : Db) → AreUnique s → SameMoney s t → AreUnique t
SameMoney-AreUnique s t h same reference = rw (same.1) (h reference)

-- A row under a reference that has no credit yet leaves at most one of each.
one_credit :
    (row : LedgerRow) (rows : List LedgerRow) (own reference : String)
    → row.reference ≡ some own
    → find (is_credit_of own) rows ≡ none
    → count (is_credit_of reference) rows ≤ 1
    → count (is_credit_of reference) (row ∷ rows) ≤ 1
one_credit row rows own reference is_own new h = elim (Bool-cases (own == reference)) [
  | inl here ↦
      let nothing : count (is_credit_of reference) rows ≡ 0 =
        subst (λ r. count (is_credit_of r) rows ≡ 0) ((eq_iff own reference).0 here)
          (count-eq_zero (is_credit_of own) rows new) in
      ground (arith, nothing)
  | inr elsewhere ↦
      let skipped : text_is row.reference reference ≡ false = rw is_own elsewhere in
      rw skipped (omega arith)
]

no_credit :
    (row : LedgerRow) (rows : List LedgerRow) (reference : String)
    → kind_is row.kind credit ≡ false
    → count (is_credit_of reference) rows ≤ 1
    → count (is_credit_of reference) (row ∷ rows) ≤ 1
no_credit row rows reference other h = ground (arith, other, h)

-- A new credit, with or without its tax row.
fresh_credit-AreUnique :
    (env : Env) (args : CreditArgs) (n vat_minor : ℕ) (rate : ℤ) (w : Wallet) (db : Db)
    → ledger_entry args.reference credit db ≡ none
    → AreUnique db
    → AreUnique (fresh_credit env args n vat_minor rate w db)
unfolding fresh_credit
fresh_credit-AreUnique env args n zero rate w db new h reference =
    let after = w.balance_minor +ℤ pos (n - 0) in
    rw ((cancel_recovered-SameBooks env args.tenant_id after (set_balance w.id after env.now db)).1)
      (one_credit (credit_row env args n zero rate w after (fx_stamp w.currency db)) db.ledger
        args.reference reference refl new (h reference))
fresh_credit-AreUnique env args n (suc v) rate w db new h reference =
    let after = w.balance_minor +ℤ pos (n - suc v) in
    rw ((cancel_recovered-SameBooks env args.tenant_id after (set_balance w.id after env.now db)).1)
      (no_credit (vat_row env args n (suc v) w after (fx_stamp w.currency db))
        (credit_row env args n (suc v) rate w after (fx_stamp w.currency db) ∷ db.ledger) reference
        refl
        (one_credit (credit_row env args n (suc v) rate w after (fx_stamp w.currency db)) db.ledger
          args.reference reference refl new (h reference)))

apply_credit-AreUnique :
    (env : Env) (args : CreditArgs) (n : ℕ) (w : Wallet) (earlier : Option LedgerRow) (db : Db)
    → ledger_entry args.reference credit db ≡ earlier
    → AreUnique db
    → Ensures (λ _ t. AreUnique t) (apply_credit env args n w earlier db)
unfolding apply_credit
apply_credit-AreUnique env args n w none db new h =
    fresh_credit-AreUnique env args n (credit_vat args n w db) (vat_rate_of args.tenant_id db) w db
      new h
apply_credit-AreUnique env args n w (some row) db found h =
    elim (Bool-cases (same_credit row w args.tenant_id (n - credit_vat args n w db))) [
      | inl same ↦ rw same h
      | inr other ↦ rw other tt
    ]

pub credit-AreUnique :
    (env : Env) (args : CreditArgs) (db : Db)
    → AreUnique db
    → Ensures (λ _ t. AreUnique t) (credit_in_transaction env args db)
credit-AreUnique env args db h = elim (Option-cases (positive_integer args.amount_minor)) [
  | inl bad ↦ unfold credit_in_transaction in ground arith
  | inr (n, p) ↦ elim (Option-cases (wallet_of args.tenant_id db)) [
    | inl absent ↦ unfold credit_in_transaction in ground arith
    | inr (w, e) ↦
        rw (credit_step env args n w db p e)
          (apply_credit-AreUnique env args n w (ledger_entry args.reference credit db) db refl h)
  ]
]

pub debit-AreUnique :
    (env : Env) (args : DebitArgs) (db : Db)
    → AreUnique db
    → Ensures (λ _ t. AreUnique t) (debit_in_transaction env args db)
debit-AreUnique env args db h =
    Ensures-imp _ _ (debit_in_transaction env args db) (debit_within_limit env args db) (λ r t done.
      elim done [
        | inl (amount, tenant, w, _, _, _, _, _, _, _, top, _, _) ↦
            λ reference. rw top (ground (arith, h reference))
        | inr (amount, _, row, w, _, _, _, _, _, same) ↦ λ reference. rw same (h reference)
      ])
