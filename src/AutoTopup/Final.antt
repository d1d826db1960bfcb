-- ===== src/AutoTopup/Final.antt =====
-- A settled success of server/utils/auto-topup-executor.ts, and the records that show it.
use mathlib.Core.Bool.{cond}
use telroi_ai_app.Base.{
  ◌⊎◌, eq_iff, ℕ, zero, suc, ◌-◌, ◌≡◌, refl, Option, some, none, String, ◌==◌, arith, Option-cases,
  inl, inr, ◌∙◌, Bool-cases,
}
use telroi_ai_app.Base.Int.{ℤ, pos, ◌+ℤ◌}
use telroi_ai_app.Base.Rows.{find-update}
use telroi_ai_app.Base.Tx.{Ensures, Ensures-bind}
use telroi_ai_app.Db.{
  LedgerRow, credit, ledger_entry, Attempt, AttemptStatus, Payment, Wallet, Db, Env, wallet_of,
  set_balance,
}
use telroi_ai_app.AutoTopup.Attempts.{cancel_unsent_auto_topups, is_cancellable, cancelled_attempt}
use telroi_ai_app.AutoTopup.Observation.{PaymentObservation}
use telroi_ai_app.AutoTopup.Settle.{settle_success, topup_credit, succeeded_attempt, attempt_by_key}
use telroi_ai_app.Wallet.Spend.{positive_integer}
use telroi_ai_app.Wallet.Steps.{credit_step}
use telroi_ai_app.Wallet.Credit.{
  same_credit, apply_credit, CreditArgs, cancel_recovered, fresh_credit, credit_in_transaction,
  credit_vat, vat_rate_of,
}

-- The attempt of a key is still the attempt of that key.
abbrev KeepsKey : String → Attempt → Db → Db → Type 0
KeepsKey key a s t =
    attempt_by_key key s ≡ some a → (b : Attempt) × (attempt_by_key key t ≡ some b) × (b.id ≡ a.id)

cancel-KeepsKey :
    (env : Env) (tenant_id reason : String) (attempt_id : Option String) (key : String)
    (a : Attempt) (db : Db)
    → KeepsKey key a db (cancel_unsent_auto_topups env tenant_id reason attempt_id db)
unfolding cancel_unsent_auto_topups
cancel-KeepsKey env tenant_id reason attempt_id key a db h =
    let p = is_cancellable db.payments tenant_id attempt_id in
    let f = cancelled_attempt reason env.now in
    (
      cond (p a) (f a) a,
      find-update (λ b. b.idempotency_key == key) p f db.auto_topup_attempts (λ b. refl) ∙ rw h,
      elim (Bool-cases (p a)) [ inl e ↦ rw e | inr e ↦ rw e ],
    )

cancel_recovered_cases :
    (env : Env) (tenant_id : String) (after : ℤ) (db : Db)
    → (cancel_recovered env tenant_id after db ≡ db)
      ⊎ (cancel_recovered env tenant_id after db
          ≡ cancel_unsent_auto_topups env tenant_id "balance_recovered" none db)
unfolding cancel_recovered
cancel_recovered_cases env tenant_id after db = ground arith

cancel_recovered-KeepsKey :
    (env : Env) (tenant_id : String) (after : ℤ) (key : String) (a : Attempt) (db : Db)
    → KeepsKey key a db (cancel_recovered env tenant_id after db)
cancel_recovered-KeepsKey env tenant_id after key a db h =
    elim (cancel_recovered_cases env tenant_id after db) [
      | inl same ↦ rw same (a, h, refl)
      | inr cut ↦ rw cut (cancel-KeepsKey env tenant_id "balance_recovered" none key a db h)
    ]

fresh_credit-KeepsKey :
    (env : Env) (args : CreditArgs) (amount vat_minor : ℕ) (rate : ℤ) (w : Wallet) (key : String)
    (a : Attempt) (db : Db)
    → KeepsKey key a db (fresh_credit env args amount vat_minor rate w db)
unfolding fresh_credit
fresh_credit-KeepsKey env args amount zero rate w key a db h =
    let after = w.balance_minor +ℤ pos (amount - 0) in
    cancel_recovered-KeepsKey env args.tenant_id after key a (set_balance w.id after env.now db) h
fresh_credit-KeepsKey env args amount (suc v) rate w key a db h =
    let after = w.balance_minor +ℤ pos (amount - suc v) in
    cancel_recovered-KeepsKey env args.tenant_id after key a (set_balance w.id after env.now db) h

apply_credit-KeepsKey :
    (env : Env) (args : CreditArgs) (n : ℕ) (w : Wallet) (row : Option LedgerRow) (key : String)
    (a : Attempt) (db : Db)
    → attempt_by_key key db ≡ some a
    → Ensures
        (λ _ t. (b : Attempt) × (attempt_by_key key t ≡ some b) × (b.id ≡ a.id))
        (apply_credit env args n w row db)
unfolding apply_credit
apply_credit-KeepsKey env args n w none key a db h =
    fresh_credit-KeepsKey env args n (credit_vat args n w db) (vat_rate_of args.tenant_id db) w key
      a db h
apply_credit-KeepsKey env args n w (some row) key a db h =
    elim (Bool-cases (same_credit row w args.tenant_id (n - credit_vat args n w db))) [
      | inl same ↦ rw same (a, h, refl)
      | inr other ↦ rw other tt
    ]

credit-KeepsKey :
    (env : Env) (args : CreditArgs) (key : String) (a : Attempt) (db : Db)
    → attempt_by_key key db ≡ some a
    → Ensures
        (λ _ t. (b : Attempt) × (attempt_by_key key t ≡ some b) × (b.id ≡ a.id))
        (credit_in_transaction env args db)
credit-KeepsKey env args key a db h = elim (Option-cases (positive_integer args.amount_minor)) [
  | inl bad ↦ unfold credit_in_transaction in rw (bad, Ensures) tt
  | inr (n, p) ↦ elim (Option-cases (wallet_of args.tenant_id db)) [
    | inl absent ↦ unfold credit_in_transaction in rw (p, Ensures) (rw (absent, Ensures) tt)
    | inr (w, e) ↦
        rw (credit_step env args n w db p e)
          (apply_credit-KeepsKey env args n w (ledger_entry args.reference credit db) key a db h)
  ]
]

-- The attempt of the key has succeeded.
abbrev pub HasSucceeded : String → Db → Type 0
HasSucceeded key db =
    (a : Attempt) × (attempt_by_key key db ≡ some a) × (a.status ≡ AttemptStatus.succeeded)

pub settle_success-HasSucceeded :
    (env : Env) (o : PaymentObservation) (a : Attempt) (p : Payment) (db : Db)
    → attempt_by_key o.reference db ≡ some a
    → Ensures (λ _ t. HasSucceeded o.reference t) (settle_success env o a p db)
unfolding settle_success
settle_success-HasSucceeded env o a p db h =
    Ensures-bind (λ _ t. (b : Attempt) × (attempt_by_key o.reference t ≡ some b) × (b.id ≡ a.id))
      (λ _ t. HasSucceeded o.reference t) (credit_in_transaction env (topup_credit a)) _ db
      (credit-KeepsKey env (topup_credit a) o.reference a db h)
      (λ r t (b, found, same). (
        succeeded_attempt env o b,
        find-update (λ c. c.idempotency_key == o.reference) (λ c. c.id == a.id)
              (succeeded_attempt env o) t.auto_topup_attempts (λ c. refl)
            ∙ rw found (rw ((eq_iff b.id a.id).1 same)),
        refl,
      ))
