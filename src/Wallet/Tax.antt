-- ===== src/Wallet/Tax.antt =====
-- server/utils/wallet.ts: the tax inside a top-up, and where the check before a feature differs from
-- the debit.
use native.Mathlib.Decide.{dec_lt}
use telroi_ai_app.Base.{
  ◌∙◌, ℕ, ◌+◌, ◌*◌, ◌≤◌, ◌<◌, ◌≡◌, true, false, some, none, String, arith, ltb, Bool-cases, inl,
  inr,
}
use telroi_ai_app.Base.Int.{ℤ, pos}
use telroi_ai_app.Base.Tx.{◌>>=◌, err, api}
use telroi_ai_app.Db.{Currency, ngn, Tenant, Wallet, Db, Env, wallet_of, tenant_of}
use telroi_ai_app.Wallet.Spend.{
  round_div, wallet_credit_vat_minor, effective_rate, is_customer_topup, positive_integer,
  can_spend,
}
use telroi_ai_app.Wallet.Debit.{
  DebitArgs, debit_in_transaction, earlier_debit, apply_debit, fresh_debit, move_debit,
}
use telroi_ai_app.Wallet.Entries.{can_afford}
use telroi_ai_app.Wallet.Steps.{debit_step}

-- A rounded quotient is within half of the exact one.
round_div_near :
    (a b : ℕ)
    → 0 < b
    → (2 * a < 2 * (round_div a b * b) + b + 1) × (2 * (round_div a b * b) ≤ 2 * a + b)
round_div_near a b h = (grind arith, grind arith)

-- A bound on a product by the same factor.
lt_of_mul : (v a b : ℕ) → v * b < (a + 1) * b → v < a + 1
lt_of_mul v a b h = elim (dec_lt v (a + 1)) [ yes below ↦ below | no above ↦ absurd (grind arith) ]

round_vat_le : (amount k : ℕ) → round_div (amount * k) (10000 + k) ≤ amount
round_vat_le amount k =
    let near = (round_div_near (amount * k) (10000 + k) (omega arith)).1 in
    let below = lt_of_mul (round_div (amount * k) (10000 + k)) amount (10000 + k) (grind arith) in
    omega arith

-- The tax is never more than the amount, so that a credit never takes money away.
pub vat-le :
    (currency : Currency) (reason : String) (amount : ℕ) (rate : ℤ)
    → wallet_credit_vat_minor currency reason amount rate ≤ amount
unfolding wallet_credit_vat_minor
vat-le currency reason amount rate = ground (arith, round_vat_le amount (effective_rate rate))

-- Where a naira wallet is topped up with the customer's own money, at a rate of k ten-thousandths,
-- the tax is not more than the amount, and it is the part amount * k / (10000 + k) of the amount,
-- rounded to the nearest: times 10000 + k it lies within half of 10000 + k of amount * k.
pub vat_inclusive :
    (reason : String) (amount : ℕ) (rate : ℤ)
    → is_customer_topup reason ≡ true
    → let v = wallet_credit_vat_minor ngn reason amount rate in
      let k = effective_rate rate in
      (v ≤ amount)
      × (2 * (amount * k) < 2 * (v * (10000 + k)) + (10000 + k) + 1)
      × (2 * (v * (10000 + k)) ≤ 2 * (amount * k) + (10000 + k))
unfolding wallet_credit_vat_minor
vat_inclusive reason amount rate own =
    let k = effective_rate rate in
    let near = round_div_near (amount * k) (10000 + k) (omega arith) in
    elim (Bool-cases (ltb 0 k)) [
      | inl some_rate ↦ rw (own, some_rate) (round_vat_le amount k, near.0, near.1)
      | inr no_rate ↦
          let zero_rate : k ≡ 0 = ground arith in
          rw (own, no_rate, zero_rate) (omega arith, omega arith, omega arith)
    ]

suspended_refused :
    (tenant : Tenant) (b a : ℤ) (since : ℕ)
    → tenant.billing_suspended_at ≡ some since
    → can_spend (some tenant) b a ≡ false
unfolding can_spend
suspended_refused tenant b a since h = ground arith

-- A new debit that the workspace may not spend is refused.
pub refused :
    (env : Env) (args : DebitArgs) (amount : ℕ) (tenant : Tenant) (w : Wallet) (db : Db)
    → tenant_of args.tenant_id db ≡ some tenant
    → can_spend (some tenant) w.balance_minor (pos amount) ≡ false
    → apply_debit env args amount w none db ≡ err (api "insufficient_funds" 402)
unfolding apply_debit fresh_debit move_debit
refused env args amount tenant w db t h = rw (t, h, apply_debit, fresh_debit, move_debit, ◌>>=◌)

-- A workspace that is suspended for an unpaid invoice, and has the money otherwise, passes the check
-- before a feature is used, and is then refused the debit.
pub can_afford_suspended :
    (env : Env) (args : DebitArgs) (amount since : ℕ) (tenant : Tenant) (w : Wallet) (db : Db)
    → positive_integer args.amount_minor ≡ some amount
    → wallet_of args.tenant_id db ≡ some w
    → tenant_of args.tenant_id db ≡ some tenant
    → tenant.billing_suspended_at ≡ some since
    → earlier_debit args.reference db ≡ none
    → can_spend (some (record tenant { billing_suspended_at = none })) w.balance_minor (pos amount)
      ≡ true
    → (can_afford args.tenant_id (pos amount) db ≡ true)
      × (debit_in_transaction env args db ≡ err (api "insufficient_funds" 402))
can_afford_suspended env args amount since tenant w db p e t suspended new may = (
  unfold can_afford in rw (e, can_afford) (rw (t, can_afford) may),
  debit_step env args amount w db p e
      ∙ rw new (
          refused env args amount tenant w db t
            (suspended_refused tenant w.balance_minor (pos amount) since suspended)),
)
