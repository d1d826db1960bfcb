-- ===== src/Billing/Metered.antt =====
-- `chargeCall` of server/utils/call-billing.ts, sent again, and in a sandbox.
use telroi_ai_app.Base.{
  ℕ, zero, suc, String, ◌≡◌, refl, sym, ap, ◌∙◌, subst, ◌⊎◌, inl, inr, true, false, none, some,
  eq_iff, Option-cases, Bool-cases, is_present, arith, ◌==◌,
}
use telroi_ai_app.Base.Rows.{find-sat}
use telroi_ai_app.Wallet.Entries.{get_or_create_wallet}
use telroi_ai_app.Wallet.Repeat.{debit_twice, repeated}
use telroi_ai_app.Wallet.Limits.{with_balance, debit_within_limit, RepeatedDebit, NewDebit}
use telroi_ai_app.Base.Tx.{Ensures, Result-cases, err, ok, Result}
use telroi_ai_app.Wallet.Accounts.{debit-SameAccounts, SameAccounts}
use telroi_ai_app.Wallet.Debit.{debit_in_transaction, Debited, DebitArgs}
use telroi_ai_app.Db.{tenant_of, wallet_of, Wallet, Db, Currency, Env}
use telroi_ai_app.Billing.Prices.{get_pricing}
use telroi_ai_app.Billing.Calls.{
  billable, is_free_inbound, charge_call, charge_seconds, is_sandbox, CallCharge, call_debit,
  CallArgs, call_cost, charge_wallet,
}
use Prim.Native.String.{◌++◌ as concat}
use text.Mathlib.Text.{starts_with}
use text.Mathlib.TextPositions.{starts_with-append}
use mathlib.Core.Option.{some-injective}

-- What holds if a call was charged.
abbrev pub OnCharged : (ℕ → Currency → Debited → Db → Type 0) → Result CallCharge × Db → Type 0
OnCharged P (ok (CallCharge.charged a c r), t) = P a c r t
OnCharged P (ok (CallCharge.simulated a c), t) = Unit
OnCharged P (ok CallCharge.zero_duration, t) = Unit
OnCharged P (ok CallCharge.inbound_ng_free, t) = Unit
OnCharged P (err e, t) = Unit

call_is_present : (id : String) → is_present (some (concat "call_" id)) ≡ true
call_is_present id = elim (Bool-cases (concat "call_" id == "")) [
  | inr filled ↦ rw filled refl
  | inl empty ↦
      let starts : starts_with "" "call_" ≡ true =
        subst (λ s. starts_with s "call_" ≡ true) ((eq_iff (concat "call_" id) "").0 empty)
          (starts_with-append "call_" id) in
      absurd (ground (arith, starts))
]

get_pricing_same :
    (tenant_id : String) (s t : Db)
    → SameAccounts s t
    → get_pricing tenant_id t ≡ get_pricing tenant_id s
unfolding get_pricing
get_pricing_same tenant_id s t same = rw (same.3, same.4) refl

-- The wallet that a debit leaves is in the same currency.
debited_wallet :
    (env : Env) (args : DebitArgs) (w : Wallet) (r : Debited) (db t : Db)
    → wallet_of args.tenant_id db ≡ some w
    → debit_in_transaction env args db ≡ ok (r, t)
    → (v : Wallet) × (wallet_of args.tenant_id t ≡ some v) × (v.currency ≡ w.currency)
debited_wallet env args w r db t own done =
    let what : NewDebit env args db r t ⊎ RepeatedDebit args db r t =
      rw done at (debit_within_limit env args db) in
    elim what [
      | inl (n, tenant, v, p, found, known, free, above, b, found', top, i, fresh) ↦ (
        with_balance v r.balance_minor env.now,
        found',
        ap (λ x. x.currency) (some-injective v w (sym found ∙ own)),
      )
      | inr (n, p, row, v, dupe, found, b, i, again, rest) ↦
          (w, subst (λ u. wallet_of args.tenant_id u ≡ some w) (sym rest) own, refl)
    ]

-- The same charge, asked of the state that a charge left.
abbrev Repeats : Env → CallArgs → ℕ → ℕ → Currency → Debited → Db → Type 0
Repeats env opts n a c r t =
    (v : Wallet) × (wallet_of opts.tenant_id t ≡ some v)
    × (charge_wallet env opts n v t ≡ (ok (CallCharge.charged a c (repeated r)), t))

charge_again :
    (env : Env) (opts : CallArgs) (n amount : ℕ) (c : Currency) (v : Wallet) (q : Debited) (t : Db)
    → is_sandbox opts.tenant_id t ≡ false
    → call_cost opts n v t ≡ amount
    → v.currency ≡ c
    → debit_in_transaction env (call_debit opts n amount) t ≡ ok (q, t)
    → charge_wallet env opts n v t ≡ (ok (CallCharge.charged amount c q), t)
unfolding charge_wallet
charge_again env opts n amount c v q t live cost currency again =
    let paid : debit_in_transaction env (call_debit opts n (call_cost opts n v t)) t ≡ ok (q, t) =
      subst (λ x. debit_in_transaction env (call_debit opts n x) t ≡ ok (q, t)) (sym cost) again in
    subst (λ x. charge_wallet env opts n v t ≡ (ok (CallCharge.charged x c q), t)) cost
      (rw (live, charge_wallet, paid, currency) refl)

charge_wallet-Repeats :
    (env env' : Env) (opts : CallArgs) (n : ℕ) (w : Wallet) (db : Db)
    → wallet_of opts.tenant_id db ≡ some w
    → OnCharged (Repeats env' opts n) (charge_wallet env opts n w db)
unfolding charge_wallet call_cost
charge_wallet-Repeats env env' opts n w db own =
    let amount = call_cost opts n w db in
    let args = call_debit opts n amount in
    elim (Bool-cases (is_sandbox opts.tenant_id db)) [
      | inl sandbox ↦ rw sandbox tt
      | inr live ↦ elim (Result-cases (debit_in_transaction env args db)) [
        | inr (x, e) ↦ rw (live, e, charge_wallet) tt
        | inl ((r, t), e) ↦
            let same : SameAccounts db t = rw e at (debit-SameAccounts env args db) in
            let (v, found, currency) = debited_wallet env args w r db t own e in
            let again =
              debit_twice env env' args (concat "call_" opts.call_id) r db t refl
                (call_is_present opts.call_id) e in
            let live' : is_sandbox opts.tenant_id t ≡ false = rw same.1 live in
            let cost : call_cost opts n v t ≡ amount =
              rw (get_pricing_same opts.tenant_id db t same, currency) refl in
            rw (live, e, charge_wallet)
              (
                v,
                found,
                charge_again env' opts n amount w.currency v (repeated r) t live' cost currency
                    again,
              )
      ]
    ]

created_wallet :
    (env : Env) (tenant_id : String) (db : Db)
    → Ensures (λ w t. wallet_of tenant_id t ≡ some w) (get_or_create_wallet env tenant_id none db)
unfolding get_or_create_wallet
created_wallet env tenant_id db = elim (Option-cases (wallet_of tenant_id db)) [
  | inr (w, e) ↦ rw (e, get_or_create_wallet) e
  | inl missing ↦ elim (Option-cases (tenant_of tenant_id db)) [
    | inl unknown ↦ rw (missing, unknown, get_or_create_wallet) tt
    | inr (tenant, e) ↦
        let own : tenant.id == tenant_id ≡ true =
          find-sat (λ t. t.id == tenant_id) db.tenants tenant e in
        rw (missing, e, get_or_create_wallet) (rw own refl)
  ]
]

found_wallet :
    (env : Env) (tenant_id : String) (w : Wallet) (db : Db)
    → wallet_of tenant_id db ≡ some w
    → get_or_create_wallet env tenant_id none db ≡ ok (w, db)
unfolding get_or_create_wallet
found_wallet env tenant_id w db e = rw (e, get_or_create_wallet) refl

module _ (lower : String → String) where
  charge_seconds_again :
      (env : Env) (opts : CallArgs) (n a : ℕ) (c : Currency) (r : Debited) (t : Db)
      → is_free_inbound lower opts ≡ false
      → Repeats env opts n a c r t
      → charge_seconds lower env opts n t ≡ (ok (CallCharge.charged a c (repeated r)), t)
  unfolding charge_seconds
  charge_seconds_again env opts n a c r t paid (v, found, same) =
      rw (paid, charge_seconds, found_wallet env opts.tenant_id v t found) same

  call_again :
      (env : Env) (opts : CallArgs) (n : ℕ) (t : Db)
      → billable opts.seconds ≡ suc n
      → charge_call lower env opts t ≡ charge_seconds lower env opts (suc n) t
  unfolding charge_call
  call_again env opts n t e = rw (e, charge_call) refl

  through :
      (env : Env) (opts : CallArgs) (n : ℕ)
      → billable opts.seconds ≡ suc n
      → (p : Result CallCharge × Db) → is_free_inbound lower opts ≡ false
      → OnCharged (Repeats env opts (suc n)) p
      → OnCharged
          (λ a c r t. charge_call lower env opts t ≡ (ok (CallCharge.charged a c (repeated r)), t))
          p
  through env opts n e (ok (CallCharge.charged a c r), t) paid h =
      call_again env opts n t e ∙ charge_seconds_again env opts (suc n) a c r t paid h
  through env opts n e (ok (CallCharge.simulated a c), t) paid h = tt
  through env opts n e (ok CallCharge.zero_duration, t) paid h = tt
  through env opts n e (ok CallCharge.inbound_ng_free, t) paid h = tt
  through env opts n e (err x, t) paid h = tt

  -- From a wallet on, for whatever is to hold of the charge.
  seconds_through :
      (P : ℕ → Currency → Debited → Db → Type 0) (env : Env) (opts : CallArgs) (n : ℕ) (db : Db)
      → ((w : Wallet) (s : Db)
          → is_free_inbound lower opts ≡ false
          → wallet_of opts.tenant_id s ≡ some w
          → OnCharged P (charge_wallet env opts n w s))
      → OnCharged P (charge_seconds lower env opts n db)
  unfolding charge_seconds
  seconds_through P env opts n db later = elim (Bool-cases (is_free_inbound lower opts)) [
    | inl free ↦ rw free tt
    | inr paid ↦ elim (Result-cases (get_or_create_wallet env opts.tenant_id none db)) [
      | inr (x, e) ↦ rw (paid, e, charge_seconds) tt
      | inl ((w, s), e) ↦
          let own : wallet_of opts.tenant_id s ≡ some w =
            rw e at (created_wallet env opts.tenant_id db) in
          rw (paid, e, charge_seconds) (later w s paid own)
    ]
  ]

  call_through :
      (P : ℕ → Currency → Debited → Db → Type 0) (env : Env) (opts : CallArgs) (db : Db)
      → ((n : ℕ)
          → billable opts.seconds ≡ suc n
          → OnCharged P (charge_seconds lower env opts (suc n) db))
      → OnCharged P (charge_call lower env opts db)
  unfolding charge_call
  call_through P env opts db later = seconds (billable opts.seconds) refl
    where
      seconds : (n : ℕ) → billable opts.seconds ≡ n → OnCharged P (charge_call lower env opts db)
      seconds zero e = rw (e, charge_call) tt
      seconds (suc n) e = rw (e, charge_call) (later n e)

  charge_call-Repeats :
      (env env' : Env) (opts : CallArgs) (db : Db)
      → OnCharged
          (λ a c r t. charge_call lower env' opts t ≡ (ok (CallCharge.charged a c (repeated r)), t))
          (charge_call lower env opts db)
  charge_call-Repeats env env' opts db = call_through _ env opts db (λ n e.
      seconds_through _ env opts (suc n) db (λ w s paid own.
        through env' opts n e (charge_wallet env opts (suc n) w s) paid
          (charge_wallet-Repeats env env' opts (suc n) w s own)))

  -- A call that was charged and is reported again, at any later time, is answered with the same
  -- charge, marked as a repetition, and moves nothing.
  pub charge_twice :
      (env env' : Env) (opts : CallArgs) (a : ℕ) (c : Currency) (r : Debited) (db t : Db)
      → charge_call lower env opts db ≡ (ok (CallCharge.charged a c r), t)
      → charge_call lower env' opts t ≡ (ok (CallCharge.charged a c (repeated r)), t)
  charge_twice env env' opts a c r db t done = rw done at (charge_call-Repeats env env' opts db)
