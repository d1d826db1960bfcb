-- ===== src/Billing/Balanced.antt =====
-- The billing runs and charges of server/utils/billing.ts and server/utils/call-billing.ts, against the
-- sums of the ledger.
use telroi_ai_app.Billing.Prices.{to_currency_minor}
use telroi_ai_app.Wallet.Conservation.{debit-IsBalanced}
use telroi_ai_app.Wallet.Spend.{can_spend}
use telroi_ai_app.Base.Tx.{ok, Result-cases}
use telroi_ai_app.Wallet.Balance.{IsBalanced}
use telroi_ai_app.Wallet.Debit.{debit_in_transaction, Debited, DebitArgs}
use telroi_ai_app.Billing.Plans.{
  plan_args, seats_of, interval_of, next_plan_date, plan_cycle_ref, seat_fee, due_plans,
  is_on_trial, tallied_plan, PlanResult, bill_fee, bill_plan, bill_plans, collect_plan,
  run_monthly_billing,
}
use telroi_ai_app.Db.{
  debit, ledger_entry, tenant_of, wallet_of, Db, Wallet, NumberSubscription, Pricing, Tenant, Env,
}
use telroi_ai_app.Billing.Renewals.{
  renewal_amount, is_postpaid, number_cycle_ref, is_insufficient_funds, renewal_args,
  due_subscriptions, tallied, billing_rates, BillingResult, BillingRates, run_renewals,
  collect_renewal, renew_all, renew_subscription, renew_unbilled,
}
use telroi_ai_app.Base.{Bool-cases, Option-cases, ℕ, String, ◌≡◌, inl, inr, Option, List, [], ◌∷◌}
use telroi_ai_app.Base.Int.{eqb_ℤ, ℤ, pos, ◌*ℤ◌}

-- A transaction that keeps what it began with where it throws.
debited-IsBalanced :
    (env : Env) (args : DebitArgs) (db : Db)
    → IsBalanced db
    → (r : Debited) (t : Db) → debit_in_transaction env args db ≡ ok (r, t)
    → IsBalanced t
debited-IsBalanced env args db h r t e = rw e at (debit-IsBalanced env args db h)

collect_renewal-IsBalanced :
    (env : Env) (now : ℕ) (sub : NumberSubscription) (amount : ℤ) (db : Db)
    → IsBalanced db
    → IsBalanced (collect_renewal env now sub amount db).1
unfolding collect_renewal
collect_renewal-IsBalanced env now sub amount db h =
    elim (Result-cases (debit_in_transaction env (renewal_args now sub amount) db)) [
      | inl ((r, t), e) ↦
          rw (e, collect_renewal) (debited-IsBalanced env (renewal_args now sub amount) db h r t e)
      | inr (x, e) ↦ elim (Bool-cases (is_insufficient_funds x)) [
        | inl short ↦ rw (e, collect_renewal, short) h
        | inr other ↦ rw (e, collect_renewal, other) h
      ]
    ]

renew_unbilled-IsBalanced :
    (env : Env) (now : ℕ) (sub : NumberSubscription) (w : Wallet) (amount : ℤ) (seen db : Db)
    → IsBalanced db
    → IsBalanced (renew_unbilled env now sub w amount seen db).1
unfolding renew_unbilled
renew_unbilled-IsBalanced env now sub w amount seen db h =
    elim (Bool-cases (can_spend (tenant_of sub.tenant_id seen) w.balance_minor amount)) [
      | inl may ↦ rw may (collect_renewal-IsBalanced env now sub amount db h)
      | inr short ↦ elim (Bool-cases (is_postpaid (tenant_of sub.tenant_id seen))) [
        | inl postpaid ↦ rw (short, postpaid) h
        | inr prepaid ↦ rw (short, prepaid) h
      ]
    ]

pub renew-IsBalanced :
    (rates : BillingRates) (env : Env) (now : ℕ) (sub : NumberSubscription) (seen db : Db)
    → IsBalanced db
    → IsBalanced (renew_subscription rates env now sub seen db).1
unfolding renew_subscription
renew-IsBalanced rates env now sub seen db h = elim (Option-cases (wallet_of sub.tenant_id seen)) [
  | inl gone ↦ rw (gone, renew_subscription) h
  | inr (w, e) ↦ elim (Option-cases (ledger_entry (number_cycle_ref now sub) debit seen)) [
    | inr (row, dupe) ↦ rw (e, dupe, renew_subscription) h
    | inl new ↦
        rw (e, new, renew_subscription)
          (renew_unbilled-IsBalanced env now sub w (renewal_amount rates w.currency sub) seen db h)
  ]
]

renew_all-IsBalanced :
    (rates : BillingRates) (envs : String → Env) (others : String → Db → Db) (now : ℕ)
    (subs : List NumberSubscription) (r : BillingResult) (db : Db)
    → ((id : String) (s : Db) → IsBalanced s → IsBalanced (others id s))
    → IsBalanced db
    → IsBalanced (renew_all rates envs others now subs r db).1
unfolding renew_all
renew_all-IsBalanced rates envs others now [] r db keep h = h
renew_all-IsBalanced rates envs others now (sub ∷ subs) r db keep h =
    let kept =
      renew-IsBalanced rates (envs sub.id) now sub db (others sub.id db) (keep sub.id db h) in
    elim (Result-cases (renew_subscription rates (envs sub.id) now sub db (others sub.id db)).0) [
      | inl (o, e) ↦
          rw (e, renew_all)
            (renew_all-IsBalanced rates envs others now subs (tallied o r) _ keep kept)
      | inr (x, e) ↦ rw (e, renew_all) kept
    ]

collect_plan-IsBalanced :
    (env : Env) (now next : ℕ) (id : String) (args : DebitArgs) (db : Db)
    → IsBalanced db
    → IsBalanced (collect_plan env now next id args db).1
unfolding collect_plan
collect_plan-IsBalanced env now next id args db h =
    elim (Result-cases (debit_in_transaction env args db)) [
      | inl ((r, t), e) ↦ rw (e, collect_plan) (debited-IsBalanced env args db h r t e)
      | inr (x, e) ↦ elim (Bool-cases (is_insufficient_funds x)) [
        | inl short ↦ rw (e, collect_plan, short) h
        | inr other ↦ rw (e, collect_plan, other) h
      ]
    ]

bill_fee-IsBalanced :
    (env : Env) (now next seats : ℕ) (fee ngn_per_usd : ℤ) (t : Tenant) (db : Db)
    → IsBalanced db
    → IsBalanced (bill_fee env now next seats fee ngn_per_usd t db).1
unfolding bill_fee
bill_fee-IsBalanced env now next seats fee ngn_per_usd t db h =
    elim (Option-cases (wallet_of t.id db)) [
      | inl gone ↦ rw (gone, bill_fee) h
      | inr (w, e) ↦ elim (Option-cases (ledger_entry (plan_cycle_ref now t) debit db)) [
        | inr (row, dupe) ↦ rw (e, dupe, bill_fee) h
        | inl new ↦
            let amount = to_currency_minor (fee *ℤ pos seats) w.currency ngn_per_usd in
            elim (Bool-cases (can_spend (tenant_of t.id db) w.balance_minor amount)) [
              | inl may ↦
                  rw (e, new, may, bill_fee)
                    (collect_plan-IsBalanced env now next t.id (plan_args now t seats fee amount) db
                      h)
              | inr short ↦ rw (e, new, short, bill_fee) h
            ]
      ]
    ]

bill_plan-IsBalanced :
    (pricing : Option Pricing) (ngn_per_usd : ℤ) (env : Env) (now : ℕ) (t : Tenant) (due : ℕ)
    (db : Db)
    → IsBalanced db
    → IsBalanced (bill_plan pricing ngn_per_usd env now t due db).1
unfolding bill_plan
bill_plan-IsBalanced pricing ngn_per_usd env now t due db h =
    elim (Bool-cases (is_on_trial now t)) [
      | inl trial ↦ rw trial h
      | inr past ↦ elim (Bool-cases (eqb_ℤ (seat_fee t pricing) (pos 0))) [
        | inl free ↦ rw (past, free) h
        | inr priced ↦
            rw (past, priced)
              (bill_fee-IsBalanced env now (next_plan_date (interval_of t) due) (seats_of t.id db)
                (seat_fee t pricing) ngn_per_usd t db h)
      ]
    ]

bill_plans-IsBalanced :
    (pricing : Option Pricing) (ngn_per_usd : ℤ) (envs : String → Env) (now : ℕ)
    (ts : List (Tenant × ℕ)) (r : PlanResult) (db : Db)
    → IsBalanced db
    → IsBalanced (bill_plans pricing ngn_per_usd envs now ts r db).1
unfolding bill_plans
bill_plans-IsBalanced pricing ngn_per_usd envs now [] r db h = h
bill_plans-IsBalanced pricing ngn_per_usd envs now ((t, due) ∷ ts) r db h =
    let kept = bill_plan-IsBalanced pricing ngn_per_usd (envs t.id) now t due db h in
    elim (Result-cases (bill_plan pricing ngn_per_usd (envs t.id) now t due db).0) [
      | inl (o, e) ↦
          rw (e, bill_plans)
            (bill_plans-IsBalanced pricing ngn_per_usd envs now ts (tallied_plan o r) _ kept)
      | inr (x, e) ↦ rw (e, bill_plans) kept
    ]

-- A billing run, to its end or to an error that stops it between two charges, leaves every balance
-- equal to the sum of its ledger rows, where it was so before and whatever other transactions that
-- keep it so do between the reads and the writes of a renewal.
pub billing-IsBalanced :
    (envs : String → Env) (others : String → Db → Db) (now : ℕ) (db : Db)
    → ((id : String) (s : Db) → IsBalanced s → IsBalanced (others id s))
    → IsBalanced db
    → IsBalanced (run_monthly_billing envs others now db).1
unfolding run_monthly_billing run_renewals
billing-IsBalanced envs others now db keep h =
    let numbers = run_renewals envs others now db in
    let kept : IsBalanced numbers.1 =
      renew_all-IsBalanced (billing_rates db) envs others now
        (due_subscriptions now db.number_subscriptions) _ db keep h in
    elim (Result-cases numbers.0) [
      | inr (x, e) ↦ rw (e, run_monthly_billing) kept
      | inl (r, e) ↦
          let ngn_per_usd = (billing_rates db).ngn_per_usd in
          let ts = due_plans now numbers.1.tenants in
          let start : PlanResult = record { due = 0; charged = 0; skipped = 0; unpaid = 0 } in
          let done =
            bill_plans-IsBalanced db.pricing ngn_per_usd envs now ts start numbers.1 kept in
          elim (Result-cases (bill_plans db.pricing ngn_per_usd envs now ts start numbers.1).0) [
            | inr (x, f) ↦ rw (e, f, run_monthly_billing) done
            | inl (q, f) ↦ rw (e, f, run_monthly_billing) done
          ]
    ]
