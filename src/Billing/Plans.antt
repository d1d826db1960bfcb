-- ===== src/Billing/Plans.antt =====
-- server/utils/billing.ts, `runMonthlyBilling`, its second loop: the plan fee of each workspace, per
-- seat; and the whole run.
use telroi_ai_app.Wallet.Spend.{int, can_spend}
use telroi_ai_app.Base.Tx.{err, ok, Result}
use telroi_ai_app.Wallet.Debit.{debit_in_transaction, DebitArgs}
use telroi_ai_app.Db.{
  num, text, tenant_of, debit, ledger_entry, wallet_of, Db, Env, Plan, Pricing, Tenant,
}
use telroi_ai_app.Base.Calendar.{add_days, iso_date, next_year}
use telroi_ai_app.Billing.Prices.{
  at_least_one, rates_of_row, Interval, plan_fee_usd_minor, to_currency_minor,
}
use telroi_ai_app.Billing.Renewals.{
  billing_rates, is_insufficient_funds, BillingResult, run_renewals,
}
use telroi_ai_app.Base.{
  ℕ, ◌+◌, String, Bool, false, not, ◌&&◌, Option, none, some, List, [], ◌∷◌, ◌==◌, ltb, leb,
  if◌then◌else◌,
}
use telroi_ai_app.Base.Int.{eqb_ℤ, ℤ, pos, ◌*ℤ◌}
use Prim.Native.String.{◌++◌}
use telroi_ai_app.Base.Rows.{update_where, count}

-- What became of a plan fee; `on_trial` is not counted as due.
pub data PlanFee : Type 0 where
  on_trial charged skipped unpaid : PlanFee

abbrev pub interval_of : Tenant → Interval
interval_of t = if t.billing_interval == "annual" then Interval.annual else Interval.monthly

abbrev pub is_on_trial : ℕ → Tenant → Bool
is_on_trial now t = elim t.trial_ends_at [ none ↦ false | some ends ↦ ltb now ends ]

-- `Math.max(1, seatRow?.n || 1)`
abbrev pub seats_of : String → Db → ℕ
seats_of tenant_id db = at_least_one (count (λ m. m.tenant_id == tenant_id) db.memberships)

-- The fee of one seat; without a row of prices it is not a number, and counts as none.
unfoldable pub seat_fee : Tenant → Option Pricing → ℤ
unfolding plan_fee_usd_minor
seat_fee t none = pos 0
seat_fee t (some p) = plan_fee_usd_minor t.plan (rates_of_row p) (interval_of t)

-- The next date of the plan: a year or thirty days on.
unfoldable pub next_plan_date : Interval → ℕ → ℕ
unfolding next_year
next_plan_date Interval.annual t = next_year t
next_plan_date Interval.monthly t = add_days 30 t

abbrev pub plan_text : Plan → String
plan_text Plan.startup = "startup"
plan_text Plan.growth = "growth"
plan_text Plan.custom = "custom"

abbrev pub interval_text : Interval → String
interval_text Interval.monthly = "monthly"
interval_text Interval.annual = "annual"

abbrev pub plan_cycle_ref : ℕ → Tenant → String
plan_cycle_ref now t = "planbill_" ++ t.id ++ "_" ++ iso_date now

abbrev pub plan_args : ℕ → Tenant → ℕ → ℤ → ℤ → DebitArgs
plan_args now t seats fee amount = record {
  tenant_id = t.id;
  amount_minor = int amount;
  reason = "plan_fee";
  reference = some (plan_cycle_ref now t);
  meta =
      ("plan", text (plan_text t.plan))
      ∷ ("interval", text (interval_text (interval_of t)))
      ∷ ("seats", num (pos seats))
      ∷ ("perSeatUsdMinor", num fee)
      ∷ [];
}

-- The step forward of the plan's dates.
abbrev pub advance_plan : ℕ → ℕ → String → Db → Db
advance_plan now next id db = record db {
  tenants =
      update_where (λ t. t.id == id)
        (λ t. record t { plan_last_billed_at = some now; plan_next_billing_at = some next })
        db.tenants;
}

-- The transaction of a plan fee, with its `catch`.
unfoldable pub collect_plan : Env → ℕ → ℕ → String → DebitArgs → Db → Result PlanFee × Db
collect_plan env now next id args db = elim (debit_in_transaction env args db) [
  | ok p ↦ (ok (if p.0.idempotent then skipped else charged), advance_plan now next id p.1)
  | err e ↦ if is_insufficient_funds e then (ok unpaid, db) else (err e, db)
]

-- From the fee on, where there is one.
unfoldable pub bill_fee : Env → ℕ → ℕ → ℕ → ℤ → ℤ → Tenant → Db → Result PlanFee × Db
unfolding collect_plan to_currency_minor ◌*ℤ◌
bill_fee env now next seats fee ngn_per_usd t db = elim (wallet_of t.id db) [
  | none ↦ (ok skipped, db)
  | some wallet ↦
      let amount = to_currency_minor (fee *ℤ pos seats) wallet.currency ngn_per_usd in
      elim (ledger_entry (plan_cycle_ref now t) debit db) [
        | some dupe ↦ (ok skipped, db)
        | none ↦
            if can_spend (tenant_of t.id db) wallet.balance_minor amount
            then collect_plan env now next t.id (plan_args now t seats fee amount) db
            else (ok unpaid, db)
      ]
]

-- The body of the loop, from the plan's date on.
unfoldable pub bill_plan : Option Pricing → ℤ → Env → ℕ → Tenant → ℕ → Db → Result PlanFee × Db
unfolding bill_fee seat_fee next_plan_date
bill_plan pricing ngn_per_usd env now t due db =
    if is_on_trial now t
    then (ok on_trial, db)
    else (let fee = seat_fee t pricing in
        let next = next_plan_date (interval_of t) due in
        if eqb_ℤ fee (pos 0)
        then (ok skipped, advance_plan now next t.id db)
        else bill_fee env now next (seats_of t.id db) fee ngn_per_usd t db)

-- `result.plans`
pub record PlanResult : Type 0 where
  pub due : ℕ
  pub charged : ℕ
  pub skipped : ℕ
  pub unpaid : ℕ

abbrev pub tallied_plan : PlanFee → PlanResult → PlanResult
tallied_plan PlanFee.on_trial r = r
tallied_plan PlanFee.charged r = record r { due = r.due + 1; charged = r.charged + 1 }
tallied_plan PlanFee.skipped r = record r { due = r.due + 1; skipped = r.skipped + 1 }
tallied_plan PlanFee.unpaid r = record r { due = r.due + 1; unpaid = r.unpaid + 1 }

-- The workspaces whose plan is due, with the date.
abbrev pub due_plans : ℕ → List Tenant → List (Tenant × ℕ)
due_plans now [] = []
due_plans now (t ∷ ts) = elim t.plan_next_billing_at [
  | none ↦ due_plans now ts
  | some due ↦
      if not t.is_internal && leb due now then (t, due) ∷ due_plans now ts else due_plans now ts
]

unfoldable pub bill_plans :
    Option Pricing
    → ℤ
    → (String → Env)
    → ℕ
    → List (Tenant × ℕ)
    → PlanResult
    → Db
    → Result PlanResult × Db
unfolding bill_plan
bill_plans pricing ngn_per_usd envs now [] r db = (ok r, db)
bill_plans pricing ngn_per_usd envs now ((t, due) ∷ ts) r db =
    let p = bill_plan pricing ngn_per_usd (envs t.id) now t due db in
    elim p.0 [
      | err e ↦ (err e, p.1)
      | ok outcome ↦ bill_plans pricing ngn_per_usd envs now ts (tallied_plan outcome r) p.1
    ]

-- `runMonthlyBilling`, its details left out: the prices are read once, before both loops.
unfoldable pub run_monthly_billing :
    (String → Env) → (String → Db → Db) → ℕ → Db → Result (BillingResult × PlanResult) × Db
unfolding run_renewals bill_plans
run_monthly_billing envs others now db =
    let numbers = run_renewals envs others now db in
    elim numbers.0 [
      | err e ↦ (err e, numbers.1)
      | ok r ↦
          let ngn_per_usd = (billing_rates db).ngn_per_usd in
          let plans =
            bill_plans db.pricing ngn_per_usd envs now (due_plans now numbers.1.tenants)
              (record { due = 0; charged = 0; skipped = 0; unpaid = 0 }) numbers.1 in
          elim plans.0 [ err e ↦ (err e, plans.1) | ok q ↦ (ok (r, q), plans.1) ]
    ]
