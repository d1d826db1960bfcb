-- ===== src/Billing/Seats.antt =====
-- server/utils/billing.ts, `seatCostMinor`, `canAffordSeat` and `prorateSeat`: a seat added partway
-- through a cycle.
use telroi_ai_app.Base.Tx.{pure, ◌>>=◌}
use telroi_ai_app.Invoices.Dunning.{days_left}
use telroi_ai_app.Billing.Plans.{interval_text, interval_of, is_on_trial}
use telroi_ai_app.Base.Tx.{ok}
use telroi_ai_app.Wallet.Spend.{can_spend, int, round_div}
use telroi_ai_app.Billing.Prices.{
  Rates, Interval, get_pricing, plan_fee_usd_minor, to_currency_minor,
}
use telroi_ai_app.Db.{flag, num, text, wallet_of, Currency, Tenant, Tx, tenant_of, Db, Env}
use telroi_ai_app.Base.Calendar.{two_digits, day_ms, civil_of_days}
use telroi_ai_app.Wallet.Debit.{debit_in_transaction, DebitArgs}
use telroi_ai_app.Base.{
  ℕ, zero, suc, ◌+◌, ◌-◌, ◌*◌, ◌/◌, String, Bool, true, ◌||◌, Option, none, some, [], ◌∷◌, or_else,
  ltb, leb, if◌then◌else◌,
}
use telroi_ai_app.Base.Int.{eqb_ℤ, ltb_ℤ, neg, ℤ, pos, negsuc, ◌*ℤ◌}
use Prim.Native.String.{slice, ◌++◌}
use Prim.Native.Nat.{◌%◌}

pub record SeatCost : Type 0 where
  pub amount_minor : ℤ
  pub days_left : ℕ
  pub seat_usd_minor : ℤ
  pub cycle_days : ℕ

abbrev pub cycle_days_of : Interval → ℕ
cycle_days_of Interval.annual = 365
cycle_days_of Interval.monthly = 30

abbrev pub min_ℕ : ℕ → ℕ → ℕ
min_ℕ a b = if ltb a b then a else b

-- `Math.round(a / b)`: half goes up.
unfoldable pub round_ratio : ℤ → ℕ → ℤ
unfolding neg
round_ratio (pos a) b = pos (round_div a b)
round_ratio (negsuc a) b = neg (pos ((2 * suc a + (b - 1)) / (2 * b)))

-- `rate || 1600`
abbrev pub rate_or_default : ℤ → ℤ
rate_or_default (pos zero) = pos 1_600
rate_or_default (pos (suc n)) = pos (suc n)
rate_or_default (negsuc n) = negsuc n

-- The share of the seat's fee for the days that are left of the cycle.
unfoldable pub prorated : ℤ → ℕ → ℕ → Currency → ℤ → ℤ
unfolding round_ratio to_currency_minor
prorated seat_usd days cycle currency ngn_per_usd =
    to_currency_minor (round_ratio (seat_usd *ℤ pos days) cycle) currency
      (rate_or_default ngn_per_usd)

-- From the plan's next date on.
unfoldable pub cost_until : Rates → Tenant → ℕ → ℕ → Db → Option SeatCost
unfolding plan_fee_usd_minor prorated
cost_until rates t now next db =
    let seat_usd = plan_fee_usd_minor t.plan rates (interval_of t) in
    let cycle = cycle_days_of (interval_of t) in
    let days = min_ℕ cycle (days_left next now) in
    if eqb_ℤ seat_usd (pos 0) || leb days 0 then none else elim (wallet_of t.id db) [
      | none ↦ none
      | some wallet ↦ some (record {
        amount_minor = prorated seat_usd days cycle wallet.currency rates.ngn_per_usd;
        days_left = days;
        seat_usd_minor = seat_usd;
        cycle_days = cycle;
      })
    ]

-- `seatCostMinor`, and the same steps of `prorateSeat`
unfoldable pub seat_cost_minor : String → ℕ → Db → Option SeatCost
unfolding cost_until get_pricing
seat_cost_minor tenant_id now db = elim (tenant_of tenant_id db) [
  | none ↦ none
  | some t ↦ if t.is_internal || is_on_trial now t then none else elim t.plan_next_billing_at [
    | none ↦ none
    | some next ↦ cost_until (get_pricing tenant_id db) t now next db
  ]
]

-- `canAffordSeat`
unfoldable pub can_afford_seat : String → ℕ → Db → Bool
unfolding seat_cost_minor
can_afford_seat tenant_id now db = elim (seat_cost_minor tenant_id now db) [
  | none ↦ true
  | some cost ↦ if ltb_ℤ cost.amount_minor (pos 1) then true else elim (wallet_of tenant_id db) [
    | none ↦ true
    | some wallet ↦ can_spend (tenant_of tenant_id db) wallet.balance_minor cost.amount_minor
  ]
]

-- The names of `Date`'s text.
abbrev weekday : ℕ → String
weekday n = slice "SunMonTueWedThuFriSat" (3 * n) (3 * n + 3)

abbrev month_name : ℕ → String
month_name n = slice "JanFebMarAprMayJunJulAugSepOctNovDec" (3 * (n - 1)) (3 * n)

-- `String(date).slice(0, 10)`, in UTC: the weekday, the month and the day.
unfoldable pub short_date : ℕ → String
unfolding civil_of_days
short_date t =
    let days = t / day_ms in
    let c = civil_of_days days in
    weekday ((days + 4) % 7) ++ " " ++ month_name c.month ++ " " ++ two_digits c.day

unfoldable pub seat_ref : String → String → ℕ → String
unfolding short_date
seat_ref tenant_id user_id next = "seat_" ++ tenant_id ++ "_" ++ user_id ++ "_" ++ short_date next

abbrev pub seat_args : String → String → String → SeatCost → String → DebitArgs
seat_args tenant_id user_id interval cost reference = record {
  tenant_id = tenant_id;
  amount_minor = int cost.amount_minor;
  reason = "plan_seat";
  reference = some reference;
  meta =
      ("userId", text user_id)
      ∷ ("daysLeft", num (pos cost.days_left))
      ∷ ("cycleDays", num (pos cost.cycle_days))
      ∷ ("seatUsdMinor", num cost.seat_usd_minor)
      ∷ ("interval", text interval)
      ∷ ("prorated", flag true)
      ∷ [];
}

-- The debit of a seat's cost.
abbrev pub charge_seat : Env → Tenant → String → SeatCost → Tx (Option ℤ)
charge_seat env t user_id cost db =
    if ltb_ℤ cost.amount_minor (pos 1)
    then ok (none, db)
    else (do
      _ ← debit_in_transaction env (
          seat_args t.id user_id (interval_text (interval_of t)) cost
            (seat_ref t.id user_id (or_else t.plan_next_billing_at 0)))
      pure (some cost.amount_minor))
        db

-- `prorateSeat`: what it charged, or nothing.
unfoldable pub prorate_seat : Env → String → String → Tx (Option ℤ)
unfolding seat_cost_minor seat_ref
prorate_seat env tenant_id user_id db = elim (tenant_of tenant_id db) [
  | none ↦ ok (none, db)
  | some t ↦ elim (seat_cost_minor tenant_id env.now db) [
    | none ↦ ok (none, db)
    | some cost ↦ charge_seat env t user_id cost db
  ]
]
