-- ===== src/Wallet/Spend.antt =====
-- server/utils/wallet.ts, the pure part: who may spend what, the tax inside a top-up, and the
-- exchange rate stamped on a ledger row.
use telroi_ai_app.Base.{
  ℕ, suc, zero, ◌+◌, ◌*◌, ◌/◌, Bool, false, ◌&&◌, ◌||◌, Option, some, none, List, [], ◌∷◌, String,
  ◌==◌, is_some, or_else, if◌then◌else◌, ltb,
}
use telroi_ai_app.Base.Int.{ℤ, pos, negsuc, ◌-ℤ◌, neg, leb_ℤ}
use telroi_ai_app.Db.{Currency, ngn, usd, currency_is, Tenant, Db, MetaValue, text, num, flag}

-- A JavaScript number, read as an integer where it is one (`Number.isInteger`).
pub data Number : Type 0 where
  int : ℤ → Number
  non_integer : Number

-- `Number.isInteger(a) && a > 0`, with the integer.
abbrev pub positive_integer : Number → Option ℕ
positive_integer (int (pos (suc n))) = some (suc n)
positive_integer (int (pos zero)) = none
positive_integer (int (negsuc n)) = none
positive_integer non_integer = none

-- The lowest balance that the workspace may reach.
abbrev pub floor : Tenant → ℤ
floor tenant = neg (or_else tenant.credit_limit_minor (pos 0))

-- `canSpend`
unfoldable pub can_spend : Option Tenant → ℤ → ℤ → Bool
can_spend none balance amount = leb_ℤ amount balance
can_spend (some tenant) balance amount =
    if is_some tenant.billing_suspended_at
    then false
    else if tenant.postpaid
    then leb_ℤ (floor tenant) (balance -ℤ amount)
    else leb_ℤ amount balance

-- `fxStamp`: the currency, and the naira to the dollar that applied.
unfoldable pub fx_stamp : Currency → Db → List (String × MetaValue)
fx_stamp usd db = ("currency", text "USD") ∷ ("ngnPerUsd", num (pos 1)) ∷ []
fx_stamp ngn db =
    ("currency", text "NGN")
    ∷ ("ngnPerUsd", num (elim db.pricing [ none ↦ pos 1600 | some p ↦ p.ngn_per_usd ]))
    ∷ []

-- `VAT_RATE`, in ten-thousandths
abbrev pub vat_rate : ℤ
vat_rate = pos 750

-- A rate that is not negative, or the platform's.
abbrev pub effective_rate : ℤ → ℕ
effective_rate (pos k) = k
effective_rate (negsuc k) = 750

-- The reasons under which a customer's own money arrives.
abbrev pub is_customer_topup : String → Bool
is_customer_topup reason = reason == "topup" || reason == "manual_topup" || reason == "auto_topup"

-- `Math.round(a / b)` for a quotient that is not negative: half goes up.
abbrev pub round_div : ℕ → ℕ → ℕ
round_div a b = (2 * a + b) / (2 * b)

-- `walletCreditVatMinor`: `amount - amount / (1 + r)` is `amount * k / (10000 + k)` where `k` is the
-- rate in ten-thousandths. The source computes in doubles.
unfoldable pub wallet_credit_vat_minor : Currency → String → ℕ → ℤ → ℕ
wallet_credit_vat_minor currency reason amount rate =
    let k = effective_rate rate in
    if currency_is currency ngn && is_customer_topup reason && ltb 0 k
    then round_div (amount * k) (10000 + k)
    else 0

-- The last of a list of JSON fields that has a name: what a spread leaves in the object.
abbrev pub last_field : String → List (String × MetaValue) → Option MetaValue
last_field name [] = none
last_field name ((k, v) ∷ m) = elim (last_field name m) [
  | some w ↦ some w
  | none ↦ if k == name then some v else none
]

-- `meta.simulated === true`
abbrev pub is_simulated : List (String × MetaValue) → Bool
is_simulated meta = elim (last_field "simulated" meta) [
  | some (flag b) ↦ b
  | some (text s) ↦ false
  | some (num n) ↦ false
  | none ↦ false
]
