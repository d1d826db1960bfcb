-- ===== src/AutoTopup/Reasons.antt =====
-- server/utils/auto-topup-executor.ts, the claim: why an attempt is cancelled right before its
-- charge, by its card, its workspace or its amount.
use telroi_ai_app.Base.{
  ltb, ℕ, Bool, not, ◌&&◌, ◌||◌, Option, some, none, String, ◌==◌, is_some, is_present,
  if◌then◌else◌, or_else,
}
use telroi_ai_app.Base.Int.{eqb_ℤ, ℤ, pos, leb_ℤ, ltb_ℤ}
use telroi_ai_app.Db.{
  Pricing, Currency, ngn, usd, Tenant, Wallet, PaymentMethod, Attempt, Db, tenant_of, settings_of,
}
use telroi_ai_app.AutoTopup.Policy.{auto_topup_cancellation_reason}
use telroi_ai_app.Wallet.Debit.{card_of}

abbrev pub is_nonzero : ℤ → Bool
is_nonzero n = not (eqb_ℤ n (pos 0))

-- The tests on the card's provider.
abbrev pub provider_problem : PaymentMethod → Option String
provider_problem card =
    if card.provider == "stripe" && not (is_present card.provider_customer_id)
    then some "customer_missing"
    else if card.provider == "paystack" && not (is_present card.billing_email)
    then some "billing_email_missing"
    else none

-- The tests on the card's expiry. `Date.UTC(year, month, 1)` is the parameter `utc`.
unfoldable pub expiry_problem :
    (ℤ → ℤ → ℤ) → PaymentMethod → Option ℤ → Option ℤ → ℕ → Option String
expiry_problem utc card (some month) (some year) now =
    if ltb_ℤ month (pos 1) || ltb_ℤ (pos 12) month || not (is_nonzero year)
    then some "card_expiry_missing"
    else if leb_ℤ (utc year month) (pos now)
    then some "card_expired"
    else provider_problem card
expiry_problem utc card (some month) none now = some "card_expiry_missing"
expiry_problem utc card none year now = some "card_expiry_missing"

-- `autoTopupCardProblem`
unfoldable pub auto_topup_card_problem : (ℤ → ℤ → ℤ) → PaymentMethod → Attempt → ℕ → Option String
unfolding expiry_problem
auto_topup_card_problem utc card a now =
    if ltb a.created_at card.updated_at
    then some "payment_method_changed"
    else expiry_problem utc card card.exp_month card.exp_year now

-- The least refill of the attempt's currency.
abbrev pub minimum_topup : Currency → Option Pricing → ℤ
minimum_topup usd none = pos 1000
minimum_topup usd (some p) = p.min_topup_usd_minor
minimum_topup ngn none = pos 1_500_000
minimum_topup ngn (some p) = p.min_topup_ngn_minor

-- `reason ||= …`
abbrev pub or_reason : Option String → Option String → Option String
or_reason none next = next
or_reason (some r) next = some r

abbrev pub closed_reason : Option Tenant → Option String
closed_reason none = none
closed_reason (some t) =
    if is_some t.closed_at
    then some "workspace_closed"
    else if is_some t.billing_suspended_at
    then some "workspace_suspended"
    else none

abbrev pub card_problem : (ℤ → ℤ → ℤ) → Option PaymentMethod → Attempt → ℕ → Option String
card_problem utc none a now = none
card_problem utc (some card) a now = auto_topup_card_problem utc card a now

abbrev pub minimum_reason : Attempt → Option Pricing → Option String
minimum_reason a pricing =
    if ltb_ℤ a.amount_minor (minimum_topup a.currency pricing) then some "below_minimum" else none

-- The attempt's card, if it still names one of the workspace's.
abbrev pub attempt_card : Attempt → Db → Option PaymentMethod
attempt_card a db =
    if is_present a.payment_method_id
    then card_of (or_else a.payment_method_id "") a.tenant_id db
    else none

-- Why the claim has to cancel the attempt, if it has to.
unfoldable pub claim_reason : (ℤ → ℤ → ℤ) → ℕ → Attempt → Wallet → Db → Option String
unfolding auto_topup_cancellation_reason auto_topup_card_problem
claim_reason utc now a w db =
    or_reason
      (auto_topup_cancellation_reason a (record {
        tenant = tenant_of a.tenant_id db;
        wallet = some w;
        settings = settings_of a.tenant_id db;
        card = attempt_card a db;
      }))
      (or_reason (closed_reason (tenant_of a.tenant_id db))
        (or_reason (card_problem utc (attempt_card a db) a now) (minimum_reason a db.pricing)))
