-- ===== src/AutoTopup/Settings.antt =====
-- server/utils/auto-topup.ts: the owner's configuration of the automatic top-up, its validation, who
-- may enable it, and how a change is saved with the owner's consent.
use telroi_ai_app.AutoTopup.Reasons.{minimum_topup}
use telroi_ai_app.AutoTopup.Policy.{provider_supports_wallet_currency, stripe_max_amount_minor}
use telroi_ai_app.Base.Rows.{find}
use telroi_ai_app.Wallet.Entries.{get_or_create_wallet}
use telroi_ai_app.Base.{
  is_present, if◌then◌else◌, not, ◌&&◌, ◌||◌, Option, some, none, String, ◌==◌,
}
use telroi_ai_app.Base.Int.{leb_ℤ, ltb_ℤ, ℤ, pos}
use telroi_ai_app.Base.Tx.{gets, ◌>>=◌}
use telroi_ai_app.Db.{
  settings_of, tenant_of, Currency, ngn, usd, Tenant, Wallet, AutoTopupSettings, PaymentMethod, Db,
  Env, Tx,
}
use telroi_ai_app.Wallet.Spend.{Number, int, non_integer}

-- `MAX_DATABASE_INTEGER`
abbrev pub max_database_integer : ℤ
max_database_integer = pos 2_147_483_647

-- `AutoTopupAmounts`
pub record AutoTopupAmounts : Type 0 where
  pub threshold_minor : Number
  pub topup_amount_minor : Number

-- A positive integer that the database's column holds, so a safe one too.
unfoldable pub column_integer : Number → Option ℤ
column_integer (int n) = if ltb_ℤ (pos 0) n && leb_ℤ n max_database_integer then some n else none
column_integer non_integer = none

-- The tests on the amounts, once each is a positive integer.
unfoldable pub refill_problem : ℤ → ℤ → ℤ → ℤ → Option String
refill_problem threshold topup minimum maximum =
    if ltb_ℤ topup minimum
    then some "below_minimum"
    else if ltb_ℤ maximum topup
    then some "above_provider_maximum"
    else if leb_ℤ topup threshold
    then some "refill_below_threshold"
    else none

-- `validateAutoTopupAmounts`: the error's code, if there is one
unfoldable pub validate_auto_topup_amounts : AutoTopupAmounts → ℤ → ℤ → Option String
unfolding refill_problem
validate_auto_topup_amounts amounts minimum maximum =
    elim (column_integer amounts.threshold_minor) [
      | none ↦ some "invalid_threshold"
      | some threshold ↦ elim (column_integer amounts.topup_amount_minor) [
        | none ↦ some "invalid_refill"
        | some topup ↦ refill_problem threshold topup minimum maximum
      ]
    ]

-- What `getAutoTopupState` returns.
pub record AutoTopupState : Type 0 where
  pub wallet : Wallet
  pub tenant : Option Tenant
  pub settings : Option AutoTopupSettings
  pub card : Option PaymentMethod
  pub minimum_topup_minor : ℤ
  pub maximum_topup_minor : ℤ
  pub ineligible_reason : Option String

abbrev pub maximum_topup : Currency → ℤ
maximum_topup usd = stripe_max_amount_minor
maximum_topup ngn = max_database_integer

-- The first of the workspace's saved cards.
abbrev pub saved_card : String → Db → Option PaymentMethod
saved_card tenant_id db = find (λ c. c.tenant_id == tenant_id) db.payment_methods

-- Why the card cannot serve, if it cannot.
unfoldable pub card_ineligible : Option PaymentMethod → Currency → Option String
card_ineligible none currency = some "no_saved_card"
card_ineligible (some card) currency =
    if not card.reusable || not (is_present card.token_enc)
    then some "card_not_reusable"
    else if not (card.provider == "stripe") && not (card.provider == "paystack")
    then some "unsupported_provider"
    else if not (provider_supports_wallet_currency card.provider currency)
    then some "card_currency_mismatch"
    else none

-- Why auto top-up cannot be enabled, if it cannot.
unfoldable pub ineligible_reason_of :
    Option Tenant → Option PaymentMethod → Currency → Option String
unfolding card_ineligible
ineligible_reason_of none card currency = card_ineligible card currency
ineligible_reason_of (some tenant) card currency =
    if tenant.sandbox_mode
    then some "sandbox_workspace"
    else if tenant.postpaid
    then some "postpaid_workspace"
    else card_ineligible card currency

-- `getAutoTopupState` on a wallet that is there.
abbrev pub state_of_wallet : String → Wallet → Db → AutoTopupState
state_of_wallet tenant_id wallet db = record {
  wallet = wallet;
  tenant = tenant_of tenant_id db;
  settings = settings_of tenant_id db;
  card = saved_card tenant_id db;
  minimum_topup_minor = minimum_topup wallet.currency db.pricing;
  maximum_topup_minor = maximum_topup wallet.currency;
  ineligible_reason =
      ineligible_reason_of (tenant_of tenant_id db) (saved_card tenant_id db) wallet.currency;
}

-- `getAutoTopupState` without a wallet given: the workspace's is made if it has none.
unfoldable pub get_auto_topup_state : Env → String → Tx AutoTopupState
get_auto_topup_state env tenant_id = do
  wallet ← get_or_create_wallet env tenant_id none
  gets (state_of_wallet tenant_id wallet)
