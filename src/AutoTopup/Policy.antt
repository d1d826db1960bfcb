-- ===== src/AutoTopup/Policy.antt =====
-- server/utils/auto-topup-attempts.ts, the pure part: which card can serve which wallet, when a debit
-- crosses the threshold, and when a queued attempt has to be cancelled.
use telroi_ai_app.Base.{
  Bool, true, false, not, ◌&&◌, ◌||◌, Option, some, none, String, ◌==◌, text_is, is_some,
  is_present, if◌then◌else◌,
}
use telroi_ai_app.Base.Int.{ℤ, pos, leb_ℤ, ltb_ℤ, eqb_ℤ}
use telroi_ai_app.Db.{
  Currency, ngn, usd, currency_is, Tenant, Wallet, AutoTopupSettings, PaymentMethod, Attempt,
}

abbrev pub auto_topup_consent_version : String
auto_topup_consent_version = "2026-09-08"

-- `STRIPE_MAX_AMOUNT_MINOR` of payments.ts
abbrev pub stripe_max_amount_minor : ℤ
stripe_max_amount_minor = pos 99_999_999

-- `providerSupportsWalletCurrency`
unfoldable pub provider_supports_wallet_currency : String → Currency → Bool
provider_supports_wallet_currency provider currency =
    (provider == "stripe" && currency_is currency usd)
    || (provider == "paystack" && currency_is currency ngn)

-- `crossedAutoTopupThreshold`
unfoldable pub crossed_auto_topup_threshold : ℤ → ℤ → ℤ → Bool
crossed_auto_topup_threshold before after threshold =
    leb_ℤ threshold before && ltb_ℤ after threshold

-- `AutoTopupRevalidationState`
pub record RevalidationState : Type 0 where
  pub tenant : Option Tenant
  pub wallet : Option Wallet
  pub settings : Option AutoTopupSettings
  pub card : Option PaymentMethod

-- Two nullable texts are equal.
abbrev pub same_text : Option String → Option String → Bool
same_text none none = true
same_text (some s) (some t) = s == t
same_text _ _ = false

-- The tests on the wallet and the card, from the wallet's currency on.
unfoldable pub card_reason :
    Attempt → AutoTopupSettings → Wallet → Option PaymentMethod → Option String
unfolding provider_supports_wallet_currency
card_reason attempt settings wallet none =
    if leb_ℤ settings.threshold_minor wallet.balance_minor
    then some "balance_recovered"
    else some "payment_method_missing"
card_reason attempt settings wallet (some card) =
    if leb_ℤ settings.threshold_minor wallet.balance_minor
    then some "balance_recovered"
    else if not (text_is attempt.payment_method_id card.id)
        || not (card.tenant_id == attempt.tenant_id)
    then some "payment_method_changed"
    else if not card.reusable || not (is_present card.token_enc)
    then some "payment_method_not_reusable"
    else if not (card.provider == attempt.provider)
    then some "provider_changed"
    else if not (provider_supports_wallet_currency card.provider wallet.currency)
    then some "unsupported_currency"
    else none

-- The tests on the wallet.
unfoldable pub wallet_reason :
    Attempt → AutoTopupSettings → Option Wallet → Option PaymentMethod → Option String
wallet_reason attempt settings none card = some "wallet_currency_changed"
wallet_reason attempt settings (some wallet) card =
    if not (currency_is wallet.currency attempt.currency)
    then some "wallet_currency_changed"
    else card_reason attempt settings wallet card

-- The tests on the amounts.
unfoldable pub amount_reason :
    Attempt → AutoTopupSettings → Option Wallet → Option PaymentMethod → Option String
amount_reason attempt settings wallet card =
    if leb_ℤ settings.threshold_minor (pos 0)
      || leb_ℤ settings.topup_amount_minor settings.threshold_minor
    then some "configuration_changed"
    else if not (eqb_ℤ settings.topup_amount_minor attempt.amount_minor)
        || not (same_text settings.payment_method_id attempt.payment_method_id)
    then some "configuration_changed"
    else if attempt.provider == "stripe" && ltb_ℤ stripe_max_amount_minor attempt.amount_minor
    then some "above_provider_maximum"
    else wallet_reason attempt settings wallet card

-- The tests on the workspace.
unfoldable pub tenant_reason :
    Attempt
    → AutoTopupSettings
    → Option Tenant
    → Option Wallet
    → Option PaymentMethod
    → Option String
tenant_reason attempt settings none wallet card = some "configuration_missing"
tenant_reason attempt settings (some tenant) wallet card =
    if tenant.sandbox_mode
    then some "sandbox_workspace"
    else if tenant.postpaid
    then some "postpaid_workspace"
    else amount_reason attempt settings wallet card

-- Consent to the current terms, by a known person.
abbrev pub has_current_consent : AutoTopupSettings → Bool
has_current_consent settings =
    text_is settings.consent_version auto_topup_consent_version
    && is_some settings.consented_at
    && is_present settings.consented_by_email

-- The tests on the settings.
unfoldable pub settings_reason :
    Attempt
    → Option AutoTopupSettings
    → Option Tenant
    → Option Wallet
    → Option PaymentMethod
    → Option String
settings_reason attempt none tenant wallet card = some "configuration_missing"
settings_reason attempt (some settings) tenant wallet card =
    if not settings.enabled
    then some "auto_topup_disabled"
    else if not (has_current_consent settings)
    then some "consent_missing_or_outdated"
    else tenant_reason attempt settings tenant wallet card

-- `autoTopupCancellationReason`
unfoldable pub auto_topup_cancellation_reason : Attempt → RevalidationState → Option String
auto_topup_cancellation_reason attempt state =
    settings_reason attempt state.settings state.tenant state.wallet state.card
