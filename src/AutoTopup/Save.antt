-- ===== src/AutoTopup/Save.antt =====
-- server/utils/auto-topup.ts, `saveAutoTopupSettings`: compare and update under the wallet's lock.
use telroi_ai_app.Base.Blank.{is_blank}
use telroi_ai_app.Base.Rows.{update_where}
use telroi_ai_app.AutoTopup.Attempts.{cancel_unsent_auto_topups}
use telroi_ai_app.AutoTopup.Settings.{
  state_of_wallet, validate_auto_topup_amounts, AutoTopupAmounts, AutoTopupState,
}
use telroi_ai_app.AutoTopup.Policy.{same_text, auto_topup_consent_version, has_current_consent}
use telroi_ai_app.Base.{
  ◌∷◌, if◌then◌else◌, ℕ, Bool, false, not, ◌&&◌, ◌||◌, Option, some, none, String, ◌==◌,
}
use telroi_ai_app.Base.Int.{eqb_ℤ, ℤ, pos}
use telroi_ai_app.Base.Tx.{err, api, ok, pure, gets, modify, or_throw, throw_unless, ◌>>=◌, ◌>>◌}
use telroi_ai_app.Db.{
  settings_of, wallet_of, Currency, AutoTopupSettings, PaymentMethod, Db, Env, Tx,
}
use telroi_ai_app.Wallet.Spend.{Number, int, non_integer}

-- The values of a save, with what the form says of consent.
pub record SettingsValues : Type 0 where
  pub amounts : AutoTopupAmounts
  pub enabled : Bool
  pub consent_accepted : Bool

-- `AutoTopupConsentActor`
pub record AutoTopupConsentActor : Type 0 where
  pub user_id : String
  pub email : String

-- A number that has been found to be an integer.
abbrev pub whole : Number → ℤ
whole (int n) = n
whole non_integer = pos 0

abbrev pub card_id : Option PaymentMethod → Option String
card_id none = none
card_id (some card) = some card.id

-- `changed`: there were settings, with other amounts or another card.
abbrev pub is_changed : Option AutoTopupSettings → SettingsValues → Option String → Bool
is_changed none values method = false
is_changed (some s) values method =
    not (eqb_ℤ s.threshold_minor (whole values.amounts.threshold_minor))
    || not (eqb_ℤ s.topup_amount_minor (whole values.amounts.topup_amount_minor))
    || not (same_text s.payment_method_id method)

abbrev pub was_enabled : Option AutoTopupSettings → Bool
was_enabled none = false
was_enabled (some s) = s.enabled

abbrev pub consent_is_current : Option AutoTopupSettings → Bool
consent_is_current none = false
consent_is_current (some s) = has_current_consent s

-- `needsConsent`
abbrev pub needs_consent : Option AutoTopupSettings → SettingsValues → Option String → Bool
needs_consent before values method =
    values.enabled
    && (not (was_enabled before)
        || is_changed before values method
        || not (consent_is_current before))

-- The settings with the payload of the save, their consent aside.
abbrev pub payload : Env → String → SettingsValues → Option String → AutoTopupSettings
payload env tenant_id values method = record {
  tenant_id = tenant_id;
  payment_method_id = method;
  enabled = values.enabled;
  threshold_minor = whole values.amounts.threshold_minor;
  topup_amount_minor = whole values.amounts.topup_amount_minor;
  consent_version = none;
  consented_at = none;
  consented_by_user_id = none;
  consented_by_email = none;
  updated_at = env.now;
}

-- A consent given now.
abbrev pub consented : Env → AutoTopupConsentActor → AutoTopupSettings → AutoTopupSettings
consented env actor s = record s {
  consent_version = some auto_topup_consent_version;
  consented_at = some env.now;
  consented_by_user_id = some actor.user_id;
  consented_by_email = some actor.email;
}

-- The consent of the settings before, if there were any.
abbrev pub keep_consent : Option AutoTopupSettings → AutoTopupSettings → AutoTopupSettings
keep_consent none s = s
keep_consent (some before) s = record s {
  consent_version = before.consent_version;
  consented_at = before.consented_at;
  consented_by_user_id = before.consented_by_user_id;
  consented_by_email = before.consented_by_email;
}

-- The row that is saved.
abbrev pub saved_settings :
    Env
    → String
    → SettingsValues
    → AutoTopupConsentActor
    → Option AutoTopupSettings
    → Option String
    → AutoTopupSettings
saved_settings env tenant_id values actor before method =
    if needs_consent before values method
    then consented env actor (payload env tenant_id values method)
    else keep_consent before (payload env tenant_id values method)

-- `insert … onConflictDoUpdate`
unfoldable pub upsert_settings : AutoTopupSettings → Db → Db
upsert_settings s db = elim (settings_of s.tenant_id db) [
  | none ↦ record db { auto_topup_settings = s ∷ db.auto_topup_settings }
  | some old ↦ record db {
    auto_topup_settings =
        update_where (λ x. x.tenant_id == s.tenant_id) (λ _. s) db.auto_topup_settings;
  }
]

-- The cancellation of work that the new configuration does not ask for.
abbrev pub cancel_changed : Env → String → Bool → Bool → Db → Db
cancel_changed env tenant_id enabled changed db =
    if not enabled || changed
    then cancel_unsent_auto_topups env tenant_id
        (if enabled then "configuration_changed" else "auto_topup_disabled") none db
    else db

-- A refusal, if there is a reason.
abbrev pub refuse : Option String → ℕ → Tx (Unit {0})
refuse none status db = ok (tt, db)
refuse (some code) status db = err (api code status)

-- The refusals of a save.
unfoldable pub check_save : SettingsValues → AutoTopupConsentActor → AutoTopupState → Tx (Unit {0})
check_save values actor before = do
  refuse
      (validate_auto_topup_amounts values.amounts before.minimum_topup_minor
        before.maximum_topup_minor)
      400
  refuse (if values.enabled then before.ineligible_reason else none) 409
  let needs = needs_consent before.settings values (card_id before.card)
  throw_unless (not needs || values.consent_accepted) (api "auto_topup_consent_required" 409)
  throw_unless (not needs || (not (actor.user_id == "") && not (is_blank actor.email)))
      (api "auto_topup_consent_actor_missing" 409)

-- The writes of a save.
unfoldable pub write_save :
    Env → String → SettingsValues → AutoTopupConsentActor → AutoTopupState → Db → Db
unfolding upsert_settings
write_save env tenant_id values actor before db =
    let method = card_id before.card in
    cancel_changed env tenant_id values.enabled (is_changed before.settings values method)
      (upsert_settings (saved_settings env tenant_id values actor before.settings method) db)

-- `saveAutoTopupSettings`
unfoldable pub save_auto_topup_settings :
    Env → String → SettingsValues → AutoTopupConsentActor → Tx Currency
unfolding check_save write_save
save_auto_topup_settings env tenant_id values actor = do
  wallet ← or_throw (← gets (wallet_of tenant_id)) (api "no_wallet" 404)
  before ← gets (state_of_wallet tenant_id wallet)
  check_save values actor before
  modify (write_save env tenant_id values actor before)
  pure wallet.currency
