-- ===== src/Tests/Configs.antt =====
-- The configuration's theorems at the small database.
use telroi_ai_app.Base.{arith, true, false, none, some, ◌≡◌, ◌↔◌, refl}
use telroi_ai_app.AutoTopup.Settings.{column_integer, ineligible_reason_of}
use telroi_ai_app.AutoTopup.Policy.{provider_supports_wallet_currency}
use telroi_ai_app.Base.Blank.{is_blank}
use telroi_ai_app.AutoTopup.Attempts.{cancel_unsent_auto_topups}
use telroi_ai_app.Base.Int.{pos}
use telroi_ai_app.Base.Tx.{ok, err, Ensures, Result}
use telroi_ai_app.Db.{PaymentMethod, AutoTopupSettings, Db, Currency, usd}
use telroi_ai_app.Wallet.Spend.{int}
use telroi_ai_app.Wallet.Debit.{trigger_input}
use telroi_ai_app.AutoTopup.Attempts.{new_attempt}
use telroi_ai_app.AutoTopup.Policy.{auto_topup_cancellation_reason, stripe_max_amount_minor}
use telroi_ai_app.AutoTopup.Settings.{AutoTopupAmounts, validate_auto_topup_amounts}
use telroi_ai_app.AutoTopup.Save.{
  SettingsValues, AutoTopupConsentActor, save_auto_topup_settings, saved_settings,
}
use telroi_ai_app.AutoTopup.Saved.{AreAccepted, validate_iff}
use telroi_ai_app.AutoTopup.Enabling.{IsReady}
use telroi_ai_app.AutoTopup.Accepts.{save-IsReady}
use telroi_ai_app.AutoTopup.Charged.{saved_is_charged}
use telroi_ai_app.AutoTopup.Disabling.{save-Withdrawn}
use telroi_ai_app.AutoTopup.Withdrawn.{Withdrawn}
use telroi_ai_app.Tests.Data.{env, db, acme, acme_wallet, funding, card, settings}

abbrev amounts : AutoTopupAmounts
amounts = record { threshold_minor = int (pos 600); topup_amount_minor = int (pos 3_000) }

abbrev values : SettingsValues
values = record { amounts = amounts; enabled = true; consent_accepted = true }

abbrev off : SettingsValues
off = record { amounts = amounts; enabled = false; consent_accepted = false }

abbrev owner : AutoTopupConsentActor
owner = record { user_id = "u1"; email = "owner@acme.test" }

abbrev saved_state : Result (Currency × Db) → Db
saved_state (ok p) = p.1
saved_state (err e) = db

validate_iff_example :
    (validate_auto_topup_amounts amounts (pos 1_000) stripe_max_amount_minor ≡ none)
    ↔ AreAccepted amounts (pos 1_000) stripe_max_amount_minor
validate_iff_example = validate_iff amounts (pos 1_000) stripe_max_amount_minor

save-IsReady_example :
    Ensures
      (λ _ t. (s : AutoTopupSettings) × (c : PaymentMethod) × IsReady "t1" acme_wallet s c t)
      (save_auto_topup_settings env "t1" values owner db)
save-IsReady_example = save-IsReady env "t1" values owner acme_wallet db refl refl

saved_is_charged_example :
    let s = saved_settings env "t1" values owner (some settings) (some "m1") in
    auto_topup_cancellation_reason
      (new_attempt env (trigger_input funding s card acme_wallet))
      (record {
        tenant = some acme;
        wallet = some acme_wallet;
        settings = some s;
        card = some card;
      })
    ≡ none
unfolding save_auto_topup_settings validate_auto_topup_amounts column_integer ineligible_reason_of
    provider_supports_wallet_currency is_blank cancel_unsent_auto_topups
saved_is_charged_example =
    let s = saved_settings env "t1" values owner (some settings) (some "m1") in
    saved_is_charged env env "t1" values owner usd funding acme acme_wallet acme_wallet s card db
      (saved_state (save_auto_topup_settings env "t1" values owner db)) refl refl refl refl refl
      refl refl refl refl (omega arith)

save-Withdrawn_example :
    Ensures
      (λ _ t.
        Withdrawn "t1" "auto_topup_disabled" db.payments db.auto_topup_attempts
          t.auto_topup_attempts)
      (save_auto_topup_settings env "t1" off owner db)
save-Withdrawn_example = save-Withdrawn env "t1" off owner db refl
