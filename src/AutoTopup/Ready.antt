-- ===== src/AutoTopup/Ready.antt =====
-- The refusals of `saveAutoTopupSettings` in server/utils/auto-topup.ts, and the lookup of stored
-- settings.
use telroi_ai_app.Base.{[]}
use telroi_ai_app.Base.Blank.{is_blank}
use telroi_ai_app.AutoTopup.Save.{card_id}
use telroi_ai_app.Base.Tx.{Ensures-imp, throw_unless, Error, ◌>>◌}
use telroi_ai_app.Base.{◌||◌, ◌&&◌, not, eq_iff, if◌then◌else◌, ◌∷◌}
use telroi_ai_app.AutoTopup.Policy.{provider_supports_wallet_currency}
use telroi_ai_app.Base.Rows.{update_where, find}
use telroi_ai_app.AutoTopup.Save.{
  card_id, needs_consent, refuse, AutoTopupConsentActor, SettingsValues, check_save,
  upsert_settings,
}
use telroi_ai_app.AutoTopup.Settings.{
  validate_auto_topup_amounts, AutoTopupState, card_ineligible, ineligible_reason_of,
}
use telroi_ai_app.Base.{
  ◌∷◌, eq_refl, ◌==◌, Option-cases, arith, is_present, List, ℕ, Bool, true, false, Option, some,
  none, String, ◌≡◌, refl, inl, inr,
}
use telroi_ai_app.Base.Tx.{api, Ensures}
use telroi_ai_app.Db.{Currency, Tenant, settings_of, AutoTopupSettings, PaymentMethod, Db}

-- A saved card that can pay for a wallet.
pub record CanPay (c : PaymentMethod) (currency : Currency) : Type 0 where
  pub reusable : c.reusable ≡ true
  pub has_token : is_present c.token_enc ≡ true
  pub serves : provider_supports_wallet_currency c.provider currency ≡ true

card_ineligible-none :
    (card : Option PaymentMethod) (currency : Currency)
    → card_ineligible card currency ≡ none
    → (c : PaymentMethod) × (card ≡ some c) × CanPay c currency
unfolding card_ineligible
card_ineligible-none none currency h = absurd (ground arith)
card_ineligible-none (some c) currency h =
    (c, refl, record { reusable = ground arith; has_token = ground arith; serves = ground arith })

pub ineligible_reason_of-none :
    (tenant : Option Tenant) (card : Option PaymentMethod) (currency : Currency)
    → ineligible_reason_of tenant card currency ≡ none
    → (c : PaymentMethod) × (card ≡ some c) × CanPay c currency
unfolding ineligible_reason_of
ineligible_reason_of-none none card currency h = card_ineligible-none card currency h
ineligible_reason_of-none (some t) card currency h =
    card_ineligible-none card currency (ground arith)

-- A save that passed its checks.
pub record IsChecked (values : SettingsValues) (actor : AutoTopupConsentActor)
    (before : AutoTopupState) : Type 0 where
  pub amounts :
      validate_auto_topup_amounts values.amounts before.minimum_topup_minor
        before.maximum_topup_minor
      ≡ none
  pub eligible : values.enabled ≡ true → before.ineligible_reason ≡ none
  pub consents :
      needs_consent before.settings values (card_id before.card) ≡ true
      → is_blank actor.email ≡ false

-- The four refusals of a save, one after the other.
refusals :
    (problem ineligible : Option String) (accepted known : Bool) (e f : Error) (m n : ℕ) (db : Db)
    → Ensures
        (λ _ t.
          (t ≡ db) × (problem ≡ none) × (ineligible ≡ none) × (accepted ≡ true) × (known ≡ true))
        ((refuse problem m
            >> (refuse ineligible n >> (throw_unless accepted e >> throw_unless known f)))
          db)
refusals (some code) ineligible accepted known e f m n db = tt
refusals none (some code) accepted known e f m n db = tt
refusals none none false known e f m n db = tt
refusals none none true false e f m n db = tt
refusals none none true true e f m n db = (refl, refl, refl, refl, refl)

pub check_save-IsChecked :
    (values : SettingsValues) (actor : AutoTopupConsentActor) (before : AutoTopupState) (db : Db)
    → Ensures (λ _ t. (t ≡ db) × IsChecked values actor before) (check_save values actor before db)
unfolding check_save
check_save-IsChecked values actor before db =
    let needs = needs_consent before.settings values (card_id before.card) in
    let ineligible = if values.enabled then before.ineligible_reason else none in
    let known = not (actor.user_id == "") && not (is_blank actor.email) in
    Ensures-imp _ _ (check_save values actor before db)
      (refusals
        (validate_auto_topup_amounts values.amounts before.minimum_topup_minor
          before.maximum_topup_minor)
        ineligible (not needs || values.consent_accepted) (not needs || known)
        (api "auto_topup_consent_required" 409) (api "auto_topup_consent_actor_missing" 409) 400 409
        db)
      (λ _ t h. (
        h.0,
        record {
          amounts = h.1;
          eligible = λ on. ground (arith, h.2, on);
          consents = λ asked. ground (arith, h.4, asked);
        },
      ))

-- The settings that a save stores are the ones that are read.
find-replace :
    (id : String) (s old : AutoTopupSettings) (xs : List AutoTopupSettings)
    → s.tenant_id ≡ id
    → find (λ x. x.tenant_id == id) xs ≡ some old
    → find (λ x. x.tenant_id == id) (update_where (λ x. x.tenant_id == id) (λ _. s) xs) ≡ some s
find-replace id s old [] own h = absurd (ground arith)
find-replace id s old (x ∷ xs) own h =
    ground (arith, eq_iff s.tenant_id id, own, find-replace id s old xs own)

pub settings_of-upsert :
    (s : AutoTopupSettings) (db : Db) → settings_of s.tenant_id (upsert_settings s db) ≡ some s
unfolding upsert_settings
settings_of-upsert s db = elim (Option-cases (settings_of s.tenant_id db)) [
  | inl new ↦ rw (new, upsert_settings) (ground (arith, eq_refl s.tenant_id))
  | inr (old, found) ↦
      rw (found, upsert_settings) (find-replace s.tenant_id s old db.auto_topup_settings refl found)
]
