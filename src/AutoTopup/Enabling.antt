-- ===== src/AutoTopup/Enabling.antt =====
-- The writes of an enabling save of server/utils/auto-topup.ts, and what is read back after them.
use telroi_ai_app.AutoTopup.Ready.{CanPay}
use telroi_ai_app.AutoTopup.Policy.{has_current_consent}
use telroi_ai_app.AutoTopup.Settings.{maximum_topup, saved_card}
use telroi_ai_app.AutoTopup.Attempts.{cancel_unsent_auto_topups}
use telroi_ai_app.Base.Blank.{is_blank}
use telroi_ai_app.AutoTopup.Save.{
  payload, keep_consent, whole, cancel_changed, needs_consent, saved_settings,
  AutoTopupConsentActor, SettingsValues, upsert_settings,
}
use telroi_ai_app.Base.{
  eq_iff, ap, arith, ◌||◌, not, ◌==◌, Bool-cases, Option-cases, is_present, Bool, true, false,
  Option, some, none, String, ◌≡◌, refl, inl, inr,
}
use telroi_ai_app.Base.Int.{◌≤ℤ◌, ◌<ℤ◌, pos}
use telroi_ai_app.Db.{PaymentMethod, AutoTopupSettings, settings_of, Wallet, Db, Env}

-- The settings that are stored for a workspace ask for something that its saved card can do.
pub record IsReady (tenant_id : String) (w : Wallet) (s : AutoTopupSettings) (c : PaymentMethod)
    (t : Db) : Type 0 where
  pub stored : settings_of tenant_id t ≡ some s
  pub card : saved_card tenant_id t ≡ some c
  pub enabled : s.enabled ≡ true
  pub consented : has_current_consent s ≡ true
  pub positive : pos 0 <ℤ s.threshold_minor
  pub refills : s.threshold_minor <ℤ s.topup_amount_minor
  pub within_maximum : s.topup_amount_minor ≤ℤ maximum_topup w.currency
  pub chosen : s.payment_method_id ≡ some c.id
  pub pays : CanPay c w.currency

is_present-of_nonblank : (s : String) → is_blank s ≡ false → is_present (some s) ≡ true
unfolding is_blank
is_present-of_nonblank s h = elim (Bool-cases (s == "")) [
  | inl empty ↦
      let blank : is_blank s ≡ true = ap is_blank ((eq_iff s "").0 empty) in
      absurd (ground (arith, blank, h))
  | inr full ↦ rw full refl
]

pub saved-has_current_consent :
    (env : Env) (tenant_id : String) (values : SettingsValues) (actor : AutoTopupConsentActor)
    (before : Option AutoTopupSettings) (method : Option String)
    → values.enabled ≡ true
    → (needs_consent before values method ≡ true → is_blank actor.email ≡ false)
    → has_current_consent (saved_settings env tenant_id values actor before method) ≡ true
saved-has_current_consent env tenant_id values actor none method on h =
    rw on (is_present-of_nonblank actor.email (h (rw on refl)))
saved-has_current_consent env tenant_id values actor (some b) method on h =
    elim (Bool-cases (needs_consent (some b) values method)) [
      | inl needs ↦ rw needs (is_present-of_nonblank actor.email (h needs))
      | inr kept ↦ rw kept (ground (arith, kept, on))
    ]

-- The saved settings hold the values that were sent.
pub saved_amounts :
    (env : Env) (tenant_id : String) (values : SettingsValues) (actor : AutoTopupConsentActor)
    (before : Option AutoTopupSettings) (method : Option String)
    → let s = saved_settings env tenant_id values actor before method in
      (s.tenant_id ≡ tenant_id)
      × (s.enabled ≡ values.enabled)
      × (s.threshold_minor ≡ whole values.amounts.threshold_minor)
      × (s.topup_amount_minor ≡ whole values.amounts.topup_amount_minor)
      × (s.payment_method_id ≡ method)
saved_amounts env tenant_id values actor before method =
    elim (Bool-cases (needs_consent before values method)) [
      | inl needs ↦ rw needs (refl, refl, refl, refl, refl)
      | inr kept ↦ rw kept (kept_amounts before)
    ]
  where
    kept_amounts :
        (b : Option AutoTopupSettings)
        → let s = keep_consent b (payload env tenant_id values method) in
          (s.tenant_id ≡ tenant_id)
          × (s.enabled ≡ values.enabled)
          × (s.threshold_minor ≡ whole values.amounts.threshold_minor)
          × (s.topup_amount_minor ≡ whole values.amounts.topup_amount_minor)
          × (s.payment_method_id ≡ method)
    kept_amounts none = (refl, refl, refl, refl, refl)
    kept_amounts (some b) = (refl, refl, refl, refl, refl)

pub cancel_changed-settings_of :
    (env : Env) (tenant_id id : String) (enabled changed : Bool) (db : Db)
    → settings_of id (cancel_changed env tenant_id enabled changed db) ≡ settings_of id db
unfolding cancel_unsent_auto_topups
cancel_changed-settings_of env tenant_id id enabled changed db =
    elim (Bool-cases (not enabled || changed)) [ inl h ↦ rw h refl | inr h ↦ rw h refl ]

pub cancel_changed-saved_card :
    (env : Env) (tenant_id id : String) (enabled changed : Bool) (db : Db)
    → saved_card id (cancel_changed env tenant_id enabled changed db) ≡ saved_card id db
unfolding cancel_unsent_auto_topups
cancel_changed-saved_card env tenant_id id enabled changed db =
    elim (Bool-cases (not enabled || changed)) [ inl h ↦ rw h refl | inr h ↦ rw h refl ]

pub upsert-saved_card :
    (id : String) (s : AutoTopupSettings) (db : Db)
    → saved_card id (upsert_settings s db) ≡ saved_card id db
unfolding upsert_settings
upsert-saved_card id s db = elim (Option-cases (settings_of s.tenant_id db)) [
  | inl new ↦ rw (new, upsert_settings) refl
  | inr (old, found) ↦ rw (found, upsert_settings) refl
]
