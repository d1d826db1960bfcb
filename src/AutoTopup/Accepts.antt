-- ===== src/AutoTopup/Accepts.antt =====
-- The whole of an enabling `saveAutoTopupSettings` of server/utils/auto-topup.ts.
use telroi_ai_app.AutoTopup.Reasons.{minimum_topup}
use telroi_ai_app.AutoTopup.Saved.{validate-AreAccepted}
use telroi_ai_app.AutoTopup.Enabling.{
  saved-has_current_consent, upsert-saved_card, cancel_changed-saved_card,
  cancel_changed-settings_of, saved_amounts, IsReady,
}
use telroi_ai_app.AutoTopup.Settings.{maximum_topup, saved_card, state_of_wallet}
use telroi_ai_app.AutoTopup.Ready.{
  settings_of-upsert, ineligible_reason_of-none, check_save-IsChecked, IsChecked,
}
use telroi_ai_app.AutoTopup.Save.{
  upsert_settings, is_changed, whole, check_save, saved_settings, card_id, AutoTopupConsentActor,
  SettingsValues, save_auto_topup_settings, write_save,
}
use telroi_ai_app.Base.{ap, ◌∙◌, sym, subst, true, some, String, ◌≡◌}
use telroi_ai_app.Base.Int.{◌≤ℤ◌, ◌<ℤ◌, pos}
use telroi_ai_app.Base.Tx.{pure, ◌>>◌, modify, Ensures-bind, Ensures}
use telroi_ai_app.Db.{
  tenant_of, settings_of, PaymentMethod, AutoTopupSettings, wallet_of, Wallet, Db, Env,
}

write_save-IsReady :
    (env : Env) (tenant_id : String) (values : SettingsValues) (actor : AutoTopupConsentActor)
    (w : Wallet) (db : Db)
    → values.enabled ≡ true
    → IsChecked values actor (state_of_wallet tenant_id w db)
    → (s : AutoTopupSettings) × (c : PaymentMethod) × IsReady tenant_id w s c
        (write_save env tenant_id values actor (state_of_wallet tenant_id w db) db)
unfolding write_save
write_save-IsReady env tenant_id values actor w db on h =
    let before = settings_of tenant_id db in
    let method = card_id (saved_card tenant_id db) in
    let s = saved_settings env tenant_id values actor before method in
    let kept = saved_amounts env tenant_id values actor before method in
    let (c, there, pays) =
      ineligible_reason_of-none (tenant_of tenant_id db) (saved_card tenant_id db) w.currency
        (h.eligible on) in
    let (t, r, is_t, is_r, low, above, _, below, _) =
      validate-AreAccepted values.amounts (minimum_topup w.currency db.pricing)
        (maximum_topup w.currency) h.amounts in
    let at_t : s.threshold_minor ≡ t = kept.2 ∙ ap whole is_t in
    let at_r : s.topup_amount_minor ≡ r = kept.3 ∙ ap whole is_r in
    (
      s,
      c,
      record {
        stored =
            cancel_changed-settings_of env tenant_id tenant_id values.enabled
              (is_changed before values method) (upsert_settings s db)
            ∙ subst (λ id. settings_of id (upsert_settings s db) ≡ some s) kept.0
                (settings_of-upsert s db);
        card =
            cancel_changed-saved_card env tenant_id tenant_id values.enabled
              (is_changed before values method) (upsert_settings s db)
            ∙ upsert-saved_card tenant_id s db
            ∙ there;
        enabled = kept.1 ∙ on;
        consented =
            saved-has_current_consent env tenant_id values actor before method on h.consents;
        positive = subst (λ x. pos 0 <ℤ x) (sym at_t) low;
        refills = rw (at_t, at_r) above;
        within_maximum = subst (λ x. x ≤ℤ maximum_topup w.currency) (sym at_r) below;
        chosen = kept.4 ∙ ap card_id there;
        pays = pays;
      },
    )

-- A save that enables the automatic top-up and goes through stores enabled settings under a current
-- consent, with a positive threshold, a refill above it and within the provider's maximum, and the
-- workspace's saved card, which can pay for its wallet.
pub save-IsReady :
    (env : Env) (tenant_id : String) (values : SettingsValues) (actor : AutoTopupConsentActor)
    (w : Wallet) (db : Db)
    → values.enabled ≡ true
    → wallet_of tenant_id db ≡ some w
    → Ensures
        (λ _ t. (s : AutoTopupSettings) × (c : PaymentMethod) × IsReady tenant_id w s c t)
        (save_auto_topup_settings env tenant_id values actor db)
unfolding save_auto_topup_settings
save-IsReady env tenant_id values actor w db on e =
    let before = state_of_wallet tenant_id w db in
    rw e (
      Ensures-bind (λ _ t. (t ≡ db) × IsChecked values actor before)
        (λ _ t. (s : AutoTopupSettings) × (c : PaymentMethod) × IsReady tenant_id w s c t)
        (check_save values actor before)
        (λ _. modify (write_save env tenant_id values actor before) >> pure w.currency) db
        (check_save-IsChecked values actor before db)
        (λ _ t h.
          subst
            (λ u.
              (s : AutoTopupSettings) × (c : PaymentMethod) × IsReady tenant_id w s c
                (write_save env tenant_id values actor before u))
            (sym h.0) (write_save-IsReady env tenant_id values actor w db on h.1)))
