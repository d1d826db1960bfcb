-- ===== src/AutoTopup/Disabling.antt =====
-- A disabling save of server/utils/auto-topup.ts and the queue of server/utils/auto-topup-attempts.ts.
use telroi_ai_app.AutoTopup.Withdrawn.{update-Withdrawn, Withdrawn}
use telroi_ai_app.Base.{String, ◌≡◌, refl, sym, subst, inl, inr, Bool, false, Option-cases}
use telroi_ai_app.AutoTopup.Save.{cancel_changed, is_changed}
use telroi_ai_app.AutoTopup.Ready.{check_save-IsChecked}
use telroi_ai_app.AutoTopup.Settings.{AutoTopupState, state_of_wallet}
use telroi_ai_app.AutoTopup.Attempts.{cancel_unsent_auto_topups}
use telroi_ai_app.Base.Tx.{Ensures-imp, Ensures-bind, Ensures, ◌>>◌, pure, modify}
use telroi_ai_app.Db.{settings_of, AutoTopupSettings, wallet_of, Db, Env}
use telroi_ai_app.AutoTopup.Save.{
  card_id, saved_settings, upsert_settings, check_save, AutoTopupConsentActor, write_save,
  save_auto_topup_settings, SettingsValues,
}

cancel_changed-Withdrawn :
    (env : Env) (tenant_id : String) (enabled changed : Bool) (db : Db)
    → enabled ≡ false
    → Withdrawn tenant_id "auto_topup_disabled" db.payments db.auto_topup_attempts
        (cancel_changed env tenant_id enabled changed db).auto_topup_attempts
unfolding cancel_unsent_auto_topups
cancel_changed-Withdrawn env tenant_id enabled changed db off =
    rw (off, cancel_unsent_auto_topups)
      (update-Withdrawn db.payments tenant_id "auto_topup_disabled" env.now db.auto_topup_attempts)

upsert-same :
    (s : AutoTopupSettings) (db : Db)
    → ((upsert_settings s db).payments ≡ db.payments)
      × ((upsert_settings s db).auto_topup_attempts ≡ db.auto_topup_attempts)
unfolding upsert_settings
upsert-same s db = elim (Option-cases (settings_of s.tenant_id db)) [
  | inl new ↦ rw (new, upsert_settings) (refl, refl)
  | inr (old, found) ↦ rw (found, upsert_settings) (refl, refl)
]

write-Withdrawn :
    (env : Env) (tenant_id : String) (values : SettingsValues) (actor : AutoTopupConsentActor)
    (before : AutoTopupState) (db : Db)
    → values.enabled ≡ false
    → Withdrawn tenant_id "auto_topup_disabled" db.payments db.auto_topup_attempts
        (write_save env tenant_id values actor before db).auto_topup_attempts
unfolding write_save
write-Withdrawn env tenant_id values actor before db off =
    let method = card_id before.card in
    let s = saved_settings env tenant_id values actor before.settings method in
    let written = upsert_settings s db in
    let after =
      (cancel_changed env tenant_id values.enabled (is_changed before.settings values method)
        written).auto_topup_attempts in
    let same = upsert-same s db in
    subst (λ ps. Withdrawn tenant_id "auto_topup_disabled" ps db.auto_topup_attempts after) same.0
      (subst (λ xs. Withdrawn tenant_id "auto_topup_disabled" written.payments xs after) same.1
        (cancel_changed-Withdrawn env tenant_id values.enabled
          (is_changed before.settings values method) written off))

-- A save that disables the automatic top-up and goes through cancels every attempt of the workspace
-- that waits and was never sent, and leaves every other attempt as it is: one with a trace of a
-- charge, on itself or on a payment, is kept.
pub save-Withdrawn :
    (env : Env) (tenant_id : String) (values : SettingsValues) (actor : AutoTopupConsentActor)
    (db : Db)
    → values.enabled ≡ false
    → Ensures
        (λ _ t.
          Withdrawn tenant_id "auto_topup_disabled" db.payments db.auto_topup_attempts
            t.auto_topup_attempts)
        (save_auto_topup_settings env tenant_id values actor db)
unfolding save_auto_topup_settings
save-Withdrawn env tenant_id values actor db off =
    let Gone : Db → Type 0 = λ t.
      Withdrawn tenant_id "auto_topup_disabled" db.payments db.auto_topup_attempts
        t.auto_topup_attempts in
    elim (Option-cases (wallet_of tenant_id db)) [
      | inl absent ↦ rw absent tt
      | inr (w, e) ↦
          let before = state_of_wallet tenant_id w db in
          rw e (
            Ensures-bind (λ _ t. t ≡ db) (λ _ t. Gone t) (check_save values actor before)
              (λ _. modify (write_save env tenant_id values actor before) >> pure w.currency) db
              (Ensures-imp _ _ (check_save values actor before db)
                (check_save-IsChecked values actor before db) (λ _ t h. h.0))
              (λ _ t same.
                subst (λ s. Gone (write_save env tenant_id values actor before s)) (sym same)
                  (write-Withdrawn env tenant_id values actor before db off)))
    ]
