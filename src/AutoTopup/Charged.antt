-- ===== src/AutoTopup/Charged.antt =====
-- An enabling save of server/utils/auto-topup.ts, the attempt that a debit of server/utils/wallet.ts
-- queues under it, and the revalidation of server/utils/auto-topup-attempts.ts.
use telroi_ai_app.AutoTopup.Accepts.{save-IsReady}
use telroi_ai_app.AutoTopup.Save.{save_auto_topup_settings, AutoTopupConsentActor, SettingsValues}
use telroi_ai_app.Base.Rows.{find-sat}
use telroi_ai_app.Wallet.Debit.{trigger_input}
use telroi_ai_app.AutoTopup.Attempts.{new_attempt}
use telroi_ai_app.AutoTopup.Chargeable.{cancellation_reason_complete, IsChargeable}
use telroi_ai_app.AutoTopup.Enabling.{IsReady}
use telroi_ai_app.AutoTopup.Settings.{saved_card, maximum_topup}
use telroi_ai_app.AutoTopup.Ready.{CanPay}
use telroi_ai_app.AutoTopup.Policy.{
  auto_topup_cancellation_reason, stripe_max_amount_minor, provider_supports_wallet_currency,
}
use telroi_ai_app.Base.{
  sym, ◌∙◌, ◌==◌, eq_iff, subst, eq_refl, arith, true, false, some, none, String, ◌≡◌, refl,
}
use telroi_ai_app.Base.Int.{◌≤ℤ◌, ◌<ℤ◌}
use telroi_ai_app.Base.Tx.{ok}
use telroi_ai_app.Db.{
  wallet_of, settings_of, AutoTopupSettings, Wallet, PaymentMethod, Tenant, currency_is, Currency,
  LedgerRow, usd, ngn, Db, Env,
}

currency_is_refl : (c : Currency) → currency_is c c ≡ true
currency_is_refl usd = refl
currency_is_refl ngn = refl

-- A Stripe card serves only dollar wallets, whose maximum is Stripe's.
stripe_maximum :
    (c : PaymentMethod) (currency : Currency)
    → CanPay c currency
    → c.provider ≡ "stripe"
    → maximum_topup currency ≡ stripe_max_amount_minor
unfolding provider_supports_wallet_currency
stripe_maximum c usd h e = refl
stripe_maximum c ngn h e =
    let bad : provider_supports_wallet_currency "stripe" ngn ≡ true =
      subst (λ p. provider_supports_wallet_currency p ngn ≡ true) e h.serves in
    absurd (ground (arith, bad))

ready-IsChargeable :
    (env : Env) (tenant_id : String) (row : LedgerRow) (tn : Tenant) (w v : Wallet)
    (s : AutoTopupSettings) (c : PaymentMethod) (t : Db)
    → IsReady tenant_id w s c t
    → row.tenant_id ≡ tenant_id
    → tn.sandbox_mode ≡ false
    → tn.postpaid ≡ false
    → v.currency ≡ w.currency
    → v.balance_minor <ℤ s.threshold_minor
    → IsChargeable (new_attempt env (trigger_input row s c v)) tn v s c
ready-IsChargeable env tenant_id row tn w v s c t h own live prepaid same low = record {
  live = live;
  prepaid = prepaid;
  asked = record {
    enabled = h.enabled;
    consented = h.consented;
    positive = h.positive;
    refills = h.refills;
    same_amount = refl;
    same_method = rw h.chosen (eq_refl c.id);
  };
  within_maximum = λ e.
      subst (λ m. s.topup_amount_minor ≤ℤ m) (stripe_maximum c w.currency h.pays e)
        h.within_maximum;
  same_currency = currency_is_refl v.currency;
  low = low;
  card = record {
    chosen = eq_refl c.id;
    own =
        (eq_iff c.tenant_id tenant_id).0
          (find-sat (λ x. x.tenant_id == tenant_id) t.payment_methods c h.card)
        ∙ sym own;
    reusable = h.pays.reusable;
    has_token = h.pays.has_token;
    same_provider = refl;
    serves = rw same h.pays.serves;
  };
}

-- The settings and the card that a save stored are the ones found afterwards.
IsReady-of_found :
    (tenant_id : String) (w : Wallet) (s : AutoTopupSettings) (c : PaymentMethod) (t : Db)
    → ((s' : AutoTopupSettings) × (c' : PaymentMethod) × IsReady tenant_id w s' c' t)
    → settings_of tenant_id t ≡ some s
    → saved_card tenant_id t ≡ some c
    → IsReady tenant_id w s c t
IsReady-of_found tenant_id w s c t (s', c', h) found there =
    let same_s : s' ≡ s = ground (arith, h.stored, found) in
    let same_c : c' ≡ c = ground (arith, h.card, there) in
    subst (λ x. IsReady tenant_id w s x t) same_c (subst (λ x. IsReady tenant_id w x c' t) same_s h)

-- After a save that enabled the automatic top-up for a wallet, an attempt that a debit then queues
-- from the stored settings and the saved card passes the revalidation, as long as the workspace is
-- live and prepaid, its wallet keeps the currency and the balance is below the threshold.
pub saved_is_charged :
    (env env' : Env) (tenant_id : String) (values : SettingsValues) (actor : AutoTopupConsentActor)
    (currency : Currency) (row : LedgerRow) (tn : Tenant) (w v : Wallet) (s : AutoTopupSettings)
    (c : PaymentMethod) (db t : Db)
    → values.enabled ≡ true
    → wallet_of tenant_id db ≡ some w
    → save_auto_topup_settings env tenant_id values actor db ≡ ok (currency, t)
    → settings_of tenant_id t ≡ some s
    → saved_card tenant_id t ≡ some c
    → row.tenant_id ≡ tenant_id
    → tn.sandbox_mode ≡ false
    → tn.postpaid ≡ false
    → v.currency ≡ w.currency
    → v.balance_minor <ℤ s.threshold_minor
    → auto_topup_cancellation_reason
        (new_attempt env' (trigger_input row s c v))
        (record { tenant = some tn; wallet = some v; settings = some s; card = some c })
      ≡ none
saved_is_charged env env' tenant_id values actor currency row tn w v s c db t on e done found there
      own live prepaid same low =
    let kept = rw done at (save-IsReady env tenant_id values actor w db on e) in
    let h = IsReady-of_found tenant_id w s c t kept found there in
    cancellation_reason_complete (new_attempt env' (trigger_input row s c v)) tn v s c
      (ready-IsChargeable env' tenant_id row tn w v s c t h own live prepaid same low)
