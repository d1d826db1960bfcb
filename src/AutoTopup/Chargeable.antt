-- ===== src/AutoTopup/Chargeable.antt =====
-- When an attempt may be charged, stated without the order of the tests of `autoTopupCancellationReason`
-- in server/utils/auto-topup-attempts.ts.
use telroi_ai_app.Base.{
  refl, ◌∙◌, ap, ◌↔◌, Option, ◌≡◌, true, false, some, none, eq_iff, arith, text_is, is_present,
}
use telroi_ai_app.Base.Int.{eqb_ℤ→eq, pos, ◌≤ℤ◌, ◌<ℤ◌}
use telroi_ai_app.Db.{currency_is, Tenant, Wallet, AutoTopupSettings, PaymentMethod, Attempt}
use telroi_ai_app.AutoTopup.Policy.{
  auto_topup_cancellation_reason, wallet_reason, amount_reason, tenant_reason, RevalidationState,
  settings_reason, stripe_max_amount_minor, same_text, provider_supports_wallet_currency,
  has_current_consent, card_reason,
}

-- The owner's settings ask for exactly this charge, under the current terms.
pub record SettingsAsk (a : Attempt) (s : AutoTopupSettings) : Type 0 where
  pub enabled : s.enabled ≡ true
  pub consented : has_current_consent s ≡ true
  pub positive : pos 0 <ℤ s.threshold_minor
  pub refills : s.threshold_minor <ℤ s.topup_amount_minor
  pub same_amount : s.topup_amount_minor ≡ a.amount_minor
  pub same_method : same_text s.payment_method_id a.payment_method_id ≡ true

-- The saved card is the one that was chosen, and can pay this charge.
pub record CardServes (a : Attempt) (w : Wallet) (c : PaymentMethod) : Type 0 where
  pub chosen : text_is a.payment_method_id c.id ≡ true
  pub own : c.tenant_id ≡ a.tenant_id
  pub reusable : c.reusable ≡ true
  pub has_token : is_present c.token_enc ≡ true
  pub same_provider : c.provider ≡ a.provider
  pub serves : provider_supports_wallet_currency c.provider w.currency ≡ true

-- The attempt may be charged.
pub record IsChargeable (a : Attempt) (t : Tenant) (w : Wallet) (s : AutoTopupSettings)
    (c : PaymentMethod) : Type 0 where
  pub live : t.sandbox_mode ≡ false
  pub prepaid : t.postpaid ≡ false
  pub asked : SettingsAsk a s
  pub within_maximum : a.provider ≡ "stripe" → a.amount_minor ≤ℤ stripe_max_amount_minor
  pub same_currency : currency_is w.currency a.currency ≡ true
  pub low : w.balance_minor <ℤ s.threshold_minor
  pub card : CardServes a w c

card_reason_none :
    (a : Attempt) (s : AutoTopupSettings) (w : Wallet) (c : PaymentMethod)
    → card_reason a s w (some c) ≡ none
    → (w.balance_minor <ℤ s.threshold_minor) × CardServes a w c
unfolding card_reason
card_reason_none a s w c h = (
  ground arith,
  record {
    chosen = ground arith;
    own = ground (arith, eq_iff c.tenant_id a.tenant_id);
    reusable = ground arith;
    has_token = ground arith;
    same_provider = ground (arith, eq_iff c.provider a.provider);
    serves = ground arith;
  },
)

card_reason-eq_none :
    (a : Attempt) (s : AutoTopupSettings) (w : Wallet) (c : PaymentMethod)
    → w.balance_minor <ℤ s.threshold_minor
    → CardServes a w c
    → card_reason a s w (some c) ≡ none
unfolding card_reason
card_reason-eq_none a s w c low h = ground (
  arith,
  h.chosen,
  h.reusable,
  h.has_token,
  h.serves,
  eq_iff c.tenant_id a.tenant_id,
  h.own,
  eq_iff c.provider a.provider,
  h.same_provider,
)

-- The parts of a state that lets an attempt be charged.
abbrev pub Allows : Attempt → RevalidationState → Type 0
Allows a st =
    (t : Tenant) × (w : Wallet) × (s : AutoTopupSettings) × (c : PaymentMethod) × (st.tenant
      ≡ some t)
    × (st.wallet ≡ some w)
    × (st.settings ≡ some s)
    × (st.card ≡ some c)
    × IsChargeable a t w s c

wallet_reason-none :
    (a : Attempt) (s : AutoTopupSettings) (w : Option Wallet) (c : Option PaymentMethod)
    → wallet_reason a s w c ≡ none
    → (v : Wallet) × (w ≡ some v)
      × (currency_is v.currency a.currency ≡ true)
      × (card_reason a s v c ≡ none)
unfolding wallet_reason
wallet_reason-none a s none c h = absurd (ground arith)
wallet_reason-none a s (some v) c h = (v, refl, ground arith, ground arith)

amount_reason-none :
    (a : Attempt) (s : AutoTopupSettings) (w : Option Wallet) (c : Option PaymentMethod)
    → amount_reason a s w c ≡ none
    → (pos 0 <ℤ s.threshold_minor)
      × (s.threshold_minor <ℤ s.topup_amount_minor)
      × (s.topup_amount_minor ≡ a.amount_minor)
      × (same_text s.payment_method_id a.payment_method_id ≡ true)
      × (a.provider ≡ "stripe" → a.amount_minor ≤ℤ stripe_max_amount_minor)
      × (wallet_reason a s w c ≡ none)
unfolding amount_reason
amount_reason-none a s w c h = (
  ground arith,
  ground arith,
  eqb_ℤ→eq s.topup_amount_minor a.amount_minor (ground arith),
  ground arith,
  λ e. ground (arith, eq_iff a.provider "stripe", e),
  ground arith,
)

tenant_reason-none :
    (a : Attempt) (s : AutoTopupSettings) (t : Option Tenant) (w : Option Wallet)
    (c : Option PaymentMethod)
    → tenant_reason a s t w c ≡ none
    → (u : Tenant) × (t ≡ some u)
      × (u.sandbox_mode ≡ false)
      × (u.postpaid ≡ false)
      × (amount_reason a s w c ≡ none)
unfolding tenant_reason
tenant_reason-none a s none w c h = absurd (ground arith)
tenant_reason-none a s (some u) w c h = (u, refl, ground arith, ground arith, ground arith)

settings_reason-none :
    (a : Attempt) (s : Option AutoTopupSettings) (t : Option Tenant) (w : Option Wallet)
    (c : Option PaymentMethod)
    → settings_reason a s t w c ≡ none
    → (u : AutoTopupSettings) × (s ≡ some u)
      × (u.enabled ≡ true)
      × (has_current_consent u ≡ true)
      × (tenant_reason a u t w c ≡ none)
unfolding settings_reason
settings_reason-none a none t w c h = absurd (ground arith)
settings_reason-none a (some u) t w c h = (u, refl, ground arith, ground arith, ground arith)

card_present :
    (a : Attempt) (s : AutoTopupSettings) (w : Wallet) (c : Option PaymentMethod)
    → card_reason a s w c ≡ none
    → (d : PaymentMethod) × (c ≡ some d)
unfolding card_reason
card_present a s w none h = absurd (ground arith)
card_present a s w (some d) h = (d, refl)

-- The revalidation finds no reason to cancel exactly when the workspace, its wallet, its settings and
-- its card are there and the attempt may be charged: the direction from the code.
pub cancellation_reason_sound :
    (a : Attempt) (st : RevalidationState)
    → auto_topup_cancellation_reason a st ≡ none
    → Allows a st
unfolding auto_topup_cancellation_reason
cancellation_reason_sound a st h =
    let (s, is_s, enabled, consented, h1) =
      settings_reason-none a st.settings st.tenant st.wallet st.card h in
    let (t, is_t, live, prepaid, h2) = tenant_reason-none a s st.tenant st.wallet st.card h1 in
    let (positive, refills, same_amount, same_method, within, h3) =
      amount_reason-none a s st.wallet st.card h2 in
    let (w, is_w, same_currency, h4) = wallet_reason-none a s st.wallet st.card h3 in
    let (c, is_c) = card_present a s w st.card h4 in
    let (low, card) = card_reason_none a s w c (rw (← is_c) h4) in
    (
      t,
      w,
      s,
      c,
      is_t,
      is_w,
      is_s,
      is_c,
      record {
        live = live;
        prepaid = prepaid;
        asked = record {
          enabled = enabled;
          consented = consented;
          positive = positive;
          refills = refills;
          same_amount = same_amount;
          same_method = same_method;
        };
        within_maximum = within;
        same_currency = same_currency;
        low = low;
        card = card;
      },
    )

-- The other direction: an attempt that may be charged is not cancelled.
pub cancellation_reason_complete :
    (a : Attempt) (t : Tenant) (w : Wallet) (s : AutoTopupSettings) (c : PaymentMethod)
    → IsChargeable a t w s c
    → auto_topup_cancellation_reason a
        (record { tenant = some t; wallet = some w; settings = some s; card = some c })
      ≡ none
unfolding auto_topup_cancellation_reason settings_reason tenant_reason amount_reason wallet_reason
cancellation_reason_complete a t w s c h = ground (
  arith,
  h.live,
  h.prepaid,
  h.asked.enabled,
  h.asked.consented,
  h.asked.positive,
  h.asked.refills,
  h.asked.same_amount,
  h.asked.same_method,
  h.within_maximum,
  h.same_currency,
  eq_iff a.provider "stripe",
  card_reason-eq_none a s w c h.low h.card,
)

-- The revalidation finds no reason to cancel an attempt exactly when the workspace, its wallet, its
-- settings and its card are there and the attempt may be charged: live and prepaid, asked for by
-- enabled settings under the current consent, within the provider's maximum, in the wallet's
-- currency, with the balance below the threshold and the chosen card able to pay.
pub cancellation_reason_iff :
    (a : Attempt) (st : RevalidationState)
    → (auto_topup_cancellation_reason a st ≡ none) ↔ Allows a st
cancellation_reason_iff a st = (
  cancellation_reason_sound a st,
  λ (t, w, s, c, is_t, is_w, is_s, is_c, h).
      ap (auto_topup_cancellation_reason a)
        (λ i. record { tenant = is_t i; wallet = is_w i; settings = is_s i; card = is_c i })
      ∙ cancellation_reason_complete a t w s c h,
)
