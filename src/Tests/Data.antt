-- ===== src/Tests/Data.antt =====
-- A small database, and the calls that the tests make on it.
use telroi_ai_app.Base.{true, false, some, none, [], ◌∷◌, String, ◌==◌}
use telroi_ai_app.Base.Int.{ℤ, pos}
use telroi_ai_app.Db.{
  startup, ngn, usd, credit, LedgerRow, Tenant, Wallet, PaymentMethod, AutoTopupSettings, Attempt,
  AttemptStatus, Mode, Db, Env, update_attempts,
}
use telroi_ai_app.AutoTopup.Policy.{auto_topup_consent_version, RevalidationState}
use telroi_ai_app.AutoTopup.Claim.{
  DispatchContext, Charge, charge_of, pending_payment, dispatched_attempt,
}
use telroi_ai_app.AutoTopup.Observation.{PaymentObservation, Outcome}
use telroi_ai_app.Wallet.Spend.{int}
use telroi_ai_app.Wallet.Debit.{DebitArgs}
use telroi_ai_app.Wallet.Credit.{CreditArgs}

abbrev pub env : Env
env = record {
  now = 5_000;
  wallet_id = "w9";
  ledger_id = "l9";
  vat_id = "l10";
  attempt_id = "a9";
  payment_id = "p9";
  claim_token = "c9";
  invoice_id = "i9";
}

abbrev pub acme : Tenant
acme = record {
  id = "t1";
  name = "Acme";
  timezone = "UTC";
  country = none;
  closed_at = none;
  postpaid = false;
  credit_limit_minor = none;
  billing_suspended_at = none;
  sandbox_mode = false;
  plan = startup;
  trial_plan = none;
  trial_ends_at = none;
  plan_selected = true;
  plan_next_billing_at = some 4_000;
  plan_last_billed_at = none;
  billing_interval = "monthly";
  billing_day = none;
  payment_terms_days = none;
  postpaid_since = none;
  is_internal = false;
  provision_state = "local";
  went_live_at = none;
  created_at = 0;
}

abbrev pub lagos : Tenant
lagos = record {
  id = "t2";
  name = "Lagos";
  timezone = "Africa/Lagos";
  country = some "Nigeria";
  closed_at = none;
  postpaid = true;
  credit_limit_minor = some (pos 500);
  billing_suspended_at = some 77;
  sandbox_mode = false;
  plan = startup;
  trial_plan = none;
  trial_ends_at = none;
  plan_selected = true;
  plan_next_billing_at = some 4_000;
  plan_last_billed_at = none;
  billing_interval = "monthly";
  billing_day = none;
  payment_terms_days = none;
  postpaid_since = none;
  is_internal = false;
  provision_state = "local";
  went_live_at = none;
  created_at = 0;
}

abbrev pub acme_wallet : Wallet
acme_wallet = record {
  id = "w1";
  tenant_id = "t1";
  currency = usd;
  balance_minor = pos 300;
  updated_at = 0;
}

abbrev pub lagos_wallet : Wallet
lagos_wallet = record {
  id = "w2";
  tenant_id = "t2";
  currency = ngn;
  balance_minor = pos 0;
  updated_at = 0;
}

abbrev pub funding : LedgerRow
funding = record {
  id = "l1";
  wallet_id = "w1";
  tenant_id = "t1";
  kind = credit;
  amount_minor = pos 300;
  balance_after_minor = pos 300;
  reason = "topup";
  reference = some "pay_1";
  meta = [];
  sandbox = false;
}

abbrev pub card : PaymentMethod
card = record {
  id = "m1";
  tenant_id = "t1";
  provider = "stripe";
  token = none;
  token_enc = some "enc";
  provider_customer_id = some "cus_1";
  billing_email = none;
  reusable = true;
  exp_month = some (pos 12);
  exp_year = some (pos 2030);
  updated_at = 0;
}

abbrev pub settings : AutoTopupSettings
settings = record {
  tenant_id = "t1";
  payment_method_id = some "m1";
  enabled = true;
  threshold_minor = pos 500;
  topup_amount_minor = pos 2_000;
  consent_version = some auto_topup_consent_version;
  consented_at = some 1;
  consented_by_user_id = some "u1";
  consented_by_email = some "owner@acme.test";
  updated_at = 1;
}

abbrev pub attempt : Attempt
attempt = record {
  id = "a1";
  tenant_id = "t1";
  trigger_ledger_id = "l0";
  payment_method_id = some "m1";
  payment_id = none;
  idempotency_key = "atp-l0";
  amount_minor = pos 2_000;
  currency = usd;
  balance_at_trigger_minor = pos 300;
  provider = "stripe";
  provider_reference = none;
  status = AttemptStatus.pending;
  attempts = 0;
  retryable = true;
  failure_code = none;
  failure_message = none;
  cancellation_reason = none;
  next_attempt_at = some 100;
  claim_token = none;
  claimed_at = none;
  lease_expires_at = none;
  validated_at = none;
  payment_mode = none;
  credential_fingerprint = none;
  dispatched_at = none;
  last_attempt_at = none;
  succeeded_at = none;
  failed_at = none;
  cancelled_at = none;
  created_at = 100;
  updated_at = 100;
}

abbrev pub db : Db
db = record {
  tenants = acme ∷ lagos ∷ [];
  wallets = acme_wallet ∷ lagos_wallet ∷ [];
  ledger = funding ∷ [];
  payments = [];
  payment_methods = card ∷ [];
  auto_topup_settings = settings ∷ [];
  auto_topup_attempts = attempt ∷ [];
  number_subscriptions = [];
  pricing = none;
  pricing_overrides = [];
  invoices = [];
  memberships = [];
}

abbrev pub call : DebitArgs
call = record {
  tenant_id = "t1";
  amount_minor = int (pos 120);
  reason = "voice_minute";
  reference = some "call_7";
  meta = [];
}

abbrev pub lagos_call : DebitArgs
lagos_call = record {
  tenant_id = "t2";
  amount_minor = int (pos 120);
  reason = "voice_minute";
  reference = some "call_8";
  meta = [];
}

abbrev pub topup : CreditArgs
topup = record {
  tenant_id = "t2";
  amount_minor = int (pos 10_000);
  reason = "topup";
  reference = "pay_2";
  meta = [];
}

abbrev pub context : DispatchContext
context = record { mode = Mode.live; fingerprint = "f" }

abbrev pub decrypt : String → String
decrypt s = "tok"

-- Far in the future.
abbrev pub utc : ℤ → ℤ → ℤ
utc year month = pos 1_000_000

abbrev pub charge : Charge
charge = charge_of env attempt card (pending_payment env attempt) "tok"

-- The database after the claim.
abbrev pub claimed_db : Db
claimed_db =
    update_attempts (λ b. b.id == "a1") (dispatched_attempt env context "p9")
      (record db { payments = pending_payment env attempt ∷ [] })

abbrev pub evidence : Outcome → PaymentObservation
evidence outcome = record {
  outcome = outcome;
  provider = "stripe";
  provider_id = "pi_1";
  reference = "atp-l0";
  amount_minor = pos 2_000;
  currency = "USD";
  mode = Mode.live;
  code = "stripe";
}

abbrev pub state : RevalidationState
state = record {
  tenant = some acme;
  wallet = some acme_wallet;
  settings = some settings;
  card = some card;
}
