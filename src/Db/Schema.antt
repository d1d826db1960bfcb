-- ===== src/Db/Schema.antt =====
-- server/db/schema.ts, the rows: enums and records under the source's column names.
use telroi_ai_app.Base.{ℕ, Bool, Option, List, String}
use telroi_ai_app.Base.Int.{ℤ}

-- `currencyEnum`
pub data Currency : Type 0 where
  ngn usd : Currency

-- `ledgerKindEnum`
pub data LedgerKind : Type 0 where
  credit debit vat : LedgerKind

-- `paymentStatusEnum`
pub data PaymentStatus : Type 0 where
  pending succeeded failed : PaymentStatus

-- `autoTopupAttempts.status`
pub data AttemptStatus : Type 0 where
  pending processing ready dispatching uncertain needs_review succeeded failed cancelled :
      AttemptStatus

pub data Mode : Type 0 where
  test live : Mode

-- A JSON value of a `meta` column, as far as this code writes one.
pub data MetaValue : Type 0 where
  text : String → MetaValue
  num : ℤ → MetaValue
  flag : Bool → MetaValue

-- `planEnum`
pub data Plan : Type 0 where
  startup growth custom : Plan

-- `invoices.status`; `unpaid` is the source's 'open'.
pub data InvoiceStatus : Type 0 where
  unpaid paid void : InvoiceStatus

-- `numberSubscriptions.status`
pub data SubscriptionStatus : Type 0 where
  active suspended cancelled : SubscriptionStatus

pub record Tenant : Type 0 where
  pub id : String
  pub name : String
  pub timezone : String
  pub country : Option String
  pub closed_at : Option ℕ
  pub postpaid : Bool
  pub credit_limit_minor : Option ℤ
  pub billing_suspended_at : Option ℕ
  pub sandbox_mode : Bool
  pub plan : Plan
  pub trial_plan : Option Plan
  pub trial_ends_at : Option ℕ
  pub plan_selected : Bool
  pub plan_next_billing_at : Option ℕ
  pub plan_last_billed_at : Option ℕ
  pub billing_interval : String
  pub billing_day : Option ℕ
  pub payment_terms_days : Option ℕ
  pub postpaid_since : Option ℕ
  pub is_internal : Bool
  pub provision_state : String
  pub went_live_at : Option ℕ
  pub created_at : ℕ

pub record Invoice : Type 0 where
  pub id : String
  pub tenant_id : String
  pub number : String
  pub period_start : ℕ
  pub period_end : ℕ
  pub amount_minor : ℤ
  pub currency : Currency
  pub status : InvoiceStatus
  pub due_at : ℕ
  pub paid_at : Option ℕ
  pub paid_via : Option String
  pub reminded_at : Option ℕ
  pub created_at : ℕ

pub data Role : Type 0 where
  owner admin member : Role

pub record Membership : Type 0 where
  pub tenant_id : String
  pub user_id : String
  pub role : Role

pub record Wallet : Type 0 where
  pub id : String
  pub tenant_id : String
  pub currency : Currency
  pub balance_minor : ℤ
  pub updated_at : ℕ

pub record LedgerRow : Type 0 where
  pub id : String
  pub wallet_id : String
  pub tenant_id : String
  pub kind : LedgerKind
  pub amount_minor : ℤ
  pub balance_after_minor : ℤ
  pub reason : String
  pub reference : Option String
  pub meta : List (String × MetaValue)
  pub sandbox : Bool

pub record Payment : Type 0 where
  pub id : String
  pub tenant_id : String
  pub provider : String
  pub reference : String
  pub amount_minor : ℤ
  pub currency : Currency
  pub status : PaymentStatus
  pub credited_at : Option ℕ
  -- `raw.autoTopupAttemptId`
  pub raw_attempt_id : Option String

pub record Pricing : Type 0 where
  pub did_monthly_usd_minor : ℤ
  pub channel_monthly_usd_minor : ℤ
  pub voice_minute_usd_micro : ℤ
  pub plan_startup_usd_minor : ℤ
  pub plan_growth_usd_minor : ℤ
  pub plan_startup_annual_usd_minor : ℤ
  pub plan_growth_annual_usd_minor : ℤ
  pub min_topup_usd_minor : ℤ
  pub min_topup_ngn_minor : ℤ
  pub ngn_per_usd : ℤ

-- `vatRate` is numeric(5, 4): here in ten-thousandths.
pub record PricingOverride : Type 0 where
  pub tenant_id : String
  pub vat_rate : Option ℤ
  pub voice_minute_usd_micro : Option ℤ
  pub channel_monthly_usd_minor : Option ℤ
  pub did_monthly_usd_minor : Option ℤ

pub record PaymentMethod : Type 0 where
  pub id : String
  pub tenant_id : String
  pub provider : String
  pub token : Option String
  pub token_enc : Option String
  pub provider_customer_id : Option String
  pub billing_email : Option String
  pub reusable : Bool
  pub exp_month : Option ℤ
  pub exp_year : Option ℤ
  pub updated_at : ℕ

pub record AutoTopupSettings : Type 0 where
  pub tenant_id : String
  pub payment_method_id : Option String
  pub enabled : Bool
  pub threshold_minor : ℤ
  pub topup_amount_minor : ℤ
  pub consent_version : Option String
  pub consented_at : Option ℕ
  pub consented_by_user_id : Option String
  pub consented_by_email : Option String
  pub updated_at : ℕ

pub record Attempt : Type 0 where
  pub id : String
  pub tenant_id : String
  pub trigger_ledger_id : String
  pub payment_method_id : Option String
  pub payment_id : Option String
  pub idempotency_key : String
  pub amount_minor : ℤ
  pub currency : Currency
  pub balance_at_trigger_minor : ℤ
  pub provider : String
  pub provider_reference : Option String
  pub status : AttemptStatus
  pub attempts : ℕ
  pub retryable : Bool
  pub failure_code : Option String
  pub failure_message : Option String
  pub cancellation_reason : Option String
  pub next_attempt_at : Option ℕ
  pub claim_token : Option String
  pub claimed_at : Option ℕ
  pub lease_expires_at : Option ℕ
  pub validated_at : Option ℕ
  pub payment_mode : Option Mode
  pub credential_fingerprint : Option String
  pub dispatched_at : Option ℕ
  pub last_attempt_at : Option ℕ
  pub succeeded_at : Option ℕ
  pub failed_at : Option ℕ
  pub cancelled_at : Option ℕ
  pub created_at : ℕ
  pub updated_at : ℕ

pub record NumberSubscription : Type 0 where
  pub id : String
  pub tenant_id : String
  pub telnum : String
  pub channels : ℕ
  pub status : SubscriptionStatus
  pub next_billing_at : ℕ
  pub last_billed_at : Option ℕ
  pub department_id : Option String

pub record Db : Type 0 where
  pub tenants : List Tenant
  pub wallets : List Wallet
  pub ledger : List LedgerRow
  pub payments : List Payment
  pub payment_methods : List PaymentMethod
  pub auto_topup_settings : List AutoTopupSettings
  pub auto_topup_attempts : List Attempt
  pub number_subscriptions : List NumberSubscription
  pub pricing : Option Pricing
  pub pricing_overrides : List PricingOverride
  pub invoices : List Invoice
  pub memberships : List Membership

-- What a transaction takes from outside: the clock, and the ids and tokens that the database and the
-- random generator hand out.
pub record Env : Type 0 where
  pub now : ℕ
  pub wallet_id : String
  pub ledger_id : String
  pub vat_id : String
  pub attempt_id : String
  pub payment_id : String
  pub claim_token : String
  pub invoice_id : String
