-- ===== src/AutoTopup/Observation.antt =====
-- server/utils/auto-topup-provider.ts: what the payment providers say about a charge. The schemas of
-- zod are not read here: an input that they reject is `none`, one that they accept is a record of its
-- fields. `toUpperCase` is a parameter.
use telroi_ai_app.Base.{
  Bool, true, false, ◌&&◌, Option, some, none, String, text_is, is_some, not, if◌then◌else◌,
}
use telroi_ai_app.Base.Int.{ℤ, eqb_ℤ}
use telroi_ai_app.Db.{Mode}

pub data Outcome : Type 0 where
  succeeded failed pending : Outcome

-- `PaymentObservation`
pub record PaymentObservation : Type 0 where
  pub outcome : Outcome
  pub provider : String
  pub provider_id : String
  pub reference : String
  pub amount_minor : ℤ
  pub currency : String
  pub mode : Mode
  pub code : String

-- `ProviderResult`
pub data ProviderResult : Type 0 where
  observed : PaymentObservation → ProviderResult
  unknown : String → ProviderResult

pub data StripeStatus : Type 0 where
  succeeded canceled requires_payment_method requires_action processing : StripeStatus
  requires_confirmation requires_capture : StripeStatus

-- `StripeIntent`; `last_payment_error` holds the code of the last error, if there was one.
pub record StripeIntent : Type 0 where
  pub id : String
  pub amount : ℤ
  pub amount_received : ℤ
  pub currency : String
  pub livemode : Bool
  pub status : StripeStatus
  pub reference : String
  pub last_payment_error : Option (Option String)

pub data PaystackStatus : Type 0 where
  success failed abandoned ongoing pending processing queued reversed : PaystackStatus

-- `PaystackTransaction`, its id as a text
pub record PaystackTransaction : Type 0 where
  pub id : String
  pub reference : String
  pub amount : ℤ
  pub currency : String
  pub domain : Mode
  pub status : PaystackStatus

-- The outcome of an intent's status, and whether an error was reported.
abbrev pub stripe_outcome : StripeStatus → Bool → Outcome
stripe_outcome StripeStatus.succeeded e = Outcome.succeeded
stripe_outcome StripeStatus.canceled e = Outcome.failed
stripe_outcome StripeStatus.requires_action e = Outcome.failed
stripe_outcome StripeStatus.requires_payment_method true = Outcome.failed
stripe_outcome StripeStatus.requires_payment_method false = Outcome.pending
stripe_outcome _ e = Outcome.pending

abbrev pub is_authentication_required : Option (Option String) → Bool
is_authentication_required none = false
is_authentication_required (some code) = text_is code "authentication_required"

abbrev pub stripe_code : StripeStatus → Option (Option String) → String
stripe_code StripeStatus.requires_action e = "authentication_required"
stripe_code StripeStatus.requires_payment_method e =
    if is_authentication_required e
    then "authentication_required"
    else "stripe_requires_payment_method"
stripe_code StripeStatus.succeeded e = "stripe_succeeded"
stripe_code StripeStatus.canceled e = "stripe_canceled"
stripe_code StripeStatus.requires_confirmation e = "stripe_requires_confirmation"
stripe_code StripeStatus.requires_capture e = "stripe_requires_capture"
stripe_code StripeStatus.processing e = "stripe_processing"

abbrev pub is_succeeded : StripeStatus → Bool
is_succeeded StripeStatus.succeeded = true
is_succeeded _ = false

-- `stripeObservation`
unfoldable pub stripe_observation : (String → String) → Option StripeIntent → ProviderResult
stripe_observation to_upper none = unknown "invalid_stripe_response"
stripe_observation to_upper (some p) =
    if is_succeeded p.status && not (eqb_ℤ p.amount_received p.amount)
    then unknown "stripe_amount_received_mismatch"
    else observed (record {
      outcome = stripe_outcome p.status (is_some p.last_payment_error);
      provider = "stripe";
      provider_id = p.id;
      reference = p.reference;
      amount_minor = p.amount;
      currency = to_upper p.currency;
      mode = if p.livemode then Mode.live else Mode.test;
      code = stripe_code p.status p.last_payment_error;
    })

abbrev pub paystack_outcome : PaystackStatus → Outcome
paystack_outcome PaystackStatus.success = Outcome.succeeded
paystack_outcome PaystackStatus.failed = Outcome.failed
paystack_outcome PaystackStatus.abandoned = Outcome.failed
paystack_outcome PaystackStatus.reversed = Outcome.failed
paystack_outcome _ = Outcome.pending

abbrev pub paystack_code : PaystackStatus → String
paystack_code PaystackStatus.success = "paystack_success"
paystack_code PaystackStatus.failed = "paystack_failed"
paystack_code PaystackStatus.abandoned = "paystack_abandoned"
paystack_code PaystackStatus.ongoing = "paystack_ongoing"
paystack_code PaystackStatus.pending = "paystack_pending"
paystack_code PaystackStatus.processing = "paystack_processing"
paystack_code PaystackStatus.queued = "paystack_queued"
paystack_code PaystackStatus.reversed = "paystack_reversed"

-- `paystackObservation`
unfoldable pub paystack_observation :
    (String → String) → Option PaystackTransaction → ProviderResult
paystack_observation to_upper none = unknown "invalid_paystack_response"
paystack_observation to_upper (some p) = observed (record {
  outcome = paystack_outcome p.status;
  provider = "paystack";
  provider_id = p.id;
  reference = p.reference;
  amount_minor = p.amount;
  currency = to_upper p.currency;
  mode = p.domain;
  code = paystack_code p.status;
})
