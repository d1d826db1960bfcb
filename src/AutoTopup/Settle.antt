-- ===== src/AutoTopup/Settle.antt =====
-- server/utils/auto-topup-executor.ts, the settlement: provider evidence closes the attempt and its
-- payment, and a success credits the wallet, all in one transaction.
use telroi_ai_app.Base.{
  ℕ, ◌+◌, Bool, true, false, not, ◌&&◌, ◌||◌, Option, some, none, [], ◌∷◌, String, ◌==◌, text_is,
  is_some, is_present, if◌then◌else◌,
}
use telroi_ai_app.Base.Int.{ℤ, eqb_ℤ}
use telroi_ai_app.Base.Rows.{find}
use telroi_ai_app.Base.Tx.{fault, ok, pure, gets, modify, or_throw, throw_unless, ◌>>=◌, ◌>>◌}
use telroi_ai_app.Db.{
  Currency, ngn, usd, currency_is, Mode, test, live, Attempt, AttemptStatus, Payment, PaymentStatus,
  Wallet, text, Db, Env, Tx, wallet_of, update_attempts, update_payments,
}
use telroi_ai_app.AutoTopup.Attempts.{retry_delay_ms}
use telroi_ai_app.AutoTopup.Observation.{PaymentObservation, Outcome}
use telroi_ai_app.Wallet.Spend.{int}
use telroi_ai_app.Wallet.Credit.{CreditArgs, credit_in_transaction}

abbrev pub currency_code : Currency → String
currency_code ngn = "NGN"
currency_code usd = "USD"

abbrev pub mode_is : Mode → Mode → Bool
mode_is test test = true
mode_is live live = true
mode_is _ _ = false

-- `assertAutoTopupPaymentMatches`: does not throw
unfoldable pub payment_matches : Attempt → Payment → Bool
payment_matches a p =
    p.reference == a.idempotency_key
    && p.tenant_id == a.tenant_id
    && eqb_ℤ p.amount_minor a.amount_minor
    && currency_is p.currency a.currency
    && p.provider == a.provider
    && (if is_present a.payment_id
        then text_is a.payment_id p.id
        else text_is p.raw_attempt_id a.id)

abbrev pub mode_matches : Option Mode → Mode → Bool
mode_matches none m = false
mode_matches (some n) m = mode_is m n

-- `assertAutoTopupObservationMatches`: does not throw
unfoldable pub observation_matches : Attempt → PaymentObservation → Bool
observation_matches a o =
    is_some a.dispatched_at
    && o.reference == a.idempotency_key
    && o.provider == a.provider
    && eqb_ℤ o.amount_minor a.amount_minor
    && o.currency == currency_code a.currency
    && mode_matches a.payment_mode o.mode
    && (if is_present a.provider_reference
        then text_is a.provider_reference o.provider_id
        else true)

-- The statuses of an attempt whose charge may have been sent.
abbrev pub is_dispatched_status : AttemptStatus → Bool
is_dispatched_status AttemptStatus.dispatching = true
is_dispatched_status AttemptStatus.uncertain = true
is_dispatched_status AttemptStatus.needs_review = true
is_dispatched_status AttemptStatus.succeeded = true
is_dispatched_status AttemptStatus.failed = true
is_dispatched_status _ = false

abbrev pub attempt_by_key : String → Db → Option Attempt
attempt_by_key key db = find (λ a. a.idempotency_key == key) db.auto_topup_attempts

abbrev pub payment_by_id : String → Db → Option Payment
payment_by_id id db = find (λ p. p.id == id) db.payments

-- `FinalNotification`
pub record FinalNotification : Type 0 where
  pub is_success : Bool
  pub tenant_id : String
  pub amount_minor : ℤ
  pub balance_minor : ℤ
  pub currency : Currency
  pub provider : String

pub data Settled : Type 0 where
  succeeded : Bool → Option FinalNotification → Settled
  failed : Option FinalNotification → Settled
  uncertain ignored : Settled

-- The notice about an attempt.
abbrev pub notification : Bool → Attempt → ℤ → FinalNotification
notification is_success a balance = record {
  is_success = is_success;
  tenant_id = a.tenant_id;
  amount_minor = a.amount_minor;
  balance_minor = balance;
  currency = a.currency;
  provider = a.provider;
}

abbrev pub or_now : Option ℕ → ℕ → Option ℕ
or_now none now = some now
or_now (some t) now = some t

-- The credit of a successful attempt.
abbrev pub topup_credit : Attempt → CreditArgs
topup_credit a = record {
  tenant_id = a.tenant_id;
  amount_minor = int a.amount_minor;
  reason = "auto_topup";
  reference = a.idempotency_key;
  meta = ("provider", text a.provider) ∷ ("autoTopupAttemptId", text a.id) ∷ [];
}

-- The payment that succeeded.
abbrev pub succeeded_payment : Env → Payment → Payment
succeeded_payment env p = record p {
  status = PaymentStatus.succeeded;
  credited_at = or_now p.credited_at env.now;
}

-- The attempt that succeeded.
abbrev pub succeeded_attempt : Env → PaymentObservation → Attempt → Attempt
succeeded_attempt env o a = record a {
  claim_token = none;
  claimed_at = none;
  lease_expires_at = none;
  updated_at = env.now;
  status = AttemptStatus.succeeded;
  provider_reference = some o.provider_id;
  succeeded_at = or_now a.succeeded_at env.now;
  failure_code = none;
  failure_message = none;
  failed_at = none;
  next_attempt_at = none;
  retryable = false;
}

-- A success credits the wallet and closes the payment and the attempt.
unfoldable pub settle_success : Env → PaymentObservation → Attempt → Payment → Tx Settled
settle_success env o a p = do
  result ← credit_in_transaction env (topup_credit a)
  modify (update_payments (λ q. q.id == p.id) (λ q. succeeded_payment env q))
  modify (update_attempts (λ b. b.id == a.id) (λ b. succeeded_attempt env o b))
  pure (
      succeeded result.idempotent
        (if result.idempotent then none else some (notification true a result.balance_minor)))

-- The attempt that failed.
abbrev pub failed_attempt : Env → PaymentObservation → Attempt → Attempt
failed_attempt env o a = record a {
  claim_token = none;
  claimed_at = none;
  lease_expires_at = none;
  updated_at = env.now;
  status = AttemptStatus.failed;
  retryable = false;
  provider_reference = some o.provider_id;
  failed_at = or_now a.failed_at env.now;
  failure_code = some o.code;
  next_attempt_at = none;
}

-- The attempt whose outcome is not known yet.
abbrev pub uncertain_attempt : Env → PaymentObservation → Attempt → Attempt
uncertain_attempt env o a = record a {
  claim_token = none;
  claimed_at = none;
  lease_expires_at = none;
  updated_at = env.now;
  status = AttemptStatus.uncertain;
  provider_reference = some o.provider_id;
  failure_code = some o.code;
  retryable = false;
  next_attempt_at = some (env.now + retry_delay_ms);
}

abbrev pub is_attempt_succeeded : AttemptStatus → Bool
is_attempt_succeeded AttemptStatus.succeeded = true
is_attempt_succeeded _ = false

abbrev pub is_attempt_failed : AttemptStatus → Bool
is_attempt_failed AttemptStatus.failed = true
is_attempt_failed _ = false

abbrev pub is_payment_succeeded : PaymentStatus → Bool
is_payment_succeeded PaymentStatus.succeeded = true
is_payment_succeeded _ = false

abbrev pub is_payment_failed : PaymentStatus → Bool
is_payment_failed PaymentStatus.failed = true
is_payment_failed _ = false

-- The records show an earlier success.
abbrev pub has_succeeded : Attempt → Payment → Bool
has_succeeded a p =
    is_attempt_succeeded a.status || is_payment_succeeded p.status || is_some p.credited_at

-- The first failure of the attempt is worth a notice.
abbrev pub failure_notice : Attempt → Payment → Wallet → Option FinalNotification
failure_notice a p w =
    if not (is_attempt_failed a.status) && not (is_payment_failed p.status)
    then some (notification false a w.balance_minor)
    else none

-- What evidence of each outcome does to the matched records.
unfoldable pub settle_outcome :
    Env → PaymentObservation → Wallet → Attempt → Payment → Outcome → Tx Settled
unfolding settle_success
settle_outcome env o w a p Outcome.succeeded db = settle_success env o a p db
settle_outcome env o w a p Outcome.failed db =
    if has_succeeded a p
    then ok (ignored, db)
    else ok (
      failed (failure_notice a p w),
      update_attempts (λ b. b.id == a.id) (λ b. failed_attempt env o b)
          (update_payments (λ q. q.id == p.id) (λ q. record q { status = PaymentStatus.failed })
            db),
    )
settle_outcome env o w a p Outcome.pending db =
    if has_succeeded a p || is_attempt_failed a.status
    then ok (ignored, db)
    else ok (uncertain, update_attempts (λ b. b.id == a.id) (λ b. uncertain_attempt env o b) db)

-- The transaction of `settleAutoTopupObservation`.
unfoldable pub settle_in_transaction : Env → String → PaymentObservation → Tx Settled
unfolding settle_outcome
settle_in_transaction env tenant_id o = do
  w ← or_throw (← gets (wallet_of tenant_id)) (fault "Auto top-up settlement records missing")
  a ←
      or_throw (← gets (attempt_by_key o.reference))
        (fault "Auto top-up settlement records missing")
  id ← or_throw a.payment_id (fault "Auto top-up settlement records missing")
  throw_unless (is_dispatched_status a.status) (fault "Auto top-up has not been dispatched")
  p ← or_throw (← gets (payment_by_id id)) (fault "Auto top-up payment missing")
  throw_unless (payment_matches a p) (fault "Auto top-up payment identity mismatch")
  throw_unless (observation_matches a o) (fault "Auto top-up provider evidence mismatch")
  throw_unless (currency_is w.currency a.currency) (fault "Auto top-up wallet currency changed")
  settle_outcome env o w a p o.outcome

-- `settleAutoTopupObservation`, without its emails
unfoldable pub settle_auto_topup_observation : Env → PaymentObservation → Tx Settled
unfolding settle_in_transaction
settle_auto_topup_observation env o db = elim (attempt_by_key o.reference db) [
  | none ↦ ok (ignored, db)
  | some found ↦ settle_in_transaction env found.tenant_id o db
]
