-- ===== src/AutoTopup/Claim.antt =====
-- server/utils/auto-topup-executor.ts, the claim: the last checks and the exclusive claim right before
-- the provider is asked to charge, and the claims that only look a charge up.
use telroi_ai_app.AutoTopup.Reasons.{attempt_card, claim_reason}
use telroi_ai_app.Base.{
  ℕ, ◌+◌, Bool, false, not, ◌&&◌, ◌||◌, Option, some, none, ◌∷◌, String, ◌==◌, is_some, is_present,
  if◌then◌else◌, or_else,
}
use telroi_ai_app.Base.Int.{ℤ}
use telroi_ai_app.Base.Rows.{find}
use telroi_ai_app.Base.Tx.{fault, ok, err}
use telroi_ai_app.Db.{
  Currency, Mode, Wallet, PaymentMethod, Attempt, AttemptStatus, Payment, PaymentStatus, Db, Env,
  Tx, wallet_of, update_attempts,
}
use telroi_ai_app.AutoTopup.Attempts.{
  is_zero, is_pending, lease_ms, due_unsent_auto_topups, cancel_unsent_auto_topups,
}
use telroi_ai_app.AutoTopup.Settle.{payment_matches}

-- `DispatchContext`
pub record DispatchContext : Type 0 where
  pub mode : Mode
  pub fingerprint : String

-- What the provider is asked to charge.
pub record Charge : Type 0 where
  pub attempt_id : String
  pub tenant_id : String
  pub claim_token : String
  pub payment_id : String
  pub reference : String
  pub amount_minor : ℤ
  pub currency : Currency
  pub provider : String
  pub token : String
  pub customer_id : Option String
  pub billing_email : Option String

pub data Claimed : Type 0 where
  skipped needs_review : Claimed
  cancelled : String → Claimed
  dispatch : Charge → Claimed

-- The attempt set aside for a person to look at.
abbrev pub reviewed_attempt : ℕ → String → Attempt → Attempt
reviewed_attempt now code a = record a {
  claim_token = none;
  claimed_at = none;
  lease_expires_at = none;
  status = AttemptStatus.needs_review;
  failure_code = some code;
  retryable = false;
  next_attempt_at = none;
  updated_at = now;
}

-- `review(code)`
abbrev pub review : Env → Attempt → String → Tx Claimed
review env a code db =
    ok (needs_review, update_attempts (λ b. b.id == a.id) (reviewed_attempt env.now code) db)

-- The attempt claimed for its one charge.
abbrev pub dispatched_attempt : Env → DispatchContext → String → Attempt → Attempt
dispatched_attempt env ctx payment_id a = record a {
  payment_id = some payment_id;
  status = AttemptStatus.dispatching;
  dispatched_at = some env.now;
  attempts = 1;
  last_attempt_at = some env.now;
  validated_at = some env.now;
  updated_at = env.now;
  payment_mode = some ctx.mode;
  credential_fingerprint = some ctx.fingerprint;
  claim_token = some env.claim_token;
  claimed_at = some env.now;
  lease_expires_at = some (env.now + lease_ms);
  next_attempt_at = some (env.now + lease_ms);
}

-- What is handed to the provider.
abbrev pub charge_of : Env → Attempt → PaymentMethod → Payment → String → Charge
charge_of env a card p token = record {
  attempt_id = a.id;
  tenant_id = a.tenant_id;
  claim_token = env.claim_token;
  payment_id = p.id;
  reference = p.reference;
  amount_minor = p.amount_minor;
  currency = p.currency;
  provider = p.provider;
  token = token;
  customer_id = card.provider_customer_id;
  billing_email = card.billing_email;
}

-- From the recorded payment on.
unfoldable pub claim_payment :
    Env → DispatchContext → Attempt → PaymentMethod → String → Payment → Tx Claimed
claim_payment env ctx a card token p db =
    if not (payment_matches a p)
    then review env a "payment_identity_mismatch" db
    else if not (is_pending p.status) || is_some p.credited_at
    then review env a "unexpected_payment_result" db
    else ok (
      dispatch (charge_of env a card p token),
      update_attempts (λ b. b.id == a.id) (dispatched_attempt env ctx p.id) db,
    )

-- The pending payment that the claim records.
abbrev pub pending_payment : Env → Attempt → Payment
pending_payment env a = record {
  id = env.payment_id;
  tenant_id = a.tenant_id;
  provider = a.provider;
  reference = a.idempotency_key;
  amount_minor = a.amount_minor;
  currency = a.currency;
  status = PaymentStatus.pending;
  credited_at = none;
  raw_attempt_id = some a.id;
}

-- The payment of the charge, recorded now if it was not. In a transaction of its own no other row of
-- the reference can appear between the lookup and the insert.
unfoldable pub claim_token_ready :
    Env → DispatchContext → Attempt → PaymentMethod → String → Option Payment → Tx Claimed
unfolding claim_payment
claim_token_ready env ctx a card token (some p) db = claim_payment env ctx a card token p db
claim_token_ready env ctx a card token none db =
    claim_payment env ctx a card token (pending_payment env a)
      (record db { payments = pending_payment env a ∷ db.payments })

-- The card's token, decrypted by the parameter `decrypt`.
unfoldable pub claim_card :
    (String → String)
    → Env
    → DispatchContext
    → Attempt
    → Option PaymentMethod
    → Option Payment
    → Tx Claimed
unfolding claim_token_ready
claim_card decrypt env ctx a none existing db = err (fault "Saved card token unavailable")
claim_card decrypt env ctx a (some card) existing db =
    if is_present card.token_enc && not (decrypt (or_else card.token_enc "") == "")
    then claim_token_ready env ctx a card (decrypt (or_else card.token_enc "")) existing db
    else err (fault "Saved card token unavailable")

-- The revalidation.
unfoldable pub claim_validated :
    (String → String)
    → Env
    → DispatchContext
    → Attempt
    → Option Payment
    → Option String
    → Tx Claimed
unfolding claim_card
claim_validated decrypt env ctx a existing (some reason) db =
    ok (cancelled reason, cancel_unsent_auto_topups env a.tenant_id reason (some a.id) db)
claim_validated decrypt env ctx a existing none db =
    claim_card decrypt env ctx a (attempt_card a db) existing db

-- Why the payment of the attempt's key asks for a review, if it does.
abbrev pub payment_review : Attempt → Option Payment → Option String
payment_review a none = if is_present a.payment_id then some "linked_payment_missing" else none
payment_review a (some p) =
    if not (payment_matches a p)
    then some "payment_identity_mismatch"
    else if not (is_pending p.status) || is_some p.credited_at
    then some "unexpected_payment_result"
    else none

-- The attempt shows that it was sent before.
abbrev pub has_dispatch_evidence : Attempt → Bool
has_dispatch_evidence a =
    not (is_zero a.attempts)
    || is_some a.dispatched_at
    || is_some a.last_attempt_at
    || is_present a.provider_reference

abbrev pub payment_by_reference : String → Db → Option Payment
payment_by_reference reference db = find (λ p. p.reference == reference) db.payments

-- The checks on the attempt and its payment.
unfoldable pub claim_attempt :
    (String → String) → (ℤ → ℤ → ℤ) → Env → DispatchContext → Wallet → Attempt → Tx Claimed
unfolding claim_validated claim_reason
claim_attempt decrypt utc env ctx w a db =
    if has_dispatch_evidence a
    then review env a "unexpected_dispatch_evidence" db
    else elim (payment_review a (payment_by_reference a.idempotency_key db)) [
      | some code ↦ review env a code db
      | none ↦
          claim_validated decrypt env ctx a (payment_by_reference a.idempotency_key db)
            (claim_reason utc env.now a w db) db
    ]

-- The select of the attempt, if it is due and unsent.
abbrev pub due_attempt : String → String → ℕ → Db → Option Attempt
due_attempt tenant_id id now db =
    find (λ a. a.id == id && a.tenant_id == tenant_id && due_unsent_auto_topups now a)
      db.auto_topup_attempts

-- `claimAutoTopupForCharge`
unfoldable pub claim_auto_topup_for_charge :
    (String → String) → (ℤ → ℤ → ℤ) → Env → String → String → DispatchContext → Tx Claimed
unfolding claim_attempt
claim_auto_topup_for_charge decrypt utc env tenant_id attempt_id ctx db =
    elim (wallet_of tenant_id db) [
      | none ↦ ok (skipped, db)
      | some w ↦ elim (due_attempt tenant_id attempt_id env.now db) [
        | none ↦ ok (skipped, db)
        | some a ↦ claim_attempt decrypt utc env ctx w a db
      ]
    ]
