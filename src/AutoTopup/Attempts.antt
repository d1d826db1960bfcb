-- ===== src/AutoTopup/Attempts.antt =====
-- server/utils/auto-topup-attempts.ts, the work queue: one attempt for each triggering debit, at most
-- one active attempt in a workspace, and the cancellation of attempts that were never sent.
use telroi_ai_app.Base.{
  ℕ, zero, suc, Bool, true, false, not, ◌&&◌, ◌||◌, Option, some, none, List, ◌∷◌, String, ◌==◌,
  text_is, is_some, is_present, leb, if◌then◌else◌,
}
use telroi_ai_app.Base.Int.{ℤ, pos, ltb_ℤ, eqb_ℤ}
use telroi_ai_app.Base.Rows.{find}
use telroi_ai_app.Base.Tx.{fault, ok, throw}
use telroi_ai_app.Db.{
  Currency, currency_is, Attempt, AttemptStatus, PaymentStatus, Payment, Db, Env, Tx,
  update_attempts,
}
use telroi_ai_app.AutoTopup.Policy.{same_text}
use Prim.Native.String.{◌++◌}

-- `EnqueueAutoTopupAttemptInput`
pub record EnqueueInput : Type 0 where
  pub tenant_id : String
  pub trigger_ledger_id : String
  pub payment_method_id : String
  pub amount_minor : ℤ
  pub currency : Currency
  pub balance_at_trigger_minor : ℤ
  pub provider : String

-- `UNSENT_STATUSES`
abbrev pub is_unsent : AttemptStatus → Bool
is_unsent AttemptStatus.pending = true
is_unsent AttemptStatus.processing = true
is_unsent AttemptStatus.ready = true
is_unsent _ = false

-- The statuses that can still lead to a charge.
abbrev pub is_active : AttemptStatus → Bool
is_active AttemptStatus.succeeded = false
is_active AttemptStatus.failed = false
is_active AttemptStatus.cancelled = false
is_active _ = true

-- `autoTopupAttemptKey`
unfoldable pub auto_topup_attempt_key : String → String
auto_topup_attempt_key trigger_ledger_id = "atp-" ++ trigger_ledger_id

-- The row that `enqueueAutoTopupAttemptWithDb` inserts, the columns' defaults written out.
abbrev pub new_attempt : Env → EnqueueInput → Attempt
new_attempt env input = record {
  id = env.attempt_id;
  tenant_id = input.tenant_id;
  trigger_ledger_id = input.trigger_ledger_id;
  payment_method_id = some input.payment_method_id;
  payment_id = none;
  idempotency_key = auto_topup_attempt_key input.trigger_ledger_id;
  amount_minor = input.amount_minor;
  currency = input.currency;
  balance_at_trigger_minor = input.balance_at_trigger_minor;
  provider = input.provider;
  provider_reference = none;
  status = AttemptStatus.pending;
  attempts = 0;
  retryable = true;
  failure_code = none;
  failure_message = none;
  cancellation_reason = none;
  next_attempt_at = some env.now;
  claim_token = none;
  claimed_at = none;
  lease_expires_at = none;
  validated_at = none;
  payment_mode = none;
  credential_fingerprint = none;
  dispatched_at = none;
  last_attempt_at = none;
  succeeded_at = none;
  failed_at = none;
  cancelled_at = none;
  created_at = env.now;
  updated_at = env.now;
}

-- An attempt of the same trigger or the same idempotency key.
abbrev pub same_trigger : EnqueueInput → Attempt → Bool
same_trigger input a =
    a.idempotency_key == auto_topup_attempt_key input.trigger_ledger_id
    || a.trigger_ledger_id == input.trigger_ledger_id

-- An active attempt of the workspace.
abbrev pub is_active_of : String → Attempt → Bool
is_active_of tenant_id a = a.tenant_id == tenant_id && is_active a.status

-- `values(…).onConflictDoNothing()`: the unique indexes on the key, the trigger and the active
-- workspace, the id being fresh and the payment null.
abbrev pub conflicts : EnqueueInput → Attempt → Bool
conflicts input a = same_trigger input a || is_active_of input.tenant_id a

-- The recovered attempt must be of the same charge.
abbrev pub same_charge : EnqueueInput → Attempt → Bool
same_charge input a =
    a.tenant_id == input.tenant_id
    && eqb_ℤ a.amount_minor input.amount_minor
    && currency_is a.currency input.currency
    && same_text a.payment_method_id (some input.payment_method_id)
    && a.provider == input.provider

pub record Enqueued : Type 0 where
  pub attempt : Attempt
  pub created : Bool
  pub covered_by_existing : Bool

-- `enqueueAutoTopupAttemptWithDb`
unfoldable pub enqueue_auto_topup_attempt : Env → EnqueueInput → Tx Enqueued
enqueue_auto_topup_attempt env input db =
    if not (ltb_ℤ (pos 0) input.amount_minor)
    then throw (fault "Auto top-up amount must be a positive integer.") db
    else elim (find (conflicts input) db.auto_topup_attempts) [
      | none ↦
          let row = new_attempt env input in
          ok (
            record { attempt = row; created = true; covered_by_existing = false },
            record db { auto_topup_attempts = row ∷ db.auto_topup_attempts },
          )
      | some _ ↦ elim (find (same_trigger input) db.auto_topup_attempts) [
        | some same ↦
            if same_charge input same
            then ok (record { attempt = same; created = false; covered_by_existing = false }, db)
            else throw
                (fault "Auto top-up idempotency key was reused with different charge details.") db
        | none ↦ elim (find (is_active_of input.tenant_id) db.auto_topup_attempts) [
          | some active ↦
              ok (record { attempt = active; created = false; covered_by_existing = true }, db)
          | none ↦ throw (fault "Auto top-up attempt conflicted but could not be recovered.") db
        ]
      ]
    ]

abbrev pub retry_delay_ms : ℕ
retry_delay_ms = 300_000

abbrev pub lease_ms : ℕ
lease_ms = 120_000

abbrev pub null_or_past : Option ℕ → ℕ → Bool
null_or_past none now = true
null_or_past (some t) now = leb t now

-- `dueUnsentAutoTopups`
unfoldable pub due_unsent_auto_topups : ℕ → Attempt → Bool
due_unsent_auto_topups now a =
    is_unsent a.status && null_or_past a.next_attempt_at now && null_or_past a.lease_expires_at now

abbrev pub is_zero : ℕ → Bool
is_zero zero = true
is_zero (suc n) = false

abbrev pub is_pending : PaymentStatus → Bool
is_pending PaymentStatus.pending = true
is_pending _ = false

-- A payment that shows that the attempt's charge went further than its pending row.
abbrev pub is_dispatch_evidence : String → Payment → Bool
is_dispatch_evidence key p =
    p.reference == key && (not (is_pending p.status) || is_some p.credited_at)

-- The `where` of `cancelUnsentAutoTopups`.
unfoldable pub is_cancellable : List Payment → String → Option String → Attempt → Bool
is_cancellable payments tenant_id attempt_id a =
    a.tenant_id == tenant_id
    && (if is_present attempt_id then text_is attempt_id a.id else true)
    && is_unsent a.status
    && is_zero a.attempts
    && not (is_some a.dispatched_at)
    && not (is_some a.last_attempt_at)
    && not (is_some a.provider_reference)
    && not (is_some (find (is_dispatch_evidence a.idempotency_key) payments))

-- The `set` of `cancelUnsentAutoTopups`, `RELEASE_CLAIM` written out.
abbrev pub cancelled_attempt : String → ℕ → Attempt → Attempt
cancelled_attempt reason now a = record a {
  claim_token = none;
  claimed_at = none;
  lease_expires_at = none;
  status = AttemptStatus.cancelled;
  retryable = false;
  cancellation_reason = some reason;
  cancelled_at = some now;
  updated_at = now;
  next_attempt_at = none;
}

-- `cancelUnsentAutoTopups`
unfoldable pub cancel_unsent_auto_topups : Env → String → String → Option String → Db → Db
unfolding is_cancellable
cancel_unsent_auto_topups env tenant_id reason attempt_id db =
    update_attempts (is_cancellable db.payments tenant_id attempt_id)
      (cancelled_attempt reason env.now) db
