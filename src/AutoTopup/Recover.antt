-- ===== src/AutoTopup/Recover.antt =====
-- server/utils/auto-topup-executor.ts, recovery: the claim of attempts whose outcome has to be
-- looked up, and the mark of an outcome that is not known.
use telroi_ai_app.Base.{ℕ, ◌+◌, Bool, true, false, ◌&&◌, Option, some, none, String, ◌==◌, text_is}
use telroi_ai_app.Base.Rows.{find}
use telroi_ai_app.Base.Tx.{ok}
use telroi_ai_app.Db.{Attempt, AttemptStatus, Db, Env, Tx, update_attempts}
use telroi_ai_app.AutoTopup.Attempts.{lease_ms, retry_delay_ms, null_or_past}

-- The statuses that recovery works on.
abbrev pub is_in_flight : AttemptStatus → Bool
is_in_flight AttemptStatus.dispatching = true
is_in_flight AttemptStatus.uncertain = true
is_in_flight _ = false

-- The `where` of `markAutoTopupUncertain`.
abbrev pub holds_claim : String → String → Attempt → Bool
holds_claim id claim_token a =
    a.id == id && text_is a.claim_token claim_token && is_in_flight a.status

-- The `set` of `markAutoTopupUncertain`.
abbrev pub marked_attempt : ℕ → String → Attempt → Attempt
marked_attempt now code a = record a {
  status = AttemptStatus.uncertain;
  retryable = false;
  failure_code = some code;
  updated_at = now;
  next_attempt_at = some (now + retry_delay_ms);
  claim_token = none;
  claimed_at = none;
  lease_expires_at = none;
}

-- `markAutoTopupUncertain`
unfoldable pub mark_auto_topup_uncertain : Env → String → String → String → Db → Db
mark_auto_topup_uncertain env id claim_token code db =
    update_attempts (holds_claim id claim_token) (marked_attempt env.now code) db

-- The `where` of `claimAutoTopupRecovery`.
abbrev pub is_recoverable : ℕ → Attempt → Bool
is_recoverable now a =
    is_in_flight a.status
    && null_or_past a.next_attempt_at now
    && null_or_past a.lease_expires_at now

-- The `set` of `claimAutoTopupRecovery`.
abbrev pub leased_attempt : Env → Attempt → Attempt
leased_attempt env a = record a {
  claim_token = some env.claim_token;
  claimed_at = some env.now;
  lease_expires_at = some (env.now + lease_ms);
  updated_at = env.now;
}

-- `claimAutoTopupRecovery`, of the attempt that its order puts first: `first` stands for the order.
unfoldable pub claim_auto_topup_recovery : Env → String → Tx (Option Attempt)
claim_auto_topup_recovery env first db =
    elim (find (λ a. a.id == first && is_recoverable env.now a) db.auto_topup_attempts) [
      | none ↦ ok (none, db)
      | some a ↦
          ok (
            some (leased_attempt env a),
            update_attempts (λ b. b.id == a.id) (leased_attempt env) db,
          )
    ]
