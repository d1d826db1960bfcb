-- ===== src/AutoTopup/Work.antt =====
-- server/utils/auto-topup-executor.ts, one task of `executeAutoTopups`: an attempt is claimed, the
-- provider is asked, and what it answers is recorded.
use telroi_ai_app.Base.{
  ◌+◌, Bool, false, not, ◌&&◌, Option, some, none, String, ◌==◌, if◌then◌else◌,
}
use telroi_ai_app.Base.Int.{ℤ}
use telroi_ai_app.Base.Tx.{Result, ok, err, fault}
use telroi_ai_app.Db.{Attempt, Db, Env, Tx, update_attempts}
use telroi_ai_app.AutoTopup.Attempts.{retry_delay_ms, due_unsent_auto_topups}
use telroi_ai_app.AutoTopup.Observation.{ProviderResult, observed, unknown}
use telroi_ai_app.AutoTopup.Settle.{Settled, settle_auto_topup_observation}
use telroi_ai_app.AutoTopup.Claim.{
  DispatchContext, Charge, Claimed, dispatch, claim_auto_topup_for_charge,
}
use telroi_ai_app.AutoTopup.Recover.{mark_auto_topup_uncertain}

-- A result that changed nothing is marked, if the claim is still held.
abbrev pub mark_ignored : Env → String → String → Settled → Db → Db
mark_ignored env id claim_token Settled.ignored db =
    mark_auto_topup_uncertain env id claim_token "result_not_applied" db
mark_ignored env id claim_token (Settled.succeeded i n) db = db
mark_ignored env id claim_token (Settled.failed n) db = db
mark_ignored env id claim_token Settled.uncertain db = db

abbrev pub mark_settled : Env → String → String → Result (Settled × Db) → Result (Settled × Db)
mark_settled env id claim_token (ok p) = ok (p.0, mark_ignored env id claim_token p.0 p.1)
mark_settled env id claim_token (err e) = err e

-- `recordResult`
unfoldable pub record_result : Env → String → String → ProviderResult → Tx Settled
record_result env id claim_token (unknown code) db =
    ok (Settled.uncertain, mark_auto_topup_uncertain env id claim_token code db)
record_result env id claim_token (observed o) db =
    mark_settled env id claim_token (settle_auto_topup_observation env o db)

-- The provider's answer names another charge.
abbrev pub is_other_charge : ProviderResult → String → Bool
is_other_charge (unknown code) reference = false
is_other_charge (observed o) reference = not (o.reference == reference)

-- What the `catch` leaves of a result that could not be recorded.
abbrev pub or_unconfirmed : Env → Charge → Db → Result (Settled × Db) → Db
or_unconfirmed env c db (ok p) = p.1
or_unconfirmed env c db (err e) =
    mark_auto_topup_uncertain env c.attempt_id c.claim_token "dispatch_result_unconfirmed" db

-- From the provider's answer on.
unfoldable pub record_charge : Env → Charge → ProviderResult → Db → Db
unfolding record_result
record_charge env c result db =
    if is_other_charge result c.reference
    then or_unconfirmed env c db (err (fault "payment identity"))
    else or_unconfirmed env c db (record_result env c.attempt_id c.claim_token result db)

-- An attempt that could not be prepared waits.
abbrev pub postponed_attempt : Env → Attempt → Attempt
postponed_attempt env a = record a {
  updated_at = env.now;
  next_attempt_at = some (env.now + retry_delay_ms);
  failure_code = some "dispatch_preparation_error";
}

unfoldable pub postpone : Env → String → Db → Db
postpone env id db =
    update_attempts (λ a. a.id == id && due_unsent_auto_topups env.now a) (postponed_attempt env) db

-- After the claim: the charges that were sent, and the state. `provider` stands for the one POST.
abbrev pub after_claim :
    (Charge → ProviderResult) → Env → Env → String → Db → Result (Claimed × Db) → Option Charge × Db
after_claim provider env later id db (err e) = (none, postpone env id db)
after_claim provider env later id db (ok (dispatch c, t)) =
    (some c, record_charge later c (provider c) t)
after_claim provider env later id db (ok (Claimed.skipped, t)) = (none, t)
after_claim provider env later id db (ok (Claimed.needs_review, t)) = (none, t)
after_claim provider env later id db (ok (Claimed.cancelled reason, t)) = (none, t)

-- The task on one row of `rows`.
unfoldable pub work_attempt :
    (Charge → ProviderResult)
    → (String → String)
    → (ℤ → ℤ → ℤ)
    → Env
    → Env
    → String
    → String
    → DispatchContext
    → Db
    → Option Charge × Db
unfolding record_charge postpone
work_attempt provider decrypt utc env later tenant_id attempt_id ctx db =
    after_claim provider env later attempt_id db
      (claim_auto_topup_for_charge decrypt utc env tenant_id attempt_id ctx db)
