-- ===== src/System.antt =====
-- The wallet and the auto top-up together: any interleaving of the transactions of
-- server/utils/wallet.ts, auto-topup-attempts.ts and auto-topup-executor.ts, as a step relation that
-- records each charge handed to a payment provider.
pub mod Safety
pub mod Credits
use telroi_ai_app.Base.{ℕ, ◌≡◌, Option, some, none, List, [], ◌∷◌, String, ◌==◌}
use telroi_ai_app.Base.Int.{ℤ}
use telroi_ai_app.Base.Tx.{ok}
use telroi_ai_app.Db.{Db, Env, Attempt}
use telroi_ai_app.Wallet.Debit.{DebitArgs, Debited, debit_in_transaction}
use telroi_ai_app.Wallet.Credit.{CreditArgs, Credited, credit_in_transaction}
use telroi_ai_app.AutoTopup.Attempts.{cancel_unsent_auto_topups}
use telroi_ai_app.AutoTopup.Observation.{PaymentObservation}
use telroi_ai_app.AutoTopup.Settle.{Settled, settle_auto_topup_observation}
use telroi_ai_app.AutoTopup.Claim.{
  DispatchContext, Charge, Claimed, dispatch, skipped, needs_review, cancelled,
  claim_auto_topup_for_charge,
}
use telroi_ai_app.AutoTopup.Recover.{mark_auto_topup_uncertain, claim_auto_topup_recovery}
use telroi_ai_app.AutoTopup.Work.{postpone}
use telroi_ai_app.AutoTopup.Sent.{IsFreshAttempt}

-- The charge that a claim hands to the provider.
abbrev pub charge_sent : Claimed → Option Charge
charge_sent (dispatch c) = some c
charge_sent skipped = none
charge_sent needs_review = none
charge_sent (cancelled reason) = none

-- One committed transaction, with the charge that it lets out. `decrypt` and `utc` are the outside
-- functions of the claim.
module _ (decrypt : String → String) (utc : ℤ → ℤ → ℤ) where
  pub data Step (s : Db) : Option Charge → Db → Type 0 where
    debit :
        (env : Env) (args : DebitArgs) (r : Debited) {t : Db}
        → IsFreshAttempt env s
        → debit_in_transaction env args s ≡ ok (r, t)
        → Step s none t
    credit :
        (env : Env) (args : CreditArgs) (r : Credited) {t : Db}
        → credit_in_transaction env args s ≡ ok (r, t)
        → Step s none t
    claim :
        (env : Env) (tenant_id attempt_id : String) (ctx : DispatchContext) (c : Claimed) {t : Db}
        {sent : Option Charge}
        → claim_auto_topup_for_charge decrypt utc env tenant_id attempt_id ctx s ≡ ok (c, t)
        → sent ≡ charge_sent c
        → Step s sent t
    settle :
        (env : Env) (o : PaymentObservation) (r : Settled) {t : Db}
        → settle_auto_topup_observation env o s ≡ ok (r, t)
        → Step s none t
    mark :
        (env : Env) (id claim_token code : String) {t : Db}
        → t ≡ mark_auto_topup_uncertain env id claim_token code s
        → Step s none t
    recover :
        (env : Env) (first : String) (a : Option Attempt) {t : Db}
        → claim_auto_topup_recovery env first s ≡ ok (a, t)
        → Step s none t
    wait : (env : Env) (id : String) {t : Db} → t ≡ postpone env id s → Step s none t
    cancel :
        (env : Env) (tenant_id reason : String) (attempt_id : Option String) {t : Db}
        → t ≡ cancel_unsent_auto_topups env tenant_id reason attempt_id s
        → Step s none t

  -- Any number of steps, with the charges that they let out, the last first.
  pub data Reach (s : Db) : List Charge → Db → Type 0 where
    here : Reach s [] s
    quiet : {cs : List Charge} {t u : Db} → Reach s cs t → Step t none u → Reach s cs u
    send :
        {cs : List Charge} {t u : Db} (c : Charge)
        → Reach s cs t
        → Step t (some c) u
        → Reach s (c ∷ cs) u
