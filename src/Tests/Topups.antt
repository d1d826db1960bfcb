-- ===== src/Tests/Topups.antt =====
-- The auto top-up's theorems at the small database.
use telroi_ai_app.Wallet.Unique.{AreUnique, is_credit_of}
use telroi_ai_app.System.Credits.{credits_stay-AreUnique}
use telroi_ai_app.Tests.Data.{funding}
use telroi_ai_app.Base.{Bool-cases, inl, inr, arith}
use telroi_ai_app.AutoTopup.Stale.{success_is_final, IsIgnored}
use telroi_ai_app.AutoTopup.Observation.{Outcome}
use telroi_ai_app.AutoTopup.Policy.{
  settings_reason, tenant_reason, amount_reason, wallet_reason, card_reason,
}
use telroi_ai_app.Base.Tx.{ok, err}
use telroi_ai_app.AutoTopup.Chargeable.{cancellation_reason_iff, Allows}
use telroi_ai_app.AutoTopup.Once.{claim-SendsOnce}
use telroi_ai_app.Db.{Db}
use telroi_ai_app.AutoTopup.Claiming.{SendsOnce}
use telroi_ai_app.AutoTopup.Attempts.{due_unsent_auto_topups}
use telroi_ai_app.System.Safety.{books_stay-IsBalanced, charged_at_most_once}
use telroi_ai_app.Base.Int.{◌+ℤ◌, pos}
use telroi_ai_app.AutoTopup.Settle.{
  notification, ignored, payment_matches, Settled, settle_auto_topup_observation,
}
use telroi_ai_app.Wallet.Balance.{IsBalanced}
use telroi_ai_app.System.{Reach, Step}
use telroi_ai_app.Base.Tx.{Ensures, Result}
use telroi_ai_app.AutoTopup.Claim.{dispatch, claim_auto_topup_for_charge}
use telroi_ai_app.Base.Rows.{count}
use telroi_ai_app.AutoTopup.Policy.{
  wallet_reason, amount_reason, tenant_reason, settings_reason, auto_topup_cancellation_reason,
}
use telroi_ai_app.Base.{true, false, ◌↔◌, none, some, ◌≡◌, refl, ◌≤◌, ◌==◌, ◌∷◌, []}
use telroi_ai_app.Tests.Data.{
  env, db, decrypt, utc, context, charge, claimed_db, evidence, attempt, state,
}

claim-eq :
    claim_auto_topup_for_charge decrypt utc env "t1" "a1" context db
    ≡ ok (dispatch charge, claimed_db)
unfolding claim_auto_topup_for_charge due_unsent_auto_topups settings_reason tenant_reason
    amount_reason wallet_reason card_reason payment_matches
claim-eq = refl

claim-Step : Step decrypt utc db (some charge) claimed_db
claim-Step = Step.claim env "t1" "a1" context (dispatch charge) claim-eq refl

charged_at_most_once_example : count (λ c. c.attempt_id == "a1") (charge ∷ []) ≤ 1
charged_at_most_once_example =
    charged_at_most_once decrypt utc "a1" (Reach.send charge Reach.here claim-Step)

db-IsBalanced : IsBalanced db
unfolding ◌+ℤ◌
db-IsBalanced = (refl, (refl, tt))

books_stay-IsBalanced_example : IsBalanced claimed_db
books_stay-IsBalanced_example =
    books_stay-IsBalanced decrypt utc db-IsBalanced (Reach.send charge Reach.here claim-Step)

claim-SendsOnce_example :
    Ensures (SendsOnce db) (claim_auto_topup_for_charge decrypt utc env "t1" "a1" context db)
claim-SendsOnce_example = claim-SendsOnce decrypt utc env "t1" "a1" context db

cancellation_reason_iff_example :
    (auto_topup_cancellation_reason attempt state ≡ none) ↔ Allows attempt state
cancellation_reason_iff_example = cancellation_reason_iff attempt state

-- The database after the settlement of a success.
abbrev settled_state : Result (Settled × Db) → Db
settled_state (ok p) = p.1
settled_state (err e) = db

success_is_final_example :
    let t =
      settled_state (settle_auto_topup_observation env (evidence Outcome.succeeded) claimed_db) in
    Ensures (IsIgnored t) (settle_auto_topup_observation env (evidence Outcome.failed) t)
unfolding settle_auto_topup_observation payment_matches
    telroi_ai_app.AutoTopup.Settle.observation_matches
    telroi_ai_app.Wallet.Credit.credit_in_transaction telroi_ai_app.Wallet.Spend.fx_stamp
    telroi_ai_app.Wallet.Spend.wallet_credit_vat_minor ◌+ℤ◌
success_is_final_example =
    let t =
      settled_state (settle_auto_topup_observation env (evidence Outcome.succeeded) claimed_db) in
    success_is_final env env (evidence Outcome.succeeded) (evidence Outcome.failed) false
      (some (notification true attempt (pos 2_300))) claimed_db t refl refl (cc)

db-AreUnique : AreUnique db
db-AreUnique reference = elim (Bool-cases (is_credit_of reference funding)) [
  | inl own ↦ rw own (omega arith)
  | inr other ↦ rw other (omega arith)
]

credits_stay-AreUnique_example : AreUnique claimed_db
credits_stay-AreUnique_example =
    credits_stay-AreUnique decrypt utc db-AreUnique (Reach.send charge Reach.here claim-Step)
