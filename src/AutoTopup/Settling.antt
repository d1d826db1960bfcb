-- ===== src/AutoTopup/Settling.antt =====
-- The settlement of server/utils/auto-topup-executor.ts, against the marks of what was sent.
use telroi_ai_app.Base.{refl, String, ◌==◌, arith, Option-cases, inl, inr}
use telroi_ai_app.Base.Tx.{Ensures, Ensures-bind}
use telroi_ai_app.Db.{PaymentStatus, Attempt, Payment, Wallet, Db, Env, update_payments, wallet_of}
use telroi_ai_app.AutoTopup.Observation.{PaymentObservation, Outcome}
use telroi_ai_app.AutoTopup.Settle.{
  settle_success, settle_outcome, settle_in_transaction, settle_auto_topup_observation,
  topup_credit, succeeded_attempt, failed_attempt, uncertain_attempt, succeeded_payment,
  attempt_by_key, payment_by_id,
}
use telroi_ai_app.AutoTopup.Sent.{StillSent, update-StillSent}
use telroi_ai_app.AutoTopup.Keeps.{StillSent-refl, credit-StillSent}
use telroi_ai_app.Wallet.Credit.{credit_in_transaction}

settle_success-StillSent :
    (env : Env) (o : PaymentObservation) (a : Attempt) (p : Payment) (db : Db)
    → Ensures (λ _ t. StillSent db t) (settle_success env o a p db)
unfolding settle_success
settle_success-StillSent env o a p db =
    Ensures-bind (λ _ t. StillSent db t) (λ _ t. StillSent db t)
      (credit_in_transaction env (topup_credit a)) _ db (credit-StillSent env (topup_credit a) db)
      (λ r t before id h.
        update-StillSent (λ b. b.id == a.id) (λ b. succeeded_attempt env o b)
          (update_payments (λ q. q.id == p.id) (λ q. succeeded_payment env q) t)
          (λ b. (refl, omega arith)) id (before id h))

settle_outcome-StillSent :
    (env : Env) (o : PaymentObservation) (w : Wallet) (a : Attempt) (p : Payment) (r : Outcome)
    (db : Db)
    → Ensures (λ _ t. StillSent db t) (settle_outcome env o w a p r db)
unfolding settle_outcome
settle_outcome-StillSent env o w a p Outcome.succeeded db = settle_success-StillSent env o a p db
settle_outcome-StillSent env o w a p Outcome.failed db = ground (
  arith,
  StillSent-refl db,
  update-StillSent (λ b. b.id == a.id) (λ b. failed_attempt env o b)
      (update_payments (λ q. q.id == p.id) (λ q. record q { status = PaymentStatus.failed }) db)
      (λ b. (refl, omega arith)),
)
settle_outcome-StillSent env o w a p Outcome.pending db = ground (
  arith,
  StillSent-refl db,
  update-StillSent (λ b. b.id == a.id) (λ b. uncertain_attempt env o b) db
      (λ b. (refl, omega arith)),
)

settle_in_transaction-StillSent :
    (env : Env) (tenant_id : String) (o : PaymentObservation) (db : Db)
    → Ensures (λ _ t. StillSent db t) (settle_in_transaction env tenant_id o db)
unfolding settle_in_transaction
settle_in_transaction-StillSent env tenant_id o db = elim (Option-cases (wallet_of tenant_id db)) [
  | inl no_wallet ↦ ground arith
  | inr (w, found_wallet) ↦ elim (Option-cases (attempt_by_key o.reference db)) [
    | inl no_attempt ↦ ground arith
    | inr (a, found_attempt) ↦ elim (Option-cases a.payment_id) [
      | inl no_id ↦ ground arith
      | inr (id, linked) ↦ elim (Option-cases (payment_by_id id db)) [
        | inl no_payment ↦ ground arith
        | inr (p, found_payment) ↦ ground (arith, settle_outcome-StillSent env o w a p o.outcome db)
      ]
    ]
  ]
]

pub settle-StillSent :
    (env : Env) (o : PaymentObservation) (db : Db)
    → Ensures (λ _ t. StillSent db t) (settle_auto_topup_observation env o db)
unfolding settle_auto_topup_observation
settle-StillSent env o db = elim (Option-cases (attempt_by_key o.reference db)) [
  | inl unknown_key ↦ ground (arith, StillSent-refl db)
  | inr (a, found) ↦ ground (arith, settle_in_transaction-StillSent env a.tenant_id o db)
]
