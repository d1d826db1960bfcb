-- ===== src/AutoTopup/Money.antt =====
-- The claim and the settlement of server/utils/auto-topup-executor.ts, against the wallets and the
-- ledger.
use telroi_ai_app.Base.{
  ◌||◌, ◌≡◌, refl, Option, some, none, ◌∷◌, String, arith, Option-cases, Bool-cases, inl, inr,
  or_else,
}
use telroi_ai_app.Base.Int.{ℤ}
use telroi_ai_app.Base.Tx.{Ensures, Ensures-bind}
use telroi_ai_app.Db.{Attempt, Payment, PaymentMethod, Wallet, Db, Env, wallet_of}
use telroi_ai_app.AutoTopup.Attempts.{cancel_unsent_auto_topups}
use telroi_ai_app.AutoTopup.Observation.{PaymentObservation, Outcome}
use telroi_ai_app.AutoTopup.Settle.{
  is_attempt_failed, has_succeeded, settle_success, settle_outcome, settle_in_transaction,
  settle_auto_topup_observation, topup_credit, attempt_by_key, payment_by_id,
}
use telroi_ai_app.AutoTopup.Claim.{
  DispatchContext, claim_payment, claim_token_ready, claim_card, claim_validated, claim_attempt,
  claim_auto_topup_for_charge, due_attempt, has_dispatch_evidence, payment_review,
  payment_by_reference, pending_payment,
}
use telroi_ai_app.AutoTopup.Reasons.{claim_reason, attempt_card}
use telroi_ai_app.Wallet.Credit.{CreditArgs, credit_in_transaction}
use telroi_ai_app.Wallet.Balance.{IsBalanced}
use telroi_ai_app.Wallet.Conservation.{credit-IsBalanced}

-- The wallets and the ledger are the same.
abbrev pub SameMoney : Db → Db → Type 0
SameMoney s t = (t.wallets ≡ s.wallets) × (t.ledger ≡ s.ledger)

pub SameMoney-IsBalanced : (s t : Db) → IsBalanced s → SameMoney s t → IsBalanced t
SameMoney-IsBalanced s t h same = rw (same.0, same.1) h

claim_payment-SameMoney :
    (env : Env) (ctx : DispatchContext) (a : Attempt) (card : PaymentMethod) (token : String)
    (p : Payment) (db : Db)
    → Ensures (λ _ t. SameMoney db t) (claim_payment env ctx a card token p db)
unfolding claim_payment
claim_payment-SameMoney env ctx a card token p db = ground arith

claim_token_ready-SameMoney :
    (env : Env) (ctx : DispatchContext) (a : Attempt) (card : PaymentMethod) (token : String)
    (existing : Option Payment) (db : Db)
    → Ensures (λ _ t. SameMoney db t) (claim_token_ready env ctx a card token existing db)
unfolding claim_token_ready
claim_token_ready-SameMoney env ctx a card token (some p) db =
    claim_payment-SameMoney env ctx a card token p db
claim_token_ready-SameMoney env ctx a card token none db =
    claim_payment-SameMoney env ctx a card token (pending_payment env a)
      (record db { payments = pending_payment env a ∷ db.payments })

claim_card-SameMoney :
    (decrypt : String → String) (env : Env) (ctx : DispatchContext) (a : Attempt)
    (card : Option PaymentMethod) (existing : Option Payment) (db : Db)
    → Ensures (λ _ t. SameMoney db t) (claim_card decrypt env ctx a card existing db)
unfolding claim_card
claim_card-SameMoney decrypt env ctx a none existing db = tt
claim_card-SameMoney decrypt env ctx a (some card) existing db = ground (
  arith,
  claim_token_ready-SameMoney env ctx a card (decrypt (or_else card.token_enc "")) existing db,
)

claim_validated-SameMoney :
    (decrypt : String → String) (env : Env) (ctx : DispatchContext) (a : Attempt)
    (existing : Option Payment) (reason : Option String) (db : Db)
    → Ensures (λ _ t. SameMoney db t) (claim_validated decrypt env ctx a existing reason db)
unfolding claim_validated cancel_unsent_auto_topups
claim_validated-SameMoney decrypt env ctx a existing (some reason) db = (refl, refl)
claim_validated-SameMoney decrypt env ctx a existing none db =
    claim_card-SameMoney decrypt env ctx a (attempt_card a db) existing db

claim_attempt-SameMoney :
    (decrypt : String → String) (utc : ℤ → ℤ → ℤ) (env : Env) (ctx : DispatchContext) (w : Wallet)
    (a : Attempt) (db : Db)
    → Ensures (λ _ t. SameMoney db t) (claim_attempt decrypt utc env ctx w a db)
unfolding claim_attempt
claim_attempt-SameMoney decrypt utc env ctx w a db = elim (Bool-cases (has_dispatch_evidence a)) [
  | inl seen ↦ rw seen (refl, refl)
  | inr clean ↦
      rw clean (elim (Option-cases (payment_review a (payment_by_reference a.idempotency_key db))) [
        | inl fine ↦
            rw (fine, Ensures)
              (claim_validated-SameMoney decrypt env ctx a
                (payment_by_reference a.idempotency_key db) (claim_reason utc env.now a w db) db)
        | inr (code, odd) ↦ rw (odd, Ensures) (refl, refl)
      ])
]

pub claim-SameMoney :
    (decrypt : String → String) (utc : ℤ → ℤ → ℤ) (env : Env) (tenant_id attempt_id : String)
    (ctx : DispatchContext) (db : Db)
    → Ensures
        (λ _ t. SameMoney db t)
        (claim_auto_topup_for_charge decrypt utc env tenant_id attempt_id ctx db)
unfolding claim_auto_topup_for_charge
claim-SameMoney decrypt utc env tenant_id attempt_id ctx db =
    elim (Option-cases (wallet_of tenant_id db)) [
      | inl absent ↦ rw (absent, claim_auto_topup_for_charge) (refl, refl)
      | inr (w, known) ↦
          rw (known, claim_auto_topup_for_charge)
            (elim (Option-cases (due_attempt tenant_id attempt_id env.now db)) [
              | inl idle ↦ rw (idle, Ensures) (refl, refl)
              | inr (a, found) ↦
                  rw (found, Ensures) (claim_attempt-SameMoney decrypt utc env ctx w a db)
            ])
    ]

-- What the credit keeps, and depends on the wallets and the ledger only, the settlement keeps.
module _ (I : Db → Type 0) (same : (s t : Db) → I s → SameMoney s t → I t)
    (kept : (env : Env) (args : CreditArgs) (db : Db)
      → I db
      → Ensures (λ _ t. I t) (credit_in_transaction env args db)) where
  settle_outcome-keeps :
      (env : Env) (o : PaymentObservation) (w : Wallet) (a : Attempt) (p : Payment) (r : Outcome)
      (db : Db)
      → I db
      → Ensures (λ _ t. I t) (settle_outcome env o w a p r db)
  unfolding settle_outcome settle_success
  settle_outcome-keeps env o w a p Outcome.succeeded db h =
      Ensures-bind (λ _ t. I t) (λ _ t. I t) (credit_in_transaction env (topup_credit a)) _ db
        (kept env (topup_credit a) db h) (λ r t credited. same t _ credited (refl, refl))
  settle_outcome-keeps env o w a p Outcome.failed db h = elim (Bool-cases (has_succeeded a p)) [
    | inl done ↦ rw done h
    | inr unsettled ↦ rw unsettled (same db _ h (refl, refl))
  ]
  settle_outcome-keeps env o w a p Outcome.pending db h =
      elim (Bool-cases (has_succeeded a p || is_attempt_failed a.status)) [
        | inl done ↦ rw done h
        | inr unsettled ↦ rw unsettled (same db _ h (refl, refl))
      ]

  settle_in_transaction-keeps :
      (env : Env) (tenant_id : String) (o : PaymentObservation) (db : Db)
      → I db
      → Ensures (λ _ t. I t) (settle_in_transaction env tenant_id o db)
  unfolding settle_in_transaction
  settle_in_transaction-keeps env tenant_id o db h = elim (Option-cases (wallet_of tenant_id db)) [
    | inl no_wallet ↦ ground arith
    | inr (w, found_wallet) ↦ elim (Option-cases (attempt_by_key o.reference db)) [
      | inl no_attempt ↦ ground arith
      | inr (a, found_attempt) ↦ elim (Option-cases a.payment_id) [
        | inl no_id ↦ ground arith
        | inr (id, linked) ↦ elim (Option-cases (payment_by_id id db)) [
          | inl no_payment ↦ ground arith
          | inr (p, found_payment) ↦ ground (arith, settle_outcome-keeps env o w a p o.outcome db h)
        ]
      ]
    ]
  ]

  pub settle-keeps :
      (env : Env) (o : PaymentObservation) (db : Db)
      → I db
      → Ensures (λ _ t. I t) (settle_auto_topup_observation env o db)
  unfolding settle_auto_topup_observation
  settle-keeps env o db h = elim (Option-cases (attempt_by_key o.reference db)) [
    | inl unknown_key ↦ ground arith
    | inr (a, found) ↦ ground (arith, settle_in_transaction-keeps env a.tenant_id o db h)
  ]

-- A settlement, of whatever evidence and however it ends, leaves every balance equal to the sum of
-- its ledger rows.
pub settle-IsBalanced :
    (env : Env) (o : PaymentObservation) (db : Db)
    → IsBalanced db
    → Ensures (λ _ t. IsBalanced t) (settle_auto_topup_observation env o db)
settle-IsBalanced = settle-keeps IsBalanced SameMoney-IsBalanced credit-IsBalanced
