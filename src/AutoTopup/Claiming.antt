-- ===== src/AutoTopup/Claiming.antt =====
-- The claim of server/utils/auto-topup-executor.ts from the checks of the attempt on: what it
-- hands to a provider, and what it marks.
use telroi_ai_app.Base.{
  or_else, not, is_present, ◌<◌, ◌≡◌, ◌≢◌, refl, ◌&&◌, Option, some, none, List, [], ◌∷◌, String,
  ◌==◌, eq_iff, arith, Option-cases, Bool-cases, inl, inr,
}
use telroi_ai_app.Base.Rows.{All, find, update_where}
use telroi_ai_app.Base.Tx.{Result, Ensures, ok, err}
use telroi_ai_app.Db.{Attempt, Payment, PaymentMethod, Db, Env}
use telroi_ai_app.AutoTopup.Sent.{IsSent, StillSent, update-StillSent}
use telroi_ai_app.AutoTopup.Keeps.{cancel-StillSent}
use telroi_ai_app.AutoTopup.Claim.{
  DispatchContext, Claimed, dispatch, skipped, needs_review, cancelled, claim_payment,
  claim_token_ready, claim_card, claim_validated, dispatched_attempt, reviewed_attempt,
  pending_payment,
}
use telroi_ai_app.AutoTopup.Reasons.{attempt_card}

-- A row that was never sent, and that the table has.
abbrev pub IsUnsent : Attempt → Db → Type 0
IsUnsent a db =
    (IsSent a.id db.auto_topup_attempts → ⊥)
    × (find (λ b. b.id == a.id) db.auto_topup_attempts ≢ none)

-- A dispatch is of an attempt that was never sent before, and is sent after.
abbrev pub SendsOnce : Db → Claimed → Db → Type 0
SendsOnce s (dispatch c) t =
    StillSent s t
    × (IsSent c.attempt_id s.auto_topup_attempts → ⊥)
    × IsSent c.attempt_id t.auto_topup_attempts
SendsOnce s skipped t = StillSent s t
SendsOnce s needs_review t = StillSent s t
SendsOnce s (cancelled reason) t = StillSent s t

dispatched_known :
    (env : Env) (ctx : DispatchContext) (payment_id id : String) (rows : List Attempt)
    → find (λ b. b.id == id) rows ≢ none
    → find
        (λ b. b.id == id)
        (update_where (λ b. b.id == id) (dispatched_attempt env ctx payment_id) rows)
      ≢ none
dispatched_known env ctx payment_id id [] h = h
dispatched_known env ctx payment_id id (a ∷ rows) h =
    ground (arith, dispatched_known env ctx payment_id id rows)

dispatched_sent :
    (env : Env) (ctx : DispatchContext) (payment_id id : String) (rows : List Attempt)
    → All
        (λ b. b.id ≡ id → 0 < b.attempts)
        (update_where (λ b. b.id == id) (dispatched_attempt env ctx payment_id) rows)
dispatched_sent env ctx payment_id id [] = tt
dispatched_sent env ctx payment_id id (a ∷ rows) =
    (ground (arith, eq_iff a.id id), dispatched_sent env ctx payment_id id rows)

-- The update of a dispatch marks every row of the id.
dispatched-IsSent :
    (env : Env) (ctx : DispatchContext) (payment_id id : String) (rows : List Attempt)
    → find (λ b. b.id == id) rows ≢ none
    → IsSent id (update_where (λ b. b.id == id) (dispatched_attempt env ctx payment_id) rows)
dispatched-IsSent env ctx payment_id id rows h = record {
  known = dispatched_known env ctx payment_id id rows h;
  sent = dispatched_sent env ctx payment_id id rows;
}

claim_payment-SendsOnce :
    (env : Env) (ctx : DispatchContext) (a : Attempt) (card : PaymentMethod) (token : String)
    (p : Payment) (db : Db)
    → IsUnsent a db
    → Ensures (SendsOnce db) (claim_payment env ctx a card token p db)
unfolding claim_payment
claim_payment-SendsOnce env ctx a card token p db (never, there) =
    let reviewed = λ (code : String).
      update-StillSent (λ b. b.id == a.id) (reviewed_attempt env.now code) db
        (λ b. (refl, omega arith)) in
    let sent =
      update-StillSent (λ b. b.id == a.id) (dispatched_attempt env ctx p.id) db
        (λ b. (refl, λ _. omega arith)) in
    ground (
      arith,
      reviewed "payment_identity_mismatch",
      reviewed "unexpected_payment_result",
      sent,
      never,
      dispatched-IsSent env ctx p.id a.id db.auto_topup_attempts there,
    )

-- What is sent does not depend on the payments.
recorded-SendsOnce :
    (env : Env) (a : Attempt) (db : Db) (r : Result (Claimed × Db))
    → Ensures (SendsOnce (record db { payments = pending_payment env a ∷ db.payments })) r
    → Ensures (SendsOnce db) r
recorded-SendsOnce env a db (ok (dispatch c, t)) h = h
recorded-SendsOnce env a db (ok (skipped, t)) h = h
recorded-SendsOnce env a db (ok (needs_review, t)) h = h
recorded-SendsOnce env a db (ok (cancelled reason, t)) h = h
recorded-SendsOnce env a db (err e) h = tt

claim_token_ready-SendsOnce :
    (env : Env) (ctx : DispatchContext) (a : Attempt) (card : PaymentMethod) (token : String)
    (existing : Option Payment) (db : Db)
    → IsUnsent a db
    → Ensures (SendsOnce db) (claim_token_ready env ctx a card token existing db)
unfolding claim_token_ready
claim_token_ready-SendsOnce env ctx a card token (some p) db h =
    claim_payment-SendsOnce env ctx a card token p db h
claim_token_ready-SendsOnce env ctx a card token none db h = recorded-SendsOnce env a db _ (
    claim_payment-SendsOnce env ctx a card token (pending_payment env a)
      (record db { payments = pending_payment env a ∷ db.payments }) h)

pub claim_validated-SendsOnce :
    (decrypt : String → String) (env : Env) (ctx : DispatchContext) (a : Attempt)
    (existing : Option Payment) (reason : Option String) (db : Db)
    → IsUnsent a db
    → Ensures (SendsOnce db) (claim_validated decrypt env ctx a existing reason db)
unfolding claim_validated claim_card
claim_validated-SendsOnce decrypt env ctx a existing (some reason) db h =
    cancel-StillSent env a.tenant_id reason (some a.id) db
claim_validated-SendsOnce decrypt env ctx a existing none db h =
    elim (Option-cases (attempt_card a db)) [
      | inl absent ↦ rw (absent, claim_card) tt
      | inr (card, found) ↦
          rw (found, claim_card)
            (elim (Bool-cases
              (is_present card.token_enc && not (decrypt (or_else card.token_enc "") == ""))) [
                | inl ready ↦ rw ready (
                    claim_token_ready-SendsOnce env ctx a card (decrypt (or_else card.token_enc ""))
                      existing db h)
                | inr unreadable ↦ rw unreadable tt
              ])
    ]
