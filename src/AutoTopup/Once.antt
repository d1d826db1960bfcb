-- ===== src/AutoTopup/Once.antt =====
-- The whole claim of server/utils/auto-topup-executor.ts, and the attempts that it marks as sent.
use telroi_ai_app.Base.{
  ◌≡◌, ◌≢◌, ◌<◌, refl, Bool, true, false, some, none, List, [], ◌∷◌, String, ◌==◌, eq_refl, arith,
  Option-cases, Bool-cases, inl, inr,
}
use telroi_ai_app.Base.Int.{ℤ}
use telroi_ai_app.Base.Rows.{find, All-find}
use telroi_ai_app.Base.Tx.{Ensures}
use telroi_ai_app.Db.{Attempt, Wallet, Db, Env, wallet_of}
use telroi_ai_app.AutoTopup.Sent.{IsSent, update-StillSent}
use telroi_ai_app.AutoTopup.Keeps.{StillSent-refl}
use telroi_ai_app.AutoTopup.Claim.{
  DispatchContext, claim_attempt, claim_auto_topup_for_charge, reviewed_attempt, due_attempt,
  has_dispatch_evidence, payment_review, payment_by_reference,
}
use telroi_ai_app.AutoTopup.Reasons.{claim_reason}
use telroi_ai_app.AutoTopup.Claiming.{SendsOnce, claim_validated-SendsOnce}

-- A row that one condition finds is there for a weaker one.
find_known {ℓ} :
    {A : Type ℓ} (p q : A → Bool) (rows : List A) (a : A)
    → find p rows ≡ some a
    → q a ≡ true
    → find q rows ≢ none
find_known p q [] a h k = cc
find_known p q (b ∷ rows) a h k = ground (arith, find_known p q rows a)

not_sent :
    (a : Attempt) (rows : List Attempt) (p : Attempt → Bool)
    → find p rows ≡ some a
    → has_dispatch_evidence a ≡ false
    → IsSent a.id rows
    → ⊥
not_sent a rows p found clean h =
    let positive : 0 < a.attempts =
      All-find (λ b. b.id ≡ a.id → 0 < b.attempts) p rows a h.sent found refl in
    ground arith

claim_attempt-SendsOnce :
    (decrypt : String → String) (utc : ℤ → ℤ → ℤ) (env : Env) (ctx : DispatchContext) (w : Wallet)
    (a : Attempt) (db : Db) (p : Attempt → Bool)
    → find p db.auto_topup_attempts ≡ some a
    → Ensures (SendsOnce db) (claim_attempt decrypt utc env ctx w a db)
unfolding claim_attempt
claim_attempt-SendsOnce decrypt utc env ctx w a db p found =
    let reviewed = λ (code : String).
      update-StillSent (λ b. b.id == a.id) (reviewed_attempt env.now code) db
        (λ b. (refl, omega arith)) in
    elim (Bool-cases (has_dispatch_evidence a)) [
      | inl seen ↦ rw seen (reviewed "unexpected_dispatch_evidence")
      | inr clean ↦
          rw clean
            (elim (Option-cases (payment_review a (payment_by_reference a.idempotency_key db))) [
              | inl fine ↦
                  rw (fine, Ensures)
                    (claim_validated-SendsOnce decrypt env ctx a
                      (payment_by_reference a.idempotency_key db) (claim_reason utc env.now a w db)
                      db
                      (
                        not_sent a db.auto_topup_attempts p found clean,
                        find_known p (λ b. b.id == a.id) db.auto_topup_attempts a found
                            (eq_refl a.id),
                      ))
              | inr (code, odd) ↦ rw (odd, Ensures) (reviewed code)
            ])
    ]

-- Whatever the claim returns, sent attempts stay sent; and if it returns a charge to dispatch, no
-- earlier charge of that attempt was sent, and from then on the attempt is marked as sent.
pub claim-SendsOnce :
    (decrypt : String → String) (utc : ℤ → ℤ → ℤ) (env : Env) (tenant_id attempt_id : String)
    (ctx : DispatchContext) (db : Db)
    → Ensures
        (SendsOnce db)
        (claim_auto_topup_for_charge decrypt utc env tenant_id attempt_id ctx db)
unfolding claim_auto_topup_for_charge
claim-SendsOnce decrypt utc env tenant_id attempt_id ctx db =
    elim (Option-cases (wallet_of tenant_id db)) [
      | inl absent ↦ rw (absent, claim_auto_topup_for_charge) (StillSent-refl db)
      | inr (w, known) ↦
          rw (known, claim_auto_topup_for_charge)
            (elim (Option-cases (due_attempt tenant_id attempt_id env.now db)) [
              | inl idle ↦ rw (idle, Ensures) (StillSent-refl db)
              | inr (a, found) ↦
                  rw (found, Ensures) (claim_attempt-SendsOnce decrypt utc env ctx w a db _ found)
            ])
    ]
