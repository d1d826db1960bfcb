-- ===== src/System/Safety.antt =====
-- Interleavings of debits, credits, claims, settlements and recoveries: the charges sent and the
-- balances.
use telroi_ai_app.Base.{
  ◌&&◌, ◌≤◌, ◌≡◌, refl, Option, some, none, List, [], ◌∷◌, String, ◌==◌, eq_iff, arith,
  Option-cases, inl, inr, sym, subst, Bool-cases,
}
use telroi_ai_app.Base.Int.{ℤ}
use telroi_ai_app.Base.Rows.{All, All-map_imp, count, find}
use telroi_ai_app.Base.Tx.{Ensures}
use telroi_ai_app.Db.{Db, Env}
use telroi_ai_app.AutoTopup.Attempts.{cancel_unsent_auto_topups}
use telroi_ai_app.AutoTopup.Claim.{Charge, Claimed, dispatch, skipped, needs_review, cancelled}
use telroi_ai_app.AutoTopup.Recover.{
  mark_auto_topup_uncertain, holds_claim, marked_attempt, claim_auto_topup_recovery, leased_attempt,
  is_recoverable,
}
use telroi_ai_app.AutoTopup.Work.{postpone, postponed_attempt}
use telroi_ai_app.AutoTopup.Sent.{IsSent, StillSent, update-StillSent}
use telroi_ai_app.AutoTopup.Keeps.{
  StillSent-refl, cancel-StillSent, debit-StillSent, credit-StillSent,
}
use telroi_ai_app.AutoTopup.Settling.{settle-StillSent}
use telroi_ai_app.AutoTopup.Claiming.{SendsOnce}
use telroi_ai_app.AutoTopup.Once.{claim-SendsOnce}
use telroi_ai_app.AutoTopup.Money.{claim-SameMoney, settle-IsBalanced, SameMoney-IsBalanced}
use telroi_ai_app.Wallet.Balance.{IsBalanced}
use telroi_ai_app.Wallet.Conservation.{debit-IsBalanced, credit-IsBalanced}
use telroi_ai_app.System.{Step, Reach, charge_sent}

-- What a step does to the marks of sent attempts.
abbrev Marks : Db → Option Charge → Db → Type 0
Marks s none t = StillSent s t
Marks s (some c) t =
    StillSent s t
    × (IsSent c.attempt_id s.auto_topup_attempts → ⊥)
    × IsSent c.attempt_id t.auto_topup_attempts

SendsOnce-Marks : (c : Claimed) (s t : Db) → SendsOnce s c t → Marks s (charge_sent c) t
SendsOnce-Marks (dispatch c) s t h = h
SendsOnce-Marks skipped s t h = h
SendsOnce-Marks needs_review s t h = h
SendsOnce-Marks (cancelled reason) s t h = h

postpone-StillSent : (env : Env) (id : String) (db : Db) → StillSent db (postpone env id db)
unfolding postpone
postpone-StillSent env id db =
    update-StillSent _ (postponed_attempt env) db (λ b. (refl, omega arith))

mark-StillSent :
    (env : Env) (id claim_token code : String) (db : Db)
    → StillSent db (mark_auto_topup_uncertain env id claim_token code db)
unfolding mark_auto_topup_uncertain
mark-StillSent env id claim_token code db =
    update-StillSent (holds_claim id claim_token) (marked_attempt env.now code) db
      (λ b. (refl, omega arith))

recover-StillSent :
    (env : Env) (first : String) (db : Db)
    → Ensures (λ _ t. StillSent db t) (claim_auto_topup_recovery env first db)
unfolding claim_auto_topup_recovery
recover-StillSent env first db =
    elim (Option-cases
      (find (λ a. a.id == first && is_recoverable env.now a) db.auto_topup_attempts)) [
        | inl idle ↦ rw (idle, Ensures) (StillSent-refl db)
        | inr (a, found) ↦
            rw (found, Ensures)
              (update-StillSent (λ b. b.id == a.id) (leased_attempt env) db
                (λ b. (refl, omega arith)))
      ]

mark-IsBalanced :
    (env : Env) (id claim_token code : String) (db : Db)
    → IsBalanced db
    → IsBalanced (mark_auto_topup_uncertain env id claim_token code db)
unfolding mark_auto_topup_uncertain
mark-IsBalanced env id claim_token code db h = h

postpone-IsBalanced :
    (env : Env) (id : String) (db : Db) → IsBalanced db → IsBalanced (postpone env id db)
unfolding postpone
postpone-IsBalanced env id db h = h

cancel-IsBalanced :
    (env : Env) (tenant_id reason : String) (attempt_id : Option String) (db : Db)
    → IsBalanced db
    → IsBalanced (cancel_unsent_auto_topups env tenant_id reason attempt_id db)
unfolding cancel_unsent_auto_topups
cancel-IsBalanced env tenant_id reason attempt_id db h = h

recover-IsBalanced :
    (env : Env) (first : String) (db : Db)
    → IsBalanced db
    → Ensures (λ _ t. IsBalanced t) (claim_auto_topup_recovery env first db)
unfolding claim_auto_topup_recovery
recover-IsBalanced env first db h =
    elim (Option-cases
      (find (λ a. a.id == first && is_recoverable env.now a) db.auto_topup_attempts)) [
        | inl idle ↦ rw (idle, Ensures) h
        | inr (a, found) ↦ rw (found, Ensures) h
      ]

-- Among marked charges none is of an attempt that was never sent.
count_unsent :
    (id : String) (cs : List Charge) (t : Db)
    → All (λ c. IsSent c.attempt_id t.auto_topup_attempts) cs
    → (IsSent id t.auto_topup_attempts → ⊥)
    → count (λ c. c.attempt_id == id) cs ≡ 0
count_unsent id [] t h never = refl
count_unsent id (c ∷ cs) t h never = elim (Bool-cases (c.attempt_id == id)) [
  | inl same ↦
      absurd
        (never (subst (λ i. IsSent i t.auto_topup_attempts) ((eq_iff c.attempt_id id).0 same) h.0))
  | inr other ↦ rw other (omega (arith, count_unsent id cs t h.1 never))
]

once_more :
    (id : String) (c : Charge) (cs : List Charge) (t : Db)
    → count (λ d. d.attempt_id == id) cs ≤ 1
    → All (λ d. IsSent d.attempt_id t.auto_topup_attempts) cs
    → (IsSent c.attempt_id t.auto_topup_attempts → ⊥)
    → count (λ d. d.attempt_id == id) (c ∷ cs) ≤ 1
once_more id c cs t before marked never = elim (Bool-cases (c.attempt_id == id)) [
  | inl same ↦ rw same (
      omega (
        arith,
        count_unsent id cs t marked (λ m. never (
            subst (λ i. IsSent i t.auto_topup_attempts) (sym ((eq_iff c.attempt_id id).0 same)) m)),
      ))
  | inr other ↦ rw other (omega arith)
]

module _ (decrypt : String → String) (utc : ℤ → ℤ → ℤ) where
  Step-Marks : {s t : Db} {c : Option Charge} → Step decrypt utc s c t → Marks s c t
  Step-Marks {s} {t} (Step.debit env args r fresh e) = rw e at (debit-StillSent env args s fresh)
  Step-Marks {s} {t} (Step.credit env args r e) = rw e at (credit-StillSent env args s)
  Step-Marks {s} {t} (Step.claim env tenant_id attempt_id ctx c e sent) =
      rw sent (
        SendsOnce-Marks c s t
          (rw e at (claim-SendsOnce decrypt utc env tenant_id attempt_id ctx s)))
  Step-Marks {s} {t} (Step.settle env o r e) = rw e at (settle-StillSent env o s)
  Step-Marks {s} {t} (Step.mark env id claim_token code e) =
      rw e (mark-StillSent env id claim_token code s)
  Step-Marks {s} {t} (Step.recover env first a e) = rw e at (recover-StillSent env first s)
  Step-Marks {s} {t} (Step.wait env id e) = rw e (postpone-StillSent env id s)
  Step-Marks {s} {t} (Step.cancel env tenant_id reason attempt_id e) =
      rw e (cancel-StillSent env tenant_id reason attempt_id s)

  -- All charges of the trace are marked as sent, and no attempt was charged twice.
  record IsOnce (cs : List Charge) (t : Db) : Type 0 where
    marked : All (λ c. IsSent c.attempt_id t.auto_topup_attempts) cs
    once : (id : String) → count (λ c. c.attempt_id == id) cs ≤ 1

  still_marked : (cs : List Charge) (t u : Db) → StillSent t u → IsOnce cs t → IsOnce cs u
  still_marked cs t u keep h = record {
    marked =
        All-map_imp (λ c. IsSent c.attempt_id t.auto_topup_attempts)
          (λ c. IsSent c.attempt_id u.auto_topup_attempts) cs (λ c m. keep c.attempt_id m) h.marked;
    once = h.once;
  }

  Reach-IsOnce : {s t : Db} {cs : List Charge} → Reach decrypt utc s cs t → IsOnce cs t
  Reach-IsOnce Reach.here = record { marked = tt; once = λ id. omega arith }
  Reach-IsOnce (Reach.quiet {cs = cs} {t = t} {u = u} r st) =
      still_marked cs t u (Step-Marks st) (Reach-IsOnce r)
  Reach-IsOnce (Reach.send {cs = cs} {t = t} {u = u} c r st) =
      let before : IsOnce cs t = Reach-IsOnce r in
      let marks : Marks t (some c) u = Step-Marks st in
      let after : IsOnce cs u = still_marked cs t u marks.0 before in
      record {
        marked = (marks.2, after.marked);
        once = λ id. once_more id c cs t (before.once id) before.marked marks.1;
      }

  -- However debits, credits, claims, settlements, recoveries and cancellations interleave, each
  -- attempt is handed to a payment provider at most once, as long as the database gives every new
  -- attempt an id that no attempt has.
  pub charged_at_most_once :
      {s t : Db} {cs : List Charge} (id : String)
      → Reach decrypt utc s cs t
      → count (λ c. c.attempt_id == id) cs ≤ 1
  charged_at_most_once id r = let h : IsOnce _ _ = Reach-IsOnce r in h.once id

  Step-IsBalanced :
      {s t : Db} {c : Option Charge} → Step decrypt utc s c t → IsBalanced s → IsBalanced t
  Step-IsBalanced {s} {t} (Step.debit env args r fresh e) h =
      rw e at (debit-IsBalanced env args s h)
  Step-IsBalanced {s} {t} (Step.credit env args r e) h = rw e at (credit-IsBalanced env args s h)
  Step-IsBalanced {s} {t} (Step.claim env tenant_id attempt_id ctx c e sent) h =
      SameMoney-IsBalanced s t h
        (rw e at (claim-SameMoney decrypt utc env tenant_id attempt_id ctx s))
  Step-IsBalanced {s} {t} (Step.settle env o r e) h = rw e at (settle-IsBalanced env o s h)
  Step-IsBalanced {s} {t} (Step.mark env id claim_token code e) h =
      rw e (mark-IsBalanced env id claim_token code s h)
  Step-IsBalanced {s} {t} (Step.recover env first a e) h =
      rw e at (recover-IsBalanced env first s h)
  Step-IsBalanced {s} {t} (Step.wait env id e) h = rw e (postpone-IsBalanced env id s h)
  Step-IsBalanced {s} {t} (Step.cancel env tenant_id reason attempt_id e) h =
      rw e (cancel-IsBalanced env tenant_id reason attempt_id s h)

  -- If every balance is the sum of its ledger rows at the start, it is so after any interleaving of
  -- debits, credits, claims, settlements, recoveries and cancellations.
  pub books_stay-IsBalanced :
      {s t : Db} {cs : List Charge} → IsBalanced s → Reach decrypt utc s cs t → IsBalanced t
  books_stay-IsBalanced h Reach.here = h
  books_stay-IsBalanced h (Reach.quiet r st) = Step-IsBalanced st (books_stay-IsBalanced h r)
  books_stay-IsBalanced h (Reach.send c r st) = Step-IsBalanced st (books_stay-IsBalanced h r)
