-- ===== src/System/Credits.antt =====
-- Interleavings of the steps of System, against the credits on the ledger of
-- server/utils/wallet.ts.
use telroi_ai_app.AutoTopup.Money.{settle-keeps, claim-SameMoney}
use telroi_ai_app.Base.Rows.{find}
use telroi_ai_app.Base.Tx.{Ensures}
use telroi_ai_app.Wallet.Unique.{SameMoney-AreUnique, credit-AreUnique, debit-AreUnique, AreUnique}
use telroi_ai_app.Base.{◌==◌, ◌&&◌, Option-cases, Option, String, List, inl, inr}
use telroi_ai_app.Base.Int.{ℤ}
use telroi_ai_app.Db.{Db, Env}
use telroi_ai_app.System.{Step, Reach}
use telroi_ai_app.AutoTopup.Recover.{
  is_recoverable, mark_auto_topup_uncertain, claim_auto_topup_recovery,
}
use telroi_ai_app.AutoTopup.Work.{postpone}
use telroi_ai_app.AutoTopup.Attempts.{cancel_unsent_auto_topups}
use telroi_ai_app.AutoTopup.Claim.{Charge}

recover-AreUnique :
    (env : Env) (first : String) (db : Db)
    → AreUnique db
    → Ensures (λ _ t. AreUnique t) (claim_auto_topup_recovery env first db)
unfolding claim_auto_topup_recovery
recover-AreUnique env first db h =
    elim (Option-cases
      (find (λ a. a.id == first && is_recoverable env.now a) db.auto_topup_attempts)) [
        | inl idle ↦ rw (idle, Ensures) h
        | inr (a, found) ↦ rw (found, Ensures) h
      ]

module _ (decrypt : String → String) (utc : ℤ → ℤ → ℤ) where
  Step-AreUnique :
      {s t : Db} {c : Option Charge} → Step decrypt utc s c t → AreUnique s → AreUnique t
  unfolding mark_auto_topup_uncertain postpone cancel_unsent_auto_topups
  Step-AreUnique {s} {t} (Step.debit env args r fresh e) h = rw e at (debit-AreUnique env args s h)
  Step-AreUnique {s} {t} (Step.credit env args r e) h = rw e at (credit-AreUnique env args s h)
  Step-AreUnique {s} {t} (Step.claim env tenant_id attempt_id ctx c e sent) h =
      SameMoney-AreUnique s t h
        (rw e at (claim-SameMoney decrypt utc env tenant_id attempt_id ctx s))
  Step-AreUnique {s} {t} (Step.settle env o r e) h =
      rw e at (settle-keeps AreUnique SameMoney-AreUnique credit-AreUnique env o s h)
  Step-AreUnique {s} {t} (Step.mark env id claim_token code e) h = rw e h
  Step-AreUnique {s} {t} (Step.recover env first a e) h = rw e at (recover-AreUnique env first s h)
  Step-AreUnique {s} {t} (Step.wait env id e) h = rw e h
  Step-AreUnique {s} {t} (Step.cancel env tenant_id reason attempt_id e) h = rw e h

  -- If each reference has at most one credit on the ledger at the start, it is so after any
  -- interleaving of debits, credits, claims, settlements, recoveries and cancellations.
  pub credits_stay-AreUnique :
      {s t : Db} {cs : List Charge} → AreUnique s → Reach decrypt utc s cs t → AreUnique t
  credits_stay-AreUnique h Reach.here = h
  credits_stay-AreUnique h (Reach.quiet r st) = Step-AreUnique st (credits_stay-AreUnique h r)
  credits_stay-AreUnique h (Reach.send c r st) = Step-AreUnique st (credits_stay-AreUnique h r)
