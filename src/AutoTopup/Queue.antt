-- ===== src/AutoTopup/Queue.antt =====
-- The queue of server/utils/auto-topup-attempts.ts, against all that holds money.
use telroi_ai_app.Base.{◌≡◌, refl, Option, String, arith}
use telroi_ai_app.Base.Tx.{Ensures}
use telroi_ai_app.Db.{Db, Env}
use telroi_ai_app.AutoTopup.Attempts.{
  EnqueueInput, enqueue_auto_topup_attempt, cancel_unsent_auto_topups,
}

-- Nothing that holds or explains money has changed.
abbrev pub SameBooks : Db → Db → Type 0
SameBooks s t =
    (t.wallets ≡ s.wallets)
    × (t.ledger ≡ s.ledger)
    × (t.payments ≡ s.payments)
    × (t.tenants ≡ s.tenants)
    × (t.pricing_overrides ≡ s.pricing_overrides)

pub enqueue-SameBooks :
    (env : Env) (input : EnqueueInput) (db : Db)
    → Ensures (λ _ t. SameBooks db t) (enqueue_auto_topup_attempt env input db)
unfolding enqueue_auto_topup_attempt
enqueue-SameBooks env input db = ground arith

pub cancel-SameBooks :
    (env : Env) (tenant_id reason : String) (attempt_id : Option String) (db : Db)
    → SameBooks db (cancel_unsent_auto_topups env tenant_id reason attempt_id db)
unfolding cancel_unsent_auto_topups
cancel-SameBooks env tenant_id reason attempt_id db = (refl, refl, refl, refl, refl)
