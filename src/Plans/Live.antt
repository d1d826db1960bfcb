-- ===== src/Plans/Live.antt =====
-- The clearing of the sandbox in server/utils/go-live.ts, against the sums of the ledger.
use telroi_ai_app.Base.{
  String, ◌≡◌, refl, inl, inr, Bool, true, not, Option, none, some, Bool-cases,
}
use telroi_ai_app.Base.Int.{ltb_ℤ, pos}
use telroi_ai_app.Wallet.Accounts.{debit-SameAccounts, SameAccounts}
use telroi_ai_app.Wallet.Conservation.{debit-IsBalanced}
use telroi_ai_app.Wallet.Balance.{IsBalanced}
use telroi_ai_app.Wallet.Debit.{debit_in_transaction}
use telroi_ai_app.Base.Tx.{Result-cases, Ensures-imp, Ensures}
use telroi_ai_app.Plans.Activation.{amount_to_clear, clearing_debit, clear_sandbox}
use telroi_ai_app.Db.{Tenant, Db, Env}

abbrev pub live_of : Option Tenant → Bool
live_of none = true
live_of (some t) = not t.sandbox_mode

clear-Result :
    (env : Env) (tenant_id : String) (db : Db) (P : Db → Type 0)
    → P db
    → Ensures
        (λ _ t. P t)
        (debit_in_transaction env (clearing_debit tenant_id (amount_to_clear tenant_id db)) db)
    → P (clear_sandbox env tenant_id db)
unfolding clear_sandbox
clear-Result env tenant_id db P before after =
    elim (Bool-cases (ltb_ℤ (pos 0) (amount_to_clear tenant_id db))) [
      | inr nothing ↦ rw (nothing, clear_sandbox) before
      | inl some_left ↦
          elim (Result-cases (
            debit_in_transaction env (clearing_debit tenant_id (amount_to_clear tenant_id db))
              db)) [
                | inl (p, done) ↦ rw (some_left, done, clear_sandbox) (rw (done, Ensures) at after)
                | inr (e, failed) ↦ rw (some_left, failed, clear_sandbox) before
              ]
    ]

-- The clearing keeps every balance the sum of its ledger rows.
pub cleared-IsBalanced :
    (env : Env) (tenant_id : String) (db : Db)
    → IsBalanced db
    → IsBalanced (clear_sandbox env tenant_id db)
cleared-IsBalanced env tenant_id db h =
    clear-Result env tenant_id db IsBalanced h
      (debit-IsBalanced env (clearing_debit tenant_id (amount_to_clear tenant_id db)) db h)

-- The clearing leaves the rows of the workspaces as they are.
pub clear-tenants :
    (env : Env) (tenant_id : String) (db : Db)
    → (clear_sandbox env tenant_id db).tenants ≡ db.tenants
clear-tenants env tenant_id db =
    let args = clearing_debit tenant_id (amount_to_clear tenant_id db) in
    clear-Result env tenant_id db (λ t. t.tenants ≡ db.tenants) refl
      (Ensures-imp (λ _ t. SameAccounts db t) (λ _ t. t.tenants ≡ db.tenants)
        (debit_in_transaction env args db) (debit-SameAccounts env args db) (λ _ t same. same.1))
