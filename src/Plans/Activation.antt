-- ===== src/Plans/Activation.antt =====
-- server/utils/go-live.ts: whether a workspace may leave the sandbox, and how it does.
use Prim.Native.String.{◌++◌ as concat}
use telroi_ai_app.Base.Tx.{ok, err}
use telroi_ai_app.Wallet.Spend.{int}
use telroi_ai_app.Base.Rows.{update_where}
use telroi_ai_app.Db.{MetaValue, credit, kind_is, tenant_of, wallet_of, Db, Env, LedgerRow, Tenant}
use telroi_ai_app.Wallet.Debit.{debit_in_transaction, DebitArgs}
use telroi_ai_app.Base.{
  ℕ, String, Bool, true, false, not, ◌&&◌, Option, none, some, List, [], ◌∷◌, is_present, or_else,
  ◌==◌, ltb, if◌then◌else◌,
}
use telroi_ai_app.Base.Int.{neg, ltb_ℤ, leb_ℤ, ℤ, pos, ◌+ℤ◌}

-- `GoLiveState`
pub record GoLiveState : Type 0 where
  pub live : Bool
  pub compliance_status : String
  pub approved : Bool
  pub plan_selected : Bool
  pub eligible : Bool
  pub blocked_reason : Option String

-- What keeps a workspace in the sandbox.
abbrev pub blocked_reason_of : String → Option String
blocked_reason_of status =
    if status == "none"
    then some "compliance_not_submitted"
    else if status == "pending"
    then some "compliance_pending"
    else if status == "rejected"
    then some "compliance_rejected"
    else none

abbrev pub is_live : String → Db → Bool
is_live tenant_id db = elim (tenant_of tenant_id db) [ none ↦ true | some t ↦ not t.sandbox_mode ]

-- `comp?.status || 'none'`, for the status of the workspace's row of `compliance`
abbrev pub status_or_none : Option String → String
status_or_none status = if is_present status then or_else status "none" else "none"

-- `goLiveState`
unfoldable pub go_live_state : Option String → String → Db → GoLiveState
go_live_state compliance tenant_id db =
    let live = is_live tenant_id db in
    let status = status_or_none compliance in
    let approved = status == "approved" in
    record {
      live = live;
      compliance_status = status;
      approved = approved;
      plan_selected = elim (tenant_of tenant_id db) [ none ↦ false | some t ↦ t.plan_selected ];
      eligible = approved && not live;
      blocked_reason = if live then none else blocked_reason_of status;
    }

-- What `activateWorkspace` returns.
pub data Activation : Type 0 where
  activated : Activation
  blocked : String → Activation

-- The end of a trial that is still running.
abbrev pub trial_end : ℕ → Option Tenant → Option ℕ
trial_end now none = none
trial_end now (some t) = elim t.trial_ends_at [
  | none ↦ none
  | some ends ↦ if ltb now ends then some ends else none
]

-- The workspace's row on going live.
abbrev pub live_row : ℕ → Option ℕ → Tenant → Tenant
live_row now ends t = record t {
  sandbox_mode = false;
  went_live_at = some now;
  provision_state = "provisioned";
  plan_next_billing_at = some (or_else ends now);
}

abbrev pub set_live : ℕ → String → Db → Db
set_live now tenant_id db = record db {
  tenants =
      update_where (λ t. t.id == tenant_id) (live_row now (trial_end now (tenant_of tenant_id db)))
        db.tenants;
}

-- `case when kind = 'credit' then amount_minor else -amount_minor end`
abbrev pub net_of : LedgerRow → ℤ
net_of row = if kind_is row.kind credit then row.amount_minor else neg row.amount_minor

-- The sum over the sandbox rows of a workspace.
abbrev pub sandbox_net : String → List LedgerRow → ℤ
sandbox_net tenant_id [] = pos 0
sandbox_net tenant_id (row ∷ rows) =
    let rest = sandbox_net tenant_id rows in
    if row.tenant_id == tenant_id && row.sandbox then net_of row +ℤ rest else rest

abbrev pub max_ℤ : ℤ → ℤ → ℤ
max_ℤ a b = if leb_ℤ a b then b else a

abbrev pub min_ℤ : ℤ → ℤ → ℤ
min_ℤ a b = if leb_ℤ a b then a else b

abbrev pub balance_of : String → Db → ℤ
balance_of tenant_id db = elim (wallet_of tenant_id db) [ none ↦ pos 0 | some w ↦ w.balance_minor ]

-- `clear`
unfoldable pub amount_to_clear : String → Db → ℤ
amount_to_clear tenant_id db =
    min_ℤ (max_ℤ (sandbox_net tenant_id db.ledger) (pos 0)) (balance_of tenant_id db)

abbrev pub clearing_debit : String → ℤ → DebitArgs
clearing_debit tenant_id clear = record {
  tenant_id = tenant_id;
  amount_minor = int clear;
  reason = "sandbox_cleared";
  reference = some (concat "sandbox_cleared_" tenant_id);
  meta = ("note", MetaValue.text "Sandbox balance cleared on going live") ∷ [];
}

-- The clearing of the sandbox's money: a debit that throws is only logged.
unfoldable pub clear_sandbox : Env → String → Db → Db
unfolding amount_to_clear
clear_sandbox env tenant_id db =
    let clear = amount_to_clear tenant_id db in
    if ltb_ℤ (pos 0) clear
    then elim (debit_in_transaction env (clearing_debit tenant_id clear) db) [
      | ok p ↦ p.1
      | err e ↦ db
    ]
    else db

-- `activateWorkspace`
unfoldable pub activate_workspace : Env → Option String → String → Db → Activation × Db
unfolding go_live_state clear_sandbox
activate_workspace env compliance tenant_id db =
    let state = go_live_state compliance tenant_id db in
    if state.live
    then (Activation.activated, db)
    else if not state.approved
    then (Activation.blocked (or_else state.blocked_reason "not_approved"), db)
    else (Activation.activated, clear_sandbox env tenant_id (set_live env.now tenant_id db))
