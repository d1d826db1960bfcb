-- ===== src/Invoices/Life.antt =====
-- Interleavings of debits, payments, and the daily runs of server/utils/invoicing.ts, workspace by
-- workspace: the open invoices.
use telroi_ai_app.Base.{eq_iff, Bool-cases, Option-cases, ℕ, String, ◌≡◌, ap, subst, inl, inr, ◌==◌}
use telroi_ai_app.Invoices.Rows.{open_invoice, balance_of, debt_of}
use telroi_ai_app.Base.Rows.{find-sat}
use telroi_ai_app.Base.Tx.{ok, Result-cases, Ensures}
use telroi_ai_app.Wallet.Credit.{Credited, credit_in_transaction, CreditArgs}
use telroi_ai_app.Wallet.Debit.{debit_in_transaction, Debited, DebitArgs}
use telroi_ai_app.Wallet.Accounts.{credit-SameAccounts, SameAccounts, debit-SameAccounts}
use telroi_ai_app.Invoices.Single.{
  sync_debt-AreSingle, settle-AreSingle, dun_all-AreSingle, AreSingle,
}
use telroi_ai_app.Invoices.Sync.{SyncResult, sync_open_invoice}
use telroi_ai_app.Db.{wallet_of, tenant_of, Env, Db}
use telroi_ai_app.Invoices.Payment.{credit_wallet}
use telroi_ai_app.Invoices.Dunning.{DunningResult, open_invoices, run_dunning}

-- One transaction on the accounts.
pub data Step : Db → Db → Type 0 where
  debit :
      {s t : Db} (env : Env) (args : DebitArgs) (r : Debited)
      → debit_in_transaction env args s ≡ ok (r, t)
      → Step s t
  pay :
      {s t : Db} (env : Env) (args : CreditArgs) (r : Credited)
      → credit_wallet env args s ≡ ok (r, t)
      → Step s t
  sync :
      {s t : Db} (env : Env) (now : ℕ) (tenant_id : String) (r : SyncResult)
      → sync_open_invoice env now tenant_id s ≡ ok (r, t)
      → Step s t
  dun : {s t : Db} (now : ℕ) (r : DunningResult) → run_dunning now s ≡ (r, t) → Step s t

pub data Reach : Db → Db → Type 0 where
  here : {s : Db} → Reach s s
  after : {s t u : Db} → Reach s t → Step t u → Reach s u

SameAccounts-AreSingle : (s t : Db) → AreSingle s → SameAccounts s t → AreSingle t
SameAccounts-AreSingle s t h same = rw (same.0) h

credit_wallet-AreSingle :
    (env : Env) (args : CreditArgs) (db : Db)
    → AreSingle db
    → Ensures (λ _ t. AreSingle t) (credit_wallet env args db)
unfolding credit_wallet
credit_wallet-AreSingle env args db h = elim (Result-cases (credit_in_transaction env args db)) [
  | inr (x, e) ↦ rw (e, credit_wallet) tt
  | inl ((r, t), e) ↦
      let same : SameAccounts db t = rw e at (credit-SameAccounts env args db) in
      let single = SameAccounts-AreSingle db t h same in
      elim (Bool-cases r.idempotent) [
        | inl again ↦ rw (e, credit_wallet, again) single
        | inr new ↦ rw (e, credit_wallet, new) (settle-AreSingle env args r.balance_minor t single)
      ]
]

sync-AreSingle :
    (env : Env) (now : ℕ) (tenant_id : String) (db : Db)
    → AreSingle db
    → Ensures (λ _ t. AreSingle t) (sync_open_invoice env now tenant_id db)
unfolding sync_open_invoice
sync-AreSingle env now tenant_id db h = elim (Option-cases (tenant_of tenant_id db)) [
  | inl gone ↦ rw (gone, sync_open_invoice) h
  | inr (t, e) ↦
      let own : t.id ≡ tenant_id =
        (eq_iff t.id tenant_id).0 (find-sat (λ x. x.id == tenant_id) db.tenants t e) in
      elim (Bool-cases t.postpaid) [
        | inr prepaid ↦ rw (e, prepaid, sync_open_invoice) h
        | inl postpaid ↦
            rw (e, postpaid, sync_open_invoice)
              (sync_debt-AreSingle env now (debt_of (balance_of (wallet_of tenant_id db))) t
                (open_invoice tenant_id db) db (ap (λ i. open_invoice i db) own) h)
      ]
]

Step-AreSingle : {s t : Db} → Step s t → AreSingle s → AreSingle t
unfolding run_dunning
Step-AreSingle {s} {t} (Step.debit env args r e) h =
    SameAccounts-AreSingle s t h (rw e at (debit-SameAccounts env args s))
Step-AreSingle {s} {t} (Step.pay env args r e) h = rw e at (credit_wallet-AreSingle env args s h)
Step-AreSingle {s} {t} (Step.sync env now tenant_id r e) h =
    rw e at (sync-AreSingle env now tenant_id s h)
Step-AreSingle {s} {t} (Step.dun now r e) h =
    subst (λ p. AreSingle p.1) e
      (dun_all-AreSingle now (open_invoices s.invoices) (record { reminded = 0; suspended = 0 }) s
        h)

-- However debits, payments, invoice runs and reminder runs interleave, a workspace that starts with
-- at most one open invoice never has two.
pub one_open_invoice : {s t : Db} → Reach s t → AreSingle s → AreSingle t
one_open_invoice Reach.here h = h
one_open_invoice (Reach.after r st) h = Step-AreSingle st (one_open_invoice r h)
