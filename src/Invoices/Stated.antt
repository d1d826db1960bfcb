-- ===== src/Invoices/Stated.antt =====
-- `syncOpenInvoice` of server/utils/invoicing.ts, against the debt that the wallet shows.
use telroi_ai_app.Base.Rows.{find, find-sat, find-update}
use telroi_ai_app.Invoices.Rows.{is_open_of, balance_of, debt_of, open_invoice}
use telroi_ai_app.Invoices.Sync.{
  new_invoice, patched_invoice, insert_invoice, sync_debt, sync_open_invoice,
}
use telroi_ai_app.Base.{
  eq_refl, ◌∙◌, eq_iff, ℕ, suc, true, Option, some, none, String, ◌≡◌, refl, inl, inr, arith, ◌==◌,
  ◌≤◌, Option-cases,
}
use telroi_ai_app.Base.Int.{pos}
use telroi_ai_app.Base.Tx.{Ensures}
use telroi_ai_app.Db.{Db, Env, Tenant, Invoice, tenant_of, wallet_of}

-- The workspace has an open invoice over a debt, for a period that runs to now at least, and its
-- wallet is as it was.
abbrev pub IsStated : String → ℕ → ℕ → Db → Db → Type 0
IsStated tenant_id now debt s t =
    (i : Invoice) × (open_invoice tenant_id t ≡ some i)
    × (i.amount_minor ≡ pos debt)
    × (now ≤ i.period_end)
    × (t.wallets ≡ s.wallets)

sync_debt-IsStated :
    (env : Env) (now n : ℕ) (t : Tenant) (tenant_id : String) (o : Option Invoice) (db : Db)
    → t.id ≡ tenant_id
    → open_invoice tenant_id db ≡ o
    → Ensures (λ _ u. IsStated tenant_id now (suc n) db u) (sync_debt env now t (suc n) o db)
unfolding sync_debt insert_invoice
sync_debt-IsStated env now n t tenant_id (some i) db own found = (
  patched_invoice t now (suc n) i i,
  find-update (is_open_of tenant_id) (λ j. j.id == i.id) (patched_invoice t now (suc n) i)
        db.invoices (λ j. refl)
      ∙ rw (found, eq_refl i.id) refl,
  refl,
  ground arith,
  refl,
)
sync_debt-IsStated env now n t tenant_id none db own found =
    let i = new_invoice env t now (suc n) db in
    elim (Option-cases (find (λ j. j.number == i.number) db.invoices)) [
      | inr (taken, e) ↦ rw (e, sync_debt, insert_invoice) tt
      | inl free ↦
          let mine : t.id == tenant_id ≡ true = rw own (eq_refl tenant_id) in
          rw (free, sync_debt, insert_invoice) (i, rw mine refl, refl, omega arith, refl)
    ]

-- The sync of a postpaid workspace that owes something, if it does not throw, leaves an open invoice
-- over exactly its debt, for a period that runs to now at least, and does not touch the wallets.
pub sync-IsStated :
    (env : Env) (now n : ℕ) (tenant_id : String) (t : Tenant) (db : Db)
    → tenant_of tenant_id db ≡ some t
    → t.postpaid ≡ true
    → debt_of (balance_of (wallet_of tenant_id db)) ≡ suc n
    → Ensures (λ _ u. IsStated tenant_id now (suc n) db u) (sync_open_invoice env now tenant_id db)
unfolding sync_open_invoice
sync-IsStated env now n tenant_id t db e postpaid owes =
    let own : t.id ≡ tenant_id =
      (eq_iff t.id tenant_id).0 (find-sat (λ x. x.id == tenant_id) db.tenants t e) in
    rw (e, postpaid, owes, sync_open_invoice)
      (sync_debt-IsStated env now n t tenant_id (open_invoice tenant_id db) db own refl)
