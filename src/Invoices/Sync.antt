-- ===== src/Invoices/Sync.antt =====
-- server/utils/invoicing.ts, `syncOpenInvoice` and `runInvoiceSync`: one open invoice that always
-- states the debt of a postpaid workspace.
use telroi_ai_app.Base.Rows.{count, find}
use telroi_ai_app.Invoices.Rows.{
  invoice_currency, open_invoice, period_start_of, balance_of, due_from, debt_of, invoice_number,
  update_invoices,
}
use telroi_ai_app.Base.{
  [], ◌∷◌, List, ◌+◌, ℕ, zero, suc, true, ◌&&◌, Option, some, none, String, ◌==◌, if◌then◌else◌,
  ltb,
}
use telroi_ai_app.Base.Int.{ltb_ℤ, pos}
use telroi_ai_app.Base.Tx.{Result, ok, err, fault}
use telroi_ai_app.Db.{Invoice, InvoiceStatus, Tenant, Db, Env, Tx, wallet_of, tenant_of}

-- `SyncResult`
pub data SyncResult : Type 0 where
  issued updated : ℕ → String → String → SyncResult
  nothing_owed : SyncResult

-- The open invoice of a workspace that owes nothing any more.
abbrev pub settled_invoice : ℕ → Invoice → Invoice
settled_invoice now i = record i {
  status = InvoiceStatus.paid;
  paid_at = some now;
  paid_via = some "wallet";
}

-- The patch: the debt, the end of the period, and fresh terms if a larger debt is past due.
abbrev pub patched_invoice : Tenant → ℕ → ℕ → Invoice → Invoice → Invoice
patched_invoice t now owed i j = record j {
  amount_minor = pos owed;
  period_end = if ltb i.period_end now then now else i.period_end;
  due_at = if ltb_ℤ i.amount_minor (pos owed) && ltb i.due_at now then due_from t now else i.due_at;
}

-- The invoice of a debt that has none.
abbrev pub new_invoice : Env → Tenant → ℕ → ℕ → Db → Invoice
new_invoice env t now owed db = record {
  id = env.invoice_id;
  tenant_id = t.id;
  number = invoice_number (count (λ _. true) db.invoices + 1) now;
  period_start = period_start_of t db;
  period_end = now;
  amount_minor = pos owed;
  currency = invoice_currency (wallet_of t.id db);
  status = InvoiceStatus.unpaid;
  due_at = due_from t now;
  paid_at = none;
  paid_via = none;
  reminded_at = none;
  created_at = now;
}

-- `insert`, which throws where the number is taken.
unfoldable pub insert_invoice : Invoice → Tx Invoice
insert_invoice i db = elim (find (λ j. j.number == i.number) db.invoices) [
  | some taken ↦ err (fault "duplicate key value violates unique constraint")
  | none ↦ ok (i, record db { invoices = i ∷ db.invoices })
]

-- From the debt and the open invoice on.
unfoldable pub sync_debt : Env → ℕ → Tenant → ℕ → Option Invoice → Tx SyncResult
unfolding insert_invoice
sync_debt env now t zero none db = ok (nothing_owed, db)
sync_debt env now t zero (some i) db =
    ok (nothing_owed, update_invoices (λ j. j.id == i.id) (settled_invoice now) db)
sync_debt env now t (suc n) (some i) db = ok (
  updated (suc n) i.number i.id,
  update_invoices (λ j. j.id == i.id) (patched_invoice t now (suc n) i) db,
)
sync_debt env now t (suc n) none db = elim (insert_invoice (new_invoice env t now (suc n) db) db) [
  | ok p ↦ ok (issued (suc n) p.0.number p.0.id, p.1)
  | err e ↦ err e
]

-- `syncOpenInvoice`
unfoldable pub sync_open_invoice : Env → ℕ → String → Tx SyncResult
unfolding sync_debt
sync_open_invoice env now tenant_id db = elim (tenant_of tenant_id db) [
  | none ↦ ok (nothing_owed, db)
  | some t ↦
      if t.postpaid
      then sync_debt env now t (debt_of (balance_of (wallet_of tenant_id db)))
          (open_invoice tenant_id db) db
      else ok (nothing_owed, db)
]

-- What the `try` of `runInvoiceSync` leaves of one workspace.
abbrev pub or_unsynced : Db → Result (SyncResult × Db) → SyncResult × Db
or_unsynced db (ok p) = p
or_unsynced db (err e) = (nothing_owed, db)

pub record InvoiceRunResult : Type 0 where
  pub considered : ℕ
  pub issued : ℕ
  pub skipped : ℕ

abbrev pub counted : SyncResult → InvoiceRunResult → InvoiceRunResult
counted (SyncResult.issued a n i) r = record r {
  considered = r.considered + 1;
  issued = r.issued + 1;
}
counted (SyncResult.updated a n i) r = record r { considered = r.considered + 1 }
counted SyncResult.nothing_owed r = record r {
  considered = r.considered + 1;
  skipped = r.skipped + 1;
}

-- The loop of `runInvoiceSync`; `envs` hands out the ids of each workspace's transaction.
unfoldable pub sync_all :
    (String → Env) → ℕ → List Tenant → InvoiceRunResult → Db → InvoiceRunResult × Db
unfolding sync_open_invoice
sync_all envs now [] r db = (r, db)
sync_all envs now (t ∷ ts) r db =
    let p = or_unsynced db (sync_open_invoice (envs t.id) now t.id db) in
    sync_all envs now ts (counted p.0 r) p.1

-- The postpaid workspaces.
abbrev pub postpaid_tenants : List Tenant → List Tenant
postpaid_tenants [] = []
postpaid_tenants (t ∷ ts) = if t.postpaid then t ∷ postpaid_tenants ts else postpaid_tenants ts

-- `runInvoiceSync`, its details left out
unfoldable pub run_invoice_sync : (String → Env) → ℕ → Db → InvoiceRunResult × Db
unfolding sync_all
run_invoice_sync envs now db =
    sync_all envs now (postpaid_tenants db.tenants)
      (record { considered = 0; issued = 0; skipped = 0 }) db
