-- ===== src/Invoices/Dunning.antt =====
-- server/utils/invoicing.ts, `runDunning`: reminders of open invoices, then the suspension.
use telroi_ai_app.Base.Calendar.{day_ms}
use telroi_ai_app.Invoices.Rows.{is_unpaid, update_invoices}
use telroi_ai_app.Base.Rows.{update_where}
use telroi_ai_app.Base.{
  [], ◌/◌, ◌∷◌, List, ◌+◌, ◌-◌, ℕ, zero, suc, Bool, true, false, not, ◌&&◌, ◌||◌, some, none,
  String, ◌==◌, is_some, if◌then◌else◌,
}
use telroi_ai_app.Db.{Invoice, Tenant, Db, tenant_of}

-- `DunningResult`
pub record DunningResult : Type 0 where
  pub reminded : ℕ
  pub suspended : ℕ

-- `Math.ceil((dueAt - now) / 86400000)`, with zero for what is not positive.
abbrev pub days_left : ℕ → ℕ → ℕ
days_left due now = (due - now + (day_ms - 1)) / day_ms

abbrev pub same_count : ℕ → ℕ → Bool
same_count zero zero = true
same_count (suc a) (suc b) = same_count a b
same_count _ _ = false

-- The reminder of this day count was sent before.
abbrev pub is_reminded : Invoice → ℕ → Bool
is_reminded i days = elim i.reminded_at [
  | none ↦ false
  | some t ↦ same_count (days_left i.due_at t) days
]

abbrev pub suspend_tenant : String → ℕ → Db → Db
suspend_tenant id now db = record db {
  tenants =
      update_where (λ t. t.id == id) (λ t. record t { billing_suspended_at = some now }) db.tenants;
}

-- The body of the loop, from the workspace on.
unfoldable pub dun_tenant : ℕ → Invoice → Tenant → ℕ → DunningResult → Db → DunningResult × Db
dun_tenant now i t zero r db =
    if is_some t.billing_suspended_at
    then (r, db)
    else (record r { suspended = r.suspended + 1 }, suspend_tenant t.id now db)
dun_tenant now i t (suc days) r db =
    if (same_count days 2 || same_count days 0) && not (is_reminded i (suc days))
    then (
      record r { reminded = r.reminded + 1 },
      update_invoices (λ j. j.id == i.id) (λ j. record j { reminded_at = some now }) db,
    )
    else (r, db)

-- The body of the loop.
unfoldable pub dun_invoice : ℕ → Invoice → DunningResult → Db → DunningResult × Db
unfolding dun_tenant
dun_invoice now i r db = elim (tenant_of i.tenant_id db) [
  | none ↦ (r, db)
  | some t ↦ dun_tenant now i t (days_left i.due_at now) r db
]

unfoldable pub dun_all : ℕ → List Invoice → DunningResult → Db → DunningResult × Db
unfolding dun_invoice
dun_all now [] r db = (r, db)
dun_all now (i ∷ is) r db = let p = dun_invoice now i r db in dun_all now is p.0 p.1

-- The open invoices.
abbrev pub open_invoices : List Invoice → List Invoice
open_invoices [] = []
open_invoices (i ∷ is) = if is_unpaid i.status then i ∷ open_invoices is else open_invoices is

-- `runDunning`
unfoldable pub run_dunning : ℕ → Db → DunningResult × Db
unfolding dun_all
run_dunning now db =
    dun_all now (open_invoices db.invoices) (record { reminded = 0; suspended = 0 }) db
