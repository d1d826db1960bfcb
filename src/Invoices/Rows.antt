-- ===== src/Invoices/Rows.antt =====
-- What server/utils/invoicing.ts reads of a workspace: its debt, its invoices and their numbers.
use Prim.Native.String.{◌++◌}
use telroi_ai_app.Base.{
  [], ◌*◌, ◌∷◌, List, ◌+◌, ◌/◌, ℕ, suc, Bool, true, false, ◌&&◌, Option, some, none, String, ◌==◌,
  or_else, if◌then◌else◌, ltb,
}
use telroi_ai_app.Base.Calendar.{civil_of_days, day_ms, four_digits, two_digits, pad_start_four}
use telroi_ai_app.Base.Int.{ℤ, pos, negsuc}
use telroi_ai_app.Base.Rows.{find, update_where}
use telroi_ai_app.Db.{Invoice, InvoiceStatus, Tenant, Wallet, Currency, ngn, Db}

-- `invoiceNumber`
unfoldable pub invoice_number : ℕ → ℕ → String
invoice_number seq when =
    let c = civil_of_days (when / day_ms) in
    "TLR-" ++ four_digits c.year ++ two_digits c.month ++ "-" ++ pad_start_four seq

-- `Math.max(0, -balance)`
abbrev pub debt_of : ℤ → ℕ
debt_of (pos n) = 0
debt_of (negsuc n) = suc n

-- The wallet's balance, or zero without a wallet.
abbrev pub balance_of : Option Wallet → ℤ
balance_of none = pos 0
balance_of (some w) = w.balance_minor

abbrev pub invoice_currency : Option Wallet → Currency
invoice_currency none = ngn
invoice_currency (some w) = w.currency

abbrev pub is_unpaid : InvoiceStatus → Bool
is_unpaid InvoiceStatus.unpaid = true
is_unpaid InvoiceStatus.paid = false
is_unpaid InvoiceStatus.void = false

-- An open invoice of the workspace.
abbrev pub is_open_of : String → Invoice → Bool
is_open_of tenant_id i = i.tenant_id == tenant_id && is_unpaid i.status

-- The newest open invoice of the workspace.
abbrev pub open_invoice : String → Db → Option Invoice
open_invoice tenant_id db = find (is_open_of tenant_id) db.invoices

abbrev pub later : ℕ → Option ℕ → Option ℕ
later t none = some t
later t (some u) = some (if ltb t u then u else t)

-- Where the workspace's last invoice ends.
unfoldable pub last_period_end : String → List Invoice → Option ℕ
last_period_end tenant_id [] = none
last_period_end tenant_id (i ∷ is) =
    let rest = last_period_end tenant_id is in
    if i.tenant_id == tenant_id then later i.period_end rest else rest

-- `last?.periodEnd || t.postpaidSince || t.createdAt`
abbrev pub period_start_of : Tenant → Db → ℕ
period_start_of t db =
    or_else (last_period_end t.id db.invoices) (or_else t.postpaid_since t.created_at)

-- The due date of an invoice issued now: seven days, or the workspace's terms.
abbrev pub due_from : Tenant → ℕ → ℕ
due_from t now = now + or_else t.payment_terms_days 7 * day_ms

abbrev pub update_invoices : (Invoice → Bool) → (Invoice → Invoice) → Db → Db
update_invoices p f db = record db { invoices = update_where p f db.invoices }
