-- ===== src/Invoices/Payment.antt =====
-- server/utils/wallet.ts, `credit`: the movement, and what a balance that is back at zero settles. The
-- notes of activity and the receipts that follow are left out.
use Prim.Native.String.{◌++◌}
use telroi_ai_app.Wallet.Spend.{last_field}
use telroi_ai_app.Base.Calendar.{decimal}
use telroi_ai_app.Invoices.Rows.{is_open_of, update_invoices}
use telroi_ai_app.Base.Rows.{update_where}
use telroi_ai_app.Base.{
  or_else, ℕ, zero, suc, true, false, Option, some, none, String, ◌==◌, if◌then◌else◌,
}
use telroi_ai_app.Base.Int.{ℤ, pos, negsuc}
use telroi_ai_app.Base.Tx.{Result, ok, err}
use telroi_ai_app.Db.{Invoice, InvoiceStatus, Db, Env, Tx, MetaValue, text, num, flag}
use telroi_ai_app.Wallet.Credit.{CreditArgs, Credited, credit_in_transaction}

-- `String(value)` of a JSON value that is true, by JavaScript's truth.
abbrev pub truthy_text : MetaValue → Option String
truthy_text (text s) = if s == "" then none else some s
truthy_text (num (pos zero)) = none
truthy_text (num (pos (suc n))) = some (decimal (suc n))
truthy_text (num (negsuc n)) = some ("-" ++ decimal (suc n))
truthy_text (flag true) = some "true"
truthy_text (flag false) = none

-- `String(meta.provider || reason)`
abbrev pub paid_via_of : CreditArgs → String
paid_via_of args = elim (last_field "provider" args.meta) [
  | none ↦ args.reason
  | some v ↦ or_else (truthy_text v) args.reason
]

abbrev pub lift_suspension : String → Db → Db
lift_suspension id db = record db {
  tenants =
      update_where (λ t. t.id == id) (λ t. record t { billing_suspended_at = none }) db.tenants;
}

abbrev pub paid_invoice : ℕ → String → Invoice → Invoice
paid_invoice now via i = record i {
  status = InvoiceStatus.paid;
  paid_at = some now;
  paid_via = some via;
}

-- The settlement: with nothing owed the suspension is lifted and every open invoice is paid.
unfoldable pub settle_invoices : Env → CreditArgs → ℤ → Db → Db
settle_invoices env args (negsuc n) db = db
settle_invoices env args (pos n) db =
    update_invoices (is_open_of args.tenant_id) (paid_invoice env.now (paid_via_of args))
      (lift_suspension args.tenant_id db)

abbrev pub after_credit : Env → CreditArgs → Result (Credited × Db) → Result (Credited × Db)
after_credit env args (err e) = err e
after_credit env args (ok p) =
    ok (p.0, if p.0.idempotent then p.1 else settle_invoices env args p.0.balance_minor p.1)

-- `credit`
unfoldable pub credit_wallet : Env → CreditArgs → Tx Credited
unfolding settle_invoices
credit_wallet env args db = after_credit env args (credit_in_transaction env args db)
