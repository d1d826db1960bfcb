-- ===== src/Db/Queries.antt =====
-- The selects, inserts and updates that several components share.
use telroi_ai_app.Base.{ℕ, Bool, true, false, ◌&&◌, Option, ◌∷◌, String, ◌==◌, text_is}
use telroi_ai_app.Base.Int.{ℤ}
use telroi_ai_app.Base.Rows.{find, update_where}
use telroi_ai_app.Base.Tx.{Result}
use telroi_ai_app.Db.Schema.{
  Tenant, Wallet, LedgerRow, LedgerKind, credit, debit, vat, Currency, ngn, usd, Payment,
  AutoTopupSettings, Attempt, Db,
}

abbrev pub Tx : Type 0 → Type 0
Tx A = Db → Result (A × Db)

abbrev pub kind_is : LedgerKind → LedgerKind → Bool
kind_is credit credit = true
kind_is debit debit = true
kind_is vat vat = true
kind_is _ _ = false

abbrev pub currency_is : Currency → Currency → Bool
currency_is ngn ngn = true
currency_is usd usd = true
currency_is _ _ = false

abbrev pub wallet_of : String → Db → Option Wallet
wallet_of tenant_id db = find (λ w. w.tenant_id == tenant_id) db.wallets

abbrev pub tenant_of : String → Db → Option Tenant
tenant_of id db = find (λ t. t.id == id) db.tenants

abbrev pub settings_of : String → Db → Option AutoTopupSettings
settings_of tenant_id db = find (λ s. s.tenant_id == tenant_id) db.auto_topup_settings

-- The select of `and(eq(ledger.reference, …), eq(ledger.kind, …))`.
abbrev pub ledger_entry : String → LedgerKind → Db → Option LedgerRow
ledger_entry reference kind db =
    find (λ r. text_is r.reference reference && kind_is r.kind kind) db.ledger

abbrev pub set_balance : String → ℤ → ℕ → Db → Db
set_balance id balance now db = record db {
  wallets =
      update_where (λ w. w.id == id) (λ w. record w { balance_minor = balance; updated_at = now })
        db.wallets;
}

abbrev pub insert_ledger : LedgerRow → Db → Db
insert_ledger row db = record db { ledger = row ∷ db.ledger }

abbrev pub update_attempts : (Attempt → Bool) → (Attempt → Attempt) → Db → Db
update_attempts p f db = record db { auto_topup_attempts = update_where p f db.auto_topup_attempts }

abbrev pub update_payments : (Payment → Bool) → (Payment → Payment) → Db → Db
update_payments p f db = record db { payments = update_where p f db.payments }
