-- ===== src/Invoices/Resumed.antt =====
-- A payment by `credit` of server/utils/wallet.ts that clears the debt.
use telroi_ai_app.Wallet.Accounts.{credit-SameAccounts, SameAccounts}
use telroi_ai_app.Wallet.Steps.{credit_step}
use telroi_ai_app.Base.Tx.{ok}
use telroi_ai_app.Base.Rows.{find-update_away, find-update, find-sat}
use telroi_ai_app.Wallet.Spend.{positive_integer}
use telroi_ai_app.Invoices.Rows.{is_open_of, open_invoice}
use telroi_ai_app.Wallet.Credit.{
  credit_in_transaction, vat_rate_of, fresh_credit, Credited, credit_vat, CreditArgs, apply_credit,
}
use telroi_ai_app.Db.{credit, ledger_entry, wallet_of, Wallet, tenant_of, Db, Env, Tenant}
use telroi_ai_app.Invoices.Payment.{paid_via_of, paid_invoice, credit_wallet, settle_invoices}
use telroi_ai_app.Base.Int.{pos, ◌+ℤ◌}
use telroi_ai_app.Base.{ℕ, ◌-◌, String, ◌≡◌, refl, ◌∙◌, true, false, none, some, arith, ◌==◌}

-- The workspace owes nothing: it is not suspended, and has no open invoice.
abbrev pub IsCleared : String → Tenant → Db → Type 0
IsCleared tenant_id tenant t =
    (tenant_of tenant_id t ≡ some (record tenant { billing_suspended_at = none }))
    × (open_invoice tenant_id t ≡ none)

settle-IsCleared :
    (env : Env) (args : CreditArgs) (b : ℕ) (tenant : Tenant) (db : Db)
    → tenant_of args.tenant_id db ≡ some tenant
    → IsCleared args.tenant_id tenant (settle_invoices env args (pos b) db)
unfolding settle_invoices
settle-IsCleared env args b tenant db e =
    let found : tenant.id == args.tenant_id ≡ true =
      find-sat (λ t. t.id == args.tenant_id) db.tenants tenant e in
    (
      find-update (λ t. t.id == args.tenant_id) (λ t. t.id == args.tenant_id)
            (λ t. record t { billing_suspended_at = none }) db.tenants (λ t. refl)
          ∙ rw (e, found) refl,
      find-update_away (is_open_of args.tenant_id) (paid_invoice env.now (paid_via_of args))
          db.invoices (λ i. ground arith),
    )

-- A credit of a new reference that brings the balance, its tax taken out, back to zero or above goes
-- through, leaves the workspace without a suspension and without an open invoice, and returns that
-- balance.
pub credit_resumes :
    (env : Env) (args : CreditArgs) (n b : ℕ) (w : Wallet) (tenant : Tenant) (db : Db)
    → positive_integer args.amount_minor ≡ some n
    → wallet_of args.tenant_id db ≡ some w
    → tenant_of args.tenant_id db ≡ some tenant
    → ledger_entry args.reference credit db ≡ none
    → w.balance_minor +ℤ pos (n - credit_vat args n w db) ≡ pos b
    → (r : Credited) × (t : Db) × (credit_wallet env args db ≡ ok (r, t))
      × (r.balance_minor ≡ pos b)
      × IsCleared args.tenant_id tenant t
unfolding credit_wallet apply_credit
credit_resumes env args n b w tenant db p e known new clears =
    let vat_minor = credit_vat args n w db in
    let done = fresh_credit env args n vat_minor (vat_rate_of args.tenant_id db) w db in
    let r : Credited = record {
      balance_minor = pos b;
      idempotent = false;
      vat_minor = vat_minor;
    } in
    let step : credit_in_transaction env args db ≡ ok (r, done) =
      credit_step env args n w db p e ∙ rw (new, clears) refl in
    let same : SameAccounts db done = rw step at (credit-SameAccounts env args db) in
    (
      r,
      settle_invoices env args (pos b) done,
      rw (step, credit_wallet) refl,
      refl,
      settle-IsCleared env args b tenant done (rw same.1 known),
    )
