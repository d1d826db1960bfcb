-- ===== src/Tests/Debts.antt =====
-- Invoices of a postpaid workspace that owes half a thousand.
use telroi_ai_app.Invoices.Resumed.{credit_resumes, IsCleared}
use telroi_ai_app.Base.Int.{pos, negsuc, ◌+ℤ◌}
use telroi_ai_app.Invoices.Overdue.{dunning_spares}
use telroi_ai_app.Wallet.Spend.{wallet_credit_vat_minor}
use telroi_ai_app.Tests.Data.{db, env, lagos, lagos_wallet, topup}
use telroi_ai_app.Invoices.Stated.{sync-IsStated, IsStated}
use telroi_ai_app.Invoices.Life.{Step, Reach, one_open_invoice}
use telroi_ai_app.Invoices.Payment.{credit_wallet}
use telroi_ai_app.Base.Calendar.{civil_of_days}
use telroi_ai_app.Wallet.Credit.{Credited}
use telroi_ai_app.Base.Tx.{ok, Ensures}
use telroi_ai_app.Invoices.Rows.{last_period_end, invoice_number}
use telroi_ai_app.Invoices.Sync.{
  SyncResult, insert_invoice, new_invoice, sync_debt, sync_open_invoice,
}
use telroi_ai_app.Db.{Db, Invoice, Wallet, tenant_of}
use telroi_ai_app.Invoices.Dunning.{run_dunning}
use telroi_ai_app.Invoices.Single.{AreSingle}
use telroi_ai_app.Base.{◌≡◌, refl, none, some, [], ◌∷◌, arith}

abbrev indebted : Wallet
indebted = record lagos_wallet { balance_minor = negsuc 499 }

abbrev owing : Db
owing = record db { wallets = indebted ∷ [] }

-- The invoice that the first sync issues.
abbrev bill : Invoice
bill = new_invoice env lagos 5_000 500 owing

abbrev billed : Db
billed = record owing { invoices = bill ∷ [] }

sync_numbers : (bill.number ≡ "TLR-197001-0001") × (bill.due_at ≡ 604_805_000)
unfolding invoice_number civil_of_days last_period_end
sync_numbers = (refl, refl)

sync_issues :
    sync_open_invoice env 5_000 "t2" owing ≡ ok (SyncResult.issued 500 bill.number "i9", billed)
unfolding sync_open_invoice sync_debt insert_invoice
sync_issues = refl

sync-IsStated_example :
    Ensures (λ _ u. IsStated "t2" 5_000 500 owing u) (sync_open_invoice env 5_000 "t2" owing)
sync-IsStated_example = sync-IsStated env 5_000 499 "t2" lagos owing refl refl refl

one_open_invoice_example : AreSingle billed
one_open_invoice_example =
    one_open_invoice
      (Reach.after Reach.here
        (Step.sync env 5_000 "t2" (SyncResult.issued 500 bill.number "i9") sync_issues))
      (λ id. omega arith)

credit_resumes_example :
    (r : Credited) × (t : Db) × (credit_wallet env topup billed ≡ ok (r, t))
    × (r.balance_minor ≡ pos 8_802)
    × IsCleared "t2" lagos t
credit_resumes_example =
    credit_resumes env topup 10_000 8_802 indebted lagos billed refl refl refl refl
      (unfold wallet_credit_vat_minor ◌+ℤ◌ in refl)

dunning_spares_example : tenant_of "t2" (run_dunning 5_000 billed).1 ≡ some lagos
dunning_spares_example = dunning_spares "t2" 5_000 billed ((λ mine. omega arith), tt)

dunning_suspends :
    (run_dunning 604_805_000
      (record billed { tenants = record lagos { billing_suspended_at = none } ∷ [] })).0
    ≡ record { reminded = 0; suspended = 1 }
unfolding run_dunning
dunning_suspends = refl
