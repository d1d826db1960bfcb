-- ===== src/Tests/Wallets.antt =====
-- The wallet's theorems at the small database.
use telroi_ai_app.AutoTopup.Attempts.{auto_topup_attempt_key}
use telroi_ai_app.Wallet.Succeeds.{debit_succeeds}
use telroi_ai_app.Tests.Data.{acme, acme_wallet, settings}
use telroi_ai_app.Wallet.Tax.{vat_inclusive, can_afford_suspended}
use telroi_ai_app.AutoTopup.Policy.{crossed_auto_topup_threshold}
use telroi_ai_app.Wallet.Tax.{can_afford_suspended}
use telroi_ai_app.Wallet.Repeat.{debit_twice, repeated}
use telroi_ai_app.Wallet.Replay.{credit_twice, repeated_credit}
use telroi_ai_app.Wallet.Conservation.{debit-IsBalanced}
use telroi_ai_app.Wallet.Balance.{IsBalanced}
use telroi_ai_app.Db.{AutoTopupSettings, ngn, Db}
use telroi_ai_app.Wallet.Entries.{can_afford}
use telroi_ai_app.Wallet.Limits.{debit_within_limit, RepeatedDebit, NewDebit}
use telroi_ai_app.Wallet.Debit.{enabled_settings, Debited, debit_in_transaction}
use telroi_ai_app.Base.Int.{◌<ℤ◌, pos, neg, ◌-ℤ◌, ◌+ℤ◌}
use telroi_ai_app.Base.Tx.{api, err, ok, Ensures, Result}
use telroi_ai_app.Wallet.Spend.{can_spend, wallet_credit_vat_minor}
use telroi_ai_app.Wallet.Credit.{Credited, credit_in_transaction}
use telroi_ai_app.Base.{arith, some, subst, ◌+◌, ◌<◌, ◌*◌, ◌≤◌, ◌≡◌, refl, true, false, none, ◌⊎◌}
use telroi_ai_app.Tests.Data.{env, db, call, lagos_call, topup, lagos, lagos_wallet}

db-IsBalanced : IsBalanced db
unfolding ◌+ℤ◌
db-IsBalanced = (refl, (refl, tt))

debit_within_limit_example :
    Ensures
      (λ r t. NewDebit env call db r t ⊎ RepeatedDebit call db r t)
      (debit_in_transaction env call db)
debit_within_limit_example = debit_within_limit env call db

debit-IsBalanced_example : Ensures (λ _ t. IsBalanced t) (debit_in_transaction env call db)
debit-IsBalanced_example = debit-IsBalanced env call db db-IsBalanced

-- The state and the answer of a call that goes through.
abbrev debited : Result (Debited × Db) → Debited
debited (ok p) = p.0
debited (err e) = record {
  balance_minor = pos 0;
  ledger_id = "";
  idempotent = false;
  auto_topup_attempt_id = none;
}

abbrev credited : Result (Credited × Db) → Credited
credited (ok p) = p.0
credited (err e) = record { balance_minor = pos 0; idempotent = false; vat_minor = 0 }

abbrev state_of : {A : Type 0} → Result (A × Db) → Db
state_of (ok p) = p.1
state_of (err e) = db

debit_twice_example :
    let first = debit_in_transaction env call db in
    debit_in_transaction env call (state_of first) ≡ ok (repeated (debited first), state_of first)
unfolding debit_in_transaction can_spend crossed_auto_topup_threshold
debit_twice_example =
    let first = debit_in_transaction env call db in
    debit_twice env env call "call_7" (debited first) db (state_of first) refl refl refl

credit_twice_example :
    let first = credit_in_transaction env topup db in
    credit_in_transaction env topup (state_of first)
    ≡ ok (repeated_credit (credited first), state_of first)
unfolding credit_in_transaction
credit_twice_example =
    let first = credit_in_transaction env topup db in
    credit_twice env env topup (credited first) db (state_of first) refl

vat_inclusive_example :
    let v = wallet_credit_vat_minor ngn "topup" 1_000_000 (pos 750) in
    (v ≤ 1_000_000)
    × (2 * (1_000_000 * 750) < 2 * (v * (10000 + 750)) + (10000 + 750) + 1)
    × (2 * (v * (10000 + 750)) ≤ 2 * (1_000_000 * 750) + (10000 + 750))
vat_inclusive_example = vat_inclusive "topup" 1_000_000 (pos 750) refl

vat_of_ten_thousand : wallet_credit_vat_minor ngn "topup" 1_000_000 (pos 750) ≡ 69_767
unfolding wallet_credit_vat_minor
vat_of_ten_thousand = refl

can_afford_suspended_example :
    (can_afford "t2" (pos 120) db ≡ true)
    × (debit_in_transaction env lagos_call db ≡ err (api "insufficient_funds" 402))
unfolding can_spend neg ◌-ℤ◌
can_afford_suspended_example =
    can_afford_suspended env lagos_call 120 77 lagos lagos_wallet db refl refl refl refl refl refl

settings_is : (s : AutoTopupSettings) → enabled_settings "t1" db ≡ some s → settings ≡ s
settings_is s is = ground arith

debit_succeeds_example :
    (r : Debited) × (t : Db) × (debit_in_transaction env call db ≡ ok (r, t))
    × NewDebit env call db r t
unfolding can_spend auto_topup_attempt_key
debit_succeeds_example =
    debit_succeeds env call 120 acme acme_wallet db refl refl refl refl refl
      (λ s is. subst (λ x. pos 0 <ℤ x.topup_amount_minor) (settings_is s is) (omega arith)) refl
