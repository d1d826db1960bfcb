-- ===== src/Wallet/Succeeds.antt =====
-- When a debit of server/utils/wallet.ts goes through, with the top-up that it may queue by
-- server/utils/auto-topup-attempts.ts.
use telroi_ai_app.Wallet.Steps.{debit_step}
use telroi_ai_app.Wallet.Limits.{fresh_debit-NewDebit, NewDebit}
use telroi_ai_app.Wallet.Spend.{fx_stamp, can_spend, positive_integer}
use telroi_ai_app.AutoTopup.Attempts.{
  is_active_of, same_trigger, conflicts, EnqueueInput, auto_topup_attempt_key,
  enqueue_auto_topup_attempt,
}
use telroi_ai_app.Wallet.Debit.{
  debit_in_transaction, debit_row, Debited, earlier_debit, trigger_input, card_serves,
  enabled_settings, DebitArgs, card_of, move_debit, apply_debit, fresh_debit, settings_trigger,
  trigger_auto_topup, trigger_settings,
}
use telroi_ai_app.Base.Rows.{find}
use telroi_ai_app.Base.{
  ◌∙◌, ◌&&◌, not, or_else, Option-cases, Bool-cases, List, ℕ, Bool, true, false, Option, some, none,
  String, ◌≡◌, refl, inl, inr, [], ◌∷◌, arith, ◌==◌, ◌||◌,
}
use telroi_ai_app.Base.Int.{◌-ℤ◌, ltb_ℤ, ◌<ℤ◌, pos}
use telroi_ai_app.Base.Tx.{◌>>=◌, ok, err, Result}
use telroi_ai_app.Db.{
  insert_ledger, set_balance, wallet_of, tenant_of, Tenant, AutoTopupSettings, LedgerRow, Wallet,
  Db, Env,
}

-- The transaction does not throw.
abbrev pub Succeeds : {A : Type 0} → Result (A × Db) → Type 0
Succeeds (ok p) = Unit
Succeeds (err e) = ⊥

result_of : {A : Type 0} (r : Result (A × Db)) → Succeeds r → (p : A × Db) × (r ≡ ok p)
result_of (ok p) h = (p, refl)
result_of (err e) h = absurd h

find-or :
    {A : Type 0} (p q : A → Bool) (xs : List A) (x : A)
    → find (λ a. p a || q a) xs ≡ some x
    → find p xs ≡ none
    → (y : A) × (find q xs ≡ some y)
find-or p q [] x h g = absurd (ground arith)
find-or p q (a ∷ xs) x h g = elim (Bool-cases (q a)) [
  | inl here ↦ (a, rw here refl)
  | inr there ↦
      let fresh : p a ≡ false = ground (arith, g) in
      let later = find-or p q xs x (rw (fresh, there) at h) (rw fresh at g) in
      (later.0, rw there later.1)
]

-- No attempt has the key of a ledger row, nor was triggered by it.
abbrev pub IsFreshTrigger : String → Db → Type 0
IsFreshTrigger id db =
    find (λ a. a.idempotency_key == auto_topup_attempt_key id || a.trigger_ledger_id == id)
      db.auto_topup_attempts
    ≡ none

enqueue-Succeeds :
    (env : Env) (input : EnqueueInput) (db : Db)
    → pos 0 <ℤ input.amount_minor
    → IsFreshTrigger input.trigger_ledger_id db
    → Succeeds (enqueue_auto_topup_attempt env input db)
unfolding enqueue_auto_topup_attempt
enqueue-Succeeds env input db h fresh =
    let sound : ltb_ℤ (pos 0) input.amount_minor ≡ true = ground arith in
    elim (Option-cases (find (conflicts input) db.auto_topup_attempts)) [
      | inl new ↦ rw (sound, new) tt
      | inr (x, found) ↦
          let active =
            find-or (same_trigger input) (is_active_of input.tenant_id) db.auto_topup_attempts x
              found fresh in
          rw (sound, found, fresh, active.1) tt
    ]

trigger_settings-Succeeds :
    (env : Env) (w : Wallet) (row : LedgerRow) (o : Option AutoTopupSettings) (db : Db)
    → ((s : AutoTopupSettings) → o ≡ some s → pos 0 <ℤ s.topup_amount_minor)
    → IsFreshTrigger row.id db
    → Succeeds (trigger_settings env w row o db)
unfolding trigger_settings
trigger_settings-Succeeds env w row none db h fresh = tt
trigger_settings-Succeeds env w row (some s) db h fresh =
    elim (Bool-cases (settings_trigger s w.balance_minor row.balance_after_minor)) [
      | inr quiet ↦ rw quiet tt
      | inl crossed ↦
          elim (Option-cases (card_of (or_else s.payment_method_id "") row.tenant_id db)) [
            | inl gone ↦ rw (crossed, gone) tt
            | inr (card, saved) ↦ elim (Bool-cases (card_serves card w.currency)) [
              | inr unfit ↦ rw (crossed, saved, unfit) tt
              | inl fit ↦
                  let (p, queued) =
                    result_of (enqueue_auto_topup_attempt env (trigger_input row s card w) db)
                      (enqueue-Succeeds env (trigger_input row s card w) db (h s refl) fresh) in
                  rw (crossed, saved, fit, ◌>>=◌, queued) tt
            ]
          ]
    ]

trigger_auto_topup-Succeeds :
    (env : Env) (tenant : Tenant) (w : Wallet) (row : LedgerRow) (db : Db)
    → ((s : AutoTopupSettings)
        → enabled_settings row.tenant_id db ≡ some s
        → pos 0 <ℤ s.topup_amount_minor)
    → IsFreshTrigger row.id db
    → Succeeds (trigger_auto_topup env tenant w row db)
unfolding trigger_auto_topup
trigger_auto_topup-Succeeds env tenant w row db h fresh =
    elim (Bool-cases (not tenant.postpaid && not tenant.sandbox_mode)) [
      | inl live ↦
          rw live
            (trigger_settings-Succeeds env w row (enabled_settings row.tenant_id db) db h fresh)
      | inr idle ↦ rw idle tt
    ]

fresh_debit-Succeeds :
    (env : Env) (args : DebitArgs) (amount : ℕ) (tenant : Tenant) (w : Wallet) (db : Db)
    → tenant_of args.tenant_id db ≡ some tenant
    → can_spend (some tenant) w.balance_minor (pos amount) ≡ true
    → ((s : AutoTopupSettings)
        → enabled_settings args.tenant_id db ≡ some s
        → pos 0 <ℤ s.topup_amount_minor)
    → IsFreshTrigger env.ledger_id db
    → Succeeds (fresh_debit env args amount w db)
unfolding fresh_debit move_debit
fresh_debit-Succeeds env args amount tenant w db known may h fresh =
    let after = w.balance_minor -ℤ pos amount in
    let moved = set_balance w.id after env.now db in
    let row = debit_row env args amount w (fx_stamp w.currency moved) in
    let (p, queued) =
      result_of (trigger_auto_topup env tenant w row (insert_ledger row moved))
        (trigger_auto_topup-Succeeds env tenant w row (insert_ledger row moved) h fresh) in
    rw (fresh_debit, move_debit, ◌>>=◌, known, may, queued) tt

-- A debit of a positive amount, of a known workspace with a wallet, under a reference that was not
-- charged before and within what the workspace may spend goes through, where the enabled settings
-- refill by a positive amount and no attempt has the new ledger row as its trigger.
pub debit_succeeds :
    (env : Env) (args : DebitArgs) (amount : ℕ) (tenant : Tenant) (w : Wallet) (db : Db)
    → positive_integer args.amount_minor ≡ some amount
    → wallet_of args.tenant_id db ≡ some w
    → tenant_of args.tenant_id db ≡ some tenant
    → earlier_debit args.reference db ≡ none
    → can_spend (some tenant) w.balance_minor (pos amount) ≡ true
    → ((s : AutoTopupSettings)
        → enabled_settings args.tenant_id db ≡ some s
        → pos 0 <ℤ s.topup_amount_minor)
    → IsFreshTrigger env.ledger_id db
    → (r : Debited) × (t : Db) × (debit_in_transaction env args db ≡ ok (r, t))
      × NewDebit env args db r t
unfolding apply_debit
debit_succeeds env args amount tenant w db p e known new may h fresh =
    let (q, done) =
      result_of (fresh_debit env args amount w db)
        (fresh_debit-Succeeds env args amount tenant w db known may h fresh) in
    let whole_run : debit_in_transaction env args db ≡ ok (q.0, q.1) =
      debit_step env args amount w db p e ∙ rw new done in
    (q.0, q.1, whole_run, rw done at (fresh_debit-NewDebit env args amount w db p e))
