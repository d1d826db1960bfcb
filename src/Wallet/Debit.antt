-- ===== src/Wallet/Debit.antt =====
-- server/utils/wallet.ts, `debitInTransaction`: the checks, the movement with its ledger row, and the
-- auto top-up attempt that the movement may queue in the same transaction.
use telroi_ai_app.Base.{
  ℕ, Bool, true, false, not, ◌&&◌, ◌||◌, Option, some, none, List, ◌++◌, String, ◌==◌, is_present,
  or_else, if◌then◌else◌,
}
use telroi_ai_app.Base.Int.{ℤ, pos, ◌-ℤ◌, ltb_ℤ}
use telroi_ai_app.Base.Rows.{find}
use telroi_ai_app.Base.Tx.{api, ok, pure, gets, modify, or_throw, throw_unless, ◌>>=◌, ◌>>◌}
use telroi_ai_app.Db.{
  Currency, debit, Tenant, Wallet, LedgerRow, AutoTopupSettings, PaymentMethod, MetaValue, Db, Env,
  Tx, wallet_of, tenant_of, ledger_entry, set_balance, insert_ledger,
}
use telroi_ai_app.AutoTopup.Policy.{provider_supports_wallet_currency, crossed_auto_topup_threshold}
use telroi_ai_app.AutoTopup.Attempts.{EnqueueInput, enqueue_auto_topup_attempt}
use telroi_ai_app.Wallet.Spend.{Number, positive_integer, can_spend, fx_stamp}

-- `DebitArgs`
pub record DebitArgs : Type 0 where
  pub tenant_id : String
  pub amount_minor : Number
  pub reason : String
  pub reference : Option String
  pub meta : List (String × MetaValue)

-- What `debitInTransaction` returns.
pub record Debited : Type 0 where
  pub balance_minor : ℤ
  pub ledger_id : String
  pub idempotent : Bool
  pub auto_topup_attempt_id : Option String

-- The settings that may trigger: enabled, with a card and a refill above the threshold, on a debit
-- that crosses it.
abbrev pub settings_trigger : AutoTopupSettings → ℤ → ℤ → Bool
settings_trigger s before after =
    is_present s.payment_method_id
    && ltb_ℤ s.threshold_minor s.topup_amount_minor
    && crossed_auto_topup_threshold before after s.threshold_minor

-- The card that may be charged.
abbrev pub card_serves : PaymentMethod → Currency → Bool
card_serves card currency =
    card.reusable
    && is_present card.token_enc
    && (card.provider == "stripe" || card.provider == "paystack")
    && provider_supports_wallet_currency card.provider currency

-- The select of the enabled settings.
abbrev pub enabled_settings : String → Db → Option AutoTopupSettings
enabled_settings tenant_id db =
    find (λ s. s.tenant_id == tenant_id && s.enabled) db.auto_topup_settings

-- The select of the settings' card among the workspace's.
abbrev pub card_of : String → String → Db → Option PaymentMethod
card_of id tenant_id db = find (λ c. c.id == id && c.tenant_id == tenant_id) db.payment_methods

-- The attempt's details.
abbrev pub trigger_input : LedgerRow → AutoTopupSettings → PaymentMethod → Wallet → EnqueueInput
trigger_input row s card wallet = record {
  tenant_id = row.tenant_id;
  trigger_ledger_id = row.id;
  payment_method_id = card.id;
  amount_minor = s.topup_amount_minor;
  currency = wallet.currency;
  balance_at_trigger_minor = row.balance_after_minor;
  provider = card.provider;
}

-- The block that queues an attempt, from the settings on.
unfoldable pub trigger_settings :
    Env → Wallet → LedgerRow → Option AutoTopupSettings → Tx (Option String)
trigger_settings env wallet row none db = ok (none, db)
trigger_settings env wallet row (some s) db =
    if settings_trigger s wallet.balance_minor row.balance_after_minor
    then elim (card_of (or_else s.payment_method_id "") row.tenant_id db) [
      | none ↦ ok (none, db)
      | some card ↦
          if card_serves card wallet.currency
          then (do
            queued ← enqueue_auto_topup_attempt env (trigger_input row s card wallet)
            pure (some queued.attempt.id))
              db
          else ok (none, db)
    ]
    else ok (none, db)

-- The block that queues an attempt.
unfoldable pub trigger_auto_topup : Env → Tenant → Wallet → LedgerRow → Tx (Option String)
unfolding trigger_settings
trigger_auto_topup env tenant wallet row db =
    if not tenant.postpaid && not tenant.sandbox_mode
    then trigger_settings env wallet row (enabled_settings row.tenant_id db) db
    else ok (none, db)

-- The ledger row of a debit.
abbrev pub debit_row : Env → DebitArgs → ℕ → Wallet → List (String × MetaValue) → LedgerRow
debit_row env args amount wallet fx = record {
  id = env.ledger_id;
  wallet_id = wallet.id;
  tenant_id = args.tenant_id;
  kind = debit;
  amount_minor = pos amount;
  balance_after_minor = wallet.balance_minor -ℤ pos amount;
  reason = args.reason;
  reference = args.reference;
  meta = fx ++ args.meta;
  sandbox = false;
}

-- From the wallet's lock to the ledger row, when the reference is new.
unfoldable pub move_debit : Env → DebitArgs → ℕ → Wallet → Tx (Tenant × LedgerRow)
move_debit env args amount wallet = do
  tenant ← or_throw (← gets (tenant_of args.tenant_id)) (api "tenant_not_found" 404)
  throw_unless (can_spend (some tenant) wallet.balance_minor (pos amount))
      (api "insufficient_funds" 402)
  modify (set_balance wallet.id (wallet.balance_minor -ℤ pos amount) env.now)
  fx ← gets (fx_stamp wallet.currency)
  let row = debit_row env args amount wallet fx
  modify (insert_ledger row)
  pure (tenant, row)

-- The movement and what it triggers.
unfoldable pub fresh_debit : Env → DebitArgs → ℕ → Wallet → Tx Debited
unfolding move_debit trigger_auto_topup
fresh_debit env args amount wallet = do
  moved ← move_debit env args amount wallet
  attempt_id ← trigger_auto_topup env moved.0 wallet moved.1
  pure (record {
    balance_minor = moved.1.balance_after_minor;
    ledger_id = moved.1.id;
    idempotent = false;
    auto_topup_attempt_id = attempt_id;
  })

-- The debit of the same reference, if the call has one.
abbrev pub earlier_debit : Option String → Db → Option LedgerRow
earlier_debit none db = none
earlier_debit (some r) db = if is_present (some r) then ledger_entry r debit db else none

-- From the lookup of an earlier debit on.
unfoldable pub apply_debit : Env → DebitArgs → ℕ → Wallet → Option LedgerRow → Tx Debited
unfolding fresh_debit
apply_debit env args amount wallet (some row) db = ok (
  record {
    balance_minor = wallet.balance_minor;
    ledger_id = row.id;
    idempotent = true;
    auto_topup_attempt_id = none;
  },
  db,
)
apply_debit env args amount wallet none db = fresh_debit env args amount wallet db

-- `debitInTransaction`; `debitWithDb` and `debit` run it in a transaction of its own.
unfoldable pub debit_in_transaction : Env → DebitArgs → Tx Debited
unfolding apply_debit
debit_in_transaction env args = do
  amount ← or_throw (positive_integer args.amount_minor) (api "invalid_amount" 400)
  wallet ← or_throw (← gets (wallet_of args.tenant_id)) (api "no_wallet" 404)
  dupe ← gets (earlier_debit args.reference)
  apply_debit env args amount wallet dupe
