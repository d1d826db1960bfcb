-- ===== src/Wallet/Entries.antt =====
-- server/utils/wallet.ts: the creation of a wallet, ledger entries that move no money, and the check
-- before a feature is used.
use telroi_ai_app.Base.{
  is_present, Bool, true, false, Option, some, none, List, [], ◌∷◌, ◌++◌, String, ◌==◌, or_else,
  if◌then◌else◌,
}
use telroi_ai_app.Base.Int.{ℤ, pos}
use telroi_ai_app.Base.Tx.{Error, err, api, ok, pure, gets, modify, or_throw, ◌>>=◌, ◌>>◌}
use telroi_ai_app.Db.{
  Currency, ngn, usd, debit, Tenant, Wallet, LedgerRow, MetaValue, flag, Db, Env, Tx, wallet_of,
  tenant_of, insert_ledger,
}
use telroi_ai_app.Wallet.Spend.{can_spend}
use telroi_ai_app.Wallet.Debit.{earlier_debit}

-- `currencyForCountry` of countries.ts: of its profiles, Nigeria's alone is in naira.
unfoldable pub currency_for_country : Option String → Currency
currency_for_country none = usd
currency_for_country (some c) = if c == "Nigeria" then ngn else usd

-- The row that a wallet starts as.
abbrev pub new_wallet : Env → Tenant → Option Currency → Wallet
new_wallet env tenant currency = record {
  id = env.wallet_id;
  tenant_id = tenant.id;
  currency = or_else currency (currency_for_country tenant.country);
  balance_minor = pos 0;
  updated_at = env.now;
}

-- `getOrCreateWallet`
unfoldable pub get_or_create_wallet : Env → String → Option Currency → Tx Wallet
get_or_create_wallet env tenant_id currency db = elim (wallet_of tenant_id db) [
  | some existing ↦ ok (existing, db)
  | none ↦ elim (tenant_of tenant_id db) [
    | none ↦ or_throw none (api "session_invalid" 401) db
    | some tenant ↦
        let created = new_wallet env tenant currency in
        ok (created, record db { wallets = created ∷ db.wallets })
  ]
]

-- The options of `sandboxLedgerEntry`.
pub record SandboxEntry : Type 0 where
  pub tenant_id : String
  pub amount_minor : ℤ
  pub reason : String
  pub reference : Option String
  pub meta : List (String × MetaValue)

-- `reference || null`
abbrev pub present_or_none : Option String → Option String
present_or_none reference = if is_present reference then reference else none

-- The row of a sandbox entry: the wallet's balance is repeated, not changed.
abbrev pub sandbox_row : Env → SandboxEntry → Wallet → LedgerRow
sandbox_row env opts wallet = record {
  id = env.ledger_id;
  wallet_id = wallet.id;
  tenant_id = opts.tenant_id;
  kind = debit;
  amount_minor = opts.amount_minor;
  balance_after_minor = wallet.balance_minor;
  reason = opts.reason;
  reference = present_or_none opts.reference;
  meta = opts.meta ++ (("simulated", flag true) ∷ []);
  sandbox = true;
}

-- What `sandboxLedgerEntry` returns: the earlier row, the new row's id, or `{ ok: false }`.
pub data SandboxResult : Type 0 where
  existing : LedgerRow → SandboxResult
  recorded : String → SandboxResult
  refused : Error → SandboxResult

-- The body of the `try`.
unfoldable pub record_sandbox_entry : Env → SandboxEntry → Tx SandboxResult
unfolding get_or_create_wallet
record_sandbox_entry env opts = do
  wallet ← get_or_create_wallet env opts.tenant_id none
  earlier ← gets (earlier_debit opts.reference)
  elim earlier [
    | some row ↦ pure (existing row)
    | none ↦ do modify (insert_ledger (sandbox_row env opts wallet)); pure (recorded env.ledger_id)
  ]

-- `sandboxLedgerEntry`: what the body throws becomes its result.
unfoldable pub sandbox_ledger_entry : Env → SandboxEntry → Db → SandboxResult × Db
unfolding record_sandbox_entry
sandbox_ledger_entry env opts db = elim (record_sandbox_entry env opts db) [
  | ok p ↦ p
  | err e ↦ (refused e, db)
]

-- `canAfford`: its select leaves `billingSuspendedAt` out, so that `canSpend` finds it absent.
unfoldable pub can_afford : String → ℤ → Db → Bool
can_afford tenant_id amount db = elim (wallet_of tenant_id db) [
  | none ↦ false
  | some w ↦ elim (tenant_of tenant_id db) [
    | none ↦ can_spend none w.balance_minor amount
    | some t ↦ can_spend (some (record t { billing_suspended_at = none })) w.balance_minor amount
  ]
]
