-- ===== src/Wallet/Credit.antt =====
-- server/utils/wallet.ts, `creditInTransaction`: the tax taken out, the movement with its ledger rows,
-- and the cancellation of top-ups that the balance no longer needs.
use telroi_ai_app.Base.{
  Option, ℕ, zero, suc, ◌-◌, Bool, true, false, ◌&&◌, some, none, List, [], ◌∷◌, ◌++◌, String, ◌==◌,
  or_else, if◌then◌else◌,
}
use telroi_ai_app.Base.Int.{ℤ, pos, ◌+ℤ◌, leb_ℤ, eqb_ℤ}
use telroi_ai_app.Base.Rows.{find}
use telroi_ai_app.Base.Tx.{ok, api, err, fault, gets, or_throw, ◌>>=◌}
use telroi_ai_app.Db.{
  credit, vat, Wallet, LedgerRow, MetaValue, num, Db, Env, Tx, wallet_of, settings_of, ledger_entry,
  set_balance, insert_ledger,
}
use telroi_ai_app.AutoTopup.Attempts.{cancel_unsent_auto_topups}
use telroi_ai_app.Wallet.Spend.{
  Number, positive_integer, fx_stamp, vat_rate, wallet_credit_vat_minor, is_simulated,
}
use Prim.Native.String.{◌++◌ as concat}

-- The arguments of `creditInTransaction`.
pub record CreditArgs : Type 0 where
  pub tenant_id : String
  pub amount_minor : Number
  pub reason : String
  pub reference : String
  pub meta : List (String × MetaValue)

-- What `creditInTransaction` returns.
pub record Credited : Type 0 where
  pub balance_minor : ℤ
  pub idempotent : Bool
  pub vat_minor : ℕ

-- The platform's rate, or the workspace's own.
abbrev pub vat_rate_of : String → Db → ℤ
vat_rate_of tenant_id db = elim (find (λ o. o.tenant_id == tenant_id) db.pricing_overrides) [
  | none ↦ vat_rate
  | some o ↦ or_else o.vat_rate vat_rate
]

-- The tax inside a credit of this wallet.
abbrev pub credit_vat : CreditArgs → ℕ → Wallet → Db → ℕ
credit_vat args amount wallet db =
    wallet_credit_vat_minor wallet.currency args.reason amount (vat_rate_of args.tenant_id db)

-- The ledger row of a credit.
abbrev pub credit_row :
    Env → CreditArgs → ℕ → ℕ → ℤ → Wallet → ℤ → List (String × MetaValue) → LedgerRow
credit_row env args amount vat_minor rate wallet after fx = record {
  id = env.ledger_id;
  wallet_id = wallet.id;
  tenant_id = args.tenant_id;
  kind = credit;
  amount_minor = pos (amount - vat_minor);
  balance_after_minor = after;
  reason = args.reason;
  reference = some args.reference;
  meta =
      fx
      ++ (args.meta ++ elim vat_minor [
        | zero ↦ []
        | suc v ↦
            ("grossMinor", num (pos amount))
            ∷ ("vatMinor", num (pos (suc v)))
            ∷ ("vatRate", num rate)
            ∷ []
      ]);
  sandbox = is_simulated args.meta;
}

-- The ledger row of the tax.
abbrev pub vat_row : Env → CreditArgs → ℕ → ℕ → Wallet → ℤ → List (String × MetaValue) → LedgerRow
vat_row env args amount vat_minor wallet after fx = record {
  id = env.vat_id;
  wallet_id = wallet.id;
  tenant_id = args.tenant_id;
  kind = vat;
  amount_minor = pos vat_minor;
  balance_after_minor = after;
  reason = concat "vat:" args.reason;
  reference = some (concat args.reference ":vat");
  meta =
      fx
      ++ (("rate", num vat_rate)
          ∷ ("grossMinor", num (pos amount))
          ∷ ("netMinor", num (pos (amount - vat_minor)))
          ∷ []);
  sandbox = is_simulated args.meta;
}

-- Queued top-ups are cancelled once the balance is back at the threshold.
unfoldable pub cancel_recovered : Env → String → ℤ → Db → Db
cancel_recovered env tenant_id after db = elim (settings_of tenant_id db) [
  | none ↦ db
  | some s ↦
      if leb_ℤ s.threshold_minor after
      then cancel_unsent_auto_topups env tenant_id "balance_recovered" none db
      else db
]

-- The tax as a row of its own, where there is any.
abbrev pub insert_vat : Env → CreditArgs → ℕ → ℕ → Wallet → ℤ → List (String × MetaValue) → Db → Db
insert_vat env args amount zero wallet after fx db = db
insert_vat env args amount (suc v) wallet after fx db =
    insert_ledger (vat_row env args amount (suc v) wallet after fx) db

-- From the wallet's update to the ledger rows, when the reference is new.
unfoldable pub fresh_credit : Env → CreditArgs → ℕ → ℕ → ℤ → Wallet → Db → Db
unfolding cancel_recovered
fresh_credit env args amount vat_minor rate wallet db =
    let after = wallet.balance_minor +ℤ pos (amount - vat_minor) in
    let fx = fx_stamp wallet.currency db in
    insert_vat env args amount vat_minor wallet after fx (
      insert_ledger (credit_row env args amount vat_minor rate wallet after fx)
        (cancel_recovered env args.tenant_id after (set_balance wallet.id after env.now db)))

-- The earlier credit of a reference must be of the same wallet, workspace and net amount.
abbrev pub same_credit : LedgerRow → Wallet → String → ℕ → Bool
same_credit dupe wallet tenant_id net =
    dupe.wallet_id == wallet.id && dupe.tenant_id == tenant_id && eqb_ℤ dupe.amount_minor (pos net)

-- From the lookup of an earlier credit on.
unfoldable pub apply_credit : Env → CreditArgs → ℕ → Wallet → Option LedgerRow → Tx Credited
unfolding fresh_credit
apply_credit env args amount wallet (some row) db =
    if same_credit row wallet args.tenant_id (amount - credit_vat args amount wallet db)
    then ok (record { balance_minor = wallet.balance_minor; idempotent = true; vat_minor = 0 }, db)
    else err (fault "Wallet credit reference identity mismatch")
apply_credit env args amount wallet none db =
    let vat_minor = credit_vat args amount wallet db in
    ok (
      record {
        balance_minor = wallet.balance_minor +ℤ pos (amount - vat_minor);
        idempotent = false;
        vat_minor = vat_minor;
      },
      fresh_credit env args amount vat_minor (vat_rate_of args.tenant_id db) wallet db,
    )

-- `creditInTransaction`
unfoldable pub credit_in_transaction : Env → CreditArgs → Tx Credited
unfolding apply_credit
credit_in_transaction env args = do
  amount ← or_throw (positive_integer args.amount_minor) (api "invalid_amount" 400)
  wallet ← or_throw (← gets (wallet_of args.tenant_id)) (api "no_wallet" 404)
  dupe ← gets (ledger_entry args.reference credit)
  apply_credit env args amount wallet dupe
