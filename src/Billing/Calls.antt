-- ===== src/Billing/Calls.antt =====
-- server/utils/call-billing.ts, `chargeCall`; server/utils/sandbox.ts, `isSandbox`; and
-- `chargeNumberProvision` of server/utils/wallet.ts. The events for other systems are left out.
use telroi_ai_app.Billing.Seats.{rate_or_default}
use telroi_ai_app.Billing.Prices.{voice_cost_minor, get_pricing}
use telroi_ai_app.Base.Calendar.{two_digits, four_digits, day_ms, civil_of_days}
use telroi_ai_app.Base.Tx.{err, ok, Result, Error}
use telroi_ai_app.Db.{Wallet, num, tenant_of, text, Currency, Db, Env, MetaValue, Pricing}
use telroi_ai_app.Wallet.Entries.{SandboxEntry, get_or_create_wallet, sandbox_ledger_entry}
use telroi_ai_app.Wallet.Debit.{debit_in_transaction, Debited, DebitArgs}
use telroi_ai_app.Base.{
  ◌++◌, ℕ, zero, suc, ◌/◌, String, Bool, true, not, ◌&&◌, ◌||◌, Option, none, some, List, [], ◌∷◌,
  text_is, or_else, ◌==◌, if◌then◌else◌,
}
use telroi_ai_app.Base.Int.{ℤ, pos, negsuc, ◌*ℤ◌}
use telroi_ai_app.Wallet.Spend.{int}
use Prim.Native.String.{◌++◌ as concat}

-- `isSandbox`: an unknown workspace counts as one.
abbrev pub is_sandbox : String → Db → Bool
is_sandbox tenant_id db = elim (tenant_of tenant_id db) [ none ↦ true | some t ↦ t.sandbox_mode ]

-- The options of `chargeCall` that billing reads; the seconds are whole.
pub record CallArgs : Type 0 where
  pub tenant_id : String
  pub call_id : String
  pub seconds : ℤ
  pub provider : Option String
  pub source : Option String
  pub direction : Option String

-- What `chargeCall` returns.
pub data CallCharge : Type 0 where
  zero_duration inbound_ng_free : CallCharge
  simulated : ℕ → Currency → CallCharge
  charged : ℕ → Currency → Debited → CallCharge

-- `Math.max(0, seconds)`
abbrev pub billable : ℤ → ℕ
billable (pos n) = n
billable (negsuc n) = 0

-- A field that JSON drops where it is undefined.
abbrev pub optional_text : String → Option String → List (String × MetaValue)
optional_text name none = []
optional_text name (some s) = (name, text s) ∷ []

abbrev pub call_meta : CallArgs → ℕ → List (String × MetaValue)
call_meta opts seconds =
    optional_text "provider" opts.provider
    ++ (optional_text "source" opts.source ++ (("seconds", num (pos seconds)) ∷ []))

abbrev pub call_debit : CallArgs → ℕ → ℕ → DebitArgs
call_debit opts seconds amount = record {
  tenant_id = opts.tenant_id;
  amount_minor = int (pos amount);
  reason = "voice_minute";
  reference = some (concat "call_" opts.call_id);
  meta = call_meta opts seconds;
}

abbrev pub call_sandbox : CallArgs → ℕ → ℕ → SandboxEntry
call_sandbox opts seconds amount = record {
  tenant_id = opts.tenant_id;
  amount_minor = pos amount;
  reason = "voice_minute";
  reference = some (concat "sbx_call_" opts.call_id);
  meta = call_meta opts seconds;
}

-- The price of a call for the holder of a wallet.
unfoldable pub call_cost : CallArgs → ℕ → Wallet → Db → ℕ
unfolding get_pricing voice_cost_minor
call_cost opts seconds wallet db =
    let rates = get_pricing opts.tenant_id db in
    voice_cost_minor seconds wallet.currency rates.ngn_per_usd rates.voice_minute_usd_micro

-- From the wallet on: a simulated entry, or the debit.
unfoldable pub charge_wallet : Env → CallArgs → ℕ → Wallet → Db → Result CallCharge × Db
unfolding call_cost sandbox_ledger_entry
charge_wallet env opts seconds wallet db =
    let amount = call_cost opts seconds wallet db in
    if is_sandbox opts.tenant_id db
    then (
      ok (simulated amount wallet.currency),
      (sandbox_ledger_entry env (call_sandbox opts seconds amount) db).1,
    )
    else elim (debit_in_transaction env (call_debit opts seconds amount) db) [
      | ok p ↦ (ok (charged amount wallet.currency p.0), p.1)
      | err e ↦ (err e, db)
    ]

module _ (lower : String → String) where
  -- One of the Nigerian carriers; `lower` is `toLowerCase`.
  abbrev pub is_ng_carrier : Option String → Bool
  is_ng_carrier provider =
      let name = lower (or_else provider "") in
      name == "ruach" || name == "kasooko" || name == "sotel"

  -- A call that came in over a Nigerian carrier, which charges nothing for it.
  abbrev pub is_free_inbound : CallArgs → Bool
  is_free_inbound opts =
      (text_is opts.source "inbound" || text_is opts.direction "inbound")
      && not (text_is opts.source "live_call")
      && is_ng_carrier opts.provider

  -- From a duration that is not zero on.
  unfoldable pub charge_seconds : Env → CallArgs → ℕ → Db → Result CallCharge × Db
  unfolding charge_wallet get_or_create_wallet
  charge_seconds env opts seconds db =
      if is_free_inbound opts
      then (ok inbound_ng_free, db)
      else elim (get_or_create_wallet env opts.tenant_id none db) [
        | err e ↦ (err e, db)
        | ok p ↦ charge_wallet env opts seconds p.0 p.1
      ]

  -- `chargeCall`
  unfoldable pub charge_call : Env → CallArgs → Db → Result CallCharge × Db
  unfolding charge_seconds
  charge_call env opts db = elim (billable opts.seconds) [
    | zero ↦ (ok zero_duration, db)
    | suc n ↦ charge_seconds env opts (suc n) db
  ]

-- What `chargeNumberProvision` returns.
pub data Provisioned : Type 0 where
  billed simulated : Provisioned
  refused : Error → Provisioned

-- The monthly fee of a number, without the workspace's own rates.
unfoldable pub provision_amount : Option Pricing → Currency → ℤ
unfolding ◌*ℤ◌
provision_amount none Currency.usd = pos 170
provision_amount none Currency.ngn = pos 272_000
provision_amount (some p) Currency.usd = p.did_monthly_usd_minor
provision_amount (some p) Currency.ngn = p.did_monthly_usd_minor *ℤ rate_or_default p.ngn_per_usd

-- `toISOString().slice(0, 7)`
unfoldable pub iso_month : ℕ → String
unfolding civil_of_days
iso_month t =
    let c = civil_of_days (t / day_ms) in
    concat (four_digits c.year) (concat "-" (two_digits c.month))

unfoldable pub provision_ref : String → ℕ → String
unfolding iso_month
provision_ref telnum now = concat "did_" (concat telnum (concat "_" (iso_month now)))

abbrev pub provision_meta : String → List (String × MetaValue)
provision_meta telnum = ("telnum", text telnum) ∷ ("kind", text "did_monthly") ∷ []

-- `chargeNumberProvision`, once there is a wallet.
unfoldable pub provision_wallet : Env → String → String → Wallet → Db → Provisioned × Db
unfolding provision_amount provision_ref sandbox_ledger_entry
provision_wallet env tenant_id telnum wallet db =
    let amount = provision_amount db.pricing wallet.currency in
    let reference = provision_ref telnum env.now in
    if is_sandbox tenant_id db
    then (
      simulated,
      (sandbox_ledger_entry env
          (record {
            tenant_id = tenant_id;
            amount_minor = amount;
            reason = "number_provision";
            reference = some (concat "sbx_" reference);
            meta = provision_meta telnum;
          })
          db).1,
    )
    else elim (debit_in_transaction env
        (record {
          tenant_id = tenant_id;
          amount_minor = int amount;
          reason = "number_provision";
          reference = some reference;
          meta = provision_meta telnum;
        })
        db) [ ok p ↦ (billed, p.1) | err e ↦ (refused e, db) ]

-- `chargeNumberProvision`
unfoldable pub charge_number_provision : Env → String → String → Db → Result Provisioned × Db
unfolding provision_wallet get_or_create_wallet
charge_number_provision env tenant_id telnum db =
    elim (get_or_create_wallet env tenant_id none db) [
      | err e ↦ (err e, db)
      | ok p ↦ let done = provision_wallet env tenant_id telnum p.0 p.1 in (ok done.0, done.1)
    ]
