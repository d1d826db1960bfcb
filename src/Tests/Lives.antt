-- ===== src/Tests/Lives.antt =====
-- A sandbox workspace that topped up 1000 in play money, spent 300 of it on a call, and goes live.
use telroi_ai_app.Base.{String, ◌≡◌, refl, inl, true, false, some, [], ◌∷◌, ◌==◌, if◌then◌else◌}
use telroi_ai_app.Base.Int.{neg, pos, ◌+ℤ◌, ◌-ℤ◌}
use telroi_ai_app.Plans.Chosen.{go_live_succeeds}
use telroi_ai_app.Plans.Request.{go_live}
use telroi_ai_app.Wallet.Spend.{can_spend}
use telroi_ai_app.Wallet.Debit.{
  trigger_auto_topup, move_debit, fresh_debit, apply_debit, debit_in_transaction,
}
use telroi_ai_app.Tests.Data.{acme_wallet, acme, env, db}
use telroi_ai_app.Plans.Activation.{
  balance_of, Activation, amount_to_clear, clear_sandbox, go_live_state, activate_workspace,
  is_live,
}
use telroi_ai_app.Db.{Role, credit, debit, Db, LedgerRow}
use telroi_ai_app.Base.Tx.{ok}
use telroi_ai_app.Plans.Request.{GoLive}
use telroi_ai_app.Db.{Plan}

abbrev play_credit : LedgerRow
play_credit = record {
  id = "l1";
  wallet_id = "w1";
  tenant_id = "t1";
  kind = credit;
  amount_minor = pos 1_000;
  balance_after_minor = pos 1_000;
  reason = "sandbox_topup";
  reference = some "sbx_1";
  meta = [];
  sandbox = true;
}

abbrev play_call : LedgerRow
play_call = record play_credit {
  id = "l2";
  kind = debit;
  amount_minor = pos 300;
  reason = "voice_minute";
  reference = some "sbx_2";
}

abbrev trial : Db
trial = record db {
  tenants = record acme { sandbox_mode = true } ∷ [];
  wallets = record acme_wallet { id = "w1"; tenant_id = "t1"; balance_minor = pos 1_000 } ∷ [];
  ledger = play_call ∷ play_credit ∷ [];
}

-- The call moved no money but is taken off the sum to clear, so 300 of the play money stay.
play_money_stays : balance_of "t1" (activate_workspace env (some "approved") "t1" trial).1 ≡ pos 300
unfolding activate_workspace go_live_state clear_sandbox amount_to_clear debit_in_transaction
    apply_debit fresh_debit move_debit trigger_auto_topup can_spend ◌+ℤ◌ ◌-ℤ◌ neg
    telroi_ai_app.AutoTopup.Policy.crossed_auto_topup_threshold
    telroi_ai_app.AutoTopup.Policy.provider_supports_wallet_currency
    telroi_ai_app.AutoTopup.Attempts.enqueue_auto_topup_attempt
    telroi_ai_app.AutoTopup.Attempts.auto_topup_attempt_key
play_money_stays = refl

still_waiting :
    (activate_workspace env (some "pending") "t1" trial).0 ≡ Activation.blocked "compliance_pending"
unfolding activate_workspace go_live_state
still_waiting = refl

abbrev lower_case : String → String
lower_case s = if s == "Nigeria" then "nigeria" else s

-- The owner, and a workspace in Nigeria.
abbrev asking : Db
asking = record trial {
  tenants =
      record acme { sandbox_mode = true; country = some "Nigeria"; plan_selected = false } ∷ [];
  memberships = record { tenant_id = "t1"; user_id = "u1"; role = Role.owner } ∷ [];
}

-- Compliance alone takes a workspace out of the sandbox, with no plan selected.
no_plan_needed :
    is_live "t1"
      (activate_workspace env
        (some "approved")
        "t1"
        (record asking { wallets = []; ledger = [] })).1
    ≡ true
unfolding activate_workspace go_live_state clear_sandbox amount_to_clear
no_plan_needed = refl

go_live_succeeds_example :
    ((go_live lower_case env "u1" (some "approved") "growth" "t1" asking).0 ≡ ok GoLive.went_live)
    × (is_live "t1" (go_live lower_case env "u1" (some "approved") "growth" "t1" asking).1 ≡ true)
go_live_succeeds_example =
    go_live_succeeds lower_case env "u1" "growth" "t1" Plan.growth
      (record { tenant_id = "t1"; user_id = "u1"; role = Role.owner })
      (record acme { sandbox_mode = true; country = some "Nigeria"; plan_selected = false }) asking
      refl refl refl refl refl (inl refl)
