-- ===== src/Plans/Request.antt =====
-- server/api/go-live.post.ts: the owner's request to leave the sandbox, up to the activation. The
use telroi_ai_app.Base.{
  ℕ, String, Bool, true, false, not, ◌||◌, Option, none, some, is_some, or_else, ◌==◌,
  if◌then◌else◌,
}
use telroi_ai_app.Permissions.Caps.{membership_of}
use telroi_ai_app.Plans.Features.{trial_active}
use telroi_ai_app.Base.Rows.{update_where, find}
use telroi_ai_app.Db.{Role, Tenant, tenant_of, Db, Env, Plan}
use telroi_ai_app.Plans.Activation.{Activation, activate_workspace, go_live_state}
use telroi_ai_app.Base.Tx.{ok, err, api, Result}

-- provisioning and the log that follow it are left out.

pub data GoLive : Type 0 where
  already_live went_live : GoLive

abbrev pub is_owner_role : Role → Bool
is_owner_role Role.owner = true
is_owner_role Role.admin = false
is_owner_role Role.member = false

-- `requireTenantOwner`, for a user with a session of the workspace
abbrev pub is_owner : String → String → Db → Bool
is_owner tenant_id user_id db = elim (membership_of tenant_id user_id db) [
  | none ↦ false
  | some m ↦ is_owner_role m.role
]

-- `Body`
abbrev pub plan_of_text : String → Option Plan
plan_of_text text =
    if text == "startup"
    then some Plan.startup
    else if text == "growth"
    then some Plan.growth
    else none

-- The choice of the plan; a trial that is over is cleared.
abbrev pub chosen_row : Bool → Plan → Tenant → Tenant
chosen_row still_trialing plan t = record t {
  plan = plan;
  plan_selected = true;
  trial_plan = if still_trialing then t.trial_plan else none;
  trial_ends_at = if still_trialing then t.trial_ends_at else none;
}

abbrev pub is_still_trialing : ℕ → Option Tenant → Bool
is_still_trialing now none = false
is_still_trialing now (some t) = trial_active now t

abbrev pub choose_plan : ℕ → Plan → String → Db → Db
choose_plan now plan tenant_id db =
    let still = is_still_trialing now (tenant_of tenant_id db) in
    record db { tenants = update_where (λ t. t.id == tenant_id) (chosen_row still plan) db.tenants }

-- From the choice of the plan on.
unfoldable pub go_live_on : Env → Option String → Plan → String → Db → Result GoLive × Db
unfolding activate_workspace
go_live_on env compliance plan tenant_id db =
    let res = activate_workspace env compliance tenant_id (choose_plan env.now plan tenant_id db) in
    elim res.0 [
      | Activation.activated ↦ (ok GoLive.went_live, res.1)
      | Activation.blocked reason ↦ (err (api reason 400), res.1)
    ]

-- `tenant?.country || ''`
abbrev pub country_of : Option Tenant → String
country_of none = ""
country_of (some t) = or_else t.country ""

module _ (lower : String → String) where
  -- Nigerian workspaces pay by transfer; `lower` is `toLowerCase`.
  abbrev pub is_nigerian : String → Db → Bool
  is_nigerian tenant_id db = lower (country_of (tenant_of tenant_id db)) == "nigeria"

  abbrev pub can_pay : String → Db → Bool
  can_pay tenant_id db =
      is_nigerian tenant_id db || is_some (find (λ c. c.tenant_id == tenant_id) db.payment_methods)

  -- With a plan.
  unfoldable pub go_live_with : Env → Option String → Plan → String → Db → Result GoLive × Db
  unfolding go_live_state go_live_on
  go_live_with env compliance plan tenant_id db =
      let state = go_live_state compliance tenant_id db in
      if state.live
      then (ok GoLive.already_live, db)
      else if not state.approved
      then (err (api (or_else state.blocked_reason "not_approved") 403), db)
      else if can_pay tenant_id db
      then go_live_on env compliance plan tenant_id db
      else (err (api "card_required" 402), db)

  -- The handler.
  unfoldable pub go_live : Env → String → Option String → String → String → Db → Result GoLive × Db
  unfolding go_live_with
  go_live env user_id compliance body tenant_id db =
      if is_owner tenant_id user_id db
      then elim (plan_of_text body) [
        | none ↦ (err (api "invalid" 400), db)
        | some plan ↦ go_live_with env compliance plan tenant_id db
      ]
      else (err (api "forbidden" 403), db)
