-- ===== src/Plans/Rows.antt =====
-- The rows that a request of server/api/go-live.post.ts reads and writes.
use telroi_ai_app.Base.{
  String, ◌≡◌, refl, sym, ap, ◌∙◌, ◌⊎◌, inl, inr, true, false, not, ◌||◌, Option, none, some, List,
  eq_iff, Option-cases, Bool-cases, is_present, or_else, arith, ◌==◌,
}
use telroi_ai_app.Base.Tx.{ok}
use telroi_ai_app.Plans.Request.{GoLive}
use telroi_ai_app.Plans.Live.{clear-tenants, live_of}
use telroi_ai_app.Permissions.Caps.{membership_of}
use telroi_ai_app.Base.Rows.{find-update, find-sat, update_where, find}
use telroi_ai_app.Plans.Request.{
  chosen_row, is_owner_role, is_still_trialing, choose_plan, is_nigerian, can_pay, is_owner,
  plan_of_text, go_live_on,
}
use telroi_ai_app.Plans.Activation.{
  Activation, live_row, trial_end, set_live, clear_sandbox, go_live_state, activate_workspace,
  is_live, status_or_none,
}
use telroi_ai_app.Db.{Role, PaymentMethod, Membership, tenant_of, Db, Env, Plan, Tenant}
use mathlib.Core.Bool.{cond}
use mathlib.Core.Option
use mathlib.Core.Option.{some-injective}

updated_row :
    (tenant_id : String) (f : Tenant → Tenant) (t : Tenant) (rows : List Tenant)
    → ((x : Tenant) → (f x).id ≡ x.id)
    → find (λ x. x.id == tenant_id) rows ≡ some t
    → find (λ x. x.id == tenant_id) (update_where (λ x. x.id == tenant_id) f rows) ≡ some (f t)
updated_row tenant_id f t rows same found =
    let own = find-sat (λ x. x.id == tenant_id) rows t found in
    find-update (λ x. x.id == tenant_id) (λ x. x.id == tenant_id) f rows
      (λ x. ap (λ i. i == tenant_id) (same x))
    ∙ ap (Option.map (λ x. cond (x.id == tenant_id) (f x) x)) found
    ∙ ap some (rw own refl)

pub live_plan :
    (env : Env) (plan : Plan) (tenant_id : String) (db : Db) (t : Tenant)
    → tenant_of tenant_id db ≡ some t
    → (u : Tenant) × (tenant_of tenant_id (
          clear_sandbox env tenant_id
            (set_live env.now tenant_id (choose_plan env.now plan tenant_id db)))
        ≡ some u)
      × (u.plan ≡ plan)
      × (u.plan_selected ≡ true)
      × (u.sandbox_mode ≡ false)
live_plan env plan tenant_id db t found =
    let still = is_still_trialing env.now (tenant_of tenant_id db) in
    let chosen = choose_plan env.now plan tenant_id db in
    let moved = set_live env.now tenant_id chosen in
    let row = chosen_row still plan t in
    let ends = trial_end env.now (tenant_of tenant_id chosen) in
    let here : tenant_of tenant_id chosen ≡ some row =
      updated_row tenant_id (chosen_row still plan) t db.tenants (λ x. refl) found in
    let there : tenant_of tenant_id moved ≡ some (live_row env.now ends row) =
      updated_row tenant_id (live_row env.now ends) row chosen.tenants (λ x. refl) here in
    (
      live_row env.now ends row,
      ap (find (λ x. x.id == tenant_id)) (clear-tenants env tenant_id moved) ∙ there,
      refl,
      refl,
      refl,
    )

pub owner_row :
    (tenant_id user_id : String) (db : Db)
    → is_owner tenant_id user_id db ≡ true
    → (m : Membership) × (membership_of tenant_id user_id db ≡ some m) × (m.role ≡ Role.owner)
owner_row tenant_id user_id db h = elim (Option-cases (membership_of tenant_id user_id db)) [
  | inl none_there ↦ absurd (ground (arith, rw (none_there, is_owner) at h))
  | inr (m, found) ↦ (m, found, role m.role (rw (found, is_owner) at h))
]
  where
    role : (r : Role) → is_owner_role r ≡ true → r ≡ Role.owner
    role Role.owner e = refl
    role Role.admin e = absurd (ground (arith, e))
    role Role.member e = absurd (ground (arith, e))

pub approved_status :
    (compliance : Option String)
    → status_or_none compliance == "approved" ≡ true
    → compliance ≡ some "approved"
approved_status none h = absurd (ground (arith, h))
approved_status (some s) h = elim (Bool-cases (is_present (some s))) [
  | inl given ↦ ap some ((eq_iff s "approved").0 (rw given at h))
  | inr empty ↦ absurd (ground (arith, rw empty at h))
]

pub offered_plan :
    (body : String) (plan : Plan)
    → plan_of_text body ≡ some plan
    → ((body ≡ "startup") × (plan ≡ Plan.startup)) ⊎ ((body ≡ "growth") × (plan ≡ Plan.growth))
offered_plan body plan h = elim (Bool-cases (body == "startup")) [
  | inl first ↦ inl (
    (eq_iff body "startup").0 first,
    sym (some-injective Plan.startup plan (rw (first, plan_of_text) at h)),
  )
  | inr a ↦ elim (Bool-cases (body == "growth")) [
    | inl second ↦ inr (
      (eq_iff body "growth").0 second,
      sym (some-injective Plan.growth plan (rw (a, second, plan_of_text) at h)),
    )
    | inr b ↦ absurd (ground (arith, rw (a, b, plan_of_text) at h))
  ]
]

pub sandbox_row :
    (tenant_id : String) (db : Db)
    → is_live tenant_id db ≡ false
    → (t : Tenant) × (tenant_of tenant_id db ≡ some t) × (t.sandbox_mode ≡ true)
sandbox_row tenant_id db h = elim (Option-cases (tenant_of tenant_id db)) [
  | inl gone ↦ absurd (ground (arith, rw (gone, is_live) at h))
  | inr (t, found) ↦
      let closed : not t.sandbox_mode ≡ false = rw (found, is_live) at h in
      (t, found, ground (arith, closed))
]

pub payable_row :
    (lower : String → String) (tenant_id : String) (db : Db) (t : Tenant)
    → tenant_of tenant_id db ≡ some t
    → can_pay lower tenant_id db ≡ true
    → (lower (or_else t.country "") ≡ "nigeria")
      ⊎ ((card : PaymentMethod) × (find (λ c. c.tenant_id == tenant_id) db.payment_methods
            ≡ some card))
payable_row lower tenant_id db t found h =
    let country = lower (or_else t.country "") in
    elim (Option-cases (find (λ c. c.tenant_id == tenant_id) db.payment_methods)) [
      | inr (card, there) ↦ inr (card, there)
      | inl no_card ↦
          let either : (country == "nigeria" || false) ≡ true =
            rw (no_card, can_pay, is_nigerian, found) at h in
          inl ((eq_iff country "nigeria").0 (ground (arith, either)))
    ]

pub on-ends :
    (env : Env) (compliance : Option String) (plan : Plan) (tenant_id : String) (db : Db)
    (t : Tenant)
    → tenant_of tenant_id db ≡ some t
    → t.sandbox_mode ≡ true
    → status_or_none compliance == "approved" ≡ true
    → go_live_on env compliance plan tenant_id db ≡ (
      ok GoLive.went_live,
      clear_sandbox env tenant_id
          (set_live env.now tenant_id (choose_plan env.now plan tenant_id db)),
    )
unfolding go_live_on activate_workspace go_live_state
on-ends env compliance plan tenant_id db t found sandbox approved =
    let still = is_still_trialing env.now (tenant_of tenant_id db) in
    let chosen = choose_plan env.now plan tenant_id db in
    let here : tenant_of tenant_id chosen ≡ some (chosen_row still plan t) =
      updated_row tenant_id (chosen_row still plan) t db.tenants (λ x. refl) found in
    let waiting : is_live tenant_id chosen ≡ false = ap live_of here ∙ rw sandbox refl in
    let activates : activate_workspace env compliance tenant_id chosen
        ≡ (Activation.activated, clear_sandbox env tenant_id (set_live env.now tenant_id chosen)) =
      rw (activate_workspace, go_live_state, waiting, approved) refl in
    rw (go_live_on, activates) (ap (λ p. (ok GoLive.went_live, p.1)) activates)
