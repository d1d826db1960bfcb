-- ===== src/Plans/Chosen.antt =====
-- The request of server/api/go-live.post.ts: what must hold for a workspace to leave the sandbox.
use telroi_ai_app.Base.{
  String, ◌≡◌, refl, ap, ◌∙◌, ◌⊎◌, inl, inr, true, false, Option, some, eq_iff, Bool-cases, or_else,
  ◌==◌,
}
use telroi_ai_app.Db.{Plan}
use telroi_ai_app.Base.Tx.{ok}
use telroi_ai_app.Plans.Request.{is_nigerian, GoLive}
use telroi_ai_app.Plans.Rows.{on-ends, live_plan}
use telroi_ai_app.Plans.Live.{live_of}
use telroi_ai_app.Wallet.Balance.{IsBalanced}
use telroi_ai_app.Permissions.Caps.{membership_of}
use telroi_ai_app.Plans.Request.{go_live_with, can_pay, go_live, plan_of_text, is_owner}
use telroi_ai_app.Base.Rows.{find}
use telroi_ai_app.Plans.Activation.{go_live_state, is_live}
use telroi_ai_app.Db.{PaymentMethod, Role, Membership, Plan, tenant_of, Db, Env, Tenant}

-- What is true of a workspace that went live from a state to another.
pub record WentLive (lower : String → String) (user_id : String) (compliance : Option String)
    (body tenant_id : String) (s t : Db) : Type 0 where
  pub before : Tenant
  pub after : Tenant
  pub was_there : tenant_of tenant_id s ≡ some before
  pub is_there : tenant_of tenant_id t ≡ some after
  pub asked_by : Membership
  pub by_member : membership_of tenant_id user_id s ≡ some asked_by
  pub by_owner : asked_by.role ≡ Role.owner
  pub approved : compliance ≡ some "approved"
  pub plan :
      ((body ≡ "startup") × (after.plan ≡ Plan.startup))
      ⊎ ((body ≡ "growth") × (after.plan ≡ Plan.growth))
  pub selected : after.plan_selected ≡ true
  pub payable :
      (lower (or_else before.country "") ≡ "nigeria")
      ⊎ ((card : PaymentMethod) × (find (λ c. c.tenant_id == tenant_id) s.payment_methods
            ≡ some card))
  pub balanced : IsBalanced t

owner_asks :
    (tenant_id user_id : String) (db : Db) (m : Membership)
    → membership_of tenant_id user_id db ≡ some m
    → m.role ≡ Role.owner
    → is_owner tenant_id user_id db ≡ true
owner_asks tenant_id user_id db m found role = rw (found, is_owner, role) refl

pays :
    (lower : String → String) (tenant_id : String) (db : Db) (t : Tenant)
    → tenant_of tenant_id db ≡ some t
    → (lower (or_else t.country "") ≡ "nigeria")
      ⊎ ((card : PaymentMethod) × (find (λ c. c.tenant_id == tenant_id) db.payment_methods
            ≡ some card))
    → can_pay lower tenant_id db ≡ true
pays lower tenant_id db t found (inl at_home) =
    let nigerian = (eq_iff (lower (or_else t.country "")) "nigeria").1 at_home in
    rw (can_pay, is_nigerian, found, nigerian) refl
pays lower tenant_id db t found (inr (card, there)) =
    elim (Bool-cases (is_nigerian lower tenant_id db)) [
      | inl home ↦ rw (can_pay, home) refl
      | inr abroad ↦ rw (can_pay, abroad, there) refl
    ]

-- A request of the owner of a workspace in the sandbox for a plan that is offered goes through and
-- leaves the workspace live, if compliance is approved and the workspace is in Nigeria or has a saved
-- card.
pub go_live_succeeds :
    (lower : String → String) (env : Env) (user_id body tenant_id : String) (plan : Plan)
    (m : Membership) (t : Tenant) (db : Db)
    → tenant_of tenant_id db ≡ some t
    → t.sandbox_mode ≡ true
    → membership_of tenant_id user_id db ≡ some m
    → m.role ≡ Role.owner
    → plan_of_text body ≡ some plan
    → (lower (or_else t.country "") ≡ "nigeria")
      ⊎ ((card : PaymentMethod) × (find (λ c. c.tenant_id == tenant_id) db.payment_methods
            ≡ some card))
    → ((go_live lower env user_id (some "approved") body tenant_id db).0 ≡ ok GoLive.went_live)
      × (is_live tenant_id (go_live lower env user_id (some "approved") body tenant_id db).1 ≡ true)
unfolding go_live go_live_with go_live_state
go_live_succeeds lower env user_id body tenant_id plan m t db found sandbox by role asked payable =
    let ours = owner_asks tenant_id user_id db m by role in
    let pay = pays lower tenant_id db t found payable in
    let waiting : is_live tenant_id db ≡ false = ap live_of found ∙ rw sandbox refl in
    let (u, there, _, _, live) = live_plan env plan tenant_id db t found in
    let goes = on-ends env (some "approved") plan tenant_id db t found sandbox refl in
    rw (go_live, ours, asked, go_live_with, go_live_state, waiting, pay, goes)
      (refl, ap live_of there ∙ rw live refl)
