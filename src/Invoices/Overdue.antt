-- ===== src/Invoices/Overdue.antt =====
-- Whom `runDunning` of server/utils/invoicing.ts suspends.
use telroi_ai_app.Invoices.Rows.{is_unpaid, is_open_of}
use telroi_ai_app.Base.Rows.{find-sat, find-update_other, All}
use telroi_ai_app.Db.{tenant_of, Db, Tenant, Invoice}
use telroi_ai_app.Invoices.Dunning.{
  is_reminded, same_count, DunningResult, open_invoices, dun_invoice, days_left, dun_all,
  dun_tenant, run_dunning,
}
use telroi_ai_app.Base.{
  eq_refl, eq_iff, is_some, Bool-cases, Option-cases, ℕ, zero, suc, ◌-◌, ◌<◌, String, ◌≡◌, refl,
  sym, ◌∙◌, inl, inr, true, not, ◌&&◌, ◌||◌, some, List, [], ◌∷◌, arith, ◌==◌,
}

-- No open invoice of the workspace is due.
abbrev pub NoneDue : String → ℕ → List Invoice → Type 0
NoneDue id now is = All (λ i. is_open_of id i ≡ true → now < i.due_at) is

day_left : (due now : ℕ) → now < due → (k : ℕ) × (days_left due now ≡ suc k)
day_left due now h = (days_left due now - 1, omega arith)

-- The body of the loop leaves the workspace alone.
dun_tenant_spares :
    (id : String) (now : ℕ) (i : Invoice) (t : Tenant) (days : ℕ) (r : DunningResult) (db : Db)
    → (t.id ≡ id → (k : ℕ) × (days ≡ suc k))
    → tenant_of id (dun_tenant now i t days r db).1 ≡ tenant_of id db
unfolding dun_tenant
dun_tenant_spares id now i t zero r db h = elim (Bool-cases (is_some t.billing_suspended_at)) [
  | inl done ↦ rw done refl
  | inr active ↦ rw active (
      find-update_other (λ x. x.id == id) (λ x. x.id == t.id)
        (λ x. record x { billing_suspended_at = some now }) db.tenants (λ x. refl)
        (λ x mine. elim (Bool-cases (x.id == t.id)) [
          | inr other ↦ other
          | inl same ↦
              let own : t.id ≡ id = sym ((eq_iff x.id t.id).0 same) ∙ (eq_iff x.id id).0 mine in
              let late = h own in absurd (omega (arith, late.1))
        ]))
]
dun_tenant_spares id now i t (suc days) r db h =
    elim (Bool-cases ((same_count days 2 || same_count days 0) && not (is_reminded i (suc days)))) [
      | inl due ↦ rw due refl
      | inr quiet ↦ rw quiet refl
    ]

dun_all_spares :
    (id : String) (now : ℕ) (is : List Invoice) (r : DunningResult) (db : Db)
    → All (λ i. i.tenant_id ≡ id → now < i.due_at) is
    → tenant_of id (dun_all now is r db).1 ≡ tenant_of id db
unfolding dun_all dun_invoice
dun_all_spares id now [] r db h = refl
dun_all_spares id now (i ∷ is) r db h = elim (Option-cases (tenant_of i.tenant_id db)) [
  | inl gone ↦ rw (gone, dun_all, dun_invoice) (dun_all_spares id now is r db h.1)
  | inr (t, e) ↦
      let found : t.id ≡ i.tenant_id =
        (eq_iff t.id i.tenant_id).0 (find-sat (λ x. x.id == i.tenant_id) db.tenants t e) in
      rw (e, dun_all, dun_invoice)
        (dun_all_spares id now is _ _ h.1
          ∙ dun_tenant_spares id now i t (days_left i.due_at now) r db
              (λ own. day_left i.due_at now (h.0 (sym found ∙ own))))
]

open_NoneDue :
    (id : String) (now : ℕ) (is : List Invoice)
    → NoneDue id now is
    → All (λ i. i.tenant_id ≡ id → now < i.due_at) (open_invoices is)
open_NoneDue id now [] h = tt
open_NoneDue id now (i ∷ is) h = elim (Bool-cases (is_unpaid i.status)) [
  | inl unpaid ↦
      rw unpaid ((λ own. h.0 (rw (own, unpaid, eq_refl id) refl)), open_NoneDue id now is h.1)
  | inr closed ↦ rw closed (open_NoneDue id now is h.1)
]

-- A reminder run leaves a workspace as it is, suspension included, if none of its open invoices is
-- due.
pub dunning_spares :
    (id : String) (now : ℕ) (db : Db)
    → NoneDue id now db.invoices
    → tenant_of id (run_dunning now db).1 ≡ tenant_of id db
unfolding run_dunning
dunning_spares id now db h =
    dun_all_spares id now (open_invoices db.invoices) (record { reminded = 0; suspended = 0 }) db
      (open_NoneDue id now db.invoices h)
