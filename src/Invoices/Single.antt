-- ===== src/Invoices/Single.antt =====
-- The number of open invoices of a workspace, under the operations of server/utils/invoicing.ts and
-- the payment of server/utils/wallet.ts.
use telroi_ai_app.Wallet.Credit.{CreditArgs}
use telroi_ai_app.Base.Rows.{count-eq_zero, count-update-le, find, count}
use telroi_ai_app.Invoices.Payment.{lift_suspension, paid_via_of, paid_invoice, settle_invoices}
use telroi_ai_app.Invoices.Rows.{open_invoice, update_invoices, is_open_of}
use telroi_ai_app.Invoices.Dunning.{
  is_reminded, days_left, same_count, DunningResult, dun_invoice, dun_all, dun_tenant,
}
use telroi_ai_app.Invoices.Sync.{
  new_invoice, patched_invoice, settled_invoice, insert_invoice, sync_debt,
}
use telroi_ai_app.Base.{
  not, ◌&&◌, ◌||◌, eq_iff, is_some, subst, ◌∷◌, Bool-cases, List, ℕ, zero, suc, Bool, true, Option,
  some, none, String, ◌≡◌, inl, inr, arith, ◌==◌, ◌≤◌, Option-cases, [],
}
use telroi_ai_app.Base.Int.{ℤ, pos, negsuc}
use telroi_ai_app.Base.Tx.{Result-cases, Ensures}
use telroi_ai_app.Db.{Db, Env, Tenant, Invoice, tenant_of}

-- Each workspace has at most one open invoice.
abbrev pub AreSingle : Db → Type 0
AreSingle db = (id : String) → count (is_open_of id) db.invoices ≤ 1

-- An update that opens no invoice.
update-AreSingle :
    (q : Invoice → Bool) (f : Invoice → Invoice) (db : Db)
    → ((id : String) (i : Invoice) → is_open_of id (f i) ≡ true → is_open_of id i ≡ true)
    → AreSingle db
    → AreSingle (update_invoices q f db)
update-AreSingle q f db keep h id =
    let fewer = count-update-le (is_open_of id) q f db.invoices (λ i _. keep id i) in
    let before = h id in omega arith

insert-AreSingle :
    (i : Invoice) (db : Db)
    → open_invoice i.tenant_id db ≡ none
    → AreSingle db
    → Ensures (λ _ t. AreSingle t) (insert_invoice i db)
unfolding insert_invoice
insert-AreSingle i db new h = elim (Option-cases (find (λ j. j.number == i.number) db.invoices)) [
  | inr (taken, e) ↦ rw (e, insert_invoice) tt
  | inl free ↦
      rw (free, insert_invoice)
        (λ id. elim (Bool-cases (i.tenant_id == id)) [
          | inl mine ↦
              let nothing : count (is_open_of id) db.invoices ≡ 0 =
                subst (λ x. count (is_open_of x) db.invoices ≡ 0) ((eq_iff i.tenant_id id).0 mine)
                  (count-eq_zero (is_open_of i.tenant_id) db.invoices new) in
              ground (arith, nothing)
          | inr other ↦ rw other (let before = h id in omega arith)
        ])
]

pub sync_debt-AreSingle :
    (env : Env) (now debt : ℕ) (t : Tenant) (o : Option Invoice) (db : Db)
    → open_invoice t.id db ≡ o
    → AreSingle db
    → Ensures (λ _ u. AreSingle u) (sync_debt env now t debt o db)
unfolding sync_debt
sync_debt-AreSingle env now zero t none db found h = h
sync_debt-AreSingle env now zero t (some i) db found h =
    update-AreSingle (λ j. j.id == i.id) (settled_invoice now) db
      (λ id j e. absurd (ground (arith, e))) h
sync_debt-AreSingle env now (suc n) t (some i) db found h =
    update-AreSingle (λ j. j.id == i.id) (patched_invoice t now (suc n) i) db (λ id j e. e) h
sync_debt-AreSingle env now (suc n) t none db found h =
    let made = insert-AreSingle (new_invoice env t now (suc n) db) db found h in
    elim (Result-cases (insert_invoice (new_invoice env t now (suc n) db) db)) [
      | inl (p, e) ↦ rw (e, sync_debt) (subst (Ensures (λ _ u. AreSingle u)) e made)
      | inr (x, e) ↦ rw (e, sync_debt) tt
    ]

pub settle-AreSingle :
    (env : Env) (args : CreditArgs) (b : ℤ) (db : Db)
    → AreSingle db
    → AreSingle (settle_invoices env args b db)
unfolding settle_invoices
settle-AreSingle env args (negsuc n) db h = h
settle-AreSingle env args (pos n) db h =
    update-AreSingle (is_open_of args.tenant_id) (paid_invoice env.now (paid_via_of args))
      (lift_suspension args.tenant_id db) (λ id i e. absurd (ground (arith, e))) h

dun_tenant-AreSingle :
    (now : ℕ) (i : Invoice) (t : Tenant) (days : ℕ) (r : DunningResult) (db : Db)
    → AreSingle db
    → AreSingle (dun_tenant now i t days r db).1
unfolding dun_tenant
dun_tenant-AreSingle now i t zero r db h = elim (Bool-cases (is_some t.billing_suspended_at)) [
  | inl done ↦ rw done h
  | inr active ↦ rw active h
]
dun_tenant-AreSingle now i t (suc days) r db h =
    elim (Bool-cases ((same_count days 2 || same_count days 0) && not (is_reminded i (suc days)))) [
      | inl due ↦ rw due (
          update-AreSingle (λ j. j.id == i.id) (λ j. record j { reminded_at = some now }) db
            (λ id j e. e) h)
      | inr quiet ↦ rw quiet h
    ]

pub dun_all-AreSingle :
    (now : ℕ) (is : List Invoice) (r : DunningResult) (db : Db)
    → AreSingle db
    → AreSingle (dun_all now is r db).1
unfolding dun_all dun_invoice
dun_all-AreSingle now [] r db h = h
dun_all-AreSingle now (i ∷ is) r db h = elim (Option-cases (tenant_of i.tenant_id db)) [
  | inl gone ↦ rw (gone, dun_all, dun_invoice) (dun_all-AreSingle now is r db h)
  | inr (t, e) ↦
      rw (e, dun_all, dun_invoice)
        (dun_all-AreSingle now is _ _
          (dun_tenant-AreSingle now i t (days_left i.due_at now) r db h))
]
