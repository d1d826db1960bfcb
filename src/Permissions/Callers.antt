-- ===== src/Permissions/Callers.antt =====
-- canCallFromNumber of server/utils/permissions.ts, against the rows of the departments.
use telroi_ai_app.Base.{
  &&-true, String, ◌≡◌, refl, sym, ap, ◌∙◌, ◌≢◌, inl, inr, Bool, true, ◌&&◌, ◌||◌, Option, none,
  some, List, [], ◌∷◌, Option-cases, Bool-cases, is_present, or_else, arith, ◌==◌, if◌then◌else◌,
}
use telroi_ai_app.Db.{NumberSubscription, Role, Membership, Db}
use telroi_ai_app.Base.Rows.{Any}
use telroi_ai_app.Permissions.Caps.{
  get_call_caps, Permission, can_call_from_number, includes, number_of, membership_of, column,
  is_member_row, rows_where, DepartmentMember, any,
}

module _ {ℓ} {A : Type ℓ} where
  any-where : (p q : A → Bool) (xs : List A) → any p (rows_where q xs) ≡ any (λ x. q x && p x) xs
  any-where p q [] = refl
  any-where p q (x ∷ xs) = ground (arith, any-where p q xs)

  any-column {κ} :
      {B : Type κ}
      → (p : B → Bool) (f : A → B) (xs : List A) → any p (column f xs) ≡ any (λ x. p (f x)) xs
  any-column p f [] = refl
  any-column p f (x ∷ xs) = ap (λ b. p (f x) || b) (any-column p f xs)

  any-Any : (p : A → Bool) (xs : List A) → any p xs ≡ true → Any (λ x. p x ≡ true) xs
  any-Any p [] h = absurd (ground arith)
  any-Any p (x ∷ xs) h = elim (Bool-cases (p x)) [
    | inl here ↦ inl here
    | inr further ↦ inr (any-Any p xs (rw further at h))
  ]

  Any-any : (p : A → Bool) (xs : List A) → Any (λ x. p x ≡ true) xs → any p xs ≡ true
  Any-any p [] none_there = absurd none_there
  Any-any p (x ∷ xs) (inl here) = rw here refl
  Any-any p (x ∷ xs) (inr later) = ground (arith, Any-any p xs later)

-- A row that lets the user call.
abbrev pub makes_calls : String → String → DepartmentMember → Bool
makes_calls tenant_id user_id d = is_member_row tenant_id user_id d && d.can_make_calls

-- A row of the user in a department.
abbrev pub is_row_in : String → String → String → DepartmentMember → Bool
is_row_in tenant_id user_id department d =
    is_member_row tenant_id user_id d && d.department_id == department

-- Who may call from a number of a workspace: its owners and administrators, and a member who has
-- a row that allows calls and a row in the department that the number belongs to.
pub data MayCall (tenant_id user_id telnum : String) (members : List DepartmentMember) (db : Db)
    : Type 0 where
  as_owner :
      (m : Membership)
      → membership_of tenant_id user_id db ≡ some m
      → m.role ≢ Role.member
      → MayCall tenant_id user_id telnum members db
  as_member :
      (m : Membership) (n : NumberSubscription)
      → membership_of tenant_id user_id db ≡ some m
      → m.role ≡ Role.member
      → Any (λ d. makes_calls tenant_id user_id d ≡ true) members
      → number_of tenant_id telnum db ≡ some n
      → is_present n.department_id ≡ true
      → Any (λ d. is_row_in tenant_id user_id (or_else n.department_id "") d ≡ true) members
      → MayCall tenant_id user_id telnum members db

-- The two questions that are asked of a member's rows, asked of the whole table.
makes_calls-rows :
    (tenant_id user_id : String) (members : List DepartmentMember)
    → any (λ d. d.can_make_calls) (rows_where (is_member_row tenant_id user_id) members)
      ≡ any (makes_calls tenant_id user_id) members
makes_calls-rows tenant_id user_id members =
    any-where (λ d. d.can_make_calls) (is_member_row tenant_id user_id) members

includes-rows :
    (tenant_id user_id department : String) (members : List DepartmentMember)
    → includes department
        (column (λ d. d.department_id) (rows_where (is_member_row tenant_id user_id) members))
      ≡ any (is_row_in tenant_id user_id department) members
includes-rows tenant_id user_id department members =
    any-column (λ i. i == department) (λ d. d.department_id)
      (rows_where (is_member_row tenant_id user_id) members)
    ∙ any-where (λ d. d.department_id == department) (is_member_row tenant_id user_id) members

-- What the code answers a member.
abbrev member_answer :
    String → String → List DepartmentMember → Option NumberSubscription → Permission
member_answer tenant_id user_id members number =
    if any (makes_calls tenant_id user_id) members
    then elim number [
      | none ↦ Permission.refused "Number not found on your account."
      | some n ↦
          if is_present n.department_id
            && any (is_row_in tenant_id user_id (or_else n.department_id "")) members
          then Permission.allowed
          else Permission.refused "This number is not assigned to your team."
    ]
    else Permission.refused "You do not have permission to make calls."

member-answer :
    (tenant_id user_id telnum : String) (members : List DepartmentMember) (db : Db) (m : Membership)
    → membership_of tenant_id user_id db ≡ some m
    → m.role ≡ Role.member
    → can_call_from_number tenant_id user_id telnum members db
      ≡ member_answer tenant_id user_id members (number_of tenant_id telnum db)
unfolding can_call_from_number get_call_caps
member-answer tenant_id user_id telnum members db m found role =
    let calls = makes_calls-rows tenant_id user_id members in
    elim (Option-cases (number_of tenant_id telnum db)) [
      | inl missing ↦ rw (found, can_call_from_number, get_call_caps, role, missing, calls) refl
      | inr (n, there) ↦
          let placed = includes-rows tenant_id user_id (or_else n.department_id "") members in
          rw (found, can_call_from_number, get_call_caps, role, there, calls, placed) refl
    ]

member-MayCall :
    (tenant_id user_id telnum : String) (members : List DepartmentMember) (db : Db) (m : Membership)
    → membership_of tenant_id user_id db ≡ some m
    → m.role ≡ Role.member
    → member_answer tenant_id user_id members (number_of tenant_id telnum db) ≡ Permission.allowed
    → MayCall tenant_id user_id telnum members db
member-MayCall tenant_id user_id telnum members db m found role h =
    elim (Option-cases (number_of tenant_id telnum db)) [
      | inl missing ↦ absurd (ground (arith, rw missing at h))
      | inr (n, there) ↦
          let h' = rw there at h in
          let calls : any (makes_calls tenant_id user_id) members ≡ true = ground (arith, h') in
          let d = or_else n.department_id "" in
          let placed : (is_present n.department_id && any (is_row_in tenant_id user_id d) members)
              ≡ true =
            ground (arith, h', calls) in
          let both =
            &&-true (is_present n.department_id) (any (is_row_in tenant_id user_id d) members)
              placed in
          as_member m n found role (any-Any (makes_calls tenant_id user_id) members calls) there
            both.0 (any-Any (is_row_in tenant_id user_id d) members both.1)
    ]

owner-answer :
    (tenant_id user_id telnum : String) (members : List DepartmentMember) (db : Db) (m : Membership)
    → membership_of tenant_id user_id db ≡ some m
    → m.role ≢ Role.member
    → can_call_from_number tenant_id user_id telnum members db ≡ Permission.allowed
unfolding can_call_from_number get_call_caps
owner-answer tenant_id user_id telnum members db m found high = go m.role refl
  where
    go :
        (role : Role)
        → m.role ≡ role
        → can_call_from_number tenant_id user_id telnum members db ≡ Permission.allowed
    go Role.owner e = rw (found, can_call_from_number, get_call_caps, e) refl
    go Role.admin e = rw (found, can_call_from_number, get_call_caps, e) refl
    go Role.member e = absurd (high e)

allowed-MayCall :
    (tenant_id user_id telnum : String) (members : List DepartmentMember) (db : Db)
    → can_call_from_number tenant_id user_id telnum members db ≡ Permission.allowed
    → MayCall tenant_id user_id telnum members db
unfolding can_call_from_number get_call_caps
allowed-MayCall tenant_id user_id telnum members db h =
    elim (Option-cases (membership_of tenant_id user_id db)) [
      | inl missing ↦
          absurd (ground (arith, rw (missing, can_call_from_number, get_call_caps) at h))
      | inr (m, found) ↦ go m found m.role refl
    ]
  where
    go :
        (m : Membership)
        → membership_of tenant_id user_id db ≡ some m
        → (role : Role) → m.role ≡ role
        → MayCall tenant_id user_id telnum members db
    go m found Role.owner e = as_owner m found (λ o. absurd (ground (arith, e, o)))
    go m found Role.admin e = as_owner m found (λ o. absurd (ground (arith, e, o)))
    go m found Role.member e =
        member-MayCall tenant_id user_id telnum members db m found e
          (sym (member-answer tenant_id user_id telnum members db m found e) ∙ h)

MayCall-allowed :
    (tenant_id user_id telnum : String) (members : List DepartmentMember) (db : Db)
    → MayCall tenant_id user_id telnum members db
    → can_call_from_number tenant_id user_id telnum members db ≡ Permission.allowed
MayCall-allowed tenant_id user_id telnum members db (as_owner m found high) =
    owner-answer tenant_id user_id telnum members db m found high
MayCall-allowed tenant_id user_id telnum members db
      (as_member m n found role calls there present placed) =
    let yes = Any-any (makes_calls tenant_id user_id) members calls in
    let in_it = Any-any (is_row_in tenant_id user_id (or_else n.department_id "")) members placed in
    member-answer tenant_id user_id telnum members db m found role
    ∙ rw (there, yes, present, in_it) refl

-- A user is allowed to call from a number exactly where `MayCall` holds: as an owner or an
-- administrator of the workspace, whatever the number, or as a member with a row that allows calls
-- and a row in the department of the workspace's number.
pub can_call-MayCall :
    (tenant_id user_id telnum : String) (members : List DepartmentMember) (db : Db)
    → (can_call_from_number tenant_id user_id telnum members db ≡ Permission.allowed
        → MayCall tenant_id user_id telnum members db)
      × (MayCall tenant_id user_id telnum members db
          → can_call_from_number tenant_id user_id telnum members db ≡ Permission.allowed)
can_call-MayCall tenant_id user_id telnum members db = (
  allowed-MayCall tenant_id user_id telnum members db,
  MayCall-allowed tenant_id user_id telnum members db,
)
