-- ===== src/Permissions/Caps.antt =====
-- server/utils/permissions.ts: the call capabilities of a user, and the numbers to call from.
use telroi_ai_app.Base.Rows.{find}
use telroi_ai_app.Db.{Membership, Db, NumberSubscription, Role}
use telroi_ai_app.Base.{
  String, Bool, true, false, ◌&&◌, ◌||◌, Option, none, some, List, [], ◌∷◌, is_present, or_else,
  ◌==◌, if◌then◌else◌,
}

-- A row of `department_members`.
pub record DepartmentMember : Type 0 where
  pub department_id : String
  pub tenant_id : String
  pub user_id : String
  pub can_make_calls : Bool
  pub can_take_calls : Bool
  pub can_operate : Bool

-- `string[] | 'all'`
pub data NumberIds : Type 0 where
  all_numbers : NumberIds
  only : List String → NumberIds

pub record CallCaps : Type 0 where
  pub role : Option Role
  pub make_calls : Bool
  pub take_calls : Bool
  pub operate : Bool
  pub department_ids : List String
  pub allowed_number_ids : NumberIds

-- `ok`, or the reason why not.
pub data Permission : Type 0 where
  allowed : Permission
  refused : String → Permission

module _ {ℓ} {A : Type ℓ} where
  -- `xs.some(p)`
  abbrev pub any : (A → Bool) → List A → Bool
  any p [] = false
  any p (x ∷ xs) = p x || any p xs

  abbrev pub rows_where : (A → Bool) → List A → List A
  rows_where p [] = []
  rows_where p (x ∷ xs) = if p x then x ∷ rows_where p xs else rows_where p xs

  abbrev pub column {κ} : {B : Type κ} → (A → B) → List A → List B
  column f [] = []
  column f (x ∷ xs) = f x ∷ column f xs

-- `ids.includes(id)`
abbrev pub includes : String → List String → Bool
includes id ids = any (λ i. i == id) ids

abbrev pub is_member_row : String → String → DepartmentMember → Bool
is_member_row tenant_id user_id d = d.tenant_id == tenant_id && d.user_id == user_id

-- A number of the workspace whose department is in the list.
abbrev pub is_number_of : String → List String → NumberSubscription → Bool
is_number_of tenant_id ids n =
    n.tenant_id == tenant_id && elim n.department_id [ none ↦ false | some d ↦ includes d ids ]

-- No department, no query.
abbrev pub number_ids_of : String → List String → List NumberSubscription → List String
number_ids_of tenant_id [] numbers = []
number_ids_of tenant_id (i ∷ ids) numbers =
    column (λ n. n.id) (rows_where (is_number_of tenant_id (i ∷ ids)) numbers)

abbrev pub every_cap : Role → CallCaps
every_cap role = record {
  role = some role;
  make_calls = true;
  take_calls = true;
  operate = true;
  department_ids = [];
  allowed_number_ids = NumberIds.all_numbers;
}

abbrev pub no_caps : CallCaps
no_caps = record {
  role = none;
  make_calls = false;
  take_calls = false;
  operate = false;
  department_ids = [];
  allowed_number_ids = NumberIds.only [];
}

-- What the rows of a member in `department_members` add up to.
abbrev pub member_caps : String → List DepartmentMember → List NumberSubscription → CallCaps
member_caps tenant_id rows numbers =
    let ids = column (λ d. d.department_id) rows in
    record {
      role = some Role.member;
      make_calls = any (λ d. d.can_make_calls) rows;
      take_calls = any (λ d. d.can_take_calls) rows;
      operate = any (λ d. d.can_operate) rows;
      department_ids = ids;
      allowed_number_ids = NumberIds.only (number_ids_of tenant_id ids numbers);
    }

abbrev pub membership_of : String → String → Db → Option Membership
membership_of tenant_id user_id db =
    find (λ m. m.tenant_id == tenant_id && m.user_id == user_id) db.memberships

abbrev pub role_caps : Role → String → List DepartmentMember → List NumberSubscription → CallCaps
role_caps Role.owner tenant_id rows numbers = every_cap Role.owner
role_caps Role.admin tenant_id rows numbers = every_cap Role.admin
role_caps Role.member tenant_id rows numbers = member_caps tenant_id rows numbers

-- `getCallCaps`
unfoldable pub get_call_caps : String → String → List DepartmentMember → Db → CallCaps
get_call_caps tenant_id user_id members db = elim (membership_of tenant_id user_id db) [
  | none ↦ no_caps
  | some m ↦
      role_caps m.role tenant_id (rows_where (is_member_row tenant_id user_id) members)
        db.number_subscriptions
]

abbrev pub number_of : String → String → Db → Option NumberSubscription
number_of tenant_id telnum db =
    find (λ n. n.tenant_id == tenant_id && n.telnum == telnum) db.number_subscriptions

-- `sub.departmentId && departmentIds.includes(sub.departmentId)`
abbrev pub is_in_departments : List String → NumberSubscription → Bool
is_in_departments ids n = is_present n.department_id && includes (or_else n.department_id "") ids

-- What is left to ask of a user who may make calls.
abbrev pub may_use : CallCaps → Option NumberSubscription → Permission
may_use caps number = elim caps.allowed_number_ids [
  | NumberIds.all_numbers ↦ Permission.allowed
  | NumberIds.only ids ↦ elim number [
    | none ↦ Permission.refused "Number not found on your account."
    | some n ↦
        if is_in_departments caps.department_ids n
        then Permission.allowed
        else Permission.refused "This number is not assigned to your team."
  ]
]

-- `canCallFromNumber`
unfoldable pub can_call_from_number :
    String → String → String → List DepartmentMember → Db → Permission
unfolding get_call_caps
can_call_from_number tenant_id user_id telnum members db =
    let caps = get_call_caps tenant_id user_id members db in
    if caps.make_calls
    then may_use caps (number_of tenant_id telnum db)
    else Permission.refused "You do not have permission to make calls."
