-- ===== src/Tests/Callers.antt =====
-- A member of two departments, one of which allows calls and the other of which has the number.
use telroi_ai_app.Permissions.Callers.{can_call-MayCall, MayCall}
use telroi_ai_app.Tests.Data.{db}
use telroi_ai_app.Db.{Role, SubscriptionStatus, Db, NumberSubscription}
use telroi_ai_app.Permissions.Caps.{
  NumberIds, Permission, DepartmentMember, can_call_from_number, get_call_caps,
}
use telroi_ai_app.Base.{◌≡◌, refl, true, false, none, some, List, [], ◌∷◌}

abbrev row : DepartmentMember
row = record {
  department_id = "d1";
  tenant_id = "t1";
  user_id = "u1";
  can_make_calls = true;
  can_take_calls = false;
  can_operate = false;
}

abbrev rows : List DepartmentMember
rows = row ∷ record row { department_id = "d2"; can_make_calls = false } ∷ []

abbrev office : NumberSubscription
office = record {
  id = "n1";
  tenant_id = "t1";
  telnum = "+2341";
  channels = 1;
  status = SubscriptionStatus.active;
  next_billing_at = 0;
  last_billed_at = none;
  department_id = some "d2";
}

abbrev staffed : Db
staffed = record db {
  memberships = record { tenant_id = "t1"; user_id = "u1"; role = Role.member } ∷ [];
  number_subscriptions =
      office ∷ record office { id = "n2"; telnum = "+2342"; department_id = none } ∷ [];
}

unassigned :
    can_call_from_number "t1" "u1" "+2342" rows staffed
    ≡ Permission.refused "This number is not assigned to your team."
unfolding can_call_from_number get_call_caps
unassigned = refl

caps_of_u1 : (get_call_caps "t1" "u1" rows staffed).allowed_number_ids ≡ NumberIds.only ("n1" ∷ [])
unfolding get_call_caps
caps_of_u1 = refl

can_call-MayCall_example :
    (can_call_from_number "t1" "u1" "+2341" rows staffed ≡ Permission.allowed
      → MayCall "t1" "u1" "+2341" rows staffed)
    × (MayCall "t1" "u1" "+2341" rows staffed
        → can_call_from_number "t1" "u1" "+2341" rows staffed ≡ Permission.allowed)
can_call-MayCall_example = can_call-MayCall "t1" "u1" "+2341" rows staffed
