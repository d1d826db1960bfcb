-- ===== src/Tests/Unlocked.antt =====
-- Features of the startup workspace: one that is given by an override, one that the plan lacks.
use telroi_ai_app.Plans.Overrides.{override_decides}
use telroi_ai_app.Tests.Data.{acme, db}
use telroi_ai_app.Plans.Features.{
  ai_active, trial_active, effective_plan, entitled_features, entitlements_for, FeatureOverride,
  has_feature,
}
use telroi_ai_app.Base.{◌≡◌, refl, inl, inr, true, false, none, List, [], ◌∷◌}

abbrev granted : List FeatureOverride
granted = record { tenant_id = "t1"; feature_key = "live_call"; enabled = true } ∷ []

startup_features :
    (has_feature 0 "t1" "van" [] [] db ≡ true)
    × (has_feature 0 "t1" "crm" [] granted db ≡ false)
    × (ai_active 0 "t1" [] [] db ≡ none)
unfolding has_feature entitlements_for entitled_features effective_plan trial_active ai_active
startup_features = (refl, refl, refl)

override_decides_example : has_feature 0 "t1" "live_call" [] granted db ≡ true
override_decides_example =
    override_decides 0 "t1" "live_call" true [] granted acme db refl (inr (inl refl)) refl
