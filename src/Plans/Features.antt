-- ===== src/Plans/Features.antt =====
-- server/utils/entitlements.ts: the effective plan, and the features of a workspace.
use telroi_ai_app.Invoices.Dunning.{days_left}
use telroi_ai_app.Billing.Plans.{is_on_trial}
use telroi_ai_app.Db.{tenant_of, Db, Plan, Tenant}
use telroi_ai_app.Base.{
  ℕ, String, Bool, true, false, not, ◌&&◌, ◌||◌, Option, none, some, List, [], ◌∷◌, is_some,
  or_else, ◌==◌, if◌then◌else◌,
}

-- A row of `plan_features`, without its label.
pub record Feature : Type 0 where
  pub key : String
  pub startup : Bool
  pub growth : Bool
  pub custom : Bool

-- A row of `tenant_feature_overrides`.
pub record FeatureOverride : Type 0 where
  pub tenant_id : String
  pub feature_key : String
  pub enabled : Bool

abbrev on_all : String → Feature
on_all key = record { key = key; startup = true; growth = true; custom = true }

abbrev from_growth : String → Feature
from_growth key = record { key = key; startup = false; growth = true; custom = true }

abbrev custom_only : String → Feature
custom_only key = record { key = key; startup = false; growth = false; custom = true }

-- `DEFAULT_FEATURES`
abbrev pub default_features : List Feature
default_features =
    on_all "van"
    ∷ on_all "recording"
    ∷ on_all "api"
    ∷ on_all "optimize"
    ∷ on_all "routing"
    ∷ on_all "numbers"
    ∷ on_all "multilang"
    ∷ from_growth "crm"
    ∷ from_growth "notifications"
    ∷ from_growth "live_call"
    ∷ from_growth "apps"
    ∷ from_growth "dialer"
    ∷ from_growth "messenger"
    ∷ from_growth "subdomain"
    ∷ from_growth "summaries"
    ∷ from_growth "team"
    ∷ from_growth "priority"
    ∷ custom_only "onboarding"
    ∷ custom_only "compliance_support"
    ∷ custom_only "whitelabel"
    ∷ []

-- `trialActive`
unfoldable pub trial_active : ℕ → Tenant → Bool
trial_active now t = is_some t.trial_plan && is_on_trial now t

-- `effectivePlan`
unfoldable pub effective_plan : ℕ → Tenant → Plan
unfolding trial_active
effective_plan now t = if trial_active now t then or_else t.trial_plan t.plan else t.plan

-- `trialDaysLeft`
unfoldable pub trial_days_left : ℕ → Tenant → ℕ
trial_days_left now t = elim t.trial_ends_at [ none ↦ 0 | some ends ↦ days_left ends now ]

abbrev pub plan_allows : Plan → Feature → Bool
plan_allows Plan.startup f = f.startup
plan_allows Plan.growth f = f.growth
plan_allows Plan.custom f = f.custom

-- The fields of a JavaScript object, the newest first.
abbrev pub Features : Type 0
Features = List (String × Bool)

abbrev pub feature_in : String → Features → Option Bool
feature_in key [] = none
feature_in key ((k, v) ∷ fs) = if k == key then some v else feature_in key fs

-- `ovMap.get(key)`, where the workspace has an override
abbrev pub override_for : String → List FeatureOverride → Option Bool
override_for key [] = none
override_for key (o ∷ os) = elim (override_for key os) [
  | some later ↦ some later
  | none ↦ if o.feature_key == key then some o.enabled else none
]

-- The loop over the catalog.
abbrev pub fill_features : Plan → List FeatureOverride → List Feature → Features → Features
fill_features plan os [] acc = acc
fill_features plan os (f ∷ fs) acc =
    fill_features plan os fs ((f.key, or_else (override_for f.key os) (plan_allows plan f)) ∷ acc)

abbrev pub is_true : Option Bool → Bool
is_true none = false
is_true (some b) = b

-- A feature of the bundle that the catalog does not list follows the CRM.
abbrev pub fill_bundle : List FeatureOverride → String → Features → Features
fill_bundle os key fs = elim (feature_in key fs) [
  | some b ↦ fs
  | none ↦ (key, or_else (override_for key os) (is_true (feature_in "crm" fs))) ∷ fs
]

-- The defaults stand in for a catalog that is empty.
abbrev pub catalog_or_default : List Feature → List Feature
catalog_or_default [] = default_features
catalog_or_default (f ∷ fs) = f ∷ fs

-- The overrides of a workspace.
abbrev pub overrides_of : String → List FeatureOverride → List FeatureOverride
overrides_of tenant_id [] = []
overrides_of tenant_id (o ∷ os) =
    if o.tenant_id == tenant_id then o ∷ overrides_of tenant_id os else overrides_of tenant_id os

-- `features` of `entitlementsFor`, for a workspace that is there
unfoldable pub entitled_features : Plan → List Feature → List FeatureOverride → Features
entitled_features plan catalog os =
    fill_bundle os "apps"
      (fill_bundle os "live_call" (fill_features plan os (catalog_or_default catalog) []))

-- `entitlementsFor`: the plan and the features.
unfoldable pub entitlements_for :
    ℕ → String → List Feature → List FeatureOverride → Db → Plan × Features
unfolding entitled_features effective_plan
entitlements_for now tenant_id catalog os db = elim (tenant_of tenant_id db) [
  | none ↦ (Plan.startup, [])
  | some t ↦
      let plan = effective_plan now t in
      (plan, entitled_features plan catalog (overrides_of tenant_id os))
]

abbrev pub is_bundled : String → Bool
is_bundled key = key == "live_call" || key == "apps"

-- `hasFeature`
unfoldable pub has_feature : ℕ → String → String → List Feature → List FeatureOverride → Db → Bool
unfolding entitlements_for
has_feature now tenant_id key catalog os db =
    let features = (entitlements_for now tenant_id catalog os db).1 in
    elim (feature_in key features) [
      | some b ↦ b
      | none ↦ is_bundled key && is_true (feature_in "crm" features)
    ]

-- `aiActive`: nothing where it is active, or the reason.
unfoldable pub ai_active : ℕ → String → List Feature → List FeatureOverride → Db → Option String
unfolding has_feature
ai_active now tenant_id catalog os db = elim (tenant_of tenant_id db) [
  | none ↦ some "no_workspace"
  | some t ↦
      if t.is_internal
      then none
      else if not t.plan_selected
      then some "no_plan"
      else if has_feature now tenant_id "van" catalog os db
      then none
      else some "not_entitled"
]
