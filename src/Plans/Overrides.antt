-- ===== src/Plans/Overrides.antt =====
-- An override of a feature of server/utils/entitlements.ts, against plan, trial and catalog.
use telroi_ai_app.Base.{
  ℕ, String, ◌≡◌, refl, sym, ap, subst, ◌⊎◌, inl, inr, Bool, true, none, some, List, [], ◌∷◌,
  eq_refl, eq_iff, Option-cases, Bool-cases, is_some, or_else, arith, ◌==◌,
}
use telroi_ai_app.Plans.Features.{
  effective_plan, overrides_of, entitlements_for, is_true, catalog_or_default, entitled_features,
  fill_bundle, has_feature, plan_allows, fill_features, override_for, Feature, FeatureOverride,
  feature_in, Features,
}
use telroi_ai_app.Db.{tenant_of, Db, Tenant, Plan}
use telroi_ai_app.Base.Rows.{find}

-- A field, if it is there, has the value.
abbrev OnlyIs : String → Bool → Features → Type 0
OnlyIs key b fs = (feature_in key fs ≡ none) ⊎ (feature_in key fs ≡ some b)

-- The field is there.
abbrev Has : String → Features → Type 0
Has key fs = is_some (feature_in key fs) ≡ true

add-OnlyIs :
    (key k : String) (v b : Bool) (fs : Features)
    → (k == key ≡ true → v ≡ b)
    → OnlyIs key b fs
    → OnlyIs key b ((k, v) ∷ fs)
add-OnlyIs key k v b fs value h = elim (Bool-cases (k == key)) [
  | inl here ↦ rw here (inr (ap some (value here)))
  | inr further ↦ rw further h
]

add-Has : (key k : String) (v : Bool) (fs : Features) → Has key fs → Has key ((k, v) ∷ fs)
add-Has key k v fs h = elim (Bool-cases (k == key)) [
  | inl here ↦ rw here refl
  | inr further ↦ rw further h
]

-- The value that an override gives to its own key.
overridden :
    (key k : String) (b other : Bool) (os : List FeatureOverride)
    → override_for key os ≡ some b
    → k == key ≡ true
    → or_else (override_for k os) other ≡ b
overridden key k b other os rules here =
    let own : override_for k os ≡ some b =
      subst (λ x. override_for x os ≡ some b) (sym ((eq_iff k key).0 here)) rules in
    rw own refl

fill-OnlyIs :
    (plan : Plan) (os : List FeatureOverride) (key : String) (b : Bool) (catalog : List Feature)
    (acc : Features)
    → override_for key os ≡ some b
    → OnlyIs key b acc
    → OnlyIs key b (fill_features plan os catalog acc)
fill-OnlyIs plan os key b [] acc rules h = h
fill-OnlyIs plan os key b (f ∷ fs) acc rules h =
    let v = or_else (override_for f.key os) (plan_allows plan f) in
    fill-OnlyIs plan os key b fs ((f.key, v) ∷ acc) rules
      (add-OnlyIs key f.key v b acc (overridden key f.key b (plan_allows plan f) os rules) h)

fill-Has :
    (plan : Plan) (os : List FeatureOverride) (key : String) (catalog : List Feature)
    (acc : Features)
    → Has key acc
    → Has key (fill_features plan os catalog acc)
fill-Has plan os key [] acc h = h
fill-Has plan os key (f ∷ fs) acc h =
    let v = or_else (override_for f.key os) (plan_allows plan f) in
    fill-Has plan os key fs ((f.key, v) ∷ acc) (add-Has key f.key v acc h)

listed-Has :
    (plan : Plan) (os : List FeatureOverride) (key : String) (catalog : List Feature) (f : Feature)
    (acc : Features)
    → find (λ x. x.key == key) catalog ≡ some f
    → Has key (fill_features plan os catalog acc)
listed-Has plan os key [] f acc h = absurd (ground (arith, h))
listed-Has plan os key (x ∷ xs) f acc h =
    let v = or_else (override_for x.key os) (plan_allows plan x) in
    elim (Bool-cases (x.key == key)) [
      | inl here ↦ fill-Has plan os key xs ((x.key, v) ∷ acc) (rw here refl)
      | inr further ↦
          let later : find (λ y. y.key == key) xs ≡ some f = rw further at h in
          listed-Has plan os key xs f ((x.key, v) ∷ acc) later
    ]

bundle-OnlyIs :
    (os : List FeatureOverride) (k key : String) (b : Bool) (fs : Features)
    → override_for key os ≡ some b
    → OnlyIs key b fs
    → OnlyIs key b (fill_bundle os k fs)
bundle-OnlyIs os k key b fs rules h = elim (Option-cases (feature_in k fs)) [
  | inr (v, there) ↦ rw (there, fill_bundle) h
  | inl missing ↦
      let other = is_true (feature_in "crm" fs) in
      rw (missing, fill_bundle)
        (add-OnlyIs key k (or_else (override_for k os) other) b fs
          (overridden key k b other os rules) h)
]

bundle-Has :
    (os : List FeatureOverride) (k key : String) (fs : Features)
    → Has key fs
    → Has key (fill_bundle os k fs)
bundle-Has os k key fs h = elim (Option-cases (feature_in k fs)) [
  | inr (v, there) ↦ rw (there, fill_bundle) h
  | inl missing ↦
      rw (missing, fill_bundle)
        (add-Has key k (or_else (override_for k os) (is_true (feature_in "crm" fs))) fs h)
]

bundled-Has : (os : List FeatureOverride) (k : String) (fs : Features) → Has k (fill_bundle os k fs)
bundled-Has os k fs = elim (Option-cases (feature_in k fs)) [
  | inr (v, there) ↦ rw (there, fill_bundle) (rw there refl)
  | inl missing ↦ rw (missing, fill_bundle, eq_refl k) refl
]

decided :
    (key : String) (b : Bool) (fs : Features)
    → OnlyIs key b fs
    → Has key fs
    → feature_in key fs ≡ some b
decided key b fs (inr here) h = here
decided key b fs (inl missing) h = absurd (ground (arith, missing, h))

-- A feature that the catalog lists, or that belongs to the bundle.
abbrev pub IsKnown : String → List Feature → Type 0
IsKnown key catalog =
    ((f : Feature) × (find (λ x. x.key == key) (catalog_or_default catalog) ≡ some f))
    ⊎ (key ≡ "live_call")
    ⊎ (key ≡ "apps")

known-Has :
    (plan : Plan) (catalog : List Feature) (os : List FeatureOverride) (key : String)
    → IsKnown key catalog
    → Has key (entitled_features plan catalog os)
unfolding entitled_features
known-Has plan catalog os key (inl (f, listed)) =
    let base = fill_features plan os (catalog_or_default catalog) [] in
    bundle-Has os "apps" key (fill_bundle os "live_call" base) (
      bundle-Has os "live_call" key base
        (listed-Has plan os key (catalog_or_default catalog) f [] listed))
known-Has plan catalog os key (inr (inl call)) =
    let base = fill_features plan os (catalog_or_default catalog) [] in
    bundle-Has os "apps" key (fill_bundle os "live_call" base) (
      subst (λ k. Has k (fill_bundle os "live_call" base)) (sym call)
        (bundled-Has os "live_call" base))
known-Has plan catalog os key (inr (inr apps)) =
    let base = fill_bundle os "live_call" (fill_features plan os (catalog_or_default catalog) []) in
    subst (λ k. Has k (fill_bundle os "apps" base)) (sym apps) (bundled-Has os "apps" base)

-- Where a workspace has an override of a feature that the catalog lists or the bundle has, the
-- override alone decides the feature, whatever the plan, the trial and the catalog's row say.
pub override_decides :
    (now : ℕ) (tenant_id key : String) (b : Bool) (catalog : List Feature)
    (os : List FeatureOverride) (t : Tenant) (db : Db)
    → tenant_of tenant_id db ≡ some t
    → IsKnown key catalog
    → override_for key (overrides_of tenant_id os) ≡ some b
    → has_feature now tenant_id key catalog os db ≡ b
unfolding has_feature entitlements_for entitled_features
override_decides now tenant_id key b catalog os t db found known rules =
    let mine = overrides_of tenant_id os in
    let plan = effective_plan now t in
    let base = fill_features plan mine (catalog_or_default catalog) [] in
    let only : OnlyIs key b (entitled_features plan catalog mine) =
      bundle-OnlyIs mine "apps" key b (fill_bundle mine "live_call" base) rules (
        bundle-OnlyIs mine "live_call" key b base rules
          (fill-OnlyIs plan mine key b (catalog_or_default catalog) [] rules (inl refl))) in
    let is_b : feature_in key (entitled_features plan catalog mine) ≡ some b =
      decided key b (entitled_features plan catalog mine) only
        (known-Has plan catalog mine key known) in
    rw (found, has_feature, entitlements_for, is_b) refl
