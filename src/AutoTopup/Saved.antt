-- ===== src/AutoTopup/Saved.antt =====
-- The validation of server/utils/auto-topup.ts, against a description of the amounts that may be
-- saved.
use telroi_ai_app.Base.{◌∙◌, subst, ap, &&-true, ◌&&◌, inl, inr}
use telroi_ai_app.Base.{◌&&◌, Bool-cases, arith, Option-cases, ◌↔◌, true, some, none, ◌≡◌, refl}
use telroi_ai_app.Base.Int.{leb_ℤ→le, ltb_ℤ→lt, leb_ℤ, ltb_ℤ, ◌≤ℤ◌, ◌<ℤ◌, ℤ, pos}
use telroi_ai_app.AutoTopup.Settings.{
  max_database_integer, column_integer, refill_problem, AutoTopupAmounts,
  validate_auto_topup_amounts,
}
use telroi_ai_app.Wallet.Spend.{Number, int, non_integer}

-- Amounts that may be saved: both whole, the threshold positive, and the refill above it, within the
-- limits.
abbrev pub AreAccepted : AutoTopupAmounts → ℤ → ℤ → Type 0
AreAccepted amounts minimum maximum =
    (t : ℤ) × (r : ℤ) × (amounts.threshold_minor ≡ int t)
    × (amounts.topup_amount_minor ≡ int r)
    × (pos 0 <ℤ t)
    × (t <ℤ r)
    × (minimum ≤ℤ r)
    × (r ≤ℤ maximum)
    × (r ≤ℤ max_database_integer)

column_integer-some :
    (n : Number) (k : ℤ)
    → column_integer n ≡ some k
    → (n ≡ int k) × (pos 0 <ℤ k) × (k ≤ℤ max_database_integer)
unfolding column_integer
column_integer-some (int m) k h =
    elim (Bool-cases (ltb_ℤ (pos 0) m && leb_ℤ m max_database_integer)) [
      | inl within ↦
          let same : m ≡ k = ground arith in
          let both = &&-true (ltb_ℤ (pos 0) m) (leb_ℤ m max_database_integer) within in
          (
            ap int same,
            subst (λ x. pos 0 <ℤ x) same (ltb_ℤ→lt (pos 0) m both.0),
            subst (λ x. x ≤ℤ max_database_integer) same (leb_ℤ→le m max_database_integer both.1),
          )
      | inr outside ↦ absurd (ground arith)
    ]
column_integer-some non_integer k h = absurd (ground arith)

column_integer-int :
    (k : ℤ) → pos 0 <ℤ k → k ≤ℤ max_database_integer → column_integer (int k) ≡ some k
unfolding column_integer
column_integer-int k h g =
    let fits : (ltb_ℤ (pos 0) k && leb_ℤ k max_database_integer) ≡ true = ground arith in
    rw (fits, column_integer) refl

refill_problem-none :
    (t r minimum maximum : ℤ)
    → refill_problem t r minimum maximum ≡ none
    → (t <ℤ r) × (minimum ≤ℤ r) × (r ≤ℤ maximum)
unfolding refill_problem
refill_problem-none t r minimum maximum h = (ground arith, ground arith, ground arith)

refill_problem-eq_none :
    (t r minimum maximum : ℤ)
    → t <ℤ r
    → minimum ≤ℤ r
    → r ≤ℤ maximum
    → refill_problem t r minimum maximum ≡ none
unfolding refill_problem
refill_problem-eq_none t r minimum maximum h g k = ground arith

pub validate-AreAccepted :
    (amounts : AutoTopupAmounts) (minimum maximum : ℤ)
    → validate_auto_topup_amounts amounts minimum maximum ≡ none
    → AreAccepted amounts minimum maximum
unfolding validate_auto_topup_amounts
validate-AreAccepted amounts minimum maximum h =
    elim (Option-cases (column_integer amounts.threshold_minor)) [
      | inl bad ↦ absurd (ground arith)
      | inr (t, is_t) ↦ elim (Option-cases (column_integer amounts.topup_amount_minor)) [
        | inl bad ↦ absurd (ground arith)
        | inr (r, is_r) ↦
            let at_t = column_integer-some amounts.threshold_minor t is_t in
            let at_r = column_integer-some amounts.topup_amount_minor r is_r in
            let within =
              refill_problem-none t r minimum maximum
                (rw (is_t, is_r, validate_auto_topup_amounts) at h) in
            (t, r, at_t.0, at_r.0, at_t.1, within.0, within.1, within.2, at_r.2)
      ]
    ]

-- The validation finds no problem exactly with a positive whole threshold and a whole refill above
-- it, where the refill is not below the minimum, not above the maximum and fits its column.
pub validate_iff :
    (amounts : AutoTopupAmounts) (minimum maximum : ℤ)
    → (validate_auto_topup_amounts amounts minimum maximum ≡ none)
      ↔ AreAccepted amounts minimum maximum
unfolding validate_auto_topup_amounts
validate_iff amounts minimum maximum = (
  validate-AreAccepted amounts minimum maximum,
  λ (t, r, is_t, is_r, h, g, k, l, m).
      let low : column_integer amounts.threshold_minor ≡ some t =
        ap column_integer is_t ∙ column_integer-int t h (omega arith) in
      let high : column_integer amounts.topup_amount_minor ≡ some r =
        ap column_integer is_r ∙ column_integer-int r (omega arith) m in
      rw (low, high, validate_auto_topup_amounts)
        (refill_problem-eq_none t r minimum maximum g k l),
)
