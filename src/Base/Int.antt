-- ===== src/Base/Int.antt =====
-- Integers over the native numbers, for amounts in kobo or cents.
use Prim.Native.Nat.{ℕ, suc, ◌+◌, ◌*◌, ◌-◌, ◌≤◌, ◌<◌, compare, Ordering}
use mathlib.Core.Path.{◌≡◌}
use mathlib.Core.Bool.{Bool, true, false, ◌&&◌, cond}
use native.Mathlib.Omega.{arith}

-- `negsuc n` is -(n + 1).
pub data ℤ : Type 0 where
  pos : ℕ → ℤ
  negsuc : ℕ → ℤ

abbrev pub pos_part : ℤ → ℕ
pos_part (pos n) = n
pos_part (negsuc n) = 0

abbrev pub neg_part : ℤ → ℕ
neg_part (pos n) = 0
neg_part (negsuc n) = suc n

abbrev le_test : ℕ → ℕ → Bool
le_test a b = elim (compare a b) [ Ordering.gt ↦ false | _ ↦ true ]

-- a - b, as an integer.
abbrev pub sub_ℕ : ℕ → ℕ → ℤ
sub_ℕ a b = cond (le_test b a) (pos (a - b)) (negsuc (b - a - 1))

infixl 65 ◌+ℤ◌ ◌-ℤ◌
infix 50 ◌≤ℤ◌ ◌<ℤ◌
unfoldable pub ◌+ℤ◌ : ℤ → ℤ → ℤ
a +ℤ b = sub_ℕ (pos_part a + pos_part b) (neg_part a + neg_part b)

unfoldable pub ◌-ℤ◌ : ℤ → ℤ → ℤ
a -ℤ b = sub_ℕ (pos_part a + neg_part b) (neg_part a + pos_part b)

unfoldable pub neg : ℤ → ℤ
neg a = sub_ℕ (neg_part a) (pos_part a)

infixl 70 ◌*ℤ◌
unfoldable pub ◌*ℤ◌ : ℤ → ℤ → ℤ
a *ℤ b =
    sub_ℕ (pos_part a * pos_part b + neg_part a * neg_part b)
      (pos_part a * neg_part b + neg_part a * pos_part b)

abbrev pub ◌≤ℤ◌ : ℤ → ℤ → Type 0
a ≤ℤ b = pos_part a + neg_part b ≤ pos_part b + neg_part a

abbrev pub ◌<ℤ◌ : ℤ → ℤ → Type 0
a <ℤ b = pos_part a + neg_part b < pos_part b + neg_part a

abbrev pub leb_ℤ : ℤ → ℤ → Bool
leb_ℤ a b = le_test (pos_part a + neg_part b) (pos_part b + neg_part a)

abbrev pub ltb_ℤ : ℤ → ℤ → Bool
ltb_ℤ a b = elim (compare (pos_part a + neg_part b) (pos_part b + neg_part a)) [
  | Ordering.lt ↦ true
  | _ ↦ false
]

abbrev pub eqb_ℤ : ℤ → ℤ → Bool
eqb_ℤ a b = leb_ℤ a b && leb_ℤ b a

-- With these the operations can stay shut.
pub +ℤ_parts :
    (a b : ℤ)
    → pos_part (a +ℤ b) + neg_part a + neg_part b ≡ neg_part (a +ℤ b) + pos_part a + pos_part b
unfolding ◌+ℤ◌
+ℤ_parts a b = ground arith

pub -ℤ_parts :
    (a b : ℤ)
    → pos_part (a -ℤ b) + neg_part a + pos_part b ≡ neg_part (a -ℤ b) + pos_part a + neg_part b
unfolding ◌-ℤ◌
-ℤ_parts a b = ground arith

pub neg_parts : (a : ℤ) → pos_part (neg a) + pos_part a ≡ neg_part (neg a) + neg_part a
unfolding neg
neg_parts a = ground arith

pub eq_of_parts : (a b : ℤ) → pos_part a + neg_part b ≡ pos_part b + neg_part a → a ≡ b
eq_of_parts (pos a) (pos b) h = ground arith
eq_of_parts (pos a) (negsuc b) h = ground arith
eq_of_parts (negsuc a) (pos b) h = ground arith
eq_of_parts (negsuc a) (negsuc b) h = ground arith

pub leb_ℤ→le : (a b : ℤ) → leb_ℤ a b ≡ true → a ≤ℤ b
leb_ℤ→le a b h = ground arith

pub le→leb_ℤ : (a b : ℤ) → a ≤ℤ b → leb_ℤ a b ≡ true
le→leb_ℤ a b h = ground arith

pub ltb_ℤ→lt : (a b : ℤ) → ltb_ℤ a b ≡ true → a <ℤ b
ltb_ℤ→lt a b h = ground arith

pub eqb_ℤ→eq : (a b : ℤ) → eqb_ℤ a b ≡ true → a ≡ b
eqb_ℤ→eq a b h = eq_of_parts a b (ground arith)

pub eqb_ℤ_refl : (a : ℤ) → eqb_ℤ a a ≡ true
eqb_ℤ_refl a = ground arith

pub ruleset int_laws = (arith, +ℤ_parts, -ℤ_parts, neg_parts, eq_of_parts)
