-- ===== src/Base.antt =====
-- The names that every component shares: the libraries', passed on, Boolean tests on numbers and
-- texts, tables as lists, integers, and the result of a database transaction.
pub mod Blank
pub mod Calendar
pub mod Double
pub mod Int
pub mod Rows
pub mod Tx
pub use Prim.Native.Nat.{ℕ, zero, suc, ◌+◌, ◌-◌, ◌*◌, ◌/◌, ◌≤◌, ◌<◌}
pub use Prim.Native.String.{String}
pub use mathlib.Core.Path.{◌≡◌, refl, sym, ap, ◌∙◌, subst}
pub use mathlib.Core.Logic.{◌≢◌, ◌↔◌, ◌⊎◌, inl, inr}
pub use mathlib.Core.Bool.{Bool, true, false, not, ◌&&◌, ◌||◌}
pub use mathlib.Core.Option.{Option, none, some}
pub use mathlib.Core.List.{List, [], ◌∷◌, ◌++◌}
pub use native.Mathlib.Omega.{arith}
pub use text.Mathlib.Text.{◌==◌}
pub use text.Mathlib.TextEquality.{eq_iff}
pub use text.Mathlib.TextPositions.{eq_refl}
use Prim.Native.Nat.{compare, Ordering}

abbrev pub ltb : ℕ → ℕ → Bool
ltb a b = elim (compare a b) [ Ordering.lt ↦ true | _ ↦ false ]

abbrev pub leb : ℕ → ℕ → Bool
leb a b = elim (compare a b) [ Ordering.gt ↦ false | _ ↦ true ]

infix 1 if◌then◌else◌
abbrev pub if◌then◌else◌ {ℓ} : {A : Type ℓ} → Bool → A → A → A
if true then x else y = x
if false then x else y = y

pub Bool-cases : (b : Bool) → (b ≡ true) ⊎ (b ≡ false)
Bool-cases true = inl refl
Bool-cases false = inr refl

pub &&-true : (a b : Bool) → (a && b) ≡ true → (a ≡ true) × (b ≡ true)
&&-true a b h = ground arith

module _ {ℓ} {A : Type ℓ} where
  pub Option-cases : (o : Option A) → (o ≡ none) ⊎ ((a : A) × (o ≡ some a))
  Option-cases none = inl refl
  Option-cases (some a) = inr (a, refl)

  -- A value that is neither null nor undefined.
  abbrev pub is_some : Option A → Bool
  is_some none = false
  is_some (some a) = true

  -- `o ?? d`
  abbrev pub or_else : Option A → A → A
  or_else none d = d
  or_else (some a) d = a

-- A nullable text compared with a text.
abbrev pub text_is : Option String → String → Bool
text_is none s = false
text_is (some t) s = t == s

-- JavaScript's truth of a nullable text: neither null nor empty.
abbrev pub is_present : Option String → Bool
is_present none = false
is_present (some s) = not (s == "")
