-- ===== src/Base/Blank.antt =====
-- `String.prototype.trim` leaves nothing: the text has only JavaScript's white space and line ends.
use Prim.Native.Nat.{ℕ, compare, Ordering}
use Prim.Native.Char.{code}
use Prim.Native.String.{String, [], ◌∷◌}
use mathlib.Core.Bool.{Bool, true, false, ◌&&◌, ◌||◌}

abbrev is_between : ℕ → ℕ → ℕ → Bool
is_between low high n = elim (compare n low) [
  | Ordering.lt ↦ false
  | _ ↦ elim (compare n high) [ Ordering.gt ↦ false | _ ↦ true ]
]

-- By code point.
unfoldable is_space : ℕ → Bool
is_space n =
    is_between 9 13 n
    || is_between 32 32 n
    || is_between 160 160 n
    || is_between 5760 5760 n
    || is_between 8192 8202 n
    || is_between 8232 8233 n
    || is_between 8239 8239 n
    || is_between 8287 8287 n
    || is_between 12288 12288 n
    || is_between 65279 65279 n

unfoldable pub is_blank : String → Bool
unfolding is_space
is_blank [] = true
is_blank (c ∷ s) = is_space (code c) && is_blank s
