-- ===== src/Base/Double.antt =====
-- Doubles of JavaScript from zero on: a mantissa over a power of two. For values up to 2^53, and
-- quotients from 2^-28 on.
use Prim.Native.Nat.{ℕ, zero, suc, ◌+◌, ◌-◌, ◌*◌, ◌/◌, ◌%◌, compare, Ordering}

pub record Double : Type 0 where
  pub mantissa : ℕ
  pub denominator : ℕ

-- The nearest integer of a quotient, a tie to the even one.
abbrev pub nearest : ℕ → ℕ → ℕ
nearest a b =
    let q = a / b in
    elim (compare (2 * (a % b)) b) [
      | Ordering.lt ↦ q
      | Ordering.eq ↦ q + q % 2
      | Ordering.gt ↦ q + 1
    ]

-- The quotient scaled up by powers of two until its integer part has 53 bits.
abbrev scaled : ℕ → ℕ → ℕ → ℕ → Double
scaled zero d a b = record { mantissa = nearest a b; denominator = d }
scaled (suc fuel) d a b = elim (compare a (4_503_599_627_370_496 * b)) [
  | Ordering.lt ↦ scaled fuel (2 * d) (2 * a) b
  | _ ↦ record { mantissa = nearest a b; denominator = d }
]

-- `a / b`
unfoldable pub quotient : ℕ → ℕ → Double
quotient a b = scaled 80 1 a b

-- `x / b`
unfoldable pub over : Double → ℕ → Double
unfolding quotient
over x b = quotient x.mantissa (x.denominator * b)

-- `x * n`
unfoldable pub times : Double → ℕ → Double
unfolding quotient
times x n = quotient (x.mantissa * n) x.denominator

-- `Math.ceil(x)`
unfoldable pub ceil : Double → ℕ
ceil x = (x.mantissa + (x.denominator - 1)) / x.denominator

-- `Math.round(x)`: half goes up.
unfoldable pub round : Double → ℕ
round x = (2 * x.mantissa + x.denominator) / (2 * x.denominator)
