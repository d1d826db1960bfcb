-- ===== src/Base/Tx.antt =====
-- A database transaction: it returns a value and the new state, or throws. What throws carries no
-- state, since the database rolls the transaction back.
use mathlib.Core.Bool.{Bool, true, false}
use mathlib.Core.Option.{Option, none, some}
use mathlib.Core.Path.{◌≡◌, refl}
use mathlib.Core.Logic.{◌⊎◌, inl, inr}
use Prim.Native.Nat.{ℕ}
use Prim.Native.String.{String}

-- `apiError(code, message, status)`, or `new Error(message)`.
pub data Error : Type 0 where
  api : String → ℕ → Error
  fault : String → Error

pub data Result (A : Type 0) : Type 0 where
  ok : A → Result A
  err : Error → Result A

pub Result-cases :
    {A : Type 0} (r : Result A) → ((a : A) × (r ≡ ok a)) ⊎ ((e : Error) × (r ≡ err e))
Result-cases (ok a) = inl (a, refl)
Result-cases (err e) = inr (e, refl)

module _ {S : Type 0} where
  abbrev pub pure : {A : Type 0} → A → S → Result (A × S)
  pure a s = ok (a, s)

  abbrev pub throw : {A : Type 0} → Error → S → Result (A × S)
  throw e s = err e

  abbrev pub gets : {A : Type 0} → (S → A) → S → Result (A × S)
  gets f s = ok (f s, s)

  abbrev pub modify : (S → S) → S → Result (Unit {0} × S)
  modify f s = ok (tt, f s)

  abbrev pub or_throw : {A : Type 0} → Option A → Error → S → Result (A × S)
  or_throw none e s = err e
  or_throw (some a) e s = ok (a, s)

  abbrev pub throw_unless : Bool → Error → S → Result (Unit {0} × S)
  throw_unless true e s = ok (tt, s)
  throw_unless false e s = err e

  infixl 5 ◌>>=◌ ◌>>◌
  abbrev pub ◌>>=◌ :
      {A B : Type 0} → (S → Result (A × S)) → (A → S → Result (B × S)) → S → Result (B × S)
  ◌>>=◌ m f s = elim (m s) [ ok p ↦ f p.0 p.1 | err e ↦ err e ]

  abbrev pub ◌>>◌ :
      {A B : Type 0} → (S → Result (A × S)) → (S → Result (B × S)) → S → Result (B × S)
  m >> k = m >>= λ _. k

  -- What holds of the value and the state, if the transaction does not throw.
  abbrev pub Ensures : {A : Type 0} → (A → S → Type 0) → Result (A × S) → Type 0
  Ensures P (ok p) = P p.0 p.1
  Ensures P (err e) = Unit

  pub Ensures-bind :
      {A B : Type 0} (P : A → S → Type 0) (Q : B → S → Type 0) (m : S → Result (A × S))
      (f : A → S → Result (B × S)) (s : S)
      → Ensures P (m s)
      → ((a : A) (t : S) → P a t → Ensures Q (f a t))
      → Ensures Q ((m >>= f) s)
  Ensures-bind {A} {B} P Q m f s h k = go (m s) h
    where
      go :
          (r : Result (A × S))
          → Ensures P r
          → Ensures Q (elim r [ ok p ↦ f p.0 p.1 | err e ↦ err e ])
      go (ok p) h = k p.0 p.1 h
      go (err e) h = tt

  pub Ensures-imp :
      {A : Type 0} (P Q : A → S → Type 0) (r : Result (A × S))
      → Ensures P r
      → ((a : A) (t : S) → P a t → Q a t)
      → Ensures Q r
  Ensures-imp P Q (ok p) h k = k p.0 p.1 h
  Ensures-imp P Q (err e) h k = tt
