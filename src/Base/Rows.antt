-- ===== src/Base/Rows.antt =====
-- A database table as a list of rows: `select … where … limit 1`, `update … where …`, and counts.
use Prim.Native.Nat.{ℕ, ◌+◌, ◌≤◌}
use mathlib.Core.Path.{◌≡◌, refl, subst}
use mathlib.Core.Logic.{◌⊎◌}
use mathlib.Core.Bool.{Bool, true, false, cond}
use mathlib.Core.Option
use mathlib.Core.Option.{Option, none, some}
use mathlib.Core.List.{List, [], ◌∷◌}
use native.Mathlib.Omega.{arith}

module _ {ℓ} {A : Type ℓ} where
  -- The first row that a condition selects.
  abbrev pub find : (A → Bool) → List A → Option A
  find p [] = none
  find p (x ∷ xs) = cond (p x) (some x) (find p xs)

  -- `set f where p`
  abbrev pub update_where : (A → Bool) → (A → A) → List A → List A
  update_where p f [] = []
  update_where p f (x ∷ xs) = cond (p x) (f x) x ∷ update_where p f xs

  abbrev pub count : (A → Bool) → List A → ℕ
  count p [] = 0
  count p (x ∷ xs) = cond (p x) 1 0 + count p xs

  abbrev pub All {κ} : (A → Type κ) → List A → Type κ
  All P [] = Unit
  All P (x ∷ xs) = P x × All P xs

  pub find-sat : (p : A → Bool) (xs : List A) (x : A) → find p xs ≡ some x → p x ≡ true
  find-sat p [] x h = ground arith
  find-sat p (y ∷ xs) x h = ground (arith, find-sat p xs x)

  pub All-find {κ} :
      (P : A → Type κ) (p : A → Bool) (xs : List A) (x : A) → All P xs → find p xs ≡ some x → P x
  All-find P p [] x h e = absurd (ground arith)
  All-find P p (y ∷ xs) x h e = go (p y) refl (All-find P p xs x h.1)
    where
      go : (b : Bool) → p y ≡ b → (find p xs ≡ some x → P x) → P x
      go true q later = let same : y ≡ x = ground arith in subst P same h.0
      go false q later = later (rw q at e)

  -- An update that every row survives under `P` keeps `P` everywhere.
  pub All-update {κ} :
      (P : A → Type κ) (p : A → Bool) (f : A → A) (xs : List A)
      → All P xs
      → ((x : A) → P x → p x ≡ true → P (f x))
      → All P (update_where p f xs)
  All-update P p f [] h k = tt
  All-update P p f (x ∷ xs) h k = (go (p x) refl, All-update P p f xs h.1 k)
    where
      go : (b : Bool) → p x ≡ b → P (cond b (f x) x)
      go true q = k x h.0 q
      go false q = h.0

  pub All-map_imp {κ μ} :
      (P : A → Type κ) (Q : A → Type μ) (xs : List A) → ((x : A) → P x → Q x) → All P xs → All Q xs
  All-map_imp P Q [] k h = tt
  All-map_imp P Q (x ∷ xs) k h = (k x h.0, All-map_imp P Q xs k h.1)

  -- An update that leaves the condition of a lookup alone changes the row that is found.
  pub find-update :
      (p q : A → Bool) (f : A → A) (xs : List A)
      → ((x : A) → p (f x) ≡ p x)
      → find p (update_where q f xs) ≡ Option.map (λ x. cond (q x) (f x) x) (find p xs)
  find-update p q f [] k = refl
  find-update p q f (x ∷ xs) k = ground (arith, k x, find-update p q f xs k)

  pub count-update :
      (p q : A → Bool) (f : A → A) (xs : List A)
      → ((x : A) → p (f x) ≡ p x)
      → count p (update_where q f xs) ≡ count p xs
  count-update p q f [] k = refl
  count-update p q f (x ∷ xs) k = ground (arith, k x, count-update p q f xs k)

  -- An update that adds no row to those of a condition does not raise its count.
  pub count-update-le :
      (p q : A → Bool) (f : A → A) (xs : List A)
      → ((x : A) → q x ≡ true → p (f x) ≡ true → p x ≡ true)
      → count p (update_where q f xs) ≤ count p xs
  count-update-le p q f [] k = omega arith
  count-update-le p q f (x ∷ xs) k = ground (arith, k x, count-update-le p q f xs k)

  pub count-eq_zero : (p : A → Bool) (xs : List A) → find p xs ≡ none → count p xs ≡ 0
  count-eq_zero p [] h = refl
  count-eq_zero p (x ∷ xs) h = ground (arith, count-eq_zero p xs)

  -- An update that takes every selected row out of the selection.
  pub find-update_away :
      (p : A → Bool) (f : A → A) (xs : List A)
      → ((x : A) → p (f x) ≡ false)
      → find p (update_where p f xs) ≡ none
  find-update_away p f [] k = refl
  find-update_away p f (x ∷ xs) k = ground (arith, k x, find-update_away p f xs k)

  -- An update of rows that a lookup does not select.
  pub find-update_other :
      (p q : A → Bool) (f : A → A) (xs : List A)
      → ((x : A) → p (f x) ≡ p x)
      → ((x : A) → p x ≡ true → q x ≡ false)
      → find p (update_where q f xs) ≡ find p xs
  find-update_other p q f [] k apart = refl
  find-update_other p q f (x ∷ xs) k apart =
      ground (arith, k x, apart x, find-update_other p q f xs k apart)

  -- An update that leaves the condition of a lookup and a column alone keeps what it finds there.
  pub find-update_keeps :
      {B : Type ℓ} (p q : A → Bool) (f : A → A) (g : A → B) (xs : List A)
      → ((x : A) → p (f x) ≡ p x)
      → ((x : A) → g (f x) ≡ g x)
      → Option.map g (find p (update_where q f xs)) ≡ Option.map g (find p xs)
  find-update_keeps p q f g [] k same = refl
  find-update_keeps p q f g (x ∷ xs) k same =
      ground (arith, k x, same x, find-update_keeps p q f g xs k same)

  -- Some row has the property.
  abbrev pub Any : (A → Type 0) → List A → Type 0
  Any P [] = ⊥
  Any P (x ∷ xs) = P x ⊎ Any P xs

  pub count-imp :
      (p q : A → Bool) (xs : List A) → ((x : A) → p x ≡ true → q x ≡ true) → count p xs ≤ count q xs
  count-imp p q [] k = omega arith
  count-imp p q (x ∷ xs) k = ground (arith, k x, count-imp p q xs k)
