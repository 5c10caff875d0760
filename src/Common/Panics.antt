-- ===== src/Common/Panics.antt =====
-- A computation that may panic: an `unwrap`, an index out of bounds, a failed `assert!`.
use mathlib.Core.Bool.{Bool, true, false}
use mathlib.Core.Option.{Option, none, some}
use minifto.Common.Tests.{if◌then◌else◌}

-- `returns a` is a normal return, `panics` an unwinding panic.
pub data Fallible {ℓ} (A : Type ℓ) : Type ℓ where
  returns : A → Fallible A
  panics : Fallible A

infixl 5 ◌>>=◌
abbrev pub ◌>>=◌ {ℓ κ} : {A : Type ℓ} {B : Type κ} → Fallible A → (A → Fallible B) → Fallible B
returns a >>= f = f a
panics >>= f = panics

-- `Option::unwrap`
abbrev pub unwrap {ℓ} : {A : Type ℓ} → Option A → Fallible A
unwrap none = panics
unwrap (some a) = returns a

-- What is returned, if anything is, satisfies `P`.
abbrev pub Returned {ℓ κ} : {A : Type ℓ} → (A → Type κ) → Fallible A → Type κ
Returned P (returns a) = P a
Returned P panics = Unit

module _ {A B : Type 0} where
  pub Returned-bind :
      (P : B → Type 0) (x : Fallible A) (f : A → Fallible B)
      → ((a : A) → Returned P (f a))
      → Returned P (x >>= f)
  Returned-bind P (returns a) f h = h a
  Returned-bind P panics f h = tt

  pub Returned-step :
      (Q : A → Type 0) (P : B → Type 0) (x : Fallible A) (f : A → Fallible B)
      → Returned Q x
      → ((a : A) → Q a → Returned P (f a))
      → Returned P (x >>= f)
  Returned-step Q P (returns a) f q h = h a q
  Returned-step Q P panics f q h = tt

pub Returned-branch :
    {A : Type 0} (P : A → Type 0) (b : Bool) (x y : Fallible A)
    → Returned P x
    → Returned P y
    → Returned P (if b then x else y)
Returned-branch P true x y h k = h
Returned-branch P false x y h k = k
