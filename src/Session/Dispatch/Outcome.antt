-- ===== src/Session/Dispatch/Outcome.antt =====
-- Facts about every machine that a run may end in.
use minifto.Common.{Bool, true, false, Option, none, some, if◌then◌else◌}
use minifto.Os.{Os}
use minifto.Session.State.{Machine, Run, done, panicked, out_of_fuel, ◌>>=◌, expect, cases}

module _ {os : Os} where
  -- The machine at the end, of a return and of a panic. A loop without fuel has none.
  abbrev pub Ends : (Machine os → Type 0) → Run os → Type 0
  Ends P (done m) = P m
  Ends P (panicked m) = P m
  Ends P out_of_fuel = Unit

  -- The machine at a return.
  abbrev pub Returns : (Machine os → Type 0) → Run os → Type 0
  Returns P (done m) = P m
  Returns P (panicked m) = Unit
  Returns P out_of_fuel = Unit

  pub Ends-bind :
      (P Q : Machine os → Type 0) (r : Run os) (k : Machine os → Run os)
      → Ends P r
      → ((m : Machine os) → P m → Q m)
      → ((m : Machine os) → P m → Ends Q (k m))
      → Ends Q (r >>= k)
  Ends-bind P Q (done m) k h w n = n m h
  Ends-bind P Q (panicked m) k h w n = w m h
  Ends-bind P Q out_of_fuel k h w n = tt

  pub Returns-bind :
      (P Q : Machine os → Type 0) (r : Run os) (k : Machine os → Run os)
      → Returns P r
      → ((m : Machine os) → P m → Returns Q (k m))
      → Returns Q (r >>= k)
  Returns-bind P Q (done m) k h n = n m h
  Returns-bind P Q (panicked m) k h n = tt
  Returns-bind P Q out_of_fuel k h n = tt

  pub Ends-map :
      (P Q : Machine os → Type 0) (r : Run os)
      → Ends P r
      → ((m : Machine os) → P m → Q m)
      → Ends Q r
  Ends-map P Q (done m) h f = f m h
  Ends-map P Q (panicked m) h f = f m h
  Ends-map P Q out_of_fuel h f = tt

  pub Returns-map :
      (P Q : Machine os → Type 0) (r : Run os)
      → Returns P r
      → ((m : Machine os) → P m → Q m)
      → Returns Q r
  Returns-map P Q (done m) h f = f m h
  Returns-map P Q (panicked m) h f = tt
  Returns-map P Q out_of_fuel h f = tt

  pub Returns-if :
      (P : Machine os → Type 0) (b : Bool) (x y : Run os)
      → Returns P x
      → Returns P y
      → Returns P (if b then x else y)
  Returns-if P true x y h k = h
  Returns-if P false x y h k = k

  pub Returns-expect {ℓ} :
      {A : Type ℓ} (P : Machine os → Type 0) (m : Machine os) (o : Option A) (k : A → Run os)
      → ((a : A) → Returns P (k a))
      → Returns P (expect m o k)
  Returns-expect P m none k n = tt
  Returns-expect P m (some a) k n = n a

  pub Returns-cases {ℓ} :
      {A : Type ℓ} (P : Machine os → Type 0) (o : Option A) (r : Run os) (k : A → Run os)
      → Returns P r
      → ((a : A) → Returns P (k a))
      → Returns P (cases o r k)
  Returns-cases P none r k h n = h
  Returns-cases P (some a) r k h n = n a

  pub Returns-of_Ends : (P : Machine os → Type 0) (r : Run os) → Ends P r → Returns P r
  Returns-of_Ends P (done m) h = h
  Returns-of_Ends P (panicked m) h = tt
  Returns-of_Ends P out_of_fuel h = tt

  pub Ends-expect {ℓ} :
      {A : Type ℓ} (P : Machine os → Type 0) (m : Machine os) (o : Option A) (k : A → Run os)
      → P m
      → ((a : A) → Ends P (k a))
      → Ends P (expect m o k)
  Ends-expect P m none k h n = h
  Ends-expect P m (some a) k h n = n a

  pub Ends-cases {ℓ} :
      {A : Type ℓ} (P : Machine os → Type 0) (o : Option A) (r : Run os) (k : A → Run os)
      → Ends P r
      → ((a : A) → Ends P (k a))
      → Ends P (cases o r k)
  Ends-cases P none r k h n = h
  Ends-cases P (some a) r k h n = n a

  pub Ends-if :
      (P : Machine os → Type 0) (b : Bool) (x y : Run os)
      → Ends P x
      → Ends P y
      → Ends P (if b then x else y)
  Ends-if P true x y h k = h
  Ends-if P false x y h k = k
