-- ===== src/SortedList/Addresses.antt =====
-- net/sorted_list.rs: lists of the addresses of nodes.
use minifto.Common.{
  ℕ, ◌+◌, ◌<◌, ◌≡◌, ◌≢◌, refl, sym, subst, Bool, true, false, not, ◌&&◌, ◌||◌, List, [], ◌∷◌, ◌++◌,
  ◌==◌, if◌then◌else◌, All, Bool-cases, inl, inr, arith,
}
use minifto.SortedList.{Ptr, update}

abbrev pub has : Ptr → List Ptr → Bool
has a [] = false
has a (x ∷ l) = (a == x) || has a l

abbrev pub distinct : List Ptr → Bool
distinct [] = true
distinct (x ∷ l) = not (has x l) && distinct l

abbrev pub erase_ptr : Ptr → List Ptr → List Ptr
erase_ptr a [] = []
erase_ptr a (x ∷ l) = if a == x then l else x ∷ erase_ptr a l

pub has-append : (a : Ptr) (l r : List Ptr) → has a (l ++ r) ≡ (has a l || has a r)
has-append a [] r = refl
has-append a (x ∷ l) r = ground (arith, has-append a l r)

pub has-erase_ptr : (a b : Ptr) (l : List Ptr) → has a l ≡ false → has a (erase_ptr b l) ≡ false
has-erase_ptr a b [] h = refl
has-erase_ptr a b (x ∷ l) h = ground (arith, has-erase_ptr a b l)

pub All-has {κ} : (P : Ptr → Type κ) (a : Ptr) (l : List Ptr) → All P l → has a l ≡ true → P a
All-has P a [] h k = absurd (cc k)
All-has P a (x ∷ l) h k = elim (Bool-cases (a == x)) [
  | inl e ↦ let same : x ≡ a = ground arith in subst P same h.0
  | inr e ↦ All-has P a l h.1 (ground arith)
]

pub All-erase_ptr {κ} :
    (P : Ptr → Type κ) (a : Ptr) (l r : List Ptr) → All P (l ++ r) → All P (erase_ptr a l ++ r)
All-erase_ptr P a [] r h = h
All-erase_ptr P a (x ∷ l) r h = elim (Bool-cases (a == x)) [
  | inl e ↦ rw (e) h.1
  | inr e ↦ rw (e) (h.0, All-erase_ptr P a l r h.1)
]

pub has-ne : (a b : Ptr) (l : List Ptr) → has a l ≡ false → has b l ≡ true → (b == a) ≡ false
has-ne a b l out i = elim (Bool-cases (b == a)) [
  | inl e ↦
      let same : b ≡ a = ground arith in
      absurd (subst (λ c. has c l ≢ true) (sym same) (ground (arith, out)) i)
  | inr e ↦ e
]

pub distinct-erase_ptr :
    (a : Ptr) (l r : List Ptr) → distinct (l ++ r) ≡ true → distinct (erase_ptr a l ++ r) ≡ true
distinct-erase_ptr a [] r d = d
distinct-erase_ptr a (x ∷ l) r d = ground (
  arith,
  distinct-erase_ptr a l r,
  has-append x l r,
  has-append x (erase_ptr a l) r,
  has-erase_ptr x a l,
)

-- An address that is erased from distinct ones is gone.
pub erased :
    (a : Ptr) (l r : List Ptr)
    → distinct (l ++ r) ≡ true
    → has a l ≡ true
    → has a (erase_ptr a l ++ r) ≡ false
erased a [] r d i = cc
erased a (x ∷ l) r d i = elim (Bool-cases (a == x)) [
  | inl e ↦ rw (e) (
      let same : x ≡ a = ground arith in
      subst (λ b. has b (l ++ r) ≡ false) same (ground (arith, d)))
  | inr e ↦ rw (e) (ground (arith, erased a l r))
]

pub distinct-erase_ptr_from :
    (x a : Ptr) (l r : List Ptr)
    → distinct (x ∷ l ++ r) ≡ true
    → distinct (x ∷ erase_ptr a l ++ r) ≡ true
distinct-erase_ptr_from x a l r d = ground (
  arith,
  distinct-erase_ptr a l r,
  has-append x l r,
  has-append x (erase_ptr a l) r,
  has-erase_ptr x a l,
)

pub All-live :
    (live : Ptr → Bool) (a : Ptr) (l : List Ptr)
    → has a l ≡ false
    → All (λ p. live p ≡ true) l
    → All (λ p. update live a false p ≡ true) l
All-live live a [] out h = tt
All-live live a (x ∷ l) out h = (ground (arith, h.0), All-live live a l (ground arith) h.1)

pub distinct-prefix : (l r : List Ptr) → distinct (l ++ r) ≡ true → distinct l ≡ true
distinct-prefix [] r d = refl
distinct-prefix (x ∷ l) r d = ground (arith, distinct-prefix l r, has-append x l r)

pub All-live_true :
    (live : Ptr → Bool) (a : Ptr) (l : List Ptr)
    → All (λ p. live p ≡ true) l
    → All (λ p. update live a true p ≡ true) l
All-live_true live a [] h = tt
All-live_true live a (x ∷ l) h = (ground (arith, h.0), All-live_true live a l h.1)

pub All-below_suc : (n : ℕ) (l : List Ptr) → All (λ p. p < n) l → All (λ p. p < n + 1) l
All-below_suc n [] h = tt
All-below_suc n (x ∷ l) h = (omega (arith, h.0), All-below_suc n l h.1)

-- An address above all of a list is not in it.
pub has_of_below : (n : ℕ) (l : List Ptr) → All (λ p. p < n) l → has n l ≡ false
has_of_below n [] h = refl
has_of_below n (x ∷ l) h = ground (arith, has_of_below n l)
