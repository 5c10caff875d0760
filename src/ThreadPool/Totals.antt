-- ===== src/ThreadPool/Totals.antt =====
-- threadpool/threadpool.rs: sums over the workers, and what the operations do to them.
use minifto.Common.{
  ap, ◌⊎◌, ℕ, zero, suc, ◌+◌, ◌-◌, ◌<◌, ◌≡◌, refl, [], ◌∷◌, ◌++◌, length, arith, inl, inr,
}
use minifto.ThreadPool.{
  Workers, Status, awake, asleep, stopped, died, busy, last, total, is_asleep, notify_one,
}

pub Nat-cases : (n : ℕ) → (n ≡ 0) ⊎ (0 < n)
Nat-cases zero = inl refl
Nat-cases (suc n) = inr (omega arith)

module _ {J : Type 0} where
  abbrev pub is_awake : Status J → ℕ
  is_awake awake = 1
  is_awake _ = 0

  pub total-append : (f : Status J → ℕ) (l r : Workers J) → total f (l ++ r) ≡ total f l + total f r
  unfolding total
  total-append f [] r = omega arith
  total-append f (w ∷ l) r = ground (arith, total-append f l r)

  -- One worker's status is another.
  pub total-set :
      (f : Status J → ℕ) (l r : Workers J) (i : ℕ) (a b : Status J)
      → total f (l ++ (i, b) ∷ r) + f a ≡ total f (l ++ (i, a) ∷ r) + f b
  unfolding total
  total-set f l r i a b =
      omega (arith, total-append f l ((i, a) ∷ r), total-append f l ((i, b) ∷ r))

  pub length-set :
      (l r : Workers J) (i : ℕ) (a b : Status J)
      → length (l ++ (i, b) ∷ r) ≡ length (l ++ (i, a) ∷ r)
  length-set [] r i a b = refl
  length-set (w ∷ l) r i a b = ap suc (length-set l r i a b)

  -- If a sum is not 0, some worker adds to it.
  pub find_worker :
      (f : Status J → ℕ) (ws : Workers J)
      → 0 < total f ws
      → (l : Workers J) × (r : Workers J) × (i : ℕ) × (s : Status J) × (ws ≡ l ++ (i, s) ∷ r)
        × (0 < f s)
  unfolding total
  find_worker f [] h = absurd (omega arith)
  find_worker f ((i, s) ∷ ws) h = elim (Nat-cases (f s)) [
    | inl z ↦
        let (l, r, j, t, e, k) = find_worker f ws (omega arith) in
        ((i, s) ∷ l, r, j, t, ap (λ (v : Workers J). (i, s) ∷ v) e, k)
    | inr p ↦ ([], ws, i, s, refl, p)
  ]

  -- A thread that slept is awake, where one slept; any sum that does not tell these two apart
  -- stays as it is.
  pub notify_one-asleep :
      (k : ℕ) (ws : Workers J) → total is_asleep (notify_one k ws) ≡ total is_asleep ws - 1
  unfolding notify_one total
  notify_one-asleep k [] = refl
  notify_one-asleep k ((i, awake) ∷ ws) = omega (arith, notify_one-asleep k ws)
  notify_one-asleep k ((i, asleep) ∷ ws) = ground (arith, notify_one-asleep (k - 1) ws)
  notify_one-asleep k ((i, stopped) ∷ ws) = omega (arith, notify_one-asleep k ws)
  notify_one-asleep k ((i, died) ∷ ws) = omega (arith, notify_one-asleep k ws)
  notify_one-asleep k ((i, busy j) ∷ ws) = omega (arith, notify_one-asleep k ws)
  notify_one-asleep k ((i, last j) ∷ ws) = omega (arith, notify_one-asleep k ws)

  pub notify_one-awake :
      (k : ℕ) (ws : Workers J)
      → total is_awake (notify_one k ws) + total is_asleep (notify_one k ws)
        ≡ total is_awake ws + total is_asleep ws
  unfolding notify_one total
  notify_one-awake k [] = refl
  notify_one-awake k ((i, awake) ∷ ws) = omega (arith, notify_one-awake k ws)
  notify_one-awake k ((i, asleep) ∷ ws) = ground (arith, notify_one-awake (k - 1) ws)
  notify_one-awake k ((i, stopped) ∷ ws) = omega (arith, notify_one-awake k ws)
  notify_one-awake k ((i, died) ∷ ws) = omega (arith, notify_one-awake k ws)
  notify_one-awake k ((i, busy j) ∷ ws) = omega (arith, notify_one-awake k ws)
  notify_one-awake k ((i, last j) ∷ ws) = omega (arith, notify_one-awake k ws)

  pub length-notify_one : (k : ℕ) (ws : Workers J) → length (notify_one k ws) ≡ length ws
  unfolding notify_one
  length-notify_one k [] = refl
  length-notify_one k ((i, awake) ∷ ws) = ap suc (length-notify_one k ws)
  length-notify_one k ((i, asleep) ∷ ws) = ground (arith, length-notify_one (k - 1) ws)
  length-notify_one k ((i, stopped) ∷ ws) = ap suc (length-notify_one k ws)
  length-notify_one k ((i, died) ∷ ws) = ap suc (length-notify_one k ws)
  length-notify_one k ((i, busy j) ∷ ws) = ap suc (length-notify_one k ws)
  length-notify_one k ((i, last j) ∷ ws) = ap suc (length-notify_one k ws)
