-- ===== src/TimerList/Idle.antt =====
-- net/sorted_list.rs: `remove_idle`.
use minifto.Common.{
  ℕ, zero, suc, ◌≤◌, ◌<◌, ◌≡◌, refl, sym, ap, subst, ◌∙◌, true, false, some, [], ◌∷◌, ◌++◌, length,
  append-nil, length-append, append_assoc, All, All-append, Bool-cases, inl, inr, arith, returns,
}
use minifto.SortedList
use minifto.SortedList.{Eq}
use minifto.SortedList.Table.{last_item, init, init-last_item, length-init}
use minifto.SortedList.Lists.{Lists, drop_last-Lists, is_empty-Lists}
use minifto.TimerList.{TimerList, idle, remove_idle}
use minifto.TimerList.Timed.{Items, Newest, Before, IsTimed}

-- An item that is idle is so later too, and so is one that was used before.
idle_mono :
    (timeout a b s r : ℕ) → a ≤ b → r ≤ s → idle timeout a s ≡ true → idle timeout b r ≡ true
idle_mono timeout a b s r h k i = ground (arith, h, k, i)

module _ {K V : Type 0} where
  -- No item is older than the last.
  Newest-last :
      (k : K) (n : ℕ × V) (l : Items K V)
      → Newest l
      → last_item l ≡ some (k, n)
      → All (λ x. n.0 ≤ x.1.0) l
  Newest-last k n [] h e = tt
  Newest-last k n (x ∷ []) h e = (ground (arith, e), tt)
  Newest-last k n (x ∷ y ∷ l) h e =
      let rest = Newest-last k n (y ∷ l) h.1 e in (omega (arith, rest.0, h.0), rest)

  Newest-init : (l : Items K V) → Newest l → Newest (init l)
  Newest-init [] h = tt
  Newest-init (x ∷ []) h = tt
  Newest-init (x ∷ y ∷ []) h = tt
  Newest-init (x ∷ y ∷ z ∷ l) h = (h.0, Newest-init (y ∷ z ∷ l) h.1)

  All-not_idle :
      (timeout a b s : ℕ) (l : Items K V)
      → a ≤ b
      → idle timeout b s ≡ false
      → All (λ x. s ≤ x.1.0) l
      → All (λ x. idle timeout a x.1.0 ≡ false) l
  All-not_idle timeout a b s [] h i k = tt
  All-not_idle timeout a b s (x ∷ l) h i k = (
    elim (Bool-cases (idle timeout a x.1.0)) [
      | inl e ↦ let later = idle_mono timeout a b x.1.0 s h k.0 e in cc
      | inr e ↦ e
    ],
    All-not_idle timeout a b s l h i k.1,
  )

module _ {K V : Type 0} ⦃e : Eq K⦄ (fuel : ℕ) (clock : ℕ → ℕ) (t : TimerList K V) where
  remove_idle-empty :
      SortedList.is_empty t.list ≡ true → remove_idle (suc fuel) clock t ≡ returns (some t)
  unfolding remove_idle
  remove_idle-empty empty = ground (arith, empty)

  module _ (n : ℕ × V) (full : SortedList.is_empty t.list ≡ false)
      (last : SortedList.last t.list ≡ returns (some n)) where
    -- A round that removes the last item.
    remove_idle-old :
        (s : SortedList.SortedList K (ℕ × V))
        → idle t.timeout (clock fuel) n.0 ≡ true
        → SortedList.drop_last t.list ≡ returns (s, true)
        → remove_idle (suc fuel) clock t ≡ remove_idle fuel clock (record t { list = s })
    unfolding remove_idle
    remove_idle-old s old dropped = ground (arith, full, last, old, dropped)

    remove_idle-young :
        idle t.timeout (clock fuel) n.0 ≡ false → remove_idle (suc fuel) clock t ≡ returns (some t)
    unfolding remove_idle
    remove_idle-young young = ground (arith, full, last, young)

module _ {K V : Type 0} (from until timeout : ℕ) where
  -- What `remove_idle` keeps of the items `l`, and what it removes.
  pub record Keeps (l kept gone : Items K V) : Type 0 where
    pub parts : l ≡ kept ++ gone
    pub fresh : All (λ x. idle timeout from x.1.0 ≡ false) kept
    pub stale : All (λ x. idle timeout until x.1.0 ≡ true) gone

module _ {K V : Type 0} ⦃e : Eq K⦄ (clock : ℕ → ℕ) (from until : ℕ)
    (reads : (i : ℕ) → (from ≤ clock i) × (clock i ≤ until)) where
  -- If the items of a list stand in the order of their times, and the clock is read between two
  -- times, then `remove_idle` returns within one round more than there are items. It cuts the list
  -- in two: what it keeps, the front, was not idle at the first of these times, and what it
  -- removes, the rest, was idle at the second.
  pub remove_idle-Keeps :
      (fuel : ℕ) (t : TimerList K V) (l : Items K V)
      → Lists t.list l
      → Newest l
      → length l < fuel
      → (t' : TimerList K V) × (kept : Items K V) × (gone : Items K V) × (remove_idle fuel clock t
          ≡ returns (some t'))
        × Lists t'.list kept
        × Keeps from until t.timeout l kept gone
  remove_idle-Keeps zero t l h newest enough = absurd (omega arith)
  remove_idle-Keeps (suc fuel) t [] h newest enough = (
    t,
    [],
    [],
    remove_idle-empty fuel clock t (is_empty-Lists t.list h),
    h,
    record { parts = refl; fresh = tt; stale = tt },
  )
  remove_idle-Keeps (suc fuel) t (x ∷ l) h newest enough =
      let (k, n, s', at_end, full, last, dropped, after) = drop_last-Lists t.list x l h in
      elim (Bool-cases (idle t.timeout (clock fuel) n.0)) [
        | inl old ↦
            let (t', kept, gone, run, lists, keeps) =
              remove_idle-Keeps fuel (record t { list = s' }) (init (x ∷ l)) after
                (Newest-init (x ∷ l) newest) (omega (arith, length-init x l)) in
            (
              t',
              kept,
              gone ++ (k, n) ∷ [],
              remove_idle-old fuel clock t n full last s' old dropped ∙ run,
              lists,
              record {
                parts =
                    init-last_item (k, n) (x ∷ l) at_end
                    ∙ ap (λ (m : Items K V). m ++ (k, n) ∷ []) keeps.parts
                    ∙ append_assoc kept gone ((k, n) ∷ []);
                fresh = keeps.fresh;
                stale =
                    All-append (λ (x : K × (ℕ × V)). idle t.timeout until x.1.0 ≡ true) gone
                      ((k, n) ∷ []) keeps.stale
                      (
                        idle_mono t.timeout (clock fuel) until n.0 n.0 (reads fuel).1 (omega arith)
                            old,
                        tt,
                      );
              },
            )
        | inr young ↦ (
          t,
          x ∷ l,
          [],
          remove_idle-young fuel clock t n full last young,
          h,
          record {
            parts = sym (append-nil (x ∷ l));
            fresh =
                All-not_idle t.timeout from (clock fuel) n.0 (x ∷ l) (reads fuel).0 young
                  (Newest-last k n (x ∷ l) newest at_end);
            stale = tt;
          },
        )
      ]

module _ {K V : Type 0} where
  Newest-prefix : (l r : Items K V) → Newest (l ++ r) → Newest l
  Newest-prefix [] r h = tt
  Newest-prefix (x ∷ []) r h = tt
  Newest-prefix (x ∷ y ∷ l) r h = (h.0, Newest-prefix (y ∷ l) r h.1)

  Before-prefix : (now : ℕ) (l r : Items K V) → Before now (l ++ r) → Before now l
  Before-prefix now [] r h = tt
  Before-prefix now (x ∷ l) r h = (h.0, Before-prefix now l r h.1)

  -- What is kept is in order, and no longer than the list was.
  pub kept-IsTimed :
      (from until timeout now : ℕ) (t t' : TimerList K V) (l kept gone : Items K V) ⦃e : Eq K⦄
      → IsTimed now t l
      → Lists t'.list kept
      → Keeps from until timeout l kept gone
      → IsTimed now t' kept × (length kept ≤ length l)
  kept-IsTimed from until timeout now t t' l kept gone h lists keeps = (
    record {
      lists = lists;
      newest = Newest-prefix kept gone (subst Newest keeps.parts h.newest);
      before = Before-prefix now kept gone (subst (Before now) keeps.parts h.before);
    },
    omega (arith, ap length keeps.parts, length-append kept gone),
  )
