-- ===== src/TimerList.antt =====
-- net/sorted_list.rs: `TimerList`, the items with the time of their last use. `Instant::now` is a
-- reading of the clock, in nanoseconds, which is an argument.
pub mod Timed
pub mod Idle
use minifto.Common.{
  ℕ, zero, suc, ◌-◌, ◌/◌, ◌≡◌, Bool, true, false, Option, none, some, List, [], ◌∷◌, ltb, Fallible,
  returns, panics, ◌>>=◌,
}
use minifto.SortedList.{Eq, Ptr, Heap, update}
use minifto.SortedList
use mathlib.Core.Option

-- `timeout < instant.elapsed().as_secs()` at the time `now`
abbrev pub idle : (timeout now instant : ℕ) → Bool
idle timeout now instant = ltb timeout ((now - instant) / 1000000000)

pub record TimerList (K V : Type 0) : Type 0 where
  pub list : SortedList.SortedList K (ℕ × V)
  pub timeout : ℕ

module _ {K V : Type 0} where
  unfoldable pub new : Heap K (ℕ × V) → ℕ → TimerList K V
  new h timeout = record { list = SortedList.new h; timeout = timeout }

  unfoldable pub size : TimerList K V → ℕ
  size t = SortedList.size t.list

module _ {K V : Type 0} ⦃e : Eq K⦄ where
  unfoldable pub contains : TimerList K V → K → Bool
  contains t k = SortedList.contains t.list k

  -- The value that `put` gives back is dropped.
  unfoldable pub insert : (now : ℕ) → TimerList K V → K → V → Fallible (TimerList K V)
  insert now t k v = SortedList.put t.list k (now, v) >>= λ r. returns (record t { list = r.0 })

  -- `*t = Instant::now()`, through the reference that `get_mut` returned.
  abbrev pub stamp :
      ℕ → SortedList.SortedList K (ℕ × V) → Ptr × (ℕ × V) → SortedList.SortedList K (ℕ × V)
  stamp now s (p, (old, v)) = record s {
    heap = record s.heap { val = update s.heap.val p (some (now, v)) };
  }

  -- `get` and `get_mut`
  unfoldable pub get : (now : ℕ) → TimerList K V → K → Fallible (TimerList K V × Option V)
  get now t k = SortedList.get t.list k >>= λ r. elim r.1 [
    | none ↦ returns (record t { list = r.0 }, none)
    | some n ↦ returns (record t { list = stamp now r.0 n }, some n.1.1)
  ]

  unfoldable pub remove : TimerList K V → K → Fallible (TimerList K V × Option V)
  remove t k = SortedList.remove t.list k >>= λ r.
      returns (record t { list = r.0 }, Option.map (λ n. n.1) r.1)

  -- The loop of `remove_idle`, in at most `fuel` rounds. Each round reads the clock.
  unfoldable pub remove_idle :
      ℕ → (clock : ℕ → ℕ) → TimerList K V → Fallible (Option (TimerList K V))
  remove_idle zero clock t = returns none
  remove_idle (suc fuel) clock t = elim (SortedList.is_empty t.list) [
    | true ↦ returns (some t)
    | false ↦ SortedList.last t.list >>= λ v. elim v [
      | none ↦ returns (some t)
      | some n ↦ elim (idle t.timeout (clock fuel) n.0) [
        | true ↦
            SortedList.drop_last t.list >>= λ r. remove_idle fuel clock (record t { list = r.0 })
        | false ↦ returns (some t)
      ]
    ]
  ]
