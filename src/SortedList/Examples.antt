-- ===== src/SortedList/Examples.antt =====
-- net/sorted_list.rs: runs of the list and of the timer list, and the theorems at them.
use minifto.Common.{
  ℕ, ◌*◌, ◌≡◌, refl, false, none, some, List, [], ◌∷◌, arith, returns, if◌then◌else◌,
}
use minifto.SortedList.{Eq, Ptr, Heap, SortedList, new, lookup, erase, drop}
use minifto.SortedList.Addresses.{has}
use minifto.SortedList.Drop.{owned, drop-Lists}
use minifto.SortedList
use minifto.SortedList.Keys.{descriptor}
use minifto.SortedList.Lists.{Lists, new-Lists}
use minifto.SortedList.Trace.{Op, Out, run, step, run_spec, spec}
use minifto.TimerList.{TimerList, idle, insert, get, remove_idle}
use minifto.TimerList
use minifto.TimerList.Timed.{Items, IsTimed, insert-IsTimed, get-IsTimed}
use minifto.TimerList.Idle.{Keeps, remove_idle-Keeps}

unfoldable pub empty_heap : (V : Type 0) → Heap ℕ V
empty_heap V = record {
  next = λ p. 0;
  prev = λ p. 0;
  key = λ p. none;
  val = λ p. none;
  live = λ p. false;
  fresh = 1;
}

program : Unit {0}
unfolding empty_heap run step run_spec spec new lookup erase SortedList.put SortedList.get
    SortedList.remove SortedList.pop SortedList.remove_last SortedList.contains SortedList.size
    SortedList.clear SortedList.drop_last SortedList.to_front SortedList.detach SortedList.attach
    SortedList.take_node
program = tt

abbrev calls : List (Op ℕ ℕ)
calls =
    Op.put 1 10
    ∷ Op.put 2 20
    ∷ Op.put 3 30
    ∷ Op.get 1
    ∷ Op.put 2 21
    ∷ Op.pop
    ∷ Op.remove 2
    ∷ Op.contains 3
    ∷ Op.len
    ∷ Op.clear
    ∷ Op.pop
    ∷ []

-- The least recently used key goes first.
calls_answers :
    run (new (empty_heap ℕ)) calls
    ≡ returns (
        Out.value none
        ∷ Out.value none
        ∷ Out.value none
        ∷ Out.value (some 10)
        ∷ Out.value (some 20)
        ∷ Out.item (some (3, 30))
        ∷ Out.value (some 21)
        ∷ Out.flag false
        ∷ Out.count 1
        ∷ Out.cleared
        ∷ Out.item none
        ∷ [])
unfolding program
calls_answers = refl

-- The sessions 4 and 7, of the seconds 10 and 60, where 90 seconds are allowed.
abbrev pub seconds : ℕ → ℕ
seconds n = n * 1000000000

abbrev pub nobody : TimerList ℕ ℕ
nobody = TimerList.new (empty_heap (ℕ × ℕ)) 90

abbrev pub one_session : Items ℕ ℕ
one_session = (4, (seconds 10, 40)) ∷ []

abbrev two_sessions : Items ℕ ℕ
two_sessions = (7, (seconds 60, 70)) ∷ one_session

pub nobody-IsTimed : IsTimed 0 nobody []
unfolding TimerList.new
nobody-IsTimed = record { lists = new-Lists (empty_heap (ℕ × ℕ)); newest = tt; before = tt }

-- The lists with the first session and with both, which `insert` is proved to return.
abbrev pub first :
    (t : TimerList ℕ ℕ) × (insert (seconds 10) nobody 4 40 ≡ returns t)
    × IsTimed (seconds 10) t one_session
unfolding erase
first = insert-IsTimed 0 (seconds 10) nobody [] 4 40 nobody-IsTimed (omega arith)

abbrev both :
    (t : TimerList ℕ ℕ) × (insert (seconds 60) first.0 7 70 ≡ returns t)
    × IsTimed (seconds 60) t two_sessions
unfolding erase
both = insert-IsTimed (seconds 10) (seconds 60) first.0 one_session 7 70 first.2 (omega arith)

-- The session 4 is inserted once more.
session_again :
    (t : TimerList ℕ ℕ) × (insert (seconds 70) both.0 4 41 ≡ returns t)
    × IsTimed (seconds 70) t ((4, (seconds 70, 41)) ∷ erase 4 two_sessions)
session_again =
    insert-IsTimed (seconds 60) (seconds 70) both.0 two_sessions 4 41 both.2 (omega arith)

get-IsTimed_example :
    (t : TimerList ℕ ℕ) × (get (seconds 80) both.0 4 ≡ returns (t, some 40))
    × IsTimed (seconds 80) t ((4, (seconds 80, 40)) ∷ erase 4 two_sessions)
unfolding lookup
get-IsTimed_example =
    get-IsTimed (seconds 60) (seconds 80) both.0 two_sessions 4 (seconds 10, 40) both.2
      (omega arith) refl

-- At the second 110 the first session was idle for 100 seconds, and the second for 50.
remove_idle-Keeps_example :
    (t : TimerList ℕ ℕ) × (kept : Items ℕ ℕ) × (gone : Items ℕ ℕ) × (remove_idle 3
        (λ i. seconds 110)
        both.0
      ≡ returns (some t))
    × Lists t.list kept
    × Keeps (seconds 110) (seconds 110) both.0.timeout two_sessions kept gone
remove_idle-Keeps_example =
    remove_idle-Keeps (λ i. seconds 110) (seconds 110) (seconds 110)
      (λ i. (omega arith, omega arith)) 3 both.0 two_sessions both.2.lists both.2.newest
      (omega arith)

drop-Lists_example :
    (h : Heap ℕ (ℕ × ℕ)) × (drop both.0.list ≡ returns h)
    × ((q : Ptr)
        → h.live q ≡ (if has q (owned both.0.list) then false else both.0.list.heap.live q))
drop-Lists_example = drop-Lists both.0.list two_sessions both.2.lists
