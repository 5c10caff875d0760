-- ===== src/Server/Owners.antt =====
-- server/server.rs: who owns a session, an `Arc<Mutex<Session>>`: the list of sessions, and the jobs.
use minifto.Common.{ℕ, Bool, false, ◌||◌, ◌==◌, Option, none, some, List, [], ◌∷◌}
use mathlib.Core.Option
use minifto.SortedList
use minifto.SortedList.Keys.{descriptor}
use minifto.ThreadPool.{ThreadPool, Workers, Message, Status}
use minifto.TimerList.{TimerList}

-- Whether a job in the queue or in a worker owns the session `s`.
in_queue : ℕ → List (Message ℕ) → Bool
in_queue s [] = false
in_queue s (Message.new_job j ∷ q) = (j == s) || in_queue s q
in_queue s (Message.timer_job j ∷ q) = (j == s) || in_queue s q
in_queue s (Message.terminate ∷ q) = in_queue s q

in_workers : ℕ → Workers ℕ → Bool
in_workers s [] = false
in_workers s ((i, Status.busy j) ∷ ws) = (j == s) || in_workers s ws
in_workers s ((i, Status.last j) ∷ ws) = (j == s) || in_workers s ws
in_workers s (w ∷ ws) = in_workers s ws

unfoldable pub is_owned : ℕ → ThreadPool ℕ → Bool
unfolding in_queue in_workers
is_owned s p = in_queue s p.queue || in_workers s p.workers

-- Whether the list of sessions owns the session `s`.
in_list : ℕ → (ℕ → Option (ℕ × ℕ)) → List (ℕ × ℕ) → Bool
in_list s val [] = false
in_list s val ((fd, p) ∷ m) =
    let rest = in_list s val m in elim (val p) [ none ↦ rest | some v ↦ (v.1 == s) || rest ]

unfoldable pub is_listed : ℕ → TimerList ℕ ℕ → Bool
unfolding in_list
is_listed s t = in_list s t.list.heap.val t.list.map

-- The session that stands for a descriptor in a list.
unfoldable pub session_of : TimerList ℕ ℕ → ℕ → Option ℕ
session_of t fd = elim (SortedList.lookup fd t.list.map) [
  | none ↦ none
  | some p ↦ Option.map (λ v. v.1) (t.list.heap.val p)
]
