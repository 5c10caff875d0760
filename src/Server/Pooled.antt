-- ===== src/Server/Pooled.antt =====
-- server/server.rs: what an event does to the pool.
use minifto.Common.{
  ℕ, ◌+◌, ◌≡◌, refl, Option, none, some, [], ◌∷◌, Bytes, Fallible, returns, panics, ◌>>=◌, ◌||◌,
  Returned, Returned-bind, Returned-step, Returned-branch, List, ap, ◌∙◌, sym, subst, unwrap, Bool,
  true, false, arith, if◌then◌else◌,
}
use minifto.Os.{Os}
use minifto.Kernel.{Kernel}
use minifto.Connection
use minifto.Connection.{Connection, is_close, is_hup}
use minifto.Connection.Calls
use minifto.EventLoop
use minifto.EventLoop.{Token}
use minifto.Socket
use mathlib.Core.Option
use minifto.SortedList
use minifto.SortedList.{Ptr}
use minifto.SortedList.Keys.{descriptor}
use minifto.ThreadPool.{ThreadPool, execute}
use minifto.TimerList
use minifto.TimerList.{TimerList}
use minifto.Server.{
  serve, ready, connect, admit, admits, add_session, notify, notify_session, hang_up, submit,
  deregister, remove_idle, write_revents,
}
use minifto.Server.Owners.{session_of}
use minifto.Server.Jobs.{submitted}
use minifto.Server.State.{Moment, System, set_sessions, drop_sessions}

-- The pool with the jobs that an event gives it.
abbrev pub executed : (k : ℕ) → List ℕ → ThreadPool ℕ → ThreadPool ℕ
executed k [] p = p
executed k (s ∷ jobs) p = executed k jobs (execute k s p)

-- What stands in the node of a descriptor.
abbrev peek : TimerList ℕ ℕ → Option Ptr → Option (ℕ × ℕ)
peek t none = none
peek t (some p) = t.list.heap.val p

-- What `SortedList.get` has found.
abbrev found_value : SortedList.SortedList ℕ (ℕ × ℕ) × Option (Ptr × (ℕ × ℕ)) → Option (ℕ × ℕ)
found_value r = Option.map (λ (n : Ptr × (ℕ × ℕ)). n.1) r.1

get-peek :
    (t : TimerList ℕ ℕ) (fd : ℕ)
    → Returned
        (λ r. found_value r ≡ peek t (SortedList.lookup fd t.list.map))
        (SortedList.get t.list fd)
unfolding SortedList.get
get-peek t fd = go (SortedList.lookup fd t.list.map)
  where
    deref_val :
        (p : Ptr)
        → Returned (λ v. v ≡ t.list.heap.val p) (SortedList.deref t.list.heap p (t.list.heap.val p))
    deref_val p = Returned-branch (λ v. v ≡ t.list.heap.val p) (t.list.heap.live p) _ _ refl tt

    unwrapped : (o : Option (ℕ × ℕ)) → Returned (λ v. some v ≡ o) (unwrap o)
    unwrapped none = tt
    unwrapped (some v) = refl

    go :
        (o : Option Ptr)
        → Returned
            (λ r. found_value r ≡ peek t o)
            (elim o [
              | none ↦ returns (t.list, none)
              | some node ↦ do
                val ← SortedList.deref t.list.heap node (t.list.heap.val node)
                v ← unwrap val
                s' ← SortedList.to_front t.list node
                returns (s', some (node, v))
            ])
    go none = refl
    go (some p) =
        let P = λ (r : SortedList.SortedList ℕ (ℕ × ℕ) × Option (Ptr × (ℕ × ℕ))).
          found_value r ≡ t.list.heap.val p in
        Returned-step (λ v. v ≡ t.list.heap.val p) P _ _ (deref_val p)
          λ val e.
            Returned-step (λ v. some v ≡ val) P (unwrap val) _ (unwrapped val)
              λ v f. Returned-bind P (SortedList.to_front t.list p) _ λ s'. f ∙ e

get-session_of :
    (now : ℕ) (t : TimerList ℕ ℕ) (fd : ℕ)
    → Returned (λ (r : TimerList ℕ ℕ × Option ℕ). r.1 ≡ session_of t fd) (TimerList.get now t fd)
unfolding TimerList.get session_of
get-session_of now t fd =
    Returned-step (λ r. found_value r ≡ peek t (SortedList.lookup fd t.list.map))
      (λ (r : TimerList ℕ ℕ × Option ℕ). r.1 ≡ session_of t fd) (SortedList.get t.list fd) _
      (get-peek t fd) λ r e. found (SortedList.lookup fd t.list.map) r.0 r.1 e
  where
    found :
        (o : Option Ptr) (s : SortedList.SortedList ℕ (ℕ × ℕ)) (v : Option (Ptr × (ℕ × ℕ)))
        → found_value (s, v) ≡ peek t o
        → Returned
            (λ (r : TimerList ℕ ℕ × Option ℕ). r.1 ≡ elim o [
              | none ↦ none
              | some p ↦ Option.map (λ (n : ℕ × ℕ). n.1) (t.list.heap.val p)
            ])
            (elim v [
              | none ↦ returns (record t { list = s }, none)
              | some n ↦ returns (record t { list = TimerList.stamp now s n }, some n.1.1)
            ])
    found none s none e = refl
    found none s (some n) e = absurd (ground (arith, e))
    found (some p) s none e = ap (Option.map (λ (n : ℕ × ℕ). n.1)) e
    found (some p) s (some n) e = ap (Option.map (λ (n : ℕ × ℕ). n.1)) e

module _ {os : Os} {kernel : Kernel} where
  -- An event leaves the pool as it is.
  unfoldable pub Pooled : ThreadPool ℕ → System os kernel → Type 0
  Pooled p m = m.server.worker_pool ≡ p

  deregister-Pooled :
      (fd : ℕ) (m : System os kernel) → Returned (Pooled m.server.worker_pool) (deregister fd m)
  unfolding deregister Pooled
  deregister-Pooled fd m =
      Returned-bind (Pooled m.server.worker_pool) (EventLoop.deregister kernel fd m.kernel_world) _
        (λ w. refl)

  add_session-Pooled :
      (root : Bytes) (moment : Moment) (fd : ℕ) (conn : Connection) (m : System os kernel)
      → Returned (Pooled m.server.worker_pool) (add_session root moment fd conn m)
  unfolding add_session Pooled
  add_session-Pooled root moment fd conn m =
      Returned-bind (Pooled m.server.worker_pool)
        (TimerList.insert moment.now m.server.sessions fd m.fresh) _ (λ t. refl)

  admit-Pooled :
      (root : Bytes) (moment : Moment) (fd : ℕ) (conn : Connection) (m : System os kernel)
      → Returned (Pooled m.server.worker_pool) (admit root moment fd conn m)
  unfolding admit
  admit-Pooled root moment fd conn m =
      let P = Pooled m.server.worker_pool in
      let sent = Calls.register_read kernel conn m.kernel_world in
      Returned-branch P (admits m)
        (sent >>= λ w. add_session root moment fd conn (record m { kernel_world = w }))
        (returns (record m { kernel_world = (Calls.shutdown kernel conn m.kernel_world).1 }))
        (Returned-bind P sent _
          λ w. add_session-Pooled root moment fd conn (record m { kernel_world = w }))
        (unfold Pooled in refl)

  ready-Pooled :
      (root : Bytes) (moment : Moment) (token : Token) (m : System os kernel)
      → Returned (Pooled m.server.worker_pool) (ready root moment token m)
  unfolding ready connect Pooled
  ready-Pooled root moment (Token.listen listen_fd) m =
      let P = Pooled m.server.worker_pool in
      Returned-bind P (Socket.accept_client kernel listen_fd m.kernel_world) _ λ r.
        Returned-bind P (Connection.new r.0 (kernel.sockname r.0 r.1) (kernel.peername r.0 r.1)) _
          λ conn. admit-Pooled root moment r.0 conn (record m { kernel_world = r.1 })
  ready-Pooled root moment (Token.notify fd) m = refl
  ready-Pooled root moment (Token.timer fd) m = refl

  hang_up-Pooled :
      (fd : ℕ) (m : System os kernel) → Returned (Pooled m.server.worker_pool) (hang_up fd m)
  unfolding hang_up
  hang_up-Pooled fd m =
      Returned-bind (Pooled m.server.worker_pool) (TimerList.remove m.server.sessions fd) _
        λ r. deregister-Pooled fd _

  remove_idle-Pooled :
      (moment : Moment) (fd : ℕ) (m : System os kernel)
      → Returned (Pooled m.server.worker_pool) (remove_idle moment fd m)
  unfolding remove_idle Pooled
  remove_idle-Pooled moment fd m =
      Returned-bind (Pooled m.server.worker_pool)
        (TimerList.remove_idle (TimerList.size m.server.sessions + 1) moment.clock
          m.server.sessions)
        _ removed
    where
      removed :
          (r : Option (TimerList ℕ ℕ))
          → Returned (Pooled m.server.worker_pool) (elim r [
            | none ↦ panics
            | some t ↦
                let dropped =
                  drop_sessions m m.server.sessions t m.server.sessions.list.map m.kernel_world in
                returns (record (set_sessions m t) { kernel_world = kernel.read fd dropped })
          ])
      removed none = tt
      removed (some t) = refl

  abbrev pub Submits : Moment → Token → ℕ → System os kernel → System os kernel → Type 0
  Submits moment token revents m m' =
      m'.server.worker_pool
      ≡ executed moment.choice (submitted token revents m) m.server.worker_pool

  notify_session-Submits :
      (moment : Moment) (fd revents s : ℕ) (m m0 : System os kernel)
      → m.server.worker_pool ≡ m0.server.worker_pool
      → session_of m0.server.sessions fd ≡ some s
      → Returned
          (Submits moment (Token.notify fd) revents m0)
          (notify_session moment fd revents s m)
  unfolding notify_session submit write_revents submitted
  notify_session-Submits moment fd revents s m m0 same e =
      let asked : submitted (Token.notify fd) revents m0
          ≡ (if is_close revents || is_hup revents then [] else s ∷ []) =
        rw (submitted, e) refl in
      let P = λ (jobs : List ℕ) (m' : System os kernel).
        m'.server.worker_pool ≡ executed moment.choice jobs m0.server.worker_pool in
      subst (λ jobs. Returned (P jobs) (notify_session moment fd revents s m)) (sym asked)
        (Returned-branch (P (if is_close revents || is_hup revents then [] else s ∷ []))
          (m.slots s).poisoned panics _ tt (closed (is_close revents || is_hup revents)))
    where
      closed :
          (b : Bool)
          → Returned
              (λ m'.
                m'.server.worker_pool
                ≡ executed moment.choice (if b then [] else s ∷ []) m0.server.worker_pool)
              (if b
                then hang_up fd (write_revents revents s m)
                else returns (submit moment s (write_revents revents s m)))
      closed true =
          subst
            (λ p.
              Returned (λ m'. m'.server.worker_pool ≡ p) (hang_up fd (write_revents revents s m)))
            same (unfold Pooled in hang_up-Pooled fd (write_revents revents s m))
      closed false = ap (execute moment.choice s) same

  notify-Submits :
      (moment : Moment) (fd revents : ℕ) (m : System os kernel)
      → Returned
          (Submits moment (Token.notify fd) revents m)
          (notify moment (Token.notify fd) revents m)
  unfolding notify submitted
  notify-Submits moment fd revents m =
      Returned-step (λ r. r.1 ≡ session_of m.server.sessions fd) _
        (TimerList.get moment.now m.server.sessions fd) _
        (get-session_of moment.now m.server.sessions fd) λ r e. got r.0 r.1 e
    where
      got :
          (t : TimerList ℕ ℕ) (v : Option ℕ)
          → v ≡ session_of m.server.sessions fd
          → Returned (Submits moment (Token.notify fd) revents m) (elim v [
            | none ↦ deregister fd (set_sessions m t)
            | some s ↦ notify_session moment fd revents s (set_sessions m t)
          ])
      got t none e =
          let asked : submitted (Token.notify fd) revents m ≡ [] = rw (submitted, sym e) refl in
          subst
            (λ jobs.
              Returned
                (λ (m' : System os kernel).
                  m'.server.worker_pool ≡ executed moment.choice jobs m.server.worker_pool)
                (deregister fd (set_sessions m t)))
            (sym asked) (unfold Pooled in deregister-Pooled fd (set_sessions m t))
      got t (some s) e =
          notify_session-Submits moment fd revents s (set_sessions m t) m refl (sym e)

  -- The events behind the last.
  none_left :
      (root : Bytes) (P : System os kernel → Type 0) (r : Fallible (System os kernel))
      → Returned P r
      → Returned P (r >>= λ m. serve root [] m)
  unfolding serve
  none_left root P (returns m) h = h
  none_left root P panics h = tt

  pub serve-Submits :
      (root : Bytes) (moment : Moment) (token : Token) (revents : ℕ) (m : System os kernel)
      → Returned (Submits moment token revents m) (serve root ((moment, (token, revents)) ∷ []) m)
  unfolding serve submitted Pooled notify
  serve-Submits root moment (Token.listen fd) revents m =
      none_left root (Submits moment (Token.listen fd) revents m) _
        (ready-Pooled root moment (Token.listen fd) m)
  serve-Submits root moment (Token.notify fd) revents m =
      none_left root (Submits moment (Token.notify fd) revents m) _
        (notify-Submits moment fd revents m)
  serve-Submits root moment (Token.timer fd) revents m =
      none_left root (Submits moment (Token.timer fd) revents m) _ (remove_idle-Pooled moment fd m)
