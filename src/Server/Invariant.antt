-- ===== src/Server/Invariant.antt =====
-- server/server.rs: the number of the sessions and their order, over any sequence of events.
use minifto.Common.{
  ℕ, ◌+◌, ◌≤◌, refl, ◌||◌, List, [], ◌∷◌, Bytes, Option-cases, inl, inr, arith, Fallible, returns,
  panics,
}
use minifto.Os.{Os}
use minifto.Connection.{is_close, is_hup}
use minifto.EventLoop.{Token}
use minifto.SortedList.{lookup, erase}
use minifto.SortedList.Keys.{descriptor}
use minifto.SortedList.Table.{length-erase}
use minifto.TimerList
use minifto.TimerList.{TimerList}
use minifto.TimerList.Timed.{Items, get-IsTimed, get-absent, remove-IsTimed, length-erase_le}
use minifto.TimerList.Idle.{remove_idle-Keeps, kept-IsTimed}
use mathlib.Core.Option
use mathlib.Core.Option.{Option, none, some}
use minifto.Server.{
  ready, notify, notify_session, hang_up, submit, write_revents, remove_idle, deregister, serve,
}
use minifto.Kernel.{Kernel, called-panics}
use minifto.EventLoop
use minifto.Poller
use minifto.Server.State.{drop_session, Moment, System, set_sessions}
use minifto.Server.Served.{
  Fault, Sound, Sound-update, At, InTime, end_of, IsServer, Served, settled, continued, branch,
  either, Served-bind, shorter, later,
}
use minifto.Server.Admission.{size-IsServer, ready-Served}

module _ {os : Os} {kernel : Kernel} where
  sooner :
      (start : System os kernel) (t u : ℕ) (r : Fallible (System os kernel))
      → t ≤ u
      → Served start t r
      → Served start u r
  unfolding Served
  sooner start t u r le (inl e) = inl e
  sooner start t u r le (inr (m, l, e, h)) = inr (m, l, e, later t u m l le h)

module _ {os : Os} {kernel : Kernel} {start : System os kernel} where
  deregister-Served :
      (t fd : ℕ) (m : System os kernel) (l : Items ℕ ℕ)
      → IsServer start t m l
      → Served start t (deregister fd m)
  unfolding deregister EventLoop.deregister Poller.update
  deregister-Served t fd m l h =
      either t (EventLoop.deregister kernel fd m.kernel_world)
        (λ w. returns (record m { kernel_world = w }))
        (λ e. Fault.del_fails fd m.kernel_world (called-panics _ e))
        (λ w.
          settled t (record m { kernel_world = w }) l
            (record { timed = h.timed; at_most = h.at_most; sound = h.sound }))

  hang_up-Served :
      (t fd : ℕ) (m : System os kernel) (l : Items ℕ ℕ)
      → IsServer start t m l
      → Served start t (hang_up fd m)
  unfolding hang_up
  hang_up-Served t fd m l h =
      let (s, run, timed) = remove-IsTimed t m.server.sessions l fd h.timed in
      let given : Option ℕ = Option.map (λ n. n.1) (lookup fd l) in
      continued start t (TimerList.remove m.server.sessions fd) (s, given)
        (λ r.
          deregister fd
            (record (set_sessions m r.0) { kernel_world = drop_session m r.1 m.kernel_world }))
        run
        (deregister-Served t fd
          (record (set_sessions m s) { kernel_world = drop_session m given m.kernel_world })
          (erase fd l)
          (record {
            timed = timed;
            at_most = shorter t m l (erase fd l) h (length-erase_le fd l);
            sound = h.sound;
          }))

  notify_session-Served :
      (t : ℕ) (moment : Moment) (fd revents s : ℕ) (m : System os kernel) (l : Items ℕ ℕ)
      → IsServer start t m l
      → Served start t (notify_session moment fd revents s m)
  unfolding notify_session submit write_revents
  notify_session-Served t moment fd revents s m l h =
      let written : Sound start (write_revents revents s m).slots =
        Sound-update start m.slots s _ h.sound (h.sound s) in
      branch start t (m.slots s).poisoned panics _
        (λ e. unfold Served in inl (refl, Fault.was_poisoned s (h.sound s e)))
        (λ e.
          branch start t (is_close revents || is_hup revents)
            (hang_up fd (write_revents revents s m))
            (returns (submit moment s (write_revents revents s m)))
            (λ e.
              hang_up-Served t fd (write_revents revents s m) l
                (record { timed = h.timed; at_most = h.at_most; sound = written }))
            (λ e.
              settled t (submit moment s (write_revents revents s m)) l
                (record { timed = h.timed; at_most = h.at_most; sound = written })))

  -- The system after `get`, of a key that is there or not.
  get-Served :
      (t : ℕ) (moment : Moment) (fd revents : ℕ) (m : System os kernel) (l : Items ℕ ℕ)
      → At t moment
      → IsServer start t m l
      → Served start moment.now (notify moment (Token.notify fd) revents m)
  unfolding notify
  get-Served t moment fd revents m l at h = elim (Option-cases (lookup fd l)) [
    | inl none_there ↦
        let run = get-absent moment.now m.server.sessions l fd h.timed.lists none_there in
        rw (run) (deregister-Served moment.now fd m l (later t moment.now m l at.0 h))
    | inr found ↦
        let (s, run, timed) =
          get-IsTimed t moment.now m.server.sessions l fd found.0 h.timed at.0 found.1 in
        rw (run) (
          notify_session-Served moment.now moment fd revents found.0.1 (set_sessions m s) _
            (record {
              timed = timed;
              at_most =
                  shorter t m l ((fd, (moment.now, found.0.1)) ∷ erase fd l) h
                    (omega (arith, length-erase fd found.0 l found.1));
              sound = h.sound;
            }))
  ]

  remove_idle-Served :
      (t : ℕ) (moment : Moment) (fd : ℕ) (m : System os kernel) (l : Items ℕ ℕ)
      → At t moment
      → IsServer start t m l
      → Served start t (remove_idle moment fd m)
  unfolding remove_idle
  remove_idle-Served t moment fd m l at h =
      let (s, kept, gone, run, lists, keeps) =
        remove_idle-Keeps moment.clock moment.now moment.until at.1
          (TimerList.size m.server.sessions + 1) m.server.sessions l h.timed.lists h.timed.newest
          (omega (arith, size-IsServer t m l h)) in
      let (timed, less) =
        kept-IsTimed moment.now moment.until m.server.sessions.timeout t m.server.sessions s l kept
          gone h.timed lists keeps in
      rw (run) (
        settled t (record (set_sessions m s) { kernel_world = _ }) kept
          (record { timed = timed; at_most = shorter t m l kept h less; sound = h.sound }))

  notify-Served :
      (t : ℕ) (moment : Moment) (token : Token) (revents : ℕ) (m : System os kernel) (l : Items ℕ ℕ)
      → At t moment
      → IsServer start t m l
      → Served start moment.until (notify moment token revents m)
  notify-Served t moment (Token.notify fd) revents m l at h =
      sooner start moment.now moment.until _ at.2 (get-Served t moment fd revents m l at h)
  notify-Served t moment (Token.timer fd) revents m l at h =
      unfold notify in
      sooner start t moment.until (remove_idle moment fd m) (omega (arith, at.0, at.2))
        (remove_idle-Served t moment fd m l at h)
  notify-Served t moment (Token.listen fd) revents m l at h =
      unfold notify in
      settled moment.until m l (later t moment.until m l (omega (arith, at.0, at.2)) h)

  pub serve-Served :
      (t : ℕ) (root : Bytes) (es : List (Moment × (Token × ℕ))) (m : System os kernel)
      (l : Items ℕ ℕ)
      → InTime t es
      → IsServer start t m l
      → Served start (end_of t es) (serve root es m)
  unfolding serve
  serve-Served t root [] m l times h = settled t m l h
  serve-Served t root ((moment, (Token.listen fd, revents)) ∷ es) m l times h =
      Served-bind (end_of moment.until es) moment.until (ready root moment (Token.listen fd) m)
        (λ m'. serve root es m') (ready-Served t root moment fd m l times.0 h)
        (λ m' l' h'. serve-Served moment.until root es m' l' times.1 h')
  serve-Served t root ((moment, (Token.notify fd, revents)) ∷ es) m l times h =
      Served-bind (end_of moment.until es) moment.until (notify moment (Token.notify fd) revents m)
        (λ m'. serve root es m') (notify-Served t moment (Token.notify fd) revents m l times.0 h)
        (λ m' l' h'. serve-Served moment.until root es m' l' times.1 h')
  serve-Served t root ((moment, (Token.timer fd, revents)) ∷ es) m l times h =
      Served-bind (end_of moment.until es) moment.until (notify moment (Token.timer fd) revents m)
        (λ m'. serve root es m') (notify-Served t moment (Token.timer fd) revents m l times.0 h)
        (λ m' l' h'. serve-Served moment.until root es m' l' times.1 h')
