-- ===== src/Server/Notify.antt =====
-- server/server.rs: the events of a session, and what a panic of its worker does to the server.
use minifto.Common.{
  ℕ, ◌≡◌, refl, ◌∙◌, true, false, ◌||◌, Option, none, some, [], ◌∷◌, Bytes, Bool-cases, inl, inr,
  arith, returns, panics,
}
use minifto.Os.{Os}
use minifto.Codec.{decode_command}
use minifto.Connection.{is_close, is_hup}
use minifto.EventLoop.{Token}
use minifto.Session.State.{Machine}
use minifto.Session.Dispatch.{connected, frame_of, greet}
use minifto.Session.Dispatch.Wire.{handle_command-panics}
use minifto.SortedList.{lookup, erase, update}
use minifto.SortedList.Keys.{descriptor}
use minifto.ThreadPool.{execute}
use minifto.TimerList.{TimerList}
use minifto.TimerList.Timed.{Items, IsTimed, get-IsTimed}
use minifto.Kernel.{Kernel}
use minifto.Server.State.{Moment, System, Slot, set_sessions}
use minifto.Server.{notify, notify_session, submit, write_revents, run_job}
use minifto.Server.Served.{At, IsServer}

module _ {os : Os} {kernel : Kernel} (t : ℕ) (m : System os kernel) (l : Items ℕ ℕ)
    (h : IsServer m t m l) (moment : Moment) (fd revents : ℕ) (at : At t moment) (n : ℕ × ℕ)
    (found : lookup fd l ≡ some n) where
  notify_session-lem :
      (s : TimerList ℕ ℕ) × (notify moment (Token.notify fd) revents m
        ≡ notify_session moment fd revents n.1 (set_sessions m s))
      × IsTimed moment.now s ((fd, (moment.now, n.1)) ∷ erase fd l)
  unfolding notify
  notify_session-lem =
      let (s, run, timed) = get-IsTimed t moment.now m.server.sessions l fd n h.timed at.0 found in
      (s, rw (run) refl, timed)

  -- If the server has the session of a descriptor, whose mutex is not poisoned, and the connection
  -- has not hung up, then `notify` returns: the session has the events that came, the pool has one
  -- job more, for this session, and the session is the most recently used one, at the time of the
  -- event.
  pub notify-submit :
      (m.slots n.1).poisoned ≡ false
      → (is_close revents || is_hup revents) ≡ false
      → (m' : System os kernel) × (notify moment (Token.notify fd) revents m ≡ returns m')
        × (m'.server.worker_pool ≡ execute moment.choice n.1 m.server.worker_pool)
        × ((m'.slots n.1).conn.revents ≡ revents)
        × IsTimed moment.now m'.server.sessions ((fd, (moment.now, n.1)) ∷ erase fd l)
  unfolding notify_session submit write_revents
  notify-submit sound stays =
      let (s, run, timed) = notify_session-lem in
      (
        submit moment n.1 (write_revents revents n.1 (set_sessions m s)),
        run ∙ rw (sound, stays) refl,
        refl,
        ground arith,
        timed,
      )

  notify-poisoned :
      (slots : ℕ → Slot os.Sock)
      → (slots n.1).poisoned ≡ true
      → notify moment (Token.notify fd) revents (record m { slots = slots }) ≡ panics
  unfolding notify notify_session
  notify-poisoned slots bad =
      let (s, run, timed) = get-IsTimed t moment.now m.server.sessions l fd n h.timed at.0 found in
      rw (run, bad) refl

module _ (os : Os) (file_info : Bytes → os.World → Option Bytes) (fuel : ℕ) where
  abbrev start : os.World → Slot os.Sock → Machine os
  start world slot = record { session = slot.session; world = world; sent = [] }

  run_job-poisoned :
      (msg : Bytes) (world : os.World) (slot : Slot os.Sock)
      → connected slot.session.cmd_state ≡ true
      → frame_of (decode_command msg) ≡ none
      → (slot' : Slot os.Sock) × (run_job os file_info fuel (some msg) world slot ≡ some slot')
        × (slot'.poisoned ≡ true)
  unfolding run_job
  run_job-poisoned msg world slot is_open bad = elim (Bool-cases slot.poisoned) [
    | inl e ↦ (slot, rw (e) refl, e)
    | inr e ↦ (
      record slot { session = (greet file_info fuel (start world slot)).session; poisoned = true },
      rw (e, handle_command-panics file_info fuel msg (start world slot) is_open bad) refl,
      refl,
    )
  ]

  -- Of a session that the server has, and whose connection is open, let a worker handle a message
  -- that does not decode to a command. The job leaves the mutex of the session poisoned, and the
  -- next event of its connection, whatever it is, panics the thread of the server.
  pub notify-run_job :
      {kernel : Kernel} (t : ℕ) (m : System os kernel) (l : Items ℕ ℕ) (moment : Moment)
      (fd revents : ℕ) (n : ℕ × ℕ) (msg : Bytes) (world : os.World)
      → IsServer m t m l
      → At t moment
      → lookup fd l ≡ some n
      → connected (m.slots n.1).session.cmd_state ≡ true
      → frame_of (decode_command msg) ≡ none
      → (slot : Slot os.Sock) × (run_job os file_info fuel (some msg) world (m.slots n.1)
          ≡ some slot)
        × (notify moment (Token.notify fd) revents (record m { slots = update m.slots n.1 slot })
            ≡ panics)
  notify-run_job t m l moment fd revents n msg world h at found is_open bad =
      let (slot, run, poisoned) = run_job-poisoned msg world (m.slots n.1) is_open bad in
      (
        slot,
        run,
        notify-poisoned t m l h moment fd revents at n found (update m.slots n.1 slot)
            (ground (arith, poisoned)),
      )
