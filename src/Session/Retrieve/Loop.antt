-- ===== src/Session/Retrieve/Loop.antt =====
-- handler/session.rs: the loop of RETR, with `sendfile` as it is documented.
use minifto.Common.{
  ℕ, zero, suc, ◌+◌, ◌*◌, ◌≤◌, ◌<◌, ◌≡◌, ◌≢◌, refl, some, none, Option, Bool-cases, inl, inr, ltb,
  not-ltb→le, if◌then◌else◌, arith,
}
use minifto.Os.{Os}
use minifto.SpeedBarrier
use minifto.SpeedBarrier.{SpeedBarrier}
use minifto.Session.State.{Machine, Run, done, panicked, out_of_fuel, set_world}
use minifto.Session.Retrieve.{send_loop, default_send_size}

-- `sendfile` does not go past the end of the file, which is at `size`.
module _ {os : Os} (c : os.Sock) (file : os.File) (size : ℕ)
    (within : (offset n : ℕ) (w : os.World)
      → offset ≤ size
      → (os.sendfile c file offset size w).0 ≡ some n
      → offset + n ≤ size) where
  -- If `sendfile` does not go past the end of the file, then the loop of RETR, from an offset
  -- within the file, does not run out of fuel that is enough to pass the end by calls of
  -- `DEAFULT_SEND_SIZE` bytes.
  pub send_loop-ends :
      (fuel : ℕ) (barrier : SpeedBarrier) (len : ℕ) (m : Machine os)
      → len ≤ size
      → size < len + fuel * default_send_size
      → send_loop fuel barrier c file len size m ≢ out_of_fuel
  unfolding send_loop
  send_loop-ends zero barrier len m small enough = absurd (omega arith)
  send_loop-ends (suc fuel) barrier len m small enough =
      sent (os.sendfile c file len size m.world).0 refl λ n below.
        let limited = SpeedBarrier.limit os barrier n (os.sendfile c file len size m.world).1 in
        send_loop-ends fuel limited.0 (len + n) (set_world m limited.1) below
    where
      w : os.World
      w = (os.sendfile c file len size m.world).1

      next : ℕ → Run os
      next n =
          let limited = SpeedBarrier.limit os barrier n w in
          send_loop fuel limited.0 c file (len + n) size (set_world m limited.1)

      sent :
          (result : Option ℕ)
          → (os.sendfile c file len size m.world).0 ≡ result
          → ((n : ℕ)
              → len + n ≤ size
              → size < len + n + fuel * default_send_size
              → next n ≢ out_of_fuel)
          → elim result [
            | none ↦ panicked (set_world m w)
            | some n ↦ if ltb n default_send_size then done (set_world m w) else next n
          ]
            ≢ out_of_fuel
      sent none e more = ground arith
      sent (some n) e more = elim (Bool-cases (ltb n default_send_size)) [
        | inl last ↦ rw (last) (ground arith)
        | inr full ↦ rw (full) (
            more n (within len n m.world small e)
              (omega (arith, not-ltb→le n default_send_size full)))
      ]
