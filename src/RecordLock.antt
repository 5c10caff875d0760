-- ===== src/RecordLock.antt =====
-- server/record_lock.rs: the lock of a file. The world and `flock` are arguments.
use minifto.Common.{ℕ, Bool, true, if◌then◌else◌, Fallible, returns, panics}

pub data FlockArg : Type 0 where
  lock_exclusive_nonblock lock_shared_nonblock unlock_nonblock : FlockArg

pub record FileLock : Type 0 where
  pub fd : ℕ
  pub is_drop : Bool

unfoldable pub new : ℕ → FileLock
new fd = record { fd = fd; is_drop = true }

unfoldable pub set_drop : Bool → FileLock → FileLock
set_drop on l = record l { is_drop = on }

module _ {W : Type 0} (flock : ℕ → FlockArg → W → Bool × W) where
  -- The error of the call is unwrapped.
  called : ℕ → FlockArg → W → Fallible W
  called fd arg w = let r = flock fd arg w in if r.0 then returns r.1 else panics

  unfoldable pub lock : (writeable : Bool) → FileLock → W → Fallible W
  unfolding called
  lock writeable l w =
      called l.fd
        (if writeable then FlockArg.lock_exclusive_nonblock else FlockArg.lock_shared_nonblock) w

  unfoldable pub unlock : FileLock → W → Fallible W
  unfolding called
  unlock l w = called l.fd FlockArg.unlock_nonblock w

  -- `Drop`
  unfoldable pub drop : FileLock → W → Fallible W
  unfolding unlock
  drop l w = if l.is_drop then unlock l w else returns w
