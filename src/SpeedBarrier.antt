-- ===== src/SpeedBarrier.antt =====
-- handler/speed_barrier.rs: the limit of the speed. `normal_elapsed` is the time in microseconds that
-- the floating point division gives, which is an argument.
use minifto.Os.{Os}
use minifto.Common.{ℕ, ◌-◌, ◌==◌, ◌≡◌, refl, true, not, ltb, if◌then◌else◌}
use minifto.Common.Int.{ℤ, is_pos}

-- Times are microseconds.
pub record SpeedBarrier : Type 0 where
  pub start_time : ℕ
  pub max_speed : ℤ

-- `new`
unfoldable pub new : (now : ℕ) → ℤ → SpeedBarrier
new now max_speed = record { start_time = now; max_speed = max_speed }

-- `limit_speed`, with the microseconds that it sleeps; the clock is read before and after.
unfoldable pub limit_speed :
    (normal_elapsed : (size : ℕ) (max_speed : ℤ) → ℕ)
    → (before after : ℕ) → SpeedBarrier
    → (size : ℕ) → SpeedBarrier × ℕ
limit_speed normal_elapsed before after b size =
    let real_elapsed : ℕ = before - b.start_time in
    let ideal : ℕ = normal_elapsed size b.max_speed in
    (
      record b { start_time = after },
      (if not (is_pos b.max_speed)
          then (if ltb real_elapsed ideal then ideal - real_elapsed else 0)
          else 0),
    )

-- `limit_speed` with the clock and the sleep of the system.
unfoldable pub limit : (os : Os) → SpeedBarrier → (size : ℕ) → os.World → SpeedBarrier × os.World
unfolding limit_speed
limit os b size w =
    let before : ℕ = os.now w in
    let delay : ℕ = (limit_speed os.normal_elapsed before before b size).1 in
    let w' : os.World = if delay == 0 then w else os.sleep delay w in
    ((limit_speed os.normal_elapsed before (os.now w') b size).0, w')

-- With a limit, `limit_speed` never sleeps, however fast the data went.
limit_speed-is_pos :
    (normal_elapsed : ℕ → ℤ → ℕ) (before after : ℕ) (b : SpeedBarrier) (size : ℕ)
    → is_pos b.max_speed ≡ true
    → (limit_speed normal_elapsed before after b size).1 ≡ 0
unfolding limit_speed
limit_speed-is_pos normal_elapsed before after b size limited = rw (limited) refl
