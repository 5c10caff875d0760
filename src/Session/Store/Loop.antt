-- ===== src/Session/Store/Loop.antt =====
-- handler/session.rs: the loop of STOR, over a stream that comes in chunks.
use minifto.Common.{
  ℕ, zero, suc, ◌<◌, ◌≡◌, refl, sym, ap, ◌∙◌, Bool, true, false, if◌then◌else◌, some, List, [], ◌∷◌,
  ◌++◌, append_assoc, append-nil, Bytes, arith, length,
}
use minifto.Cmd.Answer.{is_empty}
use minifto.Os.{Os}
use minifto.SpeedBarrier
use minifto.SpeedBarrier.{SpeedBarrier}
use minifto.Session.State.{Machine, done, set_world}
use minifto.Session.Store.{receive_loop}

-- The bytes of a stream of chunks.
unfoldable pub all_of : List Bytes → Bytes
all_of [] = []
all_of (chunk ∷ chunks) = chunk ++ all_of chunks

-- The barrier and the world after a round that has written something.
abbrev paused :
    (os : Os) (c : os.Sock) (file : os.File) → SpeedBarrier → Machine os → SpeedBarrier × os.World
paused os c file barrier m =
    let (buf, w) = os.read_buf c m.world in
    SpeedBarrier.limit os barrier (length buf) (os.write file buf w).1

-- A round that has read something and written all of it is followed by the next.
receive_again :
    {os : Os} (c : os.Sock) (file : os.File) (fuel : ℕ) (barrier : SpeedBarrier) (m : Machine os)
    → is_empty (os.read_buf c m.world).0 ≡ false
    → (os.write file (os.read_buf c m.world).0 (os.read_buf c m.world).1).0
      ≡ some (length (os.read_buf c m.world).0)
    → receive_loop (suc fuel) barrier c file m
      ≡ receive_loop fuel
          (paused os c file barrier m).0
          c
          file
          (set_world m (paused os c file barrier m).1)
unfolding receive_loop
receive_again c file fuel barrier m full written = ground (arith, full, written)

-- A sleep in the barrier keeps what a sleep keeps.
limit-kept :
    (os : Os) {A : Type 0} (f : os.World → A)
    → ((duration : ℕ) (w : os.World) → f (os.sleep duration w) ≡ f w)
    → (barrier : SpeedBarrier) (n : ℕ) (w : os.World)
    → f (SpeedBarrier.limit os barrier n w).1 ≡ f w
unfolding SpeedBarrier.limit
limit-kept os f keeps barrier n w =
    slept _ (SpeedBarrier.limit_speed os.normal_elapsed (os.now w) (os.now w) barrier n).1
  where
    slept : (still : Bool) (delay : ℕ) → f (if still then w else os.sleep delay w) ≡ f w
    slept true delay = refl
    slept false delay = keeps delay w

module _ {os : Os} (c : os.Sock) (file : os.File) (left : os.World → List Bytes)
    (stored : os.World → Bytes)
    (read_end : (w : os.World)
      → left w ≡ []
      → ((os.read_buf c w).0 ≡ []) × (stored (os.read_buf c w).1 ≡ stored w))
    (read_next : (w : os.World) (chunk : Bytes) (chunks : List Bytes)
      → left w ≡ chunk ∷ chunks
      → (is_empty chunk ≡ false)
        × ((os.read_buf c w).0 ≡ chunk)
        × (left (os.read_buf c w).1 ≡ chunks)
        × (stored (os.read_buf c w).1 ≡ stored w))
    (write_all : (chunk : Bytes) (w : os.World)
      → ((os.write file chunk w).0 ≡ some (length chunk))
        × (left (os.write file chunk w).1 ≡ left w)
        × (stored (os.write file chunk w).1 ≡ stored w ++ chunk))
    (sleep_keeps : (duration : ℕ) (w : os.World)
      → (left (os.sleep duration w) ≡ left w) × (stored (os.sleep duration w) ≡ stored w)) where
  -- If `read_buf` gives the chunks that a stream has left one after the other, none of them empty,
  -- and nothing at the end of the stream, `write` puts all its bytes behind those stored, and a
  -- sleep changes neither, then with more fuel than there are chunks the loop of STOR returns, and
  -- all bytes of the stream have been stored in order.
  pub receive_loop-all_of :
      (chunks : List Bytes) (fuel : ℕ) (barrier : SpeedBarrier) (m : Machine os)
      → left m.world ≡ chunks
      → length chunks < fuel
      → (m' : Machine os) × (receive_loop fuel barrier c file m ≡ done m')
        × (stored m'.world ≡ stored m.world ++ all_of chunks)
  unfolding receive_loop all_of
  receive_loop-all_of [] (suc fuel) barrier m at_end enough =
      let (e, kept) = read_end m.world at_end in
      (set_world m (os.read_buf c m.world).1, rw (e) refl, kept ∙ sym (append-nil (stored m.world)))
  receive_loop-all_of (chunk ∷ chunks) (suc fuel) barrier m more enough =
      let (full, e, rest, kept) = read_next m.world chunk chunks more in
      let got : Bytes = (os.read_buf c m.world).0 in
      let w : os.World = (os.read_buf c m.world).1 in
      let (written, same, added) = write_all got w in
      let limited = SpeedBarrier.limit os barrier (length got) (os.write file got w).1 in
      let after : os.World = (os.write file got w).1 in
      let stays = limit-kept os left (λ d w. (sleep_keeps d w).0) barrier (length got) after in
      let keeps = limit-kept os stored (λ d w. (sleep_keeps d w).1) barrier (length got) after in
      let m1 : Machine os = set_world m limited.1 in
      let (m', run, sum) =
        receive_loop-all_of chunks fuel limited.0 m1 (stays ∙ same ∙ rest) (omega arith) in
      (
        m',
        receive_again c file fuel barrier m (ap is_empty e ∙ full) written ∙ run,
        rw (sum, keeps, added, kept, e, append_assoc (stored m.world) chunk (all_of chunks)) refl,
      )
  receive_loop-all_of chunks zero barrier m more enough = absurd (omega arith)
