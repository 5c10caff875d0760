-- ===== src/SortedList/Keys.antt =====
-- `Eq` of the file descriptors, which are the keys of the sessions.
use minifto.Common.{ℕ, ◌==◌, ◌≡◌, ◌↔◌, true, arith}
use minifto.SortedList.{Eq}

pub ==-iff : (a b : ℕ) → ((a == b) ≡ true) ↔ (a ≡ b)
==-iff a b = (λ h. ground (arith, h), λ h. ground (arith, h))

instance abbrev pub descriptor : Eq ℕ
descriptor = record { beq = ◌==◌; beq_iff = ==-iff }
