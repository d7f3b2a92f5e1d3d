-- ===== src/Tests/Depayloader.antt =====
-- kmsutils.c: a depayloader that gives a time twice.
use kms_core.Prelude.{ℕ, ◌+◌, ◌*◌, ◌≡◌, refl, List, [], ◌∷◌, arith, length}
use kms_core.Depayloader.{clock_time_none, msecond, adjust_pts_out, pts_out}
use kms_core.Depayloader.Increasing.{Grows, Ascends, pts_out-Grows}

abbrev times : List ℕ
times = 5000000 ∷ 5500000 ∷ 9000000 ∷ []

-- The third buffer is behind the second, whose time was moved.
times_out : pts_out 5000000 times ≡ 6000000 ∷ 7000000 ∷ 9000000 ∷ []
unfolding pts_out adjust_pts_out
times_out = refl

pts_out-Grows_example :
    (pts_out clock_time_none (5000000 ∷ times) ≡ 5000000 ∷ pts_out 5000000 times)
    × Grows (9000000 + length times * msecond) 5000000 times (pts_out 5000000 times)
    × (Ascends 5000000 times → pts_out 5000000 times ≡ times)
pts_out-Grows_example =
    pts_out-Grows 5000000 9000000 times (omega arith)
      (omega arith, (omega arith, (omega arith, tt))) (ground arith)
