-- ===== src/Depayloader.antt =====
-- src/gst-plugins/commons/kmsutils.c: the times of the buffers that leave a depayloader
-- (kms_utils_depayloader_adjust_pts_out). GstClockTime is a guint64, whose greatest number is no time.
pub mod Increasing
use kms_core.Prelude.{
  ℕ, ◌+◌, ◌%◌, ◌^◌, Bool, true, false, not, ◌&&◌, List, [], ◌∷◌, ◌==◌, leb, if◌then◌else◌,
}

-- GST_CLOCK_TIME_NONE.
abbrev pub clock_time_none : ℕ
clock_time_none = 18446744073709551615

-- GST_MSECOND.
abbrev pub msecond : ℕ
msecond = 1000000

-- `kms_utils_depayloader_adjust_pts_out`: the time that the buffer gets as PTS and as DTS, which is the
-- next `last_pts`. `kms_utils_adjust_pts_data_new` starts with no time.
unfoldable pub adjust_pts_out : ℕ → ℕ → ℕ
adjust_pts_out last_pts pts =
    if not (last_pts == clock_time_none) && leb pts last_pts
    then (last_pts + msecond) % 2 ^ 64
    else pts

-- `kms_utils_depayloader_pts_out_it` for each buffer of a list.
unfoldable pub pts_out : ℕ → List ℕ → List ℕ
pts_out last_pts [] = []
pts_out last_pts (pts ∷ buffers) =
    adjust_pts_out last_pts pts ∷ pts_out (adjust_pts_out last_pts pts) buffers
