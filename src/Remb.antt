-- ===== src/Remb.antt =====
-- src/gst-plugins/commons/kmsremb.c and kmsremb.h: the congestion control by REMB messages. What both
-- sides share stands here; `Sessions`, `Local` and `Sending` are the side that receives media and
-- sends REMB, `Remote` the side that sends media and receives REMB.
pub mod Sessions
pub mod Local
pub mod Sending
pub mod Remote
pub mod Exchange
use kms_core.Prelude.{ℕ, List}
use kms_core.Prelude.Tables.{Entry, insert}

abbrev pub remb_min : ℕ
remb_min = 30000

abbrev pub remb_max : ℕ
remb_max = 2000000

abbrev pub gst_second : ℕ
gst_second = 1000000000

abbrev pub gst_msecond : ℕ
gst_msecond = 1000000

-- `remb_stats`: the last bitrate of each SSRC.
abbrev pub Stats : Type 0
Stats = List (Entry ℕ)

-- `kms_remb_base_update_stats`.
abbrev pub update_stats : Stats → ℕ → ℕ → Stats
update_stats stats ssrc bitrate = insert stats ssrc bitrate
