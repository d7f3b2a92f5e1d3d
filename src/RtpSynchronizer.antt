-- ===== src/RtpSynchronizer.antt =====
-- src/gst-plugins/commons/kmsrtpsynchronizer.c: presentation times of RTP buffers, from RTCP sender
-- reports or, before the first, by interpolation. The mutex makes each call one step; the stats file
-- is left out. A GstClockTime is a guint64, and its value 2 ^ 64 - 1 is GST_CLOCK_TIME_NONE.
pub mod Clamping
pub mod Sorting
use kms_core.Prelude.{
  ℕ, zero, suc, ◌+◌, ◌-◌, ◌*◌, ◌%◌, ◌^◌, ◌<◌, ◌≡◌, Bool, true, false, not, ◌&&◌, ◌||◌, ltb, leb,
  ◌==◌, if◌then◌else◌,
}
use kms_core.Prelude.Int.{ℤ, pos, negsuc}

-- What the code takes from GStreamer. `ext_timestamp` is `gst_rtp_buffer_ext_timestamp`: the stored
-- extended timestamp and the result. `scale` is `gst_util_uint64_scale`, whose result is a guint64.
pub record Gst : Type 0 where
  pub ext_timestamp : ℕ → ℕ → ℕ × ℕ
  pub scale : ℕ → ℕ → ℕ → ℕ
  pub scale_word : (val num denom : ℕ) → scale val num denom < 2 ^ 64

abbrev pub gst_second : ℕ
gst_second = 1000000000

abbrev pub max_uint64 : ℕ
max_uint64 = 18446744073709551615

abbrev pub clock_time_none : ℕ
clock_time_none = max_uint64

abbrev pub clock_time_is_valid : ℕ → Bool
clock_time_is_valid t = not (t == clock_time_none)

-- `KmsRtpSynchronizerPrivate`. `clock_rate` is 0 until a positive one is set.
pub record Synchronizer : Type 0 where
  pub feeded_sorted : Bool
  pub ssrc : ℕ
  pub pt : ℤ
  pub clock_rate : ℕ
  pub base_initiated : Bool
  pub base_initiated_logged : Bool
  pub base_ntp_time : ℕ
  pub base_sync_time : ℕ
  pub base_interpolate_initiated : Bool
  pub base_interpolate_ext_ts : ℕ
  pub base_interpolate_pts : ℕ
  pub rtp_ext_ts : ℕ
  pub last_rtcp_ext_ts : ℕ
  pub last_rtcp_ntp_time : ℕ
  pub fs_last_rtp_ext_ts : ℕ
  pub fs_last_pts : ℕ

-- `kms_rtp_synchronizer_new` and `kms_rtp_synchronizer_init`.
unfoldable pub new : Bool → Synchronizer
new sorted = record {
  feeded_sorted = sorted;
  ssrc = 0;
  pt = pos 0;
  clock_rate = 0;
  base_initiated = false;
  base_initiated_logged = false;
  base_ntp_time = clock_time_none;
  base_sync_time = clock_time_none;
  base_interpolate_initiated = false;
  base_interpolate_ext_ts = clock_time_none;
  base_interpolate_pts = clock_time_none;
  rtp_ext_ts = clock_time_none;
  last_rtcp_ext_ts = clock_time_none;
  last_rtcp_ntp_time = clock_time_none;
  fs_last_rtp_ext_ts = clock_time_none;
  fs_last_pts = clock_time_none;
}

-- `kms_rtp_synchronizer_set_pt_clock_rate`.
unfoldable pub set_pt_clock_rate : Synchronizer → ℤ → ℤ → Synchronizer × Bool
set_pt_clock_rate s pt (negsuc n) = (s, false)
set_pt_clock_rate s pt (pos rate) =
    if rate == 0
    then (s, false)
    else if not (s.clock_rate == 0)
    then (s, false)
    else (record s { pt = pt; clock_rate = rate }, true)

-- An RTCP packet: a sender report with its NTP and RTP timestamps, or any other.
pub data RtcpPacket : Type 0 where
  sender_report : ℕ → ℕ → RtcpPacket
  other_packet : RtcpPacket

-- An RTP buffer. `payload_type` is a guint8, `timestamp` a guint32.
pub record RtpBuffer : Type 0 where
  pub ssrc : ℕ
  pub payload_type : ℕ
  pub timestamp : ℕ
  pub pts : ℕ

-- The test `pt != self->priv->pt` of a guint8 and a gint32.
abbrev pub same_pt : ℕ → ℤ → Bool
same_pt n (pos m) = n == m
same_pt n (negsuc m) = false

-- A presentation time, and whether the sum that gave it wrapped down or up.
pub record Wrapped : Type 0 where
  pub time : ℕ
  pub down : Bool
  pub up : Bool

-- The presentation time at the last sender report: `base_sync_time` moved by the NTP difference.
unfoldable pub reported : Synchronizer → Wrapped
reported s =
    if ltb s.base_ntp_time s.last_rtcp_ntp_time
    then record {
      time = (s.base_sync_time + (s.last_rtcp_ntp_time - s.base_ntp_time)) % 2 ^ 64;
      down = false;
      up = ltb (max_uint64 - s.base_sync_time) (s.last_rtcp_ntp_time - s.base_ntp_time);
    }
    else if ltb s.last_rtcp_ntp_time s.base_ntp_time
    then record {
      time = (s.base_sync_time + 2 ^ 64 - (s.base_ntp_time - s.last_rtcp_ntp_time)) % 2 ^ 64;
      down = ltb s.base_sync_time (s.base_ntp_time - s.last_rtcp_ntp_time);
      up = false;
    }
    else record { time = s.base_sync_time; down = false; up = false }

abbrev returning : Bool → Synchronizer × ℕ → Synchronizer × ℕ × Bool
returning ret (s, t) = (s, t, ret)

module _ (gst : Gst) where
  open gst use {ext_timestamp, scale}

  -- `kms_rtp_synchronizer_process_rtcp_packet`.
  unfoldable pub process_rtcp_packet : Synchronizer → RtcpPacket → ℕ → Synchronizer
  process_rtcp_packet s other_packet current_time = s
  process_rtcp_packet s (sender_report ntp_ts rtp_ts) current_time =
      let ntp_time = scale ntp_ts gst_second (2 ^ 32) in
      let started : Synchronizer = if s.base_initiated then s else record s {
        base_initiated = true;
        base_ntp_time = ntp_time;
        base_sync_time = current_time;
      } in
      record started {
        rtp_ext_ts = (ext_timestamp s.rtp_ext_ts rtp_ts).0;
        last_rtcp_ext_ts = (ext_timestamp s.rtp_ext_ts rtp_ts).1;
        last_rtcp_ntp_time = ntp_time;
      }

  -- `kms_rtp_synchronizer_rtp_diff_full`: the new presentation time.
  unfoldable pub rtp_diff_full : ℕ → ℕ → ℕ → Wrapped → ℕ
  rtp_diff_full ext_ts clock_rate base w =
      let ahead = scale (ext_ts - base) gst_second clock_rate in
      let behind = scale (base - ext_ts) gst_second clock_rate in
      if ltb base ext_ts
      then if w.up
        then max_uint64
        else if w.down && ltb ahead (max_uint64 - w.time)
        then 0
        else if not w.down && ltb (max_uint64 - w.time) ahead
        then max_uint64
        else (w.time + ahead) % 2 ^ 64
      else if ltb ext_ts base
      then if w.down
        then 0
        else if w.up && ltb behind w.time
        then max_uint64
        else if not w.up && ltb w.time behind
        then 0
        else (w.time + 2 ^ 64 - behind) % 2 ^ 64
      else if w.down
      then 0
      else if w.up
      then max_uint64
      else w.time

  -- `kms_rtp_synchronizer_rtp_diff`.
  unfoldable pub rtp_diff : ℕ → ℕ → ℕ → ℕ → ℕ
  rtp_diff ext_ts clock_rate base pts =
      rtp_diff_full ext_ts clock_rate base (record { time = pts; down = false; up = false })

  -- The presentation time of a buffer once a sender report has come.
  unfoldable pub synchronized : Synchronizer → ℕ
  synchronized s = rtp_diff_full s.rtp_ext_ts s.clock_rate s.last_rtcp_ext_ts (reported s)

  -- The presentation time of a buffer at the extended timestamp `ext_ts`: interpolated from the
  -- first buffer while no sender report has come.
  unfoldable pub timed : Synchronizer → ℕ → ℕ → Synchronizer × ℕ
  timed s ext_ts pts =
      if s.base_initiated
      then (s, synchronized s)
      else if s.base_interpolate_initiated
      then (
        record s { base_initiated_logged = true },
        rtp_diff s.rtp_ext_ts s.clock_rate s.base_interpolate_ext_ts s.base_interpolate_pts,
      )
      else (
        record s {
          base_initiated_logged = true;
          base_interpolate_initiated = true;
          base_interpolate_ext_ts = ext_ts;
          base_interpolate_pts = pts;
        },
        pts,
      )

  -- In sorted mode a time that would fall behind the last one is raised to it.
  unfoldable pub keep_sorted : ℕ → Synchronizer × ℕ → Synchronizer × ℕ
  keep_sorted ext_ts (s, t) =
      let fixed =
        if clock_time_is_valid s.fs_last_pts && ltb t s.fs_last_pts then s.fs_last_pts else t in
      if s.feeded_sorted
      then (record s { fs_last_rtp_ext_ts = ext_ts; fs_last_pts = fixed }, fixed)
      else (s, t)

  -- `kms_rtp_synchronizer_process_rtp_buffer_mapped` behind its checks of the SSRC and the payload
  -- type: the new state, the buffer's presentation time and the result.
  unfoldable pub process_accepted : Synchronizer → RtpBuffer → Synchronizer × ℕ × Bool
  process_accepted s b =
      let ext_ts = (ext_timestamp s.rtp_ext_ts b.timestamp).1 in
      let seen : Synchronizer = record s {
        rtp_ext_ts = (ext_timestamp s.rtp_ext_ts b.timestamp).0;
      } in
      if s.feeded_sorted
        && (clock_time_is_valid s.fs_last_rtp_ext_ts && ltb ext_ts s.fs_last_rtp_ext_ts)
      then returning false (timed (record seen { feeded_sorted = false }) ext_ts b.pts)
      else if s.feeded_sorted && ext_ts == s.fs_last_rtp_ext_ts
      then (seen, (if clock_time_is_valid s.fs_last_pts then s.fs_last_pts else b.pts), true)
      else returning true (keep_sorted ext_ts (timed seen ext_ts b.pts))

  -- `kms_rtp_synchronizer_process_rtp_buffer_mapped`. The first SSRC that comes is the only one served.
  unfoldable pub process_rtp_buffer : Synchronizer → RtpBuffer → Synchronizer × ℕ × Bool
  process_rtp_buffer s b =
      let locked : Synchronizer = if s.ssrc == 0 then record s { ssrc = b.ssrc } else s in
      if not (s.ssrc == 0) && not (b.ssrc == s.ssrc)
      then (s, b.pts, false)
      else if not (same_pt b.payload_type s.pt) || s.clock_rate == 0
      then (locked, b.pts, false)
      else process_accepted locked b
