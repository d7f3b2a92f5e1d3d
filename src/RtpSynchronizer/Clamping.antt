-- ===== src/RtpSynchronizer/Clamping.antt =====
-- kmsrtpsynchronizer.c: the presentation time against exact arithmetic.
use kms_core.Prelude.{
  ℕ, ◌+◌, ◌-◌, ◌^◌, ◌<◌, ◌≡◌, ◌≢◌, min, arith, inl, inr, Bool-cases, ltb, ltb→lt, ltb-false,
  if◌then◌else◌, true, false,
}
use kms_core.RtpSynchronizer.{
  Gst, Synchronizer, Wrapped, gst_second, max_uint64, reported, rtp_diff_full, rtp_diff,
  synchronized,
}

-- The distance that a timestamp lies above or below its base, in nanoseconds.
module _ (gst : Gst) (ext_ts clock_rate base : ℕ) where
  abbrev pub ahead : ℕ
  ahead = if ltb base ext_ts then gst.scale (ext_ts - base) gst_second clock_rate else 0

  abbrev pub behind : ℕ
  behind = if ltb ext_ts base then gst.scale (base - ext_ts) gst_second clock_rate else 0

  -- Interpolation is exact and saturates at both ends of guint64.
  pub rtp_diff-clamps :
      (pts : ℕ)
      → pts < 2 ^ 64
      → rtp_diff gst ext_ts clock_rate base pts ≡ min (pts + ahead - behind) max_uint64
  unfolding rtp_diff rtp_diff_full
  rtp_diff-clamps pts h = ground (
    arith,
    gst.scale_word (ext_ts - base) gst_second clock_rate,
    gst.scale_word (base - ext_ts) gst_second clock_rate,
  )

-- A time that stands for `p - m`: in the range of guint64, or wrapped at one of its ends.
data Offset (p m : ℕ) : Wrapped → Type 0 where
  inside :
      (t : ℕ) → t < 2 ^ 64 → t + m ≡ p → Offset p m (record { time = t; down = false; up = false })
  below :
      (t : ℕ)
      → t < 2 ^ 64
      → p < m
      → t + m ≡ p + 2 ^ 64
      → Offset p m (record { time = t; down = true; up = false })
  above :
      (t : ℕ)
      → t < 2 ^ 64
      → t + m + 2 ^ 64 ≡ p
      → Offset p m (record { time = t; down = false; up = true })

module _ (gst : Gst) (ext_ts rate base p m : ℕ) where
  scale_ahead : gst.scale (ext_ts - base) gst_second rate < 2 ^ 64
  scale_ahead = gst.scale_word _ _ _

  scale_behind : gst.scale (base - ext_ts) gst_second rate < 2 ^ 64
  scale_behind = gst.scale_word _ _ _

  rtp_diff_full-clamps :
      {w : Wrapped}
      → Offset p m w
      → p + ahead gst ext_ts rate base + 1 ≢ m + behind gst ext_ts rate base
      → p + ahead gst ext_ts rate base ≢ m + behind gst ext_ts rate base + 2 ^ 64
      → rtp_diff_full gst ext_ts rate base w
        ≡ min (p + ahead gst ext_ts rate base - (m + behind gst ext_ts rate base)) max_uint64
  unfolding rtp_diff_full
  rtp_diff_full-clamps (inside t word e) lo hi = ground (arith, scale_ahead, scale_behind)
  rtp_diff_full-clamps (below t word lt e) lo hi = ground (arith, scale_ahead, scale_behind)
  rtp_diff_full-clamps (above t word e) lo hi = ground (arith, scale_ahead, scale_behind)

  rtp_diff_full_minus_one :
      {w : Wrapped}
      → Offset p m w
      → base < ext_ts
      → p + ahead gst ext_ts rate base + 1 ≡ m + behind gst ext_ts rate base
      → rtp_diff_full gst ext_ts rate base w ≡ max_uint64
  unfolding rtp_diff_full
  rtp_diff_full_minus_one (inside t word e) lt sum = absurd (ground (arith, scale_ahead))
  rtp_diff_full_minus_one (below t word lt' e) lt sum = ground (arith, scale_ahead)
  rtp_diff_full_minus_one (above t word e) lt sum = absurd (ground (arith, scale_ahead))

  rtp_diff_full_past_end :
      {w : Wrapped}
      → Offset p m w
      → ext_ts < base
      → p + ahead gst ext_ts rate base ≡ m + behind gst ext_ts rate base + 2 ^ 64
      → rtp_diff_full gst ext_ts rate base w ≡ 0
  unfolding rtp_diff_full
  rtp_diff_full_past_end (inside t word e) lt sum = absurd (ground (arith, scale_behind))
  rtp_diff_full_past_end (below t word lt' e) lt sum = absurd (ground (arith, scale_behind))
  rtp_diff_full_past_end (above t word e) lt sum = ground (arith, scale_behind)

-- The times of the state are guint64.
pub record Words (s : Synchronizer) : Type 0 where
  pub base_ntp : s.base_ntp_time < 2 ^ 64
  pub base_sync : s.base_sync_time < 2 ^ 64
  pub last_ntp : s.last_rtcp_ntp_time < 2 ^ 64

module _ (gst : Gst) (s : Synchronizer) where
  -- What the exact presentation time adds up, and what it takes away.
  abbrev pub forwards : ℕ
  forwards =
      s.base_sync_time
      + (s.last_rtcp_ntp_time - s.base_ntp_time)
      + ahead gst s.rtp_ext_ts s.clock_rate s.last_rtcp_ext_ts

  abbrev pub backwards : ℕ
  backwards =
      (s.base_ntp_time - s.last_rtcp_ntp_time)
      + behind gst s.rtp_ext_ts s.clock_rate s.last_rtcp_ext_ts

  reported-Offset :
      Words s
      → Offset
          (s.base_sync_time + (s.last_rtcp_ntp_time - s.base_ntp_time))
          (s.base_ntp_time - s.last_rtcp_ntp_time)
          (reported s)
  unfolding reported
  reported-Offset w = elim (Bool-cases (ltb s.base_ntp_time s.last_rtcp_ntp_time)) [
    | inl later ↦
        let lt = ltb→lt _ _ later in
        rw later
          (elim (Bool-cases
            (ltb (max_uint64 - s.base_sync_time) (s.last_rtcp_ntp_time - s.base_ntp_time))) [
              | inl wraps ↦
                  let over = ltb→lt _ _ wraps in rw wraps (above _ (omega arith) (omega arith))
              | inr fits ↦
                  let under = ltb-false _ _ fits in rw fits (inside _ (omega arith) (omega arith))
            ])
    | inr not_later ↦
        let ge = ltb-false _ _ not_later in
        rw not_later (elim (Bool-cases (ltb s.last_rtcp_ntp_time s.base_ntp_time)) [
          | inl earlier ↦
              let gt = ltb→lt _ _ earlier in
              rw earlier
                (elim (Bool-cases (ltb s.base_sync_time (s.base_ntp_time - s.last_rtcp_ntp_time))) [
                  | inl wraps ↦
                      let over = ltb→lt _ _ wraps in
                      rw wraps (below _ (omega arith) (omega arith) (omega arith))
                  | inr fits ↦
                      let under = ltb-false _ _ fits in
                      rw fits (inside _ (omega arith) (omega arith))
                ])
          | inr same ↦ let le = ltb-false _ _ same in rw same (inside _ (omega arith) (omega arith))
        ])
  ]

  -- The presentation time is the exact sum, saturated at both ends of guint64, but where that sum
  -- is -1 or 2 ^ 64.
  pub synchronized-clamps :
      Words s
      → forwards + 1 ≢ backwards
      → forwards ≢ backwards + 2 ^ 64
      → synchronized gst s ≡ min (forwards - backwards) max_uint64
  unfolding synchronized
  synchronized-clamps w not_below not_above =
      rtp_diff_full-clamps gst s.rtp_ext_ts s.clock_rate s.last_rtcp_ext_ts _ _ (reported-Offset w)
        not_below not_above

  -- At those two sums the result is at the wrong end: a sum of -1 that a timestamp ahead of the
  -- report's gives comes out as GST_CLOCK_TIME_NONE, and a sum of 2 ^ 64 behind it as 0.
  pub synchronized_wrong_end :
      Words s
      → (s.last_rtcp_ext_ts < s.rtp_ext_ts
          → forwards + 1 ≡ backwards
          → synchronized gst s ≡ max_uint64)
        × (s.rtp_ext_ts < s.last_rtcp_ext_ts
            → forwards ≡ backwards + 2 ^ 64
            → synchronized gst s ≡ 0)
  unfolding synchronized
  synchronized_wrong_end w = (
    λ lt e.
        rtp_diff_full_minus_one gst s.rtp_ext_ts s.clock_rate s.last_rtcp_ext_ts _ _
          (reported-Offset w) lt e,
    λ lt e.
        rtp_diff_full_past_end gst s.rtp_ext_ts s.clock_rate s.last_rtcp_ext_ts _ _
          (reported-Offset w) lt e,
  )
