-- ===== src/Tests/RtpSynchronizer.antt =====
-- kmsrtpsynchronizer.c with a clock of 1 kHz, so that an RTP tick is a millisecond.
use kms_core.Prelude.{
  ℕ, ◌+◌, ◌-◌, ◌*◌, ◌/◌, ◌%◌, ◌^◌, ◌<◌, ◌≡◌, ◌⊎◌, refl, inl, min, true, false, some, List, [], ◌∷◌,
  arith,
}
use kms_core.Prelude.Int.{pos}
use kms_core.RtpSynchronizer.{
  Gst, Synchronizer, RtpBuffer, rtp_diff, synchronized, reported, rtp_diff_full, timed, keep_sorted,
  process_accepted, process_rtp_buffer, max_uint64,
}
use kms_core.RtpSynchronizer.Clamping.{
  Words, ahead, behind, forwards, backwards, rtp_diff-clamps, synchronized-clamps,
  synchronized_wrong_end,
}
use kms_core.RtpSynchronizer.Sorting.{process_rtp_buffer_refuses, times, Ascends, times-Ascends}

abbrev word_gst : Gst
word_gst = record {
  ext_timestamp = λ last ts. (ts, ts);
  scale = λ val num denom. val * num / denom % 2 ^ 64;
  scale_word = λ val num denom. omega arith;
}

-- A synchronizer in sorted mode that has had a sender report and a buffer.
abbrev reported_one : Synchronizer
reported_one = record {
  feeded_sorted = true;
  ssrc = 7;
  pt = pos 96;
  clock_rate = 1000;
  base_initiated = true;
  base_initiated_logged = true;
  base_ntp_time = 5000000000;
  base_sync_time = 1000000000;
  base_interpolate_initiated = false;
  base_interpolate_ext_ts = max_uint64;
  base_interpolate_pts = max_uint64;
  rtp_ext_ts = 2000;
  last_rtcp_ext_ts = 1500;
  last_rtcp_ntp_time = 6000000000;
  fs_last_rtp_ext_ts = 2000;
  fs_last_pts = 2500000000;
}

abbrev buffer_at : ℕ → RtpBuffer
buffer_at ts = record { ssrc = 7; payload_type = 96; timestamp = ts; pts = 0 }

reported_one-Words : Words reported_one
reported_one-Words = record {
  base_ntp = omega arith;
  base_sync = omega arith;
  last_ntp = omega arith;
}

diff_clamped :
    rtp_diff word_gst 2000 1000 1500 1000000000
    ≡ min (1000000000 + ahead word_gst 2000 1000 1500 - behind word_gst 2000 1000 1500) max_uint64
diff_clamped = rtp_diff-clamps word_gst 2000 1000 1500 1000000000 (omega arith)

synchronized-clamps_example :
    synchronized word_gst reported_one
    ≡ min (forwards word_gst reported_one - backwards word_gst reported_one) max_uint64
synchronized-clamps_example =
    synchronized-clamps word_gst reported_one reported_one-Words (λ e. ground arith)
      (λ e. ground arith)

-- The same, with the report's NTP time 1500000001 nanoseconds in front of the base's.
abbrev before_zero : Synchronizer
before_zero = record reported_one { last_rtcp_ntp_time = 3499999999 }

before_zero-Words : Words before_zero
before_zero-Words = record {
  base_ntp = omega arith;
  base_sync = omega arith;
  last_ntp = omega arith;
}

sum_at_wrong_end :
    (1500 < 2000
      → forwards word_gst before_zero + 1 ≡ backwards word_gst before_zero
      → synchronized word_gst before_zero ≡ max_uint64)
    × (2000 < 1500
        → forwards word_gst before_zero ≡ backwards word_gst before_zero + 2 ^ 64
        → synchronized word_gst before_zero ≡ 0)
sum_at_wrong_end = synchronized_wrong_end word_gst before_zero before_zero-Words

abbrev stranger : RtpBuffer
stranger = record { ssrc = 8; payload_type = 96; timestamp = 2100; pts = 3000000000 }

buffer_refused :
    ((process_rtp_buffer word_gst reported_one stranger).1 ≡ 3000000000)
    × ((process_rtp_buffer word_gst reported_one stranger).2 ≡ false)
    × (((process_rtp_buffer word_gst reported_one stranger).0 ≡ reported_one)
        ⊎ (reported_one.ssrc ≡ 0)
          × ((process_rtp_buffer word_gst reported_one stranger).0
              ≡ record reported_one { ssrc = 8 }))
buffer_refused =
    process_rtp_buffer_refuses word_gst reported_one stranger
      (inl ((λ e. ground arith), (λ e. ground arith)))

abbrev two_buffers : List RtpBuffer
two_buffers = buffer_at 2100 ∷ buffer_at 2100 ∷ []

abbrev two_times : List ℕ
two_times = 2600000000 ∷ 2600000000 ∷ []

two_times_ran : times word_gst reported_one two_buffers ≡ some two_times
unfolding times process_rtp_buffer process_accepted timed keep_sorted synchronized reported
    rtp_diff_full
two_times_ran = refl

times-Ascends_example : Ascends 2500000000 two_times
times-Ascends_example =
    times-Ascends word_gst two_buffers reported_one two_times refl refl two_times_ran
      (refl, (refl, tt))
