-- ===== src/RtpSynchronizer/Sorting.antt =====
-- kmsrtpsynchronizer.c: what a synchronizer that is fed in order guarantees.
use kms_core.Prelude.{
  ℕ, ◌≤◌, ◌≡◌, ◌≢◌, ◌⊎◌, inl, inr, arith, true, false, ◌==◌, if◌then◌else◌, List, [], ◌∷◌, Option,
  some, none,
}
use kms_core.RtpSynchronizer.{
  Gst, Synchronizer, RtpBuffer, clock_time_is_valid, timed, keep_sorted, process_accepted,
  process_rtp_buffer, same_pt,
}

-- Each time is at least the one in front of it.
abbrev pub Ascends : ℕ → List ℕ → Type 0
Ascends last [] = Unit
Ascends last (t ∷ ts) = (last ≤ t) × Ascends t ts

abbrev pub AllValid : List ℕ → Type 0
AllValid [] = Unit
AllValid (t ∷ ts) = (clock_time_is_valid t ≡ true) × AllValid ts

module _ (gst : Gst) where
  -- Timing a buffer leaves the sorted mode's fields alone.
  timed_keeps :
      (s : Synchronizer) (ext_ts pts : ℕ)
      → ((timed gst s ext_ts pts).0.feeded_sorted ≡ s.feeded_sorted)
        × ((timed gst s ext_ts pts).0.fs_last_pts ≡ s.fs_last_pts)
  unfolding timed
  timed_keeps s ext_ts pts = ground arith

  -- What a served buffer leaves in sorted mode.
  pub record Sorted (before after : Synchronizer) (time : ℕ) : Type 0 where
    pub sorted : after.feeded_sorted ≡ true
    pub last : after.fs_last_pts ≡ time
    pub not_earlier : before.fs_last_pts ≤ time

  process_accepted-Sorted :
      (s : Synchronizer) (b : RtpBuffer)
      → s.feeded_sorted ≡ true
      → clock_time_is_valid s.fs_last_pts ≡ true
      → (process_accepted gst s b).2 ≡ true
      → Sorted s (process_accepted gst s b).0 (process_accepted gst s b).1
  unfolding process_accepted keep_sorted
  process_accepted-Sorted s b sorted valid served = ground (
    arith,
    timed_keeps (record s { rtp_ext_ts = (gst.ext_timestamp s.rtp_ext_ts b.timestamp).0 })
        (gst.ext_timestamp s.rtp_ext_ts b.timestamp).1 b.pts,
  )

  -- The SSRC that a buffer leaves: the first one that came.
  abbrev lock_ssrc : Synchronizer → RtpBuffer → Synchronizer
  lock_ssrc s b = if s.ssrc == 0 then record s { ssrc = b.ssrc } else s

  -- A buffer that the synchronizer refuses before it reads the timestamp.
  abbrev pub Refused : Synchronizer → RtpBuffer → Type 0
  Refused s b =
      ((s.ssrc ≢ 0) × (b.ssrc ≢ s.ssrc))
      ⊎ (same_pt b.payload_type s.pt ≡ false)
      ⊎ (s.clock_rate ≡ 0)

  -- A buffer of another SSRC, of an unknown payload type or before a clock rate is set is refused:
  -- its time stays, and the synchronizer changes in nothing but the SSRC that it waits for, and in
  -- that only when it had none.
  pub process_rtp_buffer_refuses :
      (s : Synchronizer) (b : RtpBuffer)
      → Refused s b
      → ((process_rtp_buffer gst s b).1 ≡ b.pts)
        × ((process_rtp_buffer gst s b).2 ≡ false)
        × (((process_rtp_buffer gst s b).0 ≡ s)
            ⊎ (s.ssrc ≡ 0) × ((process_rtp_buffer gst s b).0 ≡ record s { ssrc = b.ssrc }))
  unfolding process_rtp_buffer
  process_rtp_buffer_refuses s b r = ground arith

  process_rtp_buffer_cases :
      (s : Synchronizer) (b : RtpBuffer)
      → ((process_rtp_buffer gst s b).2 ≡ false)
        ⊎ (process_rtp_buffer gst s b ≡ process_accepted gst (lock_ssrc s b) b)
  unfolding process_rtp_buffer
  process_rtp_buffer_cases s b = ground (arith)

  lock_ssrc_keeps :
      (s : Synchronizer) (b : RtpBuffer)
      → ((lock_ssrc s b).feeded_sorted ≡ s.feeded_sorted)
        × ((lock_ssrc s b).fs_last_pts ≡ s.fs_last_pts)
  lock_ssrc_keeps s b = ground arith

  process_rtp_buffer-Sorted :
      (s : Synchronizer) (b : RtpBuffer)
      → s.feeded_sorted ≡ true
      → clock_time_is_valid s.fs_last_pts ≡ true
      → (process_rtp_buffer gst s b).2 ≡ true
      → Sorted s (process_rtp_buffer gst s b).0 (process_rtp_buffer gst s b).1
  process_rtp_buffer-Sorted s b sorted valid served = elim (process_rtp_buffer_cases s b) [
    | inl refused ↦ absurd (ground arith)
    | inr accepted ↦
        rw accepted (ground (arith, lock_ssrc_keeps s b, process_accepted-Sorted (lock_ssrc s b) b))
  ]

  -- The times of the buffers that are served, one call after the other; none when one is refused.
  unfoldable pub times : Synchronizer → List RtpBuffer → Option (List ℕ)
  times s [] = some []
  times s (b ∷ bs) =
      let rest = times ((process_rtp_buffer gst s b).0) bs in
      if (process_rtp_buffer gst s b).2
      then elim rest [ none ↦ none | some ts ↦ some ((process_rtp_buffer gst s b).1 ∷ ts) ]
      else none

  -- However the timestamps and the sender reports lie, the times that a synchronizer in sorted mode
  -- gives to a run of buffers that it serves never fall, nor below the last one before the run, if
  -- that one and all of the run are valid clock times.
  pub times-Ascends :
      (bs : List RtpBuffer) (s : Synchronizer) (ts : List ℕ)
      → s.feeded_sorted ≡ true
      → clock_time_is_valid s.fs_last_pts ≡ true
      → times s bs ≡ some ts
      → AllValid ts
      → Ascends s.fs_last_pts ts
  unfolding times
  times-Ascends [] s [] sorted valid ran all = tt
  times-Ascends [] s (t ∷ ts) sorted valid ran all = absurd (ground arith)
  times-Ascends (b ∷ bs) s [] sorted valid ran all = absurd (ground arith)
  times-Ascends (b ∷ bs) s (t ∷ ts) sorted valid ran all =
      let step = process_rtp_buffer-Sorted s b sorted valid in
      let next = (process_rtp_buffer gst s b).0 in ground (arith, step, times-Ascends bs next ts)
