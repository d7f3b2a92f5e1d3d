-- ===== src/Remb/Sending/Range.antt =====
-- kmsremb.c: when a REMB message is sent, and what it asks for.
use kms_core.Prelude.{
  ℕ, ◌*◌, ◌%◌, ◌^◌, ◌≤◌, ◌<◌, ◌≡◌, ap, inl, inr, ◌⊎◌, max, Bool, true, false, not, ◌&&◌, Option,
  some, none, [], ◌∷◌, ◌+◌, store, if◌then◌else◌, List, arith, ltb, ◌==◌, Bool-cases, Option-cases,
}
use kms_core.Rtcp.{RembPacket, FeedbackPacket, marshall_packet}
use kms_core.Remb.{Stats, update_stats, remb_min, gst_msecond}
use kms_core.Remb.Sessions.{RemoteSession, sub64}
use kms_core.Remb.Local.{Floats, Local, local_update, update_with, get_video_recv_info}
use kms_core.Remb.Sending.{
  Call, remb_max_interval, bitrate_to_send, local_max, add_ssrc, add_ssrcs, send, send_if,
  update_and_send, on_sending_rtcp,
}

-- The lowest bitrate that is asked for.
abbrev pub lowest : ℕ → ℕ
lowest min_bw = max remb_min (min_bw * 1000 % 2 ^ 32)

bitrate_to_send_bounds :
    (remb remb_local_max min_bw : ℕ)
    → (lowest min_bw ≤ bitrate_to_send remb remb_local_max min_bw)
      × (bitrate_to_send remb remb_local_max min_bw ≤ max (lowest min_bw) remb)
      × (0 < remb_local_max
          → bitrate_to_send remb remb_local_max min_bw ≤ max (lowest min_bw) remb_local_max)
unfolding bitrate_to_send
bitrate_to_send_bounds remb remb_local_max min_bw = ground arith

add_ssrcs_bitrate :
    (sessions : List RemoteSession) (stats stats' : Stats) (old new : RembPacket)
    → add_ssrcs sessions (stats, old) ≡ some (stats', new)
    → new.bitrate ≡ old.bitrate
unfolding add_ssrcs add_ssrc
add_ssrcs_bitrate [] stats stats' old new ran = ground arith
add_ssrcs_bitrate (rlrs ∷ sessions) stats stats' old new ran =
    elim (Option-cases (store old.ssrcs old.n_ssrcs rlrs.ssrc)) [
      | inl fault ↦ absurd (ground arith)
      | inr (words, stored) ↦
          add_ssrcs_bitrate sessions (update_stats stats rlrs.ssrc old.bitrate) stats'
            (record old { ssrcs = words; n_ssrcs = (old.n_ssrcs + 1) % 2 ^ 8 }) new (ground arith)
    ]

module _ (floats : Floats) (scale : ℕ → ℕ → ℕ → ℕ)
    (set_fci_length : List ℕ → ℕ → Option (List ℕ)) where
  -- The packet that a call leaves in the RTCP buffer: one that asks for this bitrate, unless it could
  -- not be written.
  pub record Leaves (c : Call) (bitrate : ℕ) (out : Option FeedbackPacket) : Type 0 where
    pub packet : FeedbackPacket
    pub message : RembPacket
    pub written : FeedbackPacket
    pub done : Bool
    pub added : c.added ≡ some packet
    pub asks : message.bitrate ≡ bitrate
    pub marshalled :
        marshall_packet set_fci_length packet message c.internal_ssrc ≡ some (written, done)
    pub left : out ≡ (if done then some written else none)

  -- A call that sends.
  pub record Sends (self after : Local floats) (c : Call) (out : Option FeedbackPacket)
      : Type 0 where
    pub spaced : (self.last_sent_time ≡ 0) ⊎ (200000000 ≤ sub64 c.current_time self.last_sent_time)
    pub time : after.last_sent_time ≡ c.current_time
    pub leaves : Leaves c after.remb_sent out
    pub not_less : lowest after.min_bw ≤ after.remb_sent
    pub not_more : after.remb_sent ≤ max (lowest after.min_bw) after.remb
    pub updated : Local floats
    pub update : local_update floats scale c.sources self c.stats_time ≡ some (updated, true)
    pub estimate : after.remb ≡ updated.remb
    pub allowed :
        0 < (local_max updated.event_manager c.min_time c.calc_time).1
        → after.remb_sent
          ≤ max (lowest after.min_bw) ((local_max updated.event_manager c.min_time c.calc_time).1)

  -- A call that does not.
  pub record Waits (self after : Local floats) (c : Call) (out : Option FeedbackPacket)
      : Type 0 where
    pub nothing : out ≡ none
    pub same_time : after.last_sent_time ≡ self.last_sent_time
    pub why :
        (after ≡ self)
        ⊎ (local_update floats scale c.sources self c.stats_time ≡ some (after, false))

  send_fields :
      (u after : Local floats) (c : Call) (p : FeedbackPacket) (ret : Bool)
      (out : Option FeedbackPacket)
      → send floats scale set_fci_length u c p ≡ some (after, ret, out)
      → (ret ≡ true)
        × (after.last_sent_time ≡ c.current_time)
        × (after.min_bw ≡ u.min_bw)
        × (after.remb ≡ u.remb)
        × (after.remb_sent
            ≡ bitrate_to_send u.remb (local_max u.event_manager c.min_time c.calc_time).1 u.min_bw)
  unfolding send
  send_fields u after c p ret out ran = ground arith

  send-Leaves :
      (u after : Local floats) (c : Call) (p : FeedbackPacket) (ret : Bool)
      (out : Option FeedbackPacket)
      → c.added ≡ some p
      → send floats scale set_fci_length u c p ≡ some (after, ret, out)
      → Leaves c
          (bitrate_to_send u.remb (local_max u.event_manager c.min_time c.calc_time).1 u.min_bw)
          out
  unfolding send
  send-Leaves u after c p ret out added ran =
      let bitrate =
        bitrate_to_send u.remb (local_max u.event_manager c.min_time c.calc_time).1 u.min_bw in
      let start : RembPacket = record { bitrate = bitrate; n_ssrcs = 0; ssrcs = c.uninitialised } in
      elim (Option-cases (add_ssrcs u.remote_sessions (u.remb_stats, start))) [
        | inl fault ↦ absurd (ground arith)
        | inr ((stats, message), listed) ↦
            elim (Option-cases (marshall_packet set_fci_length p message c.internal_ssrc)) [
              | inl fault ↦ absurd (ground arith)
              | inr ((written, done), marshalled) ↦ record {
                packet = p;
                message = message;
                written = written;
                done = done;
                added = added;
                asks = add_ssrcs_bitrate u.remote_sessions u.remb_stats stats start message listed;
                marshalled = marshalled;
                left = ground arith;
              }
            ]
      ]

  -- An update that returns FALSE leaves the time of the last message.
  update_waits :
      (self u : Local floats) (c : Call)
      → local_update floats scale c.sources self c.stats_time ≡ some (u, false)
      → u.last_sent_time ≡ self.last_sent_time
  unfolding local_update update_with get_video_recv_info
  update_waits self u c ran = ground arith

  update_and_send_cases :
      (self after : Local floats) (c : Call) (p : FeedbackPacket) (ret : Bool)
      (out : Option FeedbackPacket)
      → update_and_send floats scale set_fci_length self c p ≡ some (after, ret, out)
      → ((ret ≡ false)
          × (local_update floats scale c.sources self c.stats_time ≡ some (after, false))
          × (out ≡ none))
        ⊎ ((u : Local floats) × (local_update floats scale c.sources self c.stats_time
              ≡ some (u, true))
            × (send floats scale set_fci_length u c p ≡ some (after, ret, out)))
  unfolding update_and_send send_if
  update_and_send_cases self after c p ret out ran =
      elim (Option-cases (local_update floats scale c.sources self c.stats_time)) [
        | inl fault ↦ absurd (ground arith)
        | inr ((u, updated), run) ↦ elim (Bool-cases updated) [
          | inl sent ↦ inr (u, ground arith, ground arith)
          | inr waits ↦ inl (ground arith, ground arith, ground arith)
        ]
      ]

  on_sending_rtcp_cases :
      (self after : Local floats) (c : Call) (ret : Bool) (out : Option FeedbackPacket)
      → on_sending_rtcp floats scale set_fci_length self c ≡ some (after, ret, out)
      → ((ret ≡ false) × (after ≡ self) × (out ≡ none))
        ⊎ ((p : FeedbackPacket) × (c.added ≡ some p)
            × ((self.last_sent_time ≡ 0) ⊎ (200000000 ≤ sub64 c.current_time self.last_sent_time))
            × (update_and_send floats scale set_fci_length self c p ≡ some (after, ret, out)))
  unfolding on_sending_rtcp
  on_sending_rtcp_cases self after c ret out ran = elim (Option-cases c.added) [
    | inl refused ↦ inl (ground arith)
    | inr (p, added) ↦
        elim (Bool-cases (
          not (self.last_sent_time == 0)
          && ltb (sub64 c.current_time self.last_sent_time) (remb_max_interval * gst_msecond))) [
            | inl early ↦ inl (ground arith)
            | inr spaced ↦ elim (Bool-cases c.mapped) [
              | inl mapped ↦ inr (p, added, ground arith, ground arith)
              | inr failed ↦ inl (ground arith)
            ]
          ]
  ]

  -- A call that comes to an end with TRUE follows the last message, if there was one, by 200 ms or
  -- more, has just updated the estimate, and asks for at least 30 kbps and the minimum bandwidth (as a
  -- guint), beyond that for no more than the estimate, nor more than the event manager allows: the
  -- packet that it leaves in the buffer is a marshalled message with that bitrate, or none when the
  -- marshalling fails. One that ends with FALSE leaves no packet in the buffer, and changes nothing but
  -- what an update does that returns FALSE.
  pub on_sending_rtcp-Sends :
      (self after : Local floats) (c : Call) (ret : Bool) (out : Option FeedbackPacket)
      → on_sending_rtcp floats scale set_fci_length self c ≡ some (after, ret, out)
      → ((ret ≡ true) × Sends self after c out) ⊎ ((ret ≡ false) × Waits self after c out)
  on_sending_rtcp-Sends self after c ret out ran =
      elim (on_sending_rtcp_cases self after c ret out ran) [
        | inl (held, same, nothing) ↦ inr (
          held,
          record { nothing = nothing; same_time = ap (λ r. r.last_sent_time) same; why = inl same },
        )
        | inr (p, added, spaced, rest) ↦ elim (update_and_send_cases self after c p ret out rest) [
          | inl (held, waited, nothing) ↦ inr (
            held,
            record {
              nothing = nothing;
              same_time = update_waits self after c waited;
              why = inr waited;
            },
          )
          | inr (u, updated, sent) ↦
              let (done, time, min_bw, remb, bitrate) = send_fields u after c p ret out sent in
              let (low, high, allowed) =
                bitrate_to_send_bounds u.remb (local_max u.event_manager c.min_time c.calc_time).1
                  u.min_bw in
              inl (
                done,
                record {
                  spaced = spaced;
                  time = time;
                  leaves = rw bitrate (send-Leaves u after c p ret out added sent);
                  not_less = rw (bitrate, min_bw) low;
                  not_more = rw (bitrate, min_bw, remb) high;
                  updated = u;
                  update = updated;
                  estimate = remb;
                  allowed = λ h. rw (bitrate, min_bw) (allowed h);
                },
              )
        ]
      ]
