-- ===== src/Tests/Remb.antt =====
-- kmsremb.c on both sides, with one session.
use kms_core.Prelude.{
  ℕ, zero, suc, ◌+◌, ◌*◌, ◌/◌, ◌%◌, ◌^◌, ◌<◌, ◌≤◌, ◌≡◌, refl, ◌⊎◌, true, false, Option, none, some,
  List, [], ◌∷◌, arith, replicate, map, length, get_elem?, if◌then◌else◌, ltb,
}
use kms_core.Prelude.Int.{pos, negsuc}
use kms_core.Rtcp.{
  RembPacket, FeedbackPacket, exponent_of, marshall_packet, compute_mantissa, find_exponent, shl32,
  write_ssrcs, remb_header, htonl,
}
use kms_core.Rtcp.Mantissa.{max_bitrate}
use kms_core.Rtcp.RoundTrip.{Resizes}
use kms_core.Rtcp.Safety.{AllBytes}
use kms_core.Remb.{Stats}
use kms_core.Remb.Sessions.{
  RemoteSession, RtpSource, gather, get_sessions_info, matching, account, restart,
}
use kms_core.Remb.Local.{
  Floats, Local, VideoInfo, smooth, increase, limit, adapt, probe, update_with, get_video_recv_info,
  local_update,
}
use kms_core.Remb.Local.Estimate.{Moves, adapt-Moves}
use kms_core.Remb.Local.Smoothing.{Smooths, smooth-Smooths}
use kms_core.Remb.Sending.{
  Call, bitrate_to_send, local_max, add_ssrc, add_ssrcs, send, send_if, update_and_send,
  on_sending_rtcp,
}
use kms_core.Remb.Sending.Adding.{Adds, add_ssrcs-Adds}
use kms_core.Remb.Sending.Range.{Sends, Waits, on_sending_rtcp-Sends}
use kms_core.Remb.Remote.{Event, Remote, process_psfb_afb}
use kms_core.Remb.Remote.Probing.{clamp, told, bitrates, sent, sent-told}
use kms_core.Remb.Remote.Handling.{process_psfb_afb-defined}
use kms_core.Remb.Exchange.{Exchanged, process_psfb_afb-send}

-- Thousandths, for the floats that are not negative.
abbrev thousandths : Floats
thousandths = record {
  Float = ℕ;
  quotient = λ a b. a * 1000 / b;
  of_gint = λ i. elim i [ pos n ↦ n * 1000 | negsuc n ↦ 0 ];
  of_guint = λ n. n * 1000;
  plus = λ a b. a + b;
  times = λ a b. a * b / 1000;
  over = λ a b. a * 1000 / b;
  to_gint? = λ a. if ltb (a / 1000) (2 ^ 31) then some (pos (a / 1000)) else none;
  to_guint? = λ a. if ltb (a / 1000) (2 ^ 32) then some (a / 1000) else none;
}

abbrev one_session : List RemoteSession
one_session =
    record {
      rtpsess = 0;
      ssrc = 17;
      last_octets_received = 0;
      last_packets_received = 0;
      last_packets_received_expected = 0;
    }
    ∷ []

abbrev probed_local : Local thousandths
probed_local = record {
  remb_stats = [];
  remote_sessions = one_session;
  min_bw = 100;
  max_bw = 2000;
  packets_recv_interval_top = 100;
  exponential_factor = 40;
  lineal_factor_min = pos 50;
  lineal_factor_grade = 30000;
  decrement_factor = 500;
  threshold_factor = 800;
  up_losses = pos 12;
  remb = 400000;
  remb_sent = 400000;
  last_sent_time = 0;
  probed = true;
  threshold = 2000000;
  lineal_factor = 50;
  max_br = 400000;
  avg_br = 400000;
  last_time = 0;
  fraction_lost_record = 0;
  event_manager = none;
}

abbrev measured : VideoInfo thousandths
measured = record { bitrate = 480000; fraction_lost = 0; packets_rcv_interval = 40 }

smoothed :
    (after : Local thousandths) × (smooth thousandths probed_local measured ≡ some after)
    × Smooths thousandths probed_local measured after
smoothed =
    smooth-Smooths thousandths probed_local measured (omega arith) (omega arith) (omega arith)
      (omega arith) (omega arith) (omega arith) (omega arith) (omega arith)

abbrev smoothed_local : Local thousandths
smoothed_local = record probed_local { max_br = 480000; avg_br = 410000 }

abbrev moved_local : Local thousandths
moved_local = record smoothed_local { remb = 499200 }

smoothed_ran : smooth thousandths probed_local measured ≡ some smoothed_local
unfolding smooth
smoothed_ran = refl

adapted_ran : adapt thousandths probed_local measured ≡ some moved_local
unfolding adapt smooth increase limit
adapted_ran = refl

adapt-Moves_example : Moves thousandths smoothed_local moved_local
adapt-Moves_example =
    adapt-Moves thousandths probed_local smoothed_local moved_local measured smoothed_ran
      (omega arith) adapted_ran

abbrev sender : RtpSource
sender = record {
  ssrc = 17;
  is_validated = true;
  is_sender = true;
  bitrate = some 480000;
  octets_received = some 6000;
  packets_received = some 40;
  packets_lost = some (pos 0);
  fraction_lost = some 0;
}

abbrev empty_feedback : FeedbackPacket
empty_feedback = record { fb_type = 0; sender_ssrc = 0; media_ssrc = 0; fci = [] }

abbrev first_call : Call
first_call = record {
  current_time = 5000000000;
  stats_time = 5000000001;
  min_time = 5000000002;
  calc_time = 5000000003;
  mapped = true;
  added = some empty_feedback;
  sources = λ rtpsess. some (sender ∷ []);
  internal_ssrc = 5;
  uninitialised = replicate 255 0;
}

abbrev by_scale : ℕ → ℕ → ℕ → ℕ
by_scale val num denom = val * num / denom % 2 ^ 64

abbrev grow : List ℕ → ℕ → Option (List ℕ)
grow fci words = some (replicate (4 * words) 0)

length-zeros : (n : ℕ) → length {A = ℕ} (replicate n 0) ≡ n
length-zeros zero = refl
length-zeros (suc n) = omega (arith, length-zeros n)

grow-Resizes : Resizes grow
grow-Resizes fci words resized ran = ground (arith, length-zeros (4 * words))

abbrev sent_local : Local thousandths
sent_local = record moved_local {
  remote_sessions =
      record {
        rtpsess = 0;
        ssrc = 17;
        last_octets_received = 6000;
        last_packets_received = 40;
        last_packets_received_expected = 40;
      }
      ∷ [];
  remb_stats = record { key = 17; value = 499200 } ∷ [];
  last_time = 5000000001;
  remb_sent = 499200;
  last_sent_time = 5000000000;
}

abbrev sent_feedback : FeedbackPacket
sent_feedback = record {
  fb_type = 15;
  sender_ssrc = 5;
  media_ssrc = 0;
  fci = b'R' ∷ b'E' ∷ b'M' ∷ b'B' ∷ 1 ∷ 7 ∷ 207 ∷ 0 ∷ 0 ∷ 0 ∷ 0 ∷ 17 ∷ [];
}

sent_ran :
    on_sending_rtcp thousandths by_scale grow probed_local first_call
    ≡ some (sent_local, true, some sent_feedback)
unfolding on_sending_rtcp update_and_send send_if send add_ssrcs add_ssrc bitrate_to_send local_max
    local_update update_with get_video_recv_info gather get_sessions_info matching account restart
    probe adapt smooth increase limit marshall_packet compute_mantissa find_exponent shl32
    write_ssrcs remb_header htonl
sent_ran = refl

on_sending_rtcp-Sends_example :
    ((true ≡ true)
      × Sends thousandths by_scale grow probed_local sent_local first_call (some sent_feedback))
    ⊎ ((true ≡ false)
        × Waits thousandths by_scale grow probed_local sent_local first_call (some sent_feedback))
on_sending_rtcp-Sends_example =
    on_sending_rtcp-Sends thousandths by_scale grow probed_local sent_local first_call true
      (some sent_feedback) sent_ran

abbrev blank : RembPacket
blank = record { bitrate = 0; n_ssrcs = 0; ssrcs = replicate 255 0 }

add_ssrcs-Adds_example :
    (stats : Stats) × (packet : RembPacket) × (add_ssrcs one_session ([], blank)
      ≡ some (stats, packet))
    × Adds one_session blank packet stats
add_ssrcs-Adds_example = add_ssrcs-Adds one_session [] blank refl (omega arith)

abbrev remote : Remote
remote = record {
  remb_stats = [];
  local_ssrc = 17;
  min_bw = 100;
  max_bw = 2000;
  remb_on_connect = pos 300000;
  remb = 0;
  probed = false;
  pad_event = true;
}

abbrev estimate : ℕ → RembPacket
estimate bitrate = record { bitrate = bitrate; n_ssrcs = 1; ssrcs = 17 ∷ [] }

-- Two estimates that rise below the bitrate of the connection, and one that falls.
abbrev three_estimates : List RembPacket
three_estimates = estimate 50000 ∷ estimate 200000 ∷ estimate 40000 ∷ []

sent-told_example :
    sent remote three_estimates ≡ some (map (clamp remote) (told remote (bitrates three_estimates)))
sent-told_example =
    sent-told three_estimates remote refl
      (omega arith, omega arith, (omega arith, omega arith, (omega arith, omega arith, tt)))

sent_fci-AllBytes : AllBytes sent_feedback.fci
sent_fci-AllBytes = ground arith

sent_exponent : (b : ℕ) → get_elem? sent_feedback.fci 5 ≡ some b → exponent_of b < 32
unfolding exponent_of
sent_exponent b e = ground arith

process_psfb_afb-defined_example :
    (after : Remote) × (event : Option Event) × (process_psfb_afb remote
        (some sent_feedback.fci)
        blank
      ≡ some (after, event))
process_psfb_afb-defined_example =
    process_psfb_afb-defined remote sent_feedback.fci blank refl (omega arith) sent_fci-AllBytes
      sent_exponent

low_bitrate : bitrate_to_send 400000 (local_max none 5000000002 5000000003).1 100 ≤ max_bitrate
unfolding bitrate_to_send local_max
low_bitrate = omega arith

process_psfb_afb-send_example :
    (after : Local thousandths) × (out : FeedbackPacket) × (got : Remote) × (event : Option Event)
    × (send thousandths by_scale grow probed_local first_call empty_feedback
        ≡ some (after, true, some out))
    × (process_psfb_afb remote (some out.fci) blank ≡ some (got, event))
    × Exchanged thousandths one_session after got
process_psfb_afb-send_example =
    process_psfb_afb-send thousandths by_scale grow grow-Resizes probed_local first_call
      empty_feedback remote blank (replicate 12 0) refl (omega arith) (omega arith)
      (omega arith, record {}) refl refl low_bitrate refl
