-- ===== src/Remb/Exchange.antt =====
-- kmsremb.c on both sides: a message that `kms_remb_local_on_sending_rtcp` sends, taken in by
-- `kms_remb_remote_on_feedback_rtcp` at the other end.
use kms_core.Prelude.{
  ℕ, zero, suc, ◌+◌, ◌*◌, ◌-◌, ◌≤◌, ◌<◌, ◌≡◌, ◌∙◌, refl, sym, subst, true, false, Option, some,
  List, [], ◌∷◌, length, take, arith, ◌==◌, ◌>>=◌, get_elem?, inl, inr, Bool-cases, Option-cases,
}
use kms_core.Prelude.Tables.{lookup, insert, lookup-insert_self}
use kms_core.Prelude.Buffers.{get_elem?_lt, get_elem?-take}
use kms_core.Rtcp.{RembPacket, FeedbackPacket}
use kms_core.Rtcp.Mantissa.{max_bitrate}
use kms_core.Rtcp.Words.{AllWords}
use kms_core.Rtcp.RoundTrip.{Resizes, remb_get_packet-marshall_packet}
use kms_core.Remb.{Stats}
use kms_core.Remb.Sessions.{RemoteSession}
use kms_core.Remb.Local.{Floats, Local}
use kms_core.Remb.Sending.{Call, bitrate_to_send, local_max, send}
use kms_core.Remb.Sending.Adding.{ssrcs_of, Recorded, add_ssrcs-Adds, keeps_record}
use kms_core.Remb.Remote.{
  Event, Remote, probe_bitrate, send_remb_event, remote_update, record_ssrcs,
  update_target_ssrcs_stats, take_packet, process_type, process_psfb_afb,
}
use kms_core.Remb.Remote.Handling.{record_ssrcs-defined}

record_ssrcs_keep :
    (left i k : ℕ) (packet : RembPacket) (stats after : Stats)
    → record_ssrcs left i packet stats ≡ some after
    → lookup stats k ≡ some packet.bitrate
    → lookup after k ≡ some packet.bitrate
unfolding record_ssrcs
record_ssrcs_keep zero i k packet stats after ran h = ground arith
record_ssrcs_keep (suc left) i k packet stats after ran h =
    elim (Option-cases (get_elem? packet.ssrcs i)) [
      | inl fault ↦ absurd (ground arith)
      | inr (ssrc, e) ↦
          record_ssrcs_keep left (suc i) k packet (insert stats ssrc packet.bitrate) after
            (ground arith) (keeps_record stats k ssrc packet.bitrate h)
    ]

record_ssrcs_all :
    (left i j ssrc : ℕ) (packet : RembPacket) (stats after : Stats)
    → record_ssrcs left i packet stats ≡ some after
    → i ≤ j
    → j < i + left
    → get_elem? packet.ssrcs j ≡ some ssrc
    → lookup after ssrc ≡ some packet.bitrate
unfolding record_ssrcs
record_ssrcs_all zero i j ssrc packet stats after ran le lt e = absurd (omega arith)
record_ssrcs_all (suc left) i j ssrc packet stats after ran le lt e = elim (Bool-cases (i == j)) [
  | inl here ↦
      let first : get_elem? packet.ssrcs i ≡ some ssrc = ground arith in
      record_ssrcs_keep left (suc i) ssrc packet (insert stats ssrc packet.bitrate) after
        (ground arith) (lookup-insert_self stats ssrc packet.bitrate)
  | inr later ↦ elim (Option-cases (get_elem? packet.ssrcs i)) [
    | inl fault ↦ absurd (ground arith)
    | inr (first, e') ↦
        record_ssrcs_all left (suc i) j ssrc packet (insert stats first packet.bitrate) after
          (ground arith) (ground arith) (omega arith) e
  ]
]

-- A statistic for each SSRC of the list is one for each session.
statistics_from :
    (sessions : List RemoteSession) (bitrate : ℕ) (stats : Stats)
    → ((j ssrc : ℕ)
        → get_elem? (ssrcs_of sessions) j ≡ some ssrc
        → lookup stats ssrc ≡ some bitrate)
    → Recorded bitrate stats sessions
statistics_from [] bitrate stats all = tt
statistics_from (rlrs ∷ sessions) bitrate stats all =
    (all 0 rlrs.ssrc refl, statistics_from sessions bitrate stats (λ j ssrc e. all (suc j) ssrc e))

-- What taking in a packet that names its SSRCs gives.
record Takes (packet : RembPacket) (sessions : List RemoteSession) (after : Remote) : Type 0 where
  estimate : after.remb ≡ packet.bitrate
  recorded : Recorded packet.bitrate after.remb_stats sessions

remote_update-remb :
    (rm : Remote) (packet : RembPacket)
    → 0 < packet.n_ssrcs
    → packet.n_ssrcs ≤ length packet.ssrcs
    → (after : Remote) × (event : Option Event) × (remote_update rm packet ≡ some (after, event))
      × (after.remb ≡ packet.bitrate)
unfolding remote_update
remote_update-remb rm packet named room =
    let (ssrc, e) = get_elem?_lt packet.ssrcs 0 (omega arith) in
    let some_ssrc : (packet.n_ssrcs == 0) ≡ false = ground arith in
    (
      record rm { probed = (probe_bitrate rm packet.bitrate).1; remb = packet.bitrate },
      send_remb_event rm (probe_bitrate rm packet.bitrate).0 ssrc,
      rw some_ssrc (rw (e, ◌>>=◌) refl),
      refl,
    )

take_packet-Takes :
    (rm : Remote) (packet : RembPacket) (sessions : List RemoteSession)
    → 0 < packet.n_ssrcs
    → packet.n_ssrcs ≤ length packet.ssrcs
    → take packet.n_ssrcs packet.ssrcs ≡ ssrcs_of sessions
    → (after : Remote) × (event : Option Event) × (take_packet rm packet ≡ some (after, event))
      × Takes packet sessions after
unfolding take_packet update_target_ssrcs_stats
take_packet-Takes rm packet sessions named room words =
    let (updated, event, ran, estimate) = remote_update-remb rm packet named room in
    let (stats, recorded) =
      record_ssrcs-defined packet.n_ssrcs 0 packet updated.remb_stats (omega arith) in
    let here = λ (j ssrc : ℕ) (e : get_elem? (ssrcs_of sessions) j ≡ some ssrc).
      let (there, lt) = get_elem?-take packet.n_ssrcs packet.ssrcs j ssrc (rw words e) in
      record_ssrcs_all packet.n_ssrcs 0 j ssrc packet updated.remb_stats stats recorded
        (omega arith) (omega arith) there in
    (
      record updated { remb_stats = stats },
      event,
      rw (ran, ◌>>=◌) (rw (recorded, ◌>>=◌) refl),
      record { estimate = estimate; recorded = statistics_from sessions packet.bitrate stats here },
    )

-- What has happened on both sides once a message has gone over.
pub record Exchanged (floats : Floats) (sessions : List RemoteSession) (local : Local floats)
    (remote : Remote) : Type 0 where
  pub not_more : remote.remb ≤ local.remb_sent
  pub precise : 131071 * (local.remb_sent - remote.remb) ≤ local.remb_sent
  pub sent_stats : Recorded local.remb_sent local.remb_stats sessions
  pub received_stats : Recorded remote.remb remote.remb_stats sessions

module _ (floats : Floats) (scale : ℕ → ℕ → ℕ → ℕ) (set_fci_length : List ℕ → ℕ → Option (List ℕ))
    (resizes : Resizes set_fci_length) (self : Local floats) (c : Call) (packet : FeedbackPacket)
    (rm : Remote) (uninitialised : RembPacket) (resized : List ℕ) where
  -- A local side with 1 to 255 sessions sends, into a packet with an empty FCI that can grow, a message
  -- whose bitrate is at most `max_bitrate`. Neither side then meets a fault: the message is added, the
  -- remote side takes it in, its estimate is at most the bitrate that was sent and loses at most one
  -- part in 131071 of it, and both have the statistics of every session.
  pub process_psfb_afb-send :
      packet.fci ≡ []
      → 0 < length self.remote_sessions
      → length self.remote_sessions ≤ 255
      → AllWords (ssrcs_of self.remote_sessions)
      → length c.uninitialised ≡ 255
      → length uninitialised.ssrcs ≡ 255
      → bitrate_to_send self.remb
          (local_max self.event_manager c.min_time c.calc_time).1
          self.min_bw
        ≤ max_bitrate
      → set_fci_length [] (2 + length self.remote_sessions) ≡ some resized
      → (after : Local floats) × (out : FeedbackPacket) × (got : Remote) × (event : Option Event)
        × (send floats scale set_fci_length self c packet ≡ some (after, true, some out))
        × (process_psfb_afb rm (some out.fci) uninitialised ≡ some (got, event))
        × Exchanged floats self.remote_sessions after got
  unfolding send process_psfb_afb process_type
  process_psfb_afb-send empty some_sessions room words array array' rate grown =
      let (manager, allowed) = local_max self.event_manager c.min_time c.calc_time in
      let bitrate =
        bitrate_to_send self.remb (local_max self.event_manager c.min_time c.calc_time).1
          self.min_bw in
      let start : RembPacket = record { bitrate = bitrate; n_ssrcs = 0; ssrcs = c.uninitialised } in
      let (stats, sent, added, adds) =
        add_ssrcs-Adds self.remote_sessions self.remb_stats start array (omega arith) in
      let count : sent.n_ssrcs ≡ length self.remote_sessions = omega (arith, adds.count) in
      let (out, back, marshalled, named, parsed, reading) =
        remb_get_packet-marshall_packet set_fci_length resizes packet sent uninitialised
          c.internal_ssrc resized empty (omega (arith, adds.same_bitrate))
          (omega (arith, adds.count, adds.array)) (adds.array ∙ array)
          (subst AllWords (sym adds.words) words) array'
          (subst (λ n. set_fci_length [] (2 + n) ≡ some resized) (sym count) grown) in
      let (got, event, taken, takes) =
        take_packet-Takes rm back self.remote_sessions (omega (arith, reading.count, adds.count))
          reading.room (reading.words ∙ adds.words) in
      (
        record self {
          event_manager = manager;
          remb_sent = bitrate;
          remb_stats = stats;
          last_sent_time = c.current_time;
        },
        out,
        got,
        event,
        rw (added, ◌>>=◌) (rw (marshalled, ◌>>=◌) refl),
        rw named (rw (parsed, ◌>>=◌) taken),
        record {
          not_more = omega (arith, takes.estimate, reading.below, adds.same_bitrate);
          precise = omega (arith, takes.estimate, reading.precise, adds.same_bitrate);
          sent_stats = adds.recorded;
          received_stats =
              subst (λ b. Recorded b got.remb_stats self.remote_sessions) (sym takes.estimate)
                takes.recorded;
        },
      )
