-- ===== src/Remb/Remote/Handling.antt =====
-- kmsremb.c: a REMB message that comes in is handled without a fault.
use kms_core.Prelude.{
  ℕ, zero, suc, ◌+◌, ◌≤◌, ◌<◌, ◌≡◌, refl, Bool, Option, none, some, List, length, arith, ◌==◌,
  ◌>>=◌, get_elem?, inl, inr, Bool-cases, Option-cases,
}
use kms_core.Prelude.Buffers.{get_elem?_lt}
use kms_core.Rtcp.{
  RembPacket, remb, is_remb, get_packet, remb_get_packet, exponent_of, remb_max_ssrcs_count,
}
use kms_core.Rtcp.Safety.{AllBytes, get_elem?-AllBytes, remb_get_packet-Parses}
use kms_core.Remb.{Stats, update_stats}
use kms_core.Remb.Remote.{
  Event, Remote, probe_bitrate, send_remb_event, remote_update, record_ssrcs,
  update_target_ssrcs_stats, take_packet, process_type, process_psfb_afb,
}

-- The entries that a packet announces are in its array.
pub record_ssrcs-defined :
    (left i : ℕ) (packet : RembPacket) (stats : Stats)
    → i + left ≤ length packet.ssrcs
    → (after : Stats) × (record_ssrcs left i packet stats ≡ some after)
unfolding record_ssrcs
record_ssrcs-defined zero i packet stats room = (stats, refl)
record_ssrcs-defined (suc left) i packet stats room =
    let (ssrc, e) = get_elem?_lt packet.ssrcs i (omega arith) in
    let (after, ran) =
      record_ssrcs-defined left (suc i) packet (update_stats stats ssrc packet.bitrate)
        (omega arith) in
    (after, rw (e, ◌>>=◌) ran)

remote_update-defined :
    (rm : Remote) (packet : RembPacket)
    → packet.n_ssrcs ≤ length packet.ssrcs
    → (after : Remote) × (event : Option Event) × (remote_update rm packet ≡ some (after, event))
unfolding remote_update
remote_update-defined rm packet room = elim (Bool-cases (packet.n_ssrcs == 0)) [
  | inl empty ↦ (rm, none, rw empty refl)
  | inr some_ssrc ↦
      let (ssrc, e) = get_elem?_lt packet.ssrcs 0 (ground arith) in
      (
        record rm { probed = (probe_bitrate rm packet.bitrate).1; remb = packet.bitrate },
        send_remb_event rm (probe_bitrate rm packet.bitrate).0 ssrc,
        rw some_ssrc (rw (e, ◌>>=◌) refl),
      )
]

pub take_packet-defined :
    (rm : Remote) (packet : RembPacket)
    → packet.n_ssrcs ≤ length packet.ssrcs
    → (after : Remote) × (event : Option Event) × (take_packet rm packet ≡ some (after, event))
unfolding take_packet update_target_ssrcs_stats
take_packet-defined rm packet room =
    let (updated, event, ran) = remote_update-defined rm packet room in
    let (stats, recorded) =
      record_ssrcs-defined packet.n_ssrcs 0 packet updated.remb_stats (omega arith) in
    (record updated { remb_stats = stats }, event, rw (ran, ◌>>=◌) (rw (recorded, ◌>>=◌) refl))

count_small :
    (fci : List ℕ) (old packet : RembPacket) (accepted : Bool)
    → AllBytes fci
    → old.n_ssrcs ≤ 255
    → remb_get_packet remb fci old ≡ some (packet, accepted)
    → packet.n_ssrcs ≤ 255
unfolding remb_get_packet
count_small fci old packet accepted bytes small ran = elim (Option-cases (get_elem? fci 4)) [
  | inl absent ↦ ground arith
  | inr (n, at) ↦ ground (arith, get_elem?-AllBytes fci 4 n bytes at)
]

-- Whatever bytes come in, but for an exponent of 32 or more, the handler ends without a fault: also
-- after a message that the parser refuses, when it goes on with what stood on the stack.
pub process_psfb_afb-defined :
    (rm : Remote) (fci : List ℕ) (uninitialised : RembPacket)
    → length uninitialised.ssrcs ≡ remb_max_ssrcs_count
    → uninitialised.n_ssrcs ≤ 255
    → AllBytes fci
    → ((b : ℕ) → get_elem? fci 5 ≡ some b → exponent_of b < 32)
    → (after : Remote) × (event : Option Event) × (process_psfb_afb rm (some fci) uninitialised
        ≡ some (after, event))
unfolding process_psfb_afb get_packet process_type
process_psfb_afb-defined rm fci uninitialised array small bytes exponent =
    elim (Bool-cases (is_remb fci)) [
      | inr other ↦ (rm, none, rw other refl)
      | inl named ↦
          let parsed = remb_get_packet-Parses fci uninitialised array bytes exponent in
          let count =
            count_small fci uninitialised parsed.packet parsed.accepted bytes small
              parsed.defined in
          let (after, event, taken) =
            take_packet-defined rm parsed.packet (omega (arith, parsed.array)) in
          (after, event, rw named (rw (parsed.defined, ◌>>=◌) taken))
    ]
