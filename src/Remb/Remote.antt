-- ===== src/Remb/Remote.antt =====
-- kmsremb.c, `KmsRembRemote`: what a REMB message that comes in makes of the encoder's bitrate. An
-- event that goes upstream is the pair of its bitrate and SSRC; no more than one goes in a call.
pub mod Probing
pub mod Handling
use kms_core.Prelude.{
  ℕ, zero, suc, ◌+◌, ◌*◌, ◌%◌, ◌^◌, max, min, Bool, true, false, not, ◌&&◌, Option, none, some,
  List, [], ◌∷◌, ltb, leb, ◌==◌, if◌then◌else◌, ◌>>=◌, get_elem?,
}
use kms_core.Prelude.Int.{ℤ, pos, to_unsigned}
use kms_core.Rtcp.{AfbType, invalid, remb, RembPacket, get_packet, remb_get_packet, psfb_type_afb}
use kms_core.Remb.{Stats, update_stats}

abbrev pub Event : Type 0
Event = ℕ × ℕ

-- `KmsRembRemote`. `pad_event` tells whether there is a pad; `remb_on_connect` is a gint.
pub record Remote : Type 0 where
  pub remb_stats : Stats
  pub local_ssrc : ℕ
  pub min_bw : ℕ
  pub max_bw : ℕ
  pub remb_on_connect : ℤ
  pub remb : ℕ
  pub probed : Bool
  pub pad_event : Bool

-- `kms_remb_remote_create`.
unfoldable pub create_remote : ℕ → ℕ → ℕ → Remote
create_remote local_ssrc min_bw max_bw = record {
  remb_stats = [];
  local_ssrc = local_ssrc;
  min_bw = min_bw;
  max_bw = max_bw;
  remb_on_connect = pos 300000;
  remb = 0;
  probed = false;
  pad_event = true;
}

-- `send_remb_event`.
unfoldable pub send_remb_event : Remote → ℕ → ℕ → Option Event
send_remb_event rm bitrate ssrc =
    let raised = if ltb 0 rm.min_bw then max bitrate (rm.min_bw * 1000 % 2 ^ 32) else bitrate in
    let br = if ltb 0 rm.max_bw then min raised (rm.max_bw * 1000 % 2 ^ 32) else raised in
    if rm.pad_event then some (br, ssrc) else none

-- The bitrate of the connection, as a guint.
abbrev pub on_connect : Remote → ℕ
on_connect rm = to_unsigned 32 rm.remb_on_connect

pub data ProbeReturn : Type 0 where
  probe_ok probe_remove : ProbeReturn

-- `send_remb_event_probe`, for an event that holds caps or another.
unfoldable pub send_remb_event_probe : Remote → Bool → ProbeReturn × Option Event
send_remb_event_probe rm is_caps =
    if not is_caps
    then (probe_ok, none)
    else (probe_remove, send_remb_event rm (on_connect rm) rm.local_ssrc)

-- The bitrate that goes upstream, and whether the probing is over.
unfoldable pub probe_bitrate : Remote → ℕ → ℕ × Bool
probe_bitrate rm bitrate =
    if rm.probed
    then (bitrate, true)
    else if ltb bitrate (on_connect rm) && leb rm.remb bitrate
    then (on_connect rm, false)
    else (bitrate, true)

-- `kms_remb_remote_update`.
unfoldable pub remote_update : Remote → RembPacket → Option (Remote × Option Event)
remote_update rm packet = if packet.n_ssrcs == 0 then some (rm, none) else do
  ssrc ← get_elem? packet.ssrcs 0
  let (br_send, probed) = probe_bitrate rm packet.bitrate
  some (record rm { probed = probed; remb = packet.bitrate }, send_remb_event rm br_send ssrc)

-- The loop of `kms_remb_remote_update_target_ssrcs_stats`.
unfoldable pub record_ssrcs : ℕ → ℕ → RembPacket → Stats → Option Stats
record_ssrcs zero i packet stats = some stats
record_ssrcs (suc left) i packet stats = do
  ssrc ← get_elem? packet.ssrcs i
  record_ssrcs left (suc i) packet (update_stats stats ssrc packet.bitrate)

-- `kms_remb_remote_update_target_ssrcs_stats`.
unfoldable pub update_target_ssrcs_stats : Remote → RembPacket → Option Remote
update_target_ssrcs_stats rm packet = do
  stats ← record_ssrcs packet.n_ssrcs 0 packet rm.remb_stats
  some (record rm { remb_stats = stats })

-- Both, for a packet that has been read.
unfoldable pub take_packet : Remote → RembPacket → Option (Remote × Option Event)
take_packet rm packet = do
  (updated, event) ← remote_update rm packet
  after ← update_target_ssrcs_stats updated packet
  some (after, event)

-- The switch over the type of a message. `uninitialised` is what the stack holds where the packet
-- comes; whether the packet could be read is not looked at.
unfoldable pub process_type :
    Remote → AfbType → List ℕ → RembPacket → Option (Remote × Option Event)
process_type rm invalid fci uninitialised = some (rm, none)
process_type rm remb fci uninitialised = do
  (packet, read) ← remb_get_packet remb fci uninitialised
  take_packet rm packet

-- `process_psfb_afb` on the bytes of the buffer, or none when it cannot be mapped.
unfoldable pub process_psfb_afb :
    Remote → Option (List ℕ) → RembPacket → Option (Remote × Option Event)
process_psfb_afb rm none uninitialised = some (rm, none)
process_psfb_afb rm (some fci) uninitialised =
    let (type, read) = get_packet fci in
    if not read then some (rm, none) else process_type rm type fci uninitialised

abbrev pub rtcp_type_psfb : ℕ
rtcp_type_psfb = 206

-- `kms_remb_remote_on_feedback_rtcp`.
unfoldable pub on_feedback_rtcp :
    Remote → ℕ → ℕ → Option (List ℕ) → RembPacket → Option (Remote × Option Event)
on_feedback_rtcp rm type fbtype fci uninitialised =
    if type == rtcp_type_psfb && fbtype == psfb_type_afb
    then process_psfb_afb rm fci uninitialised
    else some (rm, none)

-- `kms_remb_remote_set_params`.
unfoldable pub set_remote_params : Remote → Option ℤ → Remote
set_remote_params rm none = rm
set_remote_params rm (some auxi) = record rm { remb_on_connect = auxi }

-- `kms_remb_remote_get_params`.
unfoldable pub get_remote_params : Remote → Option ℤ
get_remote_params rm = some rm.remb_on_connect
