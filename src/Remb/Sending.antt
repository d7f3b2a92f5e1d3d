-- ===== src/Remb/Sending.antt =====
-- kmsremb.c: `kms_remb_local_on_sending_rtcp`, which adds a REMB message to an RTCP packet on its way.
pub mod Adding
pub mod Range
use kms_core.Prelude.{
  ℕ, zero, suc, ◌+◌, ◌*◌, ◌%◌, ◌^◌, max, min, Bool, true, false, not, ◌&&◌, Option, none, some,
  List, [], ◌∷◌, ltb, ◌==◌, if◌then◌else◌, ◌>>=◌, store,
}
use kms_core.Rtcp.{RembPacket, FeedbackPacket, marshall_packet}
use kms_core.RembEventManager.{Manager, get_min}
use kms_core.Remb.{remb_min, gst_msecond, Stats, update_stats}
use kms_core.Remb.Sessions.{RemoteSession, RtpSource, sub64}
use kms_core.Remb.Local.{Floats, Local, local_update}

abbrev pub remb_max_interval : ℕ
remb_max_interval = 200

-- `add_ssrcs`: the statistics and the packet after a session.
unfoldable pub add_ssrc : RemoteSession → Stats × RembPacket → Option (Stats × RembPacket)
add_ssrc rlrs (stats, packet) = do
  ssrcs ← store packet.ssrcs packet.n_ssrcs rlrs.ssrc
  some (
    update_stats stats rlrs.ssrc packet.bitrate,
    record packet { ssrcs = ssrcs; n_ssrcs = (packet.n_ssrcs + 1) % 2 ^ 8 },
  )

-- The same for each of the sessions.
unfoldable pub add_ssrcs : List RemoteSession → Stats × RembPacket → Option (Stats × RembPacket)
add_ssrcs [] added = some added
add_ssrcs (rlrs ∷ sessions) added = do more ← add_ssrc rlrs added; add_ssrcs sessions more

-- The bitrate to ask for: the estimate, with what the event manager allows and the bounds below.
unfoldable pub bitrate_to_send : ℕ → ℕ → ℕ → ℕ
bitrate_to_send remb remb_local_max min_bw =
    let allowed = if ltb 0 remb_local_max then min remb remb_local_max else remb in
    let wanted = if ltb 0 min_bw then max allowed (min_bw * 1000 % 2 ^ 32) else allowed in
    max wanted remb_min

-- What the handler meets: the clock at the places where it is read, GStreamer's answers and the bytes
-- that stand on the stack where the REMB packet comes.
pub record Call : Type 0 where
  pub current_time : ℕ
  pub stats_time : ℕ
  pub min_time : ℕ
  pub calc_time : ℕ
  pub mapped : Bool
  pub added : Option FeedbackPacket
  pub sources : ℕ → Option (List RtpSource)
  pub internal_ssrc : ℕ
  pub uninitialised : List ℕ

-- What the event manager allows: 0 is no limit.
unfoldable pub local_max : Option Manager → ℕ → ℕ → Option Manager × ℕ
local_max none time calc_time = (none, 0)
local_max (some m) time calc_time =
    let (after, least, calls) = get_min m time calc_time in (some after, least)

module _ (floats : Floats) (scale : ℕ → ℕ → ℕ → ℕ)
    (set_fci_length : List ℕ → ℕ → Option (List ℕ)) where
  -- The message is sent: the new state, the result and the packet, which a failed marshalling removes.
  unfoldable pub send :
      Local floats → Call → FeedbackPacket → Option (Local floats × Bool × Option FeedbackPacket)
  send self c packet = do
    let (manager, remb_local_max) = local_max self.event_manager c.min_time c.calc_time
    let new_bitrate = bitrate_to_send self.remb remb_local_max self.min_bw
    (stats, remb_packet) ←
        add_ssrcs self.remote_sessions
          (self.remb_stats, record { bitrate = new_bitrate; n_ssrcs = 0; ssrcs = c.uninitialised })
    (written, done) ← marshall_packet set_fci_length packet remb_packet c.internal_ssrc
    some (
      record self {
        event_manager = manager;
        remb_sent = new_bitrate;
        remb_stats = stats;
        last_sent_time = c.current_time;
      },
      true,
      (if done then some written else none),
    )

  unfoldable pub send_if :
      Call
      → FeedbackPacket
      → Local floats × Bool
      → Option (Local floats × Bool × Option FeedbackPacket)
  send_if c packet (updated, false) = some (updated, false, none)
  send_if c packet (updated, true) = send updated c packet

  unfoldable pub update_and_send :
      Local floats → Call → FeedbackPacket → Option (Local floats × Bool × Option FeedbackPacket)
  update_and_send self c packet = do
    updated ← local_update floats scale c.sources self c.stats_time
    send_if c packet updated

  -- `kms_remb_local_on_sending_rtcp`.
  unfoldable pub on_sending_rtcp :
      Local floats → Call → Option (Local floats × Bool × Option FeedbackPacket)
  on_sending_rtcp self c =
      if not (self.last_sent_time == 0)
        && ltb (sub64 c.current_time self.last_sent_time) (remb_max_interval * gst_msecond)
      then some (self, false, none)
      else if not c.mapped
      then some (self, false, none)
      else elim c.added [
        | none ↦ some (self, false, none)
        | some packet ↦ update_and_send self c packet
      ]
