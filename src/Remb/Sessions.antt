-- ===== src/Remb/Sessions.antt =====
-- kmsremb.c: gathering the statistics of the remote sessions.
use kms_core.Prelude.{
  ℕ, ◌+◌, ◌-◌, ◌*◌, ◌%◌, ◌^◌, Bool, not, ◌||◌, Option, none, some, List, [], ◌∷◌, ltb, ◌==◌,
  if◌then◌else◌,
}
use kms_core.Prelude.Int.{ℤ, pos, to_unsigned}

-- `KmsRlRemoteSession`; `rtpsess` names the RTP session.
pub record RemoteSession : Type 0 where
  pub rtpsess : ℕ
  pub ssrc : ℕ
  pub last_octets_received : ℕ
  pub last_packets_received : ℕ
  pub last_packets_received_expected : ℕ

-- `kms_rl_remote_session_create`.
unfoldable pub create_session : ℕ → ℕ → RemoteSession
create_session rtpsess ssrc = record {
  rtpsess = rtpsess;
  ssrc = ssrc;
  last_octets_received = 0;
  last_packets_received = 0;
  last_packets_received_expected = 0;
}

-- An RTPSource: its properties, and its statistics, each of which may be missing.
pub record RtpSource : Type 0 where
  pub ssrc : ℕ
  pub is_validated : Bool
  pub is_sender : Bool
  pub bitrate : Option ℕ
  pub octets_received : Option ℕ
  pub packets_received : Option ℕ
  pub packets_lost : Option ℤ
  pub fraction_lost : Option ℕ

-- `GetRtpSessionsInfo`.
pub record SessionsInfo : Type 0 where
  pub count : ℕ
  pub bitrate : ℕ
  pub fraction_lost_accumulative : ℕ
  pub packets_received_expected_interval_accumulative : ℕ
  pub octets_received_interval : ℕ
  pub packets_received_interval : ℕ

abbrev pub no_info : SessionsInfo
no_info = record {
  count = 0;
  bitrate = 0;
  fraction_lost_accumulative = 0;
  packets_received_expected_interval_accumulative = 0;
  octets_received_interval = 0;
  packets_received_interval = 0;
}

-- A statistic that is missing keeps the 0 that its variable starts with.
abbrev pub or_else {ℓ} : {A : Type ℓ} → A → Option A → A
or_else default none = default
or_else default (some a) = a

-- Subtraction on guint64.
abbrev pub sub64 : ℕ → ℕ → ℕ
sub64 a b = (a + 2 ^ 64 - b) % 2 ^ 64

-- The first source of the array that the loop does not pass over.
unfoldable pub matching : ℕ → List RtpSource → Option RtpSource
matching ssrc [] = none
matching ssrc (source ∷ sources) =
    let rest = matching ssrc sources in
    if not source.is_validated || not source.is_sender
    then rest
    else if not (source.ssrc == ssrc)
    then rest
    else some source

-- The counters start over when the source's have done so.
unfoldable pub restart : RemoteSession → ℕ → RemoteSession
restart self packets_received =
    if ltb packets_received self.last_packets_received
    then record self {
      last_octets_received = 0;
      last_packets_received = 0;
      last_packets_received_expected = 0;
    }
    else self

-- What the loop does with the source that it finds.
unfoldable pub account : RemoteSession → SessionsInfo → RtpSource → RemoteSession × SessionsInfo
account old info source =
    let bitrate = or_else 0 source.bitrate in
    let octets_received = or_else 0 source.octets_received in
    let packets_received = or_else 0 source.packets_received in
    let packets_lost = to_unsigned 64 (or_else (pos 0) source.packets_lost) in
    let fraction_lost = or_else 0 source.fraction_lost in
    let self : RemoteSession = restart old packets_received in
    let expected = (packets_received + packets_lost) % 2 ^ 64 in
    let expected_interval = sub64 expected self.last_packets_received_expected in
    (
      record self {
        last_octets_received = octets_received;
        last_packets_received = packets_received;
        last_packets_received_expected = expected;
      },
      record {
        count = (info.count + 1) % 2 ^ 32;
        bitrate = (info.bitrate + bitrate) % 2 ^ 64;
        fraction_lost_accumulative =
            (info.fraction_lost_accumulative + fraction_lost * expected_interval) % 2 ^ 32;
        packets_received_expected_interval_accumulative =
            (info.packets_received_expected_interval_accumulative + expected_interval) % 2 ^ 64;
        octets_received_interval =
            (info.octets_received_interval + sub64 octets_received self.last_octets_received)
            % 2 ^ 64;
        packets_received_interval =
            (info.packets_received_interval + sub64 packets_received self.last_packets_received)
            % 2 ^ 64;
      },
    )

-- `kms_rl_remote_session_get_sessions_info`. `sources` is the property of the session's RTPSession.
unfoldable pub get_sessions_info :
    Option (List RtpSource) → RemoteSession → SessionsInfo → RemoteSession × SessionsInfo
get_sessions_info none self info = (self, info)
get_sessions_info (some sources) self info =
    if self.ssrc == 0 then (self, info) else elim (matching self.ssrc sources) [
      | none ↦ (self, info)
      | some source ↦ account self info source
    ]

-- The same for each of the sessions.
unfoldable pub gather :
    (ℕ → Option (List RtpSource))
    → List RemoteSession
    → SessionsInfo
    → List RemoteSession × SessionsInfo
gather sources [] info = ([], info)
gather sources (self ∷ sessions) info =
    let (after, seen) = get_sessions_info (sources self.rtpsess) self info in
    let (others, all) = gather sources sessions seen in (after ∷ others, all)
