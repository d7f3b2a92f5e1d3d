-- ===== src/Remb/Local.antt =====
-- kmsremb.c, `KmsRembLocal`: the estimate of the bitrate to ask for. A step that C leaves undefined (a
-- division by zero, a conversion of a float that does not fit) is `none`.
pub mod Estimate
pub mod Smoothing
use kms_core.Prelude.{
  ℕ, ◌+◌, ◌-◌, ◌*◌, ◌/◌, ◌%◌, ◌^◌, max, min, Bool, true, false, not, ◌&&◌, Option, none, some, List,
  [], ◌∷◌, ◌++◌, ltb, leb, ◌==◌, if◌then◌else◌, ◌>>=◌,
}
use kms_core.Prelude.Int.{ℤ, pos, to_gint, to_unsigned, ltb_ℤ}
use kms_core.Remb.{remb_max, gst_second, Stats}
use kms_core.Remb.Sessions.{
  RemoteSession, RtpSource, SessionsInfo, no_info, create_session, or_else, sub64, gather,
}
use kms_core.RembEventManager.{Manager}

-- The arithmetic on gfloat, as the machine has it. A conversion to an integer of 32 bits is `none`
-- when the value does not fit, which C leaves undefined.
pub record Floats : Type 1 where
  pub Float : Type 0
  pub quotient : ℕ → ℕ → Float
  pub of_gint : ℤ → Float
  pub of_guint : ℕ → Float
  pub plus : Float → Float → Float
  pub times : Float → Float → Float
  pub over : Float → Float → Float
  pub to_gint? : Float → Option ℤ
  pub to_guint? : Float → Option ℕ

module _ (floats : Floats) where
  open floats use {Float, quotient, of_gint, of_guint, plus, times, over, to_gint?, to_guint?}

  -- `KmsRembLocal`; the RTP session of its base is not NULL from creation to destruction.
  pub record Local : Type 0 where
    pub remb_stats : Stats
    pub remote_sessions : List RemoteSession
    pub min_bw : ℕ
    pub max_bw : ℕ
    pub packets_recv_interval_top : ℕ
    pub exponential_factor : Float
    pub lineal_factor_min : ℤ
    pub lineal_factor_grade : Float
    pub decrement_factor : Float
    pub threshold_factor : Float
    pub up_losses : ℤ
    pub remb : ℕ
    pub remb_sent : ℕ
    pub last_sent_time : ℕ
    pub probed : Bool
    pub threshold : ℕ
    pub lineal_factor : ℕ
    pub max_br : ℕ
    pub avg_br : ℕ
    pub last_time : ℕ
    pub fraction_lost_record : ℕ
    pub event_manager : Option Manager

  -- `kms_remb_local_create`.
  unfoldable pub create_local : ℕ → ℕ → Local
  create_local min_bw max_bw = record {
    remb_stats = [];
    remote_sessions = [];
    min_bw = min_bw;
    max_bw = max_bw;
    packets_recv_interval_top = 100;
    exponential_factor = quotient 4 100;
    lineal_factor_min = pos 50;
    lineal_factor_grade = of_gint (pos 30);
    decrement_factor = quotient 5 10;
    threshold_factor = quotient 8 10;
    up_losses = pos 12;
    remb = remb_max;
    remb_sent = remb_max;
    last_sent_time = 0;
    probed = false;
    threshold = remb_max;
    lineal_factor = 50;
    max_br = 0;
    avg_br = 0;
    last_time = 0;
    fraction_lost_record = 0;
    event_manager = none;
  }

  -- `kms_remb_local_add_remote_session`.
  unfoldable pub add_remote_session : Local → ℕ → ℕ → Local
  add_remote_session rl rtpsess ssrc = record rl {
    remote_sessions = rl.remote_sessions ++ (create_session rtpsess ssrc ∷ []);
  }

  -- What `kms_remb_local_get_video_recv_info` gives when it returns TRUE.
  pub record VideoInfo : Type 0 where
    pub bitrate : ℕ
    pub fraction_lost : ℕ
    pub packets_rcv_interval : ℕ

  -- `kms_remb_local_get_video_recv_info`; `scale` is `gst_util_uint64_scale`.
  unfoldable pub get_video_recv_info :
      (ℕ → ℕ → ℕ → ℕ) → (ℕ → Option (List RtpSource)) → Local → ℕ → Local × Option VideoInfo
  get_video_recv_info scale sources self current_time =
      let (sessions, info) = gather sources self.remote_sessions no_info in
      let gathered : Local = record self { remote_sessions = sessions } in
      if info.count == 0
      then (gathered, none)
      else if info.packets_received_expected_interval_accumulative == 0
      then (gathered, none)
      else (
        record gathered { last_time = current_time },
        some (record {
          bitrate =
              if not (self.last_time == 0)
              then scale info.octets_received_interval (8 * gst_second)
                  (sub64 current_time self.last_time)
              else info.bitrate;
          fraction_lost =
              info.fraction_lost_accumulative
              / info.packets_received_expected_interval_accumulative;
          packets_rcv_interval = info.packets_received_interval;
        }),
      )

  -- The smoothed loss, the highest and the average bitrate.
  unfoldable pub smooth : Local → VideoInfo → Option Local
  smooth self v =
      let top = max self.packets_recv_interval_top v.packets_rcv_interval % 2 ^ 32 in
      if top == 0
      then none
      else some (record self {
        fraction_lost_record =
            (self.fraction_lost_record * sub64 top v.packets_rcv_interval
              + v.fraction_lost * v.packets_rcv_interval)
            % 2 ^ 64
            / top;
        max_br = max self.max_br v.bitrate % 2 ^ 32;
        avg_br =
            if self.avg_br == 0
            then v.bitrate % 2 ^ 32
            else (self.avg_br * 7 % 2 ^ 32 + v.bitrate) % 2 ^ 64 / 8 % 2 ^ 32;
      })

  -- Without losses: up, but not past twice the highest bitrate. The gints stand as their guints.
  unfoldable pub increase : Local → Option Local
  increase self = do
    let remb_base = max self.remb self.max_br
    remb_new ←
        (if ltb remb_base self.threshold
          then elim (to_gint? (
              times (of_gint (to_gint remb_base))
                (plus (of_gint (pos 1)) self.exponential_factor))) [
                  | none ↦ none
                  | some i ↦ some (to_unsigned 32 i)
                ]
          else some ((remb_base + self.lineal_factor) % 2 ^ 32))
    some (record self { remb = max self.remb (min remb_new (self.max_br * 2 % 2 ^ 32)) })

  -- With losses: down to what came in when they are few, by a factor when they are many.
  unfoldable pub back_off : Local → ℕ → Option Local
  back_off self remb_base =
      if ltb self.fraction_lost_record (to_unsigned 64 self.up_losses)
      then some (record self { remb = min self.remb self.max_br })
      else elim (to_guint? (times (of_gint (to_gint remb_base)) self.decrement_factor)) [
        | none ↦ none
        | some lowered ↦
            some (record self { remb = lowered; fraction_lost_record = 0; max_br = 0; avg_br = 0 })
      ]

  unfoldable pub decrease : Local → Option Local
  decrease self = do
    let remb_base = max self.remb self.avg_br
    threshold ← to_guint? (times (of_gint (to_gint remb_base)) self.threshold_factor)
    lineal_factor_new ←
        to_gint?
          (over (of_guint ((remb_base + 2 ^ 32 - threshold) % 2 ^ 32)) self.lineal_factor_grade)
    back_off
        (record self {
          threshold = threshold;
          lineal_factor = to_unsigned 32 (
              if ltb_ℤ lineal_factor_new self.lineal_factor_min
              then self.lineal_factor_min
              else lineal_factor_new);
        })
        remb_base

  unfoldable pub limit : Local → Local
  limit self =
      if ltb 0 self.max_bw
      then record self { remb = min self.remb (self.max_bw * 1000 % 2 ^ 32) }
      else self

  -- The first bitrate that is seen becomes the first estimate; `none` while there is none.
  unfoldable pub probe : Local → VideoInfo → Option Local
  probe self v =
      if self.probed
      then some self
      else if v.bitrate == 0
      then none
      else some (record self { remb = v.bitrate % 2 ^ 32; probed = true })

  -- The update behind the probe.
  unfoldable pub adapt : Local → VideoInfo → Option Local
  adapt self v = do
    smoothed ← smooth self v
    moved ← (if smoothed.fraction_lost_record == 0 then increase smoothed else decrease smoothed)
    some (limit moved)

  unfoldable pub update_with : Local → Option VideoInfo → Option (Local × Bool)
  update_with self none = some (self, false)
  update_with self (some v) = elim (probe self v) [
    | none ↦ some (self, false)
    | some probed ↦ do adapted ← adapt probed v; some (adapted, true)
  ]

  -- `kms_remb_local_update`.
  unfoldable pub local_update :
      (ℕ → ℕ → ℕ → ℕ) → (ℕ → Option (List RtpSource)) → Local → ℕ → Option (Local × Bool)
  local_update scale sources self current_time =
      let (gathered, info) = get_video_recv_info scale sources self current_time in
      update_with gathered info

  -- The fields of a GstStructure that `kms_remb_local_set_params` reads.
  pub record LocalParams : Type 0 where
    pub packets_recv_interval_top : Option ℤ
    pub exponential_factor : Option Float
    pub lineal_factor_min : Option ℤ
    pub lineal_factor_grade : Option ℤ
    pub decrement_factor : Option Float
    pub threshold_factor : Option Float
    pub up_losses : Option ℤ

  unfoldable pub interval_top : ℕ → Option ℤ → ℕ
  interval_top kept none = kept
  interval_top kept (some auxi) = if ltb_ℤ (pos 0) auxi then to_unsigned 32 auxi else 1

  -- `kms_remb_local_set_params`.
  unfoldable pub set_local_params : Local → LocalParams → Local
  set_local_params rl params = record rl {
    packets_recv_interval_top =
        interval_top rl.packets_recv_interval_top params.packets_recv_interval_top;
    exponential_factor = or_else rl.exponential_factor params.exponential_factor;
    lineal_factor_min = or_else rl.lineal_factor_min params.lineal_factor_min;
    lineal_factor_grade = elim params.lineal_factor_grade [
      | none ↦ rl.lineal_factor_grade
      | some auxi ↦ of_gint auxi
    ];
    decrement_factor = or_else rl.decrement_factor params.decrement_factor;
    threshold_factor = or_else rl.threshold_factor params.threshold_factor;
    up_losses = or_else rl.up_losses params.up_losses;
  }
