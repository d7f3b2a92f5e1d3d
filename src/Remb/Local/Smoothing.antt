-- ===== src/Remb/Local/Smoothing.antt =====
-- kmsremb.c: the smoothed loss is a weighted mean of the record and the new measurement.
use native.Mathlib.Nat.{
  mul-le-mul_right, le-div_iff_mul-le, div-le_of_le-mul, mul-add, mul_comm, mod-eq_of_lt,
}
use kms_core.Prelude.{
  ℕ, ◌+◌, ◌*◌, ◌/◌, ◌%◌, ◌^◌, ◌≤◌, ◌<◌, ◌≡◌, refl, subst, max, min, false, some, arith, ◌==◌,
  if◌then◌else◌,
}
use kms_core.Remb.Sessions.{sub64}
use kms_core.Remb.Local.{Floats, Local, VideoInfo, smooth}

-- The mean of `r` and `f` with the weights `a` and `b`.
mean_above : (r f a b : ℕ) → min r f * (a + b) ≤ r * a + f * b
mean_above r f a b = omega (
  arith,
  mul-add (min r f) a b,
  mul-le-mul_right {m = min r f} {n = r} a (omega arith),
  mul-le-mul_right {m = min r f} {n = f} b (omega arith),
)

mean_below : (r f a b : ℕ) → r * a + f * b ≤ max r f * (a + b)
mean_below r f a b = omega (
  arith,
  mul-add (max r f) a b,
  mul-le-mul_right {m = r} {n = max r f} a (omega arith),
  mul-le-mul_right {m = f} {n = max r f} b (omega arith),
)

product_small : (m top : ℕ) → m < 2 ^ 31 → top < 2 ^ 32 → m * top < 2 ^ 64
product_small m top hm ht = omega (arith, mul-le-mul_right {m = m} {n = 2 ^ 31} top (omega arith))

mean :
    (r f a b top : ℕ)
    → a + b ≡ top
    → 0 < top
    → top < 2 ^ 32
    → r < 2 ^ 31
    → f < 2 ^ 31
    → (min r f ≤ (r * a + f * b) % 2 ^ 64 / top) × ((r * a + f * b) % 2 ^ 64 / top ≤ max r f)
mean r f a b top whole pos word hr hf =
    let above : min r f * top ≤ r * a + f * b =
      subst (λ t. min r f * t ≤ r * a + f * b) whole (mean_above r f a b) in
    let below : r * a + f * b ≤ max r f * top =
      subst (λ t. r * a + f * b ≤ max r f * t) whole (mean_below r f a b) in
    let small = product_small (max r f) top (omega arith) word in
    let exact : (r * a + f * b) % 2 ^ 64 ≡ r * a + f * b = mod-eq_of_lt (omega arith) in
    rw exact (
      (le-div_iff_mul-le pos).1 above,
      div-le_of_le-mul top (omega (arith, mul_comm top (max r f))),
    )

module _ (floats : Floats) (self : Local floats) (v : VideoInfo floats) where
  -- What the smoothing of a measurement gives.
  pub record Smooths (after : Local floats) : Type 0 where
    pub at_least : min self.fraction_lost_record v.fraction_lost ≤ after.fraction_lost_record
    pub at_most : after.fraction_lost_record ≤ max self.fraction_lost_record v.fraction_lost
    pub highest : after.max_br ≡ max self.max_br v.bitrate
    pub average_low : min self.avg_br v.bitrate ≤ after.avg_br
    pub average_high : after.avg_br ≤ max self.avg_br v.bitrate

  abbrev top : ℕ
  top = max self.packets_recv_interval_top v.packets_rcv_interval % 2 ^ 32

  abbrev smoothed : Local floats
  smoothed = record self {
    fraction_lost_record =
        (self.fraction_lost_record * sub64 top v.packets_rcv_interval
          + v.fraction_lost * v.packets_rcv_interval)
        % 2 ^ 64
        / top;
    max_br = max self.max_br v.bitrate % 2 ^ 32;
    avg_br =
        if self.avg_br == 0
        then v.bitrate % 2 ^ 32
        else (self.avg_br * 7 % 2 ^ 32 + v.bitrate) % 2 ^ 64 / 8 % 2 ^ 32;
  }

  -- With an interval of at least one packet, numbers of packets that are guint, losses below 2 ^ 31
  -- and bitrates whose octuple is a guint, the smoothing is defined: no step wraps or divides by
  -- zero, the loss lies between the record and the measurement, and so do the bitrates.
  pub smooth-Smooths :
      0 < self.packets_recv_interval_top
      → self.packets_recv_interval_top < 2 ^ 32
      → v.packets_rcv_interval < 2 ^ 32
      → self.fraction_lost_record < 2 ^ 31
      → v.fraction_lost < 2 ^ 31
      → self.max_br < 2 ^ 32
      → self.avg_br < 2 ^ 29
      → v.bitrate < 2 ^ 29
      → (after : Local floats) × (smooth floats self v ≡ some after) × Smooths after
  unfolding smooth
  smooth-Smooths pos word rcv record_small lost_small max_word avg_small rate =
      let nonzero : (top == 0) ≡ false = ground arith in
      let (low, high) =
        mean self.fraction_lost_record v.fraction_lost (sub64 top v.packets_rcv_interval)
          v.packets_rcv_interval top (omega arith) (omega arith) (omega arith) record_small
          lost_small in
      (
        smoothed,
        rw nonzero refl,
        record {
          at_least = low;
          at_most = high;
          highest = omega arith;
          average_low = ground arith;
          average_high = ground arith;
        },
      )
