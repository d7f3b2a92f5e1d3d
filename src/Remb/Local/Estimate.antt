-- ===== src/Remb/Local/Estimate.antt =====
-- kmsremb.c: what an update does to the estimate.
use kms_core.Prelude.{
  ℕ, ◌*◌, ◌%◌, ◌^◌, ◌≤◌, ◌<◌, ◌≡◌, refl, sym, inl, inr, max, min, Bool, Option, some, none, arith,
  ltb, ◌==◌, if◌then◌else◌, ◌>>=◌, Bool-cases,
}
use kms_core.Prelude.Int.{to_unsigned}
use kms_core.Remb.Local.{
  Floats, Local, VideoInfo, smooth, increase, back_off, decrease, limit, adapt,
}

module _ (floats : Floats) where
  open floats use {of_gint, of_guint, plus, times, over, to_gint?, to_guint?}

  -- The bitrate with the limit of the bandwidth that was negotiated; 0 is no limit.
  abbrev pub capped : ℕ → ℕ → ℕ
  capped max_bw remb = if ltb 0 max_bw then min remb (max_bw * 1000 % 2 ^ 32) else remb

  -- How the estimate moved_by from `before`, whose loss and bitrates have just been smoothed, to `after`.
  pub record Moves (before after : Local floats) : Type 0 where
    pub no_losses :
        before.fraction_lost_record ≡ 0
        → (capped before.max_bw before.remb ≤ after.remb)
          × (after.remb ≤ max before.remb (2 * before.max_br))
    pub few_losses :
        0 < before.fraction_lost_record
        → before.fraction_lost_record < to_unsigned 64 before.up_losses
        → after.remb ≡ capped before.max_bw (min before.remb before.max_br)
    pub many_losses :
        0 < before.fraction_lost_record
        → to_unsigned 64 before.up_losses ≤ before.fraction_lost_record
        → (after.fraction_lost_record ≡ 0) × (after.max_br ≡ 0) × (after.avg_br ≡ 0)
    pub capped_remb : after.remb ≡ capped before.max_bw after.remb

  limit_fields :
      (self : Local floats)
      → limit floats self ≡ record self { remb = capped self.max_bw self.remb }
  unfolding limit
  limit_fields self = ground arith

  increase-Moves :
      (self after : Local floats)
      → self.max_br < 2 ^ 31
      → self.fraction_lost_record ≡ 0
      → increase floats self ≡ some after
      → Moves self (limit floats after)
  unfolding increase
  increase-Moves self after small clean ran = rw (limit_fields after) (record {
    no_losses = λ h. ground arith;
    few_losses = λ h k. absurd (omega arith);
    many_losses = λ h k. absurd (omega arith);
    capped_remb = ground arith;
  })

  decrease-Moves :
      (self after : Local floats)
      → 0 < self.fraction_lost_record
      → decrease floats self ≡ some after
      → Moves self (limit floats after)
  unfolding decrease back_off
  decrease-Moves self after lossy ran = rw (limit_fields after) (record {
    no_losses = λ h. absurd (omega arith);
    few_losses = λ h k. ground arith;
    many_losses = λ h k. ground arith;
    capped_remb = ground arith;
  })

  abbrev move : Local floats → Option (Local floats)
  move s = if s.fraction_lost_record == 0 then increase floats s else decrease floats s

  branch :
      (s moved : Local floats) {b : Bool}
      → (s.fraction_lost_record == 0) ≡ b
      → move s ≡ some moved
      → (if b then increase floats s else decrease floats s) ≡ some moved
  branch s moved e run = rw (sym e) run

  moved_by :
      (self s after : Local floats) (v : VideoInfo floats)
      → smooth floats self v ≡ some s
      → adapt floats self v ≡ some after
      → (move s >>= λ moved. some (limit floats moved)) ≡ some after
  unfolding adapt
  moved_by self s after v ran adapted = ground arith

  limited :
      {o : Option (Local floats)} {after : Local floats}
      → (o >>= λ moved. some (limit floats moved)) ≡ some after
      → (moved : Local floats) × (o ≡ some moved) × (limit floats moved ≡ after)
  limited {o = none} e = absurd (ground arith)
  limited {o = some moved} e = (moved, refl, ground arith)

  -- Any update that comes to an end moved_by the estimate in this way: without losses it does not fall
  -- but for the limit of the bandwidth, and rises to at most twice the highest bitrate that came in;
  -- with few it becomes the least of itself and that bitrate; with many the loss and the bitrates
  -- start over; and it is always within the limit.
  pub adapt-Moves :
      (self smoothed after : Local floats) (v : VideoInfo floats)
      → smooth floats self v ≡ some smoothed
      → smoothed.max_br < 2 ^ 31
      → adapt floats self v ≡ some after
      → Moves smoothed after
  unfolding adapt
  adapt-Moves self smoothed after v ran small adapted =
      let (moved, run, e) = limited (moved_by self smoothed after v ran adapted) in
      elim (Bool-cases (smoothed.fraction_lost_record == 0)) [
        | inl clean ↦
            rw (sym e)
              (increase-Moves smoothed moved small (ground arith) (branch smoothed moved clean run))
        | inr lossy ↦
            rw (sym e)
              (decrease-Moves smoothed moved (ground arith) (branch smoothed moved lossy run))
      ]
