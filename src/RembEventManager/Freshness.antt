-- ===== src/RembEventManager/Freshness.antt =====
-- kmsutils.c: what the manager answers, and whom it tells.
use kms_core.Prelude.{
  ℕ, ◌+◌, ◌≤◌, ◌<◌, ◌≡◌, refl, true, false, not, List, ◌&&◌, inl, inr, [], ◌∷◌, arith,
  if◌then◌else◌, ◌==◌, Bool-cases, ltb,
}
use kms_core.Prelude.Tables.{All-weaken}
use kms_core.RembEventManager.{
  Table, Manager, no_time, create, expired, set_min, calc_min, update_min, get_min, Event,
  remb_event, other_event, remb_probe,
}
use kms_core.RembEventManager.Scanning.{Least, NotBefore, fresh, scan-Least, fresh_all}
use kms_core.RembEventManager.Minimum.{IsValid, calc_min-fields, calc_min-IsValid}

pub create-IsValid : (time : ℕ) → IsValid (create time) time
unfolding create
create-IsValid time = record {
  positive = tt;
  least = inl (inl (refl, refl));
  aged = inr (tt, omega arith);
  past = tt;
}

-- What a question at `time` is answered with, and what it leaves.
pub record Answers (m : Manager) (now time calc_time : ℕ) : Type 0 where
  pub at : ℕ
  pub not_sooner : time ≤ at
  pub not_later : at ≤ calc_time
  pub least : Least (get_min m time calc_time).1 (fresh m.clear_interval at m.remb_hash)
  pub valid : IsValid (get_min m time calc_time).0 now

module _ (m : Manager) (now time calc_time : ℕ) (v : IsValid m now) where
  old_run :
      expired m.clear_interval time m.oldest_remb_time ≡ true
      → get_min m time calc_time ≡ (
        (calc_min m 0 calc_time).0,
        (calc_min m 0 calc_time).0.remb_min,
        (calc_min m 0 calc_time).1,
      )
  unfolding get_min
  old_run old = ground arith

  young_run :
      expired m.clear_interval time m.oldest_remb_time ≡ false
      → get_min m time calc_time ≡ (m, m.remb_min, [])
  unfolding get_min
  young_run young = ground arith

  calculates :
      expired m.clear_interval time m.oldest_remb_time ≡ true
      → time ≤ calc_time
      → Answers m now time calc_time
  calculates old le = record {
    at = calc_time;
    not_sooner = le;
    not_later = omega arith;
    least = rw (old_run old) (
        rw (calc_min-fields m 0 calc_time)
          (scan_least (scan-Least m.clear_interval calc_time m.remb_hash no_time v.positive)));
    valid = rw (old_run old) (calc_min-IsValid m 0 calc_time now v.positive v.past);
  }
    where
      -- No default takes the place of the least bitrate.
      scan_least :
          {least : ℕ} {table : Table}
          → Least least table
          → Least (if least == 0 && ltb 0 0 then 0 else least) table
      scan_least {least} h =
          let same : (if least == 0 && ltb 0 0 then 0 else least) ≡ least = ground arith in
          rw same h

  kept_minimum :
      expired m.clear_interval time m.oldest_remb_time ≡ false
      → now ≤ time
      → time ≤ calc_time
      → m.clear_interval ≤ time
      → time < no_time
      → Answers m now time calc_time
  unfolding expired
  kept_minimum young past le long word = elim v.aged [
    | inl unset ↦ absurd (ground arith)
    | inr (before, old) ↦ record {
      at = time;
      not_sooner = omega arith;
      not_later = le;
      least = rw (young_run young) (rw (all_fresh (ground arith) before) (least_known old));
      valid = rw (young_run young) v;
    }
  ]
    where
      all_fresh :
          time ≤ m.oldest_remb_time + m.clear_interval
          → NotBefore m.oldest_remb_time m.remb_hash
          → fresh m.clear_interval time m.remb_hash ≡ m.remb_hash
      all_fresh near before =
          fresh_all m.clear_interval time m.oldest_remb_time m.remb_hash (omega arith) near before (
            All-weaken (λ w. w.ts ≤ now) (λ w. w.ts ≤ time) m.remb_hash (λ w h. omega arith) v.past)

      least_known : m.oldest_remb_time ≤ now → Least m.remb_min m.remb_hash
      least_known old = elim v.least [
        | inl least ↦ least
        | inr (empty, unset) ↦ absurd (omega arith)
      ]

  -- Asked at a time that is not behind the entries and not before the interval has passed once since
  -- the clock's zero, the manager answers with the least bitrate of the entries that are fresh at
  -- some time in the call, or with 0 when there is none: no expired entry counts.
  pub get_min-Answers :
      now ≤ time
      → time ≤ calc_time
      → m.clear_interval ≤ time
      → time < no_time
      → Answers m now time calc_time
  get_min-Answers past le long word =
      elim (Bool-cases (expired m.clear_interval time m.oldest_remb_time)) [
        | inl old ↦ calculates old le
        | inr young ↦ kept_minimum young past le long word
      ]

-- The callback, if one is set, is called with the new bitrate when the bitrate has changed, and not
-- otherwise.
abbrev pub Notifies : Manager → Manager → List ℕ → Type 0
Notifies before after calls = calls ≡ (
    if before.callback && not (before.remb_min == after.remb_min) then after.remb_min ∷ [] else [])

update_min-Notifies :
    (m : Manager) (bitrate ssrc time entry_time calc_time : ℕ)
    → Notifies m
        (update_min m bitrate ssrc time entry_time calc_time).0
        (update_min m bitrate ssrc time entry_time calc_time).1
unfolding update_min calc_min set_min
update_min-Notifies m bitrate ssrc time entry_time calc_time = ground arith

get_min-Notifies :
    (m : Manager) (time calc_time : ℕ)
    → Notifies m (get_min m time calc_time).0 (get_min m time calc_time).2
unfolding get_min calc_min set_min
get_min-Notifies m time calc_time = ground arith

-- Whatever may change the bitrate, an event on the pad or a question, calls the callback once with the
-- new bitrate when it is another and a callback is set, and does not call it otherwise.
pub remb_probe-Notifies :
    (m : Manager) (event : Event) (time entry_time calc_time : ℕ)
    → Notifies m
        (remb_probe m event time entry_time calc_time).0
        (remb_probe m event time entry_time calc_time).2
      × Notifies m (get_min m time calc_time).0 (get_min m time calc_time).2
unfolding remb_probe
remb_probe-Notifies m other_event time entry_time calc_time =
    (ground arith, get_min-Notifies m time calc_time)
remb_probe-Notifies m (remb_event bitrate ssrc) time entry_time calc_time = (
  update_min-Notifies m bitrate ssrc time entry_time calc_time,
  get_min-Notifies m time calc_time,
)
