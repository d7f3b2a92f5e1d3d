-- ===== src/RembEventManager.antt =====
-- src/gst-plugins/commons/kmsutils.c, `RembEventManager`: the least of the bitrates that the remote
-- receivers asked for, each for as long as it is fresh. The mutex makes each call one step. A time is
-- what `kms_utils_get_time_nsecs` gave at the place where the code calls it.
pub mod Scanning
pub mod Minimum
pub mod Freshness
use kms_core.Prelude.{
  ℕ, ◌+◌, ◌-◌, ◌%◌, ◌^◌, min, Bool, true, false, not, ◌&&◌, ◌||◌, Option, none, some, List, [], ◌∷◌,
  ltb, ◌==◌, if◌then◌else◌,
}
use kms_core.Prelude.Tables.{Entry, lookup, insert}

-- `RembHashValue`.
pub record HashValue : Type 0 where
  pub bitrate : ℕ
  pub ts : ℕ

abbrev pub Table : Type 0
Table = List (Entry HashValue)

-- `_RembEventManager`: of the callback, whether one is set.
pub record Manager : Type 0 where
  pub remb_min : ℕ
  pub remb_hash : Table
  pub oldest_remb_time : ℕ
  pub clear_interval : ℕ
  pub callback : Bool

abbrev pub no_time : ℕ
no_time = 18446744073709551615

abbrev pub default_clear_interval : ℕ
default_clear_interval = 10000000000

-- `kms_utils_remb_event_manager_create`.
unfoldable pub create : ℕ → Manager
create time = record {
  remb_min = 0;
  remb_hash = [];
  oldest_remb_time = time;
  clear_interval = default_clear_interval;
  callback = false;
}

-- The test `time - ts > clear_interval` on guint64.
unfoldable pub expired : ℕ → ℕ → ℕ → Bool
expired interval time ts = ltb interval ((time + 2 ^ 64 - ts) % 2 ^ 64)

-- `remb_event_manager_set_min`, with the values that the callback is called with.
unfoldable pub set_min : Manager → ℕ → Manager × List ℕ
set_min m least =
    if m.remb_min == least
    then (m, [])
    else (record m { remb_min = least }, (if m.callback then least ∷ [] else []))

-- What the loop over the table leaves: the entries, the least bitrate (0 for none) and the oldest time.
pub record Scan : Type 0 where
  pub table : Table
  pub least : ℕ
  pub oldest : ℕ

-- The loop of `remb_event_manager_calc_min`.
unfoldable pub scan : ℕ → ℕ → Table → ℕ → ℕ → Scan
scan interval time [] least oldest = record { table = []; least = least; oldest = oldest }
scan interval time (e ∷ table) least oldest =
    let skipped = scan interval time table least oldest in
    let next = if least == 0 then e.value.bitrate else min least e.value.bitrate in
    let kept = scan interval time table next (min oldest e.value.ts) in
    if expired interval time e.value.ts
    then skipped
    else record { table = e ∷ kept.table; least = kept.least; oldest = kept.oldest }

-- `remb_event_manager_calc_min`.
unfoldable pub calc_min : Manager → ℕ → ℕ → Manager × List ℕ
calc_min m default_min time =
    let s = scan m.clear_interval time m.remb_hash 0 no_time in
    set_min (record m { remb_hash = s.table; oldest_remb_time = s.oldest })
      (if s.least == 0 && ltb 0 default_min then default_min else s.least)

-- Whether the bitrate is another one than the SSRC had.
unfoldable pub new_bitrate : Option HashValue → ℕ → Bool
new_bitrate none bitrate = true
new_bitrate (some last) bitrate = not (bitrate == last.bitrate)

-- `remb_event_manager_update_min`. It reads the clock before the lock, for the entry, and to
-- calculate.
unfoldable pub update_min : Manager → ℕ → ℕ → ℕ → ℕ → ℕ → Manager × List ℕ
update_min m bitrate ssrc time entry_time calc_time =
    let new_br = new_bitrate (lookup m.remb_hash ssrc) bitrate in
    let stored : Manager = record m {
      remb_hash = insert m.remb_hash ssrc (record { bitrate = bitrate; ts = entry_time });
    } in
    if ltb bitrate m.remb_min
    then set_min stored bitrate
    else if new_br && ltb m.remb_min bitrate || expired m.clear_interval time m.oldest_remb_time
    then calc_min stored bitrate calc_time
    else (stored, [])

-- `kms_utils_remb_event_manager_get_min`: the result is in the middle.
unfoldable pub get_min : Manager → ℕ → ℕ → Manager × ℕ × List ℕ
get_min m time calc_time =
    let (after, calls) =
      if expired m.clear_interval time m.oldest_remb_time
      then calc_min m 0 calc_time
      else (m, []) in
    (after, after.remb_min, calls)

-- `kms_utils_remb_event_manager_set_clear_interval`.
unfoldable pub set_clear_interval : Manager → ℕ → Manager
set_clear_interval m interval = record m { clear_interval = interval }

-- `kms_utils_remb_event_manager_set_callback`, for `true`; `false` is a null callback.
unfoldable pub set_callback : Manager → Bool → Manager
set_callback m cb = record m { callback = cb }

-- An upstream event on the manager's pad: one with the bitrate and the SSRC of a REMB, or any other.
pub data Event : Type 0 where
  remb_event : (bitrate ssrc : ℕ) → Event
  other_event : Event

pub data ProbeReturn : Type 0 where
  probe_ok probe_drop : ProbeReturn

-- `remb_probe`.
unfoldable pub remb_probe : Manager → Event → ℕ → ℕ → ℕ → Manager × ProbeReturn × List ℕ
remb_probe m other_event time entry_time calc_time = (m, probe_ok, [])
remb_probe m (remb_event bitrate ssrc) time entry_time calc_time =
    let (after, calls) = update_min m bitrate ssrc time entry_time calc_time in
    (after, probe_drop, calls)
