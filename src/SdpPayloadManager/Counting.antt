-- ===== src/SdpPayloadManager/Counting.antt =====
-- kmssdppayloadmanager.c: the manager that does not share payload types.
use Prim.Native.String.{String}
use kms_core.Prelude.{
  ℕ, zero, suc, ◌+◌, ◌^◌, ◌<◌, ◌≡◌, ◌∙◌, refl, ap, false, Option, some, ◌>>=◌, if◌then◌else◌, leb,
  arith,
}
use kms_core.Prelude.Int.{ℤ, pos, negsuc}
use kms_core.SdpPayloadManager.{Manager, new, get_next_int, get_dynamic_pt}

-- The manager after a number of calls.
unfoldable pub calls : ℕ → Manager → Option String → Option Manager
calls zero m name = some m
calls (suc n) m name = do asked ← get_dynamic_pt m name; calls n asked.0 name

-- The payload type of the call that `n` calls precede.
abbrev pub nth : ℕ → ℤ
nth n = if leb n 31 then pos (96 + n) else negsuc 0

get_dynamic_pt_next :
    (m : Manager) (name : Option String)
    → m.share_pts ≡ false
    → get_dynamic_pt m name ≡ some (get_next_int m)
unfolding get_dynamic_pt
get_dynamic_pt_next m name s = ground arith

next_state :
    (m : Manager)
    → m.counter + 1 < 2 ^ 31
    → (get_next_int m).0 ≡ record m { counter = m.counter + 1 }
unfolding get_next_int
next_state m h = ground arith

counted : (m : Manager) (a b : ℕ) → a ≡ b → record m { counter = a } ≡ record m { counter = b }
counted m a b e = ap (λ (n : ℕ). let r : Manager = record m { counter = n } in r) e

calls_counter :
    (n : ℕ) (m : Manager) (name : Option String)
    → m.share_pts ≡ false
    → m.counter + n + 1 < 2 ^ 31
    → calls n m name ≡ some (record m { counter = m.counter + n })
unfolding calls
calls_counter zero m name s h = ap some (counted m m.counter (m.counter + 0) (omega arith))
calls_counter (suc n) m name s h =
    rw (get_dynamic_pt_next m name s, ◌>>=◌)
      (rw (next_state m (omega arith)) (
        calls_counter n (record m { counter = m.counter + 1 }) name s (omega arith)
        ∙ ap some (counted m (m.counter + 1 + n) (m.counter + suc n) (omega arith))))

-- The manager that does not share payload types, after `n` calls.
abbrev pub counting : ℕ → Manager
counting n = record (new false) { counter = 96 + n }

next_nth : (n : ℕ) → n + 97 < 2 ^ 31 → get_next_int (counting n) ≡ (counting (suc n), nth n)
unfolding get_next_int new
next_nth n h = ground arith

-- A manager that does not share payload types gives its first 32 calls 96, 97 up to 127 in this order,
-- whatever the codecs, and then -1 as long as its counter is below 2 ^ 31 - 1.
pub get_dynamic_pt_counts :
    (n : ℕ) (name : Option String)
    → n + 97 < 2 ^ 31
    → (calls n (new false) name ≡ some (counting n))
      × (get_dynamic_pt (counting n) name ≡ some (counting (suc n), nth n))
unfolding new
get_dynamic_pt_counts n name h = (
  calls_counter n (new false) name refl (omega arith),
  get_dynamic_pt_next (counting n) name refl ∙ ap some (next_nth n h),
)
