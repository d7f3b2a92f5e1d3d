-- ===== src/SdpPayloadManager/Counter.antt =====
-- kmssdppayloadmanager.c: the counter, and the loop that passes over payload types in use.
use Prim.Native.String.{String}
use kms_core.Prelude.{
  ℕ, zero, suc, ◌+◌, ◌^◌, ◌≤◌, ◌<◌, max, ◌≡◌, ◌≢◌, refl, ◌==◌, ==_iff, ap, ◌∙◌, inl, inr, none,
  some, arith, length, get_elem?, ◌>>=◌, Bool-cases, ltb, ltb→lt, ltb-false, Option-cases,
}
use kms_core.Prelude.Int.{ℤ, pos, negsuc}
use kms_core.Prelude.Buffers.{get_elem?_lt}
use kms_core.SdpPayloadManager.Codecs.{Codecs}
use kms_core.SdpPayloadManager.{Manager, get_next_int, take_or, get_dynamic_pt_from_list}

-- No payload type from one number to another is empty.
abbrev pub Used : Codecs → ℕ → ℕ → Type 0
Used codecs from to = (j : ℕ) → from ≤ j → j < to → get_elem? codecs j ≢ some none

-- What the loop over the counter does: it takes the next empty payload type, or none is left.
pub data Takes (m : Manager) : Manager → ℤ → Type 0 where
  free :
      (i : ℕ)
      → m.counter ≤ i
      → i < 128
      → get_elem? m.codecs i ≡ some none
      → Used m.codecs m.counter i
      → Takes m (record m { counter = i + 1 }) (pos i)
  full :
      (n : ℕ)
      → 128 ≤ n
      → n ≤ max m.counter 128 + 1
      → Used m.codecs m.counter 128
      → Takes m (record m { counter = n }) (negsuc 0)

pub next_low :
    (m : Manager)
    → m.counter < 128
    → get_next_int m ≡ (record m { counter = m.counter + 1 }, pos m.counter)
unfolding get_next_int
next_low m h = ground arith

pub next_high :
    (m : Manager)
    → 128 ≤ m.counter
    → m.counter + 1 < 2 ^ 31
    → get_next_int m ≡ (record m { counter = m.counter + 1 }, negsuc 0)
unfolding get_next_int
next_high m h k = ground arith

Used-skip :
    (codecs : Codecs) (from to : ℕ)
    → get_elem? codecs from ≢ some none
    → Used codecs (from + 1) to
    → Used codecs from to
Used-skip codecs from to here rest j le lt = elim (Bool-cases (from == j)) [
  | inl same ↦ rw (← (==_iff from j).0 same) here
  | inr later ↦ rest j (ground arith) lt
]

Takes-skip :
    (m : Manager) {new : Manager} {r : ℤ}
    → m.counter < 128
    → get_elem? m.codecs m.counter ≢ some none
    → Takes (record m { counter = m.counter + 1 }) new r
    → Takes m new r
Takes-skip m lt here (free i le lt' e used) =
    free i (omega arith) lt' e (Used-skip m.codecs m.counter i here used)
Takes-skip m lt here (full n le le' used) =
    full n le (omega arith) (Used-skip m.codecs m.counter 128 here used)

module _ (fuel : ℕ) (m : Manager) where
  stops_full :
      128 ≤ m.counter
      → m.counter + 1 < 2 ^ 31
      → get_dynamic_pt_from_list (suc fuel) m
        ≡ some (record m { counter = m.counter + 1 }, negsuc 0)
  unfolding get_dynamic_pt_from_list take_or
  stops_full h k = rw (next_high m h k) refl

  stops_free :
      m.counter < 128
      → get_elem? m.codecs m.counter ≡ some none
      → get_dynamic_pt_from_list (suc fuel) m
        ≡ some (record m { counter = m.counter + 1 }, pos m.counter)
  unfolding get_dynamic_pt_from_list take_or
  stops_free h e = rw (next_low m h) (rw (e, ◌>>=◌))

  goes_on :
      {name : String}
      → m.counter < 128
      → get_elem? m.codecs m.counter ≡ some (some name)
      → get_dynamic_pt_from_list (suc fuel) m
        ≡ get_dynamic_pt_from_list fuel (record m { counter = m.counter + 1 })
  unfolding get_dynamic_pt_from_list take_or
  goes_on h e = rw (next_low m h) (rw (e, ◌>>=◌))

pub get_dynamic_pt_from_list-Takes :
    (fuel : ℕ) (m : Manager)
    → length m.codecs ≡ 128
    → m.counter + 1 < 2 ^ 31
    → 129 ≤ m.counter + fuel
    → 0 < fuel
    → (new : Manager) × (r : ℤ) × (get_dynamic_pt_from_list fuel m ≡ some (new, r)) × Takes m new r
get_dynamic_pt_from_list-Takes zero m size small enough some_fuel = absurd (omega arith)
get_dynamic_pt_from_list-Takes (suc fuel) m size small enough some_fuel =
    elim (Bool-cases (ltb m.counter 128)) [
      | inr high ↦
          let le : 128 ≤ m.counter = ltb-false _ _ high in
          (
            record m { counter = m.counter + 1 },
            negsuc 0,
            stops_full fuel m le small,
            full (m.counter + 1) (omega arith) (omega arith) (λ j le' lt. absurd (omega arith)),
          )
      | inl low ↦
          let lt : m.counter < 128 = ltb→lt _ _ low in
          let (codec, at) = get_elem?_lt m.codecs m.counter (omega arith) in
          elim (Option-cases codec) [
            | inl empty ↦
                let at_none = at ∙ ap some empty in
                (
                  record m { counter = m.counter + 1 },
                  pos m.counter,
                  stops_free fuel m lt at_none,
                  free m.counter (omega arith) lt at_none (λ j le lt'. absurd (omega arith)),
                )
            | inr (name, used) ↦
                let (new, r, run, takes) =
                  get_dynamic_pt_from_list-Takes fuel (record m { counter = m.counter + 1 }) size
                    (omega arith) (omega arith) (omega arith) in
                (
                  new,
                  r,
                  goes_on fuel m lt (at ∙ ap some used) ∙ run,
                  Takes-skip m lt (λ e. ground (arith, at, used, e)) takes,
                )
          ]
    ]
