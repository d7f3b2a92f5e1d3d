-- ===== src/SdpPayloadManager/Sharing.antt =====
-- kmssdppayloadmanager.c, a manager that shares payload types: one dynamic payload type for each
-- codec, and the other way round.
use Prim.Native.String.{String}
use kms_core.Prelude.{
  ℕ, ◌+◌, ◌^◌, ◌≤◌, ◌<◌, ◌≡◌, refl, ap, ◌∙◌, ◌≢◌, true, Option, none, some, arith, get_elem?, ◌>>=◌,
}
use kms_core.Prelude.Int.{ℤ, pos, negsuc}
use kms_core.SdpPayloadManager.{
  Manager, get_pt_for_codec, allocate, register_taken, known_or_new, shared_pt, get_dynamic_pt,
  min_dynamic_payload, dynamic_payloads, enough_rounds,
}
use kms_core.SdpPayloadManager.Codecs.{Has, Found, hit, miss, find_codec-Found}
use kms_core.SdpPayloadManager.Registering.{IsValid, Registers, register_internal-Registers}
use kms_core.SdpPayloadManager.Counter.{Used, Takes, free, full, get_dynamic_pt_from_list-Takes}

-- What a call for a codec does to a manager that shares payload types.
pub data Shares (old : Manager) (name : String) : Manager → ℤ → Type 0 where
  known : (pt : ℕ) → 96 ≤ pt → pt < 128 → Has old.codecs pt name → Shares old name old (pos pt)
  fresh :
      (new : Manager) (pt : ℕ)
      → 96 ≤ pt
      → pt < 128
      → get_elem? old.codecs pt ≡ some none
      → Used old.codecs old.counter pt
      → ((j : ℕ) → 96 ≤ j → j < 128 → get_elem? old.codecs j ≢ some (some name))
      → Registers (record old { counter = pt + 1 }) new pt name
      → Shares old name new (pos pt)
  exhausted :
      (n : ℕ)
      → 128 ≤ n
      → Used old.codecs old.counter 128
      → ((j : ℕ) → 96 ≤ j → j < 128 → get_elem? old.codecs j ≢ some (some name))
      → Shares old name (record old { counter = n }) (negsuc 0)

module _ (m : Manager) (v : IsValid m) (name : String) where
  register_taken-Shares :
      {taken : Manager} {r : ℤ}
      → 96 ≤ m.counter
      → ((j : ℕ) → 96 ≤ j → j < 128 → get_elem? m.codecs j ≢ some (some name))
      → Takes m taken r
      → (new : Manager) × (pt : ℤ) × (register_taken name (taken, r) ≡ some (new, pt))
        × Shares m name new pt
  unfolding register_taken
  register_taken-Shares low absent (free i le lt empty used) =
      let (new, run, reg) =
        register_internal-Registers (record m { counter = i + 1 })
          (record { size = v.size; unique = v.unique }) i name lt in
      (new, pos i, rw (run, ◌>>=◌), fresh new i (omega arith) lt empty used absent reg)
  register_taken-Shares low absent (full n le le' used) =
      (record m { counter = n }, negsuc 0, refl, exhausted n le used absent)

  allocate-Shares :
      96 ≤ m.counter
      → m.counter + 1 < 2 ^ 31
      → ((j : ℕ) → 96 ≤ j → j < 128 → get_elem? m.codecs j ≢ some (some name))
      → (new : Manager) × (r : ℤ) × (allocate m name ≡ some (new, r)) × Shares m name new r
  unfolding allocate
  allocate-Shares low high absent =
      let (taken, r, run, takes) =
        get_dynamic_pt_from_list-Takes enough_rounds m v.size high (omega arith) (omega arith) in
      rw (run, ◌>>=◌) (register_taken-Shares low absent takes)

  known_or_new-Shares :
      {r : Option ℕ}
      → 96 ≤ m.counter
      → m.counter + 1 < 2 ^ 31
      → Found m.codecs name min_dynamic_payload dynamic_payloads r
      → (new : Manager) × (pt : ℤ) × (known_or_new m name r ≡ some (new, pt)) × Shares m name new pt
  unfolding known_or_new
  known_or_new-Shares low high (hit pt le lt has) = (m, pos pt, refl, known pt le lt has)
  known_or_new-Shares low high (miss absent) = allocate-Shares low high absent

  search :
      (r : Option ℕ) × (get_pt_for_codec m name ≡ some r)
      × Found m.codecs name min_dynamic_payload dynamic_payloads r
  unfolding get_pt_for_codec
  search =
      find_codec-Found dynamic_payloads min_dynamic_payload m.codecs name (omega (arith, v.size))

  looked_up :
      {r : Option ℕ}
      → m.share_pts ≡ true
      → get_pt_for_codec m name ≡ some r
      → get_dynamic_pt m (some name) ≡ known_or_new m name r
  unfolding get_dynamic_pt shared_pt
  looked_up sharing ran = simp (sharing, ran, ◌>>=◌)

  pub get_dynamic_pt-Shares :
      m.share_pts ≡ true
      → 96 ≤ m.counter
      → m.counter + 1 < 2 ^ 31
      → (new : Manager) × (r : ℤ) × (get_dynamic_pt m (some name) ≡ some (new, r))
        × Shares m name new r
  get_dynamic_pt-Shares sharing low high =
      let (r, ran, found) = search in
      rw (looked_up sharing ran) (known_or_new-Shares low high found)

  same_pt_of :
      {r : Option ℕ} (pt : ℕ)
      → 96 ≤ pt
      → pt < 128
      → Has m.codecs pt name
      → Found m.codecs name min_dynamic_payload dynamic_payloads r
      → r ≡ some pt
  same_pt_of pt le lt has (hit other le' lt' has') =
      ap some (v.unique other pt name le' le has' has)
  same_pt_of pt le lt has (miss absent) = absurd (absent pt le lt has)

  -- A codec that has a dynamic payload type gets that one, and the manager does not change.
  pub get_dynamic_pt-known :
      (pt : ℕ)
      → m.share_pts ≡ true
      → 96 ≤ pt
      → pt < 128
      → Has m.codecs pt name
      → get_dynamic_pt m (some name) ≡ some (m, pos pt)
  unfolding known_or_new
  get_dynamic_pt-known pt sharing le lt has =
      let (r, ran, found) = search in
      rw (looked_up sharing ran) (rw (same_pt_of pt le lt has found))

-- On a valid manager that shares payload types and whose counter is between 96 and 2 ^ 31 - 2, two
-- calls for one codec give the same payload type when the first gives one, and the manager stays valid.
pub get_dynamic_pt_again :
    (m : Manager) (v : IsValid m) (name : String)
    → m.share_pts ≡ true
    → 96 ≤ m.counter
    → m.counter + 1 < 2 ^ 31
    → (new : Manager) × (r : ℤ) × (get_dynamic_pt m (some name) ≡ some (new, r))
      × (IsValid new)
      × ((pt : ℕ) → r ≡ pos pt → get_dynamic_pt new (some name) ≡ some (new, r))
get_dynamic_pt_again m v name sharing low high =
    let (new, r, run, shares) = get_dynamic_pt-Shares m v name sharing low high in
    let (valid, again) = after shares in (new, r, run, valid, again)
  where
    after :
        {new : Manager} {r : ℤ}
        → Shares m name new r
        → IsValid new × ((pt : ℕ) → r ≡ pos pt → get_dynamic_pt new (some name) ≡ some (new, r))
    after (known pt le lt has) = (v, λ i e. get_dynamic_pt-known m v name pt sharing le lt has)
    after (fresh new pt le lt empty used absent reg) = (
      reg.valid,
      λ i e. get_dynamic_pt-known new reg.valid name pt (reg.same_sharing ∙ sharing) le lt reg.here,
    )
    after (exhausted n le used absent) =
        (record { size = v.size; unique = v.unique }, λ i e. absurd (ground arith))
