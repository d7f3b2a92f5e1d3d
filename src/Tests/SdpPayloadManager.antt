-- ===== src/Tests/SdpPayloadManager.antt =====
-- kmssdppayloadmanager.c at a new manager and at one that knows VP8.
use Prim.Native.String.{String}
use kms_core.Prelude.{ℕ, zero, suc, ◌≡◌, refl, true, false, some, none, arith, replicate, get_elem?}
use kms_core.Prelude.Int.{ℤ, pos}
use kms_core.SdpPayloadManager.{Manager, new, register_internal, get_dynamic_pt}
use kms_core.SdpPayloadManager.Counting.{calls, nth, counting, get_dynamic_pt_counts}
use kms_core.SdpPayloadManager.Registering.{IsValid, Registers, register_internal-Registers}
use kms_core.SdpPayloadManager.Sharing.{get_dynamic_pt_again}

abbrev sharing : Manager
sharing = record { counter = 96; share_pts = true; codecs = replicate 128 none }

nothing_there : (n i : ℕ) (name : String) → get_elem? (replicate n none) i ≡ some (some name) → ⊥
nothing_there zero i name e = ground arith
nothing_there (suc n) zero name e = ground arith
nothing_there (suc n) (suc i) name e = nothing_there n i name e

sharing-IsValid : IsValid sharing
sharing-IsValid = record {
  size = refl;
  unique = λ i j name hi hj at at'. absurd (nothing_there 128 i name at);
}

register_internal-Registers_example :
    (m : Manager) × (register_internal sharing (pos 100) "VP8" ≡ some m)
    × Registers sharing m 100 "VP8"
register_internal-Registers_example =
    register_internal-Registers sharing sharing-IsValid 100 "VP8" (omega arith)

again_alike :
    (m : Manager) × (r : ℤ) × (get_dynamic_pt sharing (some "VP8") ≡ some (m, r))
    × (IsValid m)
    × ((pt : ℕ) → r ≡ pos pt → get_dynamic_pt m (some "VP8") ≡ some (m, r))
again_alike = get_dynamic_pt_again sharing sharing-IsValid "VP8" refl (omega arith) (omega arith)

get_dynamic_pt_counts_example :
    (calls 31 (new false) none ≡ some (counting 31))
    × (get_dynamic_pt (counting 31) none ≡ some (counting 32, nth 31))
get_dynamic_pt_counts_example = get_dynamic_pt_counts 31 none (omega arith)
