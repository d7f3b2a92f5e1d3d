-- ===== src/SdpPayloadManager/Registering.antt =====
-- kmssdppayloadmanager.c, `kms_sdp_payload_manager_register_dynamic_payload_internal`.
use Prim.Native.String.{String}
use kms_core.Prelude.{
  ℕ, ◌≤◌, ◌<◌, ◌≡◌, refl, sym, ◌∙◌, ◌≢◌, inl, inr, none, some, arith, length, get_elem?, set,
  length-set, get_elem?-set_self, get_elem?-set_ne, store-set, ◌>>=◌, Bool-cases, ==_iff, ◌==◌,
}
use kms_core.Prelude.Int.{pos}
use kms_core.Prelude.Buffers.{lt-of-get_elem?}
use kms_core.SdpPayloadManager.{Manager, register_internal}
use kms_core.SdpPayloadManager.Codecs.{Codecs, Has, Cleared, clear_codec-Cleared}

-- The array has its declared size, and no codec has two dynamic payload types.
pub record IsValid (m : Manager) : Type 0 where
  pub size : length m.codecs ≡ 128
  pub unique :
      (i j : ℕ) (name : String)
      → 96 ≤ i
      → 96 ≤ j
      → Has m.codecs i name
      → Has m.codecs j name
      → i ≡ j

-- `new` is `old` with the codec `name` at the payload type `pt`, in place of the codec there, and at no
-- other dynamic one.
pub record Registers (old new : Manager) (pt : ℕ) (name : String) : Type 0 where
  pub valid : IsValid new
  pub here : Has new.codecs pt name
  pub moved : (j : ℕ) → 96 ≤ j → Has new.codecs j name → j ≡ pt
  pub kept :
      (j : ℕ) (other : String)
      → j ≢ pt
      → other ≢ name
      → Has old.codecs j other
      → Has new.codecs j other
  pub known : (j : ℕ) (other : String) → j ≢ pt → Has new.codecs j other → Has old.codecs j other
  pub same_counter : new.counter ≡ old.counter
  pub same_sharing : new.share_pts ≡ old.share_pts

module _ (m : Manager) (v : IsValid m) (pt : ℕ) (name : String) (lt : pt < 128) where
  -- The codecs with `pt` freed, and then without the name in the dynamic range.
  abbrev freed : Codecs
  freed = set m.codecs pt none

  module _ (out : Codecs) (c : Cleared freed out name 96 128) where
    unfolds : length out ≡ 128
    unfolds = c.size ∙ length-set m.codecs pt none ∙ v.size

    abbrev written : Manager
    written = record m { codecs = set out pt (some name) }

    elsewhere : (j : ℕ) → j ≢ pt → get_elem? (set out pt (some name)) j ≡ get_elem? out j
    elsewhere j ne = get_elem?-set_ne out pt j (some name) (λ e. ne (sym e))

    before : (j : ℕ) (other : String) → j ≢ pt → Has out j other → Has m.codecs j other
    before j other ne has =
        sym (get_elem?-set_ne m.codecs pt j none (λ e. ne (sym e))) ∙ c.known j other has

    after :
        (j : ℕ) (other : String) → j ≢ pt → other ≢ name → Has m.codecs j other → Has out j other
    after j other ne ne' has =
        c.kept j other ne' (get_elem?-set_ne m.codecs pt j none (λ e. ne (sym e)) ∙ has)

    at_pt : Has (set out pt (some name)) pt name
    at_pt = get_elem?-set_self out pt (some name) (omega (arith, unfolds))

    name_of_pt : (other : String) → Has (set out pt (some name)) pt other → other ≡ name
    name_of_pt other has = cc at_pt

    only_pt : (j : ℕ) → 96 ≤ j → Has (set out pt (some name)) j name → j ≡ pt
    only_pt j le has = elim (Bool-cases (j == pt)) [
      | inl same ↦ (==_iff j pt).0 same
      | inr other ↦
          let ne : j ≢ pt = λ e. ground arith in
          let in_out = sym (elsewhere j ne) ∙ has in
          absurd (c.gone j le (omega (arith, lt-of-get_elem? out j in_out, unfolds)) in_out)
    ]

    unique :
        (i j : ℕ) (other : String)
        → 96 ≤ i
        → 96 ≤ j
        → Has (set out pt (some name)) i other
        → Has (set out pt (some name)) j other
        → i ≡ j
    unique i j other hi hj at_i at_j = elim (Bool-cases (i == pt)) [
      | inl i_pt ↦
          let same : i ≡ pt = (==_iff i pt).0 i_pt in
          let named : other ≡ name = name_of_pt other (rw same at at_i) in
          same ∙ sym (only_pt j hj (rw named at at_j))
      | inr i_other ↦ elim (Bool-cases (j == pt)) [
        | inl j_pt ↦
            let same : j ≡ pt = (==_iff j pt).0 j_pt in
            let named : other ≡ name = name_of_pt other (rw same at at_j) in
            only_pt i hi (rw named at at_i) ∙ sym same
        | inr j_other ↦
            let i_ne : i ≢ pt = λ e. ground arith in
            let j_ne : j ≢ pt = λ e. ground arith in
            v.unique i j other hi hj (before i other i_ne (sym (elsewhere i i_ne) ∙ at_i))
              (before j other j_ne (sym (elsewhere j j_ne) ∙ at_j))
      ]
    ]

    written-Registers : Registers m written pt name
    written-Registers = record {
      valid = record { size = length-set out pt (some name) ∙ unfolds; unique = unique };
      here = at_pt;
      moved = only_pt;
      kept = λ j other ne ne' has. elsewhere j ne ∙ after j other ne ne' has;
      known = λ j other ne has. before j other ne (sym (elsewhere j ne) ∙ has);
      same_counter = refl;
      same_sharing = refl;
    }

  -- Registering a codec at a payload type of the array puts it there in place of the codec that was
  -- there, and takes it from the dynamic payload types, from 96 on, that it had. The other codecs stay
  -- where they were, no payload type gets another codec, and the manager stays valid.
  pub register_internal-Registers :
      (new : Manager) × (register_internal m (pos pt) name ≡ some new) × Registers m new pt name
  unfolding register_internal
  register_internal-Registers =
      let (out, cleared, c) =
        clear_codec-Cleared 32 96 freed name (omega (arith, v.size, length-set m.codecs pt none)) in
      (
        written out c,
        rw (store-set m.codecs pt none (omega (arith, v.size)), ◌>>=◌)
            (rw (cleared, ◌>>=◌)
              (rw (store-set out pt (some name) (omega (arith, unfolds out c)), ◌>>=◌))),
        written-Registers out c,
      )
