-- ===== src/SdpAgent/Slots.antt =====
-- kmssdpagent.c, the loop of `kms_sdp_agent_merge_offer_handlers`.
use kms_core.Prelude.{
  ℕ, zero, suc, ◌<◌, ◌≡◌, ◌∙◌, refl, inl, inr, ◌⊎◌, true, false, none, some, List, [], ◌∷◌,
  if◌then◌else◌, arith, length, get_elem?, Bool-cases, Option-cases,
}
use kms_core.SdpAgent.{Handler, first_not_negotiated, reusable, any_reusable, fill_slot, fill_slots}

-- What holds of each handler in a list of ids.
abbrev pub Each : (Handler → Type 0) → (ℕ → Handler) → List ℕ → Type 0
Each P handler [] = Unit
Each P handler (id ∷ ids) = P (handler id) × Each P handler ids

-- A handler that waits can take a slot for good.
abbrev pub IsUsable : Handler → Type 0
IsUsable h = h.negotiated ≡ false → reusable h ≡ false

abbrev pub AllUsable : (ℕ → Handler) → List ℕ → Type 0
AllUsable handler ids = Each IsUsable handler ids

module _ (handler : ℕ → Handler) where
  -- How many slots can be used again.
  abbrev pub slots : List ℕ → ℕ
  slots [] = 0
  slots (id ∷ ids) = if reusable (handler id) then suc (slots ids) else slots ids

  slots-any_reusable : (offer : List ℕ) → any_reusable handler offer ≡ true → 0 < slots offer
  slots-any_reusable [] any = absurd (ground arith)
  slots-any_reusable (id ∷ ids) any = ground (arith, slots-any_reusable ids)

  slots-fill_slot :
      (new : ℕ) (offer : List ℕ)
      → reusable (handler new) ≡ false
      → 0 < slots offer
      → suc (slots (fill_slot handler new offer)) ≡ slots offer
  unfolding fill_slot
  slots-fill_slot new [] usable some_slot = absurd (omega arith)
  slots-fill_slot new (id ∷ ids) usable some_slot = ground (arith, slots-fill_slot new ids usable)

  length-fill_slot :
      (new : ℕ) (offer : List ℕ) → length (fill_slot handler new offer) ≡ length offer
  unfolding fill_slot
  length-fill_slot new [] = refl
  length-fill_slot new (id ∷ ids) = ground (arith, length-fill_slot new ids)

  -- A slot in use is left alone.
  fill_slot_keeps :
      (new i id : ℕ) (offer : List ℕ)
      → get_elem? offer i ≡ some id
      → reusable (handler id) ≡ false
      → get_elem? (fill_slot handler new offer) i ≡ some id
  unfolding fill_slot
  fill_slot_keeps new i id [] at used = absurd (ground arith)
  fill_slot_keeps new zero id (other ∷ ids) at used = ground arith
  fill_slot_keeps new (suc i) id (other ∷ ids) at used =
      ground (arith, fill_slot_keeps new i id ids at used)

  first_usable :
      (handlers offer : List ℕ) (new : ℕ)
      → AllUsable handler handlers
      → first_not_negotiated handler handlers offer ≡ some new
      → reusable (handler new) ≡ false
  unfolding first_not_negotiated
  first_usable [] offer new all found = absurd (ground arith)
  first_usable (id ∷ ids) offer new all found = ground (arith, first_usable ids offer new all.1)

  -- What the loop gives.
  pub record Fills (handlers offer out : List ℕ) : Type 0 where
    pub size : length out ≡ length offer
    pub kept :
        (i id : ℕ)
        → get_elem? offer i ≡ some id
        → reusable (handler id) ≡ false
        → get_elem? out i ≡ some id
    pub done :
        (any_reusable handler out ≡ false) ⊎ (first_not_negotiated handler handlers out ≡ none)

  -- With more rounds than there are slots to use again the loop comes to its end.
  pub fill_slots-Fills :
      (fuel : ℕ) (handlers offer : List ℕ)
      → AllUsable handler handlers
      → slots offer < fuel
      → (out : List ℕ) × (fill_slots fuel handler handlers offer ≡ some out)
        × Fills handlers offer out
  unfolding fill_slots
  fill_slots-Fills zero handlers offer all enough = absurd (omega arith)
  fill_slots-Fills (suc fuel) handlers offer all enough =
      elim (Bool-cases (any_reusable handler offer)) [
        | inr full ↦ (
          offer,
          rw full refl,
          record { size = refl; kept = λ i id at used. at; done = inl full },
        )
        | inl free ↦ elim (Option-cases (first_not_negotiated handler handlers offer)) [
          | inl finished ↦ (
            offer,
            rw free (rw finished refl),
            record { size = refl; kept = λ i id at used. at; done = inr finished },
          )
          | inr (new, found) ↦
              let usable = first_usable handlers offer new all found in
              let fewer = slots-fill_slot new offer usable (slots-any_reusable offer free) in
              let (out, ran, fills) =
                fill_slots-Fills fuel handlers (fill_slot handler new offer) all (omega arith) in
              (
                out,
                rw free (rw found ran),
                record {
                  size = fills.size ∙ length-fill_slot new offer;
                  kept =
                      λ i id at used. fills.kept i id (fill_slot_keeps new i id offer at used) used;
                  done = fills.done;
                },
              )
        ]
      ]
