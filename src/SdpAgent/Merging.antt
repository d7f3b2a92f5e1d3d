-- ===== src/SdpAgent/Merging.antt =====
-- kmssdpagent.c, `kms_sdp_agent_merge_offer_handlers`: the m-lines of the next offer.
use kms_core.Prelude.{
  ℕ, zero, suc, ◌≤◌, ◌≡◌, ◌∙◌, refl, ap, inl, inr, ◌⊎◌, true, false, none, some, List, [], ◌∷◌,
  ◌++◌, arith, length, get_elem?,
}
use kms_core.SdpAgent.{
  Handler, Agent, mem, first_not_negotiated, reusable, any_reusable, merge_handler, merge_handlers,
  is_unnegotiated, merge_offer_handlers,
}
use kms_core.SdpAgent.Slots.{AllUsable, slots, fill_slots-Fills}

mem-append : (id : ℕ) (xs ys : List ℕ) → mem id xs ≡ true → mem id (xs ++ ys) ≡ true
mem-append id [] ys h = absurd (ground arith)
mem-append id (x ∷ xs) ys h = ground (arith, mem-append id xs ys)

mem_last : (id : ℕ) (xs : List ℕ) → mem id (xs ++ (id ∷ [])) ≡ true
mem_last id [] = ground arith
mem_last id (x ∷ xs) = ground (arith, mem_last id xs)

get_elem?_front :
    (xs ys : List ℕ) (i id : ℕ) → get_elem? xs i ≡ some id → get_elem? (xs ++ ys) i ≡ some id
get_elem?_front [] ys i id h = absurd (ground arith)
get_elem?_front (x ∷ xs) ys zero id h = h
get_elem?_front (x ∷ xs) ys (suc i) id h = get_elem?_front xs ys i id h

module _ (handler : ℕ → Handler) where
  merge_handler-mem :
      (id k : ℕ) (offer : List ℕ)
      → mem k offer ≡ true
      → mem k (merge_handler handler id offer) ≡ true
  unfolding merge_handler
  merge_handler-mem id k offer h = ground (arith, mem-append k offer (id ∷ []))

  merge_handlers-mem :
      (ids : List ℕ) (k : ℕ) (offer : List ℕ)
      → mem k offer ≡ true
      → mem k (merge_handlers handler ids offer) ≡ true
  unfolding merge_handlers
  merge_handlers-mem [] k offer h = h
  merge_handlers-mem (id ∷ ids) k offer h =
      merge_handlers-mem ids k (merge_handler handler id offer) (merge_handler-mem id k offer h)

  merge_handlers_at :
      (ids : List ℕ) (i k : ℕ) (offer : List ℕ)
      → get_elem? offer i ≡ some k
      → get_elem? (merge_handlers handler ids offer) i ≡ some k
  unfolding merge_handlers merge_handler
  merge_handlers_at [] i k offer h = h
  merge_handlers_at (id ∷ ids) i k offer h =
      merge_handlers_at ids i k (merge_handler handler id offer)
        (ground (arith, get_elem?_front offer (id ∷ []) i k))

  -- Every handler that is waiting, enabled and not negotiated, is in the list.
  abbrev pub AllOffered : List ℕ → List ℕ → Type 0
  AllOffered [] offer = Unit
  AllOffered (id ∷ ids) offer =
      ((handler id).negotiated ≡ false → (handler id).disabled ≡ false → mem id offer ≡ true)
      × AllOffered ids offer

  merge_handler_adds :
      (id : ℕ) (offer : List ℕ)
      → (handler id).negotiated ≡ false
      → (handler id).disabled ≡ false
      → mem id (merge_handler handler id offer) ≡ true
  unfolding merge_handler
  merge_handler_adds id offer new enabled = ground (arith, mem_last id offer)

  merge_handlers_all : (ids offer : List ℕ) → AllOffered ids (merge_handlers handler ids offer)
  unfolding merge_handlers
  merge_handlers_all [] offer = tt
  merge_handlers_all (id ∷ ids) offer = (
    λ new enabled.
        merge_handlers-mem ids id (merge_handler handler id offer)
          (merge_handler_adds id offer new enabled),
    merge_handlers_all ids (merge_handler handler id offer),
  )

  -- With no handler waiting nothing is appended.
  merge_handlers-none :
      (ids offer : List ℕ)
      → first_not_negotiated handler ids offer ≡ none
      → merge_handlers handler ids offer ≡ offer
  unfolding merge_handlers merge_handler first_not_negotiated
  merge_handlers-none [] offer h = refl
  merge_handlers-none (id ∷ ids) offer h = ground (arith, merge_handlers-none ids offer)

-- The m-lines of an offer that follows a negotiation.
pub record Merges (agent after : Agent) : Type 0 where
  pub all : AllOffered agent.handler agent.handlers after.offer_handlers
  pub kept :
      (i id : ℕ)
      → get_elem? agent.offer_handlers i ≡ some id
      → reusable (agent.handler id) ≡ false
      → get_elem? after.offer_handlers i ≡ some id
  pub frugal :
      (length after.offer_handlers ≡ length agent.offer_handlers)
      ⊎ ((out : List ℕ) × (any_reusable agent.handler out ≡ false)
          × (length out ≡ length agent.offer_handlers)
          × (merge_handlers agent.handler agent.handlers out ≡ after.offer_handlers))

slots_bound : (handler : ℕ → Handler) (offer : List ℕ) → slots handler offer ≤ length offer
slots_bound handler [] = omega arith
slots_bound handler (id ∷ ids) = ground (arith, slots_bound handler ids)

-- After a negotiation, when no handler that waits is disabled or unsupported, the merge ends within as
-- many rounds as the old offer has m-lines and one more. Every enabled handler that is not negotiated
-- is in the new offer, every m-line that is in use keeps its place, and an m-line is appended only
-- when no slot is left that can be used again.
pub merge_offer_handlers-Merges :
    (agent : Agent)
    → is_unnegotiated agent.state ≡ false
    → AllUsable agent.handler agent.handlers
    → (after : Agent) × (merge_offer_handlers (suc (length agent.offer_handlers)) agent
        ≡ some after)
      × Merges agent after
unfolding merge_offer_handlers
merge_offer_handlers-Merges agent before usable =
    let (out, ran, fills) =
      fill_slots-Fills agent.handler (suc (length agent.offer_handlers)) agent.handlers
        agent.offer_handlers usable
        (omega (arith, slots_bound agent.handler agent.offer_handlers)) in
    (
      record agent { offer_handlers = merge_handlers agent.handler agent.handlers out },
      rw before (rw ran refl),
      record {
        all = merge_handlers_all agent.handler agent.handlers out;
        kept = λ i id at used.
            merge_handlers_at agent.handler agent.handlers i id out (fills.kept i id at used);
        frugal = elim fills.done [
          | inl full ↦ inr (out, full, fills.size, refl)
          | inr finished ↦ inl (
              ap (λ l. length l) (merge_handlers-none agent.handler agent.handlers out finished)
              ∙ fills.size)
        ];
      },
    )
