-- ===== src/SdpAgent/Numbering.antt =====
-- kmssdpagent.c: the merge of the handlers gives no id that the agent has not given.
use kms_core.Prelude.{
  ℕ, zero, suc, ◌<◌, ◌≡◌, inl, inr, ◌||◌, some, List, [], ◌∷◌, arith, Bool-cases, Option-cases,
}
use kms_core.SdpAgent.{
  Handler, Agent, mem, first_not_negotiated, reusable, any_reusable, fill_slot, fill_slots,
  merge_handler, merge_handlers, is_unnegotiated, merge_offer_handlers,
}
use kms_core.SdpAgent.Usable.{Below, append-Below}

module _ (handler : ℕ → Handler) (n : ℕ) where
  first_not_negotiated_lt :
      (handlers offer : List ℕ) (id : ℕ)
      → Below n handlers
      → first_not_negotiated handler handlers offer ≡ some id
      → id < n
  unfolding first_not_negotiated
  first_not_negotiated_lt [] offer id below found = absurd (ground arith)
  first_not_negotiated_lt (other ∷ ids) offer id below found =
      ground (arith, first_not_negotiated_lt ids offer id below.1)

  fill_slot-Below :
      (new : ℕ) (offer : List ℕ) → new < n → Below n offer → Below n (fill_slot handler new offer)
  unfolding fill_slot
  fill_slot-Below new [] lt below = tt
  fill_slot-Below new (id ∷ ids) lt below = elim (Bool-cases (reusable (handler id))) [
    | inl free ↦ rw free (lt, below.1)
    | inr used ↦ rw used (below.0, fill_slot-Below new ids lt below.1)
  ]

  fill_slots-Below :
      (fuel : ℕ) (handlers offer out : List ℕ)
      → Below n handlers
      → Below n offer
      → fill_slots fuel handler handlers offer ≡ some out
      → Below n out
  unfolding fill_slots
  fill_slots-Below zero handlers offer out known placed ran = absurd (ground arith)
  fill_slots-Below (suc fuel) handlers offer out known placed ran =
      elim (Bool-cases (any_reusable handler offer)) [
        | inr full ↦ let e : offer ≡ out = ground arith in rw (← e) placed
        | inl free ↦ elim (Option-cases (first_not_negotiated handler handlers offer)) [
          | inl finished ↦ let e : offer ≡ out = ground arith in rw (← e) placed
          | inr (new, found) ↦
              fill_slots-Below fuel handlers (fill_slot handler new offer) out known
                (fill_slot-Below new offer (first_not_negotiated_lt handlers offer new known found)
                  placed)
                (ground arith)
        ]
      ]

  merge_handler-Below :
      (id : ℕ) (offer : List ℕ) → id < n → Below n offer → Below n (merge_handler handler id offer)
  unfolding merge_handler
  merge_handler-Below id offer lt below =
      elim (Bool-cases ((handler id).negotiated || (handler id).disabled)) [
        | inl out ↦ rw out below
        | inr waits ↦ rw waits (elim (Bool-cases (mem id offer)) [
          | inl there ↦ rw there below
          | inr new ↦ rw new (append-Below n id offer below lt)
        ])
      ]

  merge_handlers-Below :
      (ids offer : List ℕ)
      → Below n ids
      → Below n offer
      → Below n (merge_handlers handler ids offer)
  unfolding merge_handlers
  merge_handlers-Below [] offer known placed = placed
  merge_handlers-Below (id ∷ ids) offer known placed =
      merge_handlers-Below ids (merge_handler handler id offer) known.1
        (merge_handler-Below id offer known.0 placed)

pub merge_offer_handlers-Below :
    (fuel : ℕ) (agent after : Agent)
    → Below agent.hids agent.handlers
    → Below agent.hids agent.offer_handlers
    → merge_offer_handlers fuel agent ≡ some after
    → Below agent.hids after.offer_handlers
unfolding merge_offer_handlers
merge_offer_handlers-Below fuel agent after known placed ran =
    elim (Bool-cases (is_unnegotiated agent.state)) [
      | inl first ↦ let e : agent.handlers ≡ after.offer_handlers = ground arith in rw (← e) known
      | inr next ↦
          elim (Option-cases (fill_slots fuel agent.handler agent.handlers agent.offer_handlers)) [
            | inl endless ↦ absurd (ground arith)
            | inr (filled, ran') ↦
                let e : merge_handlers agent.handler agent.handlers filled ≡ after.offer_handlers =
                  ground arith in
                rw (← e) (
                  merge_handlers-Below agent.handler agent.hids agent.handlers filled known (
                    fill_slots-Below agent.handler agent.hids fuel agent.handlers
                      agent.offer_handlers filled known placed ran'))
          ]
    ]
