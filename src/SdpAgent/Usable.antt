-- ===== src/SdpAgent/Usable.antt =====
-- kmssdpagent.c: what holds of each handler of a list, whatever is done to the store.
use kms_core.Prelude.{
  ℕ, ◌+◌, ◌<◌, ◌≡◌, refl, subst, inl, inr, true, false, not, ◌&&◌, List, [], ◌∷◌, ◌++◌, ◌==◌, arith,
  Bool-cases, ==_iff,
}
use kms_core.SdpAgent.{Handler, mem}
use kms_core.SdpAgent.Slots.{Each, AllUsable}
use kms_core.SdpAgent.Operations.{
  put, mark_negotiated, remove_disabled, remove_handler, update_rejected,
}

-- A handler that this agent supports.
abbrev pub IsSupported : Handler → Type 0
IsSupported h = h.unsupported ≡ false

-- Every id is below the next one.
abbrev pub Below : ℕ → List ℕ → Type 0
Below n [] = Unit
Below n (id ∷ ids) = (id < n) × Below n ids

module _ (P : Handler → Type 0) where
  pub put-Each :
      (handler : ℕ → Handler) (id : ℕ) (h : Handler) (ids : List ℕ)
      → (P (handler id) → P h)
      → Each P handler ids
      → Each P (put handler id h) ids
  put-Each handler id h [] change all = tt
  put-Each handler id h (other ∷ ids) change all = elim (Bool-cases (other == id)) [
    | inl same ↦
        let at : P (handler id) = subst (λ k. P (handler k)) ((==_iff other id).0 same) all.0 in
        (rw same (change at), put-Each handler id h ids change all.1)
    | inr another ↦ (rw another all.0, put-Each handler id h ids change all.1)
  ]

  -- A new id changes no handler of the list.
  pub put_new-Each :
      (handler : ℕ → Handler) (id : ℕ) (h : Handler) (ids : List ℕ)
      → Below id ids
      → Each P handler ids
      → Each P (put handler id h) ids
  put_new-Each handler id h [] below all = tt
  put_new-Each handler id h (other ∷ ids) below all =
      let another : other == id ≡ false = ground arith in
      (rw another all.0, put_new-Each handler id h ids below.1 all.1)

  pub remove_disabled-Each :
      (handler f : ℕ → Handler) (ids : List ℕ)
      → Each P handler ids
      → Each P handler (remove_disabled f ids)
  unfolding remove_disabled
  remove_disabled-Each handler f [] all = tt
  remove_disabled-Each handler f (id ∷ ids) all = elim (Bool-cases (f id).disabled) [
    | inl out ↦ rw out (remove_disabled-Each handler f ids all.1)
    | inr stays ↦ rw stays (all.0, remove_disabled-Each handler f ids all.1)
  ]

  pub remove_handler-Each :
      (handler : ℕ → Handler) (id : ℕ) (ids : List ℕ)
      → Each P handler ids
      → Each P handler (remove_handler id ids)
  unfolding remove_handler
  remove_handler-Each handler id [] all = tt
  remove_handler-Each handler id (other ∷ ids) all = elim (Bool-cases (other == id)) [
    | inl out ↦ rw out all.1
    | inr stays ↦ rw stays (all.0, remove_handler-Each handler id ids all.1)
  ]

  pub append-Each :
      (handler : ℕ → Handler) (ids : List ℕ) (id : ℕ)
      → Each P handler ids
      → P (handler id)
      → Each P handler (ids ++ (id ∷ []))
  append-Each handler [] id all new = (new, tt)
  append-Each handler (other ∷ ids) id all new = (all.0, append-Each handler ids id all.1 new)

  pub mark_negotiated-Each :
      (offer ids : List ℕ) (handler : ℕ → Handler)
      → ((h : Handler) → P h → P (record h { negotiated = true }))
      → Each P handler ids
      → Each P (mark_negotiated offer handler) ids
  unfolding mark_negotiated
  mark_negotiated-Each [] ids handler keep all = all
  mark_negotiated-Each (id ∷ offer) ids handler keep all =
      let marked : Handler = record (handler id) { negotiated = true } in
      mark_negotiated-Each offer ids (put handler id marked) keep
        (put-Each handler id marked ids (keep (handler id)) all)

  pub update_rejected-Each :
      (ports offer ids : List ℕ) (handler : ℕ → Handler)
      → ((h : Handler) → P h → P (record h { rejected = true }))
      → Each P handler ids
      → Each P (update_rejected ports offer handler) ids
  unfolding update_rejected
  update_rejected-Each [] offer ids handler keep all = all
  update_rejected-Each (port ∷ ports) [] ids handler keep all = all
  update_rejected-Each (port ∷ ports) (id ∷ offer) ids handler keep all =
      let refused : Handler = record (handler id) { rejected = true } in
      elim (Bool-cases (not (handler id).rejected && port == 0)) [
        | inl rejects ↦ rw rejects (
            update_rejected-Each ports offer ids (put handler id refused) keep
              (put-Each handler id refused ids (keep (handler id)) all))
        | inr takes ↦ rw takes (update_rejected-Each ports offer ids handler keep all)
      ]

-- Supported handlers that are enabled are usable.
pub remove_disabled-AllUsable :
    (handler : ℕ → Handler) (ids : List ℕ)
    → Each IsSupported handler ids
    → AllUsable handler (remove_disabled handler ids)
unfolding remove_disabled
remove_disabled-AllUsable handler [] all = tt
remove_disabled-AllUsable handler (id ∷ ids) all = elim (Bool-cases (handler id).disabled) [
  | inl out ↦ rw out (remove_disabled-AllUsable handler ids all.1)
  | inr stays ↦
      let supported = all.0 in
      rw stays ((λ waits. ground arith), remove_disabled-AllUsable handler ids all.1)
]

pub remove_disabled-Below :
    (n : ℕ) (f : ℕ → Handler) (ids : List ℕ) → Below n ids → Below n (remove_disabled f ids)
unfolding remove_disabled
remove_disabled-Below n f [] all = tt
remove_disabled-Below n f (id ∷ ids) all = elim (Bool-cases (f id).disabled) [
  | inl out ↦ rw out (remove_disabled-Below n f ids all.1)
  | inr stays ↦ rw stays (all.0, remove_disabled-Below n f ids all.1)
]

pub remove_handler-Below : (n id : ℕ) (ids : List ℕ) → Below n ids → Below n (remove_handler id ids)
unfolding remove_handler
remove_handler-Below n id [] all = tt
remove_handler-Below n id (other ∷ ids) all = elim (Bool-cases (other == id)) [
  | inl out ↦ rw out all.1
  | inr stays ↦ rw stays (all.0, remove_handler-Below n id ids all.1)
]

pub append-Below : (n id : ℕ) (ids : List ℕ) → Below n ids → id < n → Below n (ids ++ (id ∷ []))
append-Below n id [] all lt = (lt, tt)
append-Below n id (other ∷ ids) all lt = (all.0, append-Below n id ids all.1 lt)

pub Below-le : (n m : ℕ) (ids : List ℕ) → n < m + 1 → Below n ids → Below m ids
Below-le n m [] le all = tt
Below-le n m (id ∷ ids) le all = (omega arith, Below-le n m ids le all.1)

pub Below-not_mem : (n : ℕ) (ids : List ℕ) → Below n ids → mem n ids ≡ false
Below-not_mem n [] all = refl
Below-not_mem n (id ∷ ids) all = ground (arith, Below-not_mem n ids all.1)
