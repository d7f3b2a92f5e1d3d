-- ===== src/SdpAgent/Transitions.antt =====
-- kmssdpagent.c: the state machine that the comment at the top of the file draws.
use Prim.Native.String.{String}
use kms_core.Prelude.{
  ℕ, suc, ◌≡◌, ◌∙◌, refl, sym, ap, subst, inl, inr, ◌⊎◌, Bool, true, false, some, List, [], ◌∷◌,
  length, arith, Bool-cases, Option-cases,
}
use kms_core.SdpAgent.{State, local_offer, Session, Agent, merge_offer_handlers}
use kms_core.SdpAgent.Steps.{
  Operation, adding, removing, offering, cancelling, answering, setting_local, setting_remote, step,
  offers, stands, Ends,
}
use kms_core.SdpAgent.Operations.{can_manipulate, new_state, commit}
use kms_core.SdpAgent.Offers.{OfferRun, offer_session, fail_offer, complete_offer, create_offer}
use kms_core.SdpAgent.Endings.{
  done, adding-Ends, removing-Ends, cancelling-Ends, setting_local-Ends, setting_remote-Ends,
  answering-Ends,
}

complete_offer-Ends :
    (old : List ℕ) (run : OfferRun) (merged : Agent)
    → (((complete_offer old run merged).1 ≡ true)
        × (stands (complete_offer old run merged).0 ≡ (local_offer, (stands merged).1)))
      ⊎ (((complete_offer old run merged).1 ≡ false)
          × (stands (complete_offer old run merged).0 ≡ stands merged))
unfolding complete_offer fail_offer new_state commit
complete_offer-Ends [] run merged = ground arith
complete_offer-Ends (id ∷ ids) run merged = ground arith

merge_state :
    (fuel : ℕ) (agent after : Agent)
    → merge_offer_handlers fuel agent ≡ some after
    → stands after ≡ stands agent
unfolding merge_offer_handlers
merge_state fuel agent after ran = ground arith

offering-Ends :
    (agent after : Agent) (run : OfferRun) (ok : Bool)
    → create_offer agent run ≡ some (after, ok)
    → Ends (offering run) (stands agent) (stands after) ok
unfolding create_offer
offering-Ends agent after run ok ran = elim (Bool-cases (can_manipulate agent.state)) [
  | inr cannot ↦ inr (ground arith, ground arith)
  | inl can ↦ elim (Bool-cases run.prepared) [
    | inr unprepared ↦ inr (ground arith, ground arith)
    | inl prepared ↦ elim (Option-cases (offer_session agent run)) [
      | inl missing ↦ absurd (ground arith)
      | inr (session, made) ↦ elim (Bool-cases run.preprocessed) [
        | inr unprocessed ↦ inr (ground arith, ground arith)
        | inl preprocessed ↦
            elim (Option-cases (
              merge_offer_handlers (suc (length agent.offer_handlers))
                (record agent { local = some session }))) [
                  | inl endless ↦ absurd (ground arith)
                  | inr (merged, ran') ↦ merged_offer can session merged ran' (ground arith)
                ]
      ]
    ]
  ]
]
  where
    merged_offer :
        can_manipulate agent.state ≡ true
        → (session : Session) (merged : Agent)
        → merge_offer_handlers
            (suc (length agent.offer_handlers))
            (record agent { local = some session })
          ≡ some merged
        → complete_offer agent.offer_handlers run merged ≡ (after, ok)
        → Ends (offering run) (stands agent) (stands after) ok
    merged_offer can session merged ran' ended =
        let same = merge_state _ (record agent { local = some session }) merged ran' in
        elim (complete_offer-Ends agent.offer_handlers run merged) [
          | inl (did, to) ↦
              done refl
                (sym (ap (λ x. stands x.0) ended)
                  ∙ to
                  ∙ ap (λ (p : State × Bool). (local_offer, p.1)) same)
                (sym (ap (λ x. x.1) ended) ∙ did) (offers run (stands agent) can)
          | inr (not_done, stays) ↦ inr (
            sym (ap (λ x. x.1) ended) ∙ not_done,
            sym (ap (λ x. stands x.0) ended) ∙ stays ∙ same,
          )
        ]

returned :
    {op : Operation} {before : State × Bool} (p : Agent × Bool) (after : Agent) (ok : Bool)
    → some p ≡ some (after, ok)
    → Ends op before (stands p.0) p.1
    → Ends op before (stands after) ok
returned {op = op} {before = before} p after ok ran ends =
    let e : p ≡ (after, ok) = ground arith in
    subst (λ (q : Agent × Bool). Ends op before (stands q.0) q.1) e ends

-- A call that the agent refuses, or that fails, leaves its state, and one that is done takes it along
-- an arrow of the diagram: adding and removing media is only done before the first negotiation and
-- between two, and a cancelled offer leads back to the state of an agent that has negotiated before or
-- that has not. An agent has negotiated from the first answer that it gives or gets.
pub step-Ends :
    (strtoull : String → ℕ) (agent after : Agent) (op : Operation) (ok : Bool)
    → step strtoull agent op ≡ some (after, ok)
    → Ends op (stands agent) (stands after) ok
unfolding step
step-Ends strtoull agent after (adding p r a) ok ran =
    returned _ after ok ran (adding-Ends agent p r a)
step-Ends strtoull agent after (removing hid) ok ran =
    returned _ after ok ran (removing-Ends agent hid)
step-Ends strtoull agent after (offering run) ok ran = offering-Ends agent after run ok ran
step-Ends strtoull agent after cancelling ok ran =
    returned _ after ok ran (cancelling-Ends agent agent.state refl)
step-Ends strtoull agent after (answering run) ok ran =
    answering-Ends agent after run agent.state ok refl ran
step-Ends strtoull agent after (setting_local m) ok ran =
    setting_local-Ends agent after m agent.state ok refl ran
step-Ends strtoull agent after (setting_remote m) ok ran =
    setting_remote-Ends strtoull agent after m agent.state ok refl ran
