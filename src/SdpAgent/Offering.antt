-- ===== src/SdpAgent/Offering.antt =====
-- kmssdpagent.c: an offer can be made from every agent that calls have led to.
use Prim.Native.String.{String}
use kms_core.Prelude.{
  ℕ, suc, ◌≡◌, ◌∙◌, refl, sym, inl, inr, Bool, true, false, Option, some, List, [], ◌∷◌, length,
  arith, Bool-cases, Option-cases,
}
use kms_core.SdpAgent.{local_offer, Session, Agent, is_unnegotiated, merge_offer_handlers}
use kms_core.SdpAgent.Slots.{AllUsable}
use kms_core.SdpAgent.Merging.{merge_offer_handlers-Merges}
use kms_core.SdpAgent.Operations.{
  is_negotiated, can_manipulate, session_of, add_proto_handler, remove_proto_handler, cancel_offer,
}
use kms_core.SdpAgent.Offers.{
  OfferRun, offer_session, update_session_version, fail_offer, complete_offer, create_offer,
}
use kms_core.SdpAgent.Steps.{
  Operation, adding, removing, offering, cancelling, answering, setting_local, setting_remote, step,
}
use kms_core.SdpAgent.Usable.{Below}
use kms_core.SdpAgent.Numbering.{merge_offer_handlers-Below}
use kms_core.SdpAgent.Committing.{new_state-IsValid}
use kms_core.SdpAgent.Invariant.{
  is_remote_offer, IsValid, Fits, manipulated, adding-IsValid, removing-IsValid,
}
use kms_core.SdpAgent.Descriptions.{cancelling-IsValid, answering-IsValid, setting_local-IsValid}
use kms_core.SdpAgent.Remembering.{setting_remote-IsValid}

offer_session_defined :
    (agent : Agent) (run : OfferRun)
    → IsValid agent
    → (s : Session) × (offer_session agent run ≡ some s)
unfolding offer_session
offer_session_defined agent run v = elim (Bool-cases (is_negotiated agent.state)) [
  | inr first ↦ (record { id = run.ntp_time; version = run.ntp_time }, rw first refl)
  | inl next ↦ elim (Option-cases agent.local_description) [
    | inl missing ↦ absurd (ground (arith, v.described))
    | inr (m, set) ↦ (session_of m, rw (next, set) refl)
  ]
]

merge_fields :
    (fuel : ℕ) (agent after : Agent)
    → merge_offer_handlers fuel agent ≡ some after
    → after ≡ record agent { offer_handlers = after.offer_handlers }
unfolding merge_offer_handlers
merge_fields fuel agent after ran = ground arith

first_offer :
    (agent : Agent)
    → is_unnegotiated agent.state ≡ true
    → (after : Agent) × (merge_offer_handlers (suc (length agent.offer_handlers)) agent
        ≡ some after)
unfolding merge_offer_handlers
first_offer agent first = (record agent { offer_handlers = agent.handlers }, rw first refl)

merge_defined :
    (agent : Agent)
    → AllUsable agent.handler agent.handlers
    → (after : Agent) × (merge_offer_handlers (suc (length agent.offer_handlers)) agent
        ≡ some after)
merge_defined agent all = elim (Bool-cases (is_unnegotiated agent.state)) [
  | inl first ↦ first_offer agent first
  | inr next ↦ let (after, ran, merges) = merge_offer_handlers-Merges agent next all in (after, ran)
]

fail_offer-IsValid :
    (old : List ℕ) (agent : Agent)
    → Below agent.hids old
    → IsValid agent
    → IsValid (fail_offer old agent).0
unfolding fail_offer
fail_offer-IsValid [] agent below v = v
fail_offer-IsValid (id ∷ ids) agent below v = record {
  supported = v.supported;
  usable = v.usable;
  described = v.described;
  offered = v.offered;
  known = v.known;
  placed = below;
}

-- The session is in no condition.
session-IsValid :
    (agent : Agent) (session : Option Session)
    → IsValid agent
    → IsValid (record agent { local = session })
session-IsValid agent session v = record {
  supported = v.supported;
  usable = v.usable;
  described = v.described;
  offered = v.offered;
  known = v.known;
  placed = v.placed;
}

complete_offer-IsValid :
    (old : List ℕ) (run : OfferRun) (merged : Agent)
    → Below merged.hids old
    → is_remote_offer merged.state ≡ false
    → IsValid merged
    → IsValid (complete_offer old run merged).0
unfolding complete_offer
complete_offer-IsValid old run merged below no_offer v =
    let session = update_session_version merged run merged.local in
    let versioned : Agent = record merged { local = session } in
    elim (Bool-cases run.offered) [
      | inr not_offered ↦ rw not_offered (fail_offer-IsValid old merged below v)
      | inl offered ↦ elim (Bool-cases run.completed) [
        | inr failed ↦
            simp (offered, failed)
              (fail_offer-IsValid old versioned below (session-IsValid merged session v))
        | inl completed ↦
            simp (offered, completed)
              (new_state-IsValid local_offer versioned (record {
                supported = v.supported;
                usable = λ h k. v.usable no_offer;
                described = λ h. v.described (ground arith);
                offered = λ h. absurd (ground arith);
                known = v.known;
                placed = v.placed;
              }))
      ]
    ]

merged-IsValid :
    (fuel : ℕ) (agent after : Agent)
    → IsValid agent
    → merge_offer_handlers fuel agent ≡ some after
    → IsValid after
merged-IsValid fuel agent after v ran = rw (merge_fields fuel agent after ran) (record {
  supported = v.supported;
  usable = v.usable;
  described = v.described;
  offered = v.offered;
  known = v.known;
  placed = merge_offer_handlers-Below fuel agent after v.known v.placed ran;
})

-- What making an offer gives.
pub record Offers (agent : Agent) (run : OfferRun) : Type 0 where
  pub after : Agent
  pub made : Bool
  pub ran : create_offer agent run ≡ some (after, made)
  pub valid : IsValid after

offered-Offers :
    (agent : Agent) (run : OfferRun)
    → IsValid agent
    → can_manipulate agent.state ≡ true
    → run.prepared ≡ true
    → Offers agent run
unfolding create_offer
offered-Offers agent run v can prepared =
    let (session, made) = offer_session_defined agent run v in
    let started : Agent = record agent { local = some session } in
    let no_offer = manipulated agent.state can in
    let (merged, merging) = merge_defined started (v.usable no_offer) in
    let same = merge_fields _ started merged merging in
    elim (Bool-cases run.preprocessed) [
      | inr failed ↦ record {
        after = started;
        made = false;
        ran = simp (can, prepared, made, failed);
        valid = session-IsValid agent (some session) v;
      }
      | inl preprocessed ↦ record {
        after = (complete_offer agent.offer_handlers run merged).0;
        made = (complete_offer agent.offer_handlers run merged).1;
        ran = simp (can, prepared, made, preprocessed, merging);
        valid =
            complete_offer-IsValid agent.offer_handlers run merged (rw same v.placed)
              (rw same no_offer)
              (merged-IsValid _ started merged (session-IsValid agent (some session) v) merging);
      }
    ]

-- From a valid agent, whatever the steps that are not modelled answer, making an offer ends: the merge
-- of the handlers does not run for ever, and no description is missing. The agent is valid after it.
pub create_offer-Offers : (agent : Agent) (run : OfferRun) → IsValid agent → Offers agent run
unfolding create_offer
create_offer-Offers agent run v = elim (Bool-cases (can_manipulate agent.state)) [
  | inr cannot ↦ record { after = agent; made = false; ran = rw cannot refl; valid = v }
  | inl can ↦ elim (Bool-cases run.prepared) [
    | inr unprepared ↦ record {
      after = agent;
      made = false;
      ran = simp (can, unprepared);
      valid = v;
    }
    | inl prepared ↦ offered-Offers agent run v can prepared
  ]
]

offered_same :
    {a b : Agent} {x y : Bool} → ◌≡◌ {A = Option (Agent × Bool)} (some (a, x)) (some (b, y)) → b ≡ a
offered_same e = ground arith

-- Every call leaves a valid agent valid, when the handlers that are added do not reject their media and
-- the ids of the handlers do not wrap around in it.
pub step-IsValid :
    (strtoull : String → ℕ) (agent after : Agent) (op : Operation) (ok : Bool)
    → Fits agent op
    → IsValid agent
    → step strtoull agent op ≡ some (after, ok)
    → IsValid after
unfolding step
step-IsValid strtoull agent after (adding p r a) ok fits v ran =
    let e : after ≡ (add_proto_handler agent p r a).0 = ground arith in
    rw e (rw (fits.0) (adding-IsValid agent p a fits.1 v))
step-IsValid strtoull agent after (removing hid) ok fits v ran =
    let e : after ≡ (remove_proto_handler agent hid).0 = ground arith in
    rw e (removing-IsValid agent hid v)
step-IsValid strtoull agent after (offering run) ok fits v ran =
    let offers = create_offer-Offers agent run v in
    let e : after ≡ offers.after = offered_same (sym offers.ran ∙ ran) in rw e offers.valid
step-IsValid strtoull agent after cancelling ok fits v ran =
    let e : after ≡ (cancel_offer agent).0 = ground arith in rw e (cancelling-IsValid agent v)
step-IsValid strtoull agent after (answering run) ok fits v ran =
    answering-IsValid agent after run agent.state ok refl fits.0 fits.1 v ran
step-IsValid strtoull agent after (setting_local m) ok fits v ran =
    setting_local-IsValid agent after m agent.state ok refl v ran
step-IsValid strtoull agent after (setting_remote m) ok fits v ran =
    setting_remote-IsValid strtoull agent after m agent.state ok refl v ran
