-- ===== src/SdpSession/Offering.antt =====
-- kmssdpsession.c: the first offer of a session.
use text.Mathlib.TextPositions.{eq_refl}
use kms_core.Prelude.{
  ℕ, suc, ◌≡◌, refl, ap, inl, inr, Bool, true, false, some, List, arith, length, Bool-cases,
  Option-cases,
}
use kms_core.SdpAgent.{
  unnegotiated, local_offer, wait_nego, Session, Message, Agent, merge_offer_handlers,
  is_unnegotiated,
}
use kms_core.SdpAgent.Operations.{
  is_negotiated, can_manipulate, same_session, new_state, commit, set_local_description,
}
use kms_core.SdpAgent.Offers.{
  OfferRun, create_offer, offer_session, update_session_version, complete_offer,
}
use kms_core.SdpAgent.Completing.{in_session}
use kms_core.SdpSession.{SdpSession, generated, set_offer, generate_offer}

-- The steps of an offer that are not modelled are done.
pub record OfferSucceeds (run : OfferRun) : Type 0 where
  pub prepared : run.prepared ≡ true
  pub preprocessed : run.preprocessed ≡ true
  pub offered : run.offered ≡ true
  pub completed : run.completed ≡ true

updated_some :
    (agent : Agent) (run : OfferRun) (s : Session)
    → (s' : Session) × (update_session_version agent run (some s) ≡ some s')
unfolding update_session_version
updated_some agent run s = elim (Option-cases agent.local_description) [
  | inl first ↦ (s, rw (first, update_session_version) refl)
  | inr (m, set) ↦ elim (Bool-cases run.equal) [
    | inl equal ↦ (s, rw (set, update_session_version) (rw equal refl))
    | inr differs ↦
        (record s { version = run.incremented }, rw (set, update_session_version) (rw differs refl))
  ]
]

-- What an agent keeps that makes its first offer.
record Offered (agent after : Agent) : Type 0 where
  session : Session
  state : after.state ≡ local_offer
  local : after.local ≡ some session
  remote : after.remote ≡ agent.remote
  slots : after.offer_handlers ≡ agent.handlers

merges_first :
    (fuel : ℕ) (agent : Agent)
    → is_unnegotiated agent.state ≡ true
    → merge_offer_handlers fuel agent ≡ some (record agent { offer_handlers = agent.handlers })
unfolding merge_offer_handlers
merges_first fuel agent first = rw first refl

offered_agent : Agent → OfferRun → Session → Agent
offered_agent agent run session =
    let merged : Agent = record agent { local = some session; offer_handlers = agent.handlers } in
    new_state (record merged { local = update_session_version merged run (some session) })
      local_offer

completes_first :
    (old : List ℕ) (agent : Agent) (run : OfferRun) (session : Session)
    → OfferSucceeds run
    → complete_offer old run
        (record agent { local = some session; offer_handlers = agent.handlers })
      ≡ (offered_agent agent run session, true)
unfolding complete_offer offered_agent
completes_first old agent run session ok = simp (ok.offered, ok.completed)

sessions_first :
    (agent : Agent) (run : OfferRun)
    → is_negotiated agent.state ≡ false
    → offer_session agent run ≡ some (record { id = run.ntp_time; version = run.ntp_time })
unfolding offer_session
sessions_first agent run first = simp (first)

creates_first :
    (agent : Agent) (run : OfferRun)
    → is_unnegotiated agent.state ≡ true
    → can_manipulate agent.state ≡ true
    → is_negotiated agent.state ≡ false
    → OfferSucceeds run
    → create_offer agent run
      ≡ some (offered_agent agent run (record { id = run.ntp_time; version = run.ntp_time }), true)
unfolding create_offer
creates_first agent run first can not_yet ok =
    let session : Session = record { id = run.ntp_time; version = run.ntp_time } in
    let started : Agent = record agent { local = some session } in
    let made = sessions_first agent run not_yet in
    let merging = merges_first (suc (length agent.offer_handlers)) started first in
    simp (can, ok.prepared, made, ok.preprocessed, merging)
      (ap (λ (p : Agent × Bool). some p)
        (completes_first agent.offer_handlers agent run session ok))

first_offer :
    (agent : Agent) (run : OfferRun)
    → agent.state ≡ unnegotiated
    → OfferSucceeds run
    → (after : Agent) × (create_offer agent run ≡ some (after, true)) × Offered agent after
unfolding offered_agent new_state commit
first_offer agent run at ok =
    let session : Session = record { id = run.ntp_time; version = run.ntp_time } in
    let merged : Agent = record agent { local = some session; offer_handlers = agent.handlers } in
    let (s', updated) = updated_some merged run session in
    (
      offered_agent agent run session,
      creates_first agent run (rw at refl) (rw at refl) (rw at refl) ok,
      record { session = s'; state = refl; local = updated; remote = refl; slots = refl },
    )

-- An endpoint that waits for the answer to its first offer.
pub record Awaits (self after : SdpSession) (offer : Message) : Type 0 where
  pub state : after.agent.state ≡ wait_nego
  pub remote : after.agent.remote ≡ self.agent.remote
  pub slots : after.agent.offer_handlers ≡ self.agent.handlers
  pub sent : after.local_sdp ≡ some offer

sets_offer :
    (agent : Agent) (m : Message)
    → agent.state ≡ local_offer
    → same_session agent.local m ≡ true
    → set_local_description agent m
      ≡ some (new_state (record agent { local_description = some m }) wait_nego, true)
unfolding set_local_description
sets_offer agent m at same = ground arith

generates :
    (self : SdpSession) (run : OfferRun) (ports : List ℕ) (agent after : Agent) (offer : Message)
    → create_offer self.agent run ≡ some (agent, true)
    → generated agent ports ≡ some offer
    → set_local_description agent offer ≡ some (after, true)
    → generate_offer self run ports
      ≡ some (record self { agent = after; local_sdp = some offer }, some offer)
unfolding generate_offer set_offer
generates self run ports agent after offer created text set =
    rw (generate_offer, created) (rw text (rw (set_offer, set) refl))

pub generate_offer-Awaits :
    (self : SdpSession) (run : OfferRun) (ports : List ℕ)
    → self.agent.state ≡ unnegotiated
    → OfferSucceeds run
    → (after : SdpSession) × (offer : Message) × (generate_offer self run ports
        ≡ some (after, some offer))
      × (offer.ports ≡ ports)
      × Awaits self after offer
unfolding generated new_state commit
generate_offer-Awaits self run ports first ok =
    let (agent, created, o) = first_offer self.agent run first ok in
    let offer : Message = in_session o.session ports in
    let same : same_session agent.local offer ≡ true = rw o.local (eq_refl o.session.id) in
    let after : Agent = new_state (record agent { local_description = some offer }) wait_nego in
    (
      record self { agent = after; local_sdp = some offer },
      offer,
      generates self run ports agent after offer created (rw (generated, o.local) refl)
          (sets_offer agent offer o.state same),
      refl,
      record { state = refl; remote = o.remote; slots = o.slots; sent = refl },
    )
