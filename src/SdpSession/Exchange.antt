-- ===== src/SdpSession/Exchange.antt =====
-- kmssdpsession.c: two endpoints come to an agreement.
use Prim.Native.String.{String}
use kms_core.Prelude.{
  ℕ, ◌+◌, ◌^◌, ◌<◌, ◌≤◌, ◌≡◌, ◌∙◌, refl, ap, true, false, ◌||◌, Option, none, some, List, arith,
  length,
}
use kms_core.SdpAgent.{unnegotiated, remote_offer, negotiated, Message, Agent}
use kms_core.SdpAgent.Operations.{
  is_none, continues, new_state, commit, session_of, remote_answer, set_local_description,
  set_remote_description,
}
use kms_core.SdpAgent.Offers.{OfferRun}
use kms_core.SdpAgent.Answering.{AnswerRun, create_answer}
use kms_core.SdpAgent.Placing.{ids_for}
use kms_core.SdpAgent.Invariant.{IsValid}
use kms_core.SdpAgent.Offering.{step-IsValid}
use kms_core.SdpAgent.Steps.{step, setting_remote}
use kms_core.SdpAgent.Answers.{set_remote_description-answers}
use kms_core.SdpAgent.Completing.{Cooperates, answer_session, in_session, create_answer-Completes}
use kms_core.SdpSession.{
  SdpSession, generated, generate_offer, set_answer, make_answer, process_offer, take_answer,
  process_answer,
}
use kms_core.SdpSession.Offering.{OfferSucceeds, Awaits, generate_offer-Awaits}

-- An endpoint that has agreed on a message.
pub record Agrees (after : SdpSession) (sdp : Message) : Type 0 where
  pub state : after.agent.state ≡ negotiated
  pub agreed : after.neg_sdp ≡ some sdp

takes_first :
    (strtoull : String → ℕ) (agent : Agent) (m : Message)
    → agent.state ≡ unnegotiated
    → (after : Agent) × (set_remote_description strtoull agent m ≡ some (after, true))
      × (after.state ≡ remote_offer)
      × (after.remote_description ≡ some m)
      × (after.hids ≡ agent.hids)
unfolding set_remote_description new_state commit
takes_first strtoull agent m at = (
  record (new_state (record agent { remote = some (session_of m) }) remote_offer) {
    remote_description = some m;
  },
  rw (set_remote_description, at) refl,
  refl,
  refl,
  refl,
)

answers :
    (strtoull : String → ℕ) (self : SdpSession) (run : AnswerRun) (ports : List ℕ)
    (offer answer : Message) (agent made after : Agent)
    → set_remote_description strtoull self.agent offer ≡ some (agent, true)
    → create_answer agent run ≡ some (made, true)
    → run.postprocessed ≡ true
    → generated made ports ≡ some answer
    → set_local_description made answer ≡ some (after, true)
    → process_offer strtoull self run ports offer
      ≡ some (
        record self {
          agent = after;
          remote_sdp = some offer;
          local_sdp = some answer;
          neg_sdp = some answer;
        },
        some answer,
      )
unfolding process_offer make_answer set_answer
answers strtoull self run ports offer answer agent made after taken created ended text set =
    rw (process_offer, taken)
      (rw (make_answer, created) (rw (ended, text) (rw (set_answer, set) refl)))

process_offer-Agrees :
    (strtoull : String → ℕ) (self : SdpSession) (run : AnswerRun) (ports : List ℕ) (offer : Message)
    → self.agent.state ≡ unnegotiated
    → IsValid self.agent
    → Cooperates run
    → ((i : ℕ) → run.rejects i ≡ false)
    → self.agent.hids + ids_for offer.ports < 2 ^ 31
    → length ports ≡ length offer.ports
    → (after : SdpSession) × (answer : Message) × (process_offer strtoull self run ports offer
        ≡ some (after, some answer))
      × (answer.ports ≡ ports)
      × Agrees after answer
unfolding generated
process_offer-Agrees strtoull self run ports offer first v c takes room size =
    let (agent, taken, at, set, ids) = takes_first strtoull self.agent offer first in
    let v' : IsValid agent =
      step-IsValid strtoull self.agent agent (setting_remote offer) true tt v
        (unfold step in taken) in
    let done = create_answer-Completes agent run offer ports v' at set c takes (rw ids room) size in
    let answer : Message = in_session (answer_session agent run) ports in
    (
      record self {
        agent = done.after;
        remote_sdp = some offer;
        local_sdp = some answer;
        neg_sdp = some answer;
      },
      answer,
      answers strtoull self run ports offer answer agent done.answered done.after taken done.created
          c.postprocessed (rw (generated, done.session) refl) done.finished,
      refl,
      record { state = done.state; agreed = refl },
    )

finishes :
    (strtoull : String → ℕ) (self : SdpSession) (answer : Message) (agent : Agent) (sdp : Message)
    → self.local_sdp ≡ some sdp
    → set_remote_description strtoull self.agent answer ≡ some (agent, true)
    → process_answer strtoull self answer
      ≡ some (record self { agent = agent; remote_sdp = some answer; neg_sdp = some answer }, true)
unfolding process_answer take_answer
finishes strtoull self answer agent sdp sent set =
    ap
      (λ (o : Option Message). elim o [
        | none ↦ some (self, false)
        | some m ↦ take_answer strtoull self answer
      ])
      sent
    ∙ rw (take_answer, set) refl

process_answer-Agrees :
    (strtoull : String → ℕ) (self after : SdpSession) (offer answer : Message)
    → self.agent.remote ≡ none
    → Awaits self after offer
    → length answer.ports ≤ length self.agent.handlers
    → (done : SdpSession) × (process_answer strtoull after answer ≡ some (done, true))
      × Agrees done answer
unfolding new_state
process_answer-Agrees strtoull self after offer answer first w fits =
    let valid : (is_none after.agent.remote || continues strtoull after.agent.remote answer)
        ≡ true =
      rw (w.remote ∙ first) refl in
    let taken =
      ((set_remote_description-answers strtoull after.agent answer w.state valid).0
        (rw w.slots fits)).0 in
    let agent : Agent = remote_answer after.agent answer in
    (
      record after { agent = agent; remote_sdp = some answer; neg_sdp = some answer },
      finishes strtoull after answer agent offer w.sent taken,
      record { state = refl; agreed = refl },
    )

-- What an offer of one session to another and its answer end in.
pub record Exchanged (strtoull : String → ℕ) (offerer answerer : SdpSession) (offering : OfferRun)
    (answering : AnswerRun) (offered answered : List ℕ) : Type 0 where
  pub offer : Message
  pub answer : Message
  pub waiting : SdpSession
  pub first : SdpSession
  pub second : SdpSession
  pub generated : generate_offer offerer offering offered ≡ some (waiting, some offer)
  pub processed :
      process_offer strtoull answerer answering answered offer ≡ some (second, some answer)
  pub completed : process_answer strtoull waiting answer ≡ some (first, true)
  pub offers : offer.ports ≡ offered
  pub answers : answer.ports ≡ answered
  pub agrees_first : Agrees first answer
  pub agrees_second : Agrees second answer

-- Two sessions whose agents have not negotiated come to an agreement in one exchange: the offer of the
-- first is generated, the second processes it and gives an answer, the first processes the answer, all
-- without an error, both agents end in the state `negotiated`, and both sessions have the answer as
-- the negotiated message. The offerer has no session of the remote side, the steps that the media
-- handlers and the client do succeed, no handler of the answering client rejects its media, its
-- agent is valid and has ids left below 2 ^ 31, the offer has an m-line for each handler of the offerer, and the
-- answer has as many as the offer.
pub generate_offer-process_answer :
    (strtoull : String → ℕ) (offerer answerer : SdpSession) (offering : OfferRun)
    (answering : AnswerRun) (offered answered : List ℕ)
    → offerer.agent.state ≡ unnegotiated
    → offerer.agent.remote ≡ none
    → answerer.agent.state ≡ unnegotiated
    → IsValid answerer.agent
    → OfferSucceeds offering
    → Cooperates answering
    → ((i : ℕ) → answering.rejects i ≡ false)
    → answerer.agent.hids + ids_for offered < 2 ^ 31
    → length offered ≡ length offerer.agent.handlers
    → length answered ≡ length offered
    → Exchanged strtoull offerer answerer offering answering offered answered
generate_offer-process_answer strtoull offerer answerer offering answering offered answered at none'
      at' v ok c takes room slots size =
    let (waiting, offer, generated', ports, w) =
      generate_offer-Awaits offerer offering offered at ok in
    let (second, answer, processed, ports', agrees) =
      process_offer-Agrees strtoull answerer answering answered offer at' v c takes (rw ports room)
        (rw ports size) in
    let (first, completed, agrees') =
      process_answer-Agrees strtoull offerer waiting offer answer none' w
        (omega (arith, slots, size, ap (λ (l : List ℕ). length l) ports')) in
    record {
      offer = offer;
      answer = answer;
      waiting = waiting;
      first = first;
      second = second;
      generated = generated';
      processed = processed;
      completed = completed;
      offers = ports;
      answers = ports';
      agrees_first = agrees';
      agrees_second = agrees;
    }
