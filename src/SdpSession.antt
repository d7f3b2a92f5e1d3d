-- ===== src/SdpSession.antt =====
-- src/gst-plugins/commons/kmssdpsession.c: a session of an endpoint, which drives an SDP agent. What the
-- agent generates is a message in its session with the ports that a call names, since the text of
-- messages is not modelled; copies succeed. A result that is none is one of the agent's.
pub mod Offering
pub mod Exchange
use Prim.Native.String.{String}
use kms_core.Prelude.{ℕ, Bool, true, false, not, Option, none, some, List, if◌then◌else◌}
use kms_core.SdpAgent.{Session, Message, Agent}
use kms_core.SdpAgent.Operations.{set_local_description, set_remote_description}
use kms_core.SdpAgent.Offers.{OfferRun, create_offer}
use kms_core.SdpAgent.Answering.{AnswerRun, create_answer}

-- `KmsSdpSession`, without its id and its payload manager.
pub record SdpSession : Type 0 where
  pub agent : Agent
  pub local_sdp : Option Message
  pub remote_sdp : Option Message
  pub neg_sdp : Option Message

-- The message that the agent generates in its session.
unfoldable pub generated : Agent → List ℕ → Option Message
generated agent ports = elim agent.local [
  | none ↦ none
  | some s ↦ some (record { sess_id = s.id; sess_version = s.version; ports = ports })
]

-- `kms_sdp_session_generate_offer`, behind the offer that the agent has made.
unfoldable pub set_offer : SdpSession → Message → Option (SdpSession × Option Message)
set_offer self offer = elim (set_local_description self.agent offer) [
  | none ↦ none
  | some (agent, true) ↦ some (record self { agent = agent; local_sdp = some offer }, some offer)
  | some (agent, false) ↦ some (record self { agent = agent }, none)
]

-- `kms_sdp_session_generate_offer`: the offer, if there is no error.
unfoldable pub generate_offer :
    SdpSession → OfferRun → List ℕ → Option (SdpSession × Option Message)
generate_offer self run ports = elim (create_offer self.agent run) [
  | none ↦ none
  | some (agent, false) ↦ some (record self { agent = agent }, none)
  | some (agent, true) ↦ elim (generated agent ports) [
    | none ↦ none
    | some offer ↦ set_offer (record self { agent = agent }) offer
  ]
]

-- `kms_sdp_session_process_offer`, behind the answer that the agent has made.
unfoldable pub set_answer : SdpSession → Message → Option (SdpSession × Option Message)
set_answer self answer = elim (set_local_description self.agent answer) [
  | none ↦ none
  | some (agent, true) ↦
      some
        (record self { agent = agent; local_sdp = some answer; neg_sdp = some answer }, some answer)
  | some (agent, false) ↦ some (record self { agent = agent }, none)
]

-- The answer to an offer that the agent has taken, if it is given without an error.
unfoldable pub make_answer : SdpSession → AnswerRun → List ℕ → Option (SdpSession × Option Message)
make_answer self run ports = elim (create_answer self.agent run) [
  | none ↦ none
  | some (agent, false) ↦ some (record self { agent = agent }, none)
  | some (agent, true) ↦
      if not run.postprocessed
      then some (record self { agent = agent }, none)
      else elim (generated agent ports) [
        | none ↦ none
        | some answer ↦ set_answer (record self { agent = agent }) answer
      ]
]

module _ (strtoull : String → ℕ) where
  -- `kms_sdp_session_process_offer`: the answer, if there is no error.
  unfoldable pub process_offer :
      SdpSession → AnswerRun → List ℕ → Message → Option (SdpSession × Option Message)
  process_offer self run ports offer = elim (set_remote_description strtoull self.agent offer) [
    | none ↦ none
    | some (agent, false) ↦ some (record self { agent = agent; remote_sdp = some offer }, none)
    | some (agent, true) ↦
        make_answer (record self { agent = agent; remote_sdp = some offer }) run ports
  ]

  -- `kms_sdp_session_process_answer`, for a session that has sent an offer.
  unfoldable pub take_answer : SdpSession → Message → Option (SdpSession × Bool)
  take_answer self answer = elim (set_remote_description strtoull self.agent answer) [
    | none ↦ none
    | some (agent, true) ↦
        some (record self { agent = agent; remote_sdp = some answer; neg_sdp = some answer }, true)
    | some (agent, false) ↦ some (record self { agent = agent }, false)
  ]

  -- `kms_sdp_session_process_answer`.
  unfoldable pub process_answer : SdpSession → Message → Option (SdpSession × Bool)
  process_answer self answer = elim self.local_sdp [
    | none ↦ some (self, false)
    | some sdp ↦ take_answer self answer
  ]
