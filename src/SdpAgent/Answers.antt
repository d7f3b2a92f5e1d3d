-- ===== src/SdpAgent/Answers.antt =====
-- kmssdpagent.c, `kms_sdp_agent_process_answered_description`: an answer against the offer.
use kms_core.Prelude.{
  ℕ, ◌≤◌, ◌<◌, ◌≡◌, ◌∙◌, refl, ap, true, ◌||◌, none, some, List, [], ◌∷◌, arith, length, take,
}
use Prim.Native.String.{String}
use kms_core.SdpAgent.{wait_nego, negotiated, Message, Agent}
use kms_core.SdpAgent.Operations.{
  is_none, continues, answered, finish, new_state, commit, session_of, take_remote, remote_answer,
  set_remote_description,
}

answered_long : (ports offer : List ℕ) → length offer < length ports → answered ports offer ≡ none
unfolding answered
answered_long [] offer h = absurd (omega arith)
answered_long (port ∷ ports) [] h = refl
answered_long (port ∷ ports) (id ∷ ids) h = ground (arith, answered_long ports ids)

answered_short :
    (ports offer : List ℕ)
    → length ports ≤ length offer
    → answered ports offer ≡ some (take (length ports) offer)
unfolding answered
answered_short [] offer h = refl
answered_short (port ∷ ports) [] h = absurd (omega arith)
answered_short (port ∷ ports) (id ∷ ids) h = rw (answered_short ports ids (omega arith)) refl

answer_offer :
    (agent : Agent) (m : Message) → (remote_answer agent m).offer_handlers ≡ agent.offer_handlers
unfolding new_state commit take_remote
answer_offer agent m = refl

pub finish_short :
    (agent : Agent) (m : Message)
    → length m.ports ≤ length agent.offer_handlers
    → finish agent m ≡ some (agent, true)
unfolding finish
finish_short agent m fits = rw (answered_short m.ports agent.offer_handlers fits, finish) refl

finish_long :
    (agent : Agent) (m : Message)
    → length agent.offer_handlers < length m.ports
    → finish agent m ≡ none
unfolding finish
finish_long agent m longer = rw (answered_long m.ports agent.offer_handlers longer, finish) refl

answer_finishes :
    (strtoull : String → ℕ) (agent : Agent) (m : Message)
    → agent.state ≡ wait_nego
    → (is_none agent.remote || continues strtoull agent.remote m) ≡ true
    → set_remote_description strtoull agent m ≡ finish (remote_answer agent m) m
unfolding set_remote_description
answer_finishes strtoull agent m at valid = ground arith

-- What an agent has that has completed a negotiation with the answer `m`.
pub record Negotiated (before after : Agent) (m : Message) : Type 0 where
  pub state : after.state ≡ negotiated
  pub remote : after.remote ≡ some (session_of m)
  pub description : after.remote_description ≡ some m
  pub previous : after.prev_sdp ≡ some m
  pub local : after.local ≡ before.local
  pub slots : after.offer_handlers ≡ before.offer_handlers

remote_answer-Negotiated :
    (agent : Agent) (m : Message) → Negotiated agent (remote_answer agent m) m
unfolding new_state commit take_remote
remote_answer-Negotiated agent m = record {
  state = refl;
  remote = refl;
  description = refl;
  previous = refl;
  local = refl;
  slots = refl;
}

-- An answer of the session that is awaited, to an offer that has been sent, completes the negotiation
-- when it has no more m-lines than the offer: the agent is in the state `negotiated`, has the answer as
-- its remote and as its last negotiated description and its session as the remote one, and keeps its
-- own session and its handlers' places. With more m-lines the assertion fails that each has a handler,
-- and the process ends.
pub set_remote_description-answers :
    (strtoull : String → ℕ) (agent : Agent) (m : Message)
    → agent.state ≡ wait_nego
    → (is_none agent.remote || continues strtoull agent.remote m) ≡ true
    → (length m.ports ≤ length agent.offer_handlers
        → (set_remote_description strtoull agent m ≡ some (remote_answer agent m, true))
          × Negotiated agent (remote_answer agent m) m)
      × (length agent.offer_handlers < length m.ports
          → set_remote_description strtoull agent m ≡ none)
set_remote_description-answers strtoull agent m at valid =
    let run = answer_finishes strtoull agent m at valid in
    let same = ap (λ (l : List ℕ). length l) (answer_offer agent m) in
    (
      λ fits. (
        run ∙ finish_short (remote_answer agent m) m (omega (arith, same)),
        remote_answer-Negotiated agent m,
      ),
      λ longer. run ∙ finish_long (remote_answer agent m) m (omega (arith, same)),
    )
