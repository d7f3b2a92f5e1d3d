-- ===== src/SdpAgent/Unmoved.antt =====
-- kmssdpagent.c: making an answer leaves the agent where it stands.
use kms_core.Prelude.{
  ℕ, suc, ◌≡◌, ◌∙◌, refl, inl, inr, true, false, Option, none, some, List, [], ◌∷◌, arith,
  get_elem?, Bool, Bool-cases, Option-cases,
}
use kms_core.SdpAgent.{Agent, mem}
use kms_core.SdpAgent.Operations.{append_media_handler}
use kms_core.SdpAgent.Answering.{
  AnswerRun, find_handler, request_handler, get_handler_for_media, create_reject_media_handler,
  or_reject, replace_offered_handler, renewed, get_proper_handler, select_handler, register,
  answer_by, answer_with, create_media_answer, answer_medias, with_session,
}
use kms_core.SdpAgent.Steps.{stands}

append_state :
    (agent : Agent) (rejects accepted : Bool)
    → stands (append_media_handler agent rejects accepted).0 ≡ stands agent
unfolding append_media_handler
append_state agent rejects true = refl
append_state agent rejects false = refl

or_reject_state :
    (agent : Agent) (found : Option ℕ) → stands (or_reject (agent, found)).0 ≡ stands agent
unfolding or_reject create_reject_media_handler
or_reject_state agent none = refl
or_reject_state agent (some id) = refl

register_state : (agent : Agent) (id : ℕ) → stands (register agent id) ≡ stands agent
unfolding register
register_state agent id = ground arith

module _ (run : AnswerRun) (index : ℕ) where
  request_state : (agent : Agent) → stands (request_handler run agent index).0 ≡ stands agent
  unfolding request_handler
  request_state agent = ground (arith, append_state agent (run.rejects index) (run.accepted index))

  get_handler_state :
      (agent : Agent) → stands (get_handler_for_media run agent index).0 ≡ stands agent
  unfolding get_handler_for_media
  get_handler_state agent =
      elim (Option-cases
        (find_handler run agent.handler index agent.offer_handlers agent.handlers)) [
          | inl not_found ↦ rw (not_found, get_handler_for_media) (request_state agent)
          | inr (id, found) ↦ rw (found, get_handler_for_media) refl
        ]

  replace_state :
      (agent : Agent) (id : ℕ)
      → stands (replace_offered_handler run agent index id).0 ≡ stands agent
  unfolding replace_offered_handler
  replace_state agent id = elim (Bool-cases (mem id agent.offer_handlers)) [
    | inl there ↦ rw there (
        or_reject_state (get_handler_for_media run agent index).0
          (get_handler_for_media run agent index).1
        ∙ get_handler_state agent)
    | inr strange ↦ rw strange refl
  ]

  proper_state :
      (agent : Agent) (port id : ℕ)
      → stands (get_proper_handler run agent index port id).0 ≡ stands agent
  unfolding get_proper_handler
  proper_state agent port id = ground (arith, replace_state (renewed agent id) id)

  select_state :
      (agent : Agent) (port : ℕ) → stands (select_handler run agent index port).0 ≡ stands agent
  unfolding select_handler
  select_state agent port = elim (Option-cases (get_elem? agent.offer_handlers index)) [
    | inl behind ↦ rw (behind, select_handler) (get_handler_state agent)
    | inr (id, at) ↦ rw (at, select_handler) (proper_state agent port id)
  ]

  answer_by_state :
      (agent after : Agent) (id : ℕ) (ok : Bool)
      → answer_by run index agent id ≡ some (after, ok)
      → stands after ≡ stands agent
  unfolding answer_by
  answer_by_state agent after id ok ran = ground (arith, register_state agent id)

  answer_with_state :
      (agent after : Agent) (port : ℕ) (chosen : Option ℕ) (ok : Bool)
      → answer_with run index port (agent, chosen) ≡ some (after, ok)
      → stands after ≡ stands agent
  unfolding answer_with create_reject_media_handler
  answer_with_state agent after port none ok ran =
      answer_by_state (create_reject_media_handler agent).0 after
        (create_reject_media_handler agent).1 ok ran
  answer_with_state agent after port (some id) ok ran =
      ground (arith, register_state agent id, answer_by_state agent after id ok)

  media_answer_state :
      (agent after : Agent) (port : ℕ) (ok : Bool)
      → create_media_answer run agent index port ≡ some (after, ok)
      → stands after ≡ stands agent
  unfolding create_media_answer
  media_answer_state agent after port ok ran =
      answer_with_state (select_handler run agent index port).0 after port
        (select_handler run agent index port).1 ok ran
      ∙ select_state agent port

pub answer_medias_state :
    (run : AnswerRun) (ports : List ℕ) (index : ℕ) (agent after : Agent) (ok : Bool)
    → answer_medias run agent index ports ≡ some (after, ok)
    → stands after ≡ stands agent
unfolding answer_medias
answer_medias_state run [] index agent after ok ran = ground arith
answer_medias_state run (port ∷ ports) index agent after ok ran =
    elim (Option-cases (create_media_answer run agent index port)) [
      | inl fault ↦ absurd (ground arith)
      | inr ((next, true), made) ↦
          answer_medias_state run ports (suc index) next after ok (ground arith)
          ∙ media_answer_state run index agent next port true made
      | inr ((next, false), made) ↦
          let same : next ≡ after = ground arith in
          rw (← same) (media_answer_state run index agent next port false made)
    ]

pub with_session_state :
    (agent : Agent) (run : AnswerRun) → stands (with_session agent run.ntp_time) ≡ stands agent
with_session_state agent run = ground arith
