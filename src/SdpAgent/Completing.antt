-- ===== src/SdpAgent/Completing.antt =====
-- kmssdpagent.c: an answer that has been made completes the negotiation.
use text.Mathlib.TextPositions.{eq_refl}
use kms_core.Prelude.{
  ℕ, suc, ◌+◌, ◌^◌, ◌<◌, ◌≤◌, ◌≡◌, ◌∙◌, refl, inl, inr, true, false, Option, none, some, List, [],
  ◌∷◌, ◌==◌, arith, length, Bool-cases, Option-cases,
}
use kms_core.SdpAgent.{
  State, unnegotiated, local_offer, remote_offer, wait_nego, negotiated, Session, Message, Agent,
}
use kms_core.SdpAgent.Operations.{
  same_session, finish, new_state, commit, local_answer, set_local_description,
}
use kms_core.SdpAgent.Answering.{
  AnswerRun, create_reject_media_handler, register, select_handler, answer_by, answer_with,
  create_media_answer, answer_medias, with_session, create_answer,
}
use kms_core.SdpAgent.Placing.{ids_for, answer_medias-Places}
use kms_core.SdpAgent.Answers.{finish_short}
use kms_core.SdpAgent.Descriptions.{session-IsValid, session_hids, session_state}
use kms_core.SdpAgent.Invariant.{IsValid, IsValid-HasRoom}

-- The media handlers and the client's callbacks do their part in an answer.
pub record Cooperates (run : AnswerRun) : Type 0 where
  pub prepared : run.prepared ≡ true
  pub answers : (id index : ℕ) → run.answers id index ≡ true
  pub agreed : (id index : ℕ) → run.agreed id index ≡ true
  pub added : (index : ℕ) → run.added index ≡ true
  pub postprocessed : run.postprocessed ≡ true

answer_by_defined :
    (run : AnswerRun) (index : ℕ) (agent : Agent) (id : ℕ)
    → Cooperates run
    → answer_by run index agent id ≡ some (register agent id, true)
unfolding answer_by
answer_by_defined run index agent id c = rw (c.answers id index) (rw (c.added index) refl)

answer_with_defined :
    (run : AnswerRun) (index port : ℕ) (agent : Agent) (chosen : Option ℕ)
    → Cooperates run
    → (after : Agent) × (answer_with run index port (agent, chosen) ≡ some (after, true))
unfolding answer_with
answer_with_defined run index port agent none c =
    let id = (create_reject_media_handler agent).1 in
    let made = (create_reject_media_handler agent).0 in
    (register made id, answer_by_defined run index made id c)
answer_with_defined run index port agent (some id) c = elim (Bool-cases (port == 0)) [
  | inr enabled ↦ (register agent id, rw enabled (answer_by_defined run index agent id c))
  | inl disabled ↦
      (register agent id, rw disabled (ground (arith, c.agreed id index, c.added index)))
]

answer_medias_defined :
    (run : AnswerRun) (ports : List ℕ) (index : ℕ) (agent : Agent)
    → Cooperates run
    → (after : Agent) × (answer_medias run agent index ports ≡ some (after, true))
unfolding answer_medias create_media_answer
answer_medias_defined run [] index agent c = (agent, refl)
answer_medias_defined run (port ∷ ports) index agent c =
    let chosen = select_handler run agent index port in
    let (next, made) = answer_with_defined run index port chosen.0 chosen.1 c in
    let (after, ran) = answer_medias_defined run ports (suc index) next c in
    (after, rw (made, answer_medias, create_media_answer) ran)

local_finishes :
    (agent : Agent) (d : Message)
    → agent.state ≡ remote_offer
    → same_session agent.local d ≡ true
    → set_local_description agent d ≡ finish (local_answer agent d) d
unfolding set_local_description
local_finishes agent d at same = ground arith

local_slots :
    (agent : Agent) (d : Message) → (local_answer agent d).offer_handlers ≡ agent.offer_handlers
unfolding new_state commit
local_slots agent d = refl

made_answer :
    (agent after : Agent) (run : AnswerRun) (m : Message)
    → agent.state ≡ remote_offer
    → agent.remote_description ≡ some m
    → create_answer agent run ≡ some (after, true)
    → answer_medias run (with_session agent run.ntp_time) 0 m.ports ≡ some (after, true)
unfolding create_answer
made_answer agent after run m at set ran = elim (Bool-cases run.prepared) [
  | inl prepared ↦ ground arith
  | inr unprepared ↦ absurd (ground arith)
]

answered_long_enough :
    (agent after : Agent) (run : AnswerRun) (m : Message) (s : State)
    → agent.state ≡ s
    → IsValid agent
    → agent.remote_description ≡ some m
    → ((i : ℕ) → run.rejects i ≡ false)
    → agent.hids + ids_for m.ports < 2 ^ 32
    → create_answer agent run ≡ some (after, true)
    → (after.state ≡ remote_offer)
      × (after.local ≡ (with_session agent run.ntp_time).local)
      × (length m.ports ≤ length after.offer_handlers)
unfolding create_answer
answered_long_enough agent after run m remote_offer at v set takes room ran =
    let started = with_session agent run.ntp_time in
    let ran' : answer_medias run started 0 m.ports ≡ some (after, true) =
      made_answer agent after run m at set ran in
    let (keeps, ready, placed) =
      answer_medias-Places run m.ports 0 started after true takes
        (IsValid-HasRoom (ids_for m.ports) started (session-IsValid agent run.ntp_time v)
          (rw (session_hids agent run.ntp_time) room))
        (omega arith) ran' in
    let long = placed refl in
    (keeps.state ∙ (session_state agent run.ntp_time ∙ at), keeps.local, omega arith)
answered_long_enough agent after run m unnegotiated at v set takes room ran = absurd (ground arith)
answered_long_enough agent after run m local_offer at v set takes room ran = absurd (ground arith)
answered_long_enough agent after run m wait_nego at v set takes room ran = absurd (ground arith)
answered_long_enough agent after run m negotiated at v set takes room ran = absurd (ground arith)

-- In a valid agent, if handlers that the client gives do not reject their media and the ids do not wrap
-- around, an answer that has been made has a handler for each m-line of the offer: a local description
-- of its session with no more m-lines completes the negotiation, and the assertion holds.
pub create_answer-finishes :
    (agent after : Agent) (run : AnswerRun) (m d : Message)
    → IsValid agent
    → agent.remote_description ≡ some m
    → ((i : ℕ) → run.rejects i ≡ false)
    → agent.hids + ids_for m.ports < 2 ^ 32
    → create_answer agent run ≡ some (after, true)
    → same_session after.local d ≡ true
    → length d.ports ≤ length m.ports
    → (set_local_description after d ≡ some (local_answer after d, true))
      × ((local_answer after d).state ≡ negotiated)
unfolding new_state
create_answer-finishes agent after run m d v set takes room ran same fits =
    let (state, kept, long) =
      answered_long_enough agent after run m agent.state refl v set takes room ran in
    (
      local_finishes after d state same
          ∙ finish_short (local_answer after d) d (rw (local_slots after d) (omega arith)),
      refl,
    )

-- The session that an answer is made in, and a description of it.
abbrev pub answer_session : Agent → AnswerRun → Session
answer_session agent run = elim agent.local [
  | none ↦ record { id = run.ntp_time; version = run.ntp_time }
  | some s ↦ s
]

abbrev pub in_session : Session → List ℕ → Message
in_session s ports = record { sess_id = s.id; sess_version = s.version; ports = ports }

local_session :
    (agent : Agent) (run : AnswerRun)
    → (with_session agent run.ntp_time).local ≡ some (answer_session agent run)
local_session agent run = elim (Option-cases agent.local) [
  | inl first ↦ rw first refl
  | inr (s, next) ↦ rw next refl
]

in_session_same : (s : Session) (ports : List ℕ) → same_session (some s) (in_session s ports) ≡ true
in_session_same s ports = eq_refl s.id

-- What completing a negotiation as the side that answers gives.
pub record Completes (agent : Agent) (run : AnswerRun) (ports : List ℕ) : Type 0 where
  pub answered : Agent
  pub after : Agent
  pub created : create_answer agent run ≡ some (answered, true)
  pub session : answered.local ≡ some (answer_session agent run)
  pub finished :
      set_local_description answered (in_session (answer_session agent run) ports)
      ≡ some (after, true)
  pub state : after.state ≡ negotiated

-- A valid agent that has an offer comes to an agreement, if the media handlers and the client do their
-- part, the handlers that the client gives do not reject their media and the ids stay below 2 ^ 31: an
-- answer is made, and a description in the answer's session that has as many m-lines as the offer ends
-- in the state `negotiated`.
pub create_answer-Completes :
    (agent : Agent) (run : AnswerRun) (m : Message) (ports : List ℕ)
    → IsValid agent
    → agent.state ≡ remote_offer
    → agent.remote_description ≡ some m
    → Cooperates run
    → ((i : ℕ) → run.rejects i ≡ false)
    → agent.hids + ids_for m.ports < 2 ^ 31
    → length ports ≡ length m.ports
    → Completes agent run ports
unfolding create_answer
create_answer-Completes agent run m ports v at set c takes room size =
    let (after, ran) = answer_medias_defined run m.ports 0 (with_session agent run.ntp_time) c in
    let created : create_answer agent run ≡ some (after, true) = ground (arith, c.prepared) in
    let (state, kept, long) =
      answered_long_enough agent after run m remote_offer at v set takes (omega arith) created in
    let session = answer_session agent run in
    let same : same_session after.local (in_session session ports) ≡ true =
      rw (kept ∙ local_session agent run) (in_session_same session ports) in
    let (finished, negotiated') =
      create_answer-finishes agent after run m (in_session session ports) v set takes (omega arith)
        created same (omega arith) in
    record {
      answered = after;
      after = local_answer after (in_session session ports);
      created = created;
      session = kept ∙ local_session agent run;
      finished = finished;
      state = negotiated';
    }
