-- ===== src/SdpAgent/Answering.antt =====
-- kmssdpagent.c: how an answer chooses a handler for each media of the offer. What the media handlers
-- and the client's callbacks do is behind the functions of `AnswerRun`.
use Prim.Native.String.{String}
use kms_core.Prelude.{
  ℕ, suc, Bool, true, false, not, ◌&&◌, Option, none, some, List, [], ◌∷◌, ◌++◌, ◌==◌,
  if◌then◌else◌, get_elem?,
}
use kms_core.SdpAgent.{remote_offer, Handler, Agent, mem}
use kms_core.SdpAgent.Operations.{is_none, put, new_handler, append_media_handler}

-- For a handler's id and the index of a media in the offer: whether the handler was made for this kind
-- of media, manages its protocol, fits its groups, has an earlier agreement for it, and can answer it.
-- For the index of a media: whether the client gives a handler for it that has a proto and manages its
-- protocol, whether that one rejects, whether it takes its parent and id, and whether the media of the
-- answer is added. `prepared`: whether the steps before the first media are done. `postprocessed`: whether
-- the extensions behind the last media give no error; an answer that has been made is returned with theirs.
pub record AnswerRun : Type 0 where
  pub prepared : Bool
  pub same_media : ℕ → ℕ → Bool
  pub manages : ℕ → ℕ → Bool
  pub fits_groups : ℕ → ℕ → Bool
  pub agreed : ℕ → ℕ → Bool
  pub answers : ℕ → ℕ → Bool
  pub required : ℕ → Bool
  pub rejects : ℕ → Bool
  pub accepted : ℕ → Bool
  pub added : ℕ → Bool
  pub postprocessed : Bool
  pub ntp_time : String

module _ (run : AnswerRun) where
  -- The loop of `kms_sdp_agent_get_handler_for_media`.
  unfoldable pub find_handler : (ℕ → Handler) → ℕ → List ℕ → List ℕ → Option ℕ
  find_handler handler index offer [] = none
  find_handler handler index offer (id ∷ ids) =
      let rest = find_handler handler index offer ids in
      if (handler id).negotiated
      then rest
      else if not (run.same_media id index)
      then rest
      else if not (run.manages id index)
      then rest
      else if mem id offer
      then rest
      else if run.fits_groups id index
      then some id
      else rest

  -- `kms_sdp_agent_request_handler`: with a negative id the result is NULL, while the list keeps the
  -- handler. The log of the error, which is null for an id from 2 ^ 31 on, is not modelled.
  unfoldable pub request_handler : Agent → ℕ → Agent × Option ℕ
  unfolding append_media_handler
  request_handler agent index =
      if not (run.required index)
      then (agent, none)
      else append_media_handler agent (run.rejects index) (run.accepted index)

  -- `kms_sdp_agent_get_handler_for_media`.
  unfoldable pub get_handler_for_media : Agent → ℕ → Agent × Option ℕ
  get_handler_for_media agent index =
      elim (find_handler agent.handler index agent.offer_handlers agent.handlers) [
        | some id ↦ (agent, some id)
        | none ↦ request_handler agent index
      ]

-- `kms_sdp_agent_create_reject_media_handler`: its handler is new, so that it takes parent and id.
unfoldable pub create_reject_media_handler : Agent → Agent × ℕ
create_reject_media_handler agent = (new_handler agent true, agent.hids)

-- The handler that was found, or one that rejects.
unfoldable pub or_reject : Agent × Option ℕ → Agent × ℕ
or_reject (agent, some id) = (agent, id)
or_reject (agent, none) = create_reject_media_handler agent

-- The link of a handler in the list gets another.
unfoldable pub replace_slot : ℕ → ℕ → List ℕ → List ℕ
replace_slot old new [] = []
replace_slot old new (id ∷ ids) = if id == old then new ∷ ids else id ∷ replace_slot old new ids

-- The flags of a handler that another media takes.
abbrev pub renewed : Agent → ℕ → Agent
renewed agent id = record agent {
  handler =
      put agent.handler id (record (agent.handler id) { negotiated = false; rejected = false });
}

-- `is_internal_handler`.
abbrev pub is_internal : Agent → ℕ → Bool
is_internal agent id = not (mem id agent.handlers)

-- A media that has its answer: the handler gets its place.
unfoldable pub register : Agent → ℕ → Agent
register agent id =
    if mem id agent.offer_handlers
    then agent
    else record agent { offer_handlers = agent.offer_handlers ++ (id ∷ []) }

module _ (run : AnswerRun) where
  -- `kms_sdp_agent_replace_offered_handler`.
  unfoldable pub replace_offered_handler : Agent → ℕ → ℕ → Agent × Option ℕ
  replace_offered_handler agent index id =
      if not (mem id agent.offer_handlers)
      then (agent, none)
      else let found = or_reject (get_handler_for_media run agent index) in
        (
          record found.0 { offer_handlers = replace_slot id found.1 found.0.offer_handlers },
          some found.1,
        )

  -- `kms_sdp_agent_get_proper_handler`.
  unfoldable pub get_proper_handler : Agent → ℕ → ℕ → ℕ → Agent × Option ℕ
  get_proper_handler agent index port id =
      if not (agent.handler id).rejected
      then (agent, some id)
      else if port == 0
      then (agent, some id)
      else if not (run.same_media id index)
      then replace_offered_handler (renewed agent id) index id
      else if run.manages id index
      then (renewed agent id, some id)
      else replace_offered_handler (renewed agent id) index id

  -- `kms_sdp_agent_select_handler_to_answer_media`. No list of handlers is an empty one.
  unfoldable pub select_handler : Agent → ℕ → ℕ → Agent × Option ℕ
  select_handler agent index port = elim (get_elem? agent.offer_handlers index) [
    | none ↦ get_handler_for_media run agent index
    | some id ↦ get_proper_handler agent index port id
  ]

  -- Without an answer an internal handler is freed, and then read: the behaviour is undefined.
  unfoldable pub answer_by : ℕ → Agent → ℕ → Option (Agent × Bool)
  answer_by index agent id =
      if run.answers id index
      then some (register agent id, run.added index)
      else if is_internal agent id
      then none
      else some (agent, false)

  -- The part of `create_media_answer` behind the choice of the handler.
  unfoldable pub answer_with : ℕ → ℕ → Agent × Option ℕ → Option (Agent × Bool)
  answer_with index port (agent, none) =
      answer_by index (create_reject_media_handler agent).0 (create_reject_media_handler agent).1
  answer_with index port (agent, some id) =
      if not (port == 0)
      then answer_by index agent id
      else if (agent.handler id).negotiated && not (run.agreed id index)
      then some (agent, false)
      else some (register agent id, run.added index)

  -- `create_media_answer`.
  unfoldable pub create_media_answer : Agent → ℕ → ℕ → Option (Agent × Bool)
  create_media_answer agent index port = answer_with index port (select_handler agent index port)

  -- The loop over the media of the offer, which stops at one that fails.
  unfoldable pub answer_medias : Agent → ℕ → List ℕ → Option (Agent × Bool)
  answer_medias agent index [] = some (agent, true)
  answer_medias agent index (port ∷ ports) = elim (create_media_answer agent index port) [
    | none ↦ none
    | some (after, ok) ↦ elim ok [
      | true ↦ answer_medias after (suc index) ports
      | false ↦ some (after, false)
    ]
  ]

-- The session of an answer, a new one if there is none.
abbrev pub with_session : Agent → String → Agent
with_session agent ntp_time =
    if is_none agent.local
    then record agent { local = some (record { id = ntp_time; version = ntp_time }) }
    else agent

-- `kms_sdp_agent_create_answer_impl` with `kms_sdp_agent_generate_answer`; a missing remote
-- description is a null pointer. The result tells whether there is an answer.
unfoldable pub create_answer : Agent → AnswerRun → Option (Agent × Bool)
create_answer agent run = elim agent.state [
  | remote_offer ↦
      if not run.prepared
      then some (with_session agent run.ntp_time, false)
      else elim agent.remote_description [
        | none ↦ none
        | some m ↦ answer_medias run (with_session agent run.ntp_time) 0 m.ports
      ]
  | _ ↦ some (agent, false)
]
