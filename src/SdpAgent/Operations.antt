-- ===== src/SdpAgent/Operations.antt =====
-- kmssdpagent.c: the operations of the negotiation. The mutex makes each call one step.
use Prim.Native.String.{String}
use text.Mathlib.Text.{◌==◌ as str_eq}
use kms_core.Prelude.{
  ℕ, ◌+◌, ◌%◌, ◌^◌, Bool, true, false, not, ◌&&◌, ◌||◌, Option, none, some, List, [], ◌∷◌, ◌++◌,
  ◌==◌, if◌then◌else◌, ltb,
}
use kms_core.SdpAgent.{
  State, unnegotiated, local_offer, remote_offer, wait_nego, negotiated, Handler, Message, Session,
  Agent, mem, is_unnegotiated,
}

abbrev pub is_negotiated : State → Bool
is_negotiated negotiated = true
is_negotiated _ = false

abbrev pub is_local_offer : State → Bool
is_local_offer local_offer = true
is_local_offer _ = false

-- Media can be added and removed.
abbrev pub can_manipulate : State → Bool
can_manipulate s = is_unnegotiated s || is_negotiated s

-- A write into the store of the handlers.
abbrev pub put : (ℕ → Handler) → ℕ → Handler → ℕ → Handler
put handler id h other = if other == id then h else handler other

-- `mark_handler_as_negotiated` for each of the handlers.
unfoldable pub mark_negotiated : List ℕ → (ℕ → Handler) → ℕ → Handler
mark_negotiated [] handler = handler
mark_negotiated (id ∷ ids) handler =
    mark_negotiated ids (put handler id (record (handler id) { negotiated = true }))

-- `kms_sdp_agent_remove_disabled_medias`: its loop takes out the disabled handlers one by one.
unfoldable pub remove_disabled : (ℕ → Handler) → List ℕ → List ℕ
remove_disabled handler [] = []
remove_disabled handler (id ∷ ids) =
    if (handler id).disabled then remove_disabled handler ids else id ∷ remove_disabled handler ids

-- `kms_sdp_agent_commit_state_operations`.
unfoldable pub commit : Agent → State → Agent
commit agent unnegotiated = record agent { local = none; remote = none; offer_handlers = [] }
commit agent negotiated =
    let handler =
      if is_local_offer agent.state
      then agent.handler
      else mark_negotiated agent.offer_handlers agent.handler in
    record agent { handler = handler; handlers = remove_disabled handler agent.handlers }
commit agent _ = agent

-- `SDP_AGENT_NEW_STATE`.
unfoldable pub new_state : Agent → State → Agent
new_state agent s = record (commit agent s) { state = s }

-- A new `SdpHandler` in the store, with the next id.
abbrev pub new_handler : Agent → Bool → Agent
new_handler agent rejects = record agent {
  hids = (agent.hids + 1) % 2 ^ 32;
  handler =
      put agent.handler agent.hids
        (record { negotiated = false; disabled = false; unsupported = rejects; rejected = false });
}

-- The id as a gint: one from 2 ^ 31 on is negative, which is none.
abbrev pub as_gint : ℕ → Option ℕ
as_gint id = if ltb id (2 ^ 31) then some id else none

-- `kms_sdp_agent_append_media_handler`; a negative result is none. The flags tell whether the
-- handler is one that rejects, and takes the agent as its parent and the id.
unfoldable pub append_media_handler : Agent → Bool → Bool → Agent × Option ℕ
append_media_handler agent rejects accepted =
    if not accepted then (record agent { hids = (agent.hids + 1) % 2 ^ 32 }, none) else (
      record (new_handler agent rejects) { handlers = agent.handlers ++ (agent.hids ∷ []) },
      as_gint agent.hids,
    )

-- `kms_sdp_agent_add_proto_handler_impl`; a handler may have no proto.
unfoldable pub add_proto_handler : Agent → Bool → Bool → Bool → Agent × Option ℕ
unfolding append_media_handler
add_proto_handler agent has_proto rejects accepted =
    if not has_proto
    then (agent, none)
    else if not (can_manipulate agent.state)
    then (agent, none)
    else append_media_handler agent rejects accepted

-- `g_slist_remove`.
unfoldable pub remove_handler : ℕ → List ℕ → List ℕ
remove_handler id [] = []
remove_handler id (other ∷ ids) = if other == id then ids else other ∷ remove_handler id ids

-- `kms_sdp_agent_remove_proto_handler`.
unfoldable pub remove_proto_handler : Agent → ℕ → Agent × Bool
remove_proto_handler agent hid =
    if not (can_manipulate agent.state)
    then (agent, false)
    else if not (mem hid agent.handlers || mem hid agent.offer_handlers)
    then (agent, false)
    else if not (agent.handler hid).negotiated
    then (record agent { handlers = remove_handler hid agent.handlers }, true)
    else (
      record agent {
        handler = put agent.handler hid (record (agent.handler hid) { disabled = true });
      },
      true,
    )

-- `kms_sdp_agent_cancel_offer_impl`.
unfoldable pub cancel_offer : Agent → Agent × Bool
cancel_offer agent =
    if not (is_local_offer agent.state) then (agent, false) else elim agent.prev_sdp [
      | some sdp ↦ (new_state agent negotiated, true)
      | none ↦ (new_state agent unnegotiated, true)
    ]

-- `g_strcmp0 (sess_id, agent->priv->local.id) == 0`.
abbrev pub same_session : Option Session → Message → Bool
same_session none m = false
same_session (some s) m = str_eq m.sess_id s.id

-- `kms_sdp_agent_process_answered_description`: the handlers whose callback is called. A media with
-- no handler at its place is a failed assertion, which ends the process.
unfoldable pub answered : List ℕ → List ℕ → Option (List ℕ)
answered [] offer = some []
answered (port ∷ ports) [] = none
answered (port ∷ ports) (id ∷ ids) = elim (answered ports ids) [
  | none ↦ none
  | some called ↦ some (id ∷ called)
]

-- A description that has completed the negotiation.
unfoldable pub finish : Agent → Message → Option (Agent × Bool)
finish agent description = elim (answered description.ports agent.offer_handlers) [
  | none ↦ none
  | some called ↦ some (agent, true)
]

-- The agent that has given its answer.
abbrev pub local_answer : Agent → Message → Agent
local_answer agent description =
    new_state (record agent { local_description = some description; prev_sdp = some description })
      negotiated

-- `kms_sdp_agent_set_local_description_impl`.
unfoldable pub set_local_description : Agent → Message → Option (Agent × Bool)
set_local_description agent description = elim agent.state [
  | local_offer ↦
      if not (same_session agent.local description)
      then some (agent, false)
      else some (new_state (record agent { local_description = some description }) wait_nego, true)
  | remote_offer ↦
      if not (same_session agent.local description)
      then some (agent, false)
      else finish (local_answer agent description) description
  | _ ↦ some (agent, false)
]

-- The loop of `update_rejected_medias`: a media with port 0 rejects the handler at its place.
unfoldable pub update_rejected : List ℕ → List ℕ → (ℕ → Handler) → ℕ → Handler
update_rejected [] offer handler = handler
update_rejected (port ∷ ports) [] handler = handler
update_rejected (port ∷ ports) (id ∷ ids) handler = update_rejected ports ids (
    if not (handler id).rejected && port == 0
    then put handler id (record (handler id) { rejected = true })
    else handler)

abbrev pub session_of : Message → Session
session_of m = record { id = m.sess_id; version = m.sess_version }

-- `is_valid_session_version`; `strtoull` is `g_ascii_strtoull` in base 10.
unfoldable pub is_valid_session_version : (String → ℕ) → String → String → Bool
is_valid_session_version strtoull session1 session2 =
    strtoull session1 == strtoull session2 || (strtoull session1 + 1) % 2 ^ 64 == strtoull session2

-- Whether a description continues the session that the remote side has established.
unfoldable pub continues : (String → ℕ) → Option Session → Message → Bool
continues strtoull none description = false
continues strtoull (some s) description =
    str_eq s.id description.sess_id
    && is_valid_session_version strtoull s.version description.sess_version

abbrev pub is_none : Option Session → Bool
is_none none = true
is_none (some s) = false

-- The agent after the session and the rejected media of a description.
unfoldable pub take_remote : Agent → Message → Agent
take_remote agent description = record agent {
  remote = some (session_of description);
  handler = update_rejected description.ports agent.offer_handlers agent.handler;
}

-- The agent that has got the answer to its offer.
abbrev pub remote_answer : Agent → Message → Agent
remote_answer agent description =
    record (new_state (record (take_remote agent description) { prev_sdp = some description })
      negotiated) { remote_description = some description }

-- `kms_sdp_agent_set_remote_description_impl`.
unfoldable pub set_remote_description : (String → ℕ) → Agent → Message → Option (Agent × Bool)
set_remote_description strtoull agent description = elim agent.state [
  | wait_nego ↦
      if is_none agent.remote || continues strtoull agent.remote description
      then finish (remote_answer agent description) description
      else some (agent, false)
  | unnegotiated ↦ some (
    record (new_state (record agent { remote = some (session_of description) }) remote_offer) {
      remote_description = some description;
    },
    true,
  )
  | negotiated ↦
      if continues strtoull agent.remote description
      then some (
        record (new_state (take_remote agent description) remote_offer) {
          remote_description = some description;
        },
        true,
      )
      else some (agent, false)
  | _ ↦ some (agent, false)
]
