-- ===== src/SdpAgent.antt =====
-- src/gst-plugins/commons/sdpagent/kmssdpagent.c: the media handlers of an offer. The lists of the
-- agent hold pointers to handlers, each with an id of its own: here they hold the ids, and `handler`
-- is the store of what the pointers lead to.
pub mod Slots
pub mod Merging
pub mod Operations
pub mod Offers
pub mod Answering
pub mod Choosing
pub mod Selecting
pub mod Placing
pub mod Unmoved
pub mod Steps
pub mod Endings
pub mod Transitions
pub mod Usable
pub mod Invariant
pub mod Committing
pub mod Numbering
mod Remembering
mod Descriptions
pub mod Offering
pub mod Answers
pub mod Completing
use Prim.Native.String.{String}
use kms_core.Prelude.{
  ℕ, zero, suc, ◌+◌, Bool, true, false, not, ◌&&◌, ◌||◌, Option, none, some, List, [], ◌∷◌, ◌++◌,
  ◌==◌, if◌then◌else◌,
}

-- `KmsSDPAgentState`.
pub data State : Type 0 where
  unnegotiated local_offer remote_offer wait_nego negotiated : State

-- The flags of an `SdpHandler`, and `negotiated` of its `KmsSdpHandler`.
pub record Handler : Type 0 where
  pub negotiated : Bool
  pub disabled : Bool
  pub unsupported : Bool
  pub rejected : Bool

-- What is read of a GstSDPMessage: the session of its origin, and the port of each media.
pub record Message : Type 0 where
  pub sess_id : String
  pub sess_version : String
  pub ports : List ℕ

-- `SdpSessionDescription`, whose two strings are set and cleared together.
pub record Session : Type 0 where
  pub id : String
  pub version : String

-- `_KmsSdpAgentPrivate`, without the groups, the callbacks, the extensions and the address.
pub record Agent : Type 0 where
  pub state : State
  pub handlers : List ℕ
  pub offer_handlers : List ℕ
  pub handler : ℕ → Handler
  pub hids : ℕ
  pub local : Option Session
  pub remote : Option Session
  pub local_description : Option Message
  pub remote_description : Option Message
  pub prev_sdp : Option Message

-- Whether a handler with the id is in the list: `g_slist_find_custom` with `handler_cmp_func`.
abbrev pub mem : ℕ → List ℕ → Bool
mem id [] = false
mem id (other ∷ ids) = other == id || mem id ids

-- `kms_sdp_agent_get_first_not_negotiated_handler`.
unfoldable pub first_not_negotiated : (ℕ → Handler) → List ℕ → List ℕ → Option ℕ
first_not_negotiated handler [] offer = none
first_not_negotiated handler (id ∷ ids) offer =
    let rest = first_not_negotiated handler ids offer in
    if (handler id).negotiated then rest else if not (mem id offer) then some id else rest

-- `reusable_slot_cmp`.
abbrev pub reusable : Handler → Bool
reusable h = h.disabled || h.unsupported

-- Whether `g_slist_find_custom` with `reusable_slot_cmp` finds a slot.
abbrev pub any_reusable : (ℕ → Handler) → List ℕ → Bool
any_reusable handler [] = false
any_reusable handler (id ∷ ids) = reusable (handler id) || any_reusable handler ids

-- Puts a handler into the first slot that can be used again.
unfoldable pub fill_slot : (ℕ → Handler) → ℕ → List ℕ → List ℕ
fill_slot handler new [] = []
fill_slot handler new (id ∷ ids) =
    if reusable (handler id) then new ∷ ids else id ∷ fill_slot handler new ids

-- The loop of `kms_sdp_agent_merge_offer_handlers`: the rounds that `fuel` allows.
unfoldable pub fill_slots : ℕ → (ℕ → Handler) → List ℕ → List ℕ → Option (List ℕ)
fill_slots zero handler handlers offer = none
fill_slots (suc fuel) handler handlers offer =
    if not (any_reusable handler offer)
    then some offer
    else elim (first_not_negotiated handler handlers offer) [
      | none ↦ some offer
      | some new ↦ fill_slots fuel handler handlers (fill_slot handler new offer)
    ]

-- `kms_sdp_agent_merge_handler_func`.
unfoldable pub merge_handler : (ℕ → Handler) → ℕ → List ℕ → List ℕ
merge_handler handler id offer =
    if (handler id).negotiated || (handler id).disabled
    then offer
    else if mem id offer
    then offer
    else offer ++ (id ∷ [])

-- The same for each of the handlers.
unfoldable pub merge_handlers : (ℕ → Handler) → List ℕ → List ℕ → List ℕ
merge_handlers handler [] offer = offer
merge_handlers handler (id ∷ ids) offer =
    merge_handlers handler ids (merge_handler handler id offer)

abbrev pub is_unnegotiated : State → Bool
is_unnegotiated unnegotiated = true
is_unnegotiated _ = false

-- `kms_sdp_agent_merge_offer_handlers`.
unfoldable pub merge_offer_handlers : ℕ → Agent → Option Agent
merge_offer_handlers fuel agent =
    if is_unnegotiated agent.state
    then some (record agent { offer_handlers = agent.handlers })
    else elim (fill_slots fuel agent.handler agent.handlers agent.offer_handlers) [
      | none ↦ none
      | some filled ↦
          some
            (record agent { offer_handlers = merge_handlers agent.handler agent.handlers filled })
    ]
