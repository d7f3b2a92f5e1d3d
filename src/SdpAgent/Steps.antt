-- ===== src/SdpAgent/Steps.antt =====
-- kmssdpagent.c: the calls as steps, and the diagram that the comment at the top of the file draws.
use Prim.Native.String.{String}
use kms_core.Prelude.{ℕ, ◌≡◌, ◌⊎◌, Bool, true, false, Option, none, some}
use kms_core.SdpAgent.{
  State, unnegotiated, local_offer, remote_offer, wait_nego, negotiated, Message, Agent,
}
use kms_core.SdpAgent.Operations.{
  can_manipulate, add_proto_handler, remove_proto_handler, cancel_offer, set_local_description,
  set_remote_description,
}
use kms_core.SdpAgent.Offers.{OfferRun, create_offer}
use kms_core.SdpAgent.Answering.{AnswerRun, create_answer}

-- The calls that a client makes, with what GStreamer and GLib answer in them.
pub data Operation : Type 0 where
  adding : (has_proto rejects accepted : Bool) → Operation
  removing : (hid : ℕ) → Operation
  offering : OfferRun → Operation
  cancelling : Operation
  answering : AnswerRun → Operation
  setting_local : Message → Operation
  setting_remote : Message → Operation

abbrev pub is_some : Option ℕ → Bool
is_some none = false
is_some (some id) = true

-- One call: the new state, and whether it was done; `none` when the process ends.
unfoldable pub step : (String → ℕ) → Agent → Operation → Option (Agent × Bool)
step strtoull agent (adding has_proto rejects accepted) = some (
  (add_proto_handler agent has_proto rejects accepted).0,
  is_some (add_proto_handler agent has_proto rejects accepted).1,
)
step strtoull agent (removing hid) = some (remove_proto_handler agent hid)
step strtoull agent (offering run) = create_offer agent run
step strtoull agent cancelling = some (cancel_offer agent)
step strtoull agent (answering run) = create_answer agent run
step strtoull agent (setting_local description) = set_local_description agent description
step strtoull agent (setting_remote description) = set_remote_description strtoull agent description

abbrev pub has_negotiated : Option Message → Bool
has_negotiated none = false
has_negotiated (some sdp) = true

-- Where an agent stands in the diagram: its state, and whether it has negotiated before.
abbrev pub stands : Agent → State × Bool
stands agent = (agent.state, has_negotiated agent.prev_sdp)

-- The arrows of the diagram, each for its operation, and the operations that stay. A cancelled offer
-- goes back to where the agent was before: the diagram asks whether it has negotiated.
pub data Arrow : Operation → State × Bool → State × Bool → Type 0 where
  adds : (p r a : Bool) (s : State × Bool) → can_manipulate s.0 ≡ true → Arrow (adding p r a) s s
  removes : (hid : ℕ) (s : State × Bool) → can_manipulate s.0 ≡ true → Arrow (removing hid) s s
  offers :
      (run : OfferRun) (s : State × Bool)
      → can_manipulate s.0 ≡ true
      → Arrow (offering run) s (local_offer, s.1)
  cancels_first : Arrow cancelling (local_offer, false) (unnegotiated, false)
  cancels_next : Arrow cancelling (local_offer, true) (negotiated, true)
  answers :
      (run : AnswerRun) (before : Bool)
      → Arrow (answering run) (remote_offer, before) (remote_offer, before)
  sets_offer :
      (m : Message) (before : Bool)
      → Arrow (setting_local m) (local_offer, before) (wait_nego, before)
  sets_answer :
      (m : Message) (before : Bool)
      → Arrow (setting_local m) (remote_offer, before) (negotiated, true)
  gets_answer :
      (m : Message) (before : Bool)
      → Arrow (setting_remote m) (wait_nego, before) (negotiated, true)
  gets_first :
      (m : Message) (before : Bool)
      → Arrow (setting_remote m) (unnegotiated, before) (remote_offer, before)
  gets_next :
      (m : Message) (before : Bool)
      → Arrow (setting_remote m) (negotiated, before) (remote_offer, before)

-- How a call ends that finds the agent at `before` and leaves it at `after`.
abbrev pub Ends : Operation → State × Bool → State × Bool → Bool → Type 0
Ends op before after ok = ((ok ≡ true) × Arrow op before after) ⊎ ((ok ≡ false) × (after ≡ before))
