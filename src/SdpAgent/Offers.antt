-- ===== src/SdpAgent/Offers.antt =====
-- kmssdpagent.c: making an offer. The extensions and the media handlers
-- are behind the flags of `OfferRun`.
use Prim.Native.String.{String}
use kms_core.Prelude.{
  ℕ, suc, Bool, true, false, not, Option, none, some, List, [], ◌∷◌, if◌then◌else◌, length,
}
use kms_core.SdpAgent.{local_offer, Session, Agent, merge_offer_handlers}
use kms_core.SdpAgent.Operations.{is_negotiated, can_manipulate, session_of, new_state}

-- How the steps of `kms_sdp_agent_create_offer_impl` that are not modelled end; the strings of a new
-- session and of the incremented version; whether the offer equals the last local description.
pub record OfferRun : Type 0 where
  pub prepared : Bool
  pub preprocessed : Bool
  pub offered : Bool
  pub equal : Bool
  pub completed : Bool
  pub ntp_time : String
  pub incremented : String

-- The session that an offer is made in; there is none when the last local description is missing.
unfoldable pub offer_session : Agent → OfferRun → Option Session
offer_session agent run =
    if is_negotiated agent.state
    then elim agent.local_description [ none ↦ none | some m ↦ some (session_of m) ]
    else some (record { id = run.ntp_time; version = run.ntp_time })

-- `kms_sdp_agent_update_session_version`: the session after it.
unfoldable pub update_session_version : Agent → OfferRun → Option Session → Option Session
update_session_version agent run none = none
update_session_version agent run (some s) = elim agent.local_description [
  | none ↦ some s
  | some m ↦ if run.equal then some s else some (record s { version = run.incremented })
]

-- The end of a failed offer: the old list comes back, if it was not empty.
unfoldable pub fail_offer : List ℕ → Agent → Agent × Bool
fail_offer [] agent = (agent, false)
fail_offer (id ∷ ids) agent = (record agent { offer_handlers = id ∷ ids }, false)

-- The steps behind the merge.
unfoldable pub complete_offer : List ℕ → OfferRun → Agent → Agent × Bool
complete_offer old run merged =
    let versioned : Agent = record merged {
      local = update_session_version merged run merged.local;
    } in
    if not run.offered
    then fail_offer old merged
    else if not run.completed
    then fail_offer old versioned
    else (new_state versioned local_offer, true)

-- `kms_sdp_agent_create_offer_impl`. The merge has as many rounds as the offer has m-lines and one
-- more.
unfoldable pub create_offer : Agent → OfferRun → Option (Agent × Bool)
create_offer agent run =
    if not (can_manipulate agent.state)
    then some (agent, false)
    else if not run.prepared
    then some (agent, false)
    else elim (offer_session agent run) [
      | none ↦ none
      | some s ↦
          if not run.preprocessed
          then some (record agent { local = some s }, false)
          else elim (merge_offer_handlers (suc (length agent.offer_handlers))
              (record agent { local = some s })) [
                | none ↦ none
                | some merged ↦ some (complete_offer agent.offer_handlers run merged)
              ]
    ]
