-- ===== src/SdpAgent/Committing.antt =====
-- kmssdpagent.c, `SDP_AGENT_NEW_STATE`: what has to hold for an agent to be valid in its new state.
use kms_core.Prelude.{ℕ, ◌≡◌, refl, inl, inr, true, false, ◌||◌, List, arith, Bool-cases}
use kms_core.SdpAgent.{
  State, unnegotiated, local_offer, remote_offer, wait_nego, negotiated, Handler, Agent,
}
use kms_core.SdpAgent.Slots.{Each, AllUsable}
use kms_core.SdpAgent.Usable.{
  IsSupported, Below, mark_negotiated-Each, remove_disabled-Each, remove_disabled-AllUsable,
  remove_disabled-Below,
}
use kms_core.SdpAgent.Operations.{
  is_negotiated, is_local_offer, mark_negotiated, remove_disabled, commit, new_state,
}
use kms_core.SdpAgent.Invariant.{has, is_wait_nego, is_remote_offer, IsValid}

-- An agent that can go into a state.
pub record CanEnter (s : State) (agent : Agent) : Type 0 where
  pub supported : Each IsSupported agent.handler agent.handlers
  pub usable :
      is_remote_offer s ≡ false → is_negotiated s ≡ false → AllUsable agent.handler agent.handlers
  pub described :
      (is_wait_nego s || is_negotiated s || has agent.prev_sdp) ≡ true
      → has agent.local_description ≡ true
  pub offered : is_remote_offer s ≡ true → has agent.remote_description ≡ true
  pub known : Below agent.hids agent.handlers
  pub placed : Below agent.hids agent.offer_handlers

marked-IsSupported :
    (agent : Agent) (offer : List ℕ)
    → Each IsSupported agent.handler agent.handlers
    → Each IsSupported (mark_negotiated offer agent.handler) agent.handlers
marked-IsSupported agent offer all =
    mark_negotiated-Each IsSupported offer agent.handlers agent.handler (λ h supported. supported)
      all

committed-IsValid :
    (agent : Agent) (handler : ℕ → Handler)
    → CanEnter negotiated agent
    → Each IsSupported handler agent.handlers
    → IsValid (record agent {
      state = negotiated;
      handler = handler;
      handlers = remove_disabled handler agent.handlers;
    })
committed-IsValid agent handler c all = record {
  supported = remove_disabled-Each IsSupported handler handler agent.handlers all;
  usable = λ h. remove_disabled-AllUsable handler agent.handlers all;
  described = λ h. c.described refl;
  offered = λ h. absurd (ground arith);
  known = remove_disabled-Below agent.hids handler agent.handlers c.known;
  placed = c.placed;
}

pub new_state-IsValid : (s : State) (agent : Agent) → CanEnter s agent → IsValid (new_state agent s)
unfolding new_state commit
new_state-IsValid unnegotiated agent c = record {
  supported = c.supported;
  usable = λ h. c.usable refl refl;
  described = c.described;
  offered = c.offered;
  known = c.known;
  placed = tt;
}
new_state-IsValid local_offer agent c = record {
  supported = c.supported;
  usable = λ h. c.usable refl refl;
  described = c.described;
  offered = c.offered;
  known = c.known;
  placed = c.placed;
}
new_state-IsValid wait_nego agent c = record {
  supported = c.supported;
  usable = λ h. c.usable refl refl;
  described = c.described;
  offered = c.offered;
  known = c.known;
  placed = c.placed;
}
new_state-IsValid remote_offer agent c = record {
  supported = c.supported;
  usable = λ h. absurd (ground arith);
  described = c.described;
  offered = c.offered;
  known = c.known;
  placed = c.placed;
}
new_state-IsValid negotiated agent c = elim (Bool-cases (is_local_offer agent.state)) [
  | inl cancelled ↦ rw cancelled (committed-IsValid agent agent.handler c c.supported)
  | inr agreed ↦ rw agreed (
      committed-IsValid agent (mark_negotiated agent.offer_handlers agent.handler) c
        (marked-IsSupported agent agent.offer_handlers c.supported))
]
