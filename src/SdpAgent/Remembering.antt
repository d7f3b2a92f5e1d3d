-- ===== src/SdpAgent/Remembering.antt =====
-- kmssdpagent.c, `set_remote_description`: what holds between two calls stays.
use Prim.Native.String.{String}
use kms_core.Prelude.{true, false, ℕ, ◌≡◌, refl, inl, inr, Bool, ◌||◌, some, arith, Bool-cases}
use kms_core.SdpAgent.{
  State, unnegotiated, local_offer, remote_offer, wait_nego, negotiated, Message, Agent,
}
use kms_core.SdpAgent.Slots.{IsUsable}
use kms_core.SdpAgent.Usable.{IsSupported, update_rejected-Each}
use kms_core.SdpAgent.Operations.{
  is_none, continues, session_of, new_state, remote_answer, take_remote, is_negotiated, commit,
  set_remote_description,
}
use kms_core.SdpAgent.Invariant.{has, is_wait_nego, needs_local, is_remote_offer, IsValid}
use kms_core.SdpAgent.Committing.{CanEnter, new_state-IsValid}
use kms_core.SdpAgent.Descriptions.{finish-IsValid}

-- The remote description is kept before or after the state changes.
remember_first :
    (agent : Agent) (s : State) (m : Message)
    → ◌≡◌ {A = Agent}
        (record (new_state agent s) { remote_description = some m })
        (new_state (record agent { remote_description = some m }) s)
unfolding new_state commit
remember_first agent unnegotiated m = refl
remember_first agent local_offer m = refl
remember_first agent remote_offer m = refl
remember_first agent wait_nego m = refl
remember_first agent negotiated m = refl

-- A description of the remote side can be taken in.
taken-CanEnter :
    (s : State) (agent taken : Agent) (m : Message)
    → taken
      ≡ record (take_remote agent m) { remote_description = some m; prev_sdp = taken.prev_sdp }
    → IsValid agent
    → is_remote_offer agent.state ≡ false
    → ((is_wait_nego s || is_negotiated s || has taken.prev_sdp) ≡ true → needs_local agent ≡ true)
    → CanEnter s taken
unfolding take_remote
taken-CanEnter s agent taken m e v no_offer needs = rw e (record {
  supported =
      update_rejected-Each IsSupported m.ports agent.offer_handlers agent.handlers agent.handler
        (λ h supported. supported) v.supported;
  usable = λ h k.
      update_rejected-Each IsUsable m.ports agent.offer_handlers agent.handlers agent.handler
        (λ h usable. usable) (v.usable no_offer);
  described = λ h. v.described (needs h);
  offered = λ h. refl;
  known = v.known;
  placed = v.placed;
})

remote_answer-IsValid :
    (agent : Agent) (m : Message)
    → agent.state ≡ wait_nego
    → IsValid agent
    → IsValid (remote_answer agent m)
unfolding take_remote
remote_answer-IsValid agent m at v =
    let taken : Agent = record (take_remote agent m) {
      prev_sdp = some m;
      remote_description = some m;
    } in
    rw (remember_first (record (take_remote agent m) { prev_sdp = some m }) negotiated m) (
      new_state-IsValid negotiated taken
        (taken-CanEnter negotiated agent taken m refl v (ground arith) (λ h. ground arith)))

pub setting_remote-IsValid :
    (strtoull : String → ℕ) (agent after : Agent) (m : Message) (s : State) (ok : Bool)
    → agent.state ≡ s
    → IsValid agent
    → set_remote_description strtoull agent m ≡ some (after, ok)
    → IsValid after
unfolding set_remote_description take_remote
setting_remote-IsValid strtoull agent after m wait_nego ok at v ran =
    elim (Bool-cases (is_none agent.remote || continues strtoull agent.remote m)) [
      | inl valid ↦
          finish-IsValid (remote_answer agent m) after m ok (ground arith)
            (remote_answer-IsValid agent m at v)
      | inr invalid ↦ let e : after ≡ agent = ground arith in rw e v
    ]
setting_remote-IsValid strtoull agent after m unnegotiated ok at v ran =
    let met : Agent = record agent { remote = some (session_of m) } in
    let e : after ≡ record (new_state met remote_offer) { remote_description = some m } =
      ground arith in
    rw e (
      rw (remember_first met remote_offer m) (
        new_state-IsValid remote_offer (record met { remote_description = some m })
          (record {
            supported = v.supported;
            usable = λ h k. absurd (ground arith);
            described = λ h. v.described (ground arith);
            offered = λ h. refl;
            known = v.known;
            placed = v.placed;
          })))
setting_remote-IsValid strtoull agent after m negotiated ok at v ran =
    elim (Bool-cases (continues strtoull agent.remote m)) [
      | inl valid ↦
          let taken : Agent = record (take_remote agent m) { remote_description = some m } in
          let e : after ≡ record (new_state (take_remote agent m) remote_offer) {
            remote_description = some m;
          } =
            ground arith in
          rw e (
            rw (remember_first (take_remote agent m) remote_offer m) (
              new_state-IsValid remote_offer taken (
                taken-CanEnter remote_offer agent taken m refl v (ground arith)
                  (λ h. ground arith))))
      | inr invalid ↦ let e : after ≡ agent = ground arith in rw e v
    ]
setting_remote-IsValid strtoull agent after m local_offer ok at v ran =
    let e : after ≡ agent = ground arith in rw e v
setting_remote-IsValid strtoull agent after m remote_offer ok at v ran =
    let e : after ≡ agent = ground arith in rw e v
