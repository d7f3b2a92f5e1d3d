-- ===== src/SdpAgent/Descriptions.antt =====
-- kmssdpagent.c: what holds of an agent after any calls, for those that take it along the negotiation.
use Prim.Native.String.{String}
use kms_core.Prelude.{
  ◌+◌, ◌<◌, ◌^◌, ◌∙◌, true, false, ℕ, ◌≡◌, refl, inl, inr, Bool, some, arith, Bool-cases,
  Option-cases,
}
use kms_core.SdpAgent.{
  State, unnegotiated, local_offer, remote_offer, wait_nego, negotiated, Message, Agent,
}
use kms_core.SdpAgent.Operations.{
  same_session, is_none, new_state, is_local_offer, cancel_offer, finish, local_answer,
  set_local_description,
}
use kms_core.SdpAgent.Answering.{AnswerRun, with_session, create_answer, answer_medias}
use kms_core.SdpAgent.Placing.{ids_for, answer_medias-Places}
use kms_core.SdpAgent.Endings.{finish_runs}
use kms_core.SdpAgent.Invariant.{is_remote_offer, ports_of, IsValid, IsValid-HasRoom}
use kms_core.SdpAgent.Committing.{new_state-IsValid}

offered_not_remote : (s : State) → is_local_offer s ≡ true → is_remote_offer s ≡ false
offered_not_remote local_offer h = refl
offered_not_remote unnegotiated h = refl
offered_not_remote remote_offer h = absurd (ground arith)
offered_not_remote wait_nego h = refl
offered_not_remote negotiated h = refl

pub cancelling-IsValid : (agent : Agent) → IsValid agent → IsValid (cancel_offer agent).0
unfolding cancel_offer
cancelling-IsValid agent v = elim (Bool-cases (is_local_offer agent.state)) [
  | inr other ↦ rw other v
  | inl offered ↦
      let no_offer = offered_not_remote agent.state offered in
      rw offered (elim (Option-cases agent.prev_sdp) [
        | inl first ↦ rw first (
            new_state-IsValid unnegotiated agent (record {
              supported = v.supported;
              usable = λ h k. v.usable no_offer;
              described = λ h. ground (arith, v.described);
              offered = λ h. absurd (ground arith);
              known = v.known;
              placed = v.placed;
            }))
        | inr (sdp, next) ↦ rw next (
            new_state-IsValid negotiated agent (record {
              supported = v.supported;
              usable = λ h k. v.usable no_offer;
              described = λ h. ground (arith, v.described);
              offered = λ h. absurd (ground arith);
              known = v.known;
              placed = v.placed;
            }))
      ])
]

pub session-IsValid :
    (agent : Agent) (ntp_time : String) → IsValid agent → IsValid (with_session agent ntp_time)
session-IsValid agent ntp_time v = elim (Bool-cases (is_none agent.local)) [
  | inl first ↦ rw first (record {
    supported = v.supported;
    usable = v.usable;
    described = v.described;
    offered = v.offered;
    known = v.known;
    placed = v.placed;
  })
  | inr next ↦ rw next v
]

answered-IsValid :
    (agent after : Agent) (run : AnswerRun) (m : Message) (ok : Bool)
    → agent.state ≡ remote_offer
    → ((i : ℕ) → run.rejects i ≡ false)
    → agent.hids + ids_for m.ports < 2 ^ 32
    → IsValid agent
    → answer_medias run agent 0 m.ports ≡ some (after, ok)
    → IsValid after
answered-IsValid agent after run m ok at takes room v ran =
    let (keeps, ready, placed) =
      answer_medias-Places run m.ports 0 agent after ok takes
        (IsValid-HasRoom (ids_for m.ports) agent v room) (omega arith) ran in
    record {
      supported = ready.supported;
      usable = λ h. absurd (ground (arith, keeps.state));
      described = rw keeps.state (rw keeps.local_description (rw keeps.prev_sdp v.described));
      offered = rw keeps.state (rw keeps.remote_description v.offered);
      known = ready.known;
      placed = ready.placed;
    }

pub session_hids :
    (agent : Agent) (ntp_time : String) → (with_session agent ntp_time).hids ≡ agent.hids
session_hids agent ntp_time = ground arith

pub session_state :
    (agent : Agent) (ntp_time : String) → (with_session agent ntp_time).state ≡ agent.state
session_state agent ntp_time = ground arith

pub answering-IsValid :
    (agent after : Agent) (run : AnswerRun) (s : State) (ok : Bool)
    → agent.state ≡ s
    → ((i : ℕ) → run.rejects i ≡ false)
    → agent.hids + ids_for (ports_of agent.remote_description) < 2 ^ 32
    → IsValid agent
    → create_answer agent run ≡ some (after, ok)
    → IsValid after
unfolding create_answer
answering-IsValid agent after run remote_offer ok at takes room v ran =
    elim (Bool-cases run.prepared) [
      | inr unprepared ↦
          let e : after ≡ with_session agent run.ntp_time = ground arith in
          rw e (session-IsValid agent run.ntp_time v)
      | inl prepared ↦ elim (Option-cases agent.remote_description) [
        | inl missing ↦ absurd (ground arith)
        | inr (m, set) ↦
            answered-IsValid (with_session agent run.ntp_time) after run m ok
              (session_state agent run.ntp_time ∙ at) takes
              (rw (session_hids agent run.ntp_time) (ground arith))
              (session-IsValid agent run.ntp_time v) (ground arith)
      ]
    ]
answering-IsValid agent after run unnegotiated ok at takes room v ran =
    let e : after ≡ agent = ground arith in rw e v
answering-IsValid agent after run local_offer ok at takes room v ran =
    let e : after ≡ agent = ground arith in rw e v
answering-IsValid agent after run wait_nego ok at takes room v ran =
    let e : after ≡ agent = ground arith in rw e v
answering-IsValid agent after run negotiated ok at takes room v ran =
    let e : after ≡ agent = ground arith in rw e v

pub finish-IsValid :
    (agent after : Agent) (m : Message) (ok : Bool)
    → finish agent m ≡ some (after, ok)
    → IsValid agent
    → IsValid after
finish-IsValid agent after m ok ran v = rw ((finish_runs agent after m ok ran).0) v

pub setting_local-IsValid :
    (agent after : Agent) (m : Message) (s : State) (ok : Bool)
    → agent.state ≡ s
    → IsValid agent
    → set_local_description agent m ≡ some (after, ok)
    → IsValid after
unfolding set_local_description
setting_local-IsValid agent after m local_offer ok at v ran =
    elim (Bool-cases (same_session agent.local m)) [
      | inl same ↦
          let offered : Agent = record agent { local_description = some m } in
          let e : after ≡ new_state offered wait_nego = ground arith in
          rw e (
            new_state-IsValid wait_nego offered (record {
              supported = v.supported;
              usable = λ h k. v.usable (ground arith);
              described = λ h. refl;
              offered = λ h. absurd (ground arith);
              known = v.known;
              placed = v.placed;
            }))
      | inr other ↦ let e : after ≡ agent = ground arith in rw e v
    ]
setting_local-IsValid agent after m remote_offer ok at v ran =
    elim (Bool-cases (same_session agent.local m)) [
      | inl same ↦
          let agreed : Agent = record agent { local_description = some m; prev_sdp = some m } in
          finish-IsValid (local_answer agent m) after m ok (ground arith) (
            new_state-IsValid negotiated agreed (record {
              supported = v.supported;
              usable = λ h k. absurd (ground arith);
              described = λ h. refl;
              offered = λ h. absurd (ground arith);
              known = v.known;
              placed = v.placed;
            }))
      | inr other ↦ let e : after ≡ agent = ground arith in rw e v
    ]
setting_local-IsValid agent after m unnegotiated ok at v ran =
    let e : after ≡ agent = ground arith in rw e v
setting_local-IsValid agent after m wait_nego ok at v ran =
    let e : after ≡ agent = ground arith in rw e v
setting_local-IsValid agent after m negotiated ok at v ran =
    let e : after ≡ agent = ground arith in rw e v
