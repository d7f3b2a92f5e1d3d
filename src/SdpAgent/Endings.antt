-- ===== src/SdpAgent/Endings.antt =====
-- kmssdpagent.c: how the calls but the making of an offer end.
use Prim.Native.String.{String}
use kms_core.Prelude.{
  ℕ, ◌≡◌, ◌∙◌, refl, ap, inl, inr, Bool, true, ◌||◌, ◌^◌, ltb, some, arith, Bool-cases,
  Option-cases,
}
use kms_core.SdpAgent.{
  State, unnegotiated, local_offer, remote_offer, wait_nego, negotiated, Message, Agent, mem,
}
use kms_core.SdpAgent.Answering.{AnswerRun, with_session, create_answer}
use kms_core.SdpAgent.Unmoved.{answer_medias_state, with_session_state}
use kms_core.SdpAgent.Steps.{
  Operation, adding, removing, cancelling, answering, setting_local, setting_remote, is_some,
  stands, Arrow, adds, removes, cancels_first, cancels_next, answers, sets_offer, sets_answer,
  gets_answer, gets_first, gets_next, Ends,
}
use kms_core.SdpAgent.Operations.{
  can_manipulate, same_session, is_none, continues, commit, new_state, add_proto_handler,
  remove_proto_handler, cancel_offer, take_remote, finish, local_answer, remote_answer,
  set_local_description, set_remote_description,
}

commit_state : (agent : Agent) (s : State) → (commit agent s).state ≡ agent.state
unfolding commit
commit_state agent unnegotiated = refl
commit_state agent local_offer = refl
commit_state agent remote_offer = refl
commit_state agent wait_nego = refl
commit_state agent negotiated = refl

pub done :
    {op : Operation} {before after s t : State × Bool} {ok : Bool}
    → before ≡ s
    → after ≡ t
    → ok ≡ true
    → Arrow op s t
    → Ends op before after ok
done at to did arrow = inl (did, rw (at, to) arrow)

pub adding-Ends :
    (agent : Agent) (p r a : Bool)
    → Ends
        (adding p r a)
        (stands agent)
        (stands (add_proto_handler agent p r a).0)
        (is_some (add_proto_handler agent p r a).1)
unfolding add_proto_handler
adding-Ends agent p r a = elim (Bool-cases (can_manipulate agent.state)) [
  | inl can ↦ elim (Bool-cases p) [
    | inl proto ↦ elim (Bool-cases a) [
      | inl accepted ↦ elim (Bool-cases (ltb agent.hids (2 ^ 31))) [
        | inl small ↦ done refl (ground arith) (ground arith) (adds p r a (stands agent) can)
        | inr negative ↦ inr (ground arith, ground arith)
      ]
      | inr refused ↦ inr (ground arith, ground arith)
    ]
    | inr missing ↦ inr (ground arith, ground arith)
  ]
  | inr cannot ↦ inr (ground arith, ground arith)
]

pub removing-Ends :
    (agent : Agent) (hid : ℕ)
    → Ends
        (removing hid)
        (stands agent)
        (stands (remove_proto_handler agent hid).0)
        (remove_proto_handler agent hid).1
unfolding remove_proto_handler
removing-Ends agent hid = elim (Bool-cases (can_manipulate agent.state)) [
  | inl can ↦ elim (Bool-cases (mem hid agent.handlers || mem hid agent.offer_handlers)) [
    | inl known ↦ done refl (ground arith) (ground arith) (removes hid (stands agent) can)
    | inr unknown ↦ inr (ground arith, ground arith)
  ]
  | inr cannot ↦ inr (ground arith, ground arith)
]

pub cancelling-Ends :
    (agent : Agent) (s : State)
    → agent.state ≡ s
    → Ends cancelling (stands agent) (stands (cancel_offer agent).0) (cancel_offer agent).1
unfolding cancel_offer new_state commit
cancelling-Ends agent local_offer at = elim (Option-cases agent.prev_sdp) [
  | inl first ↦ done (rw (at, first) refl) (ground arith) (ground arith) cancels_first
  | inr (sdp, next) ↦ done (rw (at, next) refl) (ground arith) (ground arith) cancels_next
]
cancelling-Ends agent unnegotiated at = inr (ground arith, ground arith)
cancelling-Ends agent remote_offer at = inr (ground arith, ground arith)
cancelling-Ends agent wait_nego at = inr (ground arith, ground arith)
cancelling-Ends agent negotiated at = inr (ground arith, ground arith)

pub finish_runs :
    (agent after : Agent) (m : Message) (ok : Bool)
    → finish agent m ≡ some (after, ok)
    → (after ≡ agent) × (ok ≡ true)
unfolding finish
finish_runs agent after m ok ran = ground arith

pub setting_local-Ends :
    (agent after : Agent) (m : Message) (s : State) (ok : Bool)
    → agent.state ≡ s
    → set_local_description agent m ≡ some (after, ok)
    → Ends (setting_local m) (stands agent) (stands after) ok
unfolding set_local_description new_state commit
setting_local-Ends agent after m local_offer ok at ran =
    elim (Bool-cases (same_session agent.local m)) [
      | inl same ↦ done (rw at refl) (ground arith) (ground arith) (sets_offer m (stands agent).1)
      | inr other ↦ inr (ground arith, ground arith)
    ]
setting_local-Ends agent after m remote_offer ok at ran =
    elim (Bool-cases (same_session agent.local m)) [
      | inl same ↦
          let (e, did) = finish_runs (local_answer agent m) after m ok (ground arith) in
          done (rw at refl) (ap (λ a. stands a) e) did (sets_answer m (stands agent).1)
      | inr other ↦ inr (ground arith, ground arith)
    ]
setting_local-Ends agent after m unnegotiated ok at ran = inr (ground arith, ground arith)
setting_local-Ends agent after m wait_nego ok at ran = inr (ground arith, ground arith)
setting_local-Ends agent after m negotiated ok at ran = inr (ground arith, ground arith)

pub setting_remote-Ends :
    (strtoull : String → ℕ) (agent after : Agent) (m : Message) (s : State) (ok : Bool)
    → agent.state ≡ s
    → set_remote_description strtoull agent m ≡ some (after, ok)
    → Ends (setting_remote m) (stands agent) (stands after) ok
unfolding set_remote_description new_state commit take_remote
setting_remote-Ends strtoull agent after m wait_nego ok at ran =
    elim (Bool-cases (is_none agent.remote || continues strtoull agent.remote m)) [
      | inl valid ↦
          let (e, did) = finish_runs (remote_answer agent m) after m ok (ground arith) in
          done (rw at refl) (ap (λ a. stands a) e) did (gets_answer m (stands agent).1)
      | inr invalid ↦ inr (ground arith, ground arith)
    ]
setting_remote-Ends strtoull agent after m unnegotiated ok at ran =
    done (rw at refl) (ground arith) (ground arith) (gets_first m (stands agent).1)
setting_remote-Ends strtoull agent after m negotiated ok at ran =
    elim (Bool-cases (continues strtoull agent.remote m)) [
      | inl valid ↦ done (rw at refl) (ground arith) (ground arith) (gets_next m (stands agent).1)
      | inr invalid ↦ inr (ground arith, ground arith)
    ]
setting_remote-Ends strtoull agent after m local_offer ok at ran = inr (ground arith, ground arith)
setting_remote-Ends strtoull agent after m remote_offer ok at ran = inr (ground arith, ground arith)

pub answering-Ends :
    (agent after : Agent) (run : AnswerRun) (s : State) (ok : Bool)
    → agent.state ≡ s
    → create_answer agent run ≡ some (after, ok)
    → Ends (answering run) (stands agent) (stands after) ok
unfolding create_answer
answering-Ends agent after run remote_offer ok at ran = elim (Bool-cases run.prepared) [
  | inr unprepared ↦ inr (ground arith, ground (arith, with_session_state agent run))
  | inl prepared ↦ elim (Option-cases agent.remote_description) [
    | inl missing ↦ absurd (ground arith)
    | inr (m, set) ↦
        let same =
          answer_medias_state run m.ports 0 (with_session agent run.ntp_time) after ok
            (ground arith)
          ∙ with_session_state agent run in
        elim (Bool-cases ok) [
          | inl did ↦ done (rw at refl) (same ∙ rw at refl) did (answers run (stands agent).1)
          | inr failed ↦ inr (failed, same)
        ]
  ]
]
answering-Ends agent after run unnegotiated ok at ran = inr (ground arith, ground arith)
answering-Ends agent after run local_offer ok at ran = inr (ground arith, ground arith)
answering-Ends agent after run wait_nego ok at ran = inr (ground arith, ground arith)
answering-Ends agent after run negotiated ok at ran = inr (ground arith, ground arith)
