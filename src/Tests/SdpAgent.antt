-- ===== src/Tests/SdpAgent.antt =====
-- kmssdpagent.c with two media handlers, one of which has been removed since the negotiation, and a
-- third that waits.
use Prim.Native.String.{String}
use kms_core.Prelude.{
  ℕ, zero, suc, ◌≤◌, ◌<◌, ◌≡◌, refl, true, false, none, some, [], ◌∷◌, arith, length,
}
use kms_core.SdpAgent.{
  remote_offer, local_offer, wait_nego, negotiated, Handler, Message, Agent, merge_offer_handlers,
}
use kms_core.SdpAgent.Slots.{AllUsable}
use kms_core.SdpAgent.Merging.{Merges, merge_offer_handlers-Merges}
use kms_core.SdpAgent.Operations.{
  local_answer, set_local_description, remote_answer, set_remote_description, cancel_offer,
  new_state, commit, remove_disabled,
}
use kms_core.SdpAgent.Offers.{OfferRun}
use kms_core.SdpAgent.Completing.{
  Cooperates, Completes, create_answer-Completes, create_answer-finishes,
}
use kms_core.SdpAgent.Answering.{
  AnswerRun, create_answer, answer_medias, create_media_answer, select_handler, get_proper_handler,
  answer_with, answer_by, register, get_handler_for_media, find_handler,
}
use kms_core.SdpAgent.Transitions.{step-Ends}
use kms_core.SdpAgent.Steps.{cancelling, step, Ends}
use kms_core.SdpAgent.Answers.{Negotiated, set_remote_description-answers}
use kms_core.SdpAgent.Invariant.{IsValid}
use kms_core.SdpAgent.Offering.{Offers, create_offer-Offers, step-IsValid}

abbrev in_use : Handler
in_use = record { negotiated = true; disabled = false; unsupported = false; rejected = false }

abbrev removed : Handler
removed = record { negotiated = true; disabled = true; unsupported = false; rejected = false }

abbrev waiting : Handler
waiting = record { negotiated = false; disabled = false; unsupported = false; rejected = false }

abbrev store_of_three : ℕ → Handler
store_of_three zero = in_use
store_of_three (suc zero) = removed
store_of_three (suc (suc n)) = waiting

abbrev answer : Message
answer = record { sess_id = "7"; sess_version = "1"; ports = 9 ∷ 9 ∷ [] }

abbrev after_negotiation : Agent
after_negotiation = record {
  state = negotiated;
  handlers = 0 ∷ 1 ∷ 2 ∷ [];
  offer_handlers = 0 ∷ 1 ∷ [];
  handler = store_of_three;
  hids = 3;
  local = some (record { id = "7"; version = "1" });
  remote = some (record { id = "7"; version = "1" });
  local_description = some answer;
  remote_description = some answer;
  prev_sdp = some answer;
}

all_usable : AllUsable store_of_three (0 ∷ 1 ∷ 2 ∷ [])
all_usable = (λ h. ground arith, (λ h. ground arith, (λ h. refl, tt)))

after_negotiation-IsValid : IsValid after_negotiation
after_negotiation-IsValid = record {
  supported = (refl, (refl, (refl, tt)));
  usable = λ h. all_usable;
  described = λ h. refl;
  offered = λ h. absurd (ground arith);
  known = omega arith;
  placed = omega arith;
}

merge_offer_handlers-Merges_example :
    (after : Agent) × (merge_offer_handlers 3 after_negotiation ≡ some after)
    × Merges after_negotiation after
merge_offer_handlers-Merges_example = merge_offer_handlers-Merges after_negotiation refl all_usable

abbrev good_run : OfferRun
good_run = record {
  prepared = true;
  preprocessed = true;
  offered = true;
  equal = false;
  completed = true;
  ntp_time = "7";
  incremented = "2";
}

create_offer-Offers_example : Offers after_negotiation good_run
create_offer-Offers_example =
    create_offer-Offers after_negotiation good_run after_negotiation-IsValid

abbrev one_version : String → ℕ
one_version s = 1

abbrev offering_agent : Agent
offering_agent = record after_negotiation { state = local_offer }

abbrev cancelled_agent : Agent
cancelled_agent = record after_negotiation { handlers = 0 ∷ 2 ∷ [] }

cancelled : step one_version offering_agent cancelling ≡ some (cancelled_agent, true)
unfolding step cancel_offer new_state commit remove_disabled
cancelled = refl

offering_agent-IsValid : IsValid offering_agent
offering_agent-IsValid = record {
  supported = (refl, (refl, (refl, tt)));
  usable = λ h. all_usable;
  described = λ h. refl;
  offered = λ h. absurd (ground arith);
  known = omega arith;
  placed = omega arith;
}

step-Ends_example : Ends cancelling (local_offer, true) (negotiated, true) true
step-Ends_example = step-Ends one_version offering_agent cancelled_agent cancelling true cancelled

step-IsValid_example : IsValid cancelled_agent
step-IsValid_example =
    step-IsValid one_version offering_agent cancelled_agent cancelling true tt
      offering_agent-IsValid cancelled

abbrev awaiting_agent : Agent
awaiting_agent = record after_negotiation { state = wait_nego; remote = none }

set_remote_description-answers_example :
    (length answer.ports ≤ length awaiting_agent.offer_handlers
      → (set_remote_description one_version awaiting_agent answer
          ≡ some (remote_answer awaiting_agent answer, true))
        × Negotiated awaiting_agent (remote_answer awaiting_agent answer) answer)
    × (length awaiting_agent.offer_handlers < length answer.ports
        → set_remote_description one_version awaiting_agent answer ≡ none)
set_remote_description-answers_example =
    set_remote_description-answers one_version awaiting_agent answer refl refl

-- An offer with a third media, and a client that has a handler for each.
abbrev offer : Message
offer = record { sess_id = "9"; sess_version = "1"; ports = 9 ∷ 0 ∷ 9 ∷ [] }

abbrev offered_agent : Agent
offered_agent = record after_negotiation {
  state = remote_offer;
  local = none;
  remote_description = some offer;
}

abbrev helpful : AnswerRun
helpful = record {
  prepared = true;
  same_media = λ id index. true;
  manages = λ id index. true;
  fits_groups = λ id index. true;
  agreed = λ id index. true;
  answers = λ id index. true;
  required = λ index. true;
  rejects = λ index. false;
  accepted = λ index. true;
  added = λ index. true;
  postprocessed = true;
  ntp_time = "8";
}

offered_agent-IsValid : IsValid offered_agent
offered_agent-IsValid = record {
  supported = (refl, (refl, (refl, tt)));
  usable = λ h. absurd (ground arith);
  described = λ h. refl;
  offered = λ h. refl;
  known = omega arith;
  placed = omega arith;
}

helpful-Cooperates : Cooperates helpful
helpful-Cooperates = record {
  prepared = refl;
  answers = λ id index. refl;
  agreed = λ id index. refl;
  added = λ index. refl;
  postprocessed = refl;
}

create_answer-Completes_example : Completes offered_agent helpful (9 ∷ 0 ∷ 9 ∷ [])
create_answer-Completes_example =
    create_answer-Completes offered_agent helpful offer (9 ∷ 0 ∷ 9 ∷ []) offered_agent-IsValid refl
      refl helpful-Cooperates (λ i. refl) (omega arith) refl

-- The handler that waited takes the third media.
abbrev answered_agent : Agent
answered_agent = record offered_agent {
  local = some (record { id = "8"; version = "8" });
  offer_handlers = 0 ∷ 1 ∷ 2 ∷ [];
}

answered_run : create_answer offered_agent helpful ≡ some (answered_agent, true)
unfolding create_answer answer_medias create_media_answer select_handler get_proper_handler
    answer_with answer_by register get_handler_for_media find_handler
answered_run = refl

abbrev description : Message
description = record { sess_id = "8"; sess_version = "8"; ports = 9 ∷ 0 ∷ 9 ∷ [] }

create_answer-finishes_example :
    (set_local_description answered_agent description
      ≡ some (local_answer answered_agent description, true))
    × ((local_answer answered_agent description).state ≡ negotiated)
create_answer-finishes_example =
    create_answer-finishes offered_agent answered_agent helpful offer description
      offered_agent-IsValid refl (λ i. refl) (omega arith) answered_run refl (omega arith)
