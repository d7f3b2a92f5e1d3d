-- ===== src/Tests/SdpSession.antt =====
-- kmssdpsession.c: an exchange of two media, of which the answerer has one handler, and a new one that
-- rejects the second.
use Prim.Native.String.{String}
use kms_core.Prelude.{ℕ, refl, true, false, none, [], ◌∷◌, arith}
use kms_core.SdpAgent.{unnegotiated, Handler, Agent}
use kms_core.SdpAgent.Offers.{OfferRun}
use kms_core.SdpAgent.Answering.{AnswerRun}
use kms_core.SdpAgent.Invariant.{IsValid}
use kms_core.SdpSession.{SdpSession}
use kms_core.SdpSession.Exchange.{Exchanged, generate_offer-process_answer}

abbrev fresh : Handler
fresh = record { negotiated = false; disabled = false; unsupported = false; rejected = false }

abbrev new_agent : Agent
new_agent = record {
  state = unnegotiated;
  handlers = 0 ∷ 1 ∷ [];
  offer_handlers = [];
  handler = λ id. fresh;
  hids = 2;
  local = none;
  remote = none;
  local_description = none;
  remote_description = none;
  prev_sdp = none;
}

abbrev new_session : SdpSession
new_session = record { agent = new_agent; local_sdp = none; remote_sdp = none; neg_sdp = none }

abbrev other_session : SdpSession
other_session = record new_session { agent = record new_agent { handlers = 0 ∷ []; hids = 1 } }

other_agent-IsValid : IsValid other_session.agent
other_agent-IsValid = record {
  supported = (refl, tt);
  usable = λ h. (λ k. refl, tt);
  described = λ h. absurd (ground arith);
  offered = λ h. absurd (ground arith);
  known = omega arith;
  placed = omega arith;
}

abbrev offering : OfferRun
offering = record {
  prepared = true;
  preprocessed = true;
  offered = true;
  equal = false;
  completed = true;
  ntp_time = "7";
  incremented = "8";
}

abbrev answering : AnswerRun
answering = record {
  prepared = true;
  same_media = λ id index. true;
  manages = λ id index. true;
  fits_groups = λ id index. true;
  agreed = λ id index. true;
  answers = λ id index. true;
  required = λ index. false;
  rejects = λ index. false;
  accepted = λ index. true;
  added = λ index. true;
  postprocessed = true;
  ntp_time = "9";
}

abbrev one_version : String → ℕ
one_version s = 1

generate_offer-process_answer_example :
    Exchanged one_version new_session other_session offering answering (9 ∷ 11 ∷ []) (9 ∷ 0 ∷ [])
generate_offer-process_answer_example =
    generate_offer-process_answer one_version new_session other_session offering answering
      (9 ∷ 11 ∷ []) (9 ∷ 0 ∷ []) refl refl refl other_agent-IsValid
      (record { prepared = refl; preprocessed = refl; offered = refl; completed = refl })
      (record {
        prepared = refl;
        answers = λ id index. refl;
        agreed = λ id index. refl;
        added = λ index. refl;
        postprocessed = refl;
      })
      (λ i. refl) (omega arith) refl refl
