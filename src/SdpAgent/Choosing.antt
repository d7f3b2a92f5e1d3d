-- ===== src/SdpAgent/Choosing.antt =====
-- kmssdpagent.c: what the choice of a handler for a media leaves alone, and what it adds.
use kms_core.Prelude.{
  ℕ, suc, ◌+◌, ◌%◌, ◌^◌, ◌<◌, ◌≡◌, ◌∙◌, refl, inl, inr, Bool, true, false, Option, none, some, List,
  [], ◌∷◌, arith, ltb, Bool-cases, Option-cases, ==_refl,
}
use kms_core.SdpAgent.{Handler, Agent, mem}
use kms_core.SdpAgent.Slots.{Each}
use kms_core.SdpAgent.Usable.{
  IsSupported, Below, put_new-Each, append-Each, append-Below, Below-le, Below-not_mem,
}
use kms_core.SdpAgent.Operations.{as_gint, new_handler, append_media_handler}
use kms_core.SdpAgent.Answering.{
  AnswerRun, find_handler, request_handler, get_handler_for_media, create_reject_media_handler,
  or_reject,
}

-- What making an answer leaves alone.
pub record Keeps (before after : Agent) : Type 0 where
  pub state : after.state ≡ before.state
  pub local : after.local ≡ before.local
  pub local_description : after.local_description ≡ before.local_description
  pub remote_description : after.remote_description ≡ before.remote_description
  pub prev_sdp : after.prev_sdp ≡ before.prev_sdp

-- An agent whose ids suffice for `n` more handlers.
pub record HasRoom (n : ℕ) (agent : Agent) : Type 0 where
  pub supported : Each IsSupported agent.handler agent.handlers
  pub known : Below agent.hids agent.handlers
  pub placed : Below agent.hids agent.offer_handlers
  pub room : agent.hids + n < 2 ^ 32

pub Keeps-trans : {a b c : Agent} → Keeps a b → Keeps b c → Keeps a c
Keeps-trans p q = record {
  state = q.state ∙ p.state;
  local = q.local ∙ p.local;
  local_description = q.local_description ∙ p.local_description;
  remote_description = q.remote_description ∙ p.remote_description;
  prev_sdp = q.prev_sdp ∙ p.prev_sdp;
}

pub Keeps-refl : (a : Agent) → Keeps a a
Keeps-refl a = record {
  state = refl;
  local = refl;
  local_description = refl;
  remote_description = refl;
  prev_sdp = refl;
}

-- A handler that has its id from the agent and is in no slot yet.
abbrev pub IsNew : Agent → Agent → Option ℕ → Type 0
IsNew before after none = Unit
IsNew before after (some id) = (id < after.hids) × (mem id before.offer_handlers ≡ false)

-- What looking for a new handler does.
pub record Finds (n : ℕ) (before after : Agent) (found : Option ℕ) : Type 0 where
  pub keeps : Keeps before after
  pub same : after.offer_handlers ≡ before.offer_handlers
  pub room : HasRoom n after
  pub new : IsNew before after found

pub HasRoom-less : (n : ℕ) (agent : Agent) → HasRoom (suc n) agent → HasRoom n agent
HasRoom-less n agent v =
    let less = v.room in
    record { supported = v.supported; known = v.known; placed = v.placed; room = omega arith }

new_handler-HasRoom :
    (n : ℕ) (agent : Agent) (rejects : Bool)
    → HasRoom (suc n) agent
    → HasRoom n (new_handler agent rejects)
new_handler-HasRoom n agent rejects v =
    let bound = v.room in
    let next : (agent.hids + 1) % 2 ^ 32 ≡ agent.hids + 1 = omega arith in
    record {
      supported =
          put_new-Each IsSupported agent.handler agent.hids _ agent.handlers v.known v.supported;
      known = rw next (Below-le agent.hids (agent.hids + 1) agent.handlers (omega arith) v.known);
      placed =
          rw next
            (Below-le agent.hids (agent.hids + 1) agent.offer_handlers (omega arith) v.placed);
      room = rw next (omega arith);
    }

-- The next id alone is used up.
skip_id-HasRoom :
    (n : ℕ) (agent : Agent)
    → HasRoom (suc n) agent
    → HasRoom n (record agent { hids = (agent.hids + 1) % 2 ^ 32 })
skip_id-HasRoom n agent v =
    let made = new_handler-HasRoom n agent false v in
    record { supported = v.supported; known = made.known; placed = made.placed; room = made.room }

as_gint_new :
    (before after : Agent) (id : ℕ)
    → id < after.hids
    → mem id before.offer_handlers ≡ false
    → IsNew before after (as_gint id)
as_gint_new before after id lt out = elim (Bool-cases (ltb id (2 ^ 31))) [
  | inl small ↦ rw small (lt, out)
  | inr negative ↦ rw negative tt
]

pub append_media_handler-Finds :
    (n : ℕ) (agent : Agent) (accepted : Bool)
    → HasRoom (suc n) agent
    → Finds n agent
        (append_media_handler agent false accepted).0
        (append_media_handler agent false accepted).1
unfolding append_media_handler
append_media_handler-Finds n agent false v = record {
  keeps = record {
    state = refl;
    local = refl;
    local_description = refl;
    remote_description = refl;
    prev_sdp = refl;
  };
  same = refl;
  room = skip_id-HasRoom n agent v;
  new = tt;
}
append_media_handler-Finds n agent true v =
    let made = new_handler-HasRoom n agent false v in
    let bound = v.room in
    let next : (agent.hids + 1) % 2 ^ 32 ≡ agent.hids + 1 = omega arith in
    let lt : agent.hids < (agent.hids + 1) % 2 ^ 32 = omega arith in
    record {
      keeps = record {
        state = refl;
        local = refl;
        local_description = refl;
        remote_description = refl;
        prev_sdp = refl;
      };
      same = refl;
      room = record {
        supported =
            append-Each IsSupported (new_handler agent false).handler agent.handlers agent.hids
              made.supported (rw (==_refl agent.hids) refl);
        known = append-Below ((agent.hids + 1) % 2 ^ 32) agent.hids agent.handlers made.known lt;
        placed = made.placed;
        room = made.room;
      };
      new =
          as_gint_new agent (append_media_handler agent false true).0 agent.hids lt
            (Below-not_mem agent.hids agent.offer_handlers v.placed);
    }

module _ (run : AnswerRun) where
  find_handler-new :
      (handler : ℕ → Handler) (index : ℕ) (offer handlers : List ℕ) (n id : ℕ)
      → Below n handlers
      → find_handler run handler index offer handlers ≡ some id
      → (id < n) × (mem id offer ≡ false)
  unfolding find_handler
  find_handler-new handler index offer [] n id below found = absurd (ground arith)
  find_handler-new handler index offer (other ∷ ids) n id below found =
      ground (arith, find_handler-new handler index offer ids n id below.1)

  request_handler-Finds :
      (n : ℕ) (agent : Agent) (index : ℕ)
      → run.rejects index ≡ false
      → HasRoom (suc n) agent
      → Finds n agent (request_handler run agent index).0 (request_handler run agent index).1
  unfolding request_handler
  request_handler-Finds n agent index takes v = elim (Bool-cases (run.required index)) [
    | inr none_given ↦
        rw none_given (record {
          keeps = Keeps-refl agent;
          same = refl;
          room = HasRoom-less n agent v;
          new = tt;
        })
    | inl given ↦ rw given (rw takes (append_media_handler-Finds n agent (run.accepted index) v))
  ]

  pub get_handler_for_media-Finds :
      (n : ℕ) (agent : Agent) (index : ℕ)
      → run.rejects index ≡ false
      → HasRoom (suc n) agent
      → Finds n agent
          (get_handler_for_media run agent index).0
          (get_handler_for_media run agent index).1
  unfolding get_handler_for_media
  get_handler_for_media-Finds n agent index takes v =
      elim (Option-cases
        (find_handler run agent.handler index agent.offer_handlers agent.handlers)) [
          | inl not_found ↦
              rw (not_found, get_handler_for_media) (request_handler-Finds n agent index takes v)
          | inr (id, found) ↦
              rw (found, get_handler_for_media)
                (record {
                  keeps = Keeps-refl agent;
                  same = refl;
                  room = HasRoom-less n agent v;
                  new =
                      find_handler-new agent.handler index agent.offer_handlers agent.handlers
                        agent.hids id v.known found;
                })
        ]

-- What a choice that is sure to end in a handler does.
pub record Settles (n : ℕ) (before after : Agent) (id : ℕ) : Type 0 where
  pub keeps : Keeps before after
  pub same : after.offer_handlers ≡ before.offer_handlers
  pub room : HasRoom n after
  pub known : id < after.hids
  pub unplaced : mem id before.offer_handlers ≡ false

pub create_reject-Settles :
    (n : ℕ) (agent : Agent)
    → HasRoom (suc n) agent
    → Settles n agent (create_reject_media_handler agent).0 (create_reject_media_handler agent).1
unfolding create_reject_media_handler
create_reject-Settles n agent v =
    let bound = v.room in
    record {
      keeps = record {
        state = refl;
        local = refl;
        local_description = refl;
        remote_description = refl;
        prev_sdp = refl;
      };
      same = refl;
      room = new_handler-HasRoom n agent true v;
      known = omega arith;
      unplaced = Below-not_mem agent.hids agent.offer_handlers v.placed;
    }

pub or_reject-Settles :
    (n : ℕ) (before after : Agent) (found : Option ℕ)
    → Finds (suc n) before after found
    → Settles n before (or_reject (after, found)).0 (or_reject (after, found)).1
unfolding or_reject
or_reject-Settles n before after (some id) f = record {
  keeps = f.keeps;
  same = f.same;
  room = HasRoom-less n after f.room;
  known = f.new.0;
  unplaced = f.new.1;
}
or_reject-Settles n before after none f =
    let s = create_reject-Settles n after f.room in
    record {
      keeps = Keeps-trans f.keeps s.keeps;
      same = s.same ∙ f.same;
      room = s.room;
      known = s.known;
      unplaced = rw (← f.same) s.unplaced;
    }
