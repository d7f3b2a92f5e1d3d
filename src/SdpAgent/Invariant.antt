-- ===== src/SdpAgent/Invariant.antt =====
-- kmssdpagent.c: what holds of an agent after any calls.
use kms_core.Prelude.{
  [], ℕ, ◌+◌, ◌^◌, ◌<◌, ◌≡◌, refl, inl, inr, Bool, true, false, ◌||◌, Option, none, some, List,
  arith, Bool-cases, ==_refl,
}
use kms_core.SdpAgent.{
  State, unnegotiated, local_offer, remote_offer, wait_nego, negotiated, Handler, Message, Agent,
  mem,
}
use kms_core.SdpAgent.Slots.{Each, IsUsable, AllUsable}
use kms_core.SdpAgent.Usable.{
  IsSupported, Below, put-Each, put_new-Each, append-Each, remove_handler-Each,
  remove_handler-Below,
}
use kms_core.SdpAgent.Operations.{
  is_negotiated, can_manipulate, put, append_media_handler, add_proto_handler, remove_proto_handler,
}
use kms_core.SdpAgent.Choosing.{HasRoom, append_media_handler-Finds}
use kms_core.SdpAgent.Placing.{ids_for}
use kms_core.SdpAgent.Steps.{Operation, adding, answering}

abbrev pub has : Option Message → Bool
has none = false
has (some m) = true

abbrev pub is_wait_nego : State → Bool
is_wait_nego wait_nego = true
is_wait_nego _ = false

abbrev pub is_remote_offer : State → Bool
is_remote_offer remote_offer = true
is_remote_offer _ = false

-- A state in which a local description has been set.
abbrev pub needs_local : Agent → Bool
needs_local agent = is_wait_nego agent.state || is_negotiated agent.state || has agent.prev_sdp

-- What holds of an agent between two calls. While an offer of the remote side is open, a removed
-- handler may wait again for another media.
pub record IsValid (agent : Agent) : Type 0 where
  pub supported : Each IsSupported agent.handler agent.handlers
  pub usable : is_remote_offer agent.state ≡ false → AllUsable agent.handler agent.handlers
  pub described : needs_local agent ≡ true → has agent.local_description ≡ true
  pub offered : is_remote_offer agent.state ≡ true → has agent.remote_description ≡ true
  pub known : Below agent.hids agent.handlers
  pub placed : Below agent.hids agent.offer_handlers

abbrev pub ports_of : Option Message → List ℕ
ports_of none = []
ports_of (some m) = m.ports

-- No media handler is added that rejects its media, and the ids do not wrap around.
abbrev pub Fits : Agent → Operation → Type 0
Fits agent (adding p r a) = (r ≡ false) × (agent.hids + 1 < 2 ^ 32)
Fits agent (answering run) =
    ((i : ℕ) → run.rejects i ≡ false)
    × (agent.hids + ids_for (ports_of agent.remote_description) < 2 ^ 32)
Fits agent _ = Unit

pub IsValid-HasRoom :
    (n : ℕ) (agent : Agent) → IsValid agent → agent.hids + n < 2 ^ 32 → HasRoom n agent
IsValid-HasRoom n agent v room = record {
  supported = v.supported;
  known = v.known;
  placed = v.placed;
  room = room;
}

append_media_handler-AllUsable :
    (agent : Agent) (a : Bool)
    → Below agent.hids agent.handlers
    → AllUsable agent.handler agent.handlers
    → AllUsable
        (append_media_handler agent false a).0.handler
        (append_media_handler agent false a).0.handlers
unfolding append_media_handler
append_media_handler-AllUsable agent false below all = all
append_media_handler-AllUsable agent true below all =
    let fresh : Handler = record {
      negotiated = false;
      disabled = false;
      unsupported = false;
      rejected = false;
    } in
    append-Each IsUsable (put agent.handler agent.hids fresh) agent.handlers agent.hids
      (put_new-Each IsUsable agent.handler agent.hids fresh agent.handlers below all)
      (λ waits. rw (==_refl agent.hids) refl)

appending-IsValid :
    (agent : Agent) (a : Bool)
    → agent.hids + 1 < 2 ^ 32
    → is_remote_offer agent.state ≡ false
    → IsValid agent
    → IsValid (append_media_handler agent false a).0
appending-IsValid agent a room no_offer v =
    let f = append_media_handler-Finds 0 agent a (IsValid-HasRoom 1 agent v room) in
    record {
      supported = f.room.supported;
      usable = λ h. append_media_handler-AllUsable agent a v.known (v.usable no_offer);
      described = rw f.keeps.state (rw f.keeps.local_description (rw f.keeps.prev_sdp v.described));
      offered = rw f.keeps.state (rw f.keeps.remote_description v.offered);
      known = f.room.known;
      placed = f.room.placed;
    }

pub manipulated : (s : State) → can_manipulate s ≡ true → is_remote_offer s ≡ false
manipulated unnegotiated h = refl
manipulated negotiated h = refl
manipulated local_offer h = refl
manipulated wait_nego h = refl
manipulated remote_offer h = absurd (ground arith)

pub adding-IsValid :
    (agent : Agent) (p a : Bool)
    → agent.hids + 1 < 2 ^ 32
    → IsValid agent
    → IsValid (add_proto_handler agent p false a).0
unfolding add_proto_handler
adding-IsValid agent false a room v = v
adding-IsValid agent true a room v = elim (Bool-cases (can_manipulate agent.state)) [
  | inl can ↦ rw can (appending-IsValid agent a room (manipulated agent.state can) v)
  | inr cannot ↦ rw cannot v
]

pub removing-IsValid :
    (agent : Agent) (hid : ℕ) → IsValid agent → IsValid (remove_proto_handler agent hid).0
unfolding remove_proto_handler
removing-IsValid agent hid v = elim (Bool-cases (can_manipulate agent.state)) [
  | inr cannot ↦ rw cannot v
  | inl can ↦ rw can (elim (Bool-cases (mem hid agent.handlers || mem hid agent.offer_handlers)) [
    | inr unknown ↦ rw unknown v
    | inl known ↦ rw known (elim (Bool-cases (agent.handler hid).negotiated) [
      | inl old ↦
          let out : Handler = record (agent.handler hid) { disabled = true; negotiated = true } in
          rw old (record {
            supported =
                put-Each IsSupported agent.handler hid out agent.handlers (λ h. h) v.supported;
            usable = λ h.
                put-Each IsUsable agent.handler hid out agent.handlers
                  (λ u waits. absurd (ground arith)) (v.usable h);
            described = v.described;
            offered = v.offered;
            known = v.known;
            placed = v.placed;
          })
      | inr new ↦ rw new (record {
        supported = remove_handler-Each IsSupported agent.handler hid agent.handlers v.supported;
        usable = λ h. remove_handler-Each IsUsable agent.handler hid agent.handlers (v.usable h);
        described = v.described;
        offered = v.offered;
        known = remove_handler-Below agent.hids hid agent.handlers v.known;
        placed = v.placed;
      })
    ])
  ])
]
