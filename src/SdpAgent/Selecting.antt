-- ===== src/SdpAgent/Selecting.antt =====
-- kmssdpagent.c: the handler that answers a media, and its place in the list.
use kms_core.Prelude.{
  ℕ, zero, suc, ◌<◌, ◌≤◌, ◌≡◌, refl, ap, inl, inr, ◌⊎◌, false, Option, none, some, List, [], ◌∷◌,
  ◌==◌, arith, length, get_elem?, Bool-cases, Option-cases,
}
use kms_core.SdpAgent.{Agent, mem}
use kms_core.SdpAgent.Usable.{IsSupported, Below, put-Each}
use kms_core.SdpAgent.Choosing.{
  Keeps, Keeps-refl, HasRoom, HasRoom-less, Finds, or_reject-Settles, get_handler_for_media-Finds,
}
use kms_core.SdpAgent.Answering.{
  AnswerRun, get_handler_for_media, or_reject, replace_slot, replace_offered_handler, renewed,
  get_proper_handler, select_handler,
}

length-replace_slot : (old new : ℕ) (ids : List ℕ) → length (replace_slot old new ids) ≡ length ids
unfolding replace_slot
length-replace_slot old new [] = refl
length-replace_slot old new (id ∷ ids) = ground (arith, length-replace_slot old new ids)

replace_slot-Below :
    (n old new : ℕ) (ids : List ℕ) → new < n → Below n ids → Below n (replace_slot old new ids)
unfolding replace_slot
replace_slot-Below n old new [] lt all = tt
replace_slot-Below n old new (id ∷ ids) lt all = elim (Bool-cases (id == old)) [
  | inl here ↦ rw here (lt, all.1)
  | inr on ↦ rw on (all.0, replace_slot-Below n old new ids lt all.1)
]

Below-get_elem? : (n i id : ℕ) (ids : List ℕ) → Below n ids → get_elem? ids i ≡ some id → id < n
Below-get_elem? n i id [] all at = absurd (ground arith)
Below-get_elem? n zero id (other ∷ ids) all at = ground arith
Below-get_elem? n (suc i) id (other ∷ ids) all at = Below-get_elem? n i id ids all.1 at

lt-of-get_elem? : (ids : List ℕ) (i id : ℕ) → get_elem? ids i ≡ some id → i < length ids
lt-of-get_elem? [] i id at = absurd (ground arith)
lt-of-get_elem? (other ∷ ids) zero id at = omega arith
lt-of-get_elem? (other ∷ ids) (suc i) id at = omega (arith, lt-of-get_elem? ids i id at)

le-of-get_elem? : (ids : List ℕ) (i : ℕ) → i ≤ length ids → get_elem? ids i ≡ none → i ≡ length ids
le-of-get_elem? [] i le at = omega arith
le-of-get_elem? (other ∷ ids) zero le at = absurd (ground arith)
le-of-get_elem? (other ∷ ids) (suc i) le at = ap suc (le-of-get_elem? ids i (omega arith) at)

-- A handler for the media at an index has its id from the agent, and is in no slot if there is none at
-- the index.
abbrev pub IsPlaced : ℕ → Agent → Option ℕ → Type 0
IsPlaced index agent none = Unit
IsPlaced index agent (some id) =
    (id < agent.hids)
    × ((index < length agent.offer_handlers) ⊎ (mem id agent.offer_handlers ≡ false))

pub record Selects (n index : ℕ) (before after : Agent) (chosen : Option ℕ) : Type 0 where
  pub keeps : Keeps before after
  pub room : HasRoom n after
  pub reached : index ≤ length after.offer_handlers
  pub placed : IsPlaced index after chosen

renewed-HasRoom : (n : ℕ) (agent : Agent) (id : ℕ) → HasRoom n agent → HasRoom n (renewed agent id)
renewed-HasRoom n agent id v = record {
  supported =
      put-Each IsSupported agent.handler id
        (record (agent.handler id) { negotiated = false; rejected = false }) agent.handlers (λ h. h)
        v.supported;
  known = v.known;
  placed = v.placed;
  room = v.room;
}

Finds-Selects :
    (n index : ℕ) (before after : Agent) (found : Option ℕ)
    → index ≤ length before.offer_handlers
    → Finds n before after found
    → Selects n index before after found
Finds-Selects n index before after none reached f = record {
  keeps = f.keeps;
  room = f.room;
  reached = rw f.same reached;
  placed = tt;
}
Finds-Selects n index before after (some id) reached f = record {
  keeps = f.keeps;
  room = f.room;
  reached = rw f.same reached;
  placed = (f.new.0, inr (rw f.same f.new.1));
}

module _ (run : AnswerRun) where
  replace-Selects :
      (n : ℕ) (agent : Agent) (index id : ℕ)
      → run.rejects index ≡ false
      → index < length agent.offer_handlers
      → HasRoom (suc (suc n)) agent
      → Selects n index agent
          (replace_offered_handler run agent index id).0
          (replace_offered_handler run agent index id).1
  unfolding replace_offered_handler
  replace-Selects n agent index id takes lt v = elim (Bool-cases (mem id agent.offer_handlers)) [
    | inr strange ↦ rw strange (record {
      keeps = Keeps-refl agent;
      room = HasRoom-less n agent (HasRoom-less (suc n) agent v);
      reached = omega arith;
      placed = tt;
    })
    | inl there ↦
        let found = get_handler_for_media run agent index in
        let f = get_handler_for_media-Finds run (suc n) agent index takes v in
        let s = or_reject-Settles n agent found.0 found.1 f in
        let slots = (or_reject found).0.offer_handlers in
        let lt' : index < length slots = rw s.same lt in
        let lt'' : index < length (replace_slot id (or_reject found).1 slots) =
          rw (length-replace_slot id (or_reject found).1 slots) lt' in
        rw there (record {
          keeps = record {
            state = s.keeps.state;
            local = s.keeps.local;
            local_description = s.keeps.local_description;
            remote_description = s.keeps.remote_description;
            prev_sdp = s.keeps.prev_sdp;
          };
          room = record {
            supported = s.room.supported;
            known = s.room.known;
            placed =
                replace_slot-Below (or_reject found).0.hids id (or_reject found).1 slots s.known
                  s.room.placed;
            room = s.room.room;
          };
          reached = omega arith;
          placed = (s.known, inl lt'');
        })
  ]

  -- The flags of the handler at the index are set back, before another is looked for.
  renewed-Selects :
      (n : ℕ) (agent : Agent) (index id : ℕ) (after : Agent) (chosen : Option ℕ)
      → Selects n index (renewed agent id) after chosen
      → Selects n index agent after chosen
  renewed-Selects n agent index id after chosen s = record {
    keeps = record {
      state = s.keeps.state;
      local = s.keeps.local;
      local_description = s.keeps.local_description;
      remote_description = s.keeps.remote_description;
      prev_sdp = s.keeps.prev_sdp;
    };
    room = s.room;
    reached = s.reached;
    placed = s.placed;
  }

  -- The handler at the index stays.
  stays-Selects :
      (n : ℕ) (agent : Agent) (index id : ℕ)
      → get_elem? agent.offer_handlers index ≡ some id
      → HasRoom (suc (suc n)) agent
      → Selects n index agent agent (some id)
  stays-Selects n agent index id at v =
      let lt = lt-of-get_elem? agent.offer_handlers index id at in
      record {
        keeps = Keeps-refl agent;
        room = HasRoom-less n agent (HasRoom-less (suc n) agent v);
        reached = omega arith;
        placed = (Below-get_elem? agent.hids index id agent.offer_handlers v.placed at, inl lt);
      }

  get_proper_handler-Selects :
      (n : ℕ) (agent : Agent) (index port id : ℕ)
      → run.rejects index ≡ false
      → get_elem? agent.offer_handlers index ≡ some id
      → HasRoom (suc (suc n)) agent
      → Selects n index agent
          (get_proper_handler run agent index port id).0
          (get_proper_handler run agent index port id).1
  unfolding get_proper_handler
  get_proper_handler-Selects n agent index port id takes at v =
      let lt = lt-of-get_elem? agent.offer_handlers index id at in
      let fresh = renewed-HasRoom (suc (suc n)) agent id v in
      let replaced =
        renewed-Selects n agent index id _ _
          (replace-Selects n (renewed agent id) index id takes lt fresh) in
      elim (Bool-cases (agent.handler id).rejected) [
        | inr taken ↦ rw taken (stays-Selects n agent index id at v)
        | inl rejected ↦ elim (Bool-cases (port == 0)) [
          | inl disabled ↦ rw (rejected, disabled) (stays-Selects n agent index id at v)
          | inr enabled ↦ elim (Bool-cases (run.same_media id index)) [
            | inr other ↦ rw (rejected, enabled, other) replaced
            | inl same ↦ elim (Bool-cases (run.manages id index)) [
              | inl capable ↦
                  rw (rejected, enabled, same, capable)
                    (renewed-Selects n agent index id _ _
                      (stays-Selects n (renewed agent id) index id at fresh))
              | inr incapable ↦ rw (rejected, enabled, same, incapable) replaced
            ]
          ]
        ]
      ]

  pub select_handler-Selects :
      (n : ℕ) (agent : Agent) (index port : ℕ)
      → run.rejects index ≡ false
      → index ≤ length agent.offer_handlers
      → HasRoom (suc (suc n)) agent
      → Selects n index agent
          (select_handler run agent index port).0
          (select_handler run agent index port).1
  unfolding select_handler
  select_handler-Selects n agent index port takes reached v =
      elim (Option-cases (get_elem? agent.offer_handlers index)) [
        | inl behind ↦
            rw (behind, select_handler)
              (Finds-Selects n index agent _ _ reached (
                get_handler_for_media-Finds run n agent index takes (HasRoom-less (suc n) agent v)))
        | inr (id, at) ↦
            rw (at, select_handler) (get_proper_handler-Selects n agent index port id takes at v)
      ]
