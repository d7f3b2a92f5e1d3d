-- ===== src/SdpAgent/Placing.antt =====
-- kmssdpagent.c: each media that is answered has a handler at its place.
use kms_core.Prelude.{
  ℕ, suc, ◌+◌, ◌<◌, ◌≤◌, ◌≡◌, refl, inl, inr, Bool, true, false, not, ◌&&◌, Option, none, some,
  List, [], ◌∷◌, ◌==◌, arith, length, length-append, Bool-cases, Option-cases,
}
use kms_core.SdpAgent.{Agent, mem}
use kms_core.SdpAgent.Usable.{append-Below}
use kms_core.SdpAgent.Choosing.{
  Keeps, Keeps-refl, Keeps-trans, HasRoom, HasRoom-less, create_reject-Settles,
}
use kms_core.SdpAgent.Selecting.{IsPlaced, select_handler-Selects}
use kms_core.SdpAgent.Answering.{
  AnswerRun, create_reject_media_handler, select_handler, register, answer_by, answer_with,
  create_media_answer, answer_medias,
}

-- What the answer to the media at an index does.
pub record Places (n index : ℕ) (before after : Agent) (ok : Bool) : Type 0 where
  pub keeps : Keeps before after
  pub room : HasRoom n after
  pub placed : ok ≡ true → index < length after.offer_handlers

register-Places :
    (n index : ℕ) (agent : Agent) (id : ℕ) (ok : Bool)
    → HasRoom n agent
    → index ≤ length agent.offer_handlers
    → IsPlaced index agent (some id)
    → Places n index agent (register agent id) ok
unfolding register
register-Places n index agent id ok v reached at = elim (Bool-cases (mem id agent.offer_handlers)) [
  | inl there ↦
      let lt : index < length agent.offer_handlers = ground (arith, at.1) in
      rw there (record { keeps = Keeps-refl agent; room = v; placed = λ did. lt })
  | inr new ↦
      let longer = length-append agent.offer_handlers (id ∷ []) in
      rw new (record {
        keeps = record {
          state = refl;
          local = refl;
          local_description = refl;
          remote_description = refl;
          prev_sdp = refl;
        };
        room = record {
          supported = v.supported;
          known = v.known;
          placed = append-Below agent.hids id agent.offer_handlers v.placed at.0;
          room = v.room;
        };
        placed = λ did. omega arith;
      })
]

fails-Places : (n index : ℕ) (agent : Agent) → HasRoom n agent → Places n index agent agent false
fails-Places n index agent v = record {
  keeps = Keeps-refl agent;
  room = v;
  placed = λ did. absurd (ground arith);
}

Places-of :
    (n index : ℕ) (agent made after : Agent) (ok ok' : Bool)
    → Places n index agent made ok
    → ◌≡◌ {A = Option (Agent × Bool)} (some (made, ok)) (some (after, ok'))
    → Places n index agent after ok'
Places-of n index agent made after ok ok' p e =
    let same : made ≡ after = ground arith in
    let did : ok ≡ ok' = ground arith in rw (← same) (rw (← did) p)

-- The ids that the answer to these media can use up: no media needs more than three.
abbrev pub ids_for : List ℕ → ℕ
ids_for [] = 0
ids_for (port ∷ ports) = suc (suc (suc (ids_for ports)))

HasRoom-zero : (n : ℕ) (agent : Agent) → HasRoom n agent → HasRoom 0 agent
HasRoom-zero n agent v =
    let bound = v.room in
    record { supported = v.supported; known = v.known; placed = v.placed; room = omega arith }

module _ (run : AnswerRun) where
  answer_by-Places :
      (n index : ℕ) (agent after : Agent) (id : ℕ) (ok : Bool)
      → HasRoom n agent
      → index ≤ length agent.offer_handlers
      → IsPlaced index agent (some id)
      → answer_by run index agent id ≡ some (after, ok)
      → Places n index agent after ok
  unfolding answer_by
  answer_by-Places n index agent after id ok v reached at ran =
      elim (Bool-cases (run.answers id index)) [
        | inl answers ↦
            Places-of n index agent (register agent id) after (run.added index) ok
              (register-Places n index agent id (run.added index) v reached at) (ground arith)
        | inr cannot ↦
            Places-of n index agent agent after false ok (fails-Places n index agent v)
              (ground arith)
      ]

  answer_with-Places :
      (n index port : ℕ) (agent after : Agent) (chosen : Option ℕ) (ok : Bool)
      → HasRoom (suc n) agent
      → index ≤ length agent.offer_handlers
      → IsPlaced index agent chosen
      → answer_with run index port (agent, chosen) ≡ some (after, ok)
      → Places n index agent after ok
  unfolding answer_with
  answer_with-Places n index port agent after none ok v reached at ran =
      let s = create_reject-Settles n agent v in
      let (made, id) = create_reject_media_handler agent in
      let p =
        answer_by-Places n index (create_reject_media_handler agent).0 after
          (create_reject_media_handler agent).1 ok s.room (rw s.same reached)
          (s.known, inr (rw s.same s.unplaced)) ran in
      record { keeps = Keeps-trans s.keeps p.keeps; room = p.room; placed = p.placed }
  answer_with-Places n index port agent after (some id) ok v reached at ran =
      let less = HasRoom-less n agent v in
      elim (Bool-cases (port == 0)) [
        | inr enabled ↦ answer_by-Places n index agent after id ok less reached at (ground arith)
        | inl disabled ↦
            elim (Bool-cases ((agent.handler id).negotiated && not (run.agreed id index))) [
              | inl missing ↦
                  Places-of n index agent agent after false ok (fails-Places n index agent less)
                    (ground arith)
              | inr agreed ↦
                  Places-of n index agent (register agent id) after (run.added index) ok
                    (register-Places n index agent id (run.added index) less reached at)
                    (ground arith)
            ]
      ]

  create_media_answer-Places :
      (n index port : ℕ) (agent after : Agent) (ok : Bool)
      → run.rejects index ≡ false
      → HasRoom (suc (suc (suc n))) agent
      → index ≤ length agent.offer_handlers
      → create_media_answer run agent index port ≡ some (after, ok)
      → Places n index agent after ok
  unfolding create_media_answer
  create_media_answer-Places n index port agent after ok takes v reached ran =
      let s = select_handler-Selects run (suc n) agent index port takes reached v in
      let p =
        answer_with-Places n index port (select_handler run agent index port).0 after
          (select_handler run agent index port).1 ok s.room s.reached s.placed ran in
      record { keeps = Keeps-trans s.keeps p.keeps; room = p.room; placed = p.placed }

  -- What the answer to the rest of an offer does.
  pub answer_medias-Places :
      (ports : List ℕ) (index : ℕ) (agent after : Agent) (ok : Bool)
      → ((i : ℕ) → run.rejects i ≡ false)
      → HasRoom (ids_for ports) agent
      → index ≤ length agent.offer_handlers
      → answer_medias run agent index ports ≡ some (after, ok)
      → Keeps agent after
        × HasRoom 0 after
        × (ok ≡ true → index + length ports ≤ length after.offer_handlers)
  unfolding answer_medias
  answer_medias-Places [] index agent after ok takes v reached ran =
      let same : agent ≡ after = ground arith in
      (rw same (Keeps-refl after), rw (← same) v, λ did. rw (← same) (omega arith))
  answer_medias-Places (port ∷ ports) index agent after ok takes v reached ran =
      elim (Option-cases (create_media_answer run agent index port)) [
        | inl fault ↦ absurd (ground arith)
        | inr ((next, true), made) ↦
            let p =
              create_media_answer-Places (ids_for ports) index port agent next true (takes index) v
                reached made in
            let (keeps, room, placed) =
              answer_medias-Places ports (suc index) next after ok takes p.room (p.placed refl)
                (ground arith) in
            (Keeps-trans p.keeps keeps, room, λ did. omega (arith, placed did))
        | inr ((next, false), made) ↦
            let p =
              create_media_answer-Places (ids_for ports) index port agent next false (takes index) v
                reached made in
            let same : next ≡ after = ground arith in
            let failed : ok ≡ false = ground arith in
            (
              rw (← same) p.keeps,
              rw (← same) (HasRoom-zero (ids_for ports) next p.room),
              λ did. absurd (ground arith),
            )
      ]
