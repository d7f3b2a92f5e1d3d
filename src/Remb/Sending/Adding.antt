-- ===== src/Remb/Sending/Adding.antt =====
-- kmsremb.c, `add_ssrcs` over the remote sessions.
use mathlib.Core.List.{append-nil}
use kms_core.Prelude.{
  ℕ, zero, suc, ◌+◌, ◌%◌, ◌^◌, ◌≤◌, ◌<◌, ◌≡◌, ◌∙◌, refl, sym, ap, subst, some, List, [], ◌∷◌, ◌++◌,
  arith, length, take, set, store, length-set, store-set, ◌>>=◌, inl, inr, ◌==◌, Bool-cases,
  Option-cases, ==_iff,
}
use kms_core.Prelude.Tables.{lookup, insert, lookup-insert_self, lookup-insert_ne}
use kms_core.Prelude.Buffers.{append_snoc}
use kms_core.Rtcp.{RembPacket}
use kms_core.Remb.{Stats}
use kms_core.Remb.Sessions.{RemoteSession}
use kms_core.Remb.Sending.{add_ssrc, add_ssrcs}

-- A write behind the entries in use adds one to them.
take-set_next :
    (xs : List ℕ) (n v : ℕ) → n < length xs → take (suc n) (set xs n v) ≡ take n xs ++ (v ∷ [])
take-set_next [] n v h = absurd (omega arith)
take-set_next (x ∷ xs) zero v h = refl
take-set_next (x ∷ xs) (suc n) v h = ap (◌∷◌ x) (take-set_next xs n v (omega arith))

abbrev pub ssrcs_of : List RemoteSession → List ℕ
ssrcs_of [] = []
ssrcs_of (rlrs ∷ sessions) = rlrs.ssrc ∷ ssrcs_of sessions

-- The statistics of each session have the bitrate.
abbrev pub Recorded : ℕ → Stats → List RemoteSession → Type 0
Recorded bitrate stats [] = Unit
Recorded bitrate stats (rlrs ∷ sessions) =
    (lookup stats rlrs.ssrc ≡ some bitrate) × Recorded bitrate stats sessions

-- What adding the sessions to `old` gives.
pub record Adds (sessions : List RemoteSession) (old new : RembPacket) (stats : Stats)
    : Type 0 where
  pub same_bitrate : new.bitrate ≡ old.bitrate
  pub count : new.n_ssrcs ≡ old.n_ssrcs + length sessions
  pub array : length new.ssrcs ≡ length old.ssrcs
  pub words : take new.n_ssrcs new.ssrcs ≡ take old.n_ssrcs old.ssrcs ++ ssrcs_of sessions
  pub recorded : Recorded old.bitrate stats sessions

pub keeps_record :
    (stats : Stats) (k ssrc bitrate : ℕ)
    → lookup stats k ≡ some bitrate
    → lookup (insert stats ssrc bitrate) k ≡ some bitrate
keeps_record stats k ssrc bitrate h = elim (Bool-cases (k == ssrc)) [
  | inl same ↦
      subst (λ j. lookup (insert stats ssrc bitrate) j ≡ some bitrate)
        (sym ((==_iff k ssrc).0 same)) (lookup-insert_self stats ssrc bitrate)
  | inr other ↦ lookup-insert_ne stats k ssrc bitrate (λ e. ground arith) ∙ h
]

add_ssrcs_keep :
    (sessions : List RemoteSession) (stats stats' : Stats) (old new : RembPacket) (k : ℕ)
    → add_ssrcs sessions (stats, old) ≡ some (stats', new)
    → lookup stats k ≡ some old.bitrate
    → lookup stats' k ≡ some old.bitrate
unfolding add_ssrcs add_ssrc
add_ssrcs_keep [] stats stats' old new k ran h = ground arith
add_ssrcs_keep (rlrs ∷ sessions) stats stats' old new k ran h =
    elim (Option-cases (store old.ssrcs old.n_ssrcs rlrs.ssrc)) [
      | inl fault ↦ absurd (ground arith)
      | inr (words, stored) ↦
          add_ssrcs_keep sessions (insert stats rlrs.ssrc old.bitrate) stats'
            (record old { ssrcs = words; n_ssrcs = (old.n_ssrcs + 1) % 2 ^ 8 }) new k (ground arith)
            (keeps_record stats k rlrs.ssrc old.bitrate h)
    ]

abbrev next : RemoteSession → RembPacket → RembPacket
next rlrs old = record old {
  ssrcs = set old.ssrcs old.n_ssrcs rlrs.ssrc;
  n_ssrcs = old.n_ssrcs + 1;
}

add_ssrc-next :
    (rlrs : RemoteSession) (stats : Stats) (old : RembPacket)
    → old.n_ssrcs < length old.ssrcs
    → old.n_ssrcs < 255
    → add_ssrc rlrs (stats, old) ≡ some (insert stats rlrs.ssrc old.bitrate, next rlrs old)
unfolding add_ssrc
add_ssrc-next rlrs stats old h k =
    let count : (old.n_ssrcs + 1) % 2 ^ 8 ≡ old.n_ssrcs + 1 = omega arith in
    rw (store-set old.ssrcs old.n_ssrcs rlrs.ssrc h, ◌>>=◌) (rw count refl)

next_words :
    (rlrs : RemoteSession) (old : RembPacket)
    → old.n_ssrcs < length old.ssrcs
    → take (next rlrs old).n_ssrcs (next rlrs old).ssrcs
      ≡ take old.n_ssrcs old.ssrcs ++ (rlrs.ssrc ∷ [])
next_words rlrs old h =
    let e : suc old.n_ssrcs ≡ old.n_ssrcs + 1 = omega arith in
    subst
      (λ n.
        take n (set old.ssrcs old.n_ssrcs rlrs.ssrc)
        ≡ take old.n_ssrcs old.ssrcs ++ (rlrs.ssrc ∷ []))
      e (take-set_next old.ssrcs old.n_ssrcs rlrs.ssrc h)

-- Sessions that the array has room for are added without a fault, in their order.
pub add_ssrcs-Adds :
    (sessions : List RemoteSession) (stats : Stats) (old : RembPacket)
    → length old.ssrcs ≡ 255
    → old.n_ssrcs + length sessions ≤ 255
    → (stats' : Stats) × (new : RembPacket) × (add_ssrcs sessions (stats, old) ≡ some (stats', new))
      × Adds sessions old new stats'
unfolding add_ssrcs
add_ssrcs-Adds [] stats old array room = (
  stats,
  old,
  refl,
  record {
    same_bitrate = refl;
    count = omega arith;
    array = refl;
    words = sym (append-nil _);
    recorded = tt;
  },
)
add_ssrcs-Adds (rlrs ∷ sessions) stats old array room =
    let (stats', new, ran, adds) =
      add_ssrcs-Adds sessions (insert stats rlrs.ssrc old.bitrate) (next rlrs old)
        (length-set old.ssrcs old.n_ssrcs rlrs.ssrc ∙ array) (omega arith) in
    (
      stats',
      new,
      rw (add_ssrc-next rlrs stats old (omega arith) (omega arith), ◌>>=◌) ran,
      record {
        same_bitrate = adds.same_bitrate;
        count = omega (arith, adds.count);
        array = adds.array ∙ length-set old.ssrcs old.n_ssrcs rlrs.ssrc;
        words =
            adds.words
            ∙ ap (λ ws. ws ++ ssrcs_of sessions) (next_words rlrs old (omega arith))
            ∙ append_snoc _ _ _;
        recorded = (
          add_ssrcs_keep sessions _ _ (next rlrs old) new rlrs.ssrc ran
              (lookup-insert_self stats rlrs.ssrc old.bitrate),
          adds.recorded,
        );
      },
    )
