-- ===== src/Remb/Remote/Probing.antt =====
-- kmsremb.c: the events that a run of REMB messages makes, before and after the probing.
use kms_core.Prelude.{
  ℕ, suc, ◌*◌, ◌%◌, ◌^◌, ◌<◌, ◌≡◌, refl, max, min, true, false, ◌&&◌, Option, none, some, List, [],
  ◌∷◌, ◌++◌, map, replicate, drop, length, arith, ltb, leb, ◌==◌, if◌then◌else◌, ◌>>=◌, inl, inr,
  Bool-cases,
}
use kms_core.Prelude.Buffers.{get_elem?_lt}
use kms_core.Rtcp.{RembPacket}
use kms_core.Remb.Remote.{Remote, on_connect, send_remb_event, probe_bitrate, remote_update}

-- The bitrates that the encoder is told, in the range of the bandwidths. The maximum goes before the
-- minimum.
abbrev pub clamp : Remote → ℕ → ℕ
clamp rm br =
    let raised = max br (rm.min_bw * 1000 % 2 ^ 32) in
    if rm.max_bw == 0 then raised else min raised (rm.max_bw * 1000 % 2 ^ 32)

send_remb_event-clamp :
    (rm : Remote) (bitrate ssrc : ℕ)
    → rm.pad_event ≡ true
    → send_remb_event rm bitrate ssrc ≡ some (clamp rm bitrate, ssrc)
unfolding send_remb_event
send_remb_event-clamp rm bitrate ssrc pad = ground arith

-- The run of the updates, each with an event: their bitrates.
unfoldable pub sent : Remote → List RembPacket → Option (List ℕ)
sent rm [] = some []
sent rm (packet ∷ packets) = elim (remote_update rm packet) [
  | none ↦ none
  | some (after, none) ↦ none
  | some (after, some (br, ssrc)) ↦ do rest ← sent after packets; some (br ∷ rest)
]

abbrev pub AllNamed : List RembPacket → Type 0
AllNamed [] = Unit
AllNamed (packet ∷ packets) = (0 < packet.n_ssrcs) × (0 < length packet.ssrcs) × AllNamed packets

abbrev pub bitrates : List RembPacket → List ℕ
bitrates [] = []
bitrates (packet ∷ packets) = packet.bitrate ∷ bitrates packets

-- How many of the bitrates at the front do not fall, from `last` on, and stay below `limit`.
abbrev pub rising : ℕ → ℕ → List ℕ → ℕ
rising limit last [] = 0
rising limit last (b ∷ bs) = if ltb b limit && leb last b then suc (rising limit b bs) else 0

-- What the encoder is told, but for the clamp: the bitrate of the connection while the receiver's
-- estimate rises to it, and from then on the estimate itself.
abbrev pub told : Remote → List ℕ → List ℕ
told rm asked =
    let probing = if rm.probed then 0 else rising (on_connect rm) rm.remb asked in
    replicate probing (on_connect rm) ++ drop probing asked

abbrev next : Remote → ℕ → Remote
next rm bitrate = record rm { remb = bitrate; probed = (probe_bitrate rm bitrate).1 }

remote_update-next :
    (rm : Remote) (packet : RembPacket)
    → rm.pad_event ≡ true
    → 0 < packet.n_ssrcs
    → 0 < length packet.ssrcs
    → (ssrc : ℕ) × (remote_update rm packet
        ≡ some (next rm packet.bitrate, some (clamp rm (probe_bitrate rm packet.bitrate).0, ssrc)))
unfolding remote_update
remote_update-next rm packet pad named room =
    let (ssrc, first) = get_elem?_lt packet.ssrcs 0 room in
    let some_ssrc : (packet.n_ssrcs == 0) ≡ false = ground arith in
    (
      ssrc,
      rw some_ssrc (
          rw (first, ◌>>=◌)
            (rw (send_remb_event-clamp rm (probe_bitrate rm packet.bitrate).0 ssrc pad) refl)),
    )

told_step :
    (rm : Remote) (b : ℕ) (bs : List ℕ)
    → told rm (b ∷ bs) ≡ (probe_bitrate rm b).0 ∷ told (next rm b) bs
unfolding probe_bitrate
told_step rm b bs = elim (Bool-cases rm.probed) [
  | inl probed ↦ rw probed refl
  | inr probing ↦ elim (Bool-cases (ltb b (on_connect rm) && leb rm.remb b)) [
    | inl rises ↦ rw (probing, rises) refl
    | inr over ↦ rw (probing, over) refl
  ]
]

-- In a run of messages that each name an SSRC, while there is a pad to send on, each update sends an
-- event. While the receiver's estimate rises and stays below the bitrate of the connection the events
-- carry that bitrate; from the first one that does not they carry the estimate itself. All are
-- brought into the range of the bandwidths.
pub sent-told :
    (packets : List RembPacket) (rm : Remote)
    → rm.pad_event ≡ true
    → AllNamed packets
    → sent rm packets ≡ some (map (clamp rm) (told rm (bitrates packets)))
unfolding sent
sent-told [] rm pad named = ground arith
sent-told (packet ∷ packets) rm pad named =
    let (ssrc, updated) = remote_update-next rm packet pad named.0 named.1 in
    rw (updated, sent)
      (rw (sent-told packets (next rm packet.bitrate) pad named.2, ◌>>=◌)
        (rw (told_step rm packet.bitrate (bitrates packets)) refl))
