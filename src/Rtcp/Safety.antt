-- ===== src/Rtcp/Safety.antt =====
-- kmsrtcp.c, `kms_rtcp_psfb_afb_remb_get_packet` on bytes that anyone may have sent.
use kms_core.Prelude.{
  ℕ, zero, suc, ◌+◌, ◌-◌, ◌*◌, ◌^◌, ◌%◌, ◌≤◌, ◌<◌, ◌≡◌, refl, ◌↔◌, inl, inr, Bool, true, false,
  none, some, List, [], ◌∷◌, arith, length, get_elem?, ◌>>=◌, Bool-cases, ltb, ltb→lt, ltb-false,
  lt→ltb, ◌∙◌,
}
use kms_core.Prelude.Buffers.{get_elem?_lt, store_lt}
use kms_core.Rtcp.{
  RembPacket, remb, shl32, is_remb, read32, read_ssrcs, mantissa_of, exponent_of, remb_get_packet,
  remb_max_ssrcs_count,
}

abbrev pub AllBytes : List ℕ → Type 0
AllBytes [] = record {}
AllBytes (b ∷ bs) = (b < 256) × AllBytes bs

pub get_elem?-AllBytes : (bs : List ℕ) (i b : ℕ) → AllBytes bs → get_elem? bs i ≡ some b → b < 256
get_elem?-AllBytes [] i b all e = absurd (ground arith)
get_elem?-AllBytes (x ∷ bs) zero b all e = ground arith
get_elem?-AllBytes (x ∷ bs) (suc i) b all e = get_elem?-AllBytes bs i b all.1 e

read32_defined :
    (fci : List ℕ) (pos : ℕ) → pos + 4 ≤ length fci → (w : ℕ) × (read32 fci pos ≡ some w)
unfolding read32
read32_defined fci pos h =
    let (a, ea) = get_elem?_lt fci pos (omega arith) in
    let (b, eb) = get_elem?_lt fci (pos + 1) (omega arith) in
    let (c, ec) = get_elem?_lt fci (pos + 2) (omega arith) in
    let (d, ed) = get_elem?_lt fci (pos + 3) (omega arith) in
    (
      ((a * 256 + b) * 256 + c) * 256 + d,
      rw (ea, ◌>>=◌) (rw (eb, ◌>>=◌) (rw (ec, ◌>>=◌) (rw (ed, ◌>>=◌)))),
    )

read_ssrcs_defined :
    (left : ℕ) (fci : List ℕ) (pos i : ℕ) (ssrcs : List ℕ)
    → pos + 4 * left ≤ length fci
    → i + left ≤ length ssrcs
    → (out : List ℕ) × (read_ssrcs left fci pos i ssrcs ≡ some out) × (length out ≡ length ssrcs)
unfolding read_ssrcs
read_ssrcs_defined zero fci pos i ssrcs h k = (ssrcs, refl, refl)
read_ssrcs_defined (suc left) fci pos i ssrcs h k =
    let (w, ew) = read32_defined fci pos (omega arith) in
    let (s, es, ls) = store_lt ssrcs i w (omega arith) in
    let (out, eo, lo) =
      read_ssrcs_defined left fci (pos + 4) (suc i) s (omega arith) (omega arith) in
    (out, rw (ew, ◌>>=◌) (rw (es, ◌>>=◌) eo), lo ∙ ls)

-- The message has its header and all of the SSRCs that it announces.
pub record IsWhole (fci : List ℕ) : Type 0 where
  pub named : is_remb fci ≡ true
  pub announced : ℕ
  pub at_four : get_elem? fci 4 ≡ some announced
  pub present : 8 + 4 * announced ≤ length fci

-- What the parser gives: a defined result, which is positive for whole messages and no others.
pub record Parses (fci : List ℕ) (old : RembPacket) : Type 0 where
  pub packet : RembPacket
  pub accepted : Bool
  pub defined : remb_get_packet remb fci old ≡ some (packet, accepted)
  pub array : length packet.ssrcs ≡ remb_max_ssrcs_count
  pub whole : (accepted ≡ true) ↔ IsWhole fci

ltb-long : (l : ℕ) → 8 ≤ l → ltb (l - 4) 4 ≡ false
ltb-long l h = ground arith

ltb-le : (a b : ℕ) → b ≤ a → ltb a b ≡ false
ltb-le a b h = ground arith

shl32_small : (x n : ℕ) → n < 32 → shl32 x n ≡ some (x * 2 ^ n % 2 ^ 32)
unfolding shl32
shl32_small x n h = rw (lt→ltb n 32 h)

shl32_large : (x n : ℕ) → 32 ≤ n → shl32 x n ≡ none
unfolding shl32
shl32_large x n h = rw (ltb-le n 32 h)

module _ (fci : List ℕ) (old : RembPacket) (array : length old.ssrcs ≡ remb_max_ssrcs_count) where
  not_named : is_remb fci ≡ false → Parses fci old
  unfolding remb_get_packet
  not_named e = record {
    packet = old;
    accepted = false;
    defined = rw e;
    array = array;
    whole = (λ h. ground arith, λ w. ground (arith, w.named));
  }

  too_short : is_remb fci ≡ true → length fci < 8 → Parses fci old
  unfolding remb_get_packet
  too_short e h = record {
    packet = old;
    accepted = false;
    defined = rw e (rw (lt→ltb (length fci - 4) 4 (omega arith)));
    array = array;
    whole = (λ h'. ground arith, λ w. absurd (omega (arith, w.present)));
  }

  -- The parse of a message that has its header, with the header's bytes named.
  module _ {n b0 b1 b2 rate : ℕ} (named : is_remb fci ≡ true) (long : 8 ≤ length fci)
      (e4 : get_elem? fci 4 ≡ some n) (e5 : get_elem? fci 5 ≡ some b0)
      (e6 : get_elem? fci 6 ≡ some b1) (e7 : get_elem? fci 7 ≡ some b2)
      (shifted : shl32 (mantissa_of b0 b1 b2) (exponent_of b0) ≡ some rate) where
    same_count : {k : ℕ} → get_elem? fci 4 ≡ some k → k ≡ n
    same_count e = cc

    missing_words : length fci - 8 < 4 * n → Parses fci old
    unfolding remb_get_packet
    missing_words h = record {
      packet = record old { bitrate = rate; n_ssrcs = n };
      accepted = false;
      defined = rw named (
          rw (ltb-long (length fci) long) (
            rw (e4, e5, e6, e7, ◌>>=◌)
              (rw (shifted, ◌>>=◌) (rw (lt→ltb (length fci - 8) (4 * n) h)))));
      array = array;
      whole = (λ h'. ground arith, λ w. absurd (omega (arith, w.present, same_count w.at_four)));
    }

    all_words : n < 256 → 4 * n ≤ length fci - 8 → Parses fci old
    unfolding remb_get_packet
    all_words byte h =
        let (out, eo, lo) = read_ssrcs_defined n fci 8 0 old.ssrcs (omega arith) (omega arith) in
        record {
          packet = record { bitrate = rate; n_ssrcs = n; ssrcs = out };
          accepted = true;
          defined = rw named (
              rw (ltb-long (length fci) long) (
                rw (e4, e5, e6, e7, ◌>>=◌)
                  (rw (shifted, ◌>>=◌) (rw (ltb-le (length fci - 8) (4 * n) h) (rw (eo, ◌>>=◌))))));
          array = lo ∙ array;
          whole = (
            λ h'. record { named = named; announced = n; at_four = e4; present = omega arith },
            λ w. refl,
          );
        }

  -- On any bytes whose exponent is below 32 the parser reads and writes within its bounds, keeps the
  -- array's length, and answers TRUE exactly for the messages that hold all they announce.
  pub remb_get_packet-Parses :
      AllBytes fci → ((b : ℕ) → get_elem? fci 5 ≡ some b → exponent_of b < 32) → Parses fci old
  remb_get_packet-Parses bytes small = elim (Bool-cases (is_remb fci)) [
    | inr other ↦ not_named other
    | inl named ↦ elim (Bool-cases (ltb (length fci) 8)) [
      | inl short ↦ too_short named (ltb→lt _ _ short)
      | inr long ↦ with_header named (ltb-false _ _ long)
    ]
  ]
    where
      with_header : is_remb fci ≡ true → 8 ≤ length fci → Parses fci old
      with_header named long =
          let (n, e4) = get_elem?_lt fci 4 (omega arith) in
          let (b0, e5) = get_elem?_lt fci 5 (omega arith) in
          let (b1, e6) = get_elem?_lt fci 6 (omega arith) in
          let (b2, e7) = get_elem?_lt fci 7 (omega arith) in
          let shifted = shl32_small (mantissa_of b0 b1 b2) (exponent_of b0) (small b0 e5) in
          elim (Bool-cases (ltb (length fci - 8) (4 * n))) [
            | inl few ↦ missing_words named long e4 e5 e6 e7 shifted (ltb→lt _ _ few)
            | inr enough ↦
                all_words named long e4 e5 e6 e7 shifted (get_elem?-AllBytes fci 4 n bytes e4)
                  (ltb-false _ _ enough)
          ]

module _ (fci : List ℕ) (old : RembPacket) where
  -- A message that has its header and an exponent of 32 or more makes the parser shift a guint32
  -- by its width or more, which C leaves undefined.
  pub remb_get_packet-undefined :
      {b : ℕ}
      → is_remb fci ≡ true
      → 8 ≤ length fci
      → get_elem? fci 5 ≡ some b
      → 32 ≤ exponent_of b
      → remb_get_packet remb fci old ≡ none
  unfolding remb_get_packet
  remb_get_packet-undefined {b} named long e5 large =
      let (n, e4) = get_elem?_lt fci 4 (omega arith) in
      let (b1, e6) = get_elem?_lt fci 6 (omega arith) in
      let (b2, e7) = get_elem?_lt fci 7 (omega arith) in
      rw named (
        rw (ltb-long (length fci) long) (
          rw (e4, e5, e6, e7, ◌>>=◌)
            (rw (shl32_large (mantissa_of b b1 b2) (exponent_of b) large, ◌>>=◌))))
