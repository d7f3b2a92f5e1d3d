-- ===== src/Rtcp/RoundTrip.antt =====
-- kmsrtcp.c: a REMB message that was marshalled is parsed back.
use mathlib.Core.List.{append-nil}
use native.Mathlib.Nat.{mod-eq_of_lt}
use kms_core.Prelude.{
  ℕ, ◌+◌, ◌-◌, ◌*◌, ◌/◌, ◌%◌, ◌^◌, ◌≤◌, ◌<◌, ◌≡◌, refl, sym, ap, ◌∙◌, true, Option, some, List, [],
  ◌++◌, arith, length, length-append, take, drop, store_all, ◌>>=◌, lt→ltb,
}
use kms_core.Prelude.Buffers.{
  store_all-append, length-take, length-drop, take-append-drop, take-append,
}
use kms_core.Rtcp.{
  RembPacket, FeedbackPacket, remb, shl32, is_remb, get_packet, read_ssrcs, mantissa_of,
  exponent_of, remb_get_packet, compute_mantissa, remb_header, write_ssrcs, marshall_packet,
  remb_max_ssrcs_count, psfb_type_afb,
}
use kms_core.Rtcp.Mantissa.{max_bitrate, compute_mantissa_lem}
use kms_core.Rtcp.Words.{bytes_of, length-bytes_of, AllWords, write_ssrcs-append, read_ssrcs-append}

exponent_back : (m e : ℕ) → e < 15 → exponent_of ((e * 4 + m / 2 ^ 16 % 4) % 256) ≡ e
unfolding exponent_of
exponent_back m e h = omega arith

mantissa_back :
    (m e : ℕ)
    → m < 2 ^ 18
    → e < 15
    → mantissa_of ((e * 4 + m / 2 ^ 16 % 4) % 256) (m / 2 ^ 8 % 256) (m % 256) ≡ m
unfolding mantissa_of
mantissa_back m e h k = omega arith

shl32-fits : (m e : ℕ) → e < 15 → m * 2 ^ e < 2 ^ 32 → shl32 m e ≡ some (m * 2 ^ e)
unfolding shl32
shl32-fits m e h k = rw (lt→ltb e 32 (omega arith)) (ap some (mod-eq_of_lt k))

module _ (n m e : ℕ) (body : List ℕ) (old : RembPacket) {words : List ℕ} where
  remb_get_packet-header :
      m < 2 ^ 18
      → e < 15
      → m * 2 ^ e < 2 ^ 32
      → length body ≡ 4 * n
      → read_ssrcs n (remb_header n m e ++ body) 8 0 old.ssrcs ≡ some words
      → remb_get_packet remb (remb_header n m e ++ body) old
        ≡ some (record { bitrate = m * 2 ^ e; n_ssrcs = n; ssrcs = words }, true)
  unfolding remb_get_packet is_remb remb_header
  remb_get_packet-header hm he hr hl reads =
      ground (arith, mantissa_back m e hm he, exponent_back m e he, shl32-fits m e he hr)

-- What the receiver knows of the packet that was sent.
pub record IsReading (sent back : RembPacket) : Type 0 where
  pub count : back.n_ssrcs ≡ sent.n_ssrcs
  pub room : back.n_ssrcs ≤ length back.ssrcs
  pub words : take back.n_ssrcs back.ssrcs ≡ take sent.n_ssrcs sent.ssrcs
  pub below : back.bitrate ≤ sent.bitrate
  pub precise : 131071 * (sent.bitrate - back.bitrate) ≤ sent.bitrate

length-header : (n m e : ℕ) → length (remb_header n m e) ≡ 8
unfolding remb_header
length-header n m e = refl

write_ssrcs-whole :
    (n : ℕ) (ssrcs header old : List ℕ)
    → n ≤ length ssrcs
    → length header ≡ 8
    → length old ≡ 4 * n
    → write_ssrcs n 0 ssrcs 8 (header ++ old) ≡ some (header ++ bytes_of (take n ssrcs))
write_ssrcs-whole n ssrcs header old hn hh ho =
    rw (append-nil, take-append-drop n ssrcs, append-nil) at
      (write_ssrcs-append [] (take n ssrcs) (drop n ssrcs) header old [] n 0 8
        (sym (length-take n ssrcs hn)) refl (sym hh) ho)

read_ssrcs-whole :
    (n : ℕ) (ssrcs header ws : List ℕ)
    → n ≤ length ssrcs
    → length header ≡ 8
    → n ≡ length ws
    → AllWords ws
    → read_ssrcs n (header ++ bytes_of ws) 8 0 ssrcs ≡ some (ws ++ drop n ssrcs)
read_ssrcs-whole n ssrcs header ws hn hh hl hw =
    rw (append-nil, take-append-drop n ssrcs) at
      (read_ssrcs-append [] (take n ssrcs) (drop n ssrcs) header ws [] n 0 8 hl refl (sym hh)
        (length-take n ssrcs hn) hw)

store_all-header :
    (n : ℕ) (g header : List ℕ)
    → length g ≡ 4 * (2 + n)
    → length header ≡ 8
    → store_all g 0 header ≡ some (header ++ drop 8 g)
store_all-header n g header hg hh = rw take-append-drop at (
    store_all-append [] (take 8 g) (drop 8 g) header 0 refl
      (length-take 8 g (omega arith) ∙ sym hh))

fci_words : (n : ℕ) → n ≤ remb_max_ssrcs_count → (0 / 4 % 2 ^ 16 + (2 + n)) % 2 ^ 16 ≡ 2 + n
fci_words n h = omega arith

abbrev typed : ℕ → List ℕ → FeedbackPacket
typed sender fci = record {
  fb_type = psfb_type_afb;
  sender_ssrc = sender;
  media_ssrc = 0;
  fci = fci;
}

-- The FCI that is written for a mantissa and an exponent.
pub marshall_packet-writes :
    (set_fci_length : List ℕ → ℕ → Option (List ℕ)) (rtcp : FeedbackPacket) (packet : RembPacket)
    (sender m e : ℕ) (resized : List ℕ)
    → rtcp.fci ≡ []
    → packet.n_ssrcs ≤ length packet.ssrcs
    → packet.n_ssrcs ≤ remb_max_ssrcs_count
    → compute_mantissa packet.bitrate 18 ≡ some (true, m, e)
    → set_fci_length [] (2 + packet.n_ssrcs) ≡ some resized
    → length resized ≡ 4 * (2 + packet.n_ssrcs)
    → marshall_packet set_fci_length rtcp packet sender
      ≡ some (
        typed sender
            (remb_header packet.n_ssrcs m e ++ bytes_of (take packet.n_ssrcs packet.ssrcs)),
        true,
      )
unfolding marshall_packet
marshall_packet-writes grow rtcp packet sender m e resized empty hn hm computed grown hl =
    rw (computed, ◌>>=◌)
      (rw (empty, fci_words packet.n_ssrcs hm)
        (rw grown (
          rw
            (
              store_all-header packet.n_ssrcs resized (remb_header packet.n_ssrcs m e) hl
                  (length-header packet.n_ssrcs m e),
              ◌>>=◌,
            )
            (rw (
              write_ssrcs-whole packet.n_ssrcs packet.ssrcs (remb_header packet.n_ssrcs m e)
                  (drop 8 resized) hn (length-header packet.n_ssrcs m e)
                  (omega (arith, length-drop 8 resized (omega arith))),
              ◌>>=◌,
            )))))

-- A buffer that GStreamer has made room in has the words that were asked for.
abbrev pub Resizes : (List ℕ → ℕ → Option (List ℕ)) → Type 0
Resizes set_fci_length =
    (fci : List ℕ) (words : ℕ) (resized : List ℕ)
    → set_fci_length fci words ≡ some resized
    → length resized ≡ 4 * words

module _ (set_fci_length : List ℕ → ℕ → Option (List ℕ)) (resizes : Resizes set_fci_length)
    (rtcp : FeedbackPacket) (packet old : RembPacket) (sender : ℕ) (resized : List ℕ) where
  -- A packet whose bitrate is at most `max_bitrate` is marshalled into an empty FCI that can grow,
  -- and is parsed back with its SSRCs and with a bitrate that is at most the one sent and loses at
  -- most one part in 131071 of it. Both runs are defined: no byte is accessed out of bounds.
  pub remb_get_packet-marshall_packet :
      rtcp.fci ≡ []
      → packet.bitrate ≤ max_bitrate
      → packet.n_ssrcs ≤ length packet.ssrcs
      → length packet.ssrcs ≡ remb_max_ssrcs_count
      → AllWords (take packet.n_ssrcs packet.ssrcs)
      → length old.ssrcs ≡ remb_max_ssrcs_count
      → set_fci_length [] (2 + packet.n_ssrcs) ≡ some resized
      → (out : FeedbackPacket) × (back : RembPacket) × (marshall_packet set_fci_length rtcp packet
            sender
          ≡ some (out, true))
        × (get_packet out.fci ≡ (remb, true))
        × (remb_get_packet remb out.fci old ≡ some (back, true))
        × IsReading packet back
  remb_get_packet-marshall_packet empty rate hn hs hw ho grown =
      let n = packet.n_ssrcs in
      let (m, e, computed, approx) = (compute_mantissa_lem packet.bitrate (omega arith)).0 rate in
      let header : List ℕ = remb_header n m e in
      let ws : List ℕ = take n packet.ssrcs in
      let taken : length ws ≡ n = length-take n packet.ssrcs hn in
      (
        typed sender (header ++ bytes_of ws),
        record { bitrate = m * 2 ^ e; n_ssrcs = n; ssrcs = ws ++ drop n old.ssrcs },
        marshall_packet-writes set_fci_length rtcp packet sender m e resized empty hn (omega arith)
            computed grown (resizes [] (2 + n) resized grown),
        unfold get_packet is_remb remb_header in refl,
        remb_get_packet-header n m e (bytes_of ws) old approx.mantissa_fits approx.exponent_fits
            (omega (arith, approx.below)) (omega (arith, length-bytes_of ws))
            (read_ssrcs-whole n old.ssrcs header ws (omega arith) (length-header n m e) (sym taken)
              hw),
        record {
          count = refl;
          room = omega (arith, length-append ws (drop n old.ssrcs));
          words = take-append n ws _ taken;
          below = approx.below;
          precise = approx.precise;
        },
      )
