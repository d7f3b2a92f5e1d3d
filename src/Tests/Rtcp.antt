-- ===== src/Tests/Rtcp.antt =====
-- kmsrtcp.c at a message with two SSRCs and a bitrate of 300 kbps.
use kms_core.Prelude.{
  ℕ, zero, suc, ◌*◌, ◌≤◌, ◌<◌, ◌≡◌, refl, true, Option, some, none, List, [], ◌∷◌, arith, replicate,
  get_elem?, length,
}
use kms_core.Rtcp.{
  RembPacket, FeedbackPacket, remb, is_remb, get_packet, remb_get_packet, compute_mantissa,
  marshall_packet, exponent_of,
}
use kms_core.Rtcp.Mantissa.{max_bitrate, Approximates, compute_mantissa_lem}
use kms_core.Rtcp.RoundTrip.{Resizes, IsReading, remb_get_packet-marshall_packet}
use kms_core.Rtcp.Safety.{AllBytes, Parses, remb_get_packet-Parses, remb_get_packet-undefined}

abbrev two_ssrcs : RembPacket
two_ssrcs = record { bitrate = 300000; n_ssrcs = 2; ssrcs = 17 ∷ 4000000000 ∷ replicate 253 0 }

abbrev blank : RembPacket
blank = record { bitrate = 0; n_ssrcs = 0; ssrcs = replicate 255 0 }

abbrev empty_feedback : FeedbackPacket
empty_feedback = record { fb_type = 0; sender_ssrc = 0; media_ssrc = 0; fci = [] }

-- A buffer that always has room.
abbrev grow : List ℕ → ℕ → Option (List ℕ)
grow fci words = some (replicate (4 * words) 0)

length-replicate : (n : ℕ) → length {A = ℕ} (replicate n 0) ≡ n
length-replicate zero = refl
length-replicate (suc n) = omega (arith, length-replicate n)

grow-Resizes : Resizes grow
grow-Resizes fci words resized ran = ground (arith, length-replicate (4 * words))

compute_mantissa_lem_example :
    ((300000 ≤ max_bitrate)
      → (m e : ℕ) × (compute_mantissa 300000 18 ≡ some (true, m, e)) × Approximates 300000 m e)
    × (max_bitrate < 300000 → compute_mantissa 300000 18 ≡ none)
compute_mantissa_lem_example = compute_mantissa_lem 300000 (omega arith)

remb_get_packet-marshall_packet_example :
    (out : FeedbackPacket) × (back : RembPacket) × (marshall_packet grow empty_feedback two_ssrcs 5
      ≡ some (out, true))
    × (get_packet out.fci ≡ (remb, true))
    × (remb_get_packet remb out.fci blank ≡ some (back, true))
    × IsReading two_ssrcs back
remb_get_packet-marshall_packet_example =
    remb_get_packet-marshall_packet grow grow-Resizes empty_feedback two_ssrcs blank 5
      (replicate 16 0) refl (omega arith) (omega arith) refl (omega arith, (omega arith, record {}))
      refl refl

-- A message that announces one SSRC and holds it.
abbrev one_ssrc : List ℕ
one_ssrc = b'R' ∷ b'E' ∷ b'M' ∷ b'B' ∷ 1 ∷ 4 ∷ 36 ∷ 159 ∷ 0 ∷ 0 ∷ 0 ∷ 17 ∷ []

one_ssrc-AllBytes : AllBytes one_ssrc
one_ssrc-AllBytes = ground arith

one_ssrc_exponent : (b : ℕ) → get_elem? one_ssrc 5 ≡ some b → exponent_of b < 32
unfolding exponent_of
one_ssrc_exponent b e = ground arith

abbrev large_exponent : List ℕ
large_exponent = b'R' ∷ b'E' ∷ b'M' ∷ b'B' ∷ 0 ∷ 128 ∷ 0 ∷ 1 ∷ []

large_named : is_remb large_exponent ≡ true
unfolding is_remb
large_named = refl

too_large : 32 ≤ exponent_of 128
unfolding exponent_of
too_large = omega arith

remb_get_packet-Parses_example : Parses one_ssrc blank
remb_get_packet-Parses_example =
    remb_get_packet-Parses one_ssrc blank refl one_ssrc-AllBytes one_ssrc_exponent

large_exponent_undefined : remb_get_packet remb large_exponent blank ≡ none
large_exponent_undefined =
    remb_get_packet-undefined large_exponent blank large_named (omega arith) refl too_large
