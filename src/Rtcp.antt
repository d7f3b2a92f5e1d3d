-- ===== src/Rtcp.antt =====
-- src/gst-plugins/commons/kmsrtcp.c and kmsrtcp.h: the REMB feedback message (payload-specific
-- application layer feedback). A mapped buffer is the list of its bytes, and a read or a write
-- outside of it is `none`, as is every other step that C leaves undefined.
pub mod Mantissa
pub mod Words
pub mod RoundTrip
pub mod Safety
use kms_core.Prelude.{
  ℕ, zero, suc, ◌+◌, ◌-◌, ◌*◌, ◌/◌, ◌%◌, ◌^◌, Bool, true, false, not, ◌&&◌, Option, none, some,
  List, [], ◌∷◌, ltb, leb, ◌==◌, if◌then◌else◌, ◌>>=◌, length, get_elem?, store, store_all,
}

pub data AfbType : Type 0 where
  invalid remb : AfbType

-- `KmsRTCPPSFBAFBREMBPacket`: `ssrcs` is the whole array, of which `n_ssrcs` entries are in use.
pub record RembPacket : Type 0 where
  pub bitrate : ℕ
  pub n_ssrcs : ℕ
  pub ssrcs : List ℕ

abbrev pub remb_max_ssrcs_count : ℕ
remb_max_ssrcs_count = 255

-- `x << n` on a guint32: undefined when n reaches the width.
unfoldable pub shl32 : ℕ → ℕ → Option ℕ
shl32 x n = if ltb n 32 then some (x * 2 ^ n % 2 ^ 32) else none

-- `memcmp (fci, "REMB", 4) == 0` on at least four bytes.
unfoldable pub is_remb : List ℕ → Bool
is_remb (a ∷ b ∷ c ∷ d ∷ rest) = a == b'R' && b == b'E' && c == b'M' && d == b'B'
is_remb _ = false

-- `kms_rtcp_psfb_afb_get_packet`: the type of the packet, and whether it could be read.
unfoldable pub get_packet : List ℕ → AfbType × Bool
get_packet fci = if is_remb fci then (remb, true) else (invalid, false)

-- `g_ntohl (*(guint32 *) fci)` at the position `i`.
unfoldable pub read32 : List ℕ → ℕ → Option ℕ
read32 fci i = do
  a ← get_elem? fci i
  b ← get_elem? fci (i + 1)
  c ← get_elem? fci (i + 2)
  d ← get_elem? fci (i + 3)
  some (((a * 256 + b) * 256 + c) * 256 + d)

-- The loop over the feedback SSRCs: `left` rounds, from the position `pos` into the entry `i`.
unfoldable pub read_ssrcs : ℕ → List ℕ → ℕ → ℕ → List ℕ → Option (List ℕ)
read_ssrcs zero fci pos i ssrcs = some ssrcs
read_ssrcs (suc left) fci pos i ssrcs =
    read32 fci pos >>= λ w. store ssrcs i w >>= λ s. read_ssrcs left fci (pos + 4) (suc i) s

-- Bits 0..17 of the three bytes behind the count, and the six bits of the exponent.
unfoldable pub mantissa_of : ℕ → ℕ → ℕ → ℕ
mantissa_of b0 b1 b2 = b0 % 4 * 2 ^ 16 + b1 * 2 ^ 8 + b2

unfoldable pub exponent_of : ℕ → ℕ
exponent_of b0 = b0 / 4 % 64

-- `kms_rtcp_psfb_afb_remb_get_packet` on a packet of type `t`. The packet that the caller passes
-- keeps the fields that are not reached.
unfoldable pub remb_get_packet : AfbType → List ℕ → RembPacket → Option (RembPacket × Bool)
unfolding exponent_of
remb_get_packet invalid fci old = some (old, false)
remb_get_packet remb fci old =
    if not (is_remb fci)
    then some (old, false)
    else if ltb (length fci - 4) 4
    then some (old, false)
    else do
      n ← get_elem? fci 4
      b0 ← get_elem? fci 5
      b1 ← get_elem? fci 6
      b2 ← get_elem? fci 7
      rate ← shl32 (mantissa_of b0 b1 b2) (exponent_of b0)
      let packet = record old { bitrate = rate; n_ssrcs = n }
      if ltb (length fci - 8) (4 * n) then some (packet, false) else do
        words ← read_ssrcs n fci 8 0 old.ssrcs
        some (record packet { ssrcs = words }, true)

-- The loop of `compute_mantissa_and_6_bit_base_2_expoonent`, with `left` rounds to go. When no
-- exponent serves, it leaves 0.
unfoldable pub find_exponent : ℕ → ℕ → ℕ → ℕ → Option ℕ
find_exponent zero i mantissa_max input = some 0
find_exponent (suc left) i mantissa_max input =
    let rest = find_exponent left (suc i) mantissa_max input in
    shl32 mantissa_max i >>= λ top. if leb input top then some i else rest

-- The mantissa and the exponent; `false` refuses the width.
unfoldable pub compute_mantissa : ℕ → ℕ → Option (Bool × ℕ × ℕ)
compute_mantissa input bits = if ltb 32 bits then some (false, 0, 0) else do
  one ← shl32 1 bits
  exponent ← find_exponent 64 0 (one - 1) input
  some (true, input / 2 ^ exponent, exponent)

-- `g_htonl` of a word, byte by byte.
unfoldable pub htonl : ℕ → List ℕ
htonl w = w / 2 ^ 24 % 256 ∷ w / 2 ^ 16 % 256 ∷ w / 2 ^ 8 % 256 ∷ w % 256 ∷ []

unfoldable pub write_ssrcs : ℕ → ℕ → List ℕ → ℕ → List ℕ → Option (List ℕ)
write_ssrcs zero i ssrcs pos fci = some fci
write_ssrcs (suc left) i ssrcs pos fci = get_elem? ssrcs i >>= λ w.
    store_all fci pos (htonl w) >>= λ g. write_ssrcs left (suc i) ssrcs (pos + 4) g

-- The eight bytes in front of the SSRCs.
unfoldable pub remb_header : ℕ → ℕ → ℕ → List ℕ
remb_header n mantissa exponent =
    b'R'
    ∷ b'E'
    ∷ b'M'
    ∷ b'B'
    ∷ n
    ∷ (exponent * 4 + mantissa / 2 ^ 16 % 4) % 256
    ∷ mantissa / 2 ^ 8 % 256
    ∷ mantissa % 256
    ∷ []

-- The part of a `GstRTCPPacket` that the code sets. `fci` is the feedback control information.
pub record FeedbackPacket : Type 0 where
  pub fb_type : ℕ
  pub sender_ssrc : ℕ
  pub media_ssrc : ℕ
  pub fci : List ℕ

abbrev pub psfb_type_afb : ℕ
psfb_type_afb = 15

-- `kms_rtcp_psfb_afb_remb_marshall_packet`. `set_fci_length` is GStreamer's: it resizes the FCI to
-- a number of words, or refuses.
unfoldable pub marshall_packet :
    (List ℕ → ℕ → Option (List ℕ))
    → FeedbackPacket
    → RembPacket
    → ℕ
    → Option (FeedbackPacket × Bool)
marshall_packet set_fci_length rtcp packet sender = do
  (done, mantissa, exponent) ← compute_mantissa packet.bitrate 18
  if not done
      then some (rtcp, false)
      else let typed = record rtcp {
        fb_type = psfb_type_afb;
        sender_ssrc = sender;
        media_ssrc = 0;
      } in
        let len = (length rtcp.fci / 4 % 2 ^ 16 + (2 + packet.n_ssrcs)) % 2 ^ 16 in
        elim (set_fci_length rtcp.fci len) [
          | none ↦ some (typed, false)
          | some fci ↦ do
            headed ← store_all fci 0 (remb_header packet.n_ssrcs mantissa exponent)
            written ← write_ssrcs packet.n_ssrcs 0 packet.ssrcs 8 headed
            some (record typed { fci = written }, true)
        ]
