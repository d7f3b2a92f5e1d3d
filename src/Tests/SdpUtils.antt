-- ===== src/Tests/SdpUtils.antt =====
-- sdp_utils.c at a media that is only sent.
use text.Mathlib.Text.{◌==◌ as str_eq}
use text.Mathlib.TextEquality.{eq_iff}
use Prim.Native.String.{String}
use kms_core.Prelude.{◌≡◌, ◌==◌, refl, true, false, List, [], ◌∷◌, arith}
use kms_core.SdpUtils.{
  Direction, sendonly, recvonly, sendrecv, inactive, word, Attribute, intersect_media_attributes,
}
use kms_core.SdpUtils.Attributes.{index, Caseless}
use kms_core.SdpUtils.Answering.{Mirrors, intersect_media_attributes-Mirrors}

exact_apart : (d e : Direction) → (index d == index e) ≡ false → str_eq (word d) (word e) ≡ false
exact_apart sendonly sendonly h = absurd (ground arith)
exact_apart sendonly recvonly h = refl
exact_apart sendonly sendrecv h = refl
exact_apart sendonly inactive h = refl
exact_apart recvonly sendonly h = refl
exact_apart recvonly recvonly h = absurd (ground arith)
exact_apart recvonly sendrecv h = refl
exact_apart recvonly inactive h = refl
exact_apart sendrecv sendonly h = refl
exact_apart sendrecv recvonly h = refl
exact_apart sendrecv sendrecv h = absurd (ground arith)
exact_apart sendrecv inactive h = refl
exact_apart inactive sendonly h = refl
exact_apart inactive recvonly h = refl
exact_apart inactive sendrecv h = refl
exact_apart inactive inactive h = absurd (ground arith)

no_word :
    (name : String)
    → str_eq name "sendonly" ≡ false
    → str_eq name "recvonly" ≡ false
    → str_eq name "sendrecv" ≡ false
    → str_eq name "inactive" ≡ false
    → (d : Direction) → str_eq name (word d) ≡ false
no_word name a b c d sendonly = a
no_word name a b c d recvonly = b
no_word name a b c d sendrecv = c
no_word name a b c d inactive = d

str_eq-Caseless : Caseless str_eq
str_eq-Caseless = record {
  self = λ s. (eq_iff s s).1 refl;
  apart = exact_apart;
  setup = no_word "setup" refl refl refl refl;
  comedia = no_word "direction" refl refl refl refl;
  connection = no_word "connection" refl refl refl refl;
}

abbrev offered : List Attribute
offered =
    record { key = "setup"; value = "actpass" }
    ∷ record { key = "sendonly"; value = "" }
    ∷ record { key = "mid"; value = "video0" }
    ∷ []

intersect_media_attributes-Mirrors_example :
    ((intersect_media_attributes str_eq offered).1 ≡ true)
    × Mirrors str_eq str_eq-Caseless offered (intersect_media_attributes str_eq offered).0
intersect_media_attributes-Mirrors_example =
    intersect_media_attributes-Mirrors str_eq str_eq-Caseless offered
