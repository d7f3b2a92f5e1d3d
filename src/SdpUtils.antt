-- ===== src/SdpUtils.antt =====
-- src/gst-plugins/commons/sdp_utils.c: the directions of a media, the attributes of an answer and the
-- setup role. A media is the list of its attributes. `alike` is `g_ascii_strcasecmp (a, b) == 0`.
pub mod Attributes
pub mod Answering
use text.Mathlib.Text.{◌==◌ as str_eq}
use Prim.Native.String.{String}
use kms_core.Prelude.{Bool, true, false, not, Option, none, some, List, [], ◌∷◌, if◌then◌else◌}

-- `GstSDPDirection`.
pub data Direction : Type 0 where
  sendonly : Direction
  recvonly : Direction
  sendrecv : Direction
  inactive : Direction

-- The table `directions`.
abbrev pub word : Direction → String
word sendonly = "sendonly"
word recvonly = "recvonly"
word sendrecv = "sendrecv"
word inactive = "inactive"

pub record Attribute : Type 0 where
  pub key : String
  pub value : String

-- `sdp_utils_add_setup_attribute`: the value in the answer.
unfoldable pub answer_setup : String → String
answer_setup value =
    if str_eq value "active"
    then "passive"
    else if str_eq value "passive"
    then "active"
    else if str_eq value "actpass"
    then "active"
    else "holdconn"

-- `sdp_utils_add_comedia_attribute`: the value in the answer.
unfoldable pub answer_comedia : String → String
answer_comedia value = if str_eq value "active" then "passive" else "active"

-- `sdp_utils_media_is_active`, for the value of the first `setup` attribute, if there is one.
unfoldable pub media_is_active : Option String → Bool → Bool
media_is_active none offerer = not offerer
media_is_active (some setup) true =
    if str_eq setup "active" then false else if str_eq setup "passive" then true else false
media_is_active (some setup) false =
    if str_eq setup "active" then true else if str_eq setup "passive" then false else true

module _ (alike : String → String → Bool) where
  -- `sdp_utils_attribute_is_direction`, with the direction that it stores; none is FALSE.
  unfoldable pub direction_of : String → Option Direction
  direction_of key =
      if alike key "sendonly"
      then some sendonly
      else if alike key "recvonly"
      then some recvonly
      else if alike key "sendrecv"
      then some sendrecv
      else if alike key "inactive"
      then some inactive
      else none

  -- `sdp_utils_media_config_get_direction`.
  unfoldable pub get_direction : List Attribute → Direction
  get_direction [] = sendrecv
  get_direction (a ∷ attributes) = elim (direction_of a.key) [
    | some direction ↦ direction
    | none ↦ get_direction attributes
  ]

  -- `sdp_utils_set_direction_answer`; none is FALSE.
  unfoldable pub answer_direction : String → Option Attribute
  answer_direction key =
      if alike key "sendonly"
      then some (record { key = "recvonly"; value = "" })
      else if alike key "recvonly"
      then some (record { key = "sendonly"; value = "" })
      else if alike key "sendrecv"
      then some (record { key = "sendrecv"; value = "" })
      else if alike key "inactive"
      then some (record { key = "inactive"; value = "" })
      else none

  abbrev pub is_direction : Option Direction → Bool
  is_direction none = false
  is_direction (some direction) = true

  -- `intersect_attribute`: what the callback gets; none is FALSE.
  unfoldable pub intersect_attribute : Attribute → Option Attribute
  intersect_attribute a =
      if str_eq a.key "setup"
      then some (record a { value = answer_setup a.value })
      else if str_eq a.key "direction"
      then some (record a { value = answer_comedia a.value })
      else if str_eq a.key "connection"
      then some (record { key = "connection"; value = "new" })
      else if is_direction (direction_of a.key)
      then answer_direction a.key
      else some a

  -- `sdp_utils_intersect_media_attributes`: what the callback gets, in this order, and the result.
  unfoldable pub intersect_media_attributes : List Attribute → List Attribute × Bool
  intersect_media_attributes [] = ([], true)
  intersect_media_attributes (a ∷ offer) =
      let (rest, done) = intersect_media_attributes offer in
      elim (intersect_attribute a) [ none ↦ ([], false) | some answer ↦ (answer ∷ rest, done) ]
