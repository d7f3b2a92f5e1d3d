-- ===== src/SdpGroupManager/Attributes.antt =====
-- kmssdpgroupmanager.c and kmssdpbasegroup.c: the group attributes of offers and answers. Those of a
-- message are the list of their values; `tokens val` is `g_strsplit (val, " ", -1)`, whose first token
-- is that of a split in two. An access past the end of the tokens is none.
use Prim.Native.String.{String, ◌++◌ as append}
use text.Mathlib.Text.{◌==◌ as str_eq}
use kms_core.Prelude.{
  ℕ, Bool, true, false, Option, none, some, List, [], ◌∷◌, ◌==◌, get_elem?, if◌then◌else◌,
}
use kms_core.SdpGroupManager.{Group, GroupManager, is_mid_used, get_group}

-- A media of a message.
pub record Media : Type 0 where
  pub mid : Option String
  pub port : ℕ

-- Whether the first token is the semantics: `g_strcmp0 (semantics, values[0]) == 0`.
abbrev pub is_semantics : String → List String → Bool
is_semantics semantics [] = false
is_semantics semantics (token ∷ values) = str_eq semantics token

-- The loop of `is_mid_in_group` over the tokens behind the first.
unfoldable pub is_mid_among : List String → String → Option Bool
is_mid_among [] mid = none
is_mid_among (token ∷ values) mid = some (is_mid_used values mid)

module _ (tokens : String → List String) where
  -- `is_mid_in_group`.
  unfoldable pub is_mid_in_group : String → String → Option Bool
  is_mid_in_group group_attr mid = is_mid_among (tokens group_attr) mid

  -- `kms_sdp_group_manager_get_group_val`, and `kms_sdp_base_group_is_offered`.
  unfoldable pub get_group_val : String → List String → Option String
  get_group_val semantics [] = none
  get_group_val semantics (val ∷ vals) =
      if is_semantics semantics (tokens val) then some val else get_group_val semantics vals

  -- The loop of `kms_sdp_group_manager_is_handler_valid_for_groups_impl` for a handler without group.
  unfoldable pub in_no_group : List String → String → Option Bool
  in_no_group [] mid = some true
  in_no_group (val ∷ vals) mid = elim (is_mid_in_group val mid) [
    | none ↦ none
    | some true ↦ some false
    | some false ↦ in_no_group vals mid
  ]

  -- The same function for a handler with a group, for the group's value in the offer.
  unfoldable pub in_offered_group : Option String → String → Option Bool
  in_offered_group none mid = some false
  in_offered_group (some val) mid = is_mid_in_group val mid

  -- `kms_sdp_group_manager_is_handler_valid_for_groups_impl`, for the mid of the media.
  unfoldable pub is_handler_valid_for_groups :
      GroupManager → Option String → List String → ℕ → Option Bool
  is_handler_valid_for_groups self none offer hid = elim (get_group self.groups hid) [
    | none ↦ some true
    | some group ↦ some false
  ]
  is_handler_valid_for_groups self (some mid) offer hid = elim (get_group self.groups hid) [
    | none ↦ in_no_group offer mid
    | some group ↦ in_offered_group (get_group_val group.semantics offer) mid
  ]

-- `val->filter`, which starts with the semantics: none lets every mid pass.
abbrev pub passes : Option (List String) → String → Bool
passes none mid = true
passes (some []) mid = false
passes (some (token ∷ values)) mid = is_mid_used values mid

-- `append_enabled_medias`, for the index of the handler, where none is a negative one.
unfoldable pub append_enabled_medias :
    Option (List String) → List Media → Option ℕ → String → String
append_enabled_medias filter msg none str = str
append_enabled_medias filter msg (some index) str = elim (get_elem? msg index) [
  | none ↦ str
  | some media ↦ elim media.mid [
    | none ↦ str
    | some mid ↦
        if media.port == 0
        then str
        else if passes filter mid
        then append str (append " " mid)
        else str
  ]
]

-- `g_slist_foreach` with `append_enabled_medias`; `index` is the property of the media handlers.
unfoldable pub append_all :
    Option (List String) → List Media → (ℕ → Option ℕ) → List ℕ → String → String
append_all filter msg index [] str = str
append_all filter msg index (hid ∷ hids) str =
    append_all filter msg index hids (append_enabled_medias filter msg (index hid) str)

-- `kms_sdp_base_group_add_offer_attributes_impl`: the value of the group attribute, if it adds one.
unfoldable pub add_offer_attributes : Group → (ℕ → Option ℕ) → List Media → Option String
add_offer_attributes self index offer =
    if self.pre_proc then none else some (append_all none offer index self.handlers self.semantics)

module _ (tokens : String → List String) where
  -- `kms_sdp_base_group_add_answer_attributes_impl`, for the group values of the offer and the medias
  -- of the answer: the value of the group attribute, if it adds one.
  unfoldable pub add_answer_attributes :
      Group → (ℕ → Option ℕ) → List String → List Media → Option String
  add_answer_attributes self index offer answer =
      if self.pre_proc then none else elim (get_group_val tokens self.semantics offer) [
        | none ↦ none
        | some group ↦
            some (append_all (some (tokens group)) answer index self.handlers self.semantics)
      ]
