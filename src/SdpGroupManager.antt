-- ===== src/SdpGroupManager.antt =====
-- src/gst-plugins/commons/sdpagent/kmssdpgroupmanager.c, with the groups' lists of handlers in
-- kmssdpbasegroup.c and the mid attributes in kmssdpmidext.c. Handlers are known by their ids. The
-- tables `handlers` and `connected_signals`, which get and lose their keys together, are one, with the
-- data of the handler's callbacks as values.
pub mod Attributes
pub mod Assigning
pub mod Mids
pub mod Listing
pub mod Answering
pub mod Grouping
pub mod Reaching
pub mod Consistency
pub mod Steps
pub mod Members
pub mod Offering
pub mod Holding
use Prim.Native.String.{String}
use text.Mathlib.Text.{◌==◌ as str_eq}
use kms_core.Prelude.{
  ℕ, zero, suc, ◌+◌, ◌-◌, ◌%◌, ◌^◌, Bool, true, false, ◌||◌, Option, none, some, List, [], ◌∷◌,
  ◌++◌, ◌==◌, length, if◌then◌else◌,
}
use kms_core.Prelude.Sets.{member}
use kms_core.Prelude.Tables.{Entry, lookup, insert, delete}

-- `MidExtData`, for a handler of the media.
pub record MidExtData : Type 0 where
  pub media : String
  pub mid : Option String

-- `KmsSdpBaseGroupPrivate`.
pub record Group : Type 0 where
  pub semantics : String
  pub pre_proc : Bool
  pub handlers : List ℕ

-- `KmsSdpGroupManagerPrivate`.
pub record GroupManager : Type 0 where
  pub gid : ℕ
  pub groups : List (Entry Group)
  pub handlers : List (Entry MidExtData)
  pub mids : String → Option ℕ
  pub used_mids : List String

-- `kms_sdp_group_manager_new`.
abbrev pub new_group_manager : GroupManager
new_group_manager = record {
  gid = 0;
  groups = [];
  handlers = [];
  mids = λ media. none;
  used_mids = [];
}

-- `kms_sdp_group_manager_is_mid_used`, for the list of those in use.
abbrev pub is_mid_used : List String → String → Bool
is_mid_used [] mid = false
is_mid_used (id ∷ used) mid = str_eq id mid || is_mid_used used mid

abbrev pub counter_of : Option ℕ → ℕ
counter_of none = 0
counter_of (some counter) = counter

-- `format media n` is `g_strdup_printf ("%s%u", media, n)`.
module _ (format : String → ℕ → String) where
  -- The loop of `kms_sdp_group_manager_assign_mid`: a mid that is not in use, and the counter.
  unfoldable pub next_mid : ℕ → String → List String → ℕ → Option (String × ℕ)
  next_mid zero media used counter = none
  next_mid (suc fuel) media used counter =
      let mid = format media counter in
      let rest = next_mid fuel media used ((counter + 1) % 2 ^ 32) in
      if is_mid_used used mid then rest else some (mid, (counter + 1) % 2 ^ 32)

  -- `kms_sdp_group_manager_assign_mid`, for the handler's media.
  unfoldable pub assign_mid : GroupManager → String → Option (GroupManager × String)
  assign_mid self media =
      elim (next_mid (suc (length self.used_mids)) media self.used_mids
        (counter_of (self.mids media))) [
          | none ↦ none
          | some (mid, counter) ↦ some (
            record self { mids = λ m. if str_eq m media then some counter else self.mids m },
            mid,
          )
        ]

-- `g_slist_delete_link (used_mids, g_slist_find_custom (used_mids, mid, g_strcmp0))`.
unfoldable pub release_mid : List String → Option String → List String
release_mid used none = used
release_mid [] (some mid) = []
release_mid (id ∷ used) (some mid) =
    if str_eq id mid then used else id ∷ release_mid used (some mid)

-- `kms_sdp_group_manager_update_mid`, for the data of the handler `hid`.
unfoldable pub update_mid : GroupManager → ℕ → MidExtData → String → GroupManager
update_mid self hid ext_data mid = record self {
  used_mids = release_mid self.used_mids ext_data.mid ++ (mid ∷ []);
  handlers = insert self.handlers hid (record ext_data { mid = some mid });
}

module _ (format : String → ℕ → String) where
  -- `on_offer_mid_cb`, once the handler has no mid.
  unfoldable pub offer_new_mid :
      GroupManager → ℕ → MidExtData → Option (GroupManager × Option String)
  offer_new_mid self hid ext_data = elim (assign_mid format self ext_data.media) [
    | none ↦ none
    | some (assigned, mid) ↦ some (update_mid assigned hid ext_data mid, some mid)
  ]

  -- The signal "on-offer-mid" of the handler's extension: `on_offer_mid_cb`, while it is connected.
  unfoldable pub on_offer_mid : GroupManager → ℕ → Option (GroupManager × Option String)
  on_offer_mid self hid = elim (lookup self.handlers hid) [
    | none ↦ some (self, none)
    | some ext_data ↦ elim ext_data.mid [
      | some mid ↦ some (self, some mid)
      | none ↦ offer_new_mid self hid ext_data
    ]
  ]

  -- `kms_sdp_mid_ext_add_offer_attributes`, for the media's mid: the mid that it has then.
  unfoldable pub add_offer_mid :
      GroupManager → ℕ → Option String → Option (GroupManager × Option String)
  add_offer_mid self hid (some mid) = some (self, some mid)
  add_offer_mid self hid none = on_offer_mid self hid

abbrev pub is_mid : Option String → String → Bool
is_mid none mid = false
is_mid (some other) mid = str_eq other mid

-- The signal "on-answer-mid" of the handler's extension: `on_answer_mid_cb`, while it is connected.
unfoldable pub on_answer_mid : GroupManager → ℕ → Bool → String → GroupManager × Bool
on_answer_mid self hid negotiated mid = elim (lookup self.handlers hid) [
  | none ↦ (self, false)
  | some ext_data ↦ elim negotiated [
    | false ↦ (update_mid self hid ext_data mid, true)
    | true ↦ if is_mid ext_data.mid mid then (self, true) else (self, false)
  ]
]

-- `kms_sdp_mid_ext_add_answer_attributes`, for the mids of the offered media and of the answer: the mid
-- that the answer has then, and FALSE for an error.
unfoldable pub add_answer_mid :
    GroupManager → ℕ → Bool → Option String → Option String → GroupManager × Option String × Bool
add_answer_mid self hid negotiated offered (some mid) = (self, some mid, true)
add_answer_mid self hid negotiated none none = (self, none, true)
add_answer_mid self hid negotiated (some mid) none =
    let (after, ret) = on_answer_mid self hid negotiated mid in
    if ret then (after, some mid, true) else (after, none, false)

-- `kms_sdp_group_manager_add_handler_impl`; `added` is whether the media handler takes the extension.
unfoldable pub add_handler : GroupManager → ℕ → String → Bool → GroupManager
add_handler self hid media true = record self {
  handlers = insert self.handlers hid (record { media = media; mid = none });
}
add_handler self hid media false = self

-- `kms_sdp_base_group_add_media_handler_impl`.
unfoldable pub add_media_handler : Group → ℕ → Group
add_media_handler grp hid =
    if member hid grp.handlers then grp else record grp { handlers = grp.handlers ++ (hid ∷ []) }

-- `g_slist_remove`.
abbrev pub remove_first : List ℕ → ℕ → List ℕ
remove_first [] hid = []
remove_first (id ∷ ids) hid = if id == hid then ids else id ∷ remove_first ids hid

-- `kms_sdp_base_group_remove_media_handler_impl`.
unfoldable pub remove_media_handler : Group → ℕ → Group
remove_media_handler grp hid =
    if member hid grp.handlers then record grp { handlers = remove_first grp.handlers hid } else grp

-- `kms_sdp_group_manager_remove_handler_from_groups`.
unfoldable pub remove_from_groups : List (Entry Group) → ℕ → List (Entry Group)
remove_from_groups [] hid = []
remove_from_groups (e ∷ groups) hid =
    record e { value = remove_media_handler e.value hid } ∷ remove_from_groups groups hid

-- `kms_sdp_group_manager_remove_handler_impl`.
unfoldable pub remove_handler : GroupManager → ℕ → GroupManager × Bool
remove_handler self hid = elim (lookup self.handlers hid) [
  | none ↦ (self, true)
  | some ext_data ↦ (
    record self {
      groups = remove_from_groups self.groups hid;
      handlers = delete self.handlers hid;
    },
    true,
  )
]

-- `kms_sdp_group_manager_add_group_impl`; the overflow of a gint is none.
unfoldable pub add_group : GroupManager → Group → Option (GroupManager × ℕ)
add_group self group =
    if self.gid == 2 ^ 31 - 1
    then none
    else some
        (record self { gid = self.gid + 1; groups = insert self.groups self.gid group }, self.gid)

-- `kms_sdp_group_manager_add_handler_to_group_impl`.
unfoldable pub add_handler_to_group : GroupManager → ℕ → ℕ → GroupManager × Bool
add_handler_to_group self gid hid = elim (lookup self.handlers hid) [
  | none ↦ (self, false)
  | some ext_data ↦ elim (lookup self.groups gid) [
    | none ↦ (self, false)
    | some group ↦
        (record self { groups = insert self.groups gid (add_media_handler group hid) }, true)
  ]
]

-- `kms_sdp_group_manager_remove_handler_from_group_impl`.
unfoldable pub remove_handler_from_group : GroupManager → ℕ → ℕ → GroupManager × Bool
remove_handler_from_group self gid hid = elim (lookup self.handlers hid) [
  | none ↦ (self, false)
  | some ext_data ↦ elim (lookup self.groups gid) [
    | none ↦ (self, false)
    | some group ↦
        (record self { groups = insert self.groups gid (remove_media_handler group hid) }, true)
  ]
]

-- `kms_sdp_group_manager_get_group_impl`, for the groups in the order of the table.
unfoldable pub get_group : List (Entry Group) → ℕ → Option Group
get_group [] hid = none
get_group (e ∷ groups) hid =
    if member hid e.value.handlers then some e.value else get_group groups hid
