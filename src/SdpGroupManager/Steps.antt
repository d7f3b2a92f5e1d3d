-- ===== src/SdpGroupManager/Steps.antt =====
-- kmssdpgroupmanager.c: the calls and signals that change a manager, in any order.
use Prim.Native.String.{String}
use kms_core.Prelude.{ℕ, ◌≡◌, ◌≢◌, Bool, false, Option, none, some, []}
use kms_core.Prelude.Tables.{lookup}
use kms_core.SdpGroupManager.{
  MidExtData, Group, GroupManager, new_group_manager, is_mid, add_offer_mid, add_answer_mid,
  add_handler, remove_handler, add_group, add_handler_to_group, remove_handler_from_group,
}

pub data GroupCall : Type 0 where
  adds_handler : (hid : ℕ) (media : String) (added : Bool) → GroupCall
  removes_handler : (hid : ℕ) → GroupCall
  offers_mid : (hid : ℕ) (offer : Option String) → GroupCall
  answers_mid : (hid : ℕ) (negotiated : Bool) (offer answer : Option String) → GroupCall
  adds_group : (group : Group) → GroupCall
  joins_group : (gid hid : ℕ) → GroupCall
  leaves_group : (gid hid : ℕ) → GroupCall

module _ (format : String → ℕ → String) where
  unfoldable pub group_step : GroupManager → GroupCall → Option GroupManager
  group_step self (adds_handler hid media added) = some (add_handler self hid media added)
  group_step self (removes_handler hid) = some (remove_handler self hid).0
  group_step self (offers_mid hid offer) = elim (add_offer_mid format self hid offer) [
    | none ↦ none
    | some (after, mid) ↦ some after
  ]
  group_step self (answers_mid hid negotiated offer answer) =
      some (add_answer_mid self hid negotiated offer answer).0
  group_step self (adds_group group) = elim (add_group self group) [
    | none ↦ none
    | some (after, gid) ↦ some after
  ]
  group_step self (joins_group gid hid) = some (add_handler_to_group self gid hid).0
  group_step self (leaves_group gid hid) = some (remove_handler_from_group self gid hid).0

-- No handler but this one has the mid.
abbrev pub IsFree : GroupManager → ℕ → String → Type 0
IsFree self hid mid =
    (j : ℕ) (other : MidExtData)
    → j ≢ hid
    → lookup self.handlers j ≡ some other
    → is_mid other.mid mid ≡ false

-- A handler that is added is not there, a group that is added is new, and the mid that a remote side
-- gives a handler that has not negotiated is no other handler's.
abbrev pub Behaves : GroupManager → GroupCall → Type 0
Behaves self (answers_mid hid false (some mid) none) = IsFree self hid mid
Behaves self (adds_handler hid media added) = lookup self.handlers hid ≡ none
Behaves self (adds_group group) = group.handlers ≡ []
Behaves self c = Unit

pub data Reaches (format : String → ℕ → String) : GroupManager → Type 0 where
  start : Reaches format new_group_manager
  next :
      {self after : GroupManager}
      → Reaches format self
      → (c : GroupCall) → Behaves self c
      → group_step format self c ≡ some after
      → Reaches format after
