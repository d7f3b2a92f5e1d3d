-- ===== src/SdpGroupManager/Grouping.antt =====
-- kmssdpgroupmanager.c: groups and their members keep what holds between the calls.
use kms_core.Prelude.{
  ℕ, ◌+◌, ◌-◌, ◌^◌, ◌≡◌, subst, inl, inr, some, [], ◌==◌, arith, Bool-cases, Option-cases,
}
use kms_core.Prelude.Tables.{All-insert, All-lookup, lookup, insert}
use kms_core.SdpGroupManager.{
  Group, GroupManager, add_media_handler, remove_media_handler, add_group, add_handler_to_group,
  remove_handler_from_group,
}
use kms_core.SdpGroupManager.Members.{Known, Known-join, Known-leave}
use kms_core.SdpGroupManager.Consistency.{IsConsistent}

regrouped :
    (self : GroupManager) (gid : ℕ) (group : Group)
    → Known self.handlers group
    → IsConsistent self
    → IsConsistent (record self { groups = insert self.groups gid group })
regrouped self gid group k c = record {
  valid = record { counted = c.valid.counted; word = c.valid.word };
  distinct = c.distinct;
  known = All-insert (Known self.handlers) self.groups gid group c.known k;
}

pub add_handler_to_group-IsConsistent :
    (self : GroupManager) (gid hid : ℕ)
    → IsConsistent self
    → IsConsistent (add_handler_to_group self gid hid).0
unfolding add_handler_to_group
add_handler_to_group-IsConsistent self gid hid c = elim (Option-cases (lookup self.handlers hid)) [
  | inl missing ↦ rw (missing, add_handler_to_group) c
  | inr (ext_data, there) ↦ elim (Option-cases (lookup self.groups gid)) [
    | inl missing ↦ rw (there, add_handler_to_group) (rw missing c)
    | inr (group, at) ↦
        rw (there, add_handler_to_group)
          (rw at (
            regrouped self gid (add_media_handler group hid)
              (Known-join self.handlers hid ext_data group there
                (All-lookup (Known self.handlers) self.groups gid group c.known at))
              c))
  ]
]

pub remove_handler_from_group-IsConsistent :
    (self : GroupManager) (gid hid : ℕ)
    → IsConsistent self
    → IsConsistent (remove_handler_from_group self gid hid).0
unfolding remove_handler_from_group
remove_handler_from_group-IsConsistent self gid hid c =
    elim (Option-cases (lookup self.handlers hid)) [
      | inl missing ↦ rw (missing, remove_handler_from_group) c
      | inr (ext_data, there) ↦ elim (Option-cases (lookup self.groups gid)) [
        | inl missing ↦ rw (there, remove_handler_from_group) (rw missing c)
        | inr (group, at) ↦
            rw (there, remove_handler_from_group)
              (rw at (
                regrouped self gid (remove_media_handler group hid)
                  (Known-leave self.handlers hid group
                    (All-lookup (Known self.handlers) self.groups gid group c.known at))
                  c))
      ]
    ]

added_group :
    (self after : GroupManager) (group : Group) (gid : ℕ)
    → add_group self group ≡ some (after, gid)
    → (record self { gid = self.gid + 1; groups = insert self.groups self.gid group }) ≡ after
unfolding add_group
added_group self after group gid h = elim (Bool-cases (self.gid == 2 ^ 31 - 1)) [
  | inl last ↦ absurd (ground arith)
  | inr room ↦ ground arith
]

pub add_group-IsConsistent :
    (self after : GroupManager) (group : Group) (gid : ℕ)
    → group.handlers ≡ []
    → add_group self group ≡ some (after, gid)
    → IsConsistent self
    → IsConsistent after
add_group-IsConsistent self after group gid empty h c =
    let grouped =
      regrouped self self.gid group
        (record { registered = λ h m. absurd (ground (arith, empty)); once = rw empty tt }) c in
    subst IsConsistent (added_group self after group gid h) (record {
      valid = record { counted = grouped.valid.counted; word = grouped.valid.word };
      distinct = grouped.distinct;
      known = grouped.known;
    })
