-- ===== src/SdpGroupManager/Reaching.antt =====
-- kmssdpgroupmanager.c: what holds after any calls and signals, in any order.
use Prim.Native.String.{String}
use mathlib.Core.Option.{some-injective}
use kms_core.Prelude.{
  ℕ, ◌≡◌, refl, subst, inl, inr, Bool, true, false, Option, none, some, arith, Bool-cases,
  Option-cases,
}
use kms_core.Prelude.Tables.{All-weaken, lookup, insert}
use kms_core.SdpGroupManager.{
  MidExtData, GroupManager, new_group_manager, is_mid, on_offer_mid, on_answer_mid, add_offer_mid,
  add_answer_mid, add_handler, remove_handler, add_group,
}
use kms_core.SdpGroupManager.Holding.{new-IsValid, held-insert_new, held-delete}
use kms_core.SdpGroupManager.Members.{Known, Known-insert, All-Known-remove}
use kms_core.SdpGroupManager.Mids.{Distinct-insert, Distinct-delete}
use kms_core.SdpGroupManager.Consistency.{
  IsConsistent, update_mid-IsConsistent, on_offer_mid-IsConsistent,
}
use kms_core.SdpGroupManager.Steps.{
  GroupCall, adds_handler, removes_handler, offers_mid, answers_mid, adds_group, joins_group,
  leaves_group, group_step, IsFree, Behaves, Reaches, start, next,
}
use kms_core.SdpGroupManager.Grouping.{
  add_handler_to_group-IsConsistent, remove_handler_from_group-IsConsistent, add_group-IsConsistent,
}

new-IsConsistent : IsConsistent new_group_manager
new-IsConsistent = record {
  valid = new-IsValid;
  distinct = λ i j one other mid at_i at_j has_i has_j. absurd (ground arith);
  known = tt;
}

add_handler-IsConsistent :
    (self : GroupManager) (hid : ℕ) (media : String) (added : Bool)
    → IsConsistent self
    → IsConsistent (add_handler self hid media added)
unfolding add_handler
add_handler-IsConsistent self hid media false c = c
add_handler-IsConsistent self hid media true c =
    let new : MidExtData = record { media = media; mid = none } in
    record {
      valid = record {
        counted = λ mid.
            omega (arith, c.valid.counted mid, held-insert_new self.handlers hid new mid refl);
        word = c.valid.word;
      };
      distinct =
          Distinct-insert self.handlers hid new (λ j other m ne at has. absurd (ground arith))
            c.distinct;
      known =
          All-weaken (Known self.handlers) (Known (insert self.handlers hid new)) self.groups
            (λ group k. Known-insert self.handlers hid new group k) c.known;
    }

remove_handler-IsConsistent :
    (self : GroupManager) (hid : ℕ) → IsConsistent self → IsConsistent (remove_handler self hid).0
unfolding remove_handler
remove_handler-IsConsistent self hid c = elim (Option-cases (lookup self.handlers hid)) [
  | inl missing ↦ rw (missing, remove_handler) c
  | inr (ext_data, there) ↦
      rw (there, remove_handler)
        (record {
          valid = record {
            counted = λ mid. omega (arith, c.valid.counted mid, held-delete self.handlers hid mid);
            word = c.valid.word;
          };
          distinct = Distinct-delete self.handlers hid c.distinct;
          known = All-Known-remove self.handlers hid self.groups c.known;
        })
]

answered-IsConsistent :
    (self : GroupManager) (hid : ℕ) (negotiated : Bool) (mid : String) (ext_data : MidExtData)
    → lookup self.handlers hid ≡ some ext_data
    → (negotiated ≡ false → IsFree self hid mid)
    → IsConsistent self
    → IsConsistent (on_answer_mid self hid negotiated mid).0
unfolding on_answer_mid
answered-IsConsistent self hid false mid ext_data there free c =
    rw (there, on_answer_mid) (update_mid-IsConsistent self hid ext_data mid there (free refl) c)
answered-IsConsistent self hid true mid ext_data there free c =
    elim (Bool-cases (is_mid ext_data.mid mid)) [
      | inl same ↦ rw (there, on_answer_mid) (rw same c)
      | inr differs ↦ rw (there, on_answer_mid) (rw differs c)
    ]

on_answer_mid-IsConsistent :
    (self : GroupManager) (hid : ℕ) (negotiated : Bool) (mid : String)
    → (negotiated ≡ false → IsFree self hid mid)
    → IsConsistent self
    → IsConsistent (on_answer_mid self hid negotiated mid).0
unfolding on_answer_mid
on_answer_mid-IsConsistent self hid negotiated mid free c =
    elim (Option-cases (lookup self.handlers hid)) [
      | inl missing ↦ rw (missing, on_answer_mid) c
      | inr (ext_data, there) ↦
          (answered-IsConsistent self hid negotiated mid ext_data there free c)
    ]

step_some :
    (made : GroupManager) (after : GroupManager)
    → some made ≡ some after
    → IsConsistent made
    → IsConsistent after
step_some made after h c = subst IsConsistent (some-injective made after h) c

Behaves-IsFree :
    (self : GroupManager) (hid : ℕ) (negotiated : Bool) (mid : String)
    → Behaves self (answers_mid hid negotiated (some mid) none)
    → negotiated ≡ false
    → IsFree self hid mid
Behaves-IsFree self hid false mid b new = b
Behaves-IsFree self hid true mid b new = absurd (ground arith)

answer-IsConsistent :
    (self : GroupManager) (hid : ℕ) (negotiated : Bool) (offer answer : Option String)
    → Behaves self (answers_mid hid negotiated offer answer)
    → IsConsistent self
    → IsConsistent (add_answer_mid self hid negotiated offer answer).0
unfolding add_answer_mid
answer-IsConsistent self hid negotiated offer (some mid) b c = c
answer-IsConsistent self hid negotiated none none b c = c
answer-IsConsistent self hid negotiated (some mid) none b c =
    let done =
      on_answer_mid-IsConsistent self hid negotiated mid (Behaves-IsFree self hid negotiated mid b)
        c in
    elim (Bool-cases (on_answer_mid self hid negotiated mid).1) [
      | inl accepted ↦ rw accepted done
      | inr refused ↦ rw refused done
    ]

step-IsConsistent :
    (format : String → ℕ → String) (self after : GroupManager) (call : GroupCall)
    → Behaves self call
    → group_step format self call ≡ some after
    → IsConsistent self
    → IsConsistent after
unfolding group_step add_offer_mid
step-IsConsistent format self after (adds_handler hid media added) b h c =
    step_some _ after h (add_handler-IsConsistent self hid media added c)
step-IsConsistent format self after (removes_handler hid) b h c =
    step_some _ after h (remove_handler-IsConsistent self hid c)
step-IsConsistent format self after (offers_mid hid (some mid)) b h c = step_some self after h c
step-IsConsistent format self after (offers_mid hid none) b h c =
    elim (Option-cases (on_offer_mid format self hid)) [
      | inl failed ↦ absurd (ground arith)
      | inr ((made, mid), offered) ↦
          step_some made after (ground arith)
            (on_offer_mid-IsConsistent format self made hid mid offered c)
    ]
step-IsConsistent format self after (answers_mid hid negotiated offer answer) b h c =
    step_some _ after h (answer-IsConsistent self hid negotiated offer answer b c)
step-IsConsistent format self after (adds_group group) b h c =
    elim (Option-cases (add_group self group)) [
      | inl failed ↦ absurd (ground arith)
      | inr ((made, gid), added) ↦
          step_some made after (ground arith) (add_group-IsConsistent self made group gid b added c)
    ]
step-IsConsistent format self after (joins_group gid hid) b h c =
    step_some _ after h (add_handler_to_group-IsConsistent self gid hid c)
step-IsConsistent format self after (leaves_group gid hid) b h c =
    step_some _ after h (remove_handler_from_group-IsConsistent self gid hid c)

-- Whatever calls and signals a new manager gets, in any order, if a handler is added while it is not
-- there, groups are empty when they are added and a remote side gives a handler that has not negotiated
-- no other handler's mid: the mids that handlers have are in use at least as often, no two handlers
-- have one mid, and the members of each group are registered handlers, each once.
pub Reaches-IsConsistent :
    (format : String → ℕ → String) (self : GroupManager) → Reaches format self → IsConsistent self
Reaches-IsConsistent format self start = new-IsConsistent
Reaches-IsConsistent format self (next {self = before} r call b h) =
    step-IsConsistent format before self call b h (Reaches-IsConsistent format before r)
