-- ===== src/SdpGroupManager/Consistency.antt =====
-- kmssdpgroupmanager.c: what holds between the calls, and that the mids of an offer keep it.
use Prim.Native.String.{String}
use text.Mathlib.TextEquality.{eq_iff}
use kms_core.Prelude.{
  ℕ, suc, ◌^◌, ◌<◌, ◌≡◌, ◌∙◌, refl, sym, ap, subst, inl, inr, false, Option, none, some, arith,
  length, Option-cases,
}
use mathlib.Core.Option.{some-injective}
use kms_core.Prelude.Tables.{All, All-weaken, lookup, insert}
use kms_core.SdpGroupManager.{
  MidExtData, GroupManager, next_mid, counter_of, is_mid_used, assign_mid, update_mid,
  offer_new_mid, on_offer_mid,
}
use kms_core.SdpGroupManager.Assigning.{next_mid_free}
use kms_core.SdpGroupManager.Holding.{held_none, uses_unused, IsValid, update_mid-IsValid}
use kms_core.SdpGroupManager.Offering.{
  counted_up, counted_up-IsValid, on_offer_mid_held, on_offer_mid_new,
}
use kms_core.SdpGroupManager.Members.{Known, Known-insert}
use kms_core.SdpGroupManager.Steps.{IsFree}
use kms_core.SdpGroupManager.Mids.{Distinct, Distinct-insert}

-- What holds between the calls: the mids that handlers have are in use as often, no two handlers have
-- one mid, and the members of a group are registered handlers, each once.
pub record IsConsistent (self : GroupManager) : Type 0 where
  pub valid : IsValid self
  pub distinct : Distinct self.handlers
  pub known : All (Known self.handlers) self.groups

pub update_mid-IsConsistent :
    (self : GroupManager) (hid : ℕ) (ext_data : MidExtData) (mid : String)
    → lookup self.handlers hid ≡ some ext_data
    → IsFree self hid mid
    → IsConsistent self
    → IsConsistent (update_mid self hid ext_data mid)
unfolding update_mid
update_mid-IsConsistent self hid ext_data mid there free c =
    let new : MidExtData = record ext_data { mid = some mid } in
    record {
      valid = update_mid-IsValid self hid ext_data mid there c.valid;
      distinct =
          Distinct-insert self.handlers hid new
            (λ j other m ne at has. rw (sym ((eq_iff mid m).0 has)) (free j other ne at))
            c.distinct;
      known =
          All-weaken (Known self.handlers) (Known (insert self.handlers hid new)) self.groups
            (λ group k. Known-insert self.handlers hid new group k) c.known;
    }

counted_up-IsConsistent :
    (self : GroupManager) (media : String) (counter : ℕ)
    → counter < 2 ^ 32
    → IsConsistent self
    → IsConsistent (counted_up self media counter)
unfolding counted_up
counted_up-IsConsistent self media counter word c = record {
  valid = counted_up-IsValid self media counter word c.valid;
  distinct = c.distinct;
  known = c.known;
}

unused-IsFree :
    (self : GroupManager) (hid : ℕ) (mid : String)
    → is_mid_used self.used_mids mid ≡ false
    → IsValid self
    → IsFree self hid mid
unused-IsFree self hid mid unused v j other ne at =
    held_none self.handlers j other mid
      (omega (arith, v.counted mid, uses_unused self.used_mids mid unused)) at

pub came_to :
    (x : Option (GroupManager × Option String)) (self after : GroupManager) (m m' : Option String)
    → x ≡ some (self, m)
    → x ≡ some (after, m')
    → IsConsistent self
    → IsConsistent after
came_to x self after m m' e h c =
    subst IsConsistent
      (ap (λ (p : GroupManager × Option String). p.0) (some-injective _ _ (sym e ∙ h))) c

on_offer_mid_missing :
    (format : String → ℕ → String) (self : GroupManager) (hid : ℕ)
    → lookup self.handlers hid ≡ none
    → on_offer_mid format self hid ≡ some (self, none)
unfolding on_offer_mid
on_offer_mid_missing format self hid missing = rw (on_offer_mid, missing) refl

on_offer_mid_fails :
    (format : String → ℕ → String) (self : GroupManager) (hid : ℕ) (ext_data : MidExtData)
    → lookup self.handlers hid ≡ some ext_data
    → ext_data.mid ≡ none
    → next_mid format
        (suc (length self.used_mids))
        ext_data.media
        self.used_mids
        (counter_of (self.mids ext_data.media))
      ≡ none
    → on_offer_mid format self hid ≡ none
unfolding on_offer_mid offer_new_mid assign_mid
on_offer_mid_fails format self hid ext_data there new failed =
    rw (on_offer_mid, there) (simp (new) (rw (offer_new_mid, assign_mid, failed) refl))

pub on_offer_mid-IsConsistent :
    (format : String → ℕ → String) (self after : GroupManager) (hid : ℕ) (m : Option String)
    → on_offer_mid format self hid ≡ some (after, m)
    → IsConsistent self
    → IsConsistent after
unfolding counted_up
on_offer_mid-IsConsistent format self after hid m h c =
    elim (Option-cases (lookup self.handlers hid)) [
      | inl missing ↦ came_to _ self after none m (on_offer_mid_missing format self hid missing) h c
      | inr (ext_data, there) ↦ elim (Option-cases ext_data.mid) [
        | inr (mid, has) ↦
            came_to _ self after (some mid) m
              (on_offer_mid_held format self hid ext_data mid there has) h c
        | inl new ↦
            elim (Option-cases (
              next_mid format (suc (length self.used_mids)) ext_data.media self.used_mids
                (counter_of (self.mids ext_data.media)))) [
                  | inl failed ↦ absurd (
                      ground
                        (arith, on_offer_mid_fails format self hid ext_data there new failed, h))
                  | inr ((mid, counter), found) ↦
                      let (unused, word) = next_mid_free format _ _ _ _ mid counter found in
                      let counted = counted_up self ext_data.media counter in
                      came_to _ (update_mid counted hid ext_data mid) after (some mid) m
                        (on_offer_mid_new format self hid ext_data mid counter there new found) h
                        (update_mid-IsConsistent counted hid ext_data mid there
                          (unused-IsFree self hid mid unused c.valid)
                          (counted_up-IsConsistent self ext_data.media counter word c))
                ]
      ]
    ]
