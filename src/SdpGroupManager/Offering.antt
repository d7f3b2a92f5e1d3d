-- ===== src/SdpGroupManager/Offering.antt =====
-- kmssdpgroupmanager.c: the mids that handlers get for an offer.
use Prim.Native.String.{String}
use text.Mathlib.Text.{◌==◌ as str_eq}
use kms_core.Prelude.{
  ℕ, suc, ◌^◌, ◌<◌, ◌≡◌, ◌≢◌, ◌∙◌, refl, sym, ap, inl, inr, false, Option, none, some, arith,
  length, if◌then◌else◌, Bool-cases, Option-cases,
}
use kms_core.Prelude.Tables.{lookup, lookup-insert_self, lookup-insert_ne}
use kms_core.SdpGroupManager.{
  MidExtData, GroupManager, next_mid, counter_of, is_mid_used, is_mid, assign_mid, update_mid,
  offer_new_mid, on_offer_mid,
}
use kms_core.SdpGroupManager.Assigning.{Prints, next_mid-Finds}
use kms_core.SdpGroupManager.Holding.{uses_unused, held_none, IsValid, update_mid-IsValid}

unfoldable pub counted_up : GroupManager → String → ℕ → GroupManager
counted_up self media counter = record self {
  mids = λ m. if str_eq m media then some counter else self.mids m;
}

pub counted_up-IsValid :
    (self : GroupManager) (media : String) (counter : ℕ)
    → counter < 2 ^ 32
    → IsValid self
    → IsValid (counted_up self media counter)
unfolding counted_up
counted_up-IsValid self media counter word v = record {
  counted = v.counted;
  word = λ m. elim (Bool-cases (str_eq m media)) [
    | inl same ↦ rw same word
    | inr other ↦ rw other (v.word m)
  ];
}

-- What a handler that had no mid has got.
record Assigned (self : GroupManager) (hid : ℕ) (ext_data : MidExtData) (after : GroupManager)
    (mid : String) : Type 0 where
  holds : lookup after.handlers hid ≡ some (record ext_data { mid = some mid })
  others : (j : ℕ) → j ≢ hid → lookup after.handlers j ≡ lookup self.handlers j
  groups : after.groups ≡ self.groups
  alone :
      (j : ℕ) (other : MidExtData)
      → lookup self.handlers j ≡ some other
      → is_mid other.mid mid ≡ false
  valid : IsValid after

assigned :
    (self : GroupManager) (hid : ℕ) (ext_data : MidExtData) (mid : String) (counter : ℕ)
    → lookup self.handlers hid ≡ some ext_data
    → is_mid_used self.used_mids mid ≡ false
    → counter < 2 ^ 32
    → IsValid self
    → Assigned self hid ext_data
        (update_mid (counted_up self ext_data.media counter) hid ext_data mid)
        mid
unfolding update_mid counted_up
assigned self hid ext_data mid counter there free word v = record {
  holds = lookup-insert_self self.handlers hid (record ext_data { mid = some mid });
  others = λ j ne. lookup-insert_ne self.handlers j hid (record ext_data { mid = some mid }) ne;
  groups = refl;
  alone = λ j other at.
      held_none self.handlers j other mid
        (omega (arith, v.counted mid, uses_unused self.used_mids mid free)) at;
  valid =
      update_mid-IsValid (counted_up self ext_data.media counter) hid ext_data mid there
        (counted_up-IsValid self ext_data.media counter word v);
}

-- What the signal "on-offer-mid" gives a handler that is registered: a mid, the same whenever it is
-- emitted again. If the handler had none, no other handler has this one.
pub record Offers (format : String → ℕ → String) (self : GroupManager) (hid : ℕ)
    (ext_data : MidExtData) : Type 0 where
  pub after : GroupManager
  pub mid : String
  pub offered : on_offer_mid format self hid ≡ some (after, some mid)
  pub again : on_offer_mid format after hid ≡ some (after, some mid)
  pub holds : lookup after.handlers hid ≡ some (record ext_data { mid = some mid })
  pub others : (j : ℕ) → j ≢ hid → lookup after.handlers j ≡ lookup self.handlers j
  pub alone :
      ext_data.mid ≡ none
      → (j : ℕ) (other : MidExtData) → j ≢ hid
      → lookup after.handlers j ≡ some other
      → is_mid other.mid mid ≡ false
  pub valid : IsValid after

pub on_offer_mid_held :
    (format : String → ℕ → String) (self : GroupManager) (hid : ℕ) (ext_data : MidExtData)
    (mid : String)
    → lookup self.handlers hid ≡ some ext_data
    → ext_data.mid ≡ some mid
    → on_offer_mid format self hid ≡ some (self, some mid)
unfolding on_offer_mid
on_offer_mid_held format self hid ext_data mid there has = rw (on_offer_mid, there) (rw has refl)

pub on_offer_mid_new :
    (format : String → ℕ → String) (self : GroupManager) (hid : ℕ) (ext_data : MidExtData)
    (mid : String) (counter : ℕ)
    → lookup self.handlers hid ≡ some ext_data
    → ext_data.mid ≡ none
    → next_mid format
        (suc (length self.used_mids))
        ext_data.media
        self.used_mids
        (counter_of (self.mids ext_data.media))
      ≡ some (mid, counter)
    → on_offer_mid format self hid
      ≡ some (update_mid (counted_up self ext_data.media counter) hid ext_data mid, some mid)
unfolding on_offer_mid offer_new_mid assign_mid counted_up
on_offer_mid_new format self hid ext_data mid counter there new found =
    rw (on_offer_mid, there) (simp (new) (rw (offer_new_mid, assign_mid, found) refl))

-- In a valid manager with fewer mids in use than guints, whose texts differ, a registered handler is
-- given a mid for its offer: the one it has, or one that no other handler has. It is given the same
-- whenever it is asked again, the other handlers keep theirs, and the manager stays valid.
pub on_offer_mid-Offers :
    (format : String → ℕ → String) (self : GroupManager) (hid : ℕ) (ext_data : MidExtData)
    → Prints format ext_data.media
    → length self.used_mids < 2 ^ 32
    → lookup self.handlers hid ≡ some ext_data
    → IsValid self
    → Offers format self hid ext_data
on_offer_mid-Offers format self hid ext_data prints few there v = elim (Option-cases ext_data.mid) [
  | inr (mid, has) ↦
      let same = on_offer_mid_held format self hid ext_data mid there has in
      record {
        after = self;
        mid = mid;
        offered = same;
        again = same;
        holds = there ∙ ap (λ (m : Option String). some (record ext_data { mid = m })) has;
        others = λ j ne. refl;
        alone = λ new. absurd (ground arith);
        valid = v;
      }
  | inl new ↦
      let f =
        next_mid-Finds format ext_data.media self.used_mids (counter_of (self.mids ext_data.media))
          prints (v.word ext_data.media) few in
      let a = assigned self hid ext_data f.mid f.counter' there f.free f.word v in
      let after = update_mid (counted_up self ext_data.media f.counter') hid ext_data f.mid in
      record {
        after = after;
        mid = f.mid;
        offered = on_offer_mid_new format self hid ext_data f.mid f.counter' there new f.found;
        again =
            on_offer_mid_held format after hid (record ext_data { mid = some f.mid }) f.mid a.holds
              refl;
        holds = a.holds;
        others = a.others;
        alone = λ new' j other ne at. a.alone j other (sym (a.others j ne) ∙ at);
        valid = a.valid;
      }
]
