-- ===== src/SdpGroupManager/Holding.antt =====
-- kmssdpgroupmanager.c: how often a mid is in use, and how many handlers hold it.
use Prim.Native.String.{String}
use text.Mathlib.Text.{◌==◌ as str_eq}
use text.Mathlib.TextEquality.{eq_iff}
use kms_core.Prelude.{
  ℕ, ◌+◌, ◌^◌, ◌≤◌, ◌<◌, ◌≡◌, ◌∙◌, refl, sym, ap, inl, inr, Bool, true, false, Option, none, some,
  List, [], ◌∷◌, ◌++◌, ◌==◌, arith, Bool-cases,
}
use kms_core.Prelude.Tables.{Entry, lookup, insert, delete, lookup_here, lookup_there}
use kms_core.SdpGroupManager.{
  MidExtData, GroupManager, new_group_manager, is_mid_used, is_mid, counter_of, release_mid,
  update_mid,
}

abbrev one : Bool → ℕ
one true = 1
one false = 0

pub uses : List String → String → ℕ
uses [] mid = 0
uses (id ∷ used) mid = one (str_eq id mid) + uses used mid

pub held : List (Entry MidExtData) → String → ℕ
held [] mid = 0
held (e ∷ handlers) mid = one (is_mid e.value.mid mid) + held handlers mid

uses-append :
    (used : List String) (new mid : String)
    → uses (used ++ (new ∷ [])) mid ≡ uses used mid + one (str_eq new mid)
unfolding uses
uses-append [] new mid = omega arith
uses-append (id ∷ used) new mid = omega (arith, uses-append used new mid)

uses-release_mid :
    (used : List String) (old : Option String) (mid : String)
    → uses used mid ≤ uses (release_mid used old) mid + one (is_mid old mid)
unfolding uses release_mid
uses-release_mid used none mid = omega arith
uses-release_mid [] (some old) mid = omega arith
uses-release_mid (id ∷ used) (some old) mid = elim (Bool-cases (str_eq id old)) [
  | inl same ↦ rw same (rw ((eq_iff id old).0 same) (omega arith))
  | inr other ↦ rw other (omega (arith, uses-release_mid used (some old) mid))
]

pub uses_unused :
    (used : List String) (mid : String) → is_mid_used used mid ≡ false → uses used mid ≡ 0
unfolding uses
uses_unused [] mid h = refl
uses_unused (id ∷ used) mid h = ground (arith, uses_unused used mid)

pub held-insert_new :
    (handlers : List (Entry MidExtData)) (hid : ℕ) (ext_data : MidExtData) (mid : String)
    → ext_data.mid ≡ none
    → held (insert handlers hid ext_data) mid ≤ held handlers mid
unfolding held
held-insert_new [] hid ext_data mid fresh = rw (fresh) (omega arith)
held-insert_new (e ∷ handlers) hid ext_data mid fresh = elim (Bool-cases (e.key == hid)) [
  | inl same ↦ rw same (rw fresh (omega arith))
  | inr other ↦ rw other (omega (arith, held-insert_new handlers hid ext_data mid fresh))
]

held-insert :
    (handlers : List (Entry MidExtData)) (hid : ℕ) (old new : MidExtData) (mid : String)
    → lookup handlers hid ≡ some old
    → held (insert handlers hid new) mid + one (is_mid old.mid mid)
      ≡ held handlers mid + one (is_mid new.mid mid)
unfolding held
held-insert [] hid old new mid there = absurd (ground arith)
held-insert (e ∷ handlers) hid old new mid there = elim (Bool-cases (e.key == hid)) [
  | inl same ↦ rw same (
      omega (
        arith,
        ap (λ (d : MidExtData). one (is_mid d.mid mid)) (lookup_here e handlers hid old same there),
      ))
  | inr other ↦ rw other (
      omega (
        arith,
        held-insert handlers hid old new mid (sym (lookup_there e handlers hid other) ∙ there),
      ))
]

pub held-delete :
    (handlers : List (Entry MidExtData)) (hid : ℕ) (mid : String)
    → held (delete handlers hid) mid ≤ held handlers mid
unfolding held
held-delete [] hid mid = omega arith
held-delete (e ∷ handlers) hid mid = elim (Bool-cases (e.key == hid)) [
  | inl same ↦ rw same (omega (arith, held-delete handlers hid mid))
  | inr other ↦ rw other (omega (arith, held-delete handlers hid mid))
]

-- A mid that no handler holds.
pub held_none :
    (handlers : List (Entry MidExtData)) (hid : ℕ) (ext_data : MidExtData) (mid : String)
    → held handlers mid ≡ 0
    → lookup handlers hid ≡ some ext_data
    → is_mid ext_data.mid mid ≡ false
unfolding held
held_none [] hid ext_data mid zero' there = absurd (ground arith)
held_none (e ∷ handlers) hid ext_data mid zero' there = elim (Bool-cases (e.key == hid)) [
  | inl same ↦ elim (Bool-cases (is_mid ext_data.mid mid)) [
    | inr free ↦ free
    | inl holds ↦ absurd (
        omega (
          arith,
          ap (λ (b : Bool). one b) holds,
          ap (λ (d : MidExtData). one (is_mid d.mid mid))
              (lookup_here e handlers hid ext_data same there),
        ))
  ]
  | inr other ↦
      held_none handlers hid ext_data mid (omega arith)
        (sym (lookup_there e handlers hid other) ∙ there)
]

-- The mids that handlers hold are in use as often.
pub record IsValid (self : GroupManager) : Type 0 where
  pub counted : (mid : String) → held self.handlers mid ≤ uses self.used_mids mid
  pub word : (media : String) → counter_of (self.mids media) < 2 ^ 32

pub update_mid-IsValid :
    (self : GroupManager) (hid : ℕ) (ext_data : MidExtData) (mid : String)
    → lookup self.handlers hid ≡ some ext_data
    → IsValid self
    → IsValid (update_mid self hid ext_data mid)
unfolding update_mid
update_mid-IsValid self hid ext_data mid there v = record {
  counted = λ other. omega (
    arith,
    v.counted other,
    uses-append (release_mid self.used_mids ext_data.mid) mid other,
    uses-release_mid self.used_mids ext_data.mid other,
    held-insert self.handlers hid ext_data (record ext_data { mid = some mid }) other there,
  );
  word = v.word;
}

pub new-IsValid : IsValid new_group_manager
unfolding held uses
new-IsValid = record { counted = λ mid. omega arith; word = λ media. omega arith }
