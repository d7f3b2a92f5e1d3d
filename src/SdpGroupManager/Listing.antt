-- ===== src/SdpGroupManager/Listing.antt =====
-- kmssdpbasegroup.c: what the group attribute of a message lists.
use Prim.Native.String.{String, ◌++◌ as append}
use mathlib.Core.Option.{some-injective}
use kms_core.Prelude.{
  ℕ, ◌≡◌, ◌∙◌, refl, sym, ap, subst, inl, inr, true, false, Option, none, some, List, [], ◌∷◌, ◌==◌,
  arith, get_elem?, if◌then◌else◌, Bool-cases, Option-cases,
}
use kms_core.Prelude.Sets.{member}
use kms_core.SdpGroupManager.{is_mid_used}
use kms_core.SdpGroupManager.Attributes.{Media, passes, append_enabled_medias}

-- The text of a group attribute: the semantics and the mids, with a blank before each.
abbrev pub line : String → List String → String
line str [] = str
line str (mid ∷ mids) = line (append str (append " " mid)) mids

-- A mid that belongs to the attribute: that of the media of a member, which is not rejected, and which
-- the filter lets pass.
pub record Belongs (filter : Option (List String)) (msg : List Media) (index : ℕ → Option ℕ)
    (hids : List ℕ) (mid : String) : Type 0 where
  pub hid : ℕ
  pub place : ℕ
  pub media : Media
  pub listed : member hid hids ≡ true
  pub placed : index hid ≡ some place
  pub found : get_elem? msg place ≡ some media
  pub named : media.mid ≡ some mid
  pub enabled : (media.port == 0) ≡ false
  pub offered : passes filter mid ≡ true

-- A text that lists these mids and no others.
pub record Lists (filter : Option (List String)) (msg : List Media) (index : ℕ → Option ℕ)
    (hids : List ℕ) (str text : String) : Type 0 where
  pub mids : List String
  pub written : text ≡ line str mids
  pub belong : (mid : String) → is_mid_used mids mid ≡ true → Belongs filter msg index hids mid
  pub complete : (mid : String) → Belongs filter msg index hids mid → is_mid_used mids mid ≡ true

unfoldable pub entry_of : Option (List String) → Option Media → Option String
entry_of filter none = none
entry_of filter (some media) = elim media.mid [
  | none ↦ none
  | some mid ↦ if media.port == 0 then none else if passes filter mid then some mid else none
]

unfoldable pub entry : Option (List String) → List Media → Option ℕ → Option String
entry filter msg none = none
entry filter msg (some place) = entry_of filter (get_elem? msg place)

abbrev pub put : String → Option String → String
put str none = str
put str (some mid) = append str (append " " mid)

pub append_enabled_medias-put :
    (filter : Option (List String)) (msg : List Media) (index : Option ℕ) (str : String)
    → append_enabled_medias filter msg index str ≡ put str (entry filter msg index)
unfolding append_enabled_medias entry entry_of
append_enabled_medias-put filter msg none str = refl
append_enabled_medias-put filter msg (some place) str = elim (Option-cases (get_elem? msg place)) [
  | inl missing ↦ rw (missing, append_enabled_medias) refl
  | inr (media, there) ↦
      rw (there, append_enabled_medias)
        (elim (Option-cases media.mid) [
          | inl unnamed ↦ rw unnamed refl
          | inr (mid, named) ↦ rw named (elim (Bool-cases (media.port == 0)) [
            | inl rejected ↦ rw rejected refl
            | inr enabled ↦ rw enabled (elim (Bool-cases (passes filter mid)) [
              | inl offered ↦ rw offered refl
              | inr other ↦ rw other refl
            ])
          ])
        ])
]

pub entry_of_complete :
    (filter : Option (List String)) (media : Media) (mid : String)
    → media.mid ≡ some mid
    → (media.port == 0) ≡ false
    → passes filter mid ≡ true
    → entry_of filter (some media) ≡ some mid
unfolding entry_of
entry_of_complete filter media mid named enabled offered =
    rw (named, entry_of) (rw enabled (rw offered refl))

pub entry_of-Belongs :
    (filter : Option (List String)) (media : Media) (mid : String)
    → entry_of filter (some media) ≡ some mid
    → (media.mid ≡ some mid) × ((media.port == 0) ≡ false) × (passes filter mid ≡ true)
unfolding entry_of
entry_of-Belongs filter media mid h = elim (Option-cases media.mid) [
  | inl unnamed ↦ absurd (ground arith)
  | inr (found, named) ↦ elim (Bool-cases (media.port == 0)) [
    | inl rejected ↦ absurd (ground arith)
    | inr enabled ↦ elim (Bool-cases (passes filter found)) [
      | inr other ↦ absurd (ground (arith, entry_of, named, enabled, other, h))
      | inl offered ↦
          let e =
            some-injective found mid
              (sym (entry_of_complete filter media found named enabled offered) ∙ h) in
          (
            named ∙ ap (λ (m : String). some m) e,
            enabled,
            subst (λ m. passes filter m ≡ true) e offered,
          )
    ]
  ]
]
