-- ===== src/SdpGroupManager/Mids.antt =====
-- kmssdpgroupmanager.c: the handlers' mids differ.
use Prim.Native.String.{String}
use kms_core.Prelude.{
  ℕ, ◌≡◌, ◌≢◌, ◌∙◌, sym, subst, inl, inr, true, false, none, some, List, ◌==◌, arith, ==_iff,
  Bool-cases,
}
use mathlib.Core.Logic.{◌⊎◌}
use mathlib.Core.Option.{some-injective}
use kms_core.Prelude.Tables.{
  Entry, lookup, insert, delete, lookup-insert_self, lookup-insert_ne, lookup-delete_self,
  lookup-delete_ne,
}
use kms_core.SdpGroupManager.{MidExtData, is_mid}

-- No two handlers have the same mid.
abbrev pub Distinct : List (Entry MidExtData) → Type 0
Distinct handlers =
    (i j : ℕ) (one other : MidExtData) (mid : String)
    → lookup handlers i ≡ some one
    → lookup handlers j ≡ some other
    → is_mid one.mid mid ≡ true
    → is_mid other.mid mid ≡ true
    → i ≡ j

-- No other handler has a mid of this one.
abbrev pub Apart : List (Entry MidExtData) → ℕ → MidExtData → Type 0
Apart handlers hid new =
    (j : ℕ) (other : MidExtData) (mid : String)
    → j ≢ hid
    → lookup handlers j ≡ some other
    → is_mid new.mid mid ≡ true
    → is_mid other.mid mid ≡ false

inserted :
    (handlers : List (Entry MidExtData)) (hid i : ℕ) (new found : MidExtData)
    → lookup (insert handlers hid new) i ≡ some found
    → ((i ≡ hid) × (new ≡ found)) ⊎ ((i ≢ hid) × (lookup handlers i ≡ some found))
inserted handlers hid i new found there = elim (Bool-cases (i == hid)) [
  | inl same ↦
      let e = (==_iff i hid).0 same in
      inl (
        e,
        some-injective new found (
            sym (lookup-insert_self handlers hid new)
            ∙ subst (λ n. lookup (insert handlers hid new) n ≡ some found) e there),
      )
  | inr other ↦
      let ne : i ≢ hid = λ e. ground arith in
      inr (ne, sym (lookup-insert_ne handlers i hid new ne) ∙ there)
]

pub Distinct-insert :
    (handlers : List (Entry MidExtData)) (hid : ℕ) (new : MidExtData)
    → Apart handlers hid new
    → Distinct handlers
    → Distinct (insert handlers hid new)
Distinct-insert handlers hid new apart d i j one other mid at_i at_j has_i has_j =
    elim (inserted handlers hid i new one at_i) [
      | inl (i_here, same) ↦ elim (inserted handlers hid j new other at_j) [
        | inl (j_here, same') ↦ i_here ∙ sym j_here
        | inr (away, at') ↦ absurd (ground (arith, apart j other mid away at' (rw same has_i)))
      ]
      | inr (away, at) ↦ elim (inserted handlers hid j new other at_j) [
        | inl (j_here, same') ↦ absurd (ground (arith, apart i one mid away at (rw same' has_j)))
        | inr (away', at') ↦ d i j one other mid at at' has_i has_j
      ]
    ]

left_in :
    (handlers : List (Entry MidExtData)) (hid i : ℕ) (found : MidExtData)
    → lookup (delete handlers hid) i ≡ some found
    → lookup handlers i ≡ some found
left_in handlers hid i found there = elim (Bool-cases (i == hid)) [
  | inl same ↦
      let e = (==_iff i hid).0 same in
      let gone : lookup (delete handlers hid) i ≡ none = rw e (lookup-delete_self handlers hid) in
      absurd (ground (arith, gone, there))
  | inr other ↦ sym (lookup-delete_ne handlers i hid (λ e. ground arith)) ∙ there
]

pub Distinct-delete :
    (handlers : List (Entry MidExtData)) (hid : ℕ)
    → Distinct handlers
    → Distinct (delete handlers hid)
Distinct-delete handlers hid d i j one other mid at_i at_j has_i has_j =
    d i j one other mid (left_in handlers hid i one at_i) (left_in handlers hid j other at_j) has_i
      has_j
