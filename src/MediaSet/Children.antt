-- ===== src/MediaSet/Children.antt =====
-- MediaSet.cpp, the children of an object in `unref`.
use kms_core.Prelude.{
  ℕ, ◌≡◌, refl, inl, inr, true, false, Option, none, some, List, [], ◌∷◌, ◌==◌, arith, Bool-cases,
  ==_iff,
}
use kms_core.Prelude.Sets.{member, erase, member-erase}
use kms_core.MediaSet.{is_empty, drop_children}

pub empty-member : (t : ℕ) (xs : List ℕ) → is_empty xs ≡ true → member t xs ≡ false
empty-member t [] h = refl
empty-member t (x ∷ xs) h = absurd (ground arith)

pub drop_children_fewer :
    (q : Option ℕ) (children : ℕ → List ℕ) (o x p : ℕ)
    → member x (drop_children q children o p) ≡ true
    → member x (children p) ≡ true
unfolding drop_children
drop_children_fewer none children o x p h = ground arith
drop_children_fewer (some q) children o x p h = elim (Bool-cases (p == o)) [
  | inl here ↦ absurd (ground arith)
  | inr elsewhere ↦ elim (Bool-cases (p == q)) [
    | inr other ↦ ground arith
    | inl same ↦
        let e = (==_iff p q).0 same in
        let in_q : member x (erase o (children q)) ≡ true = ground arith in
        rw e (let k = member-erase x o (children q) in ground arith)
  ]
]

pub drop_children_kept :
    (q : Option ℕ) (children : ℕ → List ℕ) (o x p : ℕ)
    → (x == o) ≡ false
    → (p == o) ≡ false
    → member x (children p) ≡ true
    → member x (drop_children q children o p) ≡ true
unfolding drop_children
drop_children_kept none children o x p ne ne' h = ground arith
drop_children_kept (some q) children o x p ne ne' h = elim (Bool-cases (p == q)) [
  | inr other ↦ rw (ne', other) h
  | inl same ↦
      let e = (==_iff p q).0 same in
      let k = member-erase x o (children q) in
      let h' : member x (children q) ≡ true = rw (← e) h in
      rw (ne', same) (let sw : (o == x) ≡ false = ground arith in ground arith)
]
