-- ===== src/MediaSet/Leaving.antt =====
-- MediaSet.cpp, the end of `unref`: one object leaves a session, after its children.
use kms_core.Prelude.{
  ℕ, ◌≡◌, ◌⊎◌, ◌∙◌, refl, sym, ap, inl, inr, true, false, not, ◌&&◌, Option, some, List, ◌∷◌, ◌==◌,
  if◌then◌else◌, arith, Bool-cases, ==_iff, ==_refl, subst,
}
use kms_core.Prelude.Sets.{member, erase, member-erase}
use kms_core.MediaSet.{
  MediaSet, is_empty, is_server_manager, drop_children, drop_object, unref_object,
}
use kms_core.MediaSet.Tree.{Moves, Tree, Agrees, unref_object_reverse}
use kms_core.MediaSet.Children.{empty-member, drop_children_fewer, drop_children_kept}

module _ (parent : ℕ → Option ℕ) (m : MediaSet) (s o : ℕ) where
  abbrev left : List ℕ
  left = erase s (m.reverse_session_map o)

  abbrev after : MediaSet
  after = unref_object parent m s o

  after_member :
      (t x : ℕ)
      → member t (after.reverse_session_map x)
        ≡ (not (x == o && s == t) && member t (m.reverse_session_map x))
  after_member t x = rw (unref_object_reverse parent m s o x) (elim (Bool-cases (x == o)) [
    | inr other ↦ rw other refl
    | inl same ↦
        let e = (==_iff x o).0 same in
        rw same (
          member-erase t s (m.reverse_session_map o)
          ∙ ap (λ (k : ℕ). not (s == t) && member t (m.reverse_session_map k)) (sym e))
  ])

  children_after :
      (after.children_map ≡ m.children_map)
      ⊎ ((is_empty left ≡ true) × (after.children_map ≡ drop_children (parent o) m.children_map o))
  unfolding unref_object drop_object
  children_after = elim (Bool-cases (is_empty left)) [
    | inr some_left ↦ inl (rw some_left refl)
    | inl none_left ↦ elim (Bool-cases (is_server_manager m o)) [
      | inl manager ↦ inl (rw (none_left, manager) refl)
      | inr normal ↦ inr (none_left, rw (none_left, normal) refl)
    ]
  ]

  children_fewer :
      (x p : ℕ) → member x (after.children_map p) ≡ true → member x (m.children_map p) ≡ true
  children_fewer x p h = elim children_after [
    | inl same ↦ rw (← same) h
    | inr (none_left, dropped) ↦
        drop_children_fewer (parent o) m.children_map o x p (rw (← dropped) h)
  ]

  after_here : after.reverse_session_map o ≡ left
  after_here = unref_object_reverse parent m s o o ∙ (rw (==_refl o) refl)

  -- What is left when the last session goes.
  emptied : is_empty left ≡ true → (t : ℕ) → member t (after.reverse_session_map o) ≡ false
  emptied none_left t =
      rw (unref_object_reverse parent m s o o) (rw (==_refl o) (empty-member t left none_left))

  not_emptied :
      is_empty left ≡ true
      → (t y : ℕ) → member t (after.reverse_session_map y) ≡ true
      → (y == o) ≡ false
  not_emptied none_left t y h = elim (Bool-cases (y == o)) [
    | inr other ↦ other
    | inl same ↦
        let e = (==_iff y o).0 same in
        let none_at = emptied none_left t in
        let h' = subst (λ (k : ℕ). member t (after.reverse_session_map k) ≡ true) e h in
        absurd (ground arith)
  ]

  -- The children of the object have left the session before it.
  module _ (tree : Tree parent m)
      (childless : (x : ℕ) → parent x ≡ some o → member s (m.reverse_session_map x) ≡ false) where
    after_closed :
        (t x p : ℕ)
        → member t (after.reverse_session_map x) ≡ true
        → parent x ≡ some p
        → member t (after.reverse_session_map p) ≡ true
    after_closed t x p h child =
        let here : member t (m.reverse_session_map x) ≡ true =
          let e = after_member t x in ground arith in
        let there = tree.closed t x p here child in
        rw (after_member t p) (
          rw there (elim (Bool-cases (p == o)) [
            | inr other ↦ rw other refl
            | inl same ↦ elim (Bool-cases (s == t)) [
              | inr other ↦ rw other (ground arith)
              | inl this ↦
                  let e = (==_iff p o).0 same in
                  let e' = (==_iff s t).0 this in
                  let out = childless x (child ∙ ap some e) in
                  let here' : member s (m.reverse_session_map x) ≡ true = rw e' here in
                  absurd (ground arith)
            ]
          ]))

    after_known :
        (t x p : ℕ)
        → member t (after.reverse_session_map x) ≡ true
        → parent x ≡ some p
        → member x (after.children_map p) ≡ true
    after_known t x p h child =
        let before : member t (m.reverse_session_map x) ≡ true =
          let e = after_member t x in ground arith in
        let there = tree.known t x p before child in
        elim children_after [
          | inl same ↦ rw same there
          | inr (none_left, dropped) ↦ rw dropped (
              drop_children_kept (parent o) m.children_map o x p (not_emptied none_left t x h)
                (not_emptied none_left t p (after_closed t x p h child)) there)
        ]

    pub after-Tree : Tree parent after
    after-Tree = record {
      closed = after_closed;
      known = after_known;
      sound = λ x p h. tree.sound x p (children_fewer x p h);
    }

  pub after_gone : member s (after.reverse_session_map o) ≡ false
  after_gone = rw (after_member s o) (rw (==_refl o, ==_refl s) refl)

  unref_object_sessions : after.session_map ≡ m.session_map
  unfolding unref_object drop_object
  unref_object_sessions = ground arith

  unref_object_use : after.session_in_use ≡ m.session_in_use
  unfolding unref_object drop_object
  unref_object_use = ground arith

  unref_object_objects : after.objects_map ≡ m.objects_map
  unfolding unref_object drop_object
  unref_object_objects = ground arith

  unref_object_posted : after.posted ≡ (if is_empty left then o ∷ m.posted else m.posted)
  unfolding unref_object drop_object
  unref_object_posted = ground arith

  releases :
      (x t : ℕ)
      → member t (m.reverse_session_map x) ≡ true
      → is_empty (after.reverse_session_map x) ≡ true
      → member x after.posted ≡ true
  releases x t h empty = elim (Bool-cases (x == o)) [
    | inr other ↦
        let e = after_member t x in
        let none_at = empty-member t (after.reverse_session_map x) empty in absurd (ground arith)
    | inl same ↦
        let e = (==_iff x o).0 same in
        let none_left : is_empty left ≡ true =
          subst (λ (l : List ℕ). is_empty l ≡ true) after_here
            (subst (λ (k : ℕ). is_empty (after.reverse_session_map k) ≡ true) e empty) in
        rw (unref_object_posted) (rw none_left (rw e (rw (==_refl o) refl)))
  ]

  pub unref_object-Moves : Moves s m after
  unref_object-Moves = record {
    others =
        λ t x ne. rw (after_member t x) (let sw : (s == t) ≡ false = ground arith in ground arith);
    fewer = λ x h. let e = after_member s x in ground arith;
    sessions = λ t ne. ap (λ (f : ℕ → List ℕ). f t) unref_object_sessions;
    leaves = λ x h. rw (← unref_object_sessions) h;
    in_use = unref_object_use;
    objects = unref_object_objects;
    posts = λ x h. rw unref_object_posted (ground arith);
    releases = releases;
  }

  not_here :
      (x : ℕ)
      → member o (m.session_map s) ≡ false
      → member x (m.session_map s) ≡ true
      → (x == o) ≡ false
  not_here x out h = elim (Bool-cases (x == o)) [
    | inr other ↦ other
    | inl same ↦
        let e = (==_iff x o).0 same in
        let h' = subst (λ (k : ℕ). member k (m.session_map s) ≡ true) e h in absurd (ground arith)
  ]

  pub unref_object-Agrees :
      (leaving : List ℕ)
      → member o (m.session_map s) ≡ false
      → ((x : ℕ) → parent x ≡ some o → member s (m.reverse_session_map x) ≡ false)
      → Agrees parent (o ∷ leaving) s m
      → Agrees parent leaving s after
  unref_object-Agrees leaving out childless a = record {
    linked = λ x h stays.
        let e = after_member s x in
        let r = ==_refl s in
        let before : member s (m.reverse_session_map x) ≡ true = ground arith in
        let ne : (o == x) ≡ false = ground arith in
        rw unref_object_sessions (a.linked x before (rw ne stays));
    backed = λ x h.
        let h' : member x (m.session_map s) ≡ true = rw (← unref_object_sessions) h in
        let before = a.backed x h' in
        let ne = not_here x out h' in rw (after_member s x) (rw (ne, before) refl);
    tree = after-Tree a.tree childless;
  }
