-- ===== src/MediaSet/Entering.antt =====
-- MediaSet.cpp, `ref (mediaObjectPtr)`: a new object enters the maps.
use kms_core.Prelude.{
  ℕ, ◌≡◌, ◌∙◌, refl, sym, ap, inl, inr, true, ◌&&◌, ◌||◌, Option, none, some, List, [], ◌==◌, arith,
  Bool-cases, Option-cases, ==_iff, ==_refl, subst,
}
use kms_core.Prelude.Sets.{member, add, at, member-add}
use kms_core.MediaSet.{MediaSet}
use kms_core.MediaSet.Tree.{Agrees}
use kms_core.MediaSet.Sessions.{IsValid}
use kms_core.MediaSet.Objects.{enter}
use kms_core.MediaSet.Referring.{Attached, root, below}

module _ (parent : ℕ → Option ℕ) where
  Attached-weaken :
      (objects objects' : List ℕ) (children children' : ℕ → List ℕ) (x : ℕ)
      → ((y : ℕ) → member y objects ≡ true → member y objects' ≡ true)
      → ((y p : ℕ) → member y (children p) ≡ true → member y (children' p) ≡ true)
      → Attached parent objects children x
      → Attached parent objects' children' x
  Attached-weaken objects objects' children children' x more more' (root y top_most there) =
      root x top_most (more x there)
  Attached-weaken objects objects' children children' x more more'
        (below y p child there placed up) =
      below x p child (more x there) (more' x p placed)
        (Attached-weaken objects objects' children children' p more more' up)

  module _ (m : MediaSet) (o : ℕ) where
    enter_shape : enter parent m o ≡ (record m {
      objects_map = add o m.objects_map;
      children_map = (enter parent m o).children_map;
    })
    unfolding enter
    enter_shape = elim (Option-cases (parent o)) [
      | inl top_most ↦ rw (top_most, enter) refl
      | inr (p, child) ↦ rw (child, enter) refl
    ]

    pub enter_reverse : (enter parent m o).reverse_session_map ≡ m.reverse_session_map
    enter_reverse = ap (λ (k : MediaSet). k.reverse_session_map) enter_shape

    enter_session : (enter parent m o).session_map ≡ m.session_map
    enter_session = ap (λ (k : MediaSet). k.session_map) enter_shape

    enter_use : (enter parent m o).session_in_use ≡ m.session_in_use
    enter_use = ap (λ (k : MediaSet). k.session_in_use) enter_shape

    enter_objects : (enter parent m o).objects_map ≡ add o m.objects_map
    enter_objects = ap (λ (k : MediaSet). k.objects_map) enter_shape

    enter_child :
        (p : ℕ)
        → parent o ≡ some p
        → (enter parent m o).children_map ≡ at m.children_map p (add o (m.children_map p))
    unfolding enter
    enter_child p child = rw (child, enter) refl

    enter_root : parent o ≡ none → (enter parent m o).children_map ≡ m.children_map
    unfolding enter
    enter_root top_most = rw (top_most, enter) refl

    at_children :
        (x p q : ℕ)
        → member x (at m.children_map p (add o (m.children_map p)) q)
          ≡ (q == p && o == x || member x (m.children_map q))
    at_children x p q = elim (Bool-cases (q == p)) [
      | inr other ↦ rw other refl
      | inl same ↦
          let e = (==_iff q p).0 same in
          rw same (
            member-add x o (m.children_map p)
            ∙ ap (λ (k : ℕ). o == x || member x (m.children_map k)) (sym e))
    ]

    children_more :
        (x q : ℕ)
        → member x (m.children_map q) ≡ true
        → member x ((enter parent m o).children_map q) ≡ true
    children_more x q h = elim (Option-cases (parent o)) [
      | inl top_most ↦ rw (enter_root top_most) h
      | inr (p, child) ↦ rw (enter_child p child) (rw (at_children x p q) (ground arith))
    ]

    children_sound :
        ((x q : ℕ) → member x (m.children_map q) ≡ true → parent x ≡ some q)
        → (x q : ℕ) → member x ((enter parent m o).children_map q) ≡ true
        → parent x ≡ some q
    children_sound sound x q h = elim (Option-cases (parent o)) [
      | inl top_most ↦ sound x q (rw (← enter_root top_most) h)
      | inr (p, child) ↦ elim (Bool-cases (member x (m.children_map q))) [
        | inl before ↦ sound x q before
        | inr new ↦
            let h' : member x (at m.children_map p (add o (m.children_map p)) q) ≡ true =
              subst (λ (f : ℕ → List ℕ). member x (f q) ≡ true) (enter_child p child) h in
            let e = at_children x p q in
            let here : (q == p) ≡ true = ground arith in
            let this : (o == x) ≡ true = ground arith in
            ap parent (sym ((==_iff o x).0 this)) ∙ child ∙ ap some (sym ((==_iff q p).0 here))
      ]
    ]

    objects_more :
        (x : ℕ) → member x m.objects_map ≡ true → member x (enter parent m o).objects_map ≡ true
    objects_more x h = rw enter_objects (rw (member-add x o m.objects_map) (ground arith))

    pub objects_there : member o (enter parent m o).objects_map ≡ true
    objects_there =
        rw enter_objects (rw (member-add o o m.objects_map) (let r = ==_refl o in ground arith))

    enter-Agrees : (t : ℕ) → IsValid parent m → Agrees parent [] t (enter parent m o)
    enter-Agrees t v = record {
      linked = λ x h stays. rw enter_session ((v.agrees t).linked x (rw (← enter_reverse) h) stays);
      backed = λ x h. rw enter_reverse ((v.agrees t).backed x (rw (← enter_session) h));
      tree = record {
        closed = λ s x p h child.
            rw enter_reverse ((v.agrees t).tree.closed s x p (rw (← enter_reverse) h) child);
        known = λ s x p h child.
            children_more x p ((v.agrees t).tree.known s x p (rw (← enter_reverse) h) child);
        sound = children_sound (v.agrees t).tree.sound;
      };
    }

    pub enter-IsValid : IsValid parent m → IsValid parent (enter parent m o)
    enter-IsValid v = record {
      agrees = λ t. enter-Agrees t v;
      in_use = λ t x h. rw enter_use (v.in_use t x (rw (← enter_reverse) h));
      held = λ t x h. objects_more x (v.held t x (rw (← enter_reverse) h));
    }

    pub enter-Attached :
        (p : ℕ)
        → parent o ≡ some p
        → Attached parent m.objects_map m.children_map p
        → Attached parent (enter parent m o).objects_map (enter parent m o).children_map o
    enter-Attached p child up =
        below o p child objects_there
          (rw (enter_child p child) (rw (at_children o p p) (rw (==_refl p, ==_refl o) refl)))
          (Attached-weaken m.objects_map _ m.children_map _ p objects_more children_more up)
