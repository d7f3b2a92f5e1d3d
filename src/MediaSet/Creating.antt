-- ===== src/MediaSet/Creating.antt =====
-- MediaSet.cpp, `ref (mediaObjectPtr)`: a new object enters the maps and the sessions of its parent.
use kms_core.Prelude.{
  ℕ, ◌<◌, ◌≡◌, ◌∙◌, refl, sym, ap, inl, inr, Bool, true, false, Option, none, some, List, [], ◌∷◌,
  ◌==◌, arith, Bool-cases, Option-cases, ==_iff, subst,
}
use kms_core.Prelude.Sets.{member}
use kms_core.MediaSet.{MediaSet}
use kms_core.MediaSet.Unref.{Ranks}
use kms_core.MediaSet.Sessions.{IsValid}
use kms_core.MediaSet.Objects.{ref_all, enter, new_object}
use kms_core.MediaSet.Referring.{Attached, Refers, ref-Refers, parent_held}
use kms_core.MediaSet.Entering.{enter_reverse, enter-IsValid, enter-Attached, objects_there}

-- What it does that some sessions refer to an object.
pub record RefersAll (parent : ℕ → Option ℕ) (sessions : ℕ → Bool) (o : ℕ) (before after : MediaSet)
    : Type 0 where
  pub holds : (t : ℕ) → sessions t ≡ true → member t (after.reverse_session_map o) ≡ true
  pub keeps :
      (t x : ℕ)
      → member t (before.reverse_session_map x) ≡ true
      → member t (after.reverse_session_map x) ≡ true
  pub others :
      (t x : ℕ)
      → sessions t ≡ false
      → member t (after.reverse_session_map x) ≡ member t (before.reverse_session_map x)
  pub objects : after.objects_map ≡ before.objects_map
  pub children : after.children_map ≡ before.children_map
  pub valid : IsValid parent after

RefersAll-cons :
    (parent : ℕ → Option ℕ) (s : ℕ) (ss : List ℕ) (o : ℕ) (m next after : MediaSet)
    → Refers parent s o m next
    → RefersAll parent (λ t. member t ss) o next after
    → RefersAll parent (λ t. member t (s ∷ ss)) o m after
RefersAll-cons parent s ss o m next after r rs = record {
  holds = λ t h. elim (Bool-cases (member t ss)) [
    | inl later ↦ rs.holds t later
    | inr now ↦
        let same : (s == t) ≡ true = ground arith in
        rs.keeps t o (
          subst (λ (k : ℕ). member k (next.reverse_session_map o) ≡ true) ((==_iff s t).0 same)
            r.holds)
  ];
  keeps = λ t x h. rs.keeps t x (r.keeps t x h);
  others = λ t x out.
      rs.others t x (ground arith)
      ∙ r.others t x (let ne : (s == t) ≡ false = ground arith in ground arith);
  objects = rs.objects ∙ r.objects;
  children = rs.children ∙ r.children;
  valid = rs.valid;
}

module _ (parent : ℕ → Option ℕ) (rank : ℕ → ℕ) (top : ℕ) (ranks : Ranks parent rank top) where
  ref_all-RefersAll :
      (fuel : ℕ) (sessions : List ℕ) (m : MediaSet) (o : ℕ)
      → top < fuel
      → Attached parent m.objects_map m.children_map o
      → IsValid parent m
      → (after : MediaSet) × (ref_all parent fuel sessions m o ≡ some (after, true))
        × RefersAll parent (λ t. member t sessions) o m after
  unfolding ref_all
  ref_all-RefersAll fuel [] m o enough placed v = (
    m,
    refl,
    record {
      holds = λ t h. absurd (ground arith);
      keeps = λ t x h. h;
      others = λ t x out. refl;
      objects = refl;
      children = refl;
      valid = v;
    },
  )
  ref_all-RefersAll fuel (s ∷ ss) m o enough placed v =
      let (next, ran, r) =
        ref-Refers parent rank top ranks fuel m s o (let b = ranks.bounded o in omega arith) placed
          v in
      let (after, rest, rs) =
        ref_all-RefersAll fuel ss next o enough (rw (r.objects, r.children) placed) r.valid in
      (after, rw (ran, ref_all) rest, RefersAll-cons parent s ss o m next after r rs)

  -- What the making of an object does.
  pub record Creates (o : ℕ) (before after : MediaSet) : Type 0 where
    pub there : member o after.objects_map ≡ true
    pub holds :
        (p t : ℕ)
        → parent o ≡ some p
        → member t (before.reverse_session_map p) ≡ true
        → member t (after.reverse_session_map o) ≡ true
    pub keeps :
        (t x : ℕ)
        → member t (before.reverse_session_map x) ≡ true
        → member t (after.reverse_session_map x) ≡ true
    pub others :
        (t x : ℕ)
        → ((p : ℕ) → parent o ≡ some p → member t (before.reverse_session_map p) ≡ false)
        → member t (after.reverse_session_map x) ≡ member t (before.reverse_session_map x)
    pub valid : IsValid parent after

  enter-Creates :
      (m : MediaSet) (o : ℕ) → parent o ≡ none → IsValid parent m → Creates o m (enter parent m o)
  enter-Creates m o top_most v = record {
    there = objects_there parent m o;
    holds = λ p t child h. absurd (let e : none ≡ some p = sym top_most ∙ child in ground arith);
    keeps = λ t x h. rw (enter_reverse parent m o) h;
    others = λ t x out. rw (enter_reverse parent m o) refl;
    valid = enter-IsValid parent m o v;
  }

  RefersAll-Creates :
      (m after : MediaSet) (o p : ℕ)
      → parent o ≡ some p
      → RefersAll parent (λ t. member t (m.reverse_session_map p)) o (enter parent m o) after
      → Creates o m after
  RefersAll-Creates m after o p child rs = record {
    there = rw rs.objects (objects_there parent m o);
    holds = λ q t other h. rs.holds t (parent_held parent o q p t m other h child);
    keeps = λ t x h. rs.keeps t x (rw (enter_reverse parent m o) h);
    others = λ t x out.
        rs.others t x (out p child)
        ∙ ap (λ (f : ℕ → List ℕ). member t (f x)) (enter_reverse parent m o);
    valid = rs.valid;
  }

  -- With enough fuel for the depth of the tree of objects, a new object whose parent, if it has one, stands
  -- in the maps with all above it is made: it is in the map of objects, each session that holds its parent
  -- holds it too, no session holds less than before, and those that do not hold the parent do not hold
  -- more. The maps stay valid.
  pub new_object-Creates :
      (fuel : ℕ) (m : MediaSet) (o : ℕ)
      → top < fuel
      → ((p : ℕ) → parent o ≡ some p → Attached parent m.objects_map m.children_map p)
      → IsValid parent m
      → (after : MediaSet) × (new_object parent fuel m o ≡ some (after, true)) × Creates o m after
  unfolding new_object
  new_object-Creates fuel m o enough placed v = elim (Option-cases (parent o)) [
    | inl top_most ↦
        (enter parent m o, rw (top_most, new_object) refl, enter-Creates m o top_most v)
    | inr (p, child) ↦
        let (after, ran, rs) =
          ref_all-RefersAll fuel (m.reverse_session_map p) (enter parent m o) o enough
            (enter-Attached parent m o p child (placed p child)) (enter-IsValid parent m o v) in
        (
          after,
          rw (child, new_object)
              (ap (λ (f : ℕ → List ℕ). ref_all parent fuel (f p) (enter parent m o) o)
                  (enter_reverse parent m o)
                ∙ ran),
          RefersAll-Creates m after o p child rs,
        )
  ]
