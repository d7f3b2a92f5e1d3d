-- ===== src/MediaSet/Tree.antt =====
-- MediaSet.cpp: the relations between the maps, and one object that leaves a session.
use kms_core.Prelude.{
  ℕ, ◌≡◌, ◌∙◌, refl, ap, inl, inr, true, false, Option, some, List, [], ◌∷◌, ◌==◌, arith,
  Bool-cases, ==_refl,
}
use kms_core.Prelude.Sets.{member, erase, at}
use kms_core.MediaSet.{MediaSet, is_empty, is_server_manager, drop_object, unref_object}

pub empty_none : (xs : List ℕ) → is_empty xs ≡ true → xs ≡ []
empty_none [] h = refl
empty_none (x ∷ xs) h = absurd (ground arith)

-- What a call for one session does to the maps.
pub record Moves (s : ℕ) (before after : MediaSet) : Type 0 where
  pub others :
      (t x : ℕ)
      → (t == s) ≡ false
      → member t (after.reverse_session_map x) ≡ member t (before.reverse_session_map x)
  pub fewer :
      (x : ℕ)
      → member s (after.reverse_session_map x) ≡ true
      → member s (before.reverse_session_map x) ≡ true
  pub sessions : (t : ℕ) → (t == s) ≡ false → after.session_map t ≡ before.session_map t
  pub leaves :
      (x : ℕ) → member x (after.session_map s) ≡ true → member x (before.session_map s) ≡ true
  pub in_use : after.session_in_use ≡ before.session_in_use
  pub objects : after.objects_map ≡ before.objects_map
  pub posts : (x : ℕ) → member x before.posted ≡ true → member x after.posted ≡ true
  pub releases :
      (x t : ℕ)
      → member t (before.reverse_session_map x) ≡ true
      → is_empty (after.reverse_session_map x) ≡ true
      → member x after.posted ≡ true

pub Moves-refl : (s : ℕ) (m : MediaSet) → Moves s m m
Moves-refl s m = record {
  others = λ t x ne. refl;
  fewer = λ x h. h;
  sessions = λ t ne. refl;
  leaves = λ x h. h;
  in_use = refl;
  objects = refl;
  posts = λ x h. h;
  releases = λ x t h e. absurd (
      let none_left = ap (λ (l : List ℕ). member t l) (empty_none (m.reverse_session_map x) e) in
      ground arith);
}

Moves-releases :
    (s : ℕ) (a b c : MediaSet) (x t : ℕ)
    → Moves s a b
    → Moves s b c
    → (rs : List ℕ) → b.reverse_session_map x ≡ rs
    → member t (a.reverse_session_map x) ≡ true
    → is_empty (c.reverse_session_map x) ≡ true
    → member x c.posted ≡ true
Moves-releases s a b c x t p q [] e h empty = q.posts x (p.releases x t h (rw e refl))
Moves-releases s a b c x t p q (r ∷ rs) e h empty =
    q.releases x r (rw e (let same = ==_refl r in ground arith)) empty

pub Moves-trans : (s : ℕ) (a b c : MediaSet) → Moves s a b → Moves s b c → Moves s a c
Moves-trans s a b c p q = record {
  others = λ t x ne. q.others t x ne ∙ p.others t x ne;
  fewer = λ x h. p.fewer x (q.fewer x h);
  sessions = λ t ne. q.sessions t ne ∙ p.sessions t ne;
  leaves = λ x h. p.leaves x (q.leaves x h);
  in_use = q.in_use ∙ p.in_use;
  objects = q.objects ∙ p.objects;
  posts = λ x h. q.posts x (p.posts x h);
  releases = λ x t h e. Moves-releases s a b c x t p q (b.reverse_session_map x) refl h e;
}

module _ (parent : ℕ → Option ℕ) where
  -- The sessions of an object hold its parent, which has it among its children.
  pub record Tree (m : MediaSet) : Type 0 where
    pub closed :
        (t x p : ℕ)
        → member t (m.reverse_session_map x) ≡ true
        → parent x ≡ some p
        → member t (m.reverse_session_map p) ≡ true
    pub known :
        (t x p : ℕ)
        → member t (m.reverse_session_map x) ≡ true
        → parent x ≡ some p
        → member x (m.children_map p) ≡ true
    pub sound : (x p : ℕ) → member x (m.children_map p) ≡ true → parent x ≡ some p

  -- The two maps of a session agree, but for the objects that are on their way out.
  pub record Agrees (leaving : List ℕ) (s : ℕ) (m : MediaSet) : Type 0 where
    pub linked :
        (x : ℕ)
        → member s (m.reverse_session_map x) ≡ true
        → member x leaving ≡ false
        → member x (m.session_map s) ≡ true
    pub backed :
        (x : ℕ) → member x (m.session_map s) ≡ true → member s (m.reverse_session_map x) ≡ true
    pub tree : Tree m

  pub unref_object_reverse :
      (m : MediaSet) (s o x : ℕ)
      → (unref_object parent m s o).reverse_session_map x
        ≡ at m.reverse_session_map o (erase s (m.reverse_session_map o)) x
  unfolding unref_object drop_object
  unref_object_reverse m s o x = elim (Bool-cases (is_empty (erase s (m.reverse_session_map o)))) [
    | inr left ↦ rw left refl
    | inl none_left ↦ rw none_left (elim (Bool-cases (is_server_manager m o)) [
      | inl manager ↦ rw manager refl
      | inr normal ↦
          rw normal (rw (empty_none (erase s (m.reverse_session_map o)) none_left) (ground arith))
    ])
  ]
