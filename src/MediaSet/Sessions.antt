-- ===== src/MediaSet/Sessions.antt =====
-- MediaSet.cpp: what holds between two calls, and the end of a session.
use kms_core.Prelude.{
  ℕ, ◌<◌, ◌≡◌, ◌∙◌, refl, sym, ap, inl, inr, Bool, true, false, Option, some, List, [], ◌∷◌, ◌==◌,
  arith, Bool-cases, ==_iff, subst,
}
use kms_core.Prelude.Sets.{member}
use kms_core.Prelude.Tables.{Entry, lookup}
use kms_core.MediaSet.{MediaSet, is_some, is_empty, unref, forget, forget_session, unref_session}
use kms_core.MediaSet.Tree.{Moves, Tree, Agrees}
use kms_core.MediaSet.Unref.{Ranks, each-Unrefs, unref-Unrefs}

pub lookup-forget_self :
    {V : Type 0} (k : ℕ) (table : List (Entry V)) → is_some (lookup (forget k table) k) ≡ false
unfolding forget
lookup-forget_self k [] = refl
lookup-forget_self k (e ∷ table) = elim (Bool-cases (e.key == k)) [
  | inl here ↦ rw here (lookup-forget_self k table)
  | inr on ↦ rw on (rw on (lookup-forget_self k table))
]

pub lookup-forget_ne :
    {V : Type 0} (k j : ℕ) (table : List (Entry V))
    → (j == k) ≡ false
    → lookup (forget k table) j ≡ lookup table j
unfolding forget
lookup-forget_ne k j [] ne = refl
lookup-forget_ne k j (e ∷ table) ne = elim (Bool-cases (e.key == k)) [
  | inl here ↦
      let other : (e.key == j) ≡ false = ground arith in
      rw here (rw other (lookup-forget_ne k j table ne))
  | inr on ↦ rw on (elim (Bool-cases (e.key == j)) [
    | inl this ↦ rw this refl
    | inr next ↦ rw next (lookup-forget_ne k j table ne)
  ])
]

module _ (parent : ℕ → Option ℕ) where
  -- What holds between two calls.
  pub record IsValid (m : MediaSet) : Type 0 where
    pub agrees : (s : ℕ) → Agrees parent [] s m
    pub in_use :
        (s x : ℕ)
        → member s (m.reverse_session_map x) ≡ true
        → is_some (lookup m.session_in_use s) ≡ true
    pub held : (s x : ℕ) → member s (m.reverse_session_map x) ≡ true → member x m.objects_map ≡ true

  -- A call for one session keeps the others as they are.
  pub Moves-IsValid :
      (s : ℕ) (a b : MediaSet) → Moves s a b → Agrees parent [] s b → IsValid a → IsValid b
  Moves-IsValid s a b moves agrees v = record {
    agrees = λ t. elim (Bool-cases (t == s)) [
      | inl same ↦ subst (λ (k : ℕ). Agrees parent [] k b) (sym ((==_iff t s).0 same)) agrees
      | inr other ↦ record {
        linked = λ x h stays.
            rw (moves.sessions t other)
              ((v.agrees t).linked x (rw (← moves.others t x other) h) stays);
        backed = λ x h.
            rw (moves.others t x other) ((v.agrees t).backed x (rw (← moves.sessions t other) h));
        tree = agrees.tree;
      }
    ];
    in_use = λ t x h. rw moves.in_use (v.in_use t x (before t x h));
    held = λ t x h. rw moves.objects (v.held t x (before t x h));
  }
    where
      before :
          (t x : ℕ)
          → member t (b.reverse_session_map x) ≡ true
          → member t (a.reverse_session_map x) ≡ true
      before t x h = elim (Bool-cases (t == s)) [
        | inl same ↦ let e = (==_iff t s).0 same in rw e (moves.fewer x (rw (← e) h))
        | inr other ↦ rw (← moves.others t x other) h
      ]

  pub forget_session-IsValid :
      (m : MediaSet) (s : ℕ)
      → ((x : ℕ) → member s (m.reverse_session_map x) ≡ false)
      → IsValid m
      → IsValid (forget_session m s)
  unfolding forget_session
  forget_session-IsValid m s out v = record {
    agrees = λ t. elim (Bool-cases (t == s)) [
      | inl same ↦ record {
        linked = λ x h stays.
            let e = (==_iff t s).0 same in
            let o = out x in
            let h' : member s (m.reverse_session_map x) ≡ true = rw (← e) h in
            absurd (ground arith);
        backed = λ x h. absurd (ground arith);
        tree = tree_of t;
      }
      | inr other ↦ record {
        linked = λ x h stays. rw other ((v.agrees t).linked x h stays);
        backed = λ x h. (v.agrees t).backed x (rw other at h);
        tree = tree_of t;
      }
    ];
    in_use = λ t x h. elim (Bool-cases (t == s)) [
      | inl same ↦
          let e = (==_iff t s).0 same in
          let o = out x in
          let h' : member s (m.reverse_session_map x) ≡ true = rw (← e) h in absurd (ground arith)
      | inr other ↦ rw (lookup-forget_ne s t m.session_in_use other) (v.in_use t x h)
    ];
    held = v.held;
  }
    where
      tree_of : (t : ℕ) → Tree parent (forget_session m s)
      tree_of t = record {
        closed = (v.agrees t).tree.closed;
        known = (v.agrees t).tree.known;
        sound = (v.agrees t).tree.sound;
      }

-- What the end of a session does.
pub record Forgets (parent : ℕ → Option ℕ) (s : ℕ) (before after : MediaSet) : Type 0 where
  pub none_left : (x : ℕ) → member s (after.reverse_session_map x) ≡ false
  pub others :
      (t x : ℕ)
      → (t == s) ≡ false
      → member t (after.reverse_session_map x) ≡ member t (before.reverse_session_map x)
  pub unknown : is_some (lookup after.session_in_use s) ≡ false
  pub known :
      (t : ℕ) → (t == s) ≡ false → lookup after.session_in_use t ≡ lookup before.session_in_use t
  pub releases :
      (x t : ℕ)
      → member t (before.reverse_session_map x) ≡ true
      → is_empty (after.reverse_session_map x) ≡ true
      → member x after.posted ≡ true
  pub valid : IsValid parent after

module _ (parent : ℕ → Option ℕ) (rank : ℕ → ℕ) (top : ℕ) (ranks : Ranks parent rank top) where
  -- All objects of a session have left it after the loop over them.
  all_left :
      (m next : MediaSet) (s : ℕ)
      → Moves s m next
      → Agrees parent [] s next
      → ((c : ℕ)
          → member c (m.session_map s) ≡ true
          → member s (next.reverse_session_map c) ≡ false)
      → (x : ℕ) → member s (next.reverse_session_map x) ≡ false
  all_left m next s moves agrees gone x =
      elim (Bool-cases (member s (next.reverse_session_map x))) [
        | inr out ↦ out
        | inl back ↦ gone x (moves.leaves x (agrees.linked x back refl))
      ]

  forgotten :
      (m next : MediaSet) (s : ℕ)
      → Moves s m next
      → ((x : ℕ) → member s (next.reverse_session_map x) ≡ false)
      → IsValid parent next
      → Forgets parent s m (forget_session next s)
  unfolding forget_session
  forgotten m next s moves out v = record {
    none_left = out;
    others = moves.others;
    unknown = lookup-forget_self s next.session_in_use;
    known = λ t ne.
        lookup-forget_ne s t next.session_in_use ne
        ∙ ap (λ (l : List (Entry Bool)). lookup l t) moves.in_use;
    releases = moves.releases;
    valid = forget_session-IsValid parent next s out v;
  }

  -- With enough fuel for the depth of the tree of objects, the end of a session comes to an end: no
  -- object is held by it any more, the other sessions hold what they held, the session is unknown, and
  -- for each object that has lost its last session the release has been posted. The maps are valid.
  pub unref_session-Forgets :
      (fuel : ℕ) (m : MediaSet) (s : ℕ)
      → top < fuel
      → IsValid parent m
      → (after : MediaSet) × (unref_session parent fuel m s ≡ some after) × Forgets parent s m after
  unfolding unref_session
  unref_session-Forgets fuel m s enough v =
      let run =
        each-Unrefs parent [] s (λ object next. unref parent fuel next s object) (m.session_map s) m
          (λ c next h. unref-Unrefs parent rank top ranks fuel next s c [] (omega arith))
          (v.agrees s) in
      let out = all_left m run.after s run.moves run.agrees run.gone in
      (
        forget_session run.after s,
        rw (run.ran, unref_session) refl,
        forgotten m run.after s run.moves out
            (Moves-IsValid parent s m run.after run.moves run.agrees v),
      )
