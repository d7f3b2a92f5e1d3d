-- ===== src/MediaSet/Unref.antt =====
-- MediaSet.cpp, `unref`: an object and all below it leave a session.
use kms_core.Prelude.{
  ℕ, zero, suc, ◌+◌, ◌<◌, ◌≤◌, ◌≡◌, refl, sym, inl, inr, Bool, true, false, Option, some, List, [],
  ◌∷◌, ◌==◌, arith, Bool-cases, ==_iff, ==_refl, subst,
}
use kms_core.Prelude.Sets.{member, erase, at, member-erase}
use kms_core.MediaSet.{MediaSet, each, unref, unref_object}
use kms_core.MediaSet.Tree.{Moves, Moves-refl, Moves-trans, Tree, Agrees}
use kms_core.MediaSet.Leaving.{after_gone, unref_object-Moves, unref_object-Agrees}

-- A parent is older than its children, and the ages are bounded.
pub record Ranks (parent : ℕ → Option ℕ) (rank : ℕ → ℕ) (top : ℕ) : Type 0 where
  pub older : (x p : ℕ) → parent x ≡ some p → rank p < rank x
  pub bounded : (x : ℕ) → rank x ≤ top

-- A run in which all of some objects leave a session.
pub record Unrefs (parent : ℕ → Option ℕ) (leaving : List ℕ) (s : ℕ) (before : MediaSet)
    (run : Option MediaSet) (all : ℕ → Bool) : Type 0 where
  pub after : MediaSet
  pub ran : run ≡ some after
  pub moves : Moves s before after
  pub agrees : Agrees parent leaving s after
  pub gone : (c : ℕ) → all c ≡ true → member s (after.reverse_session_map c) ≡ false

stays_gone :
    (s c : ℕ) (a b : MediaSet)
    → Moves s a b
    → member s (a.reverse_session_map c) ≡ false
    → member s (b.reverse_session_map c) ≡ false
stays_gone s c a b moves out = elim (Bool-cases (member s (b.reverse_session_map c))) [
  | inr no_more ↦ no_more
  | inl back ↦ let before = moves.fewer c back in absurd (ground arith)
]

-- A loop of calls, each of which makes its object leave.
pub each-Unrefs :
    (parent : ℕ → Option ℕ) (leaving : List ℕ) (s : ℕ) (f : ℕ → MediaSet → Option MediaSet)
    (cs : List ℕ) (m : MediaSet)
    → ((c : ℕ) (next : MediaSet)
        → member c cs ≡ true
        → Agrees parent leaving s next
        → Unrefs parent leaving s next (f c next) (λ x. x == c))
    → Agrees parent leaving s m
    → Unrefs parent leaving s m (each f cs m) (λ x. member x cs)
unfolding each
each-Unrefs parent leaving s f [] m one a = record {
  after = m;
  ran = refl;
  moves = Moves-refl s m;
  agrees = a;
  gone = λ c h. absurd (ground arith);
}
each-Unrefs parent leaving s f (c ∷ cs) m one a =
    let first = one c m (rw (==_refl c) refl) a in
    let rest =
      each-Unrefs parent leaving s f cs first.after (λ c' next h. one c' next (ground arith))
        first.agrees in
    record {
      after = rest.after;
      ran = rw (first.ran, each) rest.ran;
      moves = Moves-trans s m first.after rest.after first.moves rest.moves;
      agrees = rest.agrees;
      gone = λ x h. elim (Bool-cases (member x cs)) [
        | inl later ↦ rest.gone x later
        | inr now ↦ stays_gone s x first.after rest.after rest.moves (first.gone x (ground arith))
      ];
    }

module _ (parent : ℕ → Option ℕ) (rank : ℕ → ℕ) (top : ℕ) (ranks : Ranks parent rank top) where
  -- The first step of `unref`.
  abbrev erased : MediaSet → ℕ → ℕ → MediaSet
  erased m s o = record m { session_map = at m.session_map s (erase o (m.session_map s)) }

  erased-Moves : (m : MediaSet) (s o : ℕ) → Moves s m (erased m s o)
  erased-Moves m s o = record {
    others = λ t x ne. refl;
    fewer = λ x h. h;
    sessions = λ t ne. rw ne refl;
    leaves = λ x h.
        let h' : member x (erase o (m.session_map s)) ≡ true = let r = ==_refl s in ground arith in
        let e = member-erase x o (m.session_map s) in ground arith;
    in_use = refl;
    objects = refl;
    posts = λ x h. h;
    releases = (Moves-refl s m).releases;
  }

  erased-Agrees :
      (m : MediaSet) (s o : ℕ) (leaving : List ℕ)
      → Agrees parent leaving s m
      → Agrees parent (o ∷ leaving) s (erased m s o)
  erased-Agrees m s o leaving a = record {
    linked = λ x h stays.
        let there = a.linked x h (ground arith) in
        rw (==_refl s) (rw (member-erase x o (m.session_map s)) (ground arith));
    backed = λ x h. a.backed x ((erased-Moves m s o).leaves x h);
    tree = record { closed = a.tree.closed; known = a.tree.known; sound = a.tree.sound };
  }

  erased_out :
      (m next : MediaSet) (s o : ℕ)
      → Moves s (erased m s o) next
      → member o (next.session_map s) ≡ false
  erased_out m next s o moves = elim (Bool-cases (member o (next.session_map s))) [
    | inr out ↦ out
    | inl back ↦
        let before = moves.leaves o back in
        let r = ==_refl s in
        let r' = ==_refl o in let e = member-erase o o (m.session_map s) in absurd (ground arith)
  ]

  -- The children that have the session are those of the loop.
  erased_childless :
      (m next : MediaSet) (s o : ℕ)
      → Tree parent m
      → Moves s (erased m s o) next
      → ((c : ℕ)
          → member c (m.children_map o) ≡ true
          → member s (next.reverse_session_map c) ≡ false)
      → (x : ℕ) → parent x ≡ some o
      → member s (next.reverse_session_map x) ≡ false
  erased_childless m next s o tree moves gone x child =
      elim (Bool-cases (member s (next.reverse_session_map x))) [
        | inr out ↦ out
        | inl back ↦ gone x (tree.known s x o (moves.fewer x back) child)
      ]

  pub unref-Unrefs :
      (fuel : ℕ) (m : MediaSet) (s o : ℕ) (leaving : List ℕ)
      → top < rank o + fuel
      → Agrees parent leaving s m
      → Unrefs parent leaving s m (unref parent fuel m s o) (λ x. x == o)
  unfolding unref
  unref-Unrefs zero m s o leaving enough a = absurd (let b = ranks.bounded o in omega arith)
  unref-Unrefs (suc fuel) m s o leaving enough a =
      let below =
        each-Unrefs parent (o ∷ leaving) s (λ child next. unref parent fuel next s child)
          (m.children_map o) (erased m s o)
          (λ c next h.
            unref-Unrefs fuel next s c (o ∷ leaving)
              (let lt = ranks.older c o (a.tree.sound c o h) in omega arith))
          (erased-Agrees m s o leaving a) in
      let out = erased_out m below.after s o below.moves in
      let childless = erased_childless m below.after s o a.tree below.moves below.gone in
      record {
        after = unref_object parent below.after s o;
        ran = rw (below.ran, unref) refl;
        moves =
            Moves-trans s m below.after _
              (Moves-trans s m (erased m s o) below.after (erased-Moves m s o) below.moves)
              (unref_object-Moves parent below.after s o);
        agrees = unref_object-Agrees parent below.after s o leaving out childless below.agrees;
        gone = λ c h.
            let e = (==_iff c o).0 h in
            subst
              (λ (k : ℕ).
                member s ((unref_object parent below.after s o).reverse_session_map k) ≡ false)
              (sym e) (after_gone parent below.after s o);
      }
