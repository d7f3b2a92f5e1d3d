-- ===== src/MediaSet/Releasing.antt =====
-- MediaSet.cpp, `release` and `releaseSession`: an object leaves all of its sessions.
use kms_core.Prelude.{
  ℕ, ◌<◌, ◌≡◌, refl, ap, inl, inr, true, false, Option, some, List, [], ◌∷◌, ◌==◌, arith,
  Bool-cases, ==_iff, ==_refl, subst,
}
use kms_core.Prelude.Sets.{member}
use kms_core.Prelude.Tables.{lookup}
use kms_core.MediaSet.{
  MediaSet, is_some, is_empty, each, unref, release, forget_session, release_session,
}
use kms_core.MediaSet.Tree.{Moves, empty_none}
use kms_core.MediaSet.Unref.{Ranks, unref-Unrefs}
use kms_core.MediaSet.Sessions.{IsValid, Moves-IsValid, forget_session-IsValid, lookup-forget_self}

-- What a call only takes away.
pub record Shrinks (before after : MediaSet) : Type 0 where
  pub fewer :
      (t x : ℕ)
      → member t (after.reverse_session_map x) ≡ true
      → member t (before.reverse_session_map x) ≡ true
  pub posts : (x : ℕ) → member x before.posted ≡ true → member x after.posted ≡ true
  pub releases :
      (x t : ℕ)
      → member t (before.reverse_session_map x) ≡ true
      → is_empty (after.reverse_session_map x) ≡ true
      → member x after.posted ≡ true

Shrinks-refl : (m : MediaSet) → Shrinks m m
Shrinks-refl m = record {
  fewer = λ t x h. h;
  posts = λ x h. h;
  releases = λ x t h e.
      let none_left = ap (λ (l : List ℕ). member t l) (empty_none (m.reverse_session_map x) e) in
      absurd (ground arith);
}

Shrinks-releases :
    (a b c : MediaSet) (x t : ℕ)
    → Shrinks a b
    → Shrinks b c
    → (rs : List ℕ) → b.reverse_session_map x ≡ rs
    → member t (a.reverse_session_map x) ≡ true
    → is_empty (c.reverse_session_map x) ≡ true
    → member x c.posted ≡ true
Shrinks-releases a b c x t p q [] e h empty = q.posts x (p.releases x t h (rw e refl))
Shrinks-releases a b c x t p q (r ∷ rs) e h empty =
    q.releases x r (rw e (let same = ==_refl r in ground arith)) empty

Shrinks-trans : (a b c : MediaSet) → Shrinks a b → Shrinks b c → Shrinks a c
Shrinks-trans a b c p q = record {
  fewer = λ t x h. p.fewer t x (q.fewer t x h);
  posts = λ x h. q.posts x (p.posts x h);
  releases = λ x t h e. Shrinks-releases a b c x t p q (b.reverse_session_map x) refl h e;
}

Moves-Shrinks : (s : ℕ) (a b : MediaSet) → Moves s a b → Shrinks a b
Moves-Shrinks s a b moves = record {
  fewer = λ t x h. elim (Bool-cases (t == s)) [
    | inl same ↦ let e = (==_iff t s).0 same in rw e (moves.fewer x (rw (← e) h))
    | inr other ↦ rw (← moves.others t x other) h
  ];
  posts = moves.posts;
  releases = moves.releases;
}

Shrinks-gone :
    (a b : MediaSet) (t x : ℕ)
    → Shrinks a b
    → member t (a.reverse_session_map x) ≡ false
    → member t (b.reverse_session_map x) ≡ false
Shrinks-gone a b t x shrinks out = elim (Bool-cases (member t (b.reverse_session_map x))) [
  | inr no_more ↦ no_more
  | inl back ↦ let before = shrinks.fewer t x back in absurd (ground arith)
]

-- A valid result that has taken something away.
pub record Releases (parent : ℕ → Option ℕ) (before : MediaSet) (run : Option MediaSet)
    (holds : MediaSet → Type 0) : Type 0 where
  pub after : MediaSet
  pub ran : run ≡ some after
  pub shrinks : Shrinks before after
  pub valid : IsValid parent after
  pub gone : holds after

-- A loop of such calls; what is gone stays gone.
each-Releases :
    (parent : ℕ → Option ℕ) (f : ℕ → MediaSet → Option MediaSet) (lost : ℕ → MediaSet → Type 0)
    (xs : List ℕ) (m : MediaSet)
    → ((x : ℕ) (a b : MediaSet) → Shrinks a b → lost x a → lost x b)
    → ((x : ℕ) (next : MediaSet) → IsValid parent next → Releases parent next (f x next) (lost x))
    → IsValid parent m
    → Releases parent m (each f xs m) (λ after. (x : ℕ) → member x xs ≡ true → lost x after)
unfolding each
each-Releases parent f lost [] m stays one v = record {
  after = m;
  ran = refl;
  shrinks = Shrinks-refl m;
  valid = v;
  gone = λ x h. absurd (ground arith);
}
each-Releases parent f lost (x ∷ xs) m stays one v =
    let first = one x m v in
    let rest = each-Releases parent f lost xs first.after stays one first.valid in
    record {
      after = rest.after;
      ran = rw (first.ran, each) rest.ran;
      shrinks = Shrinks-trans m first.after rest.after first.shrinks rest.shrinks;
      valid = rest.valid;
      gone = λ y h. elim (Bool-cases (member y xs)) [
        | inl later ↦ rest.gone y later
        | inr now ↦
            let same : (x == y) ≡ true = ground arith in
            stays y first.after rest.after rest.shrinks
              (subst (λ (k : ℕ). lost k first.after) ((==_iff x y).0 same) first.gone)
      ];
    }

module _ (parent : ℕ → Option ℕ) (rank : ℕ → ℕ) (top : ℕ) (ranks : Ranks parent rank top) where
  pub released_once :
      (fuel : ℕ) (next : MediaSet) (t o : ℕ)
      → top < fuel
      → IsValid parent next
      → Releases parent next
          (unref parent fuel next t o)
          (λ after. member t (after.reverse_session_map o) ≡ false)
  released_once fuel next t o enough v =
      let u = unref-Unrefs parent rank top ranks fuel next t o [] (omega arith) (v.agrees t) in
      record {
        after = u.after;
        ran = u.ran;
        shrinks = Moves-Shrinks t next u.after u.moves;
        valid = Moves-IsValid parent t next u.after u.moves u.agrees v;
        gone = u.gone o (==_refl o);
      }

  -- With enough fuel for the depth of the tree of objects, the release of an object comes to an end: no
  -- session holds it any more, no session holds more than before, and for each object that has lost its
  -- last session the release has been posted. The maps are valid.
  pub release-Releases :
      (fuel : ℕ) (m : MediaSet) (o : ℕ)
      → top < fuel
      → IsValid parent m
      → Releases parent m
          (release parent fuel m o)
          (λ after. (t : ℕ) → member t (after.reverse_session_map o) ≡ false)
  unfolding release
  release-Releases fuel m o enough v =
      let run =
        each-Releases parent (λ session next. unref parent fuel next session o)
          (λ t next. member t (next.reverse_session_map o) ≡ false) (m.reverse_session_map o) m
          (λ t a b shrinks out. Shrinks-gone a b t o shrinks out)
          (λ t next valid. released_once fuel next t o enough valid) v in
      record {
        after = run.after;
        ran = run.ran;
        shrinks = run.shrinks;
        valid = run.valid;
        gone = λ t. elim (Bool-cases (member t (m.reverse_session_map o))) [
          | inl holds ↦ run.gone t holds
          | inr free ↦ Shrinks-gone m run.after t o run.shrinks free
        ];
      }

  session_out :
      (m next : MediaSet) (s : ℕ)
      → Shrinks m next
      → IsValid parent m
      → ((x : ℕ)
          → member x (m.session_map s) ≡ true
          → (t : ℕ) → member t (next.reverse_session_map x) ≡ false)
      → (x : ℕ) → member s (next.reverse_session_map x) ≡ false
  session_out m next s shrinks v gone x = elim (Bool-cases (member s (m.reverse_session_map x))) [
    | inl held ↦ gone x ((v.agrees s).linked x held refl) s
    | inr free ↦ Shrinks-gone m next s x shrinks free
  ]

  -- The end of a session by `releaseSession`, in the same way, takes its objects from all sessions: what
  -- the session held is held by none, it is unknown, and the maps are valid.
  pub release_session-Releases :
      (fuel : ℕ) (m : MediaSet) (s : ℕ)
      → top < fuel
      → IsValid parent m
      → Releases parent m (release_session parent fuel m s) (λ after.
        ((x t : ℕ)
          → member s (m.reverse_session_map x) ≡ true
          → member t (after.reverse_session_map x) ≡ false)
        × (is_some (lookup after.session_in_use s) ≡ false))
  unfolding release_session forget_session
  release_session-Releases fuel m s enough v =
      let run =
        each-Releases parent (λ object next. release parent fuel next object)
          (λ x next. (t : ℕ) → member t (next.reverse_session_map x) ≡ false) (m.session_map s) m
          (λ x a b shrinks out t. Shrinks-gone a b t x shrinks (out t))
          (λ x next valid. release-Releases fuel next x enough valid) v in
      let held =
        λ (x : ℕ) (h : member s (m.reverse_session_map x) ≡ true). (v.agrees s).linked x h refl in
      let out = session_out m run.after s run.shrinks v run.gone in
      record {
        after = forget_session run.after s;
        ran = rw (run.ran, release_session) refl;
        shrinks = record {
          fewer = run.shrinks.fewer;
          posts = run.shrinks.posts;
          releases = run.shrinks.releases;
        };
        valid = forget_session-IsValid parent run.after s out run.valid;
        gone = (λ x t h. run.gone x (held x h) t, lookup-forget_self s run.after.session_in_use);
      }
