-- ===== src/MediaSet/Referring.antt =====
-- MediaSet.cpp, `ref (sessionId, mediaObject)`: a session holds an object and all above it.
use kms_core.Prelude.{
  ℕ, zero, suc, ◌<◌, ◌≡◌, ◌∙◌, refl, sym, ap, inl, inr, true, false, Option, none, some, List, ◌==◌,
  arith, Bool-cases, ==_iff, ==_refl, subst,
}
use kms_core.Prelude.Sets.{member}
use kms_core.Prelude.Tables.{lookup, lookup-insert_self}
use kms_core.MediaSet.{MediaSet, register, ref}
use kms_core.MediaSet.Unref.{Ranks}
use kms_core.MediaSet.Sessions.{IsValid}
use kms_core.MediaSet.Registering.{
  kept, keep_alive_session_kept, kept-IsValid, registered_reverse, registered_keeps,
  registered-IsValid,
}

-- An object that stands in the maps with all above it.
pub data Attached (parent : ℕ → Option ℕ) (objects : List ℕ) (children : ℕ → List ℕ)
    : ℕ → Type 0 where
  root : (x : ℕ) → parent x ≡ none → member x objects ≡ true → Attached parent objects children x
  below :
      (x p : ℕ)
      → parent x ≡ some p
      → member x objects ≡ true
      → member x (children p) ≡ true
      → Attached parent objects children p
      → Attached parent objects children x

module _ (parent : ℕ → Option ℕ) where
  -- What a session that refers to an object does.
  pub record Refers (s o : ℕ) (before after : MediaSet) : Type 0 where
    pub holds : member s (after.reverse_session_map o) ≡ true
    pub keeps :
        (t x : ℕ)
        → member t (before.reverse_session_map x) ≡ true
        → member t (after.reverse_session_map x) ≡ true
    pub others :
        (t x : ℕ)
        → (t == s) ≡ false
        → member t (after.reverse_session_map x) ≡ member t (before.reverse_session_map x)
    pub alive : lookup after.session_in_use s ≡ some true
    pub objects : after.objects_map ≡ before.objects_map
    pub children : after.children_map ≡ before.children_map
    pub valid : IsValid parent after

  pub parent_held :
      (x p q s : ℕ) (next : MediaSet)
      → parent x ≡ some p
      → member s (next.reverse_session_map p) ≡ true
      → parent x ≡ some q
      → member s (next.reverse_session_map q) ≡ true
  parent_held x p q s next child h other = elim (Bool-cases (p == q)) [
    | inl same ↦
        subst (λ (k : ℕ). member s (next.reverse_session_map k) ≡ true) ((==_iff p q).0 same) h
    | inr differ ↦
        absurd (let e : some p ≡ some q = sym child ∙ other in let r = ==_refl q in ground arith)
  ]

  parent_child :
      (x p q : ℕ) (children : ℕ → List ℕ)
      → parent x ≡ some p
      → member x (children p) ≡ true
      → parent x ≡ some q
      → member x (children q) ≡ true
  parent_child x p q children child h other = elim (Bool-cases (p == q)) [
    | inl same ↦ subst (λ (k : ℕ). member x (children k) ≡ true) ((==_iff p q).0 same) h
    | inr differ ↦
        absurd (let e : some p ≡ some q = sym child ∙ other in let r = ==_refl q in ground arith)
  ]

  no_parent : (P : ℕ → Type 0) (x : ℕ) → parent x ≡ none → (p : ℕ) → parent x ≡ some p → P p
  no_parent P x top_most p child =
      absurd (let e : none ≡ some p = sym top_most ∙ child in ground arith)

  register-Refers :
      (s o : ℕ) (before m : MediaSet)
      → ((t x : ℕ)
          → member t (before.reverse_session_map x) ≡ true
          → member t (m.reverse_session_map x) ≡ true)
      → ((t x : ℕ)
          → (t == s) ≡ false
          → member t (m.reverse_session_map x) ≡ member t (before.reverse_session_map x))
      → lookup m.session_in_use s ≡ some true
      → m.objects_map ≡ before.objects_map
      → m.children_map ≡ before.children_map
      → IsValid parent (register m s o)
      → Refers s o before (register m s o)
  register-Refers s o before m keeps others alive objects children v = record {
    holds = rw (registered_reverse parent m s o s o) (rw (==_refl o, ==_refl s) refl);
    keeps = λ t x h. registered_keeps parent m s o t x (keeps t x h);
    others = λ t x ne.
        rw (registered_reverse parent m s o t x)
          (let sw : (s == t) ≡ false = ground arith in let e = others t x ne in ground arith);
    alive = alive;
    objects = objects;
    children = children;
    valid = v;
  }

  module _ (rank : ℕ → ℕ) (top : ℕ) (ranks : Ranks parent rank top) where
    -- With enough fuel for the objects above it, a session can refer to any object that stands in the
    -- maps with all above it: it is alive and holds the object after it, no session holds less than
    -- before and no other session more. The maps stay valid.
    pub ref-Refers :
        (fuel : ℕ) (m : MediaSet) (s o : ℕ)
        → rank o < fuel
        → Attached parent m.objects_map m.children_map o
        → IsValid parent m
        → (after : MediaSet) × (ref parent fuel m s o ≡ some (after, true)) × Refers s o m after
    unfolding ref
    ref-Refers zero m s o enough placed v = absurd (omega arith)
    ref-Refers (suc fuel) m s o enough (root x top_most there) v =
        let v' = kept-IsValid parent m s v in
        (
          register (kept m s) s o,
          rw (there, top_most)
              (ap (λ (k : MediaSet). some (register k s o, true)) (keep_alive_session_kept m s)),
          register-Refers s o m (kept m s) (λ t x h. h) (λ t x ne. refl)
              (lookup-insert_self m.session_in_use s true) refl refl
              (registered-IsValid parent (kept m s) s o v' (no_parent _ o top_most)
                (no_parent _ o top_most) (rw (lookup-insert_self m.session_in_use s true) refl)
                there),
        )
    ref-Refers (suc fuel) m s o enough (below x p child there placed up) v =
        let (next, ran, r) =
          ref-Refers fuel (kept m s) s p (let lt = ranks.older o p child in omega arith) up
            (kept-IsValid parent m s v) in
        let ran' =
          ap (λ (k : MediaSet). ref parent fuel k s p) (keep_alive_session_kept m s) ∙ ran in
        (
          register next s o,
          rw (there, child) (rw (ran', ref) refl),
          register-Refers s o m next r.keeps r.others r.alive r.objects r.children (
              registered-IsValid parent next s o r.valid
                (λ q other. parent_held o p q s next child r.holds other)
                (λ q other. rw r.children (parent_child o p q m.children_map child placed other))
                (rw r.alive refl) (rw r.objects there)),
        )
