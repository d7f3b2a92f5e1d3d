-- ===== src/MediaSet/Collecting.antt =====
-- MediaSet.cpp, `doGarbageCollection`: sessions that nobody keeps alive end.
use kms_core.Prelude.{
  ℕ, ◌<◌, ◌≡◌, ◌∙◌, refl, sym, ap, inl, inr, Bool, true, false, Option, none, some, List, [], ◌∷◌,
  ◌==◌, arith, Bool-cases, ==_iff, subst,
}
use kms_core.Prelude.Sets.{member}
use kms_core.Prelude.Tables.{Entry, lookup, insert, lookup-insert_self, lookup-insert_ne}
use kms_core.MediaSet.{MediaSet, is_some, collect, do_garbage_collection}
use kms_core.MediaSet.Unref.{Ranks}
use kms_core.MediaSet.Sessions.{IsValid, unref_session-Forgets}
use kms_core.MediaSet.Registering.{lookup-insert_known}

-- The keys of a map differ.
abbrev pub Distinct : List (Entry Bool) → Type 0
Distinct [] = Unit
Distinct (e ∷ table) = (lookup table e.key ≡ none) × Distinct table

-- The session has what it had.
abbrev Same : MediaSet → MediaSet → ℕ → Type 0
Same before after t =
    (x : ℕ) → member t (after.reverse_session_map x) ≡ member t (before.reverse_session_map x)

-- What a collection does to the sessions of a map.
pub record Collects (parent : ℕ → Option ℕ) (sessions : List (Entry Bool)) (before after : MediaSet)
    : Type 0 where
  pub used :
      (t : ℕ)
      → lookup sessions t ≡ some true
      → Same before after t × (lookup after.session_in_use t ≡ some false)
  pub idle :
      (t : ℕ)
      → lookup sessions t ≡ some false
      → ((x : ℕ) → member t (after.reverse_session_map x) ≡ false)
        × (is_some (lookup after.session_in_use t) ≡ false)
  pub others :
      (t : ℕ)
      → lookup sessions t ≡ none
      → Same before after t × (lookup after.session_in_use t ≡ lookup before.session_in_use t)
  pub valid : IsValid parent after

module _ (parent : ℕ → Option ℕ) where
  abbrev marked : MediaSet → ℕ → MediaSet
  marked m s = record m { session_in_use = insert m.session_in_use s false }

  marked-IsValid : (m : MediaSet) (s : ℕ) → IsValid parent m → IsValid parent (marked m s)
  marked-IsValid m s v = record {
    agrees = λ t. record {
      linked = (v.agrees t).linked;
      backed = (v.agrees t).backed;
      tree = record {
        closed = (v.agrees t).tree.closed;
        known = (v.agrees t).tree.known;
        sound = (v.agrees t).tree.sound;
      };
    };
    in_use = λ t x h. lookup-insert_known m.session_in_use t s false (v.in_use t x h);
    held = v.held;
  }

  -- The first session is done, and the rest does not know it.
  step-Collects :
      (e : Entry Bool) (rest : List (Entry Bool)) (m next after : MediaSet)
      → lookup rest e.key ≡ none
      → ((t : ℕ)
          → (t == e.key) ≡ false
          → Same m next t × (lookup next.session_in_use t ≡ lookup m.session_in_use t))
      → (e.value ≡ true → Same m next e.key × (lookup next.session_in_use e.key ≡ some false))
      → (e.value ≡ false
          → ((x : ℕ) → member e.key (next.reverse_session_map x) ≡ false)
            × (is_some (lookup next.session_in_use e.key) ≡ false))
      → Collects parent rest next after
      → Collects parent (e ∷ rest) m after
  step-Collects e rest m next after new others used idle c = record {
    used = λ t h. elim (Bool-cases (t == e.key)) [
      | inl same ↦
          subst (λ (k : ℕ). Same m after k × (lookup after.session_in_use k ≡ some false))
            (sym ((==_iff t e.key).0 same))
            (let u = used (value_of t true same h) in
              let (kept, in_use) = c.others e.key new in (λ x. kept x ∙ u.0 x, in_use ∙ u.1))
      | inr other ↦
          let (kept, in_use) = c.used t (later t true other h) in
          (λ x. kept x ∙ (others t other).0 x, in_use)
    ];
    idle = λ t h. elim (Bool-cases (t == e.key)) [
      | inl same ↦
          subst
            (λ (k : ℕ).
              ((x : ℕ) → member k (after.reverse_session_map x) ≡ false)
              × (is_some (lookup after.session_in_use k) ≡ false))
            (sym ((==_iff t e.key).0 same))
            (let u = idle (value_of t false same h) in
              let (kept, in_use) = c.others e.key new in
              (λ x. kept x ∙ u.0 x, ap is_some in_use ∙ u.1))
      | inr other ↦ c.idle t (later t false other h)
    ];
    others = λ t h. elim (Bool-cases (t == e.key)) [
      | inl same ↦ absurd (let sw : (e.key == t) ≡ true = ground arith in ground arith)
      | inr other ↦
          let (kept, in_use) =
            c.others t (let sw : (e.key == t) ≡ false = ground arith in ground arith) in
          let (kept', in_use') = others t other in (λ x. kept x ∙ kept' x, in_use ∙ in_use')
    ];
    valid = c.valid;
  }
    where
      value_of :
          (t : ℕ) (b : Bool) → (t == e.key) ≡ true → lookup (e ∷ rest) t ≡ some b → e.value ≡ b
      value_of t b same h = let sw : (e.key == t) ≡ true = ground arith in ground arith

      later :
          (t : ℕ) (b : Bool)
          → (t == e.key) ≡ false
          → lookup (e ∷ rest) t ≡ some b
          → lookup rest t ≡ some b
      later t b other h = let sw : (e.key == t) ≡ false = ground arith in ground arith

  module _ (rank : ℕ → ℕ) (top : ℕ) (ranks : Ranks parent rank top) where
    collect-Collects :
        (fuel : ℕ) (sessions : List (Entry Bool)) (m : MediaSet)
        → top < fuel
        → Distinct sessions
        → IsValid parent m
        → (after : MediaSet) × (collect parent fuel sessions m ≡ some after)
          × Collects parent sessions m after
    unfolding collect
    collect-Collects fuel [] m enough d v = (
      m,
      refl,
      record {
        used = λ t h. absurd (ground arith);
        idle = λ t h. absurd (ground arith);
        others = λ t h. (λ x. refl, refl);
        valid = v;
      },
    )
    collect-Collects fuel (e ∷ rest) m enough d v = elim (Bool-cases e.value) [
      | inl used ↦
          let (after, ran, c) =
            collect-Collects fuel rest (marked m e.key) enough d.1 (marked-IsValid m e.key v) in
          (
            after,
            rw used ran,
            step-Collects e rest m (marked m e.key) after d.0
                (λ t ne. (
                  λ x. refl,
                  lookup-insert_ne m.session_in_use t e.key false
                      (λ same. absurd (let r = (==_iff t e.key).1 same in ground arith)),
                ))
                (λ h. (λ x. refl, lookup-insert_self m.session_in_use e.key false))
                (λ h. absurd (ground arith)) c,
          )
      | inr idle ↦
          let (next, left, f) = unref_session-Forgets parent rank top ranks fuel m e.key enough v in
          let (after, ran, c) = collect-Collects fuel rest next enough d.1 f.valid in
          (
            after,
            rw idle (rw (left, collect) ran),
            step-Collects e rest m next after d.0 (λ t ne. (λ x. f.others t x ne, f.known t ne))
                (λ h. absurd (ground arith)) (λ h. (f.none_left, f.unknown)) c,
          )
    ]

    -- With enough fuel for the depth of the tree of objects, a collection comes to an end: a session that
    -- was in use since the last one holds what it held and is marked as not used, and any other session
    -- ends: it holds nothing and is unknown. The maps stay valid.
    pub do_garbage_collection-Collects :
        (fuel : ℕ) (m : MediaSet)
        → top < fuel
        → Distinct m.session_in_use
        → IsValid parent m
        → (after : MediaSet) × (do_garbage_collection parent fuel m ≡ some after)
          × Collects parent m.session_in_use m after
    unfolding do_garbage_collection
    do_garbage_collection-Collects fuel m = collect-Collects fuel m.session_in_use m
