-- ===== src/MediaSet/Registering.antt =====
-- MediaSet.cpp, one step of `ref`: a session is kept alive, and an object is registered in it.
use kms_core.Prelude.{
  ℕ, ◌≡◌, ◌⊎◌, ◌∙◌, refl, sym, ap, inl, inr, true, ◌&&◌, ◌||◌, Option, some, List, [], ◌==◌, arith,
  Bool-cases, ==_iff, subst,
}
use kms_core.Prelude.Sets.{member, member-add}
use kms_core.Prelude.Tables.{Entry, lookup, insert, lookup-insert_self, lookup-insert_ne}
use kms_core.MediaSet.{MediaSet, is_some, keep_alive_session, register}
use kms_core.MediaSet.Tree.{Tree, Agrees}
use kms_core.MediaSet.Sessions.{IsValid}

abbrev pub kept : MediaSet → ℕ → MediaSet
kept m s = record m { session_in_use = insert m.session_in_use s true }

pub keep_alive_session_kept : (m : MediaSet) (s : ℕ) → (keep_alive_session m s true).0 ≡ kept m s
unfolding keep_alive_session
keep_alive_session_kept m s = elim (Bool-cases (is_some (lookup m.session_in_use s))) [
  | inl known ↦ rw known refl
  | inr new ↦ rw new refl
]

pub lookup-insert_known :
    {V : Type 0} (table : List (Entry V)) (j k : ℕ) (v : V)
    → is_some (lookup table j) ≡ true
    → is_some (lookup (insert table k v) j) ≡ true
lookup-insert_known table j k v h = elim (Bool-cases (j == k)) [
  | inl same ↦ rw ((==_iff j k).0 same) (rw (lookup-insert_self table k v) refl)
  | inr other ↦
      rw (lookup-insert_ne table j k v (λ e. absurd (let r = (==_iff j k).1 e in ground arith))) h
]

module _ (parent : ℕ → Option ℕ) where
  pub kept-IsValid : (m : MediaSet) (s : ℕ) → IsValid parent m → IsValid parent (kept m s)
  kept-IsValid m s v = record {
    agrees = λ t. record {
      linked = (v.agrees t).linked;
      backed = (v.agrees t).backed;
      tree = record {
        closed = (v.agrees t).tree.closed;
        known = (v.agrees t).tree.known;
        sound = (v.agrees t).tree.sound;
      };
    };
    in_use = λ t x h. lookup-insert_known m.session_in_use t s true (v.in_use t x h);
    held = v.held;
  }

  module _ (m : MediaSet) (s o : ℕ) where
    pub registered_reverse :
        (t x : ℕ)
        → member t ((register m s o).reverse_session_map x)
          ≡ (x == o && s == t || member t (m.reverse_session_map x))
    registered_reverse t x = elim (Bool-cases (x == o)) [
      | inr other ↦ rw other refl
      | inl same ↦
          let e = (==_iff x o).0 same in
          rw same (
            member-add t s (m.reverse_session_map o)
            ∙ ap (λ (k : ℕ). s == t || member t (m.reverse_session_map k)) (sym e))
    ]

    registered_session :
        (t x : ℕ)
        → member x ((register m s o).session_map t)
          ≡ (t == s && o == x || member x (m.session_map t))
    registered_session t x = elim (Bool-cases (t == s)) [
      | inr other ↦ rw other refl
      | inl same ↦
          let e = (==_iff t s).0 same in
          rw same (
            member-add x o (m.session_map s)
            ∙ ap (λ (k : ℕ). o == x || member x (m.session_map k)) (sym e))
    ]

    now_or_before :
        (t x : ℕ)
        → member t ((register m s o).reverse_session_map x) ≡ true
        → ((x ≡ o) × (s ≡ t)) ⊎ (member t (m.reverse_session_map x) ≡ true)
    now_or_before t x h = elim (Bool-cases (member t (m.reverse_session_map x))) [
      | inl before ↦ inr before
      | inr new ↦
          let e = registered_reverse t x in
          let here : (x == o) ≡ true = ground arith in
          let this : (s == t) ≡ true = ground arith in
          inl ((==_iff x o).0 here, (==_iff s t).0 this)
    ]

    pub registered_keeps :
        (t x : ℕ)
        → member t (m.reverse_session_map x) ≡ true
        → member t ((register m s o).reverse_session_map x) ≡ true
    registered_keeps t x h = rw (registered_reverse t x) (ground arith)

    module _ (v : IsValid parent m)
        (above : (p : ℕ) → parent o ≡ some p → member s (m.reverse_session_map p) ≡ true)
        (placed : (p : ℕ) → parent o ≡ some p → member o (m.children_map p) ≡ true) where
      registered-Tree : Tree parent (register m s o)
      registered-Tree = record {
        closed = λ t x p h child. registered_keeps t p (elim (now_or_before t x h) [
          | inl (here, this) ↦
              subst (λ (k : ℕ). member k (m.reverse_session_map p) ≡ true) this
                (above p (ap parent (sym here) ∙ child))
          | inr before ↦ (v.agrees t).tree.closed t x p before child
        ]);
        known = λ t x p h child. elim (now_or_before t x h) [
          | inl (here, this) ↦
              subst (λ (k : ℕ). member k (m.children_map p) ≡ true) (sym here)
                (placed p (ap parent (sym here) ∙ child))
          | inr before ↦ (v.agrees t).tree.known t x p before child
        ];
        sound = (v.agrees s).tree.sound;
      }

      registered-Agrees : (t : ℕ) → Agrees parent [] t (register m s o)
      registered-Agrees t = record {
        linked = λ x h stays. rw (registered_session t x) (elim (now_or_before t x h) [
          | inl (here, this) ↦
              let a : (t == s) ≡ true = (==_iff t s).1 (sym this) in
              let b : (o == x) ≡ true = (==_iff o x).1 (sym here) in ground arith
          | inr before ↦ let l = (v.agrees t).linked x before refl in ground arith
        ]);
        backed = λ x h.
            rw (registered_reverse t x) (elim (Bool-cases (member x (m.session_map t))) [
              | inl before ↦ let b = (v.agrees t).backed x before in ground arith
              | inr new ↦
                  let e = registered_session t x in
                  let here : (o == x) ≡ true = ground arith in
                  let this : (t == s) ≡ true = ground arith in
                  let a : (s == t) ≡ true = (==_iff s t).1 (sym ((==_iff t s).0 this)) in
                  let b : (x == o) ≡ true = (==_iff x o).1 (sym ((==_iff o x).0 here)) in
                  ground arith
            ]);
        tree = registered-Tree;
      }

      pub registered-IsValid :
          is_some (lookup m.session_in_use s) ≡ true
          → member o m.objects_map ≡ true
          → IsValid parent (register m s o)
      registered-IsValid used there = record {
        agrees = registered-Agrees;
        in_use = λ t x h. elim (now_or_before t x h) [
          | inl (here, this) ↦
              subst (λ (k : ℕ). is_some (lookup m.session_in_use k) ≡ true) this used
          | inr before ↦ v.in_use t x before
        ];
        held = λ t x h. elim (now_or_before t x h) [
          | inl (here, this) ↦ subst (λ (k : ℕ). member k m.objects_map ≡ true) (sym here) there
          | inr before ↦ v.held t x before
        ];
      }
