-- ===== src/MediaElement/Linking.antt =====
-- MediaElementImpl.cpp, the end of `connect`: a new connection enters both of its elements.
use kms_core.Prelude.{
  ℕ, ◌≡◌, ◌⊎◌, ◌∙◌, refl, sym, ap, inl, inr, Bool, true, false, ◌&&◌, ◌||◌, ◌==◌, arith, Bool-cases,
  ==_iff, ==_refl, subst,
}
use kms_core.MediaElement.{Connection, Graph, at_sink, same_connection, erase_source, link}
use kms_core.MediaElement.Links.{
  has, distinct, same_refl, same_path, has-erase_source, distinct-erase_source,
}
use kms_core.MediaElement.Disconnecting.{IsValid, at_sink_self}

-- Nothing has the keys of the connection at its sink.
abbrev pub Free : Graph → Connection → Type 0
Free g c =
    (x : Connection) → at_sink c.type c.sink_description x ≡ true → has x (g.sources c.sink) ≡ false

module _ (g : Graph) (v : IsValid g) (c : Connection) (free : Free g c) where
  pub linked_sinks :
      (x : Connection) (s : ℕ)
      → has x ((link g c).sinks s) ≡ (s == c.source && same_connection c x || has x (g.sinks s))
  unfolding link
  linked_sinks x s = elim (Bool-cases (s == c.source)) [
    | inr other ↦ rw other refl
    | inl here ↦
        let e = (==_iff s c.source).0 here in
        rw here (ap (λ (k : ℕ). same_connection c x || has x (g.sinks k)) (sym e))
  ]

  erased_free :
      (x : Connection)
      → has x (erase_source c.type c.sink_description (g.sources c.sink)) ≡ has x (g.sources c.sink)
  erased_free x =
      rw (has-erase_source x c.type c.sink_description (g.sources c.sink))
        (elim (Bool-cases (at_sink c.type c.sink_description x)) [
          | inr miss ↦ rw miss (ground arith)
          | inl hit ↦ rw (free x hit) refl
        ])

  pub linked_sources :
      (x : Connection) (k : ℕ)
      → has x ((link g c).sources k) ≡ (k == c.sink && same_connection c x || has x (g.sources k))
  unfolding link
  linked_sources x k = elim (Bool-cases (k == c.sink)) [
    | inr other ↦ rw other refl
    | inl here ↦
        let e = (==_iff k c.sink).0 here in
        rw here (
          ap (λ (b : Bool). same_connection c x || b) (erased_free x)
          ∙ ap (λ (j : ℕ). same_connection c x || has x (g.sources j)) (sym e))
  ]

  new_out : has c (g.sources c.sink) ≡ false
  new_out = free c (at_sink_self c)

  new_out_sinks : (s : ℕ) → has c (g.sinks s) ≡ false
  new_out_sinks s = elim (Bool-cases (has c (g.sinks s))) [
    | inr out ↦ out
    | inl there ↦ let back = (v.outgoing c s there).1 in let n = new_out in absurd (ground arith)
  ]

  linked_distinct_sinks : (s : ℕ) → distinct ((link g c).sinks s) ≡ true
  unfolding link
  linked_distinct_sinks s = elim (Bool-cases (s == c.source)) [
    | inr other ↦ rw other (v.distinct_sinks s)
    | inl here ↦ rw here (rw (new_out_sinks c.source, v.distinct_sinks c.source) refl)
  ]

  linked_distinct_sources : (k : ℕ) → distinct ((link g c).sources k) ≡ true
  unfolding link
  linked_distinct_sources k = elim (Bool-cases (k == c.sink)) [
    | inr other ↦ rw other (v.distinct_sources k)
    | inl here ↦ rw here (
        rw (erased_free c, new_out)
          (distinct-erase_source c.type c.sink_description (g.sources c.sink)
            (v.distinct_sources c.sink)))
  ]

  new_or_before_source :
      (x : Connection) (k : ℕ)
      → has x ((link g c).sources k) ≡ true
      → ((x ≡ c) × (k ≡ c.sink)) ⊎ (has x (g.sources k) ≡ true)
  new_or_before_source x k h = elim (Bool-cases (has x (g.sources k))) [
    | inl before ↦ inr before
    | inr new ↦
        let e = linked_sources x k in
        let alike : same_connection c x ≡ true = ground arith in
        let here : (k == c.sink) ≡ true = ground arith in
        inl (sym (same_path c x alike), (==_iff k c.sink).0 here)
  ]

  new_or_before_sink :
      (x : Connection) (s : ℕ)
      → has x ((link g c).sinks s) ≡ true
      → ((x ≡ c) × (s ≡ c.source)) ⊎ (has x (g.sinks s) ≡ true)
  new_or_before_sink x s h = elim (Bool-cases (has x (g.sinks s))) [
    | inl before ↦ inr before
    | inr new ↦
        let e = linked_sinks x s in
        let alike : same_connection c x ≡ true = ground arith in
        let here : (s == c.source) ≡ true = ground arith in
        inl (sym (same_path c x alike), (==_iff s c.source).0 here)
  ]

  pub here_source : has c ((link g c).sources c.sink) ≡ true
  here_source = rw (linked_sources c c.sink) (rw (same_refl c, ==_refl c.sink) refl)

  pub here_sink : has c ((link g c).sinks c.source) ≡ true
  here_sink = rw (linked_sinks c c.source) (rw (same_refl c, ==_refl c.source) refl)

  linked_keyed :
      (x y : Connection) (k : ℕ)
      → has x ((link g c).sources k) ≡ true
      → has y ((link g c).sources k) ≡ true
      → at_sink y.type y.sink_description x ≡ true
      → x ≡ y
  linked_keyed x y k h h' key = elim (new_or_before_source x k h) [
    | inl (x_new, here) ↦ elim (new_or_before_source y k h') [
      | inl (y_new, here') ↦ x_new ∙ sym y_new
      | inr y_before ↦ absurd (
          let y_there = subst (λ (j : ℕ). has y (g.sources j) ≡ true) here y_before in
          let key' =
            subst (λ (z : Connection). at_sink y.type y.sink_description z ≡ true) x_new key in
          let hit : at_sink c.type c.sink_description y ≡ true = ground arith in
          let out = free y hit in ground arith)
    ]
    | inr x_before ↦ elim (new_or_before_source y k h') [
      | inl (y_new, here') ↦ absurd (
          let x_there = subst (λ (j : ℕ). has x (g.sources j) ≡ true) here' x_before in
          let hit =
            subst (λ (z : Connection). at_sink z.type z.sink_description x ≡ true) y_new key in
          let out = free x hit in ground arith)
      | inr y_before ↦ v.keyed x y k x_before y_before key
    ]
  ]

  pub link-IsValid : IsValid (link g c)
  link-IsValid = record {
    outgoing = λ x s h. elim (new_or_before_sink x s h) [
      | inl (new, here) ↦ (
        ap (λ (z : Connection). z.source) new ∙ sym here,
        subst (λ (z : Connection). has z ((link g c).sources z.sink) ≡ true) (sym new) here_source,
      )
      | inr before ↦
          let (a, b) = v.outgoing x s before in
          (a, rw (linked_sources x x.sink) (rw b (ground arith)))
    ];
    incoming = λ x k h. elim (new_or_before_source x k h) [
      | inl (new, here) ↦ (
        ap (λ (z : Connection). z.sink) new ∙ sym here,
        subst (λ (z : Connection). has z ((link g c).sinks z.source) ≡ true) (sym new) here_sink,
      )
      | inr before ↦
          let (a, b) = v.incoming x k before in
          (a, rw (linked_sinks x x.source) (rw b (ground arith)))
    ];
    keyed = linked_keyed;
    distinct_sinks = linked_distinct_sinks;
    distinct_sources = linked_distinct_sources;
  }
