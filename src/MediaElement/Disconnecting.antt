-- ===== src/MediaElement/Disconnecting.antt =====
-- MediaElementImpl.cpp, `disconnect`: a connection leaves both of its elements.
use kms_core.Prelude.{
  ℕ, ◌≡◌, ◌∙◌, refl, sym, ap, inl, inr, true, false, not, ◌&&◌, some, List, ◌==◌, arith, Bool-cases,
  Option-cases, ==_iff, ==_refl, subst,
}
use kms_core.Prelude.Sets.{at}
use kms_core.MediaElement.{
  type_value, Connection, Graph, at_sink, same_connection, source_at, erase_source, erase_sink,
  disconnect,
}
use kms_core.MediaElement.Links.{
  has, distinct, same_refl, same_path, has-erase_source, has-erase_sink_other, has-erase_sink_self,
  distinct-erase_sink, distinct-erase_source, source_at_found, source_at_missing,
}

-- What holds between two calls: each connection stands in both of its elements, and a sink has one
-- connection for each of its keys.
pub record IsValid (g : Graph) : Type 0 where
  pub outgoing :
      (c : Connection) (s : ℕ)
      → has c (g.sinks s) ≡ true
      → (c.source ≡ s) × (has c (g.sources c.sink) ≡ true)
  pub incoming :
      (c : Connection) (k : ℕ)
      → has c (g.sources k) ≡ true
      → (c.sink ≡ k) × (has c (g.sinks c.source) ≡ true)
  pub keyed :
      (c d : Connection) (k : ℕ)
      → has c (g.sources k) ≡ true
      → has d (g.sources k) ≡ true
      → at_sink d.type d.sink_description c ≡ true
      → c ≡ d
  pub distinct_sinks : (s : ℕ) → distinct (g.sinks s) ≡ true
  pub distinct_sources : (k : ℕ) → distinct (g.sources k) ≡ true

-- All but one connection stay.
pub record Removes (c : Connection) (before after : Graph) : Type 0 where
  pub sinks :
      (x : Connection) (s : ℕ)
      → has x (after.sinks s) ≡ (has x (before.sinks s) && not (same_connection c x))
  pub sources :
      (x : Connection) (k : ℕ)
      → has x (after.sources k) ≡ (has x (before.sources k) && not (same_connection c x))
  pub distinct_sinks : (s : ℕ) → distinct (after.sinks s) ≡ true
  pub distinct_sources : (k : ℕ) → distinct (after.sources k) ≡ true

pub Removes-IsValid :
    (c : Connection) (g next : Graph) → Removes c g next → IsValid g → IsValid next
Removes-IsValid c g next r v = record {
  outgoing = λ x s h.
      let e = r.sinks x s in
      let (here, there) = v.outgoing x s (ground arith) in
      (here, rw (r.sources x x.sink) (rw there (ground arith)));
  incoming = λ x k h.
      let e = r.sources x k in
      let (here, there) = v.incoming x k (ground arith) in
      (here, rw (r.sinks x x.source) (rw there (ground arith)));
  keyed = λ x y k h h' key.
      let e = r.sources x k in
      let e' = r.sources y k in v.keyed x y k (ground arith) (ground arith) key;
  distinct_sinks = r.distinct_sinks;
  distinct_sources = r.distinct_sources;
}

pub at_sink_self : (c : Connection) → at_sink c.type c.sink_description c ≡ true
at_sink_self c = rw (==_refl (type_value c.type), ==_refl c.sink_description) refl

module _ (g : Graph) (v : IsValid g) (c : Connection) where
  sinks_elsewhere :
      (x : Connection) (s : ℕ)
      → (s == c.source) ≡ false
      → has x (g.sinks s) ≡ (has x (g.sinks s) && not (same_connection c x))
  sinks_elsewhere x s other = elim (Bool-cases (has x (g.sinks s))) [
    | inr out ↦ rw out refl
    | inl there ↦ elim (Bool-cases (same_connection c x)) [
      | inr differ ↦ rw differ (ground arith)
      | inl alike ↦
          let e = (v.outgoing x s there).0 in
          let back =
            (==_iff s c.source).1
              (sym e ∙ ap (λ (k : Connection). k.source) (sym (same_path c x alike))) in
          absurd (ground arith)
    ]
  ]

  sources_elsewhere :
      (x : Connection) (k : ℕ)
      → (k == c.sink) ≡ false
      → has x (g.sources k) ≡ (has x (g.sources k) && not (same_connection c x))
  sources_elsewhere x k other = elim (Bool-cases (has x (g.sources k))) [
    | inr out ↦ rw out refl
    | inl there ↦ elim (Bool-cases (same_connection c x)) [
      | inr differ ↦ rw differ (ground arith)
      | inl alike ↦
          let e = (v.incoming x k there).0 in
          let back =
            (==_iff k c.sink).1
              (sym e ∙ ap (λ (d : Connection). d.sink) (sym (same_path c x alike))) in
          absurd (ground arith)
    ]
  ]

  erased_sink :
      (x : Connection) (cs : List Connection)
      → distinct cs ≡ true
      → has x (erase_sink c cs) ≡ (has x cs && not (same_connection c x))
  erased_sink x cs d = elim (Bool-cases (same_connection c x)) [
    | inr differ ↦ rw (has-erase_sink_other c x cs differ) (rw differ (ground arith))
    | inl alike ↦
        let out =
          subst (λ (k : Connection). has k (erase_sink c cs) ≡ false) (same_path c x alike)
            (has-erase_sink_self c cs d) in
        rw (out, alike) (ground arith)
  ]

  erased_sinks :
      (x : Connection) (s : ℕ)
      → has x (at g.sinks c.source (erase_sink c (g.sinks c.source)) s)
        ≡ (has x (g.sinks s) && not (same_connection c x))
  erased_sinks x s = elim (Bool-cases (s == c.source)) [
    | inr other ↦ rw other (sinks_elsewhere x s other)
    | inl here ↦
        let e = (==_iff s c.source).0 here in
        rw here (
          erased_sink x (g.sinks c.source) (v.distinct_sinks c.source)
          ∙ ap (λ (k : ℕ). has x (g.sinks k) && not (same_connection c x)) (sym e))
  ]

  erased_sinks_distinct :
      (s : ℕ) → distinct (at g.sinks c.source (erase_sink c (g.sinks c.source)) s) ≡ true
  erased_sinks_distinct s = elim (Bool-cases (s == c.source)) [
    | inr other ↦ rw other (v.distinct_sinks s)
    | inl here ↦ rw here (distinct-erase_sink c (g.sinks c.source) (v.distinct_sinks c.source))
  ]

  -- In the sink that has the connection, its keys are its own.
  erased_source :
      (x : Connection)
      → has c (g.sources c.sink) ≡ true
      → has x (erase_source c.type c.sink_description (g.sources c.sink))
        ≡ (has x (g.sources c.sink) && not (same_connection c x))
  erased_source x there =
      rw (has-erase_source x c.type c.sink_description (g.sources c.sink))
        (elim (Bool-cases (has x (g.sources c.sink))) [
          | inr out ↦ rw out refl
          | inl in_there ↦ elim (Bool-cases (same_connection c x)) [
            | inl alike ↦
                let hit =
                  subst (λ (k : Connection). at_sink c.type c.sink_description k ≡ true)
                    (same_path c x alike) (at_sink_self c) in
                rw (hit, alike) refl
            | inr differ ↦ elim (Bool-cases (at_sink c.type c.sink_description x)) [
              | inr miss ↦ rw (miss, differ) refl
              | inl hit ↦
                  let e = v.keyed x c c.sink in_there there hit in
                  let alike =
                    subst (λ (k : Connection). same_connection k x ≡ true) e (same_refl x) in
                  absurd (ground arith)
            ]
          ]
        ])

  erased_sources :
      (x : Connection) (k : ℕ)
      → has c (g.sources c.sink) ≡ true
      → has x (at g.sources c.sink (erase_source c.type c.sink_description (g.sources c.sink)) k)
        ≡ (has x (g.sources k) && not (same_connection c x))
  erased_sources x k there = elim (Bool-cases (k == c.sink)) [
    | inr other ↦ rw other (sources_elsewhere x k other)
    | inl here ↦
        let e = (==_iff k c.sink).0 here in
        rw here (
          erased_source x there
          ∙ ap (λ (j : ℕ). has x (g.sources j) && not (same_connection c x)) (sym e))
  ]

  erased_sources_distinct :
      (k : ℕ)
      → distinct (at g.sources c.sink (erase_source c.type c.sink_description (g.sources c.sink)) k)
        ≡ true
  erased_sources_distinct k = elim (Bool-cases (k == c.sink)) [
    | inr other ↦ rw other (v.distinct_sources k)
    | inl here ↦ rw here (
        distinct-erase_source c.type c.sink_description (g.sources c.sink)
          (v.distinct_sources c.sink))
  ]

  abbrev removed : Graph
  removed = record {
    sinks = at g.sinks c.source (erase_sink c (g.sinks c.source));
    sources = at g.sources c.sink (erase_source c.type c.sink_description (g.sources c.sink));
  }

  disconnect_own :
      source_at (g.sources c.sink) c.type c.sink_description ≡ some c → disconnect g c ≡ removed
  unfolding disconnect
  disconnect_own found = rw (found, disconnect) (rw (==_refl c.source_description) refl)

  -- A connection that is at its sink is removed.
  pub disconnect-Removes :
      source_at (g.sources c.sink) c.type c.sink_description ≡ some c → Removes c g (disconnect g c)
  disconnect-Removes found =
      subst (λ (next : Graph). Removes c g next) (sym (disconnect_own found))
        (record {
          sinks = erased_sinks;
          sources = λ x k.
              erased_sources x k
                (source_at_found c.type c.sink_description (g.sources c.sink) c found).0;
          distinct_sinks = erased_sinks_distinct;
          distinct_sources = erased_sources_distinct;
        })

  pub present_found :
      has c (g.sources c.sink) ≡ true
      → source_at (g.sources c.sink) c.type c.sink_description ≡ some c
  present_found there =
      elim (Option-cases (source_at (g.sources c.sink) c.type c.sink_description)) [
        | inl missing ↦
            let out =
              source_at_missing c.type c.sink_description (g.sources c.sink) c missing
                (at_sink_self c) in
            absurd (ground arith)
        | inr (x, found) ↦
            let (in_there, hit) =
              source_at_found c.type c.sink_description (g.sources c.sink) x found in
            found ∙ ap some (v.keyed x c c.sink in_there there hit)
      ]
