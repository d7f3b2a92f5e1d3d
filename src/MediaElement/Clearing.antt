-- ===== src/MediaElement/Clearing.antt =====
-- MediaElementImpl.cpp, `disconnectAll`: an element loses all of its connections.
use kms_core.Prelude.{
  ℕ, zero, suc, ◌≤◌, ◌≡◌, ◌∙◌, refl, sym, inl, inr, true, false, not, ◌&&◌, some, List, [], ◌∷◌,
  ◌==◌, arith, Bool-cases, ==_iff, subst,
}
use kms_core.MediaElement.{
  Connection, Graph, same_connection, disconnect, disconnect_each, disconnect_sinks,
  disconnect_sources, disconnect_all,
}
use kms_core.MediaElement.Links.{has, distinct, same_refl, same_path}
use kms_core.MediaElement.Disconnecting.{
  IsValid, Removes-IsValid, disconnect-Removes, present_found,
}

-- All connections of a list leave.
pub record Drops (cs : List Connection) (before after : Graph) : Type 0 where
  pub sinks :
      (x : Connection) (s : ℕ) → has x (after.sinks s) ≡ (has x (before.sinks s) && not (has x cs))
  pub sources :
      (x : Connection) (k : ℕ)
      → has x (after.sources k) ≡ (has x (before.sources k) && not (has x cs))
  pub valid : IsValid after

disconnect_each-Drops :
    (cs : List Connection) (g : Graph)
    → distinct cs ≡ true
    → ((c : Connection) → has c cs ≡ true → has c (g.sources c.sink) ≡ true)
    → IsValid g
    → Drops cs g (disconnect_each cs g)
unfolding disconnect_each
disconnect_each-Drops [] g d there v = record {
  sinks = λ x s. ground arith;
  sources = λ x k. ground arith;
  valid = v;
}
disconnect_each-Drops (c ∷ cs) g d there v =
    let here = there c (rw (same_refl c) refl) in
    let r = disconnect-Removes g v c (present_found g v c here) in
    let v' = Removes-IsValid c g (disconnect g c) r v in
    let rest =
      disconnect_each-Drops cs (disconnect g c) (ground arith)
        (λ x h. rw (r.sources x x.sink) (rw (there x (ground arith), later c x cs d h) refl)) v' in
    record {
      sinks = λ x s. rest.sinks x s ∙ (let e = r.sinks x s in ground arith);
      sources = λ x k. rest.sources x k ∙ (let e = r.sources x k in ground arith);
      valid = rest.valid;
    }
  where
    later :
        (c x : Connection) (cs : List Connection)
        → distinct (c ∷ cs) ≡ true
        → has x cs ≡ true
        → same_connection c x ≡ false
    later c x cs d h = elim (Bool-cases (same_connection c x)) [
      | inr differ ↦ differ
      | inl alike ↦
          let back = subst (λ (k : Connection). has k cs ≡ true) (sym (same_path c x alike)) h in
          absurd (ground arith)
    ]

none_has : (cs : List Connection) → ((x : Connection) → has x cs ≡ false) → cs ≡ []
none_has [] h = refl
none_has (c ∷ cs) h = absurd (let r = same_refl c in let e = h c in ground arith)

disconnect_sinks_empty :
    (fuel : ℕ) (g : Graph) (e : ℕ) → g.sinks e ≡ [] → disconnect_sinks (suc fuel) g e ≡ some g
unfolding disconnect_sinks
disconnect_sinks_empty fuel g e h = rw (h, disconnect_sinks) refl

disconnect_sources_empty :
    (fuel : ℕ) (g : Graph) (e : ℕ) → g.sources e ≡ [] → disconnect_sources (suc fuel) g e ≡ some g
unfolding disconnect_sources
disconnect_sources_empty fuel g e h = rw (h, disconnect_sources) refl

disconnect_sinks_more :
    (fuel : ℕ) (g next : Graph) (e : ℕ) (c : Connection) (cs : List Connection)
    → g.sinks e ≡ c ∷ cs
    → disconnect_sinks fuel (disconnect_each (g.sinks e) g) e ≡ some next
    → disconnect_sinks (suc fuel) g e ≡ some next
unfolding disconnect_sinks
disconnect_sinks_more fuel g next e c cs h ran = rw (h, disconnect_sinks) ran

disconnect_sources_more :
    (fuel : ℕ) (g next : Graph) (e : ℕ) (c : Connection) (cs : List Connection)
    → g.sources e ≡ c ∷ cs
    → disconnect_sources fuel (disconnect_each (g.sources e) g) e ≡ some next
    → disconnect_sources (suc fuel) g e ≡ some next
unfolding disconnect_sources
disconnect_sources_more fuel g next e c cs h ran = rw (h, disconnect_sources) ran

-- One round is enough, and the loop needs another to see it.
disconnect_sinks-Drops :
    (fuel : ℕ) (g : Graph) (e : ℕ) (cs : List Connection)
    → g.sinks e ≡ cs
    → IsValid g
    → (after : Graph) × (disconnect_sinks (suc (suc fuel)) g e ≡ some after)
      × (after.sinks e ≡ [])
      × Drops (g.sinks e) g after
disconnect_sinks-Drops fuel g e [] h v = (
  g,
  disconnect_sinks_empty (suc fuel) g e h,
  h,
  record { sinks = λ x s. rw h (ground arith); sources = λ x k. rw h (ground arith); valid = v },
)
disconnect_sinks-Drops fuel g e (c ∷ cs) h v =
    let d =
      disconnect_each-Drops (g.sinks e) g (v.distinct_sinks e) (λ x there. (v.outgoing x e there).1)
        v in
    let next = disconnect_each (g.sinks e) g in
    let empty = none_has (next.sinks e) (λ x. d.sinks x e ∙ ground arith) in
    (
      next,
      disconnect_sinks_more (suc fuel) g next e c cs h (disconnect_sinks_empty fuel next e empty),
      empty,
      d,
    )

disconnect_sources-Drops :
    (fuel : ℕ) (g : Graph) (e : ℕ) (cs : List Connection)
    → g.sources e ≡ cs
    → IsValid g
    → (after : Graph) × (disconnect_sources (suc (suc fuel)) g e ≡ some after)
      × (after.sources e ≡ [])
      × Drops (g.sources e) g after
disconnect_sources-Drops fuel g e [] h v = (
  g,
  disconnect_sources_empty (suc fuel) g e h,
  h,
  record { sinks = λ x s. rw h (ground arith); sources = λ x k. rw h (ground arith); valid = v },
)
disconnect_sources-Drops fuel g e (c ∷ cs) h v =
    let d =
      disconnect_each-Drops (g.sources e) g (v.distinct_sources e)
        (λ x there.
          let same_sink = (v.incoming x e there).0 in
          subst (λ (k : ℕ). has x (g.sources k) ≡ true) (sym same_sink) there)
        v in
    let next = disconnect_each (g.sources e) g in
    let empty = none_has (next.sources e) (λ x. d.sources x e ∙ ground arith) in
    (
      next,
      disconnect_sources_more (suc fuel) g next e c cs h
          (disconnect_sources_empty fuel next e empty),
      empty,
      d,
    )

-- What `disconnectAll` does.
pub record Clears (e : ℕ) (before after : Graph) : Type 0 where
  pub no_sinks : after.sinks e ≡ []
  pub no_sources : after.sources e ≡ []
  pub others :
      (x : Connection)
      → (x.source == e) ≡ false
      → (x.sink == e) ≡ false
      → ((s : ℕ) → has x (after.sinks s) ≡ has x (before.sinks s))
        × ((k : ℕ) → has x (after.sources k) ≡ has x (before.sources k))
  pub valid : IsValid after

still_none :
    (cs : List Connection) (g next : Graph) (e : ℕ)
    → Drops cs g next
    → g.sinks e ≡ []
    → next.sinks e ≡ []
still_none cs g next e d h = none_has (next.sinks e) (λ x. d.sinks x e ∙ rw h refl)

foreign_sink :
    (g : Graph) (e : ℕ) (x : Connection)
    → IsValid g
    → (x.source == e) ≡ false
    → has x (g.sinks e) ≡ false
foreign_sink g e x v other = elim (Bool-cases (has x (g.sinks e))) [
  | inr out ↦ out
  | inl there ↦ let back = (==_iff x.source e).1 (v.outgoing x e there).0 in absurd (ground arith)
]

foreign_source :
    (g : Graph) (e : ℕ) (x : Connection)
    → IsValid g
    → (x.sink == e) ≡ false
    → has x (g.sources e) ≡ false
foreign_source g e x v other = elim (Bool-cases (has x (g.sources e))) [
  | inr out ↦ out
  | inl there ↦ let back = (==_iff x.sink e).1 (v.incoming x e there).0 in absurd (ground arith)
]

-- In a valid graph, and when all locks are granted, `disconnectAll` ends within two rounds of each of its
-- loops: the element is connected to nothing, the connections between other elements stay, and the graph
-- is valid.
pub disconnect_all-Clears :
    (fuel : ℕ) (g : Graph) (e : ℕ)
    → 2 ≤ fuel
    → IsValid g
    → (after : Graph) × (disconnect_all fuel g e ≡ some after) × Clears e g after
unfolding disconnect_all
disconnect_all-Clears zero g e enough v = absurd (omega arith)
disconnect_all-Clears (suc zero) g e enough v = absurd (omega arith)
disconnect_all-Clears (suc (suc fuel)) g e enough v =
    let (next, ran, out, d) = disconnect_sinks-Drops fuel g e (g.sinks e) refl v in
    let (after, ran', out', d') =
      disconnect_sources-Drops fuel next e (next.sources e) refl d.valid in
    (
      after,
      rw (ran, disconnect_all) ran',
      record {
        no_sinks = still_none (next.sources e) next after e d' out;
        no_sources = out';
        others = λ x s_ne k_ne.
            let a = foreign_sink g e x v s_ne in
            let b = foreign_source next e x d.valid k_ne in
            (
              λ s. d'.sinks x s ∙ (let i = d.sinks x s in rw b (ground arith)),
              λ k. d'.sources x k ∙ (let i = d.sources x k in rw b (ground arith)),
            );
        valid = d'.valid;
      },
    )
