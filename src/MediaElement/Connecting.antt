-- ===== src/MediaElement/Connecting.antt =====
-- MediaElementImpl.cpp, `connect`: a new connection takes the place of the one at its sink.
use kms_core.Prelude.{
  ℕ, ◌≡◌, ◌∙◌, refl, sym, ap, inl, inr, Bool, true, false, ◌&&◌, ◌||◌, some, ◌==◌, arith,
  Bool-cases, Option-cases, ==_iff, ==_refl, subst,
}
use kms_core.MediaElement.{
  MediaType, type_value, Connection, Graph, at_sink, same_connection, source_at, disconnect,
  replace_source, link, connect,
}
use kms_core.MediaElement.Links.{
  has, same_refl, same_path, value_same, source_at_found, source_at_missing,
}
use kms_core.MediaElement.Disconnecting.{
  IsValid, Removes, Removes-IsValid, disconnect-Removes, present_found,
}
use kms_core.MediaElement.Linking.{
  Free, linked_sinks, linked_sources, here_source, here_sink, link-IsValid,
}

-- A connection that stands at the keys of another one.
abbrev rivals : Connection → Connection → Bool
rivals c x = x.sink == c.sink && at_sink c.type c.sink_description x

record Room (c : Connection) (before after : Graph) : Type 0 where
  free : Free after c
  others :
      (x : Connection)
      → rivals c x ≡ false
      → ((s : ℕ) → has x (after.sinks s) ≡ has x (before.sinks s))
        × ((k : ℕ) → has x (after.sources k) ≡ has x (before.sources k))
  valid : IsValid after

module _ (g : Graph) (v : IsValid g) (c old : Connection)
    (found : source_at (g.sources c.sink) c.type c.sink_description ≡ some old)
    (described : old.source_description ≡ c.source_description) where
  abbrev asked : Connection
  asked = record {
    source = old.source;
    sink = old.sink;
    type = c.type;
    source_description = c.source_description;
    sink_description = old.sink_description;
  }

  hit : at_sink c.type c.sink_description old ≡ true
  hit = (source_at_found c.type c.sink_description (g.sources c.sink) old found).1

  old_there : has old (g.sources c.sink) ≡ true
  old_there = (source_at_found c.type c.sink_description (g.sources c.sink) old found).0

  old_sink : old.sink ≡ c.sink
  old_sink = (v.incoming old c.sink old_there).0

  old_type : old.type ≡ c.type
  old_type =
      value_same old.type c.type
        ((==_iff (type_value old.type) (type_value c.type)).0 (let h = hit in ground arith))

  old_key : old.sink_description ≡ c.sink_description
  old_key = (==_iff old.sink_description c.sink_description).0 (let h = hit in ground arith)

  asked_old : asked ≡ old
  asked_old = λ i. record {
    source = old.source;
    sink = old.sink;
    type = sym old_type i;
    source_description = sym described i;
    sink_description = old.sink_description;
  }

  old_rivals : rivals c old ≡ true
  old_rivals = let e = (==_iff old.sink c.sink).1 old_sink in rw e hit

  old-Removes : Removes old g (disconnect g old)
  old-Removes = disconnect-Removes g v old (
      present_found g v old
        (subst (λ (k : ℕ). has old (g.sources k) ≡ true) (sym old_sink) old_there))

  old-Room : Room c g (disconnect g old)
  old-Room = record {
    free = λ x key. old-Removes.sources x c.sink ∙ elim (Bool-cases (has x (g.sources c.sink))) [
      | inr out ↦ rw out refl
      | inl there ↦
          let key' =
            subst (λ (t : MediaType). at_sink t c.sink_description x ≡ true) (sym old_type) key in
          let key'' = subst (λ (d : ℕ). at_sink old.type d x ≡ true) (sym old_key) key' in
          let e = v.keyed x old c.sink there old_there key'' in
          let alike = subst (λ (z : Connection). same_connection z x ≡ true) e (same_refl x) in
          rw alike (ground arith)
    ];
    others = λ x differs.
        let ne = differ x differs in
        (
          λ s. old-Removes.sinks x s ∙ rw ne (ground arith),
          λ k. old-Removes.sources x k ∙ rw ne (ground arith),
        );
    valid = Removes-IsValid old g (disconnect g old) old-Removes v;
  }
    where
      differ : (x : Connection) → rivals c x ≡ false → same_connection old x ≡ false
      differ x differs = elim (Bool-cases (same_connection old x)) [
        | inr no_more ↦ no_more
        | inl alike ↦
            let back =
              subst (λ (z : Connection). rivals c z ≡ true) (same_path old x alike) old_rivals in
            absurd (ground arith)
      ]

replace_source-Room :
    (g : Graph) (c : Connection)
    → IsValid g
    → ((old : Connection)
        → source_at (g.sources c.sink) c.type c.sink_description ≡ some old
        → old.source_description ≡ c.source_description)
    → Room c g (replace_source g c)
unfolding replace_source
replace_source-Room g c v described =
    elim (Option-cases (source_at (g.sources c.sink) c.type c.sink_description)) [
      | inl missing ↦
          let e : replace_source g c ≡ g = rw (missing, replace_source) refl in
          subst (λ (next : Graph). Room c g next) (sym e)
            (record {
              free = λ x key.
                  source_at_missing c.type c.sink_description (g.sources c.sink) x missing key;
              others = λ x differs. (λ s. refl, λ k. refl);
              valid = v;
            })
      | inr (old, found) ↦
          let d = described old found in
          let e : replace_source g c ≡ disconnect g (asked g v c old found d) =
            rw (found, replace_source) refl in
          subst (λ (next : Graph). Room c g next)
            (sym (e ∙ ap (disconnect g) (asked_old g v c old found d))) (old-Room g v c old found d)
    ]

-- What `connect` does.
pub record Connects (c : Connection) (before after : Graph) : Type 0 where
  pub receives : has c (after.sources c.sink) ≡ true
  pub sends : has c (after.sinks c.source) ≡ true
  pub alone :
      (x : Connection) (s : ℕ)
      → rivals c x ≡ true
      → same_connection c x ≡ false
      → has x (after.sinks s) ≡ false
  pub others :
      (x : Connection)
      → rivals c x ≡ false
      → ((s : ℕ) → has x (after.sinks s) ≡ has x (before.sinks s))
        × ((k : ℕ) → has x (after.sources k) ≡ has x (before.sources k))
  pub valid : IsValid after

by_other : (b there : Bool) → (b && false || there) ≡ there
by_other true there = refl
by_other false there = refl

rivals_self : (c : Connection) → rivals c c ≡ true
rivals_self c = rw (==_refl (type_value c.type), ==_refl c.sink_description, ==_refl c.sink) refl

link-Connects : (c : Connection) (g next : Graph) → Room c g next → Connects c g (link next c)
link-Connects c g next r = record {
  receives = here_source next r.valid c r.free;
  sends = here_sink next r.valid c r.free;
  alone = λ x s rival differs.
      linked_sinks next r.valid c r.free x s ∙ rw differs (by_other _ _ ∙ out x s rival);
  others = λ x differs.
      let ne = differ x differs in
      (
        λ s.
            linked_sinks next r.valid c r.free x s
            ∙ rw ne (by_other _ _ ∙ (r.others x differs).0 s),
        λ k.
            linked_sources next r.valid c r.free x k
            ∙ rw ne (by_other _ _ ∙ (r.others x differs).1 k),
      );
  valid = link-IsValid next r.valid c r.free;
}
  where
    differ : (x : Connection) → rivals c x ≡ false → same_connection c x ≡ false
    differ x differs = elim (Bool-cases (same_connection c x)) [
      | inr no_more ↦ no_more
      | inl alike ↦
          let back =
            subst (λ (z : Connection). rivals c z ≡ true) (same_path c x alike) (rivals_self c) in
          absurd (ground arith)
    ]

    out : (x : Connection) (s : ℕ) → rivals c x ≡ true → has x (next.sinks s) ≡ false
    out x s rival = elim (Bool-cases (has x (next.sinks s))) [
      | inr no_more ↦ no_more
      | inl there ↦
          let in_sink = (r.valid.outgoing x s there).1 in
          let e = (==_iff x.sink c.sink).0 (let h = rival in ground arith) in
          let in_sink' = subst (λ (k : ℕ). has x (next.sources k) ≡ true) e in_sink in
          let free = r.free x (let h = rival in ground arith) in absurd (ground arith)
    ]

-- In a valid graph, when the elements share a pipeline, the source has a pad, and the connection that the
-- sink has at the same keys, if any, has the source description of the new one, `connect` succeeds: both
-- elements have the new connection, no element sends to the sink at these keys any more but by it, the
-- other connections stay, and the graph is valid.
pub connect-Connects :
    (share : ℕ → ℕ → Bool) (request_pad : Connection → Bool) (g : Graph) (c : Connection)
    → share c.source c.sink ≡ true
    → request_pad c ≡ true
    → ((old : Connection)
        → source_at (g.sources c.sink) c.type c.sink_description ≡ some old
        → old.source_description ≡ c.source_description)
    → IsValid g
    → (after : Graph) × (connect share request_pad g c ≡ (after, true)) × Connects c g after
unfolding connect
connect-Connects share request_pad g c together pad described v = (
  link (replace_source g c) c,
  rw (together, pad) refl,
  link-Connects c g (replace_source g c) (replace_source-Room g c v described),
)
