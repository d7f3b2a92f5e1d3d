-- ===== src/MediaElement/Links.antt =====
-- MediaElementImpl.cpp: lists of connections.
use kms_core.Prelude.{
  ℕ, ◌≡◌, ◌∙◌, refl, sym, ap, inl, inr, Bool, true, false, not, ◌&&◌, ◌||◌, none, some, List, [],
  ◌∷◌, ◌==◌, arith, Bool-cases, ==_iff, ==_refl, subst,
}
use kms_core.MediaElement.{
  MediaType, audio, video, data_channel, type_value, Connection, at_sink, same_connection,
  source_at, erase_source, erase_sink,
}

abbrev pub has : Connection → List Connection → Bool
has c [] = false
has c (d ∷ ds) = same_connection d c || has c ds

-- No connection stands there twice.
abbrev pub distinct : List Connection → Bool
distinct [] = true
distinct (c ∷ cs) = not (has c cs) && distinct cs

pub value_same : (a b : MediaType) → type_value a ≡ type_value b → a ≡ b
value_same audio audio h = refl
value_same audio video h = absurd (ground arith)
value_same audio data_channel h = absurd (ground arith)
value_same video audio h = absurd (ground arith)
value_same video video h = refl
value_same video data_channel h = absurd (ground arith)
value_same data_channel audio h = absurd (ground arith)
value_same data_channel video h = absurd (ground arith)
value_same data_channel data_channel h = refl

pub same_refl : (a : Connection) → same_connection a a ≡ true
same_refl a =
    rw
      (
        ==_refl a.source,
        ==_refl a.sink,
        ==_refl (type_value a.type),
        ==_refl a.source_description,
        ==_refl a.sink_description,
      )
      refl

pub same_path : (a b : Connection) → same_connection a b ≡ true → a ≡ b
same_path a b h =
    let e : (a.source == b.source) ≡ true = ground arith in
    let f : (a.sink == b.sink) ≡ true = ground arith in
    let k : (type_value a.type == type_value b.type) ≡ true = ground arith in
    let s : (a.source_description == b.source_description) ≡ true = ground arith in
    let d : (a.sink_description == b.sink_description) ≡ true = ground arith in
    λ i. record {
      source = (==_iff a.source b.source).0 e i;
      sink = (==_iff a.sink b.sink).0 f i;
      type = value_same a.type b.type ((==_iff (type_value a.type) (type_value b.type)).0 k) i;
      source_description = (==_iff a.source_description b.source_description).0 s i;
      sink_description = (==_iff a.sink_description b.sink_description).0 d i;
    }

pub has-erase_source :
    (c : Connection) (type : MediaType) (description : ℕ) (cs : List Connection)
    → has c (erase_source type description cs) ≡ (has c cs && not (at_sink type description c))
unfolding erase_source
has-erase_source c type description [] = refl
has-erase_source c type description (d ∷ ds) =
    let rest = has-erase_source c type description ds in
    elim (Bool-cases (same_connection d c)) [
      | inl this ↦
          let e = same_path d c this in
          elim (Bool-cases (at_sink type description d)) [
            | inl hit ↦
                let hit' = subst (λ (x : Connection). at_sink type description x ≡ true) e hit in
                rw hit (rest ∙ rw hit' (ground arith))
            | inr miss ↦
                let miss' = subst (λ (x : Connection). at_sink type description x ≡ false) e miss in
                rw miss (rw this (rw miss' refl))
          ]
      | inr other ↦ elim (Bool-cases (at_sink type description d)) [
        | inl hit ↦ rw hit (rest ∙ rw other refl)
        | inr miss ↦ rw miss (rw other rest)
      ]
    ]

pub has-erase_sink_other :
    (c x : Connection) (cs : List Connection)
    → same_connection c x ≡ false
    → has x (erase_sink c cs) ≡ has x cs
unfolding erase_sink
has-erase_sink_other c x [] ne = refl
has-erase_sink_other c x (d ∷ ds) ne = elim (Bool-cases (same_connection d c)) [
  | inl here ↦
      let e = same_path d c here in
      rw here (rw (subst (λ (k : Connection). same_connection k x ≡ false) (sym e) ne) refl)
  | inr on ↦ rw on (ap (λ (b : Bool). same_connection d x || b) (has-erase_sink_other c x ds ne))
]

pub has-erase_sink_self :
    (c : Connection) (cs : List Connection) → distinct cs ≡ true → has c (erase_sink c cs) ≡ false
unfolding erase_sink
has-erase_sink_self c [] d = refl
has-erase_sink_self c (e ∷ es) d = elim (Bool-cases (same_connection e c)) [
  | inl here ↦
      let p = same_path e c here in
      let no : has e es ≡ false = ground arith in
      rw here (subst (λ (k : Connection). has k es ≡ false) p no)
  | inr on ↦ let rest = has-erase_sink_self c es (ground arith) in rw on (rw on rest)
]

pub distinct-erase_sink :
    (c : Connection) (cs : List Connection) → distinct cs ≡ true → distinct (erase_sink c cs) ≡ true
unfolding erase_sink
distinct-erase_sink c [] d = refl
distinct-erase_sink c (e ∷ es) d = elim (Bool-cases (same_connection e c)) [
  | inl here ↦ rw here (ground arith)
  | inr on ↦
      let rest = distinct-erase_sink c es (ground arith) in
      let other : same_connection c e ≡ false = same_sym c e on in
      rw on (rw (has-erase_sink_other c e es other, rest) (ground arith))
]
  where
    same_sym : (a b : Connection) → same_connection b a ≡ false → same_connection a b ≡ false
    same_sym a b h = elim (Bool-cases (same_connection a b)) [
      | inr differ ↦ differ
      | inl alike ↦
          let back =
            subst (λ (k : Connection). same_connection k a ≡ true) (same_path a b alike)
              (same_refl a) in
          absurd (ground arith)
    ]

pub distinct-erase_source :
    (type : MediaType) (description : ℕ) (cs : List Connection)
    → distinct cs ≡ true
    → distinct (erase_source type description cs) ≡ true
unfolding erase_source
distinct-erase_source type description [] d = refl
distinct-erase_source type description (c ∷ cs) d =
    let rest = distinct-erase_source type description cs (ground arith) in
    elim (Bool-cases (at_sink type description c)) [
      | inl hit ↦ rw hit rest
      | inr miss ↦ rw miss (rw (has-erase_source c type description cs, rest) (ground arith))
    ]

-- What is found is there, and has the keys.
pub source_at_found :
    (type : MediaType) (description : ℕ) (cs : List Connection) (c : Connection)
    → source_at cs type description ≡ some c
    → (has c cs ≡ true) × (at_sink type description c ≡ true)
unfolding source_at
source_at_found type description [] c h = absurd (ground arith)
source_at_found type description (d ∷ ds) c h = elim (Bool-cases (at_sink type description d)) [
  | inl hit ↦
      let e : d ≡ c = ground arith in
      (
        rw (subst (λ (k : Connection). same_connection d k ≡ true) e (same_refl d)) refl,
        subst (λ (k : Connection). at_sink type description k ≡ true) e hit,
      )
  | inr miss ↦
      let rest = source_at_found type description ds c (ground arith) in
      (rw rest.0 (ground arith), rest.1)
]

pub source_at_missing :
    (type : MediaType) (description : ℕ) (cs : List Connection) (c : Connection)
    → source_at cs type description ≡ none
    → at_sink type description c ≡ true
    → has c cs ≡ false
unfolding source_at
source_at_missing type description [] c h k = refl
source_at_missing type description (d ∷ ds) c h k = elim (Bool-cases (at_sink type description d)) [
  | inl hit ↦ absurd (ground arith)
  | inr miss ↦ elim (Bool-cases (same_connection d c)) [
    | inl this ↦
        let hit =
          subst (λ (x : Connection). at_sink type description x ≡ false) (same_path d c this)
            miss in
        absurd (ground arith)
    | inr other ↦ rw other (source_at_missing type description ds c (ground arith) k)
  ]
]
