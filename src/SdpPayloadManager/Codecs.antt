-- ===== src/SdpPayloadManager/Codecs.antt =====
-- kmssdppayloadmanager.c: the loops over the array of codecs.
use text.Mathlib.TextEquality.{eq_iff}
use Prim.Native.String.{String}
use kms_core.Prelude.{
  ℕ, zero, suc, ◌+◌, ◌≤◌, ◌<◌, ◌≡◌, refl, sym, ap, ◌∙◌, ◌≢◌, ◌⊎◌, inl, inr, true, false, Option,
  none, some, List, arith, length, get_elem?, set, length-set, get_elem?-set_self, get_elem?-set_ne,
  store-set, ◌>>=◌, Bool-cases, ==_iff, ◌==◌,
}
use kms_core.Prelude.Buffers.{get_elem?_lt}
use kms_core.SdpPayloadManager.{same_name, find_codec, clear_codec}

abbrev pub Codecs : Type 0
Codecs = List (Option String)

-- The codec `name` has the payload type `i`.
abbrev pub Has : Codecs → ℕ → String → Type 0
Has codecs i name = get_elem? codecs i ≡ some (some name)

pub same_name→eq : (o : Option String) (name : String) → same_name o name ≡ true → o ≡ some name
unfolding same_name
same_name→eq none name h = ground arith
same_name→eq (some a) name h = ap some ((eq_iff a name).0 h)

pub same_name_self : (name : String) → same_name (some name) name ≡ true
unfolding same_name
same_name_self name = (eq_iff name name).1 refl

not_same : (o : Option String) (name : String) → same_name o name ≡ false → o ≢ some name
not_same o name h e = let r = rw e at h in ground (arith, same_name_self name, r)

-- What the search gives: a payload type of the range that has the codec, or that none has it.
pub data Found (codecs : Codecs) (name : String) (i left : ℕ) : Option ℕ → Type 0 where
  hit : (pt : ℕ) → i ≤ pt → pt < i + left → Has codecs pt name → Found codecs name i left (some pt)
  miss :
      ((j : ℕ) → i ≤ j → j < i + left → get_elem? codecs j ≢ some (some name))
      → Found codecs name i left none

-- An index of a range that is not its first is in the rest of it.
later : (i j : ℕ) → i ≤ j → i ≢ j → suc i ≤ j
later i j le ne = omega arith

widen :
    (codecs : Codecs) (name : String) (i left : ℕ) {r : Option ℕ}
    → get_elem? codecs i ≢ some (some name)
    → Found codecs name (suc i) left r
    → Found codecs name i (suc left) r
widen codecs name i left ne (hit pt le lt has) = hit pt (omega arith) (omega arith) has
widen codecs name i left ne (miss none_has) = miss λ j le lt. elim (Bool-cases (i == j)) [
  | inl here ↦ rw (← (==_iff i j).0 here) ne
  | inr there ↦ none_has j (ground arith) (omega arith)
]

pub find_codec-Found :
    (left i : ℕ) (codecs : Codecs) (name : String)
    → i + left ≤ length codecs
    → (r : Option ℕ) × (find_codec left i codecs name ≡ some r) × Found codecs name i left r
unfolding find_codec
find_codec-Found zero i codecs name h = (none, refl, miss (λ j le lt. absurd (omega arith)))
find_codec-Found (suc left) i codecs name h =
    let (codec, at_i) = get_elem?_lt codecs i (omega arith) in
    rw (at_i, ◌>>=◌)
      (elim (Bool-cases (same_name codec name)) [
        | inl same ↦ rw same (
          some i,
          refl,
          hit i (omega arith) (omega arith) (at_i ∙ ap some (same_name→eq codec name same)),
        )
        | inr other ↦ rw other (
            let (r, found, shown) = find_codec-Found left (suc i) codecs name (omega arith) in
            (r, found, widen codecs name i left (λ e. not_same codec name other (cc)) shown))
      ])

-- `new` is `old` without the codec `name` on the payload types from `lo` to below `hi`.
pub record Cleared (old new : Codecs) (name : String) (lo hi : ℕ) : Type 0 where
  pub size : length new ≡ length old
  pub gone : (j : ℕ) → lo ≤ j → j < hi → get_elem? new j ≢ some (some name)
  pub kept : (j : ℕ) (other : String) → other ≢ name → Has old j other → Has new j other
  pub known : (j : ℕ) (other : String) → Has new j other → Has old j other
  pub outside : (j : ℕ) → (j < lo) ⊎ (hi ≤ j) → get_elem? new j ≡ get_elem? old j

Cleared-nil : (codecs : Codecs) (name : String) (i : ℕ) → Cleared codecs codecs name i (i + 0)
Cleared-nil codecs name i = record {
  size = refl;
  gone = λ j le lt. absurd (omega arith);
  kept = λ j other ne has. has;
  known = λ j other has. has;
  outside = λ j out. refl;
}

-- The first entry did not have the codec.
Cleared-pass :
    (old new : Codecs) (name : String) (i left : ℕ)
    → get_elem? old i ≢ some (some name)
    → Cleared old new name (suc i) (suc i + left)
    → Cleared old new name i (i + suc left)
Cleared-pass old new name i left ne c = record {
  size = c.size;
  gone = λ j le lt. elim (Bool-cases (i == j)) [
    | inl here ↦ rw (← (==_iff i j).0 here) (rw (c.outside i (inl (omega arith))) ne)
    | inr there ↦ c.gone j (ground arith) (omega arith)
  ];
  kept = c.kept;
  known = c.known;
  outside = λ j out. c.outside j (omega arith);
}

known_before :
    (old : Codecs) (i j : ℕ) (other : String)
    → i < length old
    → Has (set old i none) j other
    → Has old j other
known_before old i j other lt now = elim (Bool-cases (i == j)) [
  | inl here ↦
      let same : i ≡ j = (==_iff i j).0 here in
      let emptied = get_elem?-set_self old i none lt in absurd (cc)
  | inr there ↦ sym (get_elem?-set_ne old i j none (λ e. ground arith)) ∙ now
]

-- The first entry had it, and was emptied.
Cleared-empty :
    (old new : Codecs) (name : String) (i left : ℕ)
    → i < length old
    → Has old i name
    → Cleared (set old i none) new name (suc i) (suc i + left)
    → Cleared old new name i (i + suc left)
Cleared-empty old new name i left lt has c = record {
  size = c.size ∙ length-set old i none;
  gone = λ j le lt'. elim (Bool-cases (i == j)) [
    | inl here ↦
        rw (← (==_iff i j).0 here)
          (rw (c.outside i (inl (omega arith)), get_elem?-set_self old i none lt) (λ e. cc))
    | inr there ↦ c.gone j (ground arith) (omega arith)
  ];
  kept = λ j other ne had. c.kept j other ne (get_elem?-set_ne old i j none (λ e. ne (cc)) ∙ had);
  known = λ j other now. known_before old i j other lt (c.known j other now);
  outside = λ j out. c.outside j (omega arith) ∙ get_elem?-set_ne old i j none (omega arith);
}

pub clear_codec-Cleared :
    (left i : ℕ) (codecs : Codecs) (name : String)
    → i + left ≤ length codecs
    → (out : Codecs) × (clear_codec left i codecs name ≡ some out)
      × Cleared codecs out name i (i + left)
unfolding clear_codec
clear_codec-Cleared zero i codecs name h = (codecs, refl, Cleared-nil codecs name i)
clear_codec-Cleared (suc left) i codecs name h =
    let (codec, at_i) = get_elem?_lt codecs i (omega arith) in
    rw (at_i, ◌>>=◌)
      (elim (Bool-cases (same_name codec name)) [
        | inl same ↦
            rw (same, store-set codecs i none (omega arith), ◌>>=◌)
              (let (out, done, shown) =
                  clear_codec-Cleared left (suc i) (set codecs i none) name
                    (omega (arith, length-set codecs i none)) in
                (
                  out,
                  done,
                  Cleared-empty codecs out name i left (omega arith)
                      (at_i ∙ ap some (same_name→eq codec name same)) shown,
                ))
        | inr other ↦
            rw (other, ◌>>=◌)
              (let (out, done, shown) =
                  clear_codec-Cleared left (suc i) codecs name (omega arith) in
                (
                  out,
                  done,
                  Cleared-pass codecs out name i left (λ e. not_same codec name other (cc)) shown,
                ))
      ])
