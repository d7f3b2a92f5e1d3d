-- ===== src/SdpGroupManager/Assigning.antt =====
-- kmssdpgroupmanager.c: the loop that looks for a mid that is not in use.
use Prim.Native.String.{String}
use text.Mathlib.Text.{◌==◌ as str_eq}
use text.Mathlib.TextEquality.{eq_iff}
use kms_core.Prelude.{
  ℕ, zero, suc, ◌+◌, ◌%◌, ◌^◌, ◌≤◌, ◌<◌, ◌≡◌, ◌∙◌, refl, sym, inl, inr, Bool, true, false, ◌||◌,
  subst, some, List, [], ◌∷◌, arith, length, if◌then◌else◌, Bool-cases,
}
use kms_core.SdpGroupManager.{is_mid_used, next_mid}

-- The numbers that are a guint give different texts.
abbrev pub Prints : (String → ℕ → String) → String → Type 0
Prints format media = (i j : ℕ) → i < 2 ^ 32 → j < 2 ^ 32 → format media i ≡ format media j → i ≡ j

without : List String → String → List String
without [] mid = []
without (id ∷ used) mid = if str_eq id mid then without used mid else id ∷ without used mid

without-short : (used : List String) (mid : String) → length (without used mid) ≤ length used
unfolding without
without-short [] mid = omega arith
without-short (id ∷ used) mid = ground (arith, without-short used mid)

without-shorter :
    (used : List String) (mid : String)
    → is_mid_used used mid ≡ true
    → length (without used mid) < length used
unfolding without
without-shorter [] mid h = absurd (ground arith)
without-shorter (id ∷ used) mid h = elim (Bool-cases (str_eq id mid)) [
  | inl same ↦ rw same (omega (arith, without-short used mid))
  | inr other ↦ rw other (omega (arith, without-shorter used mid (ground arith)))
]

or-right : (a b : Bool) → a ≡ false → (a || b) ≡ true → b ≡ true
or-right a b away h = ground arith

without-keeps :
    (used : List String) (mid other : String)
    → str_eq mid other ≡ false
    → is_mid_used used other ≡ true
    → is_mid_used (without used mid) other ≡ true
unfolding without
without-keeps [] mid other ne h = h
without-keeps (id ∷ used) mid other ne h = elim (Bool-cases (str_eq id mid)) [
  | inl same ↦
      let away : str_eq id other ≡ false = rw ((eq_iff id mid).0 same) ne in
      rw same (
        without-keeps used mid other ne
          (or-right (str_eq id other) (is_mid_used used other) away h))
  | inr differs ↦ elim (Bool-cases (str_eq id other)) [
    | inl here ↦ rw differs (rw here refl)
    | inr away ↦ rw differs (
        rw away (
          without-keeps used mid other ne
            (or-right (str_eq id other) (is_mid_used used other) away h)))
  ]
]

-- A mid that the loop finds: one that is not in use, made of the media and a number.
pub record Finds (format : String → ℕ → String) (media : String) (used : List String)
    (fuel counter : ℕ) : Type 0 where
  pub mid : String
  pub number : ℕ
  pub counter' : ℕ
  pub found : next_mid format fuel media used counter ≡ some (mid, counter')
  pub free : is_mid_used used mid ≡ false
  pub made : mid ≡ format media number
  pub small : number < 2 ^ 32
  pub word : counter' < 2 ^ 32

differs_later :
    (format : String → ℕ → String) (media : String) (counter i : ℕ)
    → Prints format media
    → counter < 2 ^ 32
    → i + 1 < 2 ^ 32
    → str_eq (format media counter) (format media (((counter + 1) % 2 ^ 32 + i) % 2 ^ 32)) ≡ false
differs_later format media counter i prints word small =
    let later = ((counter + 1) % 2 ^ 32 + i) % 2 ^ 32 in
    elim (Bool-cases (str_eq (format media counter) (format media later))) [
      | inr away ↦ away
      | inl same ↦
          let e = prints counter later word (omega arith) ((eq_iff _ _).0 same) in
          absurd (omega (arith, e))
    ]

left_at :
    (format : String → ℕ → String) (media : String) (used left : List String) (i j : ℕ)
    → i ≡ j
    → (is_mid_used used (format media j) ≡ true → is_mid_used left (format media j) ≡ true)
    → is_mid_used used (format media i) ≡ true
    → is_mid_used left (format media i) ≡ true
left_at format media used left i j e among h =
    rw e (among (subst (λ n. is_mid_used used (format media n) ≡ true) e h))

next_mid_rounds :
    (format : String → ℕ → String) (media : String) (used left : List String) (fuel counter : ℕ)
    → Prints format media
    → counter < 2 ^ 32
    → length left < fuel
    → fuel ≤ 2 ^ 32
    → ((i : ℕ)
        → i < fuel
        → is_mid_used used (format media ((counter + i) % 2 ^ 32)) ≡ true
        → is_mid_used left (format media ((counter + i) % 2 ^ 32)) ≡ true)
    → Finds format media used fuel counter
unfolding next_mid
next_mid_rounds format media used left zero counter prints word short rounds among =
    absurd (omega arith)
next_mid_rounds format media used left (suc fuel) counter prints word short rounds among =
    let mid = format media counter in
    let next = (counter + 1) % 2 ^ 32 in
    elim (Bool-cases (is_mid_used used mid)) [
      | inr free ↦ record {
        mid = mid;
        number = counter;
        counter' = next;
        found = rw free refl;
        free = free;
        made = refl;
        small = word;
        word = omega arith;
      }
      | inl taken ↦
          let first : counter ≡ (counter + 0) % 2 ^ 32 = omega arith in
          let there : is_mid_used left mid ≡ true =
            left_at format media used left counter ((counter + 0) % 2 ^ 32) first
              (among 0 (omega arith)) taken in
          let rest =
            next_mid_rounds format media used (without left mid) fuel next prints (omega arith)
              (omega (arith, without-shorter left mid there)) (omega arith)
              (λ i lt h.
                without-keeps left mid (format media ((next + i) % 2 ^ 32))
                  (differs_later format media counter i prints word (omega arith))
                  (left_at format media used left ((next + i) % 2 ^ 32) ((counter + suc i) % 2 ^ 32)
                    (omega arith) (among (suc i) (omega arith)) h)) in
          record {
            mid = rest.mid;
            number = rest.number;
            counter' = rest.counter';
            found = rw taken rest.found;
            free = rest.free;
            made = rest.made;
            small = rest.small;
            word = rest.word;
          }
    ]

-- The loop of assign_mid ends, within one round more than there are mids in use, with a mid that is not
-- in use, if there are fewer in use than guints and the texts of the guints differ.
pub next_mid-Finds :
    (format : String → ℕ → String) (media : String) (used : List String) (counter : ℕ)
    → Prints format media
    → counter < 2 ^ 32
    → length used < 2 ^ 32
    → Finds format media used (suc (length used)) counter
next_mid-Finds format media used counter prints word few =
    next_mid_rounds format media used used (suc (length used)) counter prints word (omega arith)
      (omega arith) (λ i lt h. h)

-- A mid that the loop gives, whatever the texts of the numbers are.
pub next_mid_free :
    (format : String → ℕ → String) (fuel : ℕ) (media : String) (used : List String) (counter : ℕ)
    (mid : String) (counter' : ℕ)
    → next_mid format fuel media used counter ≡ some (mid, counter')
    → (is_mid_used used mid ≡ false) × (counter' < 2 ^ 32)
unfolding next_mid
next_mid_free format zero media used counter mid counter' h = absurd (ground arith)
next_mid_free format (suc fuel) media used counter mid counter' h =
    elim (Bool-cases (is_mid_used used (format media counter))) [
      | inl taken ↦
          let next = (counter + 1) % 2 ^ 32 in
          let skip : next_mid format (suc fuel) media used counter
              ≡ next_mid format fuel media used next =
            rw taken refl in
          next_mid_free format fuel media used next mid counter' (sym skip ∙ h)
      | inr free ↦ ground arith
    ]
