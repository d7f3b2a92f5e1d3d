-- ===== src/Rtcp/Mantissa.antt =====
-- kmsrtcp.c, `compute_mantissa_and_6_bit_base_2_expoonent`: the bitrate as 18 bits and an exponent.
use native.Mathlib.Nat.{pow-suc, mod-lt, div-add-mod', le_of_mul-le-mul_right}
use kms_core.Prelude.{
  ℕ, zero, suc, ◌+◌, ◌-◌, ◌*◌, ◌/◌, ◌%◌, ◌^◌, ◌≤◌, ◌<◌, ◌≡◌, refl, ap, ◌⊎◌, inl, inr, true, false,
  none, some, arith, ltb, leb, ◌==◌, Bool-cases, ◌>>=◌, passes_up_to, passes_at, leb→le, ==_iff,
  lt→ltb, ltb→lt, leb-false,
}
use kms_core.Rtcp.{shl32, find_exponent, compute_mantissa}

abbrev pub mantissa_max : ℕ
mantissa_max = 262143

-- The largest bitrate that 18 bits and an exponent can bound: (2 ^ 18 - 1) * 2 ^ 14.
abbrev pub max_bitrate : ℕ
max_bitrate = 4294950912

exact_table : passes_up_to (λ i. mantissa_max * 2 ^ i % 2 ^ 32 == mantissa_max * 2 ^ i) 15 ≡ true
unfolding passes_up_to
exact_table = refl

shl32-exact : (i : ℕ) → i < 15 → shl32 mantissa_max i ≡ some (mantissa_max * 2 ^ i)
unfolding shl32
shl32-exact i h =
    rw (lt→ltb i 32 (omega arith)) (ap some ((==_iff _ _).0 (passes_at _ 15 i h exact_table)))

-- Exponents from 15 on lose the upper bits.
small_table : passes_up_to (λ i. leb (mantissa_max * 2 ^ i % 2 ^ 32) max_bitrate) 32 ≡ true
unfolding passes_up_to
small_table = refl

-- What the loop has to find: the least exponent that serves.
pub record Serves (input e : ℕ) : Type 0 where
  pub small : e < 15
  pub above : input ≤ mantissa_max * 2 ^ e
  pub least : (e ≡ 0) ⊎ (mantissa_max * 2 ^ (e - 1) < input)

not_last : (i input : ℕ) → input ≤ max_bitrate → i < 15 → mantissa_max * 2 ^ i < input → suc i < 15
not_last i input h lt above = elim (Bool-cases (i == 14)) [
  | inl last ↦ absurd (reached ((==_iff i 14).0 last))
  | inr earlier ↦ ground arith
]
  where
    reached : i ≡ 14 → ⊥
    reached e = let short : mantissa_max * 2 ^ 14 < input = rw e at above in omega arith

pred_suc : (i : ℕ) → suc i - 1 ≡ i
pred_suc i = omega arith

gt→leb : (a b : ℕ) → a ≤ max_bitrate → max_bitrate < b → leb b a ≡ false
gt→leb a b h k = ground arith

find_exponent_from :
    (left i input : ℕ)
    → input ≤ max_bitrate
    → i < 15
    → 15 ≤ i + left
    → (i ≡ 0) ⊎ (mantissa_max * 2 ^ (i - 1) < input)
    → (e : ℕ) × (find_exponent left i mantissa_max input ≡ some e) × Serves input e
unfolding find_exponent
find_exponent_from zero i input h lt fuel below = absurd (omega arith)
find_exponent_from (suc left) i input h lt fuel below =
    rw (shl32-exact i lt, ◌>>=◌)
      (elim (Bool-cases (leb input (mantissa_max * 2 ^ i))) [
        | inl fits ↦
            rw fits (i, refl, record { small = lt; above = leb→le _ _ fits; least = below })
        | inr larger ↦ rw larger (
            find_exponent_from left (suc i) input h (not_last i input h lt (leb-false _ _ larger))
              (omega arith) (inr (rw (pred_suc i) (leb-false _ _ larger))))
      ])

-- Past the largest bitrate no shift serves, and the loop comes to a shift by the width.
find_exponent-undefined :
    (left i input : ℕ)
    → max_bitrate < input
    → 32 < i + left
    → i ≤ 32
    → find_exponent left i mantissa_max input ≡ none
unfolding find_exponent shl32
find_exponent-undefined zero i input h fuel le = absurd (omega arith)
find_exponent-undefined (suc left) i input h fuel le = elim (Bool-cases (ltb i 32)) [
  | inl below ↦
      rw (below, ◌>>=◌)
        (rw
          (gt→leb (mantissa_max * 2 ^ i % 2 ^ 32) input
            (leb→le _ _ (passes_at _ 32 i (ltb→lt i 32 below) small_table)) h)
          (find_exponent-undefined left (suc i) input h (omega arith) (ltb→lt i 32 below)))
  | inr reached ↦ rw (reached, ◌>>=◌)
]

-- The pair stands for the largest multiple of 2 ^ e that is not above the input, and loses at most
-- one part in 2 ^ 17 - 1.
pub record Approximates (input m e : ℕ) : Type 0 where
  pub mantissa_fits : m < 2 ^ 18
  pub exponent_fits : e < 15
  pub below : m * 2 ^ e ≤ input
  pub next_above : input < (m + 1) * 2 ^ e
  pub precise : 131071 * (input - m * 2 ^ e) ≤ input

pow_pos : (e : ℕ) → 0 < 2 ^ e
pow_pos zero = omega arith
pow_pos (suc e) = rw pow-suc (omega (arith, pow_pos e))

precise_at :
    (input m r p q : ℕ)
    → m * p + r ≡ input
    → r < p
    → (p ≡ 1) ⊎ (p ≡ q * 2) × (mantissa_max * q < input)
    → 131071 * (input - m * p) ≤ input
precise_at input m r p q split lt cases = omega arith

scale :
    (input e : ℕ)
    → (e ≡ 0) ⊎ (mantissa_max * 2 ^ (e - 1) < input)
    → (2 ^ e ≡ 1) ⊎ (2 ^ e ≡ 2 ^ (e - 1) * 2) × (mantissa_max * 2 ^ (e - 1) < input)
scale input zero least = inl refl
scale input (suc e) (inl e0) = absurd (omega arith)
scale input (suc e) (inr lt) = inr (rw (pred_suc e) (pow-suc 2 e), lt)

small_at : (input m r p : ℕ) → m * p + r ≡ input → 0 < p → input ≤ mantissa_max * p → m < 2 ^ 18
small_at input m r p split pos h =
    let le : m ≤ mantissa_max = le_of_mul-le-mul_right {k = p} (omega arith) pos in omega arith

approximate : (input e : ℕ) → Serves input e → Approximates input (input / 2 ^ e) e
approximate input e s = record {
  mantissa_fits = small_at input (input / 2 ^ e) (input % 2 ^ e) (2 ^ e) split (pow_pos e) s.above;
  exponent_fits = s.small;
  below = omega (arith, split);
  next_above = omega (arith, split, lt);
  precise =
      precise_at input (input / 2 ^ e) (input % 2 ^ e) (2 ^ e) (2 ^ (e - 1)) split lt
        (scale input e s.least);
}
  where
    split : input / 2 ^ e * 2 ^ e + input % 2 ^ e ≡ input
    split = div-add-mod' input (2 ^ e)

    lt : input % 2 ^ e < 2 ^ e
    lt = mod-lt input (pow_pos e)

-- A bitrate up to `max_bitrate` gets a mantissa of 18 bits and an exponent below 15 that
-- approximate it; past it, up to the end of guint32, the code shifts by 32, which C leaves undefined.
pub compute_mantissa_lem :
    (input : ℕ)
    → input < 2 ^ 32
    → ((input ≤ max_bitrate)
        → (m e : ℕ) × (compute_mantissa input 18 ≡ some (true, m, e)) × Approximates input m e)
      × (max_bitrate < input → compute_mantissa input 18 ≡ none)
unfolding compute_mantissa shl32
compute_mantissa_lem input word = (
  λ h.
      let (e, found, serves) =
        find_exponent_from 64 0 input h (omega arith) (omega arith) (inl refl) in
      (input / 2 ^ e, e, rw (found, ◌>>=◌), approximate input e serves),
  λ h. rw (find_exponent-undefined 64 0 input h (omega arith) (omega arith)),
)
