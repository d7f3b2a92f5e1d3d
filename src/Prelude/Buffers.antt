-- ===== src/Prelude/Buffers.antt =====
-- Arrays taken apart: what a load, a store and a copy do at the end of a known prefix.
use Prim.Native.Nat.{ℕ, zero, suc, ◌+◌, ◌≤◌, ◌<◌}
use mathlib.Core.Path.{◌≡◌, refl, ap, ◌∙◌}
use mathlib.Core.List.{List, [], ◌∷◌, ◌++◌, append_assoc}
use mathlib.Core.Option.{some}
use native.Mathlib.Omega.{arith}
use native.Mathlib.Nat.{zero-add}
use kms_core.Prelude.Lists.{length, length-append, get_elem?, take, drop, store, store_all}

module _ {ℓ} {A : Type ℓ} where
  pub length-take : (n : ℕ) (xs : List A) → n ≤ length xs → length (take n xs) ≡ n
  length-take zero xs h = refl
  length-take (suc n) [] h = elim h [ ]
  length-take (suc n) (x ∷ xs) h = ap suc (length-take n xs (omega arith))

  pub length-drop : (n : ℕ) (xs : List A) → n ≤ length xs → n + length (drop n xs) ≡ length xs
  length-drop zero xs h = omega arith
  length-drop (suc n) [] h = elim h [ ]
  length-drop (suc n) (x ∷ xs) h = omega (arith, length-drop n xs (omega arith))

  pub take-append-drop : (n : ℕ) (xs : List A) → take n xs ++ drop n xs ≡ xs
  take-append-drop zero xs = refl
  take-append-drop (suc n) [] = refl
  take-append-drop (suc n) (x ∷ xs) = ap (◌∷◌ x) (take-append-drop n xs)

  pub take-append : (n : ℕ) (xs ys : List A) → length xs ≡ n → take n (xs ++ ys) ≡ xs
  take-append zero [] ys h = refl
  take-append zero (x ∷ xs) ys h = absurd (omega arith)
  take-append (suc n) [] ys h = absurd (omega arith)
  take-append (suc n) (x ∷ xs) ys h = ap (◌∷◌ x) (take-append n xs ys (omega arith))

  pub get_elem?-append :
      (pre xs : List A) (p k : ℕ) → p ≡ length pre + k → get_elem? (pre ++ xs) p ≡ get_elem? xs k
  get_elem?-append [] xs p k h = ap (get_elem? xs) (h ∙ zero-add k)
  get_elem?-append (x ∷ pre) xs zero k h = absurd (omega arith)
  get_elem?-append (x ∷ pre) xs (suc p) k h = get_elem?-append pre xs p k (omega arith)

  pub store-append :
      (pre : List A) (x : A) (post : List A) (p : ℕ) (v : A)
      → p ≡ length pre
      → store (pre ++ (x ∷ post)) p v ≡ some (pre ++ (v ∷ post))
  store-append [] x post zero v h = refl
  store-append [] x post (suc p) v h = absurd (omega arith)
  store-append (y ∷ pre) x post zero v h = absurd (omega arith)
  store-append (y ∷ pre) x post (suc p) v h = rw (store-append pre x post p v (omega arith), store)

  pub append_snoc : (pre : List A) (v : A) (xs : List A) → (pre ++ (v ∷ [])) ++ xs ≡ pre ++ (v ∷ xs)
  append_snoc pre v xs = append_assoc pre (v ∷ []) xs

  pub store_all-append :
      (pre mid post vs : List A) (p : ℕ)
      → p ≡ length pre
      → length mid ≡ length vs
      → store_all (pre ++ (mid ++ post)) p vs ≡ some (pre ++ (vs ++ post))
  store_all-append pre [] post [] p h k = refl
  store_all-append pre (m ∷ mid) post [] p h k = absurd (omega arith)
  store_all-append pre [] post (v ∷ vs) p h k = absurd (omega arith)
  store_all-append pre (m ∷ mid) post (v ∷ vs) p h k =
      rw (store-append pre m (mid ++ post) p v h, store_all)
        (rw (← append_snoc pre v (mid ++ post)) (
          rw
            (store_all-append (pre ++ (v ∷ [])) mid post vs (suc p)
              (omega (arith, length-append pre (v ∷ []))) (omega arith))
            (ap some (append_snoc pre v (vs ++ post)))))

module _ {ℓ} {A : Type ℓ} where
  pub get_elem?_lt : (xs : List A) (i : ℕ) → i < length xs → (x : A) × (get_elem? xs i ≡ some x)
  get_elem?_lt [] i h = elim h [ ]
  get_elem?_lt (x ∷ xs) zero h = (x, refl)
  get_elem?_lt (x ∷ xs) (suc i) h = get_elem?_lt xs i (omega arith)

  -- A store in bounds keeps the length of the array.
  pub store_lt :
      (xs : List A) (i : ℕ) (v : A)
      → i < length xs
      → (ys : List A) × (store xs i v ≡ some ys) × (length ys ≡ length xs)
  store_lt [] i v h = elim h [ ]
  store_lt (x ∷ xs) zero v h = (v ∷ xs, refl, refl)
  store_lt (x ∷ xs) (suc i) v h =
      let (ys, stored, kept) = store_lt xs i v (omega arith) in
      (x ∷ ys, rw (stored, store), ap suc kept)

  pub lt-of-get_elem? : (xs : List A) (i : ℕ) {x : A} → get_elem? xs i ≡ some x → i < length xs
  lt-of-get_elem? [] i e = absurd (ground arith)
  lt-of-get_elem? (x ∷ xs) zero e = omega arith
  lt-of-get_elem? (x ∷ xs) (suc i) e = omega (arith, lt-of-get_elem? xs i e)

  pub get_elem?-take :
      (n : ℕ) (xs : List A) (i : ℕ) (v : A)
      → get_elem? (take n xs) i ≡ some v
      → (get_elem? xs i ≡ some v) × (i < n)
  get_elem?-take zero xs i v e = absurd (ground arith)
  get_elem?-take (suc n) [] i v e = absurd (ground arith)
  get_elem?-take (suc n) (x ∷ xs) zero v e = (e, omega arith)
  get_elem?-take (suc n) (x ∷ xs) (suc i) v e =
      let (there, lt) = get_elem?-take n xs i v e in (there, omega arith)
