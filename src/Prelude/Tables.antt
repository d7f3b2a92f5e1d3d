-- ===== src/Prelude/Tables.antt =====
-- A GHashTable from guint keys, as the list of its entries in the order of the iteration.
use Prim.Native.Nat.{ℕ}
use mathlib.Core.Path.{◌≡◌, refl, sym, subst, ◌∙◌}
use mathlib.Core.Logic.{◌≢◌, inl, inr}
use mathlib.Core.Bool.{true, false}
use mathlib.Core.List.{List, [], ◌∷◌}
use mathlib.Core.Option.{Option, none, some}
use native.Mathlib.Omega.{arith}
use kms_core.Prelude.Tests.{◌==◌, if◌then◌else◌, Bool-cases}

pub record Entry {ℓ} (V : Type ℓ) : Type ℓ where
  pub key : ℕ
  pub value : V

module _ {ℓ} {V : Type ℓ} where
  abbrev pub lookup : List (Entry V) → ℕ → Option V
  lookup [] k = none
  lookup (e ∷ table) k = if e.key == k then some e.value else lookup table k

  -- Puts a value at a key: in the place of the one there, or behind the others.
  abbrev pub insert : List (Entry V) → ℕ → V → List (Entry V)
  insert [] k v = record { key = k; value = v } ∷ []
  insert (e ∷ table) k v =
      if e.key == k then record { key = k; value = v } ∷ table else e ∷ insert table k v

  pub lookup-insert_self :
      (table : List (Entry V)) (k : ℕ) (v : V) → lookup (insert table k v) k ≡ some v
  lookup-insert_self [] k v = ground arith
  lookup-insert_self (e ∷ table) k v = ground (arith, lookup-insert_self table k v)

  pub lookup-insert_ne :
      (table : List (Entry V)) (j k : ℕ) (v : V)
      → j ≢ k
      → lookup (insert table k v) j ≡ lookup table j
  lookup-insert_ne [] j k v ne = ground arith
  lookup-insert_ne (e ∷ table) j k v ne = ground (arith, lookup-insert_ne table j k v ne)

  -- Every value of the table has the property.
  abbrev pub All : (V → Type 0) → List (Entry V) → Type 0
  All P [] = Unit
  All P (e ∷ table) = P e.value × All P table

  pub All-insert :
      (P : V → Type 0) (table : List (Entry V)) (k : ℕ) (v : V)
      → All P table
      → P v
      → All P (insert table k v)
  All-insert P [] k v all here = (here, tt)
  All-insert P (e ∷ table) k v all here = elim (Bool-cases (e.key == k)) [
    | inl same ↦ rw same (here, all.1)
    | inr other ↦ rw other (all.0, All-insert P table k v all.1 here)
  ]

  pub All-weaken :
      (P Q : V → Type 0) (table : List (Entry V))
      → ((v : V) → P v → Q v)
      → All P table
      → All Q table
  All-weaken P Q [] weaken all = tt
  All-weaken P Q (e ∷ table) weaken all = (weaken e.value all.0, All-weaken P Q table weaken all.1)

  -- Takes the entries of a key away.
  abbrev pub delete : List (Entry V) → ℕ → List (Entry V)
  delete [] k = []
  delete (e ∷ table) k = if e.key == k then delete table k else e ∷ delete table k

  pub lookup_here :
      (e : Entry V) (table : List (Entry V)) (k : ℕ) (v : V)
      → (e.key == k) ≡ true
      → lookup (e ∷ table) k ≡ some v
      → e.value ≡ v
  lookup_here e table k v same there = ground (arith, same, there)

  pub lookup_there :
      (e : Entry V) (table : List (Entry V)) (k : ℕ)
      → (e.key == k) ≡ false
      → lookup (e ∷ table) k ≡ lookup table k
  lookup_there e table k other = rw other refl

  pub lookup-delete_self : (table : List (Entry V)) (k : ℕ) → lookup (delete table k) k ≡ none
  lookup-delete_self [] k = refl
  lookup-delete_self (e ∷ table) k = elim (Bool-cases (e.key == k)) [
    | inl same ↦ rw same (lookup-delete_self table k)
    | inr other ↦ rw other (rw other (lookup-delete_self table k))
  ]

  pub lookup-delete_ne :
      (table : List (Entry V)) (j k : ℕ) → j ≢ k → lookup (delete table k) j ≡ lookup table j
  lookup-delete_ne [] j k ne = refl
  lookup-delete_ne (e ∷ table) j k ne = ground (arith, lookup-delete_ne table j k ne)

  pub All-lookup :
      (P : V → Type 0) (table : List (Entry V)) (k : ℕ) (v : V)
      → All P table
      → lookup table k ≡ some v
      → P v
  All-lookup P [] k v all there = absurd (ground arith)
  All-lookup P (e ∷ table) k v all there = elim (Bool-cases (e.key == k)) [
    | inl same ↦ subst P (lookup_here e table k v same there) all.0
    | inr other ↦ All-lookup P table k v all.1 (sym (lookup_there e table k other) ∙ there)
  ]
