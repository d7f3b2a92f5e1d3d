-- ===== src/Prelude/Sets.antt =====
-- Sets of numbers as lists, and maps from numbers as functions.
use Prim.Native.Nat.{ℕ}
use mathlib.Core.Path.{◌≡◌, refl}
use mathlib.Core.Bool.{Bool, true, false, not, ◌&&◌, ◌||◌}
use mathlib.Core.List.{List, [], ◌∷◌}
use native.Mathlib.Omega.{arith}
use kms_core.Prelude.Tests.{◌==◌, if◌then◌else◌}

abbrev pub member : ℕ → List ℕ → Bool
member x [] = false
member x (y ∷ ys) = y == x || member x ys

unfoldable pub add : ℕ → List ℕ → List ℕ
add x ys = if member x ys then ys else x ∷ ys

unfoldable pub erase : ℕ → List ℕ → List ℕ
erase x [] = []
erase x (y ∷ ys) = if y == x then erase x ys else y ∷ erase x ys

pub member_same : (x y : ℕ) (ys : List ℕ) → (x == y) ≡ true → member x ys ≡ member y ys
member_same x y [] h = refl
member_same x y (z ∷ ys) h = ground (arith, member_same x y ys)

pub member-add : (x y : ℕ) (ys : List ℕ) → member x (add y ys) ≡ (y == x || member x ys)
unfolding add
member-add x y ys = ground (arith, member_same x y ys)

pub member-erase : (x y : ℕ) (ys : List ℕ) → member x (erase y ys) ≡ (not (y == x) && member x ys)
unfolding erase
member-erase x y [] = ground arith
member-erase x y (z ∷ ys) = ground (arith, member-erase x y ys)

-- A map in which one key has another value.
abbrev pub at {ℓ} : {A : Type ℓ} → (ℕ → A) → ℕ → A → ℕ → A
at f k v j = if j == k then v else f j
