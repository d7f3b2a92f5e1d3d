-- ===== src/KmsList/Removing.antt =====
-- kmslist.c: what a removal leaves and frees.
use kms_core.Prelude.{
  ◌+◌, ◌≡◌, ◌∙◌, refl, sym, inl, inr, Bool, true, false, ◌&&◌, Option, none, some, List, [], ◌∷◌,
  length, arith, Bool-cases,
}
use kms_core.KmsList.{unlink, find}

-- What the code relies on `key_equal_func` for.
pub record Equates {ℓ} {K : Type ℓ} (equal : K → K → Bool) : Type ℓ where
  pub symmetric : (a b : K) → equal a b ≡ equal b a
  pub same : (a b c : K) → equal a b ≡ true → equal a c ≡ equal b c

abbrev pub missing {ℓ} : {A : Type ℓ} → Option A → Bool
missing none = true
missing (some node) = false

abbrev pub found {ℓ} : {A : Type ℓ} → Option A → List A
found none = []
found (some node) = node ∷ []

-- No two nodes have one key.
unfoldable pub distinct {ℓ} : {K V : Type ℓ} → (K → K → Bool) → List (K × V) → Bool
distinct equal [] = true
distinct equal (node ∷ nodes) = missing (find equal node.0 nodes) && distinct equal nodes

module _ {ℓ} {K V : Type ℓ} (equal : K → K → Bool) (eq : Equates equal) where
  pub find_same :
      (a b : K) (nodes : List (K × V)) → equal a b ≡ true → find equal a nodes ≡ find equal b nodes
  unfolding find
  find_same a b [] h = refl
  find_same a b (node ∷ nodes) h =
      let e = eq.symmetric node.0 a ∙ (eq.same a b node.0 h ∙ eq.symmetric b node.0) in
      rw e (rw (find_same a b nodes h) refl)

  pub unlink-find :
      (key : K) (nodes : List (K × V)) → (unlink equal key nodes).1 ≡ found (find equal key nodes)
  unfolding unlink find
  unlink-find key [] = refl
  unlink-find key (node ∷ nodes) = elim (Bool-cases (equal node.0 key)) [
    | inl here ↦ rw here refl
    | inr on ↦ rw on (unlink-find key nodes)
  ]

  pub find-unlink_other :
      (key other : K) (nodes : List (K × V))
      → equal key other ≡ false
      → find equal other (unlink equal key nodes).0 ≡ find equal other nodes
  unfolding unlink find
  find-unlink_other key other [] h = refl
  find-unlink_other key other (node ∷ nodes) h = elim (Bool-cases (equal node.0 key)) [
    | inl here ↦ let e = eq.same node.0 key other here ∙ h in rw here (rw e refl)
    | inr on ↦ rw on (rw (find-unlink_other key other nodes h) refl)
  ]

  pub find-unlink_same :
      (key : K) (nodes : List (K × V))
      → distinct equal nodes ≡ true
      → missing (find equal key (unlink equal key nodes).0) ≡ true
  unfolding unlink find distinct
  find-unlink_same key [] d = refl
  find-unlink_same key (node ∷ nodes) d = elim (Bool-cases (equal node.0 key)) [
    | inl here ↦
        let m : missing (find equal node.0 nodes) ≡ true = ground arith in
        rw here (rw (sym (find_same node.0 key nodes here)) m)
    | inr on ↦
        let ds : distinct equal nodes ≡ true = ground arith in
        rw on (rw on (find-unlink_same key nodes ds))
  ]

  pub length-unlink :
      (key : K) (nodes : List (K × V))
      → length (unlink equal key nodes).0 + length (unlink equal key nodes).1 ≡ length nodes
  unfolding unlink
  length-unlink key [] = refl
  length-unlink key (node ∷ nodes) = elim (Bool-cases (equal node.0 key)) [
    | inl here ↦ rw here (omega arith)
    | inr on ↦ rw on (let e = length-unlink key nodes in omega arith)
  ]

  pub distinct-unlink :
      (key : K) (nodes : List (K × V))
      → distinct equal nodes ≡ true
      → distinct equal (unlink equal key nodes).0 ≡ true
  unfolding unlink distinct
  distinct-unlink key [] d = refl
  distinct-unlink key (node ∷ nodes) d = elim (Bool-cases (equal node.0 key)) [
    | inl here ↦ rw here (ground arith)
    | inr on ↦
        let ds : distinct equal nodes ≡ true = ground arith in
        let m : missing (find equal node.0 nodes) ≡ true = ground arith in
        let e = find-unlink_other key node.0 nodes (eq.symmetric key node.0 ∙ on) in
        rw on (rw e (rw m (distinct-unlink key nodes ds)))
  ]
