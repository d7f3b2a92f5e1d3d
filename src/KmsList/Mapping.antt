-- ===== src/KmsList/Mapping.antt =====
-- kmslist.c: a list whose keys differ is a map.
use kms_core.Prelude.{
  ◌+◌, suc, ◌≡◌, ◌∙◌, refl, sym, ap, inl, inr, Bool, true, false, Option, none, some, List, [], ◌∷◌,
  ◌++◌, length, if◌then◌else◌, arith, Bool-cases,
}
use kms_core.KmsList.{
  KmsList, append, prepend, unlink, remove, find, get_node, contains, lookup, count,
}
use kms_core.KmsList.Removing.{
  Equates, missing, found, distinct, find_same, unlink-find, find-unlink_other, find-unlink_same,
  length-unlink, distinct-unlink,
}

-- What a removal does to the map of a list.
pub record Removes {ℓ} {K V : Type ℓ} (equal : K → K → Bool) (before after : KmsList K V) (key : K)
    (freed : List (K × V)) : Type ℓ where
  pub lookups :
      (other : K) → lookup after other ≡ (if equal key other then none else lookup before other)
  pub frees : freed ≡ found (get_node before key)
  pub counts : count after + length freed ≡ count before
  pub differ : distinct equal after.nodes ≡ true

-- What an addition does to the map of a list that does not have the key.
pub record Adds {ℓ} {K V : Type ℓ} (equal : K → K → Bool) (before after : KmsList K V) (key : K)
    (value : V) : Type ℓ where
  pub lookups :
      (other : K)
      → lookup after other ≡ (if equal key other then some value else lookup before other)
  pub counts : count after ≡ suc (count before)
  pub differ : distinct equal after.nodes ≡ true

missing-none {ℓ} : {A : Type ℓ} (o : Option A) → missing o ≡ true → o ≡ none
missing-none none h = refl
missing-none (some a) h = absurd (ground arith)

abbrev value_of {ℓ} : {K V : Type ℓ} → Option (K × V) → Option V
value_of none = none
value_of (some node) = some node.1

module _ {ℓ} {K V : Type ℓ} (equal : K → K → Bool) (eq : Equates equal) where
  find-append :
      (nodes : List (K × V)) (key other : K) (value : V)
      → missing (find equal key nodes) ≡ true
      → find equal other (nodes ++ ((key, value) ∷ []))
        ≡ (if equal key other then some (key, value) else find equal other nodes)
  unfolding find
  find-append [] key other value h = refl
  find-append (node ∷ nodes) key other value h = elim (Bool-cases (equal node.0 key)) [
    | inl here ↦ absurd (ground arith)
    | inr on ↦
        let hs : missing (find equal key nodes) ≡ true = ground arith in
        elim (Bool-cases (equal node.0 other)) [
          | inl this ↦
              let e : equal key other ≡ false =
                eq.symmetric key other ∙ (sym (eq.same node.0 other key this) ∙ on) in
              rw this (rw e refl)
          | inr next ↦ rw next (find-append nodes key other value hs)
        ]
  ]

  distinct-append :
      (nodes : List (K × V)) (key : K) (value : V)
      → missing (find equal key nodes) ≡ true
      → distinct equal nodes ≡ true
      → distinct equal (nodes ++ ((key, value) ∷ [])) ≡ true
  unfolding find distinct
  distinct-append [] key value h d = refl
  distinct-append (node ∷ nodes) key value h d = elim (Bool-cases (equal node.0 key)) [
    | inl here ↦ absurd (ground arith)
    | inr on ↦
        let hs : missing (find equal key nodes) ≡ true = ground arith in
        let m : missing (find equal node.0 nodes) ≡ true = ground arith in
        let ds : distinct equal nodes ≡ true = ground arith in
        rw (find-append nodes key node.0 value hs)
          (rw (eq.symmetric key node.0 ∙ on) (rw m (distinct-append nodes key value hs ds)))
  ]

  lookup-find :
      (list : KmsList K V) (key : K)
      → list.key_equal ≡ some equal
      → lookup list key ≡ value_of (find equal key list.nodes)
  unfolding lookup get_node
  lookup-find list key set = ground arith

  remove-unlink :
      (list : KmsList K V) (key : K)
      → list.key_equal ≡ some equal
      → remove list key
        ≡ (record list { nodes = (unlink equal key list.nodes).0 }, (unlink equal key list.nodes).1)
  unfolding remove
  remove-unlink list key set = ground arith

  get_node-find :
      (list : KmsList K V) (key : K)
      → list.key_equal ≡ some equal
      → get_node list key ≡ find equal key list.nodes
  unfolding get_node
  get_node-find list key set = ground arith

  missing-find :
      (list : KmsList K V) (key : K)
      → list.key_equal ≡ some equal
      → contains list key ≡ false
      → missing (find equal key list.nodes) ≡ true
  unfolding contains
  missing-find list key set new = let e = get_node-find list key set in ground arith

  lookup-unlink :
      (nodes : List (K × V)) (key other : K)
      → distinct equal nodes ≡ true
      → value_of (find equal other (unlink equal key nodes).0)
        ≡ (if equal key other then none else value_of (find equal other nodes))
  lookup-unlink nodes key other d = elim (Bool-cases (equal key other)) [
    | inl this ↦
        let gone = missing-none _ (find-unlink_same equal eq key nodes d) in
        let same = find_same equal eq key other (unlink equal key nodes).0 this in
        rw this (rw (sym same) (rw gone refl))
    | inr next ↦ rw next (rw (find-unlink_other equal eq key other nodes next) refl)
  ]

  lookup-append :
      (nodes : List (K × V)) (key other : K) (value : V)
      → missing (find equal key nodes) ≡ true
      → value_of (find equal other (nodes ++ ((key, value) ∷ [])))
        ≡ (if equal key other then some value else value_of (find equal other nodes))
  lookup-append nodes key other value h = elim (Bool-cases (equal key other)) [
    | inl this ↦ rw this (rw (find-append nodes key other value h) (rw this refl))
    | inr next ↦ rw next (rw (find-append nodes key other value h) (rw next refl))
  ]

  lookup-prepend :
      (nodes : List (K × V)) (key other : K) (value : V)
      → value_of (find equal other ((key, value) ∷ nodes))
        ≡ (if equal key other then some value else value_of (find equal other nodes))
  unfolding find
  lookup-prepend nodes key other value = elim (Bool-cases (equal key other)) [
    | inl this ↦ rw this refl
    | inr next ↦ rw next refl
  ]

  length-append :
      (nodes : List (K × V)) (node : K × V) → length (nodes ++ (node ∷ [])) ≡ suc (length nodes)
  length-append [] node = refl
  length-append (first ∷ nodes) node = ap suc (length-append nodes node)

  -- `key_equal_func` serves its purpose and the keys of a list differ: then a removal forgets the key
  -- and no other, frees the node that had it and no other, and the keys still differ.
  pub remove-Removes :
      (list : KmsList K V) (key : K)
      → list.key_equal ≡ some equal
      → distinct equal list.nodes ≡ true
      → Removes equal list (remove list key).0 key (remove list key).1
  unfolding count
  remove-Removes list key set d =
      let left : KmsList K V = record list { nodes = (unlink equal key list.nodes).0 } in
      rw (remove-unlink list key set) (record {
        lookups = λ other.
            lookup-find left other set
            ∙ (lookup-unlink list.nodes key other d
                ∙ ap (λ (o : Option V). if equal key other then none else o)
                    (sym (lookup-find list other set)));
        frees =
            unlink-find equal eq key list.nodes
            ∙ ap (λ (o : Option (K × V)). found o) (sym (get_node-find list key set));
        counts = length-unlink equal eq key list.nodes;
        differ = distinct-unlink equal eq key list.nodes d;
      })

  append-Adds :
      (list : KmsList K V) (key : K) (value : V)
      → list.key_equal ≡ some equal
      → distinct equal list.nodes ≡ true
      → contains list key ≡ false
      → Adds equal list (append list key value) key value
  unfolding append count
  append-Adds list key value set d new =
      let h = missing-find list key set new in
      let longer : KmsList K V = record list { nodes = list.nodes ++ ((key, value) ∷ []) } in
      record {
        lookups = λ other.
            lookup-find longer other set
            ∙ (lookup-append list.nodes key other value h
                ∙ ap (λ (o : Option V). if equal key other then some value else o)
                    (sym (lookup-find list other set)));
        counts = length-append list.nodes (key, value);
        differ = distinct-append list.nodes key value h d;
      }

  prepend-Adds :
      (list : KmsList K V) (key : K) (value : V)
      → list.key_equal ≡ some equal
      → distinct equal list.nodes ≡ true
      → contains list key ≡ false
      → Adds equal list (prepend list key value) key value
  unfolding prepend count distinct find
  prepend-Adds list key value set d new =
      let h = missing-find list key set new in
      let longer : KmsList K V = record list { nodes = (key, value) ∷ list.nodes } in
      record {
        lookups = λ other.
            lookup-find longer other set
            ∙ (lookup-prepend list.nodes key other value
                ∙ ap (λ (o : Option V). if equal key other then some value else o)
                    (sym (lookup-find list other set)));
        counts = refl;
        differ = rw h d;
      }

  -- `key_equal_func` serves its purpose, and the keys of a list differ: then a key that is not in it
  -- gets its value by an addition at either end, no other key's value changes, and the keys still
  -- differ.
  pub additions-Adds :
      (list : KmsList K V) (key : K) (value : V)
      → list.key_equal ≡ some equal
      → distinct equal list.nodes ≡ true
      → contains list key ≡ false
      → Adds equal list (append list key value) key value
        × Adds equal list (prepend list key value) key value
  additions-Adds list key value set d new =
      (append-Adds list key value set d new, prepend-Adds list key value set d new)
