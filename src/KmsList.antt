-- ===== src/KmsList.antt =====
-- src/gst-plugins/commons/kmslist.c: the association list. The nodes are those of the GSList, in its
-- order; a removal also answers the nodes that it frees.
pub mod Removing
pub mod Mapping
use kms_core.Prelude.{
  ℕ, Bool, true, false, Option, none, some, List, [], ◌∷◌, ◌++◌, if◌then◌else◌, length,
}

-- `_KmsList`, without what destroys keys and values: `key_equal_func` may be NULL.
pub record KmsList {ℓ} (K V : Type ℓ) : Type ℓ where
  pub key_equal : Option (K → K → Bool)
  pub nodes : List (K × V)

-- `kms_list_new_full`.
abbrev pub new_full {ℓ} : {K V : Type ℓ} → Option (K → K → Bool) → KmsList K V
new_full key_equal = record { key_equal = key_equal; nodes = [] }

-- `kms_list_length`.
unfoldable pub count {ℓ} : {K V : Type ℓ} → KmsList K V → ℕ
count list = length list.nodes

-- `kms_list_append`.
unfoldable pub append {ℓ} : {K V : Type ℓ} → KmsList K V → K → V → KmsList K V
append list key value = record list { nodes = list.nodes ++ ((key, value) ∷ []) }

-- `kms_list_prepend`.
unfoldable pub prepend {ℓ} : {K V : Type ℓ} → KmsList K V → K → V → KmsList K V
prepend list key value = record list { nodes = (key, value) ∷ list.nodes }

-- The loop of `kms_list_remove`: the nodes that stay, and the one that is freed.
unfoldable pub unlink {ℓ} :
    {K V : Type ℓ} → (K → K → Bool) → K → List (K × V) → List (K × V) × List (K × V)
unlink equal key [] = ([], [])
unlink equal key (node ∷ nodes) =
    let rest = unlink equal key nodes in
    if equal node.0 key then (nodes, node ∷ []) else (node ∷ rest.0, rest.1)

-- `kms_list_remove`.
unfoldable pub remove {ℓ} : {K V : Type ℓ} → KmsList K V → K → KmsList K V × List (K × V)
remove list key = elim list.key_equal [
  | none ↦ (list, [])
  | some equal ↦
      (record list { nodes = (unlink equal key list.nodes).0 }, (unlink equal key list.nodes).1)
]

-- The loop of `kms_list_get_node`.
unfoldable pub find {ℓ} : {K V : Type ℓ} → (K → K → Bool) → K → List (K × V) → Option (K × V)
find equal key [] = none
find equal key (node ∷ nodes) = if equal node.0 key then some node else find equal key nodes

-- `kms_list_get_node`.
unfoldable pub get_node {ℓ} : {K V : Type ℓ} → KmsList K V → K → Option (K × V)
get_node list key = elim list.key_equal [ none ↦ none | some equal ↦ find equal key list.nodes ]

-- `kms_list_contains`.
unfoldable pub contains {ℓ} : {K V : Type ℓ} → KmsList K V → K → Bool
contains list key = elim (get_node list key) [ none ↦ false | some node ↦ true ]

-- `kms_list_lookup`.
unfoldable pub lookup {ℓ} : {K V : Type ℓ} → KmsList K V → K → Option V
lookup list key = elim (get_node list key) [ none ↦ none | some node ↦ some node.1 ]
