-- ===== src/Merkle/Tests.antt =====
-- Concrete trees: runs of the operations, and instances of the theorems on them.
use mathlib.Core.List.{Perm}
use bittorrent_implementatio.Prelude.{
  ◌≡◌, refl, inl, inr, true, false, none, some, List, [], ◌∷◌, ◌++◌, map, CString, length, str_eq,
}
use bittorrent_implementatio.Merkle.{
  Tree, null, node, Chunk, MerkleTree, branch_data, leaf_data, create_tree, min_hash_find,
  min_hash_join,
}
use bittorrent_implementatio.Merkle.Built.{plain}
use bittorrent_implementatio.Merkle.Keys.{IsTreeOf, create_tree-IsTreeOf}
use bittorrent_implementatio.Merkle.Traverse.{keys}
use bittorrent_implementatio.Merkle.MinHash.{complete, frontier, value_or, min_hash_find-frontier}

abbrev hash_list : List CString
hash_list = (65 ∷ []) ∷ []

abbrev chunk_list : List Chunk
chunk_list =
    record { hash = 66 ∷ []; offset = 0; size = 4; node_ptr = none }
    ∷ record { hash = 67 ∷ []; offset = 4; size = 4; node_ptr = none }
    ∷ []

-- One of two chunks has the right hash.
abbrev left_leaf : Tree
left_leaf = node (record (leaf_data 1 (66 ∷ []) (some 0)) { computed_hash = 66 ∷ [] }) null null

abbrev right_leaf : Tree
right_leaf = node (leaf_data 2 (67 ∷ []) (some 0)) null null

half_found :
    min_hash_find (node (branch_data 0 (65 ∷ []) none) left_leaf right_leaf) []
    ≡ some (false, (66 ∷ []) ∷ [])
unfolding min_hash_find min_hash_join str_eq
half_found = refl

-- A root that is a leaf, as in a package of one chunk, writes nothing although it is complete.
single_chunk :
    min_hash_find
      (node (record (leaf_data 0 (66 ∷ []) none) { computed_hash = 66 ∷ [] }) null null)
      []
    ≡ some (true, [])
unfolding min_hash_find min_hash_join str_eq
single_chunk = refl

create_tree-IsTreeOf_example :
    (t : MerkleTree) × (after : List Chunk) × (create_tree hash_list
        (length hash_list)
        chunk_list
        (length chunk_list)
      ≡ some (t, after))
    × IsTreeOf hash_list after t.root
    × (plain after ≡ plain chunk_list)
    × (t.n_nodes ≡ length (keys t.root))
create_tree-IsTreeOf_example = create_tree-IsTreeOf hash_list chunk_list refl

min_hash_find-frontier_example :
    (written : List CString) × (min_hash_find
        (node (branch_data 0 (65 ∷ []) none) left_leaf right_leaf)
        []
      ≡ some (complete (node (branch_data 0 (65 ∷ []) none) left_leaf right_leaf), [] ++ written))
    × Perm written
        (map value_or (frontier (node (branch_data 0 (65 ∷ []) none) left_leaf right_leaf)))
min_hash_find-frontier_example =
    min_hash_find-frontier (branch_data 0 (65 ∷ []) none) left_leaf right_leaf []
      (refl, inr (refl, (refl, inl refl), (refl, inl refl))) refl
