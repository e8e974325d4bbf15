-- ===== src/Pkgchk/Tests.antt =====
-- A package of two chunks, and instances of the theorems on it.
use mathlib.Core.List.{Perm}
use bittorrent_implementatio.Prelude.{
  ◌≡◌, ◌⊎◌, true, false, none, some, List, [], ◌∷◌, ◌++◌, map, str_eq, length,
}
use bittorrent_implementatio.Merkle.{Tree, node, NodeData}
use bittorrent_implementatio.Merkle.Frontier.{leaves}
use bittorrent_implementatio.Pkgchk.{
  counted_query, bpkg_get_all_hashes, bpkg_get_all_chunk_hashes_from_hash,
}
use bittorrent_implementatio.Pkgchk.Samples.{two_chunks, two_chunks-IsPackage}
use bittorrent_implementatio.Pkgchk.AllHashes.{bpkg_get_all_hashes-perm}
use bittorrent_implementatio.Pkgchk.Queries.{Below, among, all_chunk_hashes_from_hash_lem}

bpkg_get_all_hashes-perm_example :
    Perm
      (bpkg_get_all_hashes two_chunks).hashes
      (two_chunks.hashes ++ map (λ c. c.hash) two_chunks.chunks)
    × ((bpkg_get_all_hashes two_chunks).len ≡ length (bpkg_get_all_hashes two_chunks).hashes)
bpkg_get_all_hashes-perm_example = bpkg_get_all_hashes-perm two_chunks two_chunks-IsPackage

all_chunk_hashes_from_hash_lem_example :
    ((among (65 ∷ []) two_chunks.tree.root ≡ false)
      × (bpkg_get_all_chunk_hashes_from_hash two_chunks (65 ∷ []) ≡ none))
    ⊎ ((among (65 ∷ []) two_chunks.tree.root ≡ true)
        × (d : NodeData) × (l : Tree) × (r : Tree) × (str_eq d.value (65 ∷ []) ≡ true)
        × Below (node d l r) two_chunks.tree.root
        × (bpkg_get_all_chunk_hashes_from_hash two_chunks (65 ∷ [])
            ≡ some (counted_query (leaves (node d l r)))))
all_chunk_hashes_from_hash_lem_example = all_chunk_hashes_from_hash_lem two_chunks (65 ∷ [])
