-- ===== src/Packages/Tests.antt =====
-- A peer with one package of one chunk, and instances of the theorems on it.
use mathlib.Core.List.{Perm}
use bittorrent_implementatio.Prelude.{
  take, drop, ◌*◌, ◌≡◌, refl, ◌⊎◌, true, none, some, List, ℕ, [], ◌∷◌, str_eq, strn_eq, ltb,
  if◌then◌else◌, length, arith,
}
use bittorrent_implementatio.Merkle.{null, node, Chunk, leaf_data}
use bittorrent_implementatio.Merkle.{inorder_find_node, inorder_search}
use bittorrent_implementatio.Pkgchk.{
  bpkg_get_all_chunk_hashes_from_hash, get_chunks_from_hash_func, BpkgObj, Files, bpkg_file_check,
}
use bittorrent_implementatio.Packages.{
  chunk_in_memory, find_chunk, ManagedPackages, ResArgs, add_package, remove_package,
  add_data_to_file,
}
use bittorrent_implementatio.Packages.Managed.{
  packages, IsManaged, without, has_ident, add_package_lem, remove_package_lem,
}
use bittorrent_implementatio.Packages.Fetch.{receive, fetch_lem}
use bittorrent_implementatio.Packets.{Piece, serve}
use bittorrent_implementatio.Packages.Writes.{Writes, add_data_to_file-Writes}

abbrev only_chunk : Chunk
only_chunk = record { hash = 66 ∷ []; offset = 0; size = 4; node_ptr = some 0 }

abbrev small_package : BpkgObj
small_package = record {
  ident = 112 ∷ [];
  filename = 102 ∷ [];
  size = 4;
  nhashes = 0;
  hashes = [];
  nchunks = 1;
  chunks = only_chunk ∷ [];
  tree = record { root = node (leaf_data 0 (66 ∷ []) none) null null; n_nodes = 1 };
}

abbrev one_managed : ManagedPackages
one_managed = record { managed_array = some small_package ∷ []; size = 1 }

one_managed-IsManaged : IsManaged one_managed
one_managed-IsManaged = record { counted = refl; room = omega arith }

abbrev four_bytes : Files
four_bytes name = some (1 ∷ 2 ∷ 3 ∷ 4 ∷ [])

-- Two bytes for the middle of the chunk.
abbrev middle : ResArgs
middle = record {
  data_recieved = 2;
  ident = 112 ∷ [];
  chunk_hash = 66 ∷ [];
  file_offset = 1;
  payload = 8 ∷ 9 ∷ 0 ∷ [];
}

add_package_lem_example :
    (m' : ManagedPackages) × (add_package (some small_package) true true four_bytes one_managed
      ≡ some (1, (bpkg_file_check true four_bytes small_package).1, m'))
    × Perm
        (packages m'.managed_array)
        ((bpkg_file_check true four_bytes small_package).2 ∷ packages one_managed.managed_array)
    × IsManaged m'
    × (length m'.managed_array ≡ (
        if ltb one_managed.size (length one_managed.managed_array)
        then length one_managed.managed_array
        else length one_managed.managed_array * 2))
add_package_lem_example =
    add_package_lem small_package true four_bytes one_managed one_managed-IsManaged

remove_package_lem_example :
    ((remove_package one_managed (112 ∷ [])).0
      ≡ (if has_ident (112 ∷ []) (packages one_managed.managed_array) then 1 else 0))
    × (packages (remove_package one_managed (112 ∷ [])).1.managed_array
        ≡ without (112 ∷ []) (packages one_managed.managed_array))
    × IsManaged (remove_package one_managed (112 ∷ [])).1
    × (length (remove_package one_managed (112 ∷ [])).1.managed_array
        ≡ length one_managed.managed_array)
remove_package_lem_example = remove_package_lem one_managed (112 ∷ []) one_managed-IsManaged

add_data_to_file-Writes_example :
    (files' : Files) × (add_data_to_file 2 four_bytes one_managed middle ≡ some files')
    × ((files' ≡ four_bytes) ⊎ Writes one_managed middle four_bytes files')
add_data_to_file-Writes_example =
    add_data_to_file-Writes 2 four_bytes one_managed middle (omega arith)
      ((leaf_data 0 (66 ∷ []) none, null, null, refl), tt) ((refl, (omega arith, tt)), tt)

fetch_lem_example :
    (ps : List Piece) × (files' : Files) × (after : List ℕ) × (serve only_chunk.size 0
        only_chunk.size only_chunk.offset
        (some (drop only_chunk.offset (5 ∷ 6 ∷ 7 ∷ 8 ∷ [])))
      ≡ some ps)
    × (receive four_bytes one_managed (112 ∷ []) (66 ∷ []) ps ≡ some files')
    × (files' small_package.filename ≡ some after)
    × (take only_chunk.size (drop only_chunk.offset after)
        ≡ take only_chunk.size (drop only_chunk.offset (5 ∷ 6 ∷ 7 ∷ 8 ∷ [])))
unfolding chunk_in_memory find_chunk strn_eq str_eq bpkg_get_all_chunk_hashes_from_hash
    inorder_find_node inorder_search get_chunks_from_hash_func
fetch_lem_example =
    fetch_lem one_managed (112 ∷ []) (66 ∷ []) small_package only_chunk refl refl (omega arith)
      (5 ∷ 6 ∷ 7 ∷ 8 ∷ []) (1 ∷ 2 ∷ 3 ∷ 4 ∷ []) four_bytes refl (omega arith) (omega arith)
      (omega arith)
