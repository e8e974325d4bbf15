-- ===== src/Pkgchk/Samples.antt =====
-- A package of two chunks (the objects of project/src/chk/pkgchk.c), for the runs of the test modules.
use bittorrent_implementatio.Prelude.{
  ℕ, zero, suc, ◌+◌, ◌<◌, ◌≡◌, refl, none, some, List, [], ◌∷◌, arith,
}
use bittorrent_implementatio.Merkle.{Tree, null, node, Chunk, branch_data, leaf_data}
use bittorrent_implementatio.Merkle.Built.{branch, leaf, link}
use bittorrent_implementatio.Merkle.Marks.{blank}
use bittorrent_implementatio.Pkgchk.{BpkgObj, Files}
use bittorrent_implementatio.Pkgchk.AllHashes.{IsPackage}

abbrev pub first_chunk : Chunk
first_chunk = record { hash = 66 ∷ []; offset = 0; size = 1; node_ptr = some 1 }

abbrev pub second_chunk : Chunk
second_chunk = record { hash = 67 ∷ []; offset = 1; size = 1; node_ptr = some 2 }

abbrev pub package_tree : Tree
package_tree =
    node (branch_data 0 (65 ∷ []) none) (node (leaf_data 1 (66 ∷ []) (some 0)) null null)
      (node (leaf_data 2 (67 ∷ []) (some 0)) null null)

abbrev pub two_chunks : BpkgObj
two_chunks = record {
  ident = 112 ∷ [];
  filename = 102 ∷ [];
  size = 2;
  nhashes = 1;
  hashes = (65 ∷ []) ∷ [];
  nchunks = 2;
  chunks = first_chunk ∷ second_chunk ∷ [];
  tree = record { root = package_tree; n_nodes = 3 };
}

abbrev pub two_bytes : List ℕ
two_bytes = 97 ∷ 98 ∷ []

abbrev pub every_file : Files
every_file name = some two_bytes

linked_chunks : (j : ℕ) → j < 2 → link (first_chunk ∷ second_chunk ∷ []) j ≡ some (j + 1)
linked_chunks zero h = refl
linked_chunks (suc zero) h = refl
linked_chunks (suc (suc j)) h = absurd (omega arith)

pub two_chunks-IsPackage : IsPackage two_chunks
unfolding blank
two_chunks-IsPackage = record {
  hash_count = refl;
  chunk_count = refl;
  shape = record {
    fits = refl;
    built =
        branch (65 ∷ []) (omega arith) refl (leaf (66 ∷ []) 0 1 (omega arith) refl)
          (leaf (67 ∷ []) 1 1 (omega arith) refl);
    linked = linked_chunks;
  };
}
