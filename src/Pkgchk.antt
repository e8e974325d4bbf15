-- ===== src/Pkgchk.antt =====
-- The package object and its queries: project/src/chk/pkgchk.c and project/include/chk/pkgchk.h,
-- with `compute_hashes_for_chunks` of project/src/tree/merkletree.c. Memory is not modelled: a query
-- holds the entries written to its array. Files are a map from names to contents.
pub mod AllHashes
pub mod Completed
pub mod Queries
pub mod Samples
mod Tests
use bittorrent_implementatio.Prelude.{
  ℕ, zero, suc, ◌+◌, ◌-◌, ◌%◌, ◌^◌, Bool, true, false, ◌&&◌, Option, none, some, List, [], ◌∷◌,
  ◌++◌, CString, str_eq, ◌==◌, if◌then◌else◌, length, get_elem?, take, drop, map, replicate, ◌>>=◌,
}
use bittorrent_implementatio.Strings.{strip_whitespace}
use bittorrent_implementatio.Sha256.{
  Sha, sha256_compute_data_init, sha256_update, sha256_finalize, sha256_output_hex,
}
use bittorrent_implementatio.Merkle.{
  Tree, null, node, NodeData, Chunk, MerkleTree, Visitor, inorder_search, inorder_find_node,
  min_hash_find, copy_hash,
}

-- `struct bpkg_obj`. `chunks` has the entries that are not null: the parser fills the array from the front.
pub record BpkgObj : Type 0 where
  pub ident : CString
  pub filename : CString
  pub size : ℕ
  pub nhashes : ℕ
  pub hashes : List CString
  pub nchunks : ℕ
  pub chunks : List Chunk
  pub tree : MerkleTree

-- The array of `nchunks` pointers to chunks, null where no line was read.
abbrev pub slots : BpkgObj → List (Option Chunk)
slots b = map some b.chunks ++ replicate (b.nchunks - length b.chunks) none

-- `struct bpkg_query`
pub record BpkgQuery : Type 0 where
  pub hashes : List CString
  pub len : ℕ

-- The contents of a file that can be opened.
abbrev pub Files : Type 0
Files = CString → Option (List ℕ)

-- A query whose array holds `hashes`, with the counter for its length.
abbrev pub counted_query : List CString → BpkgQuery
counted_query hashes = record { hashes = hashes; len = length hashes }

unfoldable pub all_hash_func : Visitor
all_hash_func d hashes = hashes ++ (d.value ∷ [])

unfoldable pub bpkg_get_all_hashes : BpkgObj → BpkgQuery
unfolding all_hash_func
bpkg_get_all_hashes b = record {
  hashes = inorder_search all_hash_func b.tree.root [];
  len = b.nhashes + b.nchunks;
}

-- The hash of one block, over a buffer that an earlier block may have used.
unfoldable pub block_state : Sha → List ℕ → Sha
block_state sha block = sha256_finalize (sha256_update (sha256_compute_data_init sha) block)

-- The loop of `compute_hashes_for_chunks` from chunk `i` on: `chunks` are those from `i` on, and
-- `rest` is what is left of the file. A whole block behind the last chunk is a read through a null
-- entry or outside `chunks`. The stack is taken to have room for the block.
unfoldable pub compute_loop : ℕ → List Chunk → List ℕ → Sha → Tree → Option Tree
compute_loop buffer_size [] rest sha tree =
    if length (take buffer_size rest) == buffer_size then none else some tree
compute_loop buffer_size (c ∷ cs) rest sha tree =
    elim (length (take buffer_size rest) == buffer_size) [
      | false ↦ some tree
      | true ↦ do
        k ← c.node_ptr
        let sha' = block_state sha (take buffer_size rest)
        tree' ← copy_hash k (sha256_output_hex sha') tree
        compute_loop buffer_size cs (drop buffer_size rest) sha' tree'
    ]

-- `struct sha256_compute_data sha_buff = {0}`
abbrev pub zero_sha : Sha
zero_sha = record {
  data_size = 0;
  hcomps = replicate 8 0;
  last_chunk = replicate 64 0;
  chunk_size = 0;
}

unfoldable pub compute_hashes_for_chunks : Files → BpkgObj → Option BpkgObj
compute_hashes_for_chunks files b = do
  let b' = record b { filename = strip_whitespace b.filename }
  first ← get_elem? b.chunks 0
  elim (files b'.filename) [
    | none ↦ some b'
    | some content ↦ do
      root ← compute_loop first.size b.chunks content zero_sha b.tree.root
      some (record b' { tree = record { root = root; n_nodes = b.tree.n_nodes } })
  ]

unfoldable pub get_completed_chunks : Visitor
get_completed_chunks d hashes =
    if d.is_leaf
    then (if str_eq d.value d.computed_hash then hashes ++ (d.value ∷ []) else hashes)
    else hashes

unfoldable pub bpkg_get_completed_chunks : Files → BpkgObj → Option (BpkgObj × BpkgQuery)
unfolding get_completed_chunks
bpkg_get_completed_chunks files b = do
  b' ← compute_hashes_for_chunks files b
  some (b', counted_query (inorder_search get_completed_chunks b'.tree.root []))

unfoldable pub bpkg_get_min_completed_hashes : Files → BpkgObj → Option (BpkgObj × BpkgQuery)
bpkg_get_min_completed_hashes files b = do
  b' ← compute_hashes_for_chunks files b
  (complete, hashes) ← min_hash_find b'.tree.root []
  some (b', counted_query hashes)

unfoldable pub get_chunks_from_hash_func : Visitor
get_chunks_from_hash_func d hashes = if d.is_leaf then hashes ++ (d.value ∷ []) else hashes

-- What `bpkg_get_all_chunk_hashes_from_hash` makes of the node that it found.
abbrev pub query_below : Tree → Option BpkgQuery
query_below null = none
query_below (node d left right) =
    some (counted_query (inorder_search get_chunks_from_hash_func (node d left right) []))

-- The result `none` is the null pointer: no node has the hash.
unfoldable pub bpkg_get_all_chunk_hashes_from_hash : BpkgObj → CString → Option BpkgQuery
unfolding get_chunks_from_hash_func
bpkg_get_all_chunk_hashes_from_hash b hash = query_below (inorder_find_node b.tree.root hash)

-- The two answers of `bpkg_file_check`.
pub data FileCheck : Type 0 where
  file_exists file_created : FileCheck

-- `creatable` is whether the file can be opened for writing. It is made by a write of one byte at
-- `size - 1`, which is a `uint32_t`.
unfoldable pub bpkg_file_check : Bool → Files → BpkgObj → FileCheck × Files × BpkgObj
bpkg_file_check creatable files b =
    let b' = record b { filename = strip_whitespace b.filename } in
    elim (files b'.filename) [
      | some content ↦ (file_exists, files, b')
      | none ↦ (
        file_created,
        (λ name.
            if creatable && str_eq name b'.filename
            then some (replicate ((b.size + 2 ^ 32 - 1) % 2 ^ 32) 0 ++ (0 ∷ []))
            else files name),
        b',
      )
    ]
