-- ===== src/Merkle.antt =====
-- project/src/tree/merkletree.c and project/include/tree/merkletree.h: the tree of a package.
-- A node's address is modelled by its key, which `insert_node` makes unique (`Merkle.Keys`): a
-- parent pointer is the parent's key, and a chunk's `node_ptr` the key of its leaf. `null` is the
-- null pointer, and the result `none` is an access outside of the memory that was allocated.
pub mod Built
pub mod Keys
pub mod MinHash
pub mod Frontier
pub mod Marks
pub mod Traverse
mod Tests
use bittorrent_implementatio.Prelude.{
  ℕ, zero, suc, ◌+◌, ◌-◌, ◌*◌, ◌/◌, Bool, true, false, Option, none, some, List, [], ◌∷◌, ◌++◌,
  CString, str_eq, ltb, leb, ◌==◌, if◌then◌else◌, get_elem?, set, ◌>>=◌,
}

-- The fields of `struct merkle_tree_node` but for its children. `computed_hash` is the text that
-- `strcmp` reads there.
pub record NodeData : Type 0 where
  pub key : ℕ
  pub value : CString
  pub parent : Option ℕ
  pub is_leaf : Bool
  pub computed_hash : CString

pub data Tree : Type 0 where
  null : Tree
  node : NodeData → Tree → Tree → Tree

-- `struct chunks`
pub record Chunk : Type 0 where
  pub hash : CString
  pub offset : ℕ
  pub size : ℕ
  pub node_ptr : Option ℕ

abbrev pub branch_data : ℕ → CString → Option ℕ → NodeData
branch_data i v p = record { key = i; value = v; parent = p; is_leaf = false; computed_hash = [] }

abbrev pub leaf_data : ℕ → CString → Option ℕ → NodeData
leaf_data i v p = record { key = i; value = v; parent = p; is_leaf = true; computed_hash = [] }

-- The visitors write at `hashes[*i]` and add one to `*i`: the list holds the entries written.
abbrev pub Visitor : Type 0
Visitor = NodeData → List CString → List CString

unfoldable pub inorder_search : Visitor → Tree → List CString → List CString
inorder_search f null hashes = hashes
inorder_search f (node d left right) hashes =
    inorder_search f right (f d (inorder_search f left hashes))

unfoldable pub inorder_find_node : Tree → CString → Tree
inorder_find_node null hash = null
inorder_find_node (node d left right) hash = elim (inorder_find_node left hash) [
  | node d' l r ↦ node d' l r
  | null ↦ elim (str_eq d.value hash) [
    | true ↦ node d left right
    | false ↦ inorder_find_node right hash
  ]
]

-- `p->value`
abbrev pub value_of : Tree → Option CString
value_of null = none
value_of (node d left right) = some d.value

-- What `min_hash_find` does at a node that is no leaf, after the calls on its children.
unfoldable pub min_hash_join :
    NodeData → Tree → Tree → Bool → Bool → List CString → Option (Bool × List CString)
min_hash_join d left right true true hashes = elim d.parent [
  | none ↦ some (true, hashes ++ (d.value ∷ []))
  | some p ↦ some (true, hashes)
]
min_hash_join d left right true false hashes = do
  v ← value_of left
  some (false, hashes ++ (v ∷ []))
min_hash_join d left right false true hashes = do
  v ← value_of right
  some (false, hashes ++ (v ∷ []))
min_hash_join d left right false false hashes = some (false, hashes)

unfoldable pub min_hash_find : Tree → List CString → Option (Bool × List CString)
unfolding min_hash_join
min_hash_find null hashes = none
min_hash_find (node d left right) hashes = elim d.is_leaf [
  | true ↦ some (str_eq d.computed_hash d.value, hashes)
  | false ↦ do
    (left_complete, hashes₁) ← min_hash_find left hashes
    (right_complete, hashes₂) ← min_hash_find right hashes₁
    min_hash_join d left right left_complete right_complete hashes₂
]

-- The fuel bounds the depth: the index at least doubles on the way down.
unfoldable pub insert_node :
    ℕ → List CString → ℕ → Option ℕ → ℕ → List Chunk → Option (Tree × List Chunk)
insert_node zero hashes n parent i chunks = none
insert_node (suc fuel) hashes n parent i chunks = elim (ltb i n) [
  | true ↦ do
    value ← get_elem? hashes i
    (left, chunks₁) ← insert_node fuel hashes n (some i) (2 * i + 1) chunks
    (right, chunks₂) ← insert_node fuel hashes n (some i) (2 * i + 2) chunks₁
    some (node (branch_data i value parent) left right, chunks₂)
  | false ↦ do
    chunk ← get_elem? chunks (i - n)
    some (
      node (leaf_data i chunk.hash parent) null null,
      set chunks (i - n) (record chunk { node_ptr = some i }),
    )
]

-- `struct merkle_tree`
pub record MerkleTree : Type 0 where
  pub root : Tree
  pub n_nodes : ℕ

-- The tree, and the chunk array with its `node_ptr`s set.
unfoldable pub create_tree : List CString → ℕ → List Chunk → ℕ → Option (MerkleTree × List Chunk)
create_tree hashes nhashes chunks nchunks = do
  (root, chunks') ← insert_node (suc nhashes) hashes nhashes none 0 chunks
  some (record { root = root; n_nodes = nhashes + nchunks }, chunks')

-- Where `computed_hash` begins in a node, with an `int` of 4 bytes and pointers of 8: behind the key, 4 bytes that
-- align the pointers, the four pointers and `is_leaf`.
abbrev computed_offset : ℕ
computed_offset = 4 + 4 + 4 * 8 + 4

-- SHA256_HEXLEN
abbrev sha256_hexlen : ℕ
sha256_hexlen = 64

-- `sizeof(struct merkle_tree_node)`, a multiple of the size of a pointer.
abbrev node_size : ℕ
node_size = (computed_offset + sha256_hexlen + 7) / 8 * 8

-- The bytes from `computed_hash` to the end of the node's memory: the array, and 4 of padding.
abbrev computed_room : ℕ
computed_room = node_size - computed_offset

-- SHA256_CHUNK_SIZE_WTH_NLL, the bytes of `final_hash`: the digest in hexadecimal and its NUL
abbrev sha256_chunk_size_wth_nll : ℕ
sha256_chunk_size_wth_nll = 65

-- `p->computed_hash = hash` at the node of key `k`.
unfoldable pub set_computed : ℕ → CString → Tree → Tree
set_computed k hash null = null
set_computed k hash (node d left right) =
    node (if d.key == k then record d { computed_hash = hash } else d) (set_computed k hash left)
      (set_computed k hash right)

-- The loop that copies `final_hash`, its NUL too, which goes behind the array. A write behind the node's memory is
-- no result.
unfoldable pub copy_hash : ℕ → CString → Tree → Option Tree
copy_hash k hash tree =
    if leb sha256_chunk_size_wth_nll computed_room then some (set_computed k hash tree) else none
