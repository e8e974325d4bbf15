-- ===== src/Pkgchk/Queries.antt =====
-- The queries that walk the tree: `bpkg_get_completed_chunks`, `bpkg_get_min_completed_hashes` and
-- `bpkg_get_all_chunk_hashes_from_hash` of project/src/chk/pkgchk.c.
use mathlib.Core.List.{Perm}
use bittorrent_implementatio.Prelude.{
  ℕ, ◌<◌, ◌≡◌, refl, ap, ◌∙◌, ◌⊎◌, inl, inr, Bool, true, false, ◌||◌, Bool-cases, Option, none,
  some, List, [], ◌++◌, append-nil, map, CString, str_eq, length, arith,
}
use bittorrent_implementatio.Merkle.{
  Tree, null, node, NodeData, inorder_search, inorder_find_node, min_hash_find,
}
use bittorrent_implementatio.Merkle.Built.{Built, branch, leaf, Plain}
use bittorrent_implementatio.Merkle.Marks.{blank}
use bittorrent_implementatio.Merkle.Traverse.{inorder_search-collect}
use bittorrent_implementatio.Merkle.MinHash.{frontier, value_or, complete, min_hash_find-frontier}
use bittorrent_implementatio.Merkle.Frontier.{leaf_value, leaves, blank-Full}
use bittorrent_implementatio.Pkgchk.{
  BpkgObj, counted_query, get_chunks_from_hash_func, query_below,
  bpkg_get_all_chunk_hashes_from_hash,
}

leaves-visitor :
    (t : Tree) (hs : List CString) → inorder_search get_chunks_from_hash_func t hs ≡ hs ++ leaves t
leaves-visitor t hs =
    inorder_search-collect get_chunks_from_hash_func leaf_value
      (λ d hs. unfold get_chunks_from_hash_func in ground (arith, append-nil hs)) t hs

abbrev leaf_flag : Tree → Bool
leaf_flag null = true
leaf_flag (node d l r) = d.is_leaf

Built-branch :
    {hashes : List CString} {chunks : List Plain} {n i : ℕ} {p : Option ℕ} {t : Tree}
    → Built hashes chunks n i p t
    → i < n
    → leaf_flag t ≡ false
Built-branch (branch v h e l r) lt = refl
Built-branch (leaf v o s h e) lt = absurd (omega arith)

top :
    {hashes : List CString} {chunks : List Plain} {n : ℕ} (d : NodeData) (l r : Tree)
    → Built hashes chunks n 0 none (blank (node d l r))
    → 0 < n
    → d.is_leaf ≡ false
unfolding blank
top d l r b pos = Built-branch b pos

-- What `min_hash_find` gives on the tree of a package with more than one chunk.
pub min_hashes :
    {hashes : List CString} {chunks : List Plain} (t : Tree)
    → Built hashes chunks (length hashes) 0 none (blank t)
    → 0 < length hashes
    → (written : List CString) × (min_hash_find t [] ≡ some (complete t, written))
      × Perm written (map value_or (frontier t))
min_hashes null b pos = absurd (blank-Full null b)
min_hashes (node d l r) b pos =
    min_hash_find-frontier d l r [] (blank-Full (node d l r) b) (top d l r b pos)

-- A subtree of a tree.
pub data Below (t : Tree) : Tree → Type 0 where
  here : Below t t
  left : {d : NodeData} {l r : Tree} → Below t l → Below t (node d l r)
  right : {d : NodeData} {l r : Tree} → Below t r → Below t (node d l r)

-- A node of the tree has the hash.
abbrev pub among : CString → Tree → Bool
among hash null = false
among hash (node d l r) = among hash l || (str_eq d.value hash || among hash r)

pub record Finds (hash : CString) (t : Tree) (d : NodeData) (l r : Tree) : Type 0 where
  pub found : inorder_find_node t hash ≡ node d l r
  pub equal : str_eq d.value hash ≡ true
  pub below : Below (node d l r) t

find_result :
    (t : Tree) (hash : CString)
    → ((inorder_find_node t hash ≡ null) × (among hash t ≡ false))
      ⊎ ((d : NodeData) × (l : Tree) × (r : Tree) × Finds hash t d l r × (among hash t ≡ true))
find_result null hash = inl (unfold inorder_find_node in refl, refl)
find_result (node d l r) hash = elim (find_result l hash) [
  | inr (d', l', r', f, m) ↦ inr (
    d',
    l',
    r',
    record {
      found = unfold inorder_find_node in rw f.found refl;
      equal = f.equal;
      below = left f.below;
    },
    ground (arith, m),
  )
  | inl (e, m) ↦ elim (Bool-cases (str_eq d.value hash)) [
    | inl y ↦ inr (
      d,
      l,
      r,
      record { found = unfold inorder_find_node in rw (e, y) refl; equal = y; below = here },
      ground (arith, m),
    )
    | inr n ↦ elim (find_result r hash) [
      | inl (e', m') ↦ inl (unfold inorder_find_node in rw (e, n) e', ground (arith, m, m'))
      | inr (d', l', r', f, m') ↦ inr (
        d',
        l',
        r',
        record {
          found = unfold inorder_find_node in rw (e, n) f.found;
          equal = f.equal;
          below = right f.below;
        },
        ground (arith, m, m'),
      )
    ]
  ]
]

-- `bpkg_get_all_chunk_hashes_from_hash` returns null exactly if no node of the tree has the hash.
-- Otherwise a subtree has the hash at its top, and the query lists the hashes of the leaves of that
-- subtree from left to right.
pub all_chunk_hashes_from_hash_lem :
    (b : BpkgObj) (hash : CString)
    → ((among hash b.tree.root ≡ false) × (bpkg_get_all_chunk_hashes_from_hash b hash ≡ none))
      ⊎ ((among hash b.tree.root ≡ true)
          × (d : NodeData) × (l : Tree) × (r : Tree) × (str_eq d.value hash ≡ true)
          × Below (node d l r) b.tree.root
          × (bpkg_get_all_chunk_hashes_from_hash b hash
              ≡ some (counted_query (leaves (node d l r)))))
unfolding bpkg_get_all_chunk_hashes_from_hash
all_chunk_hashes_from_hash_lem b hash = elim (find_result b.tree.root hash) [
  | inl (e, m) ↦ inl (m, ap query_below e)
  | inr (d, l, r, f, m) ↦ inr (
    m,
    d,
    l,
    r,
    f.equal,
    f.below,
    ap query_below f.found ∙ ap (λ q. some (counted_query q)) (leaves-visitor (node d l r) []),
  )
]
