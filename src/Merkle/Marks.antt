-- ===== src/Merkle/Marks.antt =====
-- The computed hashes as marks on a tree: `set_computed` changes nothing but them.
use bittorrent_implementatio.Prelude.{
  ℕ, ◌≡◌, refl, sym, ap, map, map-append, length, length-append, count, count-append, ap₂, ◌∙◌,
  Option, some, List, [], ◌∷◌, ◌++◌, CString, ◌==◌, if◌then◌else◌, arith,
}
use bittorrent_implementatio.Merkle.{
  Tree, null, node, NodeData, branch_data, set_computed, copy_hash,
}
use bittorrent_implementatio.Merkle.Traverse.{collect, keys}
use bittorrent_implementatio.Merkle.Built.{Built, branch, leaf, Plain}

-- The digest and its NUL fit in the node's memory.
pub copy_hash-set_computed :
    (k : ℕ) (h : CString) (t : Tree) → copy_hash k h t ≡ some (set_computed k h t)
unfolding copy_hash
copy_hash-set_computed k h t = ground arith

-- The tree without its computed hashes.
unfoldable pub blank : Tree → Tree
blank null = null
blank (node d l r) = node (record d { computed_hash = [] }) (blank l) (blank r)

pub blank-set_computed : (k : ℕ) (h : CString) (t : Tree) → blank (set_computed k h t) ≡ blank t
unfolding blank set_computed
blank-set_computed k h null = refl
blank-set_computed k h (node d l r) =
    ground (arith, blank-set_computed k h l, blank-set_computed k h r)

pub Built-blank :
    {hashes : List CString} {chunks : List Plain} {n i : ℕ} {p : Option ℕ} {t : Tree}
    → Built hashes chunks n i p t
    → blank t ≡ t
unfolding blank
Built-blank (branch {i = i} {p = p} v h e l r) =
    ap₂ (node (branch_data i v p)) (Built-blank l) (Built-blank r)
Built-blank (leaf v o s h e) = refl

-- A visitor that does not read the computed hash sees the same tree.
pub collect-blank {ℓ} :
    {A : Type ℓ} (g : NodeData → List A)
    → ((d : NodeData) → g (record d { computed_hash = [] }) ≡ g d)
    → (t : Tree) → collect g (blank t) ≡ collect g t
unfolding blank collect
collect-blank g h null = refl
collect-blank g h (node d l r) = rw (collect-blank g h l, collect-blank g h r, h d) refl

-- The computed hashes of the nodes of key `k`.
unfoldable pub mark : ℕ → Tree → List CString
mark k null = []
mark k (node d l r) = mark k l ++ ((if d.key == k then d.computed_hash ∷ [] else []) ++ mark k r)

pub mark-set_computed :
    (k j : ℕ) (h : CString) (t : Tree)
    → mark k (set_computed j h t) ≡ (if k == j then map (λ _. h) (mark k t) else mark k t)
unfolding mark set_computed
mark-set_computed k j h null = ground arith
mark-set_computed k j h (node d l r) = ground (
  arith,
  mark-set_computed k j h l,
  mark-set_computed k j h r,
  map-append (λ (_ : CString). h) (mark k l)
      ((if d.key == k then d.computed_hash ∷ [] else []) ++ mark k r),
)

-- There are as many as the key occurs.
pub length-mark : (k : ℕ) (t : Tree) → length (mark k t) ≡ count k (keys t)
unfolding mark collect count
length-mark k null = refl
length-mark k (node d l r) = ground (
  arith,
  length-mark k l,
  length-mark k r,
  length-append (mark k l) ((if d.key == k then d.computed_hash ∷ [] else []) ++ mark k r),
  count-append k (keys l) (d.key ∷ keys r),
)

pub keys-set_computed : (k : ℕ) (h : CString) (t : Tree) → keys (set_computed k h t) ≡ keys t
keys-set_computed k h t =
    sym (collect-blank (λ d. d.key ∷ []) (λ d. refl) (set_computed k h t))
    ∙ ap keys (blank-set_computed k h t)
    ∙ collect-blank (λ d. d.key ∷ []) (λ d. refl) t
