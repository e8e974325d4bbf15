-- ===== src/Merkle/Traverse.antt =====
-- `inorder_search`, whatever it visits: the entries of the left subtree, the node's, the right's.
use bittorrent_implementatio.Prelude.{
  ℕ, ◌≡◌, refl, sym, List, [], ◌∷◌, ◌++◌, map, append_assoc, append-nil, map-append, CString,
}
use bittorrent_implementatio.Merkle.{Tree, null, node, NodeData, Visitor, inorder_search}

-- The entries that a visitor writes, in order, if it writes `g d` at the node `d`.
unfoldable pub collect {ℓ} : {A : Type ℓ} → (NodeData → List A) → Tree → List A
collect g null = []
collect g (node d l r) = collect g l ++ (g d ++ collect g r)

pub inorder_search-collect :
    (f : Visitor) (g : NodeData → List CString)
    → ((d : NodeData) (hashes : List CString) → f d hashes ≡ hashes ++ g d)
    → (t : Tree) (hashes : List CString) → inorder_search f t hashes ≡ hashes ++ collect g t
unfolding inorder_search collect
inorder_search-collect f g h null hashes = sym (append-nil hashes)
inorder_search-collect f g h (node d l r) hashes =
    rw (inorder_search-collect f g h l hashes, h, inorder_search-collect f g h r)
      (simp append_assoc)

-- The keys, in the order of `inorder_search`.
abbrev pub keys : Tree → List ℕ
keys = collect (λ d. d.key ∷ [])

pub map-collect {ℓ κ} :
    {A : Type ℓ} {B : Type κ} (f : A → B) (g : NodeData → List A) (t : Tree)
    → map f (collect g t) ≡ collect (λ d. map f (g d)) t
unfolding collect
map-collect f g null = refl
map-collect f g (node d l r) = simp (map-append, map-collect f g l, map-collect f g r)
