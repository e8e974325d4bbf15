-- ===== src/Merkle/Keys.antt =====
-- The numbering of a built tree: each position from 0 to 2n occurs exactly once.
use bittorrent_implementatio.Prelude.{
  ℕ, zero, suc, ◌+◌, ◌-◌, ◌*◌, ◌/◌, ◌≤◌, ◌<◌, ◌≡◌, refl, sym, ap, subst, ◌∙◌, none, some, length,
  length-map, length-range_from, length-perm, Option, List, ◌∷◌, CString, ltb, leb, ◌==◌,
  if◌then◌else◌, count, count-append, range_from, count-range_from, perm_of_count, arith,
}
use mathlib.Core.List.{Perm}
use bittorrent_implementatio.Merkle.{Tree, Chunk, MerkleTree, insert_node, create_tree}
use bittorrent_implementatio.Merkle.Traverse.{collect, keys}
use bittorrent_implementatio.Merkle.Built.{
  Built, branch, leaf, Plain, plain_chunk, plain, link, Inserts, insert_node-Inserts,
}

-- 1 if the way from position `k` up to the root passes position `i`, else 0. The fuel is at least `k`.
hits : ℕ → ℕ → ℕ → ℕ
hits zero i k = if k == i then 1 else 0
hits (suc f) i k =
    let up = hits f i ((k - 1) / 2) in if k == i then 1 else if ltb i k then up else 0

hits_above : (f i k : ℕ) → k < i → hits f i k ≡ 0
unfolding hits
hits_above zero i k h = ground arith
hits_above (suc f) i k h = ground arith

-- A way through `i` ends there, or comes from exactly one of its two children.
hits_split :
    (f i k : ℕ)
    → k ≤ f
    → hits f i k ≡ (if k == i then 1 else 0) + hits f (2 * i + 1) k + hits f (2 * i + 2) k
unfolding hits
hits_split zero i k h = ground arith
hits_split (suc f) i k h = ground (
  arith,
  hits_split f i ((k - 1) / 2),
  hits_above f (2 * i + 1) ((k - 1) / 2),
  hits_above f (2 * i + 2) ((k - 1) / 2),
)

hits_root : (f k : ℕ) → k ≤ f → hits f 0 k ≡ 1
unfolding hits
hits_root zero k h = ground arith
hits_root (suc f) k h = ground (arith, hits_root f ((k - 1) / 2))

-- A position of the last row has no positions of the tree below it.
hits_leaf : (f n i k : ℕ) → n ≤ i → k ≤ 2 * n → hits f i k ≡ (if k == i then 1 else 0)
unfolding hits
hits_leaf zero n i k hi hk = refl
hits_leaf (suc f) n i k hi hk = ground (arith, hits_above f i ((k - 1) / 2))

module _ {hashes : List CString} {chunks : List Plain} {n : ℕ} where
  count-keys :
      (f k : ℕ) {i : ℕ} {p : Option ℕ} {t : Tree}
      → k ≤ f
      → i ≤ 2 * n
      → Built hashes chunks n i p t
      → count k (keys t) ≡ (if leb k (2 * n) then hits f i k else 0)
  unfolding collect count
  count-keys f k {i} hf hi (branch {l = l} {r = r} v h e bl br) = ground (
    arith,
    count-append k (keys l) (i ∷ keys r),
    count-keys f k hf (omega arith) bl,
    count-keys f k hf (omega arith) br,
    hits_split f i k,
  )
  count-keys f k {i} hf hi (leaf v o s h e) = ground (arith, hits_leaf f n i k)

  -- Each position up to 2n is the key of one node.
  pub count_key :
      (k : ℕ) {p : Option ℕ} {t : Tree}
      → Built hashes chunks n 0 p t
      → k ≤ 2 * n
      → count k (keys t) ≡ 1
  count_key k b le = ground (arith, count-keys k k (omega arith) (omega arith) b, hits_root k k)

  -- The keys of the whole tree are the numbers 0, ..., 2n, each once, in some order.
  pub keys-perm :
      {p : Option ℕ} {t : Tree}
      → Built hashes chunks n 0 p t
      → Perm (keys t) (range_from 0 (2 * n + 1))
  keys-perm {t = t} b = perm_of_count (keys t) (range_from 0 (2 * n + 1)) (λ a. ground (
    arith,
    count-keys a a (omega arith) (omega arith) b,
    hits_root a a,
    count-range_from a 0 (2 * n + 1),
  ))

  -- The tree has 2n + 1 nodes.
  pub length-keys :
      {p : Option ℕ} {t : Tree} → Built hashes chunks n 0 p t → length (keys t) ≡ 2 * n + 1
  length-keys b = length-perm (keys-perm b) ∙ length-range_from 0 (2 * n + 1)

-- The tree over the hashes and the chunks of a package, with each chunk's pointer to its leaf.
pub record IsTreeOf (hashes : List CString) (chunks : List Chunk) (t : Tree) : Type 0 where
  pub fits : length chunks ≡ suc (length hashes)
  pub built : Built hashes (plain chunks) (length hashes) 0 none t
  pub linked : (j : ℕ) → j < length chunks → link chunks j ≡ some (j + length hashes)

-- On a package with one chunk more than hashes, `create_tree` never faults: it returns the complete
-- binary tree over them, points each chunk to its leaf, changes nothing else of the chunks, and
-- counts the nodes right.
pub create_tree-IsTreeOf :
    (hashes : List CString) (chunks : List Chunk)
    → length chunks ≡ suc (length hashes)
    → (t : MerkleTree) × (after : List Chunk) × (create_tree hashes
          (length hashes)
          chunks
          (length chunks)
        ≡ some (t, after))
      × IsTreeOf hashes after t.root
      × (plain after ≡ plain chunks)
      × (t.n_nodes ≡ length (keys t.root))
unfolding create_tree
create_tree-IsTreeOf hashes chunks h = (
  record { root = r.tree; n_nodes = length hashes + length chunks },
  r.after,
  ground (arith, r.returns),
  record {
    fits = same_length ∙ h;
    built = subst (λ cs. Built hashes cs (length hashes) 0 none r.tree) (sym r.frame) r.built;
    linked = λ j hj. ground (
      arith,
      r.links j,
      count-keys (j + length hashes) (j + length hashes) (omega arith) (omega arith) r.built,
      hits_root (j + length hashes) (j + length hashes),
      same_length,
      h,
    );
  },
  r.frame,
  omega (arith, length-keys r.built, h),
)
  where
    r :
        Inserts hashes
          (length hashes)
          none
          0
          chunks
          (insert_node (suc (length hashes)) hashes (length hashes) none 0 chunks)
    r =
        insert_node-Inserts (suc (length hashes)) hashes (length hashes) none 0 chunks (omega arith)
          (omega arith) (omega arith) (omega (arith, length-map {0, 0} chunks plain_chunk, h))
          (omega arith)

    same_length : length r.after ≡ length chunks
    same_length = omega (
      arith,
      length-map {0, 0} chunks plain_chunk,
      length-map {0, 0} r.after plain_chunk,
      ap length r.frame,
    )
