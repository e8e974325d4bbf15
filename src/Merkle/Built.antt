-- ===== src/Merkle/Built.antt =====
-- The shape of what `insert_node` builds: a complete binary tree, numbered as in a heap, whose
-- first `n` nodes carry the package's hashes and whose leaves carry the hashes of its chunks.
use bittorrent_implementatio.Prelude.{
  ℕ, zero, suc, ◌+◌, ◌-◌, ◌*◌, ◌≤◌, ◌<◌, ◌≡◌, refl, sym, ◌∙◌, inl, inr, true, false, Bool-cases,
  subst, ltb→lt, Option, some, List, map, CString, ltb, if◌then◌else◌, ◌>>=◌, ◌∷◌, [], count,
  count-append, get_elem?-set_self, get_elem?-set_ne, length, length-map, get_elem?, get_elem?_lt,
  get_elem?-map, map-set_same, set, ◌>>=◌, arith,
}
use native.Mathlib.Decide.{ℕ_discrete}
use bittorrent_implementatio.Merkle.Traverse.{collect, keys}
use bittorrent_implementatio.Merkle.{Tree, null, node, Chunk, branch_data, leaf_data, insert_node}

-- What the file says of a chunk: all but the pointer.
abbrev pub Plain : Type 0
Plain = CString × ℕ × ℕ

abbrev pub plain_chunk : Chunk → Plain
plain_chunk c = (c.hash, c.offset, c.size)

abbrev pub plain : List Chunk → List Plain
plain = map plain_chunk

pub data Built (hashes : List CString) (chunks : List Plain) (n : ℕ)
    : ℕ → Option ℕ → Tree → Type 0 where
  branch :
      {i : ℕ} {p : Option ℕ} {l r : Tree} (v : CString)
      → i < n
      → get_elem? hashes i ≡ some v
      → Built hashes chunks n (2 * i + 1) (some i) l
      → Built hashes chunks n (2 * i + 2) (some i) r
      → Built hashes chunks n i p (node (branch_data i v p) l r)
  leaf :
      {i : ℕ} {p : Option ℕ} (v : CString) (offset size : ℕ)
      → n ≤ i
      → get_elem? chunks (i - n) ≡ some (v, offset, size)
      → Built hashes chunks n i p (node (leaf_data i v p) null null)

-- `chunks[j]->node_ptr`
abbrev pub link : List Chunk → ℕ → Option ℕ
link chunks j = do c ← get_elem? chunks j; c.node_ptr

pub record Inserts (hashes : List CString) (n : ℕ) (parent : Option ℕ) (i : ℕ) (chunks : List Chunk)
    (out : Option (Tree × List Chunk)) : Type 0 where
  pub tree : Tree
  pub after : List Chunk
  pub returns : out ≡ some (tree, after)
  pub built : Built hashes (plain chunks) n i parent tree
  pub frame : plain after ≡ plain chunks
  pub links :
      (j : ℕ)
      → link after j ≡ (if ltb 0 (count (j + n) (keys tree)) then some (j + n) else link chunks j)

count_ne : (k i : ℕ) (xs : List ℕ) → i < k → count k (i ∷ xs) ≡ count k xs
unfolding count
count_ne k i xs h = ground arith

-- Setting the pointer of the chunk at position `i` of the tree.
link-set :
    (chunks : List Chunk) (n i j : ℕ) (c : Chunk)
    → i - n < length chunks
    → c.node_ptr ≡ some i
    → n ≤ i
    → link (set chunks (i - n) c) j
      ≡ (if ltb 0 (count (j + n) (i ∷ [])) then some (j + n) else link chunks j)
unfolding count
link-set chunks n i j c h e le = elim (ℕ_discrete j (i - n)) [
  | yes q ↦ ground (arith, get_elem?-set_self chunks (i - n) c h)
  | no q ↦ ground (arith, get_elem?-set_ne chunks {i = i - n} {j = j} c (λ e. q (sym e)))
]

module _ (fuel : ℕ) (hashes : List CString) (n : ℕ) (parent : Option ℕ) (i : ℕ) where
  insert_leaf :
      (chunks : List Chunk)
      → ltb i n ≡ false
      → i - n < length (plain chunks)
      → Inserts hashes n parent i chunks (insert_node (suc fuel) hashes n parent i chunks)
  unfolding insert_node
  insert_leaf chunks outer h =
      let (c, e) =
        get_elem?_lt chunks (i - n) (omega (arith, length-map {0, 0} chunks plain_chunk)) in
      record {
        tree = node (leaf_data i c.hash parent) null null;
        after = set chunks (i - n) (record c { node_ptr = some i });
        returns = ground arith;
        built =
            leaf c.hash c.offset c.size (ground arith)
              (get_elem?-map plain_chunk chunks (i - n) ∙ rw e refl);
        frame = map-set_same plain_chunk chunks (i - n) _ e refl;
        links = λ j.
            link-set chunks n i j (record c { node_ptr = some i })
              (omega (arith, length-map {0, 0} chunks plain_chunk)) refl (ground arith)
            ∙ unfold collect in refl;
      }

  insert_branch :
      (chunks : List Chunk) (v : CString)
      → ltb i n ≡ true
      → get_elem? hashes i ≡ some v
      → (left : Inserts hashes n
          (some i)
          (2 * i + 1)
          chunks
          (insert_node fuel hashes n (some i) (2 * i + 1) chunks))
      → Inserts hashes n
          (some i)
          (2 * i + 2)
          left.after
          (insert_node fuel hashes n (some i) (2 * i + 2) left.after)
      → Inserts hashes n parent i chunks (insert_node (suc fuel) hashes n parent i chunks)
  unfolding insert_node
  insert_branch chunks v inner e left right = record {
    tree = node (branch_data i v parent) left.tree right.tree;
    after = right.after;
    returns = ground (arith, left.returns, right.returns);
    built =
        branch v (ground arith) e left.built
          (subst (λ cs. Built hashes cs n (2 * i + 2) (some i) right.tree) left.frame right.built);
    frame = right.frame ∙ left.frame;
    links = λ j.
        unfold collect in
        ground (
          arith,
          right.links j,
          left.links j,
          ltb→lt i n inner,
          count-append (j + n) (keys left.tree) (i ∷ keys right.tree),
          count_ne (j + n) i (keys right.tree),
        );
  }

-- With `n` hashes and more than `n` chunks, the call for a position of the tree returns.
pub insert_node-Inserts :
    (fuel : ℕ) (hashes : List CString) (n : ℕ) (parent : Option ℕ) (i : ℕ) (chunks : List Chunk)
    → n < i + fuel
    → i ≤ 2 * n
    → n ≤ length hashes
    → n < length (plain chunks)
    → 0 < fuel
    → Inserts hashes n parent i chunks (insert_node fuel hashes n parent i chunks)
insert_node-Inserts zero hashes n parent i chunks hf hi hh hc pos = absurd (omega arith)
insert_node-Inserts (suc fuel) hashes n parent i chunks hf hi hh hc pos =
    elim (Bool-cases (ltb i n)) [
      | inl inner ↦
          let lt : i < n = ltb→lt i n inner in
          let (v, e) = get_elem?_lt hashes i (omega arith) in
          let left =
            insert_node-Inserts fuel hashes n (some i) (2 * i + 1) chunks (omega arith)
              (omega arith) hh hc (omega arith) in
          insert_branch fuel hashes n parent i chunks v inner e left (
            insert_node-Inserts fuel hashes n (some i) (2 * i + 2) left.after (omega arith)
              (omega arith) hh (rw left.frame hc) (omega arith))
      | inr outer ↦ insert_leaf fuel hashes n parent i chunks outer (ground arith)
    ]
