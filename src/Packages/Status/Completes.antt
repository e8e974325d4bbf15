-- ===== src/Packages/Status/Completes.antt =====
-- Which packages `package_status` (project/src/package.c) prints as complete.
use mathlib.Core.List.{Perm, Permᴰ}
use mathlib.Core.Logic.{∥∥₁_elim}
use mathlib.Core.Bool.{Bool-set}
use bittorrent_implementatio.Prelude.{
  take, ℕ, ◌+◌, ◌*◌, ◌^◌, ◌<◌, ◌≡◌, refl, sym, ap, ap₂, ◌∙◌, ◌⊎◌, inl, inr, Bool, true, false, ◌||◌,
  Bool-cases, none, some, List, [], ◌∷◌, ◌++◌, map, map-append, CString, str_eq, str_eq_refl,
  length, length-perm, get_elem?, arith,
}
use bittorrent_implementatio.Strings.{strip_whitespace}
use bittorrent_implementatio.Merkle.{Tree, null, node, NodeData, Chunk, value_of}
use bittorrent_implementatio.Merkle.Built.{Built, Plain}
use bittorrent_implementatio.Merkle.Marks.{blank}
use bittorrent_implementatio.Merkle.Frontier.{blank-Full}
use bittorrent_implementatio.Pkgchk.Completed.{compute_hashes-marks}
use bittorrent_implementatio.Merkle.MinHash.{frontier, value_or, complete}
use bittorrent_implementatio.Pkgchk.{
  BpkgObj, Files, compute_hashes_for_chunks, bpkg_get_min_completed_hashes,
}
use bittorrent_implementatio.Pkgchk.AllHashes.{IsPackage}
use bittorrent_implementatio.Pkgchk.Queries.{among, min_hashes}
use bittorrent_implementatio.Packages.{has_hash}
use bittorrent_implementatio.Packages.Status.{StatusLine, first_is, package_line}

has_hash-append :
    (h : CString) (xs ys : List CString) → has_hash h (xs ++ ys) ≡ has_hash h xs || has_hash h ys
has_hash-append h [] ys = refl
has_hash-append h (x ∷ xs) ys = ground (arith, has_hash-append h xs ys)

-- The largest complete subtrees are nodes of the tree.
frontier-among :
    (h : CString) (t : Tree) → among h t ≡ false → has_hash h (map value_or (frontier t)) ≡ false
unfolding frontier
frontier-among h null e = refl
frontier-among h (node d l r) e = elim (Bool-cases (complete (node d l r))) [
  | inl y ↦ rw y (ground arith)
  | inr n ↦ elim (Bool-cases d.is_leaf) [
    | inl y ↦ rw (n, y) refl
    | inr m ↦
        rw
          (
            n,
            m,
            map-append value_or (frontier l) (frontier r),
            has_hash-append h (map value_or (frontier l)) (map value_or (frontier r)),
          )
          (ground (arith, frontier-among h l, frontier-among h r))
  ]
]

has_hash-permᴰ : (h : CString) {xs ys : List CString} → Permᴰ xs ys → has_hash h xs ≡ has_hash h ys
has_hash-permᴰ h Permᴰ.nil = refl
has_hash-permᴰ h (Permᴰ.cons e p) = ap₂ (λ x b. str_eq x h || b) e (has_hash-permᴰ h p)
has_hash-permᴰ h (Permᴰ.swap e f) = ground arith
has_hash-permᴰ h (Permᴰ.trans p q) = has_hash-permᴰ h p ∙ has_hash-permᴰ h q

has_hash-perm : (h : CString) {xs ys : List CString} → Perm xs ys → has_hash h xs ≡ has_hash h ys
has_hash-perm h {xs} {ys} p =
    ∥∥₁_elim p (Bool-set (has_hash h xs) (has_hash h ys)) (has_hash-permᴰ h)

first_is_one :
    (h : CString) (xs : List CString) → length xs ≡ 1 → has_hash h xs ≡ true → first_is h xs ≡ true
first_is_one h [] e y = absurd (omega arith)
first_is_one h (x ∷ []) e y = ground arith
first_is_one h (x ∷ z ∷ xs) e y = absurd (omega arith)

first_is_none : (h : CString) (xs : List CString) → has_hash h xs ≡ false → first_is h xs ≡ false
first_is_none h [] e = refl
first_is_none h (x ∷ xs) e = ground arith

-- Another node has the hash of the root.
abbrev pub root_again : Tree → Bool
root_again null = false
root_again (node d l r) = among d.value l || among d.value r

-- What the test on the query gives.
tested :
    (d : NodeData) (l r : Tree) (written : List CString)
    → Perm written (map value_or (frontier (node d l r)))
    → (first_is d.value written ≡ complete (node d l r)) ⊎ (root_again (node d l r) ≡ true)
unfolding frontier
tested d l r written p = elim (Bool-cases (complete (node d l r))) [
  | inl y ↦
      let q : Perm written (d.value ∷ []) = rw y at p in
      inl (
        first_is_one d.value written (length-perm q)
          (has_hash-perm d.value q ∙ ground (arith, str_eq_refl d.value))
        ∙ sym y)
  | inr n ↦ elim (Bool-cases (root_again (node d l r))) [
    | inl a ↦ inr a
    | inr m ↦ elim (Bool-cases d.is_leaf) [
      | inl y ↦
          let q : Perm written [] = rw (n, y) at p in
          inl (first_is_none d.value written (has_hash-perm d.value q) ∙ sym n)
      | inr k ↦
          let q : Perm written (map value_or (frontier l ++ frontier r)) = rw (n, k) at p in
          inl (
            first_is_none d.value written (
              has_hash-perm d.value q
              ∙ ap (has_hash d.value) (map-append value_or (frontier l) (frontier r))
              ∙ has_hash-append d.value (map value_or (frontier l)) (map value_or (frontier r))
              ∙ ground (arith, frontier-among d.value l, frontier-among d.value r))
            ∙ sym n)
    ]
  ]
]

root_test :
    {hashes : List CString} {chunks : List Plain} (t : Tree) (written : List CString)
    → Built hashes chunks (length hashes) 0 none (blank t)
    → Perm written (map value_or (frontier t))
    → (root_hash : CString) × (value_of t ≡ some root_hash)
      × ((first_is root_hash written ≡ complete t) ⊎ (root_again t ≡ true))
root_test null written b p = absurd (blank-Full null b)
root_test (node d l r) written b p = (d.value, refl, tested d l r written p)

module _ (files : Files) (b : BpkgObj) (v : IsPackage b) (first : Chunk) (content : List ℕ)
    (has_chunk : get_elem? b.chunks 0 ≡ some first)
    (opens : files (strip_whitespace b.filename) ≡ some content) (pos : 0 < first.size)
    (small : first.size + 64 < 2 ^ 32)
    (fits : length content < first.size + length b.chunks * first.size) where
  -- Nodes are laid out with pointers of 8 bytes, so that a digest's NUL falls in the padding
  -- behind `computed_hash`, and the stack has room for a block. For a well-formed package of
  -- several chunks whose file can be opened, the size of the first chunk being positive and below
  -- 2^32 - 64, and with no whole block of that size behind the last chunk, `package_status` gets
  -- past the package. It computes its hashes, and prints the number, the first 32 characters of
  -- the identifier and the file's name without the spaces around it; and unless another node of
  -- the tree has the hash of the root, it prints COMPLETED exactly if every chunk has its
  -- computed hash.
  pub package_line_lem :
      (counter : ℕ)
      → 0 < b.nhashes
      → (b' : BpkgObj) × (line : StatusLine) × (compute_hashes_for_chunks files b ≡ some b')
        × (package_line files counter b ≡ some (b', line))
        × (line.counter ≡ counter)
        × (line.ident ≡ take 32 b.ident)
        × (line.filename ≡ strip_whitespace b.filename)
        × ((line.is_complete ≡ complete b'.tree.root) ⊎ (root_again b'.tree.root ≡ true))
  unfolding package_line bpkg_get_min_completed_hashes
  package_line_lem counter several =
      let (b', e, v', _, same) =
        compute_hashes-marks files b v first content has_chunk opens pos small fits in
      let (written, find, perm) =
        min_hashes b'.tree.root v'.shape.built
          (omega (arith, v'.hash_count, ap (λ x. x.nhashes) same)) in
      let (root_hash, top, test) = root_test b'.tree.root written v'.shape.built perm in
      (
        b',
        record {
          counter = counter;
          ident = take 32 b'.ident;
          filename = b'.filename;
          is_complete = first_is root_hash written;
        },
        e,
        rw (e, find) (rw top refl),
        refl,
        ap (λ x. take 32 x.ident) same,
        ap (λ x. x.filename) same,
        test,
      )
