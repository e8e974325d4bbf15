-- ===== src/Pkgchk/AllHashes.antt =====
-- `bpkg_get_all_hashes` on the object of a package, before and after its hashes are computed.
use mathlib.Core.List.{Perm}
use mathlib.Core.List.Perm
use bittorrent_implementatio.Prelude.{
  ℕ, zero, suc, ◌+◌, ◌-◌, ◌*◌, ◌≡◌, refl, sym, ap, ap₂, subst, ◌∙◌, Option, List, [], ◌∷◌, ◌++◌,
  map, map-append, CString, length, length-append, length-map, length-perm, get_or_of_elem,
  get_elem?-append_left, get_elem?-append_right, get_elem?-map, get_or, range_from, arith,
}
use bittorrent_implementatio.Merkle.{Tree, Chunk}
use bittorrent_implementatio.Merkle.Built.{Built, branch, leaf, Plain, plain_chunk, plain}
use bittorrent_implementatio.Merkle.Keys.{IsTreeOf, keys-perm}
use bittorrent_implementatio.Merkle.Traverse.{collect, keys, inorder_search-collect}
use bittorrent_implementatio.Merkle.Marks.{blank, collect-blank}
use bittorrent_implementatio.Pkgchk.{BpkgObj, all_hash_func, bpkg_get_all_hashes}

-- The object of a well-formed package: its counts, and its tree but for the computed hashes.
pub record IsPackage (b : BpkgObj) : Type 0 where
  pub hash_count : b.nhashes ≡ length b.hashes
  pub chunk_count : b.nchunks ≡ length b.chunks
  pub shape : IsTreeOf b.hashes b.chunks (blank b.tree.root)

abbrev pub values : Tree → List CString
values = collect (λ d. d.value ∷ [])

-- The hash that belongs to a position of the tree.
abbrev pub named : List CString → List Plain → ℕ → CString
named hashes chunks k = get_or (hashes ++ map (λ c. c.0) chunks) k []

map-range_suc {ℓ} :
    {B : Type ℓ} (f : ℕ → B) (i n : ℕ)
    → map f (range_from (suc i) n) ≡ map (λ k. f (suc k)) (range_from i n)
unfolding range_from
map-range_suc f i zero = refl
map-range_suc f i (suc n) = ap (◌∷◌ (f (suc i))) (map-range_suc f (suc i) n)

-- Reading a list off by its positions gives the list.
map-get_or : (xs : List CString) → map (λ k. get_or xs k []) (range_from 0 (length xs)) ≡ xs
unfolding range_from
map-get_or [] = refl
map-get_or (x ∷ xs) =
    ap (◌∷◌ x) (map-range_suc (λ k. get_or (x ∷ xs) k []) 0 (length xs) ∙ map-get_or xs)

module _ {chunks : List Plain} (hashes : List CString) where
  values-named :
      {i : ℕ} {p : Option ℕ} {t : Tree}
      → Built hashes chunks (length hashes) i p t
      → values t ≡ map (named hashes chunks) (keys t)
  unfolding collect
  values-named (branch {i = i} {l = l} {r = r} v h e bl br) =
      ap₂ (λ (xs ys : List CString). xs ++ (v ∷ ys)) (values-named bl) (values-named br)
      ∙ ap (λ w. map (named hashes chunks) (keys l) ++ (w ∷ map (named hashes chunks) (keys r)))
          (sym (get_or_of_elem _ i [] (get_elem?-append_left hashes _ i h ∙ e)))
      ∙ sym (map-append (named hashes chunks) (keys l) (i ∷ keys r))
  values-named (leaf {i = i} v o s h e) =
      ap (λ w. w ∷ [])
        (sym (
          get_or_of_elem _ i [] (
            get_elem?-append_right hashes _ i h
            ∙ get_elem?-map (λ (c : Plain). c.0) chunks (i - length hashes)
            ∙ rw e refl)))

module _ (b : BpkgObj) (v : IsPackage b) where
  abbrev all_values : List CString
  all_values = b.hashes ++ map (λ (c : Plain). c.0) (plain b.chunks)

  length-all_values : length all_values ≡ 2 * length b.hashes + 1
  length-all_values = omega (
    arith,
    length-append b.hashes (map (λ (c : Plain). c.0) (plain b.chunks)),
    length-map {0, 0} (plain b.chunks) (λ (c : Plain). c.0),
    length-map {0, 0} b.chunks plain_chunk,
    v.shape.fits,
  )

  values-perm : Perm (values b.tree.root) all_values
  values-perm =
      subst (λ xs. Perm xs all_values)
        (sym (values-named b.hashes v.shape.built)
          ∙ collect-blank (λ d. d.value ∷ []) (λ d. refl) b.tree.root)
        (subst (Perm (map (named b.hashes (plain b.chunks)) (keys (blank b.tree.root))))
          (ap (λ n. map (named b.hashes (plain b.chunks)) (range_from 0 n)) (sym length-all_values)
            ∙ map-get_or all_values)
          (Perm.map _ (keys-perm v.shape.built)))

  all_hashes-values : (bpkg_get_all_hashes b).hashes ≡ values b.tree.root
  unfolding bpkg_get_all_hashes all_hash_func
  all_hashes-values =
      inorder_search-collect all_hash_func (λ d. d.value ∷ []) (λ d hs. refl) b.tree.root []

  -- For a well-formed package, whatever hashes were computed, `bpkg_get_all_hashes` lists every
  -- hash of the package and of its chunks, each as often as the package has it, and nothing else;
  -- the length that it reports is that of the list, so its array is filled exactly.
  pub bpkg_get_all_hashes-perm :
      Perm (bpkg_get_all_hashes b).hashes (b.hashes ++ map (λ c. c.hash) b.chunks)
      × ((bpkg_get_all_hashes b).len ≡ length (bpkg_get_all_hashes b).hashes)
  unfolding bpkg_get_all_hashes
  bpkg_get_all_hashes-perm = (
    subst (Perm (bpkg_get_all_hashes b).hashes) (ap (◌++◌ b.hashes) (map_map b.chunks))
        (rw all_hashes-values values-perm),
    omega (
      arith,
      ap length all_hashes-values,
      length-perm values-perm,
      length-all_values,
      v.hash_count,
      v.chunk_count,
      v.shape.fits,
    ),
  )
    where
      map_map : (cs : List Chunk) → map (λ (c : Plain). c.0) (plain cs) ≡ map (λ c. c.hash) cs
      map_map [] = refl
      map_map (c ∷ cs) = ap (◌∷◌ c.hash) (map_map cs)
