-- ===== src/Packages/Search.antt =====
-- `chunk_in_memory` of project/src/package.c: the search for a package and a chunk never faults.
use bittorrent_implementatio.Prelude.{
  ◌≡◌, refl, ap, inl, inr, Bool, true, false, Bool-cases, Option, none, some, List, [], ◌∷◌,
  CString, str_eq_refl, if◌then◌else◌, arith,
}
use bittorrent_implementatio.Merkle.{value_of, Tree, node, NodeData}
use bittorrent_implementatio.Pkgchk.{
  BpkgObj, BpkgQuery, counted_query, bpkg_get_all_chunk_hashes_from_hash,
}
use bittorrent_implementatio.Pkgchk.Queries.{all_chunk_hashes_from_hash_lem, among}
use bittorrent_implementatio.Merkle.Frontier.{leaves}
use bittorrent_implementatio.Packages.{
  same_ident, InMemory, in_package, no_chunk, no_package, has_hash, find_chunk,
}
use bittorrent_implementatio.Packages.Managed.{packages}
use bittorrent_implementatio.Packages.Ranges.{Among, first, later}

-- The tree of every managed package has a root.
abbrev pub Rooted : List (Option BpkgObj) → Type 0
Rooted [] = Unit {0}
Rooted (none ∷ ps) = Rooted ps
Rooted (some p ∷ ps) =
    ((d : NodeData) × (l : Tree) × (r : Tree) × (p.tree.root ≡ node d l r)) × Rooted ps

-- The query for the hash of the root finds a node.
root_query :
    (p : BpkgObj) (d : NodeData) (l r : Tree)
    → p.tree.root ≡ node d l r
    → (q : BpkgQuery) × (bpkg_get_all_chunk_hashes_from_hash p d.value ≡ some q)
root_query p d l r e = elim (all_chunk_hashes_from_hash_lem p d.value) [
  | inl (m, _) ↦ absurd (ground (arith, ap (among d.value) e, str_eq_refl d.value))
  | inr (_, d', l', r', _, _, q) ↦ (counted_query (leaves (node d' l' r')), q)
]

-- The three answers of `chunk_in_memory`.
pub data Answers (ident hash : CString) (ps : List (Option BpkgObj)) : InMemory → Type 0 where
  chosen :
      {p : BpkgObj}
      → Among p (packages ps)
      → same_ident ident p ≡ true
      → Answers ident hash ps (in_package p)
  unknown_chunk : Answers ident hash ps no_chunk
  unknown_package : Answers ident hash ps no_package

skip_null :
    {ident hash : CString} {ps : List (Option BpkgObj)} {ret : InMemory}
    → Answers ident hash ps ret
    → Answers ident hash (none ∷ ps) ret
skip_null (chosen a s) = chosen a s
skip_null unknown_chunk = unknown_chunk
skip_null unknown_package = unknown_package

skip_other :
    {ident hash : CString} {ps : List (Option BpkgObj)} {ret : InMemory} (p : BpkgObj)
    → Answers ident hash ps ret
    → Answers ident hash (some p ∷ ps) ret
skip_other p (chosen a s) = chosen (later a) s
skip_other p unknown_chunk = unknown_chunk
skip_other p unknown_package = unknown_package

answer :
    (ident hash : CString) (p : BpkgObj) (ps : List (Option BpkgObj)) (b : Bool)
    → same_ident ident p ≡ true
    → Answers ident hash (some p ∷ ps) (if b then in_package p else no_chunk)
answer ident hash p ps true s = chosen first s
answer ident hash p ps false s = unknown_chunk

found_step :
    (ident hash : CString) (p : BpkgObj) (ps : List (Option BpkgObj)) (d : NodeData) (l r : Tree)
    (q : BpkgQuery)
    → same_ident ident p ≡ true
    → p.tree.root ≡ node d l r
    → bpkg_get_all_chunk_hashes_from_hash p d.value ≡ some q
    → find_chunk ident hash (some p ∷ ps)
      ≡ some (if has_hash hash q.hashes then in_package p else no_chunk)
unfolding find_chunk
found_step ident hash p ps d l r q y e f = rw (find_chunk, y, vr) (rw f refl)
  where
    vr : value_of p.tree.root ≡ some d.value
    vr = ap value_of e

pub find_chunk-Answers :
    (ident hash : CString) (ps : List (Option BpkgObj))
    → Rooted ps
    → (ret : InMemory) × (find_chunk ident hash ps ≡ some ret) × Answers ident hash ps ret
unfolding find_chunk
find_chunk-Answers ident hash [] t = (no_package, refl, unknown_package)
find_chunk-Answers ident hash (none ∷ ps) t =
    let (ret, e, a) = find_chunk-Answers ident hash ps t in (ret, e, skip_null a)
find_chunk-Answers ident hash (some p ∷ ps) ((d, l, r, e), t) =
    elim (Bool-cases (same_ident ident p)) [
      | inl y ↦
          let (q, f) = root_query p d l r e in
          (
            _,
            found_step ident hash p ps d l r q y e f,
            answer ident hash p ps (has_hash hash q.hashes) y,
          )
      | inr n ↦
          let (ret, f, a) = find_chunk-Answers ident hash ps t in
          (ret, rw (find_chunk, n) f, skip_other p a)
    ]
