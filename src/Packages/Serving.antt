-- ===== src/Packages/Serving.antt =====
-- The answer to a REQ packet: the first call of `get_data_from_file` (project/src/package.c), which looks
-- the chunk up and opens the file, and the handler in project/src/peer.c.
pub mod Opens
mod Tests
use bittorrent_implementatio.Prelude.{
  ℕ, suc, ◌+◌, ◌*◌, ◌^◌, ◌<◌, ◌≤◌, ◌≡◌, refl, sym, ap, ◌∙◌, ◌⊎◌, inl, inr, Bool, true, false,
  Option, none, some, List, [], ◌∷◌, ◌++◌, CString, str_eq, leb, if◌then◌else◌, length, get_elem?,
  drop, map, ◌>>=◌, arith,
}
use bittorrent_implementatio.Strings.{strip_whitespace, c_text}
use bittorrent_implementatio.Merkle.{Tree, Chunk}
use bittorrent_implementatio.Merkle.Marks.{mark}
use bittorrent_implementatio.Pkgchk.{BpkgObj, Files, slots, compute_hashes_for_chunks}
use bittorrent_implementatio.Packages.{
  ManagedPackages, same_ident, InMemory, in_package, no_chunk, no_package, calculate_data_len,
  chunk_in_memory,
}
use bittorrent_implementatio.Packets.{Request, Piece, serve}

-- `chunk->node_ptr->computed_hash`
abbrev pub computed_at : ℕ → Tree → Option CString
computed_at k root = get_elem? (mark k root) 0

-- The loop over the array of chunks that looks for one with this computed hash.
unfoldable pub has_computed : CString → Tree → List (Option Chunk) → Option Bool
has_computed hash root [] = some false
has_computed hash root (none ∷ cs) = none
has_computed hash root (some c ∷ cs) = do
  k ← c.node_ptr
  computed ← computed_at k root
  elim (str_eq computed hash) [ true ↦ some true | false ↦ has_computed hash root cs ]

-- The package that `chunk_in_memory` chose, as it is afterwards.
unfoldable pub replace_first : CString → BpkgObj → List (Option BpkgObj) → List (Option BpkgObj)
replace_first ident new [] = []
replace_first ident new (none ∷ ps) = none ∷ replace_first ident new ps
replace_first ident new (some p ∷ ps) =
    let rest = replace_first ident new ps in
    if same_ident ident p then some new ∷ ps else some p ∷ rest

-- The file, at the offset: what can be read from it, or `some none` for null.
unfoldable pub open_at : Files → BpkgObj → CString → ℕ → Option (Option (List ℕ))
open_at files p hash offset = do
  range ← calculate_data_len p hash (some offset)
  elim range [
    | none ↦ some none
    | some args ↦ elim (files p.filename) [
      | none ↦ some none
      | some content ↦ some (some (drop args.file_offset content))
    ]
  ]

-- What is done with the answer of `chunk_in_memory`. Whether the length fits is not asked.
unfoldable pub open_found :
    Files
    → ManagedPackages
    → CString
    → CString
    → ℕ
    → InMemory
    → Option (ManagedPackages × Option (List ℕ))
unfolding has_computed open_at
open_found files m ident hash offset no_chunk = some (m, none)
open_found files m ident hash offset no_package = some (m, none)
open_found files m ident hash offset (in_package p) = do
  p' ← compute_hashes_for_chunks files p
  found ← has_computed hash p'.tree.root (slots p')
  opened ← if found then open_at files p' hash offset else some none
  some (record m { managed_array = replace_first ident p' m.managed_array }, opened)

-- `get_data_from_file` with a null `file`.
unfoldable pub get_data_open :
    Files → ManagedPackages → CString → CString → ℕ → Option (ManagedPackages × Option (List ℕ))
unfolding open_found
get_data_open files m ident hash offset =
    chunk_in_memory m ident hash >>= open_found files m ident hash offset

-- The REQ handler: the packets without the error bit that it sends, or `none` if it sends one with it. `behind` is
-- the memory behind the array `hash`, which is not ended by a NUL.
unfoldable pub handle_req :
    Files → ManagedPackages → List ℕ → Request → Option (ManagedPackages × Option (List Piece))
handle_req files m behind r = do
  (m', file) ← get_data_open files m (c_text r.ident) (c_text (r.hash ++ behind)) r.offset
  elim file [
    | none ↦ some (m', none)
    | some rest ↦ do
      pieces ← serve r.req_len 0 r.req_len r.offset (some rest)
      some (m', some pieces)
  ]
