-- ===== src/Packages.antt =====
-- The packages that a peer manages: project/src/package.c and project/include/net/packages.h. An operation is one
-- step, as it runs if no other thread changes the packages meanwhile. `package_lock` makes sure of that in
-- add_package, remove_package, package_status, calculate_data_len and chunk_in_memory, which hold it throughout.
-- add_data_to_file and get_data_from_file do not: they use the package that chunk_in_memory chose without the lock.
pub mod Managed
pub mod Ranges
pub mod Search
pub mod Writes
pub mod Transfer
pub mod Fetch
pub mod Serving
pub mod Status
pub mod Counts
mod Tests
use bittorrent_implementatio.Prelude.{
  ℕ, zero, suc, ◌+◌, ◌-◌, ◌*◌, ◌%◌, ◌^◌, Bool, true, false, ◌&&◌, ◌||◌, Option, none, some, List,
  [], ◌∷◌, ◌++◌, CString, str_eq, strn_eq, ltb, leb, ◌==◌, if◌then◌else◌, length, get_elem?, set,
  take, drop, map, replicate, ◌>>=◌,
}
use bittorrent_implementatio.Merkle.{Chunk, Tree, value_of}
use bittorrent_implementatio.Pkgchk.{
  BpkgObj, BpkgQuery, Files, slots, bpkg_file_check, bpkg_get_all_chunk_hashes_from_hash,
}

-- `struct managed_packages`: `none` is the null pointer, and `capacity` the length of the array.
pub record ManagedPackages : Type 0 where
  pub managed_array : List (Option BpkgObj)
  pub size : ℕ

-- The first entry that is null gets the package; the result is whether there was one.
unfoldable pub put_first : BpkgObj → List (Option BpkgObj) → Bool × List (Option BpkgObj)
put_first bpkg [] = (false, [])
put_first bpkg (none ∷ ps) = (true, some bpkg ∷ ps)
put_first bpkg (some p ∷ ps) = let (done, ps') = put_first bpkg ps in (done, some p ∷ ps')

-- What `add_package` does where every entry is taken. A write behind the array is no result.
unfoldable pub add_resized : Bool → BpkgObj → ManagedPackages → Option (ℕ × ManagedPackages)
add_resized false bpkg m = some (0, m)
add_resized true bpkg m =
    let grown =
      m.managed_array ++ replicate (length m.managed_array * 2 - length m.managed_array) none in
    if ltb m.size (length grown)
    then some (1, record { managed_array = set grown m.size (some bpkg); size = suc m.size })
    else none

-- `loaded` is what `bpkg_load` returns, `memory` whether `realloc` finds room, and `creatable`
-- whether the package's file can be made.
unfoldable pub add_package :
    Option BpkgObj → Bool → Bool → Files → ManagedPackages → Option (ℕ × Files × ManagedPackages)
add_package none memory creatable files m = some (0, files, m)
add_package (some bpkg) memory creatable files m =
    let (checked, files', bpkg') = bpkg_file_check creatable files bpkg in
    let (done, ps) = put_first bpkg' m.managed_array in
    elim done [
      | true ↦ some (1, files', record { managed_array = ps; size = suc m.size })
      | false ↦ do (ret, m') ← add_resized memory bpkg' m; some (ret, files', m')
    ]

abbrev pub same_ident : CString → BpkgObj → Bool
same_ident ident p = strn_eq 20 p.ident ident

-- The first package of the identifier is taken out; the result is whether there was one.
unfoldable pub take_out : CString → List (Option BpkgObj) → Bool × List (Option BpkgObj)
take_out ident [] = (false, [])
take_out ident (none ∷ ps) = let (found, ps') = take_out ident ps in (found, none ∷ ps')
take_out ident (some p ∷ ps) =
    let (found, ps') = take_out ident ps in
    if same_ident ident p then (true, none ∷ ps) else (found, some p ∷ ps')

unfoldable pub remove_package : ManagedPackages → CString → ℕ × ManagedPackages
remove_package m ident =
    let (found, ps) = take_out ident m.managed_array in
    if found then (1, record { managed_array = ps; size = m.size - 1 }) else (0, m)

-- `struct req_args`, but for the two texts that the caller fills in.
pub record ReqArgs : Type 0 where
  pub data_len : ℕ
  pub file_offset : ℕ

-- `chunk_end` is a `uint32_t`.
abbrev pub chunk_end : Chunk → ℕ
chunk_end c = (c.offset + c.size) % 2 ^ 32

-- A chunk with the hash, and with the offset if one is given.
abbrev pub serves : CString → Option ℕ → Chunk → Bool
serves hash none c = str_eq c.hash hash
serves hash (some offset) c =
    str_eq c.hash hash && (leb c.offset offset && leb offset (chunk_end c))

abbrev pub args_of : Option ℕ → Chunk → ReqArgs
args_of none c = record { data_len = c.size; file_offset = c.offset }
args_of (some offset) c = record { data_len = chunk_end c - offset; file_offset = offset }

-- The loop over the array of chunks. The result `none` is a read through a null entry, `some none` the null pointer.
unfoldable pub len_loop : List (Option Chunk) → CString → Option ℕ → Option (Option ReqArgs)
len_loop [] hash offset = some none
len_loop (none ∷ cs) hash offset = none
len_loop (some c ∷ cs) hash offset =
    if serves hash offset c then some (some (args_of offset c)) else len_loop cs hash offset

unfoldable pub calculate_data_len : BpkgObj → CString → Option ℕ → Option (Option ReqArgs)
calculate_data_len bpkg hash offset = len_loop (slots bpkg) hash offset

-- The results 1, with the package, -1 and -2 of `chunk_in_memory`.
pub data InMemory : Type 0 where
  in_package : BpkgObj → InMemory
  no_chunk no_package : InMemory

abbrev pub has_hash : CString → List CString → Bool
has_hash hash [] = false
has_hash hash (h ∷ hs) = str_eq h hash || has_hash hash hs

-- The result `none` is a read through a null pointer.
unfoldable pub find_chunk : CString → CString → List (Option BpkgObj) → Option InMemory
find_chunk ident hash [] = some no_package
find_chunk ident hash (none ∷ ps) = find_chunk ident hash ps
find_chunk ident hash (some p ∷ ps) = elim (same_ident ident p) [
  | false ↦ find_chunk ident hash ps
  | true ↦ do
    root_hash ← value_of p.tree.root
    qry ← bpkg_get_all_chunk_hashes_from_hash p root_hash
    some (if has_hash hash qry.hashes then in_package p else no_chunk)
]

unfoldable pub chunk_in_memory : ManagedPackages → CString → CString → Option InMemory
chunk_in_memory m ident hash = find_chunk ident hash m.managed_array

-- The fields of `struct res_args` that `add_data_to_file` reads; `payload` is its array `data`.
pub record ResArgs : Type 0 where
  pub data_recieved : ℕ
  pub ident : CString
  pub chunk_hash : CString
  pub file_offset : ℕ
  pub payload : List ℕ

-- `fseek` and `fwrite` of one or more bytes on a file opened with "r+b": a gap is filled with zeros.
abbrev pub write_at : List ℕ → ℕ → List ℕ → List ℕ
write_at content off block =
    take off (content ++ replicate (off - length content) 0)
    ++ (block ++ drop (off + length block) content)

-- A write of no bytes leaves the file as it is, wherever it stands.
unfoldable pub write_block : List ℕ → ℕ → List ℕ → List ℕ
write_block content off [] = content
write_block content off (b ∷ bs) = write_at content off (b ∷ bs)

-- The write itself: `written` is how many bytes `fwrite` gets on the disk. A read behind the array
-- `payload` is no result.
unfoldable pub write_data : ℕ → Files → BpkgObj → ReqArgs → ResArgs → Option Files
write_data written files bpkg args res = elim (files bpkg.filename) [
  | none ↦ some files
  | some content ↦ elim (leb res.data_recieved (length res.payload)) [
    | false ↦ none
    | true ↦ some (λ name.
        if str_eq name bpkg.filename
        then some (
            write_block content args.file_offset
              (take written (take res.data_recieved res.payload)))
        else files name)
  ]
]

-- What `add_data_to_file` does once it knows the package.
unfoldable pub store_data : ℕ → Files → BpkgObj → ResArgs → Option Files
store_data written files bpkg res = do
  range ← calculate_data_len bpkg res.chunk_hash (some res.file_offset)
  elim range [
    | none ↦ some files
    | some args ↦
        if (args.file_offset == res.file_offset) && leb res.data_recieved args.data_len
        then write_data written files bpkg args res
        else some files
  ]

unfoldable pub add_data_to_file : ℕ → Files → ManagedPackages → ResArgs → Option Files
add_data_to_file written files m res = do
  ret ← chunk_in_memory m res.ident res.chunk_hash
  elim ret [
    | no_chunk ↦ some files
    | no_package ↦ some files
    | in_package bpkg ↦ store_data written files bpkg res
  ]
