-- ===== src/Pkgmain.antt =====
-- The package checker: project/src/pkgmain.c.
pub mod Prints
mod Tests
use bittorrent_implementatio.Prelude.{
  ℕ, Bool, true, false, Option, none, some, List, [], ◌∷◌, map, CString, str_eq, ltb, leb, ◌==◌,
  if◌then◌else◌, length, get_elem?, take, ◌>>=◌,
}
use bittorrent_implementatio.Pkgchk.{
  BpkgObj, BpkgQuery, Files, FileCheck, bpkg_file_check, bpkg_get_all_hashes,
  bpkg_get_completed_chunks, bpkg_get_min_completed_hashes, bpkg_get_all_chunk_hashes_from_hash,
}
use bittorrent_implementatio.Load.{bpkg_load}

-- SHA256_HEX_LEN
abbrev pub sha256_hex_len : ℕ
sha256_hex_len = 65

-- What `arg_select` does: it ends the program, or returns the number of the flag, which is 0 for any other word, with the
-- hash that follows the flag 4.
pub data Selected : Type 0 where
  missing_flag missing_hash : Selected
  selects : ℕ → CString → Selected

abbrev pub flag_all_hashes : CString
flag_all_hashes = b'-' ∷ b'a' ∷ b'l' ∷ b'l' ∷ b'_' ∷ b'h' ∷ b'a' ∷ b's' ∷ b'h' ∷ b'e' ∷ b's' ∷ []

abbrev pub flag_chunk_check : CString
flag_chunk_check =
    b'-' ∷ b'c' ∷ b'h' ∷ b'u' ∷ b'n' ∷ b'k' ∷ b'_' ∷ b'c' ∷ b'h' ∷ b'e' ∷ b'c' ∷ b'k' ∷ []

abbrev pub flag_min_hashes : CString
flag_min_hashes = b'-' ∷ b'm' ∷ b'i' ∷ b'n' ∷ b'_' ∷ b'h' ∷ b'a' ∷ b's' ∷ b'h' ∷ b'e' ∷ b's' ∷ []

abbrev pub flag_hashes_of : CString
flag_hashes_of = b'-' ∷ b'h' ∷ b'a' ∷ b's' ∷ b'h' ∷ b'e' ∷ b's' ∷ b'_' ∷ b'o' ∷ b'f' ∷ []

abbrev pub flag_file_check : CString
flag_file_check = b'-' ∷ b'f' ∷ b'i' ∷ b'l' ∷ b'e' ∷ b'_' ∷ b'c' ∷ b'h' ∷ b'e' ∷ b'c' ∷ b'k' ∷ []

-- The flag 4 wants an argument more, of which 65 characters are copied: a longer one leaves `harg` without its NUL, and
-- the result is then `none`.
unfoldable pub select_hash : List CString → Option Selected
select_hash argv = elim (get_elem? argv 3) [
  | none ↦ some missing_hash
  | some h ↦ if ltb (length h) sha256_hex_len then some (selects 4 h) else none
]

unfoldable pub select_flag : List CString → CString → Option Selected
unfolding select_hash
select_flag argv cursor =
    if str_eq cursor flag_all_hashes
    then some (selects 1 [])
    else if str_eq cursor flag_chunk_check
    then some (selects 2 [])
    else if str_eq cursor flag_min_hashes
    then some (selects 3 [])
    else if str_eq cursor flag_hashes_of
    then select_hash argv
    else if str_eq cursor flag_file_check
    then some (selects 5 [])
    else some (selects 0 [])

-- `argv` has `argc` entries.
unfoldable pub arg_select : List CString → Option Selected
unfolding select_flag
arg_select argv = elim (get_elem? argv 2) [
  | none ↦ some missing_flag
  | some cursor ↦ select_flag argv cursor
]

-- `%.64s` of each hash that the query counts; the null query prints nothing.
unfoldable pub bpkg_print_hashes : BpkgQuery → Option (List CString)
bpkg_print_hashes q =
    if leb q.len (length q.hashes) then some (map (take 64) (take q.len q.hashes)) else none

-- What the program does: it ends with a status, or prints hashes, or the answer of the file check.
pub data Checked : Type 0 where
  exits_with : ℕ → Checked
  prints : List CString → Checked
  checks : FileCheck → Checked

abbrev pub printed : BpkgQuery → Option Checked
printed q = bpkg_print_hashes q >>= λ hs. some (prints hs)

-- The query for the number that `arg_select` gave; `main` returns 1 for any other.
unfoldable pub run_query : Bool → Files → ℕ → CString → BpkgObj → Option Checked
unfolding bpkg_print_hashes
run_query creatable files argselect hash obj =
    if argselect == 1
    then printed (bpkg_get_all_hashes obj)
    else if argselect == 2
    then (bpkg_get_completed_chunks files obj >>= λ r. printed r.1)
    else if argselect == 3
    then (bpkg_get_min_completed_hashes files obj >>= λ r. printed r.1)
    else if argselect == 4
    then elim (bpkg_get_all_chunk_hashes_from_hash obj hash) [
      | none ↦ some (prints [])
      | some q ↦ printed q
    ]
    else if argselect == 5
    then some (checks (bpkg_file_check creatable files obj).0)
    else some (exits_with 1)

-- With a package: the null pointer ends the program.
unfoldable pub run_loaded : Bool → Files → ℕ → CString → Option BpkgObj → Option Checked
unfolding run_query
run_loaded creatable files argselect hash none = some (exits_with 1)
run_loaded creatable files argselect hash (some obj) = run_query creatable files argselect hash obj

unfoldable pub run_selected : Bool → Files → List CString → Selected → Option Checked
unfolding run_loaded
run_selected creatable files argv missing_flag = some (exits_with 1)
run_selected creatable files argv missing_hash = some (exits_with 1)
run_selected creatable files argv (selects argselect hash) =
    if argselect == 0 then some (exits_with 0) else do
      path ← get_elem? argv 1
      loaded ← bpkg_load files path none
      run_loaded creatable files argselect hash loaded

unfoldable pub main : Bool → Files → List CString → Option Checked
unfolding arg_select run_selected
main creatable files argv = arg_select argv >>= run_selected creatable files argv
