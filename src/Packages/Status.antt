-- ===== src/Packages/Status.antt =====
-- `package_status` of project/src/package.c: which packages it prints as complete.
pub mod Completes
use bittorrent_implementatio.Prelude.{
  ℕ, suc, ◌+◌, ◌*◌, ◌^◌, ◌<◌, ◌≡◌, refl, ap, ◌∙◌, Bool, true, false, ◌&&◌, Option, none, some, List,
  [], ◌∷◌, CString, str_eq, ◌==◌, ltb, if◌then◌else◌, length, take, ◌>>=◌, arith,
}
use bittorrent_implementatio.Merkle.{Tree, null, node, NodeData, value_of}
use bittorrent_implementatio.Pkgchk.{BpkgObj, BpkgQuery, Files, bpkg_get_min_completed_hashes}
use bittorrent_implementatio.Packages.{ManagedPackages}

-- A line that it prints: the number, at most 32 characters of the identifier, the file's name and whether the package is complete.
pub record StatusLine : Type 0 where
  pub counter : ℕ
  pub ident : CString
  pub filename : CString
  pub is_complete : Bool

-- `(qry->len > 0) && strcmp(qry->hashes[0], root->value) == 0`
abbrev pub first_is : CString → List CString → Bool
first_is root_hash [] = false
first_is root_hash (h ∷ hs) = str_eq h root_hash

unfoldable pub package_line : Files → ℕ → BpkgObj → Option (BpkgObj × StatusLine)
package_line files counter p = do
  (p', qry) ← bpkg_get_min_completed_hashes files p
  root_hash ← value_of p'.tree.root
  some (
    p',
    record {
      counter = counter;
      ident = take 32 p'.ident;
      filename = p'.filename;
      is_complete = first_is root_hash qry.hashes;
    },
  )

-- The loop over the array: what it prints, and the packages with their hashes computed.
unfoldable pub status_loop :
    Files → ℕ → List (Option BpkgObj) → Option (List (Option BpkgObj) × List StatusLine)
unfolding package_line
status_loop files counter [] = some ([], [])
status_loop files counter (none ∷ ps) = do
  (ps', lines) ← status_loop files counter ps
  some (none ∷ ps', lines)
status_loop files counter (some p ∷ ps) = do
  (p', line) ← package_line files counter p
  (ps', lines) ← status_loop files (suc counter) ps
  some (some p' ∷ ps', line ∷ lines)

-- With no package managed it returns 0, without a look at the array.
unfoldable pub package_status :
    Files → ManagedPackages → Option (ℕ × ManagedPackages × List StatusLine)
unfolding status_loop
package_status files m = if m.size == 0 then some (0, m, []) else do
  (ps, lines) ← status_loop files 1 m.managed_array
  some (1, record m { managed_array = ps }, lines)
