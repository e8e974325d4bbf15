-- ===== src/Packages/Serving/Tests.antt =====
-- A managed package of two chunks, and instances of the theorems on it.
use bittorrent_implementatio.Prelude.{◌≡◌, refl, ◌⊎◌, true, none, some, [], ◌∷◌, take, arith}
use bittorrent_implementatio.Strings.{strip_whitespace}
use bittorrent_implementatio.Merkle.MinHash.{complete}
use bittorrent_implementatio.Pkgchk.{BpkgObj, compute_hashes_for_chunks}
use bittorrent_implementatio.Pkgchk.Samples.{
  first_chunk, two_chunks, two_bytes, every_file, two_chunks-IsPackage,
}
use bittorrent_implementatio.Packages.{ManagedPackages}
use bittorrent_implementatio.Packages.Status.{StatusLine, package_line}
use bittorrent_implementatio.Packages.Status.Completes.{root_again, package_line_lem}

abbrev one_managed : ManagedPackages
one_managed = record { managed_array = none ∷ some two_chunks ∷ []; size = 1 }

package_line_lem_example :
    (b' : BpkgObj) × (line : StatusLine) × (compute_hashes_for_chunks every_file two_chunks
      ≡ some b')
    × (package_line every_file 1 two_chunks ≡ some (b', line))
    × (line.counter ≡ 1)
    × (line.ident ≡ take 32 two_chunks.ident)
    × (line.filename ≡ strip_whitespace two_chunks.filename)
    × ((line.is_complete ≡ complete b'.tree.root) ⊎ (root_again b'.tree.root ≡ true))
package_line_lem_example =
    package_line_lem every_file two_chunks two_chunks-IsPackage first_chunk two_bytes refl refl
      (omega arith) (omega arith) (omega arith) 1 (omega arith)
