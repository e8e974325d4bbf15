-- ===== src/Pkgmain/Tests.antt =====
-- The package checker on a package file of one chunk, and an instance of the theorem on it.
use bittorrent_implementatio.Prelude.{
  ◌≡◌, refl, true, some, List, [], ◌∷◌, ◌++◌, map, CString, arith,
}
use mathlib.Core.List.{Perm}
use bittorrent_implementatio.Strings.{is_any_space, isspace}
use bittorrent_implementatio.Strings.Lines.{all_word-IsWord}
use bittorrent_implementatio.Pkgchk.{Files}
use bittorrent_implementatio.Load.RoundTrip.{Package, print_package, IsPrintable}
use bittorrent_implementatio.Pkgmain.{flag_all_hashes, prints, main}
use bittorrent_implementatio.Pkgmain.Prints.{main-all_hashes}

abbrev small : Package
small = record {
  ident = 112 ∷ [];
  filename = 102 ∷ [];
  size = 4;
  hashes = [];
  chunks = (66 ∷ [], 0, 4) ∷ [];
}

small-IsPrintable : IsPrintable small
unfolding is_any_space isspace
small-IsPrintable = record {
  ident_word = all_word-IsWord (112 ∷ []) refl;
  ident_short = omega arith;
  filename_word = all_word-IsWord (102 ∷ []) refl;
  filename_short = omega arith;
  size_fits = omega arith;
  hashes_good = tt;
  chunks_good = ((tt, all_word-IsWord (66 ∷ []) refl, omega arith, omega arith, omega arith), tt);
  count = refl;
  count_fits = omega arith;
}

abbrev small_file : Files
small_file name = some (print_package small)

main-all_hashes_example :
    (hs : List CString) × (main true small_file ([] ∷ [] ∷ flag_all_hashes ∷ []) ≡ some (prints hs))
    × Perm hs (small.hashes ++ map (λ c. c.0) small.chunks)
main-all_hashes_example = main-all_hashes small small-IsPrintable true small_file [] [] refl
