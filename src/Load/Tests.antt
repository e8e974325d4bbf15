-- ===== src/Load/Tests.antt =====
-- A package file of one chunk and files that are none, and instances of the theorems on them.
use bittorrent_implementatio.Prelude.{
  ℕ, ◌≡◌, refl, none, some, List, [], ◌∷◌, CString, str_eq, arith,
}
use bittorrent_implementatio.Strings.{
  is_any_space, isspace, fgets, cut_line, c_text, strtok, first_token, skip_delim, split_delim,
  strip_whitespace, skip_space, cut_space,
}
use bittorrent_implementatio.Strings.Lines.{all_word-IsWord}
use bittorrent_implementatio.Merkle.Built.{plain}
use bittorrent_implementatio.Pkgchk.{BpkgObj, Files}
use bittorrent_implementatio.Pkgchk.AllHashes.{IsPackage}
use bittorrent_implementatio.Load.{in_dir, split_line, bpkg_load}
use bittorrent_implementatio.Load.RoundTrip.{Package, print_package, IsPrintable, bpkg_load-print}
use bittorrent_implementatio.Load.Errors.{bpkg_load_unknown}

abbrev small : Package
small = record {
  ident = 112 ∷ [];
  filename = 102 ∷ [];
  size = 4;
  hashes = [];
  chunks = (66 ∷ [], 0, 4) ∷ [];
}

small-IsPrintable : IsPrintable small
unfolding is_any_space isspace
small-IsPrintable = record {
  ident_word = all_word-IsWord (112 ∷ []) refl;
  ident_short = omega arith;
  filename_word = all_word-IsWord (102 ∷ []) refl;
  filename_short = omega arith;
  size_fits = omega arith;
  hashes_good = tt;
  chunks_good = ((tt, all_word-IsWord (66 ∷ []) refl, omega arith, omega arith, omega arith), tt);
  count = refl;
  count_fits = omega arith;
}

abbrev small_file : Files
small_file name = some (print_package small)

abbrev folder : CString
folder = 100 ∷ []

-- The line "x:1".
abbrev strange : List ℕ
strange = 120 ∷ 58 ∷ 49 ∷ 10 ∷ []

bpkg_load-print_example :
    (b : BpkgObj) × (bpkg_load small_file [] (some folder) ≡ some (some b))
    × IsPackage b
    × (b.ident ≡ small.ident)
    × (b.filename ≡ in_dir (some folder) small.filename)
    × (b.size ≡ small.size)
    × (b.hashes ≡ small.hashes)
    × (plain b.chunks ≡ small.chunks)
bpkg_load-print_example = bpkg_load-print (some folder) small small-IsPrintable small_file [] refl

bpkg_load_unknown_example : bpkg_load (λ name. some strange) [] none ≡ none
unfolding fgets cut_line c_text split_line strtok first_token skip_delim split_delim
    strip_whitespace skip_space cut_space is_any_space isspace str_eq
bpkg_load_unknown_example =
    bpkg_load_unknown (λ name. some strange) [] none strange refl strange [] (120 ∷ [])
      (some (49 ∷ [])) refl refl refl
