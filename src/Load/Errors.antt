-- ===== src/Load/Errors.antt =====
-- What `bpkg_load` (project/src/chk/pkgchk.c) does with a line that it does not know.
use bittorrent_implementatio.Prelude.{
  ℕ, ◌≡◌, refl, Bool, true, false, ◌||◌, Option, none, some, List, CString, str_eq, arith,
}
use bittorrent_implementatio.Strings.{fgets}
use bittorrent_implementatio.Pkgchk.{Files}
use bittorrent_implementatio.Load.{
  Loading, empty, max_input_size, key_ident, key_filename, key_size, key_nhashes, key_hashes,
  key_nchunks, key_chunks, dispatch, split_line, load_loop, bpkg_load,
}

abbrev pub is_key : CString → Bool
is_key key =
    str_eq key key_ident
    || (str_eq key key_filename
        || (str_eq key key_size
            || (str_eq key key_nhashes
                || (str_eq key key_hashes || (str_eq key key_nchunks || str_eq key key_chunks)))))

dispatch_unknown :
    (dir : Option CString) (key : CString) (value : Option CString) (st : Loading) (rest : List ℕ)
    → is_key key ≡ false
    → dispatch dir key value st rest ≡ some (true, st, rest)
unfolding dispatch
dispatch_unknown dir key value st rest h = ground arith

module _ (files : Files) (path : CString) (dir : Option CString) (content : List ℕ)
    (opened : files path ≡ some content) where
  -- A package file whose first line has a key that is none of the seven makes `bpkg_load` free
  -- fields that it has never stored: the behaviour is undefined.
  pub bpkg_load_unknown :
      (line : CString) (rest : List ℕ) (key : CString) (value : Option CString)
      → fgets max_input_size content ≡ some (line, rest)
      → split_line line ≡ some (key, value)
      → is_key key ≡ false
      → bpkg_load files path dir ≡ none
  unfolding bpkg_load load_loop
  bpkg_load_unknown line rest key value f s h =
      rw (opened, bpkg_load)
        (rw (f, load_loop) (rw s (rw (dispatch_unknown dir key value empty rest h) refl)))
