-- ===== src/Load/RoundTrip.antt =====
-- `bpkg_load` (project/src/chk/pkgchk.c) reads back every package that fits its buffers.
use bittorrent_implementatio.Prelude.{
  ℕ, suc, ◌+◌, ◌-◌, ◌^◌, ◌≤◌, ◌<◌, ◌≡◌, refl, sym, ap, subst, ◌∙◌, false, Option, some, List, [],
  ◌∷◌, map, CString, str_eq, lt→ltb, length, length-append, length-map, arith,
}
use bittorrent_implementatio.Strings.Lines.{IsWord, all_word-IsWord}
use bittorrent_implementatio.Strings.Fields.{field_line, fgets-field_line}
use bittorrent_implementatio.Strings.{fgets, is_any_space, isspace}
use bittorrent_implementatio.Strings.Decimal.{decimal, IsPrinted, decimal-IsPrinted}
use bittorrent_implementatio.Merkle.{Chunk, MerkleTree, create_tree}
use bittorrent_implementatio.Merkle.Built.{plain}
use bittorrent_implementatio.Merkle.Keys.{IsTreeOf, create_tree-IsTreeOf}
use bittorrent_implementatio.Merkle.Marks.{Built-blank}
use bittorrent_implementatio.Pkgchk.{BpkgObj, Files}
use bittorrent_implementatio.Pkgchk.AllHashes.{IsPackage}
use bittorrent_implementatio.Load.{
  Loading, empty, max_input_size, in_dir, key_ident, key_filename, key_size, key_nhashes,
  key_hashes, key_nchunks, key_chunks, read_hashes, read_chunks, on_ident, on_filename, on_size,
  on_nhashes, on_hashes, on_nchunks, on_chunks, dispatch, load_loop, finish, bpkg_load,
}
use bittorrent_implementatio.Load.Lines.{
  hash_lines, chunk_lines, loaded_chunk, GoodHashes, GoodChunks, split_line-field,
  read_hashes-hash_lines,
}
use bittorrent_implementatio.Load.Chunks.{read_chunks-chunk_lines}

-- What a package file says.
pub record Package : Type 0 where
  pub ident : CString
  pub filename : CString
  pub size : ℕ
  pub hashes : List CString
  pub chunks : List (CString × ℕ × ℕ)

-- The text of a package file.
abbrev pub print_package : Package → List ℕ
print_package p = field_line key_ident p.ident (
    field_line key_filename p.filename (
      field_line key_size (decimal p.size) (
        field_line key_nhashes (decimal (length p.hashes)) (
          field_line key_hashes [] (
            hash_lines p.hashes (
              field_line key_nchunks (decimal (length p.chunks))
                (field_line key_chunks [] (chunk_lines p.chunks []))))))))

-- The texts fit the buffers and have no space, colon or comma in them, the numbers fit an `int`, and
-- there is one chunk more than hashes.
pub record IsPrintable (p : Package) : Type 0 where
  pub ident_word : IsWord p.ident
  pub ident_short : length p.ident ≤ 1024
  pub filename_word : IsWord p.filename
  pub filename_short : length p.filename ≤ 1023
  pub size_fits : p.size < 2 ^ 31
  pub hashes_good : GoodHashes p.hashes
  pub chunks_good : GoodChunks p.chunks
  pub count : length p.chunks ≡ suc (length p.hashes)
  pub count_fits : length p.chunks < 2 ^ 31

long_field : (v rest : List ℕ) → 7 ≤ length (field_line key_ident v rest)
long_field v rest = omega (arith, length-append v (10 ∷ rest))

plain-loaded : (cs : List (CString × ℕ × ℕ)) → plain (map loaded_chunk cs) ≡ cs
plain-loaded [] = refl
plain-loaded (c ∷ cs) = ap (◌∷◌ c) (plain-loaded cs)

loop_end :
    (fuel : ℕ) (dir : Option CString) (st : Loading)
    → load_loop (suc fuel) dir st [] ≡ some (false, st)
unfolding load_loop fgets
loop_end fuel dir st = refl

-- One line of the main loop.
loop-field :
    (fuel : ℕ) (dir : Option CString) (st st' : Loading) (c : ℕ) (key v rest rest' : List ℕ)
    → IsWord (c ∷ key)
    → IsWord v
    → length (c ∷ key) + length v + 2 < 1035
    → dispatch dir (c ∷ key) (some v) st rest ≡ some (false, st', rest')
    → load_loop (suc fuel) dir st (field_line (c ∷ key) v rest) ≡ load_loop fuel dir st' rest'
unfolding load_loop
loop-field fuel dir st st' c key v rest rest' wk wv h e =
    rw (fgets-field_line max_input_size (c ∷ key) v rest wk wv h, load_loop)
      (rw (split_line-field c key v wk wv) (rw e refl))

module _ (dir : Option CString) (p : Package) (good : IsPrintable p) where
  abbrev at_ident : Loading
  at_ident = record empty { ident = some p.ident; order_iterator = 1 }

  abbrev at_filename : Loading
  at_filename = record at_ident { filename = some (in_dir dir p.filename); order_iterator = 2 }

  abbrev at_size : Loading
  at_size = record at_filename { size = some p.size; order_iterator = 3 }

  abbrev at_nhashes : Loading
  at_nhashes = record at_size { nhashes = some (length p.hashes); order_iterator = 4 }

  abbrev at_hashes : Loading
  at_hashes = record at_nhashes {
    hashes = some p.hashes;
    nhashes_counter = 0 + length p.hashes;
    order_iterator = 5;
  }

  abbrev at_nchunks : Loading
  at_nchunks = record at_hashes { nchunks = some (length p.chunks); order_iterator = 6 }

  abbrev at_chunks : Loading
  at_chunks = record at_nchunks {
    chunks = some (map loaded_chunk p.chunks);
    chunk_room = length p.chunks;
    nchunks_counter = 0 + length (map loaded_chunk p.chunks);
    order_iterator = 7;
  }

  printed : (n : ℕ) → n < 2 ^ 31 → IsPrinted n (decimal n)
  printed n h = decimal-IsPrinted n h

  step_ident :
      (rest : List ℕ)
      → dispatch dir key_ident (some p.ident) empty rest ≡ some (false, at_ident, rest)
  unfolding dispatch str_eq on_ident
  step_ident rest = rw (lt→ltb (length p.ident) 1025 (omega (arith, good.ident_short))) refl

  step_filename :
      (rest : List ℕ)
      → dispatch dir key_filename (some p.filename) at_ident rest ≡ some (false, at_filename, rest)
  unfolding dispatch str_eq on_filename
  step_filename rest = refl

  step_size :
      (rest : List ℕ)
      → dispatch dir key_size (some (decimal p.size)) at_filename rest ≡ some (false, at_size, rest)
  unfolding dispatch str_eq on_size
  step_size rest =
      rw ((printed p.size good.size_fits).is_int) (rw ((printed p.size good.size_fits).value) refl)

  step_nhashes :
      (rest : List ℕ)
      → dispatch dir key_nhashes (some (decimal (length p.hashes))) at_size rest
        ≡ some (false, at_nhashes, rest)
  unfolding dispatch str_eq on_nhashes
  step_nhashes rest =
      let d = printed (length p.hashes) (omega (arith, good.count, good.count_fits)) in
      rw d.is_int (rw d.value refl)

  step_hashes :
      (rest : List ℕ)
      → dispatch dir key_hashes (some []) at_nhashes (hash_lines p.hashes rest)
        ≡ some (false, at_hashes, rest)
  unfolding dispatch str_eq on_hashes
  step_hashes rest =
      rw
        (ap (λ n. read_hashes n (hash_lines p.hashes rest)) {x = length p.hashes - 0} (omega arith)
          ∙ read_hashes-hash_lines p.hashes rest good.hashes_good)
        refl

  step_nchunks :
      (rest : List ℕ)
      → dispatch dir key_nchunks (some (decimal (length p.chunks))) at_hashes rest
        ≡ some (false, at_nchunks, rest)
  unfolding dispatch str_eq on_nchunks
  step_nchunks rest =
      let d = printed (length p.chunks) good.count_fits in rw d.is_int (rw d.value refl)

  step_chunks :
      (rest : List ℕ)
      → dispatch dir key_chunks (some []) at_nchunks (chunk_lines p.chunks rest)
        ≡ some (false, at_chunks, rest)
  unfolding dispatch str_eq on_chunks
  step_chunks rest =
      rw
        (ap (λ n. read_chunks n (chunk_lines p.chunks rest)) {x = length p.chunks - 0} (omega arith)
          ∙ read_chunks-chunk_lines p.chunks rest good.chunks_good)
        refl

  -- The whole loop, on fuel for the seven fields and the end of the file.
  loop-print :
      (fuel : ℕ)
      → load_loop (suc (suc (suc (suc (suc (suc (suc (suc fuel)))))))) dir empty (print_package p)
        ≡ some (false, at_chunks)
  unfolding is_any_space isspace
  loop-print fuel =
      let ds = printed p.size good.size_fits in
      let dh = printed (length p.hashes) (omega (arith, good.count, good.count_fits)) in
      let dc = printed (length p.chunks) good.count_fits in
      loop-field _ dir empty at_ident _ _ p.ident _ _ (all_word-IsWord key_ident refl)
        good.ident_word (omega (arith, good.ident_short)) (step_ident _)
      ∙ loop-field _ dir at_ident at_filename _ _ p.filename _ _ (all_word-IsWord key_filename refl)
          good.filename_word (omega (arith, good.filename_short)) (step_filename _)
      ∙ loop-field _ dir at_filename at_size _ _ (decimal p.size) _ _
          (all_word-IsWord key_size refl) ds.plain (omega (arith, ds.short)) (step_size _)
      ∙ loop-field _ dir at_size at_nhashes _ _ (decimal (length p.hashes)) _ _
          (all_word-IsWord key_nhashes refl) dh.plain (omega (arith, dh.short)) (step_nhashes _)
      ∙ loop-field _ dir at_nhashes at_hashes _ _ [] _ _ (all_word-IsWord key_hashes refl) tt
          (omega arith) (step_hashes _)
      ∙ loop-field _ dir at_hashes at_nchunks _ _ (decimal (length p.chunks)) _ _
          (all_word-IsWord key_nchunks refl) dc.plain (omega (arith, dc.short)) (step_nchunks _)
      ∙ loop-field _ dir at_nchunks at_chunks _ _ [] _ _ (all_word-IsWord key_chunks refl) tt
          (omega arith) (step_chunks [])
      ∙ loop_end fuel dir at_chunks

  -- The file has more bytes than fields.
  length-print : 7 ≤ length (print_package p)
  length-print = long_field p.ident _

  enough_fuel :
      load_loop (suc (length (print_package p))) dir empty (print_package p)
      ≡ some (false, at_chunks)
  enough_fuel =
      ap (λ n. load_loop n dir empty (print_package p))
        {y = suc (suc (suc (suc (suc (suc (suc (suc (length (print_package p) - 7))))))))}
        (omega (arith, length-print))
      ∙ loop-print (length (print_package p) - 7)

  finish-print :
      (t : MerkleTree) (after : List Chunk)
      → create_tree p.hashes
          (length p.hashes)
          (map loaded_chunk p.chunks)
          (length (map loaded_chunk p.chunks))
        ≡ some (t, after)
      → finish at_chunks
        ≡ some (record {
          ident = p.ident;
          filename = in_dir dir p.filename;
          size = p.size;
          nhashes = length p.hashes;
          hashes = p.hashes;
          nchunks = length p.chunks;
          chunks = after;
          tree = t;
        })
  unfolding finish
  finish-print t after e =
      rw
        (ap (create_tree p.hashes (length p.hashes) (map loaded_chunk p.chunks))
            (sym (length-map {0, 0} p.chunks loaded_chunk))
          ∙ e)
        refl

  -- The text of a package whose identifier, file name and hashes are words that fit their
  -- buffers, whose numbers fit an `int`, in which no chunk's hash is empty and there is one chunk
  -- more than hashes, is loaded without a fault: `bpkg_load` returns a well-formed package with
  -- just that identifier, size, hashes and chunks, and with the file name behind the directory,
  -- if one is given.
  pub bpkg_load-print :
      (files : Files) (path : CString)
      → files path ≡ some (print_package p)
      → (b : BpkgObj) × (bpkg_load files path dir ≡ some (some b))
        × IsPackage b
        × (b.ident ≡ p.ident)
        × (b.filename ≡ in_dir dir p.filename)
        × (b.size ≡ p.size)
        × (b.hashes ≡ p.hashes)
        × (plain b.chunks ≡ p.chunks)
  bpkg_load-print files path opened =
      let (t, after, e, tree, same, _) =
        create_tree-IsTreeOf p.hashes (map loaded_chunk p.chunks)
          (length-map {0, 0} p.chunks loaded_chunk ∙ good.count) in
      (
        record {
          ident = p.ident;
          filename = in_dir dir p.filename;
          size = p.size;
          nhashes = length p.hashes;
          hashes = p.hashes;
          nchunks = length p.chunks;
          chunks = after;
          tree = t;
        },
        unfold bpkg_load in
            rw (opened, bpkg_load) (rw enough_fuel (rw (finish-print t after e) refl)),
        record {
          hash_count = refl;
          chunk_count = omega (arith, tree.fits, good.count);
          shape = subst (IsTreeOf p.hashes after) (sym (Built-blank tree.built)) tree;
        },
        refl,
        refl,
        refl,
        refl,
        same ∙ plain-loaded p.chunks,
      )
