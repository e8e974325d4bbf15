-- ===== src/Load/Lines.antt =====
-- The text of a package file, and what the loops of `bpkg_load` (project/src/chk/pkgchk.c) read from
-- its lines.
use bittorrent_implementatio.Prelude.{
  ℕ, ◌^◌, ◌≤◌, ◌<◌, ◌≡◌, refl, none, some, List, [], ◌∷◌, ◌++◌, CString, lt→ltb, length, arith,
}
use bittorrent_implementatio.Strings.{strtok, fgets}
use bittorrent_implementatio.Strings.Lines.{
  IsWord, Lacks, Lacks-append, IsWord-IsSolid, IsWord-Lacks_space, IsWord-Lacks_line,
  IsWord-Lacks_null, fgets-line, strtok-all, strip-line, strip_tabbed, strip_solid,
}
use bittorrent_implementatio.Strings.Fields.{strtok-key, strtok-value}
use bittorrent_implementatio.Strings.Decimal.{decimal}
use bittorrent_implementatio.Merkle.{Chunk}
use bittorrent_implementatio.Load.{max_input_size, read_hashes, split_line}

abbrev pub hash_lines : List CString → List ℕ → List ℕ
hash_lines [] rest = rest
hash_lines (h ∷ hs) rest = (9 ∷ h) ++ 10 ∷ hash_lines hs rest

-- What the file says of a chunk: its hash, offset and size.
abbrev pub chunk_text : CString × ℕ × ℕ → CString
chunk_text (h, offset, size) = h ++ b',' ∷ (decimal offset ++ b',' ∷ decimal size)

abbrev pub chunk_lines : List (CString × ℕ × ℕ) → List ℕ → List ℕ
chunk_lines [] rest = rest
chunk_lines (c ∷ cs) rest = (9 ∷ chunk_text c) ++ 10 ∷ chunk_lines cs rest

abbrev pub loaded_chunk : CString × ℕ × ℕ → Chunk
loaded_chunk (h, o, z) = record { hash = h; offset = o; size = z; node_ptr = none }

-- The hashes fit their buffers, and the numbers an `int`.
abbrev pub GoodHashes : List CString → Type 0
GoodHashes [] = Unit {0}
GoodHashes (h ∷ hs) = (IsWord h × (length h ≤ 64)) × GoodHashes hs

abbrev pub Full : CString → Type 0
Full [] = ⊥
Full (c ∷ cs) = Unit {0}

abbrev pub GoodChunks : List (CString × ℕ × ℕ) → Type 0
GoodChunks [] = Unit {0}
GoodChunks ((h, o, z) ∷ cs) =
    (Full h × IsWord h × (length h ≤ 64) × (o < 2 ^ 31) × (z < 2 ^ 31)) × GoodChunks cs

pub split_line-field :
    (c : ℕ) (key v : CString)
    → IsWord (c ∷ key)
    → IsWord v
    → split_line (((c ∷ key) ++ b':' ∷ v) ++ 10 ∷ []) ≡ some (c ∷ key, some v)
unfolding split_line
split_line-field c key v wk wv =
    rw
      (
        strtok-key c key v wk,
        strtok-value v wv,
        strip_solid (c ∷ key) (IsWord-IsSolid (c ∷ key) wk),
        strip-line v (IsWord-IsSolid v wv),
      )
      refl

-- One line of the hashes.
hash_fgets :
    (h rest : List ℕ)
    → IsWord h
    → length h ≤ 64
    → fgets max_input_size ((9 ∷ h) ++ 10 ∷ rest) ≡ some ((9 ∷ h) ++ 10 ∷ [], rest)
hash_fgets h rest w le =
    fgets-line 1035 (9 ∷ h) rest (refl, IsWord-Lacks_line h w) (refl, IsWord-Lacks_null h w)
      (omega arith)

pub tabbed_token :
    (s : CString) → Lacks b' ' s → strtok b' ' (9 ∷ s ++ 10 ∷ []) ≡ some (9 ∷ s ++ 10 ∷ [], [])
tabbed_token s l =
    strtok-all b' ' 9 (s ++ 10 ∷ []) (refl, Lacks-append b' ' s (10 ∷ []) l (refl, tt))

-- `read_hashes` reads back the lines of the hashes.
pub read_hashes-hash_lines :
    (hs : List CString) (rest : List ℕ)
    → GoodHashes hs
    → read_hashes (length hs) (hash_lines hs rest) ≡ some (hs, rest)
unfolding read_hashes
read_hashes-hash_lines [] rest g = refl
read_hashes-hash_lines (h ∷ hs) rest ((w, le), g) =
    rw (hash_fgets h (hash_lines hs rest) w le, read_hashes)
      (rw
        (
          tabbed_token h (IsWord-Lacks_space h w),
          strip_tabbed h (IsWord-IsSolid h w),
          lt→ltb (length h) 65 (omega arith),
        )
        (rw (read_hashes-hash_lines hs rest g) refl))
