-- ===== src/Load.antt =====
-- `bpkg_load` of project/src/chk/pkgchk.c: the parser of package files. The result `none` is undefined
-- behaviour, such as a read of a field that no line has set or a text that is too long for its buffer;
-- `some none` is the null pointer. Memory for what is allocated is there.
pub mod Lines
pub mod Chunks
pub mod RoundTrip
pub mod Errors
mod Tests
use bittorrent_implementatio.Prelude.{
  ℕ, zero, suc, ◌+◌, ◌-◌, ◌*◌, ◌<◌, Bool, true, false, ◌&&◌, Option, none, some, List, [], ◌∷◌,
  ◌++◌, CString, str_eq, ltb, leb, ◌==◌, if◌then◌else◌, length, ◌>>=◌,
}
use bittorrent_implementatio.Strings.{strip_whitespace, is_an_int, atoi, strtok, fgets}
use bittorrent_implementatio.Merkle.{Chunk, create_tree}
use bittorrent_implementatio.Pkgchk.{BpkgObj, Files}

-- The local variables of `bpkg_load` and the fields of the object that it fills, `none` where nothing is stored yet.
-- `hashes` and `chunks` hold the entries stored in the arrays that the fields point to, and
-- `chunk_room` the size of the chunk array.
pub record Loading : Type 0 where
  pub ident : Option CString
  pub filename : Option CString
  pub size : Option ℕ
  pub nhashes : Option ℕ
  pub hashes : Option (List CString)
  pub nchunks : Option ℕ
  pub chunks : Option (List Chunk)
  pub chunk_room : ℕ
  pub nhashes_counter : ℕ
  pub nchunks_counter : ℕ
  pub order_iterator : ℕ

abbrev pub empty : Loading
empty = record {
  ident = none;
  filename = none;
  size = none;
  nhashes = none;
  hashes = none;
  nchunks = none;
  chunks = none;
  chunk_room = 0;
  nhashes_counter = 0;
  nchunks_counter = 0;
  order_iterator = 0;
}

-- MAX_INPUT_SIZE
abbrev pub max_input_size : ℕ
max_input_size = 1035

-- What a line does: the fields, whether `error_flag` is set and the loop left, and what is left of the
-- file.
abbrev pub Outcome : Type 0
Outcome = Option (Bool × Loading × List ℕ)

-- `strcpy` into a buffer of `n` bytes, from a pointer that may be null.
abbrev pub copied : ℕ → Option CString → Option CString
copied n none = none
copied n (some v) = if ltb (length v) n then some v else none

unfoldable pub on_ident : Option CString → Loading → List ℕ → Outcome
on_ident value st rest =
    if st.order_iterator == 0
    then (copied 1025 value >>= λ v.
        some (false, record st { ident = some v; order_iterator = 1 }, rest))
    else some (true, st, rest)

-- `dir` is the directory of the files, or null.
abbrev pub in_dir : Option CString → CString → CString
in_dir none v = v
in_dir (some dir) v = dir ++ b'/' ∷ v

unfoldable pub on_filename : Option CString → Option CString → Loading → List ℕ → Outcome
on_filename dir value st rest =
    if st.order_iterator == 1
    then (value >>= λ v.
        some (false, record st { filename = some (in_dir dir v); order_iterator = 2 }, rest))
    else some (true, st, rest)

-- A field that must be a number: `k` goes on with it.
abbrev pub with_int : Option CString → Loading → List ℕ → (ℕ → Outcome) → Outcome
with_int none st rest k = none
with_int (some v) st rest k = if is_an_int v then (atoi v >>= k) else some (true, st, rest)

-- Where the order is wrong the value is stored all the same by `nhashes` and `nchunks`.
abbrev pub in_order : ℕ → Loading → List ℕ → Outcome
in_order n st rest =
    if st.order_iterator == n
    then some (false, record st { order_iterator = suc n }, rest)
    else some (true, st, rest)

unfoldable pub on_size : Option CString → Loading → List ℕ → Outcome
on_size value st rest =
    if st.order_iterator == 2
    then with_int value (record st { order_iterator = 3 }) rest
        (λ n. some (false, record st { size = some n; order_iterator = 3 }, rest))
    else some (true, st, rest)

unfoldable pub on_nhashes : Option CString → Loading → List ℕ → Outcome
on_nhashes value st rest =
    with_int value st rest (λ n. in_order 3 (record st { nhashes = some n }) rest)

unfoldable pub on_nchunks : Option CString → Loading → List ℕ → Outcome
on_nchunks value st rest =
    with_int value st rest (λ n. in_order 5 (record st { nchunks = some n }) rest)

-- The loop that reads `n` lines of hashes, or fewer if the file ends: the hashes and what is left.
unfoldable pub read_hashes : ℕ → List ℕ → Option (List CString × List ℕ)
read_hashes zero rest = some ([], rest)
read_hashes (suc n) rest = elim (fgets max_input_size rest) [
  | none ↦ some ([], rest)
  | some (line, rest₁) ↦ do
    (value, _) ← strtok b' ' line
    hash ← copied 65 (some (strip_whitespace value))
    (hashes, rest₂) ← read_hashes n rest₁
    some (hash ∷ hashes, rest₂)
]

unfoldable pub on_hashes : Loading → List ℕ → Outcome
unfolding read_hashes
on_hashes st rest = do
  n ← st.nhashes
  (hashes, rest') ← read_hashes (n - st.nhashes_counter) rest
  in_order 4
      (record st { hashes = some hashes; nhashes_counter = st.nhashes_counter + length hashes })
      rest'

abbrev pub token : Option (CString × CString) → Option CString
token none = none
token (some (t, _)) = some t

-- The rest of a chunk, once its offset is a number.
unfoldable pub chunk_of : CString → CString → CString → Option (Option Chunk)
chunk_of hash_val offset_val size_val = elim (is_an_int size_val) [
  | false ↦ some none
  | true ↦ do
    offset ← atoi offset_val
    size ← atoi size_val
    hash ← copied 65 (some hash_val)
    some (some (record { hash = hash; offset = offset; size = size; node_ptr = none }))
]

unfoldable pub chunk_numbers : CString → CString → CString → Option (Option Chunk)
unfolding chunk_of
chunk_numbers hash_val offset_val after_offset = elim (is_an_int offset_val) [
  | false ↦ some none
  | true ↦ token (strtok b',' after_offset) >>= chunk_of hash_val offset_val
]

-- A line of the chunks: the chunk, or `none` if a number is wrong. The three fields are cut out before
-- the numbers are looked at.
unfoldable pub chunk_line : CString → Option (Option Chunk)
unfolding chunk_numbers
chunk_line line = do
  (value, _) ← strtok b' ' line
  (hash_val, after_hash) ← strtok b',' (strip_whitespace value)
  (offset_val, after_offset) ← strtok b',' after_hash
  chunk_numbers hash_val offset_val after_offset

-- The loop that reads `n` lines of chunks: whether it left with an error, the chunks, and what is left.
unfoldable pub read_chunks : ℕ → List ℕ → Option (Bool × List Chunk × List ℕ)
unfolding chunk_line
read_chunks zero rest = some (false, [], rest)
read_chunks (suc n) rest = elim (fgets max_input_size rest) [
  | none ↦ some (false, [], rest)
  | some (line, rest₁) ↦ do
    parsed ← chunk_line line
    elim parsed [
      | none ↦ some (true, [], rest₁)
      | some chunk ↦ do
        (error, chunks, rest₂) ← read_chunks n rest₁
        some (error, chunk ∷ chunks, rest₂)
    ]
]

-- After the chunks the loop is left if the order is wrong or the flag was set inside.
unfoldable pub on_chunks : Loading → List ℕ → Outcome
unfolding read_chunks
on_chunks st rest = do
  n ← st.nchunks
  (error, chunks, rest') ← read_chunks (n - st.nchunks_counter) rest
  let st' = record st {
    chunks = some chunks;
    chunk_room = n;
    nchunks_counter = st.nchunks_counter + length chunks;
  }
  if error then some (true, st', rest') else in_order 6 st' rest'

abbrev pub key_ident : CString
key_ident = b'i' ∷ b'd' ∷ b'e' ∷ b'n' ∷ b't' ∷ []

abbrev pub key_filename : CString
key_filename = b'f' ∷ b'i' ∷ b'l' ∷ b'e' ∷ b'n' ∷ b'a' ∷ b'm' ∷ b'e' ∷ []

abbrev pub key_size : CString
key_size = b's' ∷ b'i' ∷ b'z' ∷ b'e' ∷ []

abbrev pub key_hashes : CString
key_hashes = b'h' ∷ b'a' ∷ b's' ∷ b'h' ∷ b'e' ∷ b's' ∷ []

abbrev pub key_nhashes : CString
key_nhashes = b'n' ∷ key_hashes

abbrev pub key_chunks : CString
key_chunks = b'c' ∷ b'h' ∷ b'u' ∷ b'n' ∷ b'k' ∷ b's' ∷ []

abbrev pub key_nchunks : CString
key_nchunks = b'n' ∷ key_chunks

-- The body of the loop for a key and the text behind its colon.
unfoldable pub dispatch : Option CString → CString → Option CString → Loading → List ℕ → Outcome
unfolding on_ident on_filename on_size on_nhashes on_hashes on_nchunks on_chunks
dispatch dir key value st rest =
    if str_eq key key_ident
    then on_ident value st rest
    else if str_eq key key_filename
    then on_filename dir value st rest
    else if str_eq key key_size
    then on_size value st rest
    else if str_eq key key_nhashes
    then on_nhashes value st rest
    else if str_eq key key_hashes
    then on_hashes st rest
    else if str_eq key key_nchunks
    then on_nchunks value st rest
    else if str_eq key key_chunks
    then on_chunks st rest
    else some (true, st, rest)

-- A line that is not empty: its key, and the text behind the colon, which may be null. Where there is
-- no key at all, `strcmp` reads through a null pointer.
unfoldable pub split_line : CString → Option (CString × Option CString)
split_line line = do
  (key, after) ← strtok b':' line
  some (
    strip_whitespace key,
    elim (token (strtok b':' after)) [ none ↦ none | some v ↦ some (strip_whitespace v) ],
  )

-- The main loop. Each line takes a byte at least, so one more than the length of the file is fuel enough.
unfoldable pub load_loop : ℕ → Option CString → Loading → List ℕ → Option (Bool × Loading)
unfolding dispatch split_line
load_loop zero dir st rest = none
load_loop (suc fuel) dir st rest = elim (fgets max_input_size rest) [
  | none ↦ some (false, st)
  | some (line, rest₁) ↦ do
    (key, value) ← split_line line
    (error, st', rest₂) ← dispatch dir key value st rest₁
    elim error [ true ↦ some (true, st') | false ↦ load_loop fuel dir st' rest₂ ]
]

-- `bpkg_obj_destroy` on what was loaded: whether all that it frees was stored.
unfoldable pub destroyable : Loading → Bool
destroyable st = elim st.ident [
  | none ↦ false
  | some i ↦ elim st.filename [
    | none ↦ false
    | some f ↦
        (elim st.hashes [
          | none ↦ true
          | some hs ↦ elim st.nhashes [ none ↦ false | some n ↦ leb n (length hs) ]
        ])
        && (elim st.chunks [
          | none ↦ true
          | some cs ↦ elim st.nchunks [ none ↦ false | some n ↦ leb n st.chunk_room ]
        ])
  ]
]

-- The call of `create_tree` at the end, and the object. The entries of the array behind the chunks that were read, up
-- to `nchunks`, stay null: they are in `slots`.
unfoldable pub finish : Loading → Option BpkgObj
finish st = do
  ident ← st.ident
  filename ← st.filename
  size ← st.size
  nhashes ← st.nhashes
  hashes ← st.hashes
  nchunks ← st.nchunks
  chunks ← st.chunks
  (tree, chunks') ← create_tree hashes nhashes chunks nchunks
  some (record {
    ident = ident;
    filename = filename;
    size = size;
    nhashes = nhashes;
    hashes = hashes;
    nchunks = nchunks;
    chunks = chunks';
    tree = tree;
  })

unfoldable pub bpkg_load : Files → CString → Option CString → Option (Option BpkgObj)
unfolding load_loop destroyable finish
bpkg_load files path dir = elim (files path) [
  | none ↦ some none
  | some content ↦ do
    (error, st) ← load_loop (suc (length content)) dir empty content
    elim error [
      | true ↦ if destroyable st then some none else none
      | false ↦ do obj ← finish st; some (some obj)
    ]
]
