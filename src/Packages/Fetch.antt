-- ===== src/Packages/Fetch.antt =====
-- A fetched chunk: the answers to a REQ packet (project/src/peer.c), each handled by
-- `add_data_to_file` of project/src/package.c.
use bittorrent_implementatio.Prelude.{
  ℕ, ◌+◌, ◌-◌, ◌^◌, ◌≤◌, ◌<◌, ◌≡◌, refl, ap, ◌∙◌, subst, inl, inr, true, Bool-cases, List, [], ◌∷◌,
  Option, some, none, CString, str_eq, str_eq_refl, length, map, ◌++◌, length-append, length-take,
  length-drop, take, drop, if◌then◌else◌, ◌&&◌, ◌==◌, leb, le→leb, ◌>>=◌, arith,
}
use bittorrent_implementatio.Merkle.{Chunk}
use bittorrent_implementatio.Pkgchk.{BpkgObj, Files}
use bittorrent_implementatio.Packages.{
  ManagedPackages, ResArgs, in_package, chunk_end, len_loop, calculate_data_len, chunk_in_memory,
  write_at, write_block, write_data, store_data, add_data_to_file,
}
use bittorrent_implementatio.Packages.Writes.{take-take, padded, length-before}
use bittorrent_implementatio.Packets.Fields.{drop-prefix, take-prefix}
use bittorrent_implementatio.Packages.Transfer.{write_pieces, block_of, pieces_from}
use bittorrent_implementatio.Packets.{Piece, serve}
use bittorrent_implementatio.Packets.Serve.{Placed, carried, serve-Serves}

-- What the RES handler fills in for the packet of a piece.
abbrev pub res_of : CString → CString → Piece → ResArgs
res_of ident hash p = record {
  data_recieved = p.current_read;
  ident = ident;
  chunk_hash = hash;
  file_offset = p.offset;
  payload = p.payload;
}

-- The RES handler on one packet after the other, if `fwrite` writes all that it is given.
unfoldable pub receive : Files → ManagedPackages → CString → CString → List Piece → Option Files
receive files m ident hash [] = some files
receive files m ident hash (p ∷ ps) = do
  files' ← add_data_to_file p.current_read files m (res_of ident hash p)
  receive files' m ident hash ps

-- The first chunk with a hash.
abbrev pub first_named : CString → List Chunk → Option Chunk
first_named hash [] = none
first_named hash (c ∷ cs) = if str_eq c.hash hash then some c else first_named hash cs

range_here :
    (c : Chunk) (cs : List (Option Chunk)) (hash : CString) (o : ℕ)
    → str_eq c.hash hash ≡ true
    → c.offset ≤ o
    → o ≤ c.offset + c.size
    → c.offset + c.size < 2 ^ 32
    → len_loop (some c ∷ cs) hash (some o)
      ≡ some (some (record { data_len = c.offset + c.size - o; file_offset = o }))
unfolding len_loop
range_here c cs hash o y lo hi h =
    rw (y, le→leb c.offset o lo, le→leb o (chunk_end c) (omega (arith, whole, hi)))
      (ap (λ e. some (some (record { data_len = e - o; file_offset = o }))) whole)
  where
    whole : chunk_end c ≡ c.offset + c.size
    whole = omega (arith, h)

the_same : (d c : Chunk) → some d ≡ some c → d ≡ c
the_same d c e = ap (λ x. elim x [ none ↦ d | some z ↦ z ]) e

range_at :
    (cs : List Chunk) (nulls : List (Option Chunk)) (hash : CString) (c : Chunk) (o : ℕ)
    → first_named hash cs ≡ some c
    → c.offset ≤ o
    → o ≤ c.offset + c.size
    → c.offset + c.size < 2 ^ 32
    → len_loop (map some cs ++ nulls) hash (some o)
      ≡ some (some (record { data_len = c.offset + c.size - o; file_offset = o }))
unfolding len_loop
range_at [] nulls hash c o e lo hi h = ground arith
range_at (d ∷ cs) nulls hash c o e lo hi h = elim (Bool-cases (str_eq d.hash hash)) [
  | inl y ↦
      let same : d ≡ c = the_same d c (rw y at e) in
      subst
        (λ z.
          len_loop (map some (d ∷ cs) ++ nulls) hash (some o)
          ≡ some (some (record { data_len = z.offset + z.size - o; file_offset = o })))
        same (range_here d (map some cs ++ nulls) hash o y (rw same lo) (rw same hi) (rw same h))
  | inr n ↦ rw (len_loop, n) (range_at cs nulls hash c o (rw n at e) lo hi h)
]

write_block-pos :
    (content : List ℕ) (off : ℕ) (block : List ℕ)
    → 0 < length block
    → write_block content off block ≡ write_at content off block
unfolding write_block
write_block-pos content off [] h = absurd (omega arith)
write_block-pos content off (b ∷ bs) h = refl

module _ (m : ManagedPackages) (ident hash : CString) (bpkg : BpkgObj) (c : Chunk)
    (managed : chunk_in_memory m ident hash ≡ some (in_package bpkg))
    (named : first_named hash bpkg.chunks ≡ some c) (small : c.offset + c.size < 2 ^ 32) where
  store_one :
      (files : Files) (content : List ℕ) (p : Piece)
      → files bpkg.filename ≡ some content
      → 0 < p.current_read
      → p.current_read ≤ length p.payload
      → c.offset ≤ p.offset
      → p.offset + p.current_read ≤ c.offset + c.size
      → (files' : Files) × (add_data_to_file p.current_read files m (res_of ident hash p)
          ≡ some files')
        × (files' bpkg.filename ≡ some (write_at content p.offset (block_of p)))
  store_one files content p e pos hp lo hi = (
    (λ name.
        if str_eq name bpkg.filename
        then some (write_block content p.offset written)
        else files name),
    unfold add_data_to_file in rw (add_data_to_file, managed) stored,
    rw (str_eq_refl bpkg.filename) (
        ap some (
          write_block-pos content p.offset written (
            omega (
              arith,
              length-take p.current_read (block_of p),
              length-take p.current_read p.payload,
            ))
          ∙ ap (write_at content p.offset)
              (take-take p.current_read p.current_read p.payload (omega arith)))),
  )
    where
      written : List ℕ
      written = take p.current_read (block_of p)

      range :
          calculate_data_len bpkg hash (some p.offset)
          ≡ some (some (record { data_len = c.offset + c.size - p.offset; file_offset = p.offset }))
      range =
          unfold calculate_data_len in
          range_at bpkg.chunks _ hash c p.offset named lo (omega (arith, hi)) small

      guard : (p.offset == p.offset) && leb p.current_read (c.offset + c.size - p.offset) ≡ true
      guard = ground arith

      stored :
          store_data p.current_read files bpkg (res_of ident hash p)
          ≡ some (λ name.
            if str_eq name bpkg.filename
            then some (write_block content p.offset written)
            else files name)
      stored =
          unfold store_data write_data in
          rw (store_data, range, guard) (rw (write_data, e, le→leb _ _ hp) refl)

  receive_all :
      (files : Files) (content : List ℕ) (off : ℕ) (ps : List Piece)
      → files bpkg.filename ≡ some content
      → Placed off ps
      → c.offset ≤ off
      → off + length (carried ps) ≤ c.offset + c.size
      → (files' : Files) × (receive files m ident hash ps ≡ some files')
        × (files' bpkg.filename ≡ some (write_pieces content ps))
  unfolding receive write_pieces
  receive_all files content off [] e pl lo hi = (files, refl, e)
  receive_all files content off (p ∷ ps) e (q, pos, le, full, pl) lo hi =
      let size : length (block_of p) ≡ p.current_read =
        omega (arith, length-take p.current_read p.payload, full, le) in
      let total = length-append (block_of p) (carried ps) in
      let (files₁, e₁, w₁) =
        store_one files content p e pos (omega (arith, full, le)) (omega (arith, q, lo))
          (omega (arith, q, hi, size, total)) in
      let (files₂, e₂, w₂) =
        receive_all files₁ _ (off + p.current_read) ps w₁
          (subst (λ o. Placed o ps) (omega (arith, hi, size, total, small)) pl) (omega (arith, lo))
          (omega (arith, hi, size, total)) in
      (files₂, rw (receive, e₁) e₂, w₂)

  -- Another peer has the file and answers the request for the whole of a chunk. The chunk is not
  -- empty and smaller than 2^31 bytes, ends below 4 GiB and within the other peer's file, and is
  -- the first of its hash in the package; here the package is found with the chunk, and its file
  -- can be opened. Then the answer ends, `add_data_to_file` accepts every packet of it if
  -- `fwrite` writes all that it is given, and afterwards the chunk's range of the file holds what
  -- the other peer's file has there.
  pub fetch_lem :
      (source content : List ℕ) (files : Files)
      → files bpkg.filename ≡ some content
      → 0 < c.size
      → c.size < 2 ^ 31
      → c.offset + c.size ≤ length source
      → (ps : List Piece) × (files' : Files) × (after : List ℕ) × (serve c.size 0 c.size c.offset
            (some (drop c.offset source))
          ≡ some ps)
        × (receive files m ident hash ps ≡ some files')
        × (files' bpkg.filename ≡ some after)
        × (take c.size (drop c.offset after) ≡ take c.size (drop c.offset source))
  fetch_lem source content files opened pos fits_int has =
      let block = take c.size (drop c.offset source) in
      let r =
        serve-Serves c.size 0 c.size c.offset (drop c.offset source) (omega arith)
          (omega (arith, length-drop c.offset source, has)) (omega arith) in
      let size : length (carried r.pieces) ≡ c.size = omega (
        arith,
        ap length r.carries,
        length-take c.size (drop c.offset source),
        length-drop c.offset source,
        has,
      ) in
      let (files', got, is) =
        receive_all files content c.offset r.pieces opened r.placed (omega arith)
          (omega (arith, size)) in
      (
        r.pieces,
        files',
        write_at content c.offset block,
        r.returns,
        got,
        is
            ∙ ap some (
                pieces_from content c.offset r.pieces r.placed (omega (arith, size, pos))
                  (omega (arith, size, small))
                ∙ ap (write_at content c.offset) r.carries),
        ap (take c.size) (
              drop-prefix (take c.offset (padded content c.offset block)) _ c.offset
                (length-before content c.offset block))
            ∙ take-prefix block _ c.size (
                omega (
                  arith,
                  length-take c.size (drop c.offset source),
                  length-drop c.offset source,
                  has,
                )),
      )
