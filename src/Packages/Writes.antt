-- ===== src/Packages/Writes.antt =====
-- `add_data_to_file` of project/src/package.c: what a RES packet can change.
use bittorrent_implementatio.Prelude.{
  ℕ, zero, suc, ◌+◌, ◌-◌, ◌≤◌, ◌≡◌, refl, ap, ◌∙◌, ◌⊎◌, inl, inr, true, ◌&&◌, Bool-cases,
  Option-cases, some, List, [], ◌∷◌, ◌++◌, CString, str_eq, if◌then◌else◌, length, length-append,
  length-take, length-replicate, take, drop, replicate, leb, ◌==◌, arith,
}
use bittorrent_implementatio.Merkle.{Chunk}
use bittorrent_implementatio.Pkgchk.{BpkgObj, Files}
use bittorrent_implementatio.Pkgchk.Completed.{drop-drop}
use bittorrent_implementatio.Packages.{
  ManagedPackages, ReqArgs, InMemory, find_chunk, chunk_in_memory, ResArgs, write_at, write_block,
  write_data, store_data, add_data_to_file,
}
use bittorrent_implementatio.Packages.Managed.{packages}
use bittorrent_implementatio.Packages.Ranges.{
  Among, first, later, Within, Bounded, Filled, calculate_data_len-Within,
}
use bittorrent_implementatio.Packages.Search.{
  Rooted, Answers, chosen, unknown_chunk, unknown_package, find_chunk-Answers,
}

module _ {ℓ} {A : Type ℓ} where
  pub take-append : (a : ℕ) (xs ys : List A) → a ≤ length xs → take a (xs ++ ys) ≡ take a xs
  take-append zero xs ys h = refl
  take-append (suc a) [] ys h = absurd (omega arith)
  take-append (suc a) (x ∷ xs) ys h = ap (◌∷◌ x) (take-append a xs ys (omega arith))

  pub take-take : (a b : ℕ) (xs : List A) → a ≤ b → take a (take b xs) ≡ take a xs
  take-take zero b xs h = refl
  take-take (suc a) zero xs h = absurd (omega arith)
  take-take (suc a) (suc b) [] h = refl
  take-take (suc a) (suc b) (x ∷ xs) h = ap (◌∷◌ x) (take-take a b xs (omega arith))

  drop-append :
      (k : ℕ) (xs ys : List A) → length xs ≤ k → drop k (xs ++ ys) ≡ drop (k - length xs) ys
  drop-append k [] ys h = ap (λ j. drop j ys) {y = k - 0} (omega arith)
  drop-append zero (x ∷ xs) ys h = absurd (omega arith)
  drop-append (suc k) (x ∷ xs) ys h =
      drop-append k xs ys (omega arith)
      ∙ ap (λ j. drop j ys) {x = k - length xs} {y = suc k - suc (length xs)} (omega arith)

take-replicate : (a b : ℕ) → a ≤ b → take {A = ℕ} a (replicate b 0) ≡ take a (replicate a 0)
take-replicate zero b h = refl
take-replicate (suc a) zero h = absurd (omega arith)
take-replicate (suc a) (suc b) h = ap (◌∷◌ 0) (take-replicate a b (omega arith))

-- However many zeros are put behind a text, up to `a` they look the same.
take-gap :
    (a b : ℕ) (xs : List ℕ)
    → a ≤ b
    → take a (xs ++ replicate (b - length xs) 0) ≡ take a (xs ++ replicate (a - length xs) 0)
take-gap a b [] h =
    ap (λ k. take {A = ℕ} a (replicate k 0)) {x = b - 0} {y = b} (omega arith)
    ∙ take-replicate a b h
    ∙ ap (λ k. take {A = ℕ} a (replicate k 0)) {x = a} {y = a - 0} (omega arith)
take-gap zero b (x ∷ xs) h = refl
take-gap (suc a) zero (x ∷ xs) h = absurd (omega arith)
take-gap (suc a) (suc b) (x ∷ xs) h = ap (◌∷◌ x) (
    ap (λ k. take a (xs ++ replicate k 0)) {x = suc b - suc (length xs)} {y = b - length xs}
      (omega arith)
    ∙ take-gap a b xs (omega arith)
    ∙ ap (λ k. take a (xs ++ replicate k 0)) {x = a - length xs} {y = suc a - suc (length xs)}
        (omega arith))

module _ (content : List ℕ) (off : ℕ) (block : List ℕ) where
  abbrev pub padded : List ℕ
  padded = content ++ replicate (off - length content) 0

  pub length-before : length (take off padded) ≡ off
  length-before = omega (
    arith,
    length-take off padded,
    length-append content (replicate (off - length content) 0),
    length-replicate {0} {A = ℕ} (off - length content) 0,
  )

  -- Before the write, the file keeps its bytes, and a gap is zeros; behind it, it keeps its bytes.
  take-write_at :
      (a : ℕ)
      → a ≤ off
      → take a (write_at content off block) ≡ take a (content ++ replicate (a - length content) 0)
  take-write_at a ho =
      take-append a (take off padded) _ (omega (arith, length-before))
      ∙ take-take a off padded ho
      ∙ take-gap a off content ho

  pub drop-write_at :
      (e : ℕ) → off + length block ≤ e → drop e (write_at content off block) ≡ drop e content
  drop-write_at e h =
      drop-append e (take off padded) _ (omega (arith, length-before))
      ∙ drop-append (e - length (take off padded)) block _ (omega (arith, length-before))
      ∙ drop-drop _ (off + length block) content
      ∙ ap (λ k. drop k content) {y = e} (omega (arith, length-before))

-- What a RES packet may do to the files: it writes inside the chunk that it names, of a managed
-- package. Every other byte is as it was; if the file ended before the chunk, it is filled with zeros up to it.
pub record Writes (m : ManagedPackages) (res : ResArgs) (files files' : Files) : Type 0 where
  pub bpkg : BpkgObj
  pub chunk : Chunk
  pub content : List ℕ
  pub after : List ℕ
  pub managed : Among bpkg (packages m.managed_array)
  pub of_package : Among chunk bpkg.chunks
  pub named : str_eq chunk.hash res.chunk_hash ≡ true
  pub from : chunk.offset ≤ res.file_offset
  pub up_to : res.file_offset + res.data_recieved ≤ chunk.offset + chunk.size
  pub opened : files bpkg.filename ≡ some content
  pub others :
      (name : CString)
      → files' name ≡ (if str_eq name bpkg.filename then some after else files name)
  pub before_kept :
      (after ≡ content)
      ⊎ (take chunk.offset after
          ≡ take chunk.offset (content ++ replicate (chunk.offset - length content) 0))
  pub behind_kept :
      drop (chunk.offset + chunk.size) after ≡ drop (chunk.offset + chunk.size) content

-- What is known of the file that `write_block` leaves, for a range that has the block.
block_before :
    (content : List ℕ) (off : ℕ) (block : List ℕ) (a : ℕ)
    → a ≤ off
    → (write_block content off block ≡ content)
      ⊎ (take a (write_block content off block)
          ≡ take a (content ++ replicate (a - length content) 0))
unfolding write_block
block_before content off [] a h = inl refl
block_before content off (b ∷ bs) a h = inr (take-write_at content off (b ∷ bs) a h)

block_behind :
    (content : List ℕ) (off : ℕ) (block : List ℕ) (e : ℕ)
    → off + length block ≤ e
    → drop e (write_block content off block) ≡ drop e content
unfolding write_block
block_behind content off [] e h = refl
block_behind content off (b ∷ bs) e h = drop-write_at content off (b ∷ bs) e h

-- Every managed package has `nchunks` chunks, which end below 4 GiB.
abbrev pub AllFilled : List BpkgObj → Type 0
AllFilled [] = Unit {0}
AllFilled (p ∷ ps) = (Filled p × Bounded p.chunks) × AllFilled ps

pub all_filled :
    (p : BpkgObj) (ps : List BpkgObj) → AllFilled ps → Among p ps → Filled p × Bounded p.chunks
all_filled p ps b first = b.0
all_filled p ps b (later a) = all_filled p _ b.1 a

module _ (written : ℕ) (files : Files) (m : ManagedPackages) (res : ResArgs)
    (small : res.data_recieved ≤ length res.payload) where
  -- The write, once the chunk is found.
  chunk_write :
      (p : BpkgObj) (c : Chunk) (r : ReqArgs)
      → Among p (packages m.managed_array)
      → Among c p.chunks
      → str_eq c.hash res.chunk_hash ≡ true
      → Within c r
      → r.file_offset ≡ res.file_offset
      → res.data_recieved ≤ r.data_len
      → (files' : Files) × (write_data written files p r res ≡ some files')
        × ((files' ≡ files) ⊎ Writes m res files files')
  chunk_write p c r mp ac eq w ho hd = elim (Option-cases (files p.filename)) [
    | inl n ↦ (files, unfold write_data in rw (write_data, n) refl, inl refl)
    | inr (content, e) ↦
        let off = r.file_offset in
        let block = take written (take res.data_recieved res.payload) in
        let len : length block ≤ res.data_recieved = omega (
          arith,
          length-take written (take res.data_recieved res.payload),
          length-take res.data_recieved res.payload,
        ) in
        (
          (λ name.
              if str_eq name p.filename then some (write_block content off block) else files name),
          unfold write_data in rw (write_data, e, ok) refl,
          inr (record {
            bpkg = p;
            chunk = c;
            content = content;
            after = write_block content off block;
            managed = mp;
            of_package = ac;
            named = eq;
            from = omega (arith, w.from, ho);
            up_to = omega (arith, w.up_to, ho);
            opened = e;
            others = λ name. refl;
            before_kept = block_before content off block _ (omega (arith, w.from));
            behind_kept = block_behind content off block _ (omega (arith, w.up_to));
          }),
        )
  ]
    where
      ok : leb res.data_recieved (length res.payload) ≡ true
      ok = ground arith

  module _ (rooted : Rooted m.managed_array) (filled : AllFilled (packages m.managed_array)) where
    -- The package of the packet is managed.
    package_write :
        (p : BpkgObj)
        → Among p (packages m.managed_array)
        → (files' : Files) × (store_data written files p res ≡ some files')
          × ((files' ≡ files) ⊎ Writes m res files files')
    package_write p mp =
        let (f, b) = all_filled p _ filled mp in
        elim (calculate_data_len-Within p res.chunk_hash (some res.file_offset) f b) [
          | inl (n, _) ↦ (files, unfold store_data in rw (store_data, n) refl, inl refl)
          | inr (c, r, ac, eq, n, w) ↦
              elim (Bool-cases
                ((r.file_offset == res.file_offset) && leb res.data_recieved r.data_len)) [
                  | inl y ↦
                      let (files', f, out) =
                        chunk_write p c r mp ac eq w (ground arith) (ground arith) in
                      (files', unfold store_data in rw (store_data, n, y) f, out)
                  | inr other ↦
                      (files, unfold store_data in rw (store_data, n, other) refl, inl refl)
                ]
        ]

    -- Every managed package has a tree with a root, and an array of `nchunks` chunks without a
    -- null entry, which end below 4 GiB; the length that the RES packet gives is not more than
    -- the data that it holds, and no other thread changes the packages meanwhile. Then, whatever
    -- else the packet holds, and however much of it `fwrite` writes, `add_data_to_file` never
    -- faults: either no file changes, or bytes change inside the chunk that the packet names, in
    -- the file of a managed package, and no other byte of any file, but that a file that ended
    -- before the chunk is filled up to it with zeros.
    pub add_data_to_file-Writes :
        (files' : Files) × (add_data_to_file written files m res ≡ some files')
        × ((files' ≡ files) ⊎ Writes m res files files')
    unfolding add_data_to_file chunk_in_memory
    add_data_to_file-Writes =
        let (ret, e, a) = find_chunk-Answers res.ident res.chunk_hash m.managed_array rooted in
        by_answer ret e a
      where
        by_answer :
            (ret : InMemory)
            → find_chunk res.ident res.chunk_hash m.managed_array ≡ some ret
            → Answers res.ident res.chunk_hash m.managed_array ret
            → (files' : Files) × (add_data_to_file written files m res ≡ some files')
              × ((files' ≡ files) ⊎ Writes m res files files')
        by_answer _ e (chosen {p = p} mp s) =
            let (files', f, out) = package_write p mp in (files', rw (add_data_to_file, e) f, out)
        by_answer _ e unknown_chunk = (files, rw (add_data_to_file, e) refl, inl refl)
        by_answer _ e unknown_package = (files, rw (add_data_to_file, e) refl, inl refl)
