-- ===== src/Sha256/Finalize.antt =====
-- `sha256_finalize`: from a state that stands for a message, the digest of that message.
use bittorrent_implementatio.Prelude.{
  ℕ, suc, ◌+◌, ◌-◌, ◌*◌, ◌%◌, ◌^◌, ◌≤◌, ◌<◌, ◌≡◌, refl, ap, sym, ◌∙◌, List, [], ◌∷◌, ◌++◌, lt→ltb,
  le→ltb_false, set, length, take, drop, replicate, length-append, length-drop, length-take,
  length-replicate, length-set, append_assoc, append-nil, arith,
}
use native.Mathlib.Decide.{dec_lt}
use native.Mathlib.Numerals.{add-one}
use bittorrent_implementatio.Sha256.{
  Sha, blit, compress, initial, sha256_calculate_chunk, put_size, finalize_pad, sha256_finalize,
}
use bittorrent_implementatio.Sha256.Spec.{
  absorb, absorb_same, absorb-append, be_bytes, padding, digest, take-append_le,
}
use bittorrent_implementatio.Sha256.Stream.{Holds, take_all}
use bittorrent_implementatio.Sha256.Padding.{
  drop_all, take-suc-set, replicate-add, length-be_bytes, put_size_lem, length-put_size, one_block,
  two_blocks,
}

module _ (d : Sha) (m : List ℕ) (v : Holds d m) where
  abbrev buffered : List ℕ
  buffered = take d.chunk_size d.last_chunk

  -- The block that the padding leaves in the buffer.
  abbrev marked : List ℕ
  marked = buffered ++ (0x80 ∷ replicate (63 - d.chunk_size) 0)

  abbrev size_bytes : List ℕ
  size_bytes = be_bytes 8 (length m * 8 % 2 ^ 64)

  length-buffered : length buffered ≡ d.chunk_size
  length-buffered = omega (arith, length-take d.chunk_size d.last_chunk, v.buffer, v.used)

  length-marked : length marked ≡ 64
  length-marked = omega (
    arith,
    length-append buffered (0x80 ∷ replicate (63 - d.chunk_size) 0),
    length-buffered,
    length-replicate (63 - d.chunk_size) (let z : ℕ = 0 in z),
    v.used,
  )

  blit_marked :
      blit
        (set d.last_chunk d.chunk_size 0x80)
        (d.chunk_size + 1)
        (replicate (64 - (d.chunk_size + 1)) 0)
      ≡ marked
  blit_marked =
      rw
        (
          add-one,
          take-suc-set d.last_chunk d.chunk_size 0x80 inside,
          nothing_left,
          append-nil,
          append_assoc,
        )
        (ap (λ k. buffered ++ (0x80 ∷ replicate k 0)) {x = 64 - suc d.chunk_size} (omega arith))
    where
      inside : d.chunk_size < length d.last_chunk
      inside = omega (arith, v.buffer, v.used)

      nothing_left :
          drop
            (suc d.chunk_size + length (replicate {A = ℕ} (64 - suc d.chunk_size) 0))
            (set d.last_chunk d.chunk_size 0x80)
          ≡ []
      nothing_left =
          drop_all (suc d.chunk_size + length (replicate {A = ℕ} (64 - suc d.chunk_size) 0))
            (set d.last_chunk d.chunk_size 0x80)
            (omega (
              arith,
              length-set d.last_chunk d.chunk_size 0x80,
              length-replicate {0} {A = ℕ} (64 - suc d.chunk_size) 0,
              v.buffer,
            ))

  absorb_pending :
      absorb (length (m ++ padding (length m))) initial (m ++ padding (length m))
      ≡ absorb (length (buffered ++ padding (length m))) d.hcomps (buffered ++ padding (length m))
  absorb_pending =
      absorb-append (length m) (length (m ++ padding (length m))) initial m (padding (length m))
        (omega arith) (omega arith)
      ∙ rw (← v.chain, ← v.rest)
          (absorb_same _ (length (buffered ++ padding (length m))) d.hcomps
            (buffered ++ padding (length m))
            (omega (
              arith,
              length-append buffered (padding (length m)),
              length-append m (padding (length m)),
              length-buffered,
              v.used,
            ))
            (omega arith))

  size_field : d.data_size * 8 % 2 ^ 64 ≡ length m * 8 % 2 ^ 64
  size_field = omega (arith, v.size)

  -- Where the length fits, the part of the block in front of it.
  abbrev front : List ℕ
  front = buffered ++ (0x80 ∷ replicate (55 - d.chunk_size) 0)

  length-front : d.chunk_size < 56 → length front ≡ 56
  length-front h = omega (
    arith,
    length-append buffered (0x80 ∷ replicate (55 - d.chunk_size) 0),
    length-buffered,
    length-replicate (55 - d.chunk_size) (let z : ℕ = 0 in z),
  )

  marked-front : d.chunk_size < 56 → marked ≡ front ++ replicate 8 0
  marked-front h =
      ap (λ k. buffered ++ (0x80 ∷ replicate k 0)) {y = 55 - d.chunk_size + 8} (omega arith)
      ∙ ap (λ z. buffered ++ (0x80 ∷ z)) (replicate-add (55 - d.chunk_size) 8 0)
      ∙ sym (append_assoc buffered (0x80 ∷ replicate (55 - d.chunk_size) 0) (replicate 8 0))

  take-marked : d.chunk_size < 56 → take 56 marked ≡ front
  take-marked h =
      ap (take 56) (marked-front h)
      ∙ take-append_le 56 front (replicate 8 0) (omega (arith, length-front h))
      ∙ rw (length-front h) at (take_all front)

  -- The length fits behind the mark: the padding completes one block.
  pad_short :
      d.chunk_size < 56
      → buffered ++ padding (length m) ≡ take 56 marked ++ (size_bytes ++ drop 64 marked)
  unfolding padding
  pad_short h =
      ap (λ k. buffered ++ (0x80 ∷ (replicate k 0 ++ size_bytes))) {y = 55 - d.chunk_size}
        (omega (arith, v.used))
      ∙ sym (append_assoc buffered (0x80 ∷ replicate (55 - d.chunk_size) 0) size_bytes)
      ∙ rw (take-marked h, drop_all 64 marked (omega (arith, length-marked)), append-nil) refl

  -- It does not fit: a block of zeros and the length follows.
  pad_long :
      56 ≤ d.chunk_size → buffered ++ padding (length m) ≡ marked ++ (replicate 56 0 ++ size_bytes)
  unfolding padding
  pad_long h =
      ap (λ k. buffered ++ (0x80 ∷ (replicate k 0 ++ size_bytes))) {y = 63 - d.chunk_size + 56}
        (omega (arith, v.used))
      ∙ ap (λ z. buffered ++ (0x80 ∷ (z ++ size_bytes))) (replicate-add (63 - d.chunk_size) 56 0)
      ∙ ap (λ z. buffered ++ (0x80 ∷ z))
          (append_assoc (replicate (63 - d.chunk_size) 0) _ size_bytes)
      ∙ sym (append_assoc buffered (0x80 ∷ replicate (63 - d.chunk_size) 0) _)

  finalize_short :
      d.chunk_size < 56
      → (sha256_finalize d).hcomps ≡ compress d.hcomps (put_size 8 (length m * 8 % 2 ^ 64) marked)
  unfolding sha256_finalize finalize_pad sha256_calculate_chunk
  finalize_short h =
      rw (le→ltb_false 56 (d.chunk_size + 1) (omega arith), blit_marked, size_field) refl

  finalize_long :
      56 ≤ d.chunk_size
      → (sha256_finalize d).hcomps
        ≡ compress (compress d.hcomps marked) (put_size 8 (length m * 8 % 2 ^ 64) (replicate 64 0))
  unfolding sha256_finalize finalize_pad sha256_calculate_chunk
  finalize_long h = rw (lt→ltb 56 (d.chunk_size + 1) (omega arith), blit_marked, size_field) refl

  length-size_bytes : length size_bytes ≡ 8
  length-size_bytes = length-be_bytes 8 (length m * 8 % 2 ^ 64)

  digest_short :
      d.chunk_size < 56
      → digest m ≡ compress d.hcomps (take 56 marked ++ (size_bytes ++ drop 64 marked))
  unfolding digest
  digest_short h =
      ap (λ r. r.0) absorb_pending
      ∙ rw (pad_short h) (
          one_block d.hcomps (take 56 marked ++ (size_bytes ++ drop 64 marked)) (
            omega (
              arith,
              length-append (take 56 marked) (size_bytes ++ drop 64 marked),
              length-append size_bytes (drop 64 marked),
              length-take 56 marked,
              length-drop 64 marked,
              length-size_bytes,
              length-marked,
            )))

  digest_long :
      56 ≤ d.chunk_size
      → digest m ≡ compress (compress d.hcomps marked) (replicate 56 0 ++ size_bytes)
  unfolding digest
  digest_long h =
      ap (λ r. r.0) absorb_pending
      ∙ rw (pad_long h) (
          two_blocks d.hcomps marked (replicate 56 0 ++ size_bytes) length-marked
            (omega (arith, length-append (replicate 56 0) size_bytes, length-size_bytes)))

  -- From a state that stands for a message, `sha256_finalize` leaves in `hcomps` the reference
  -- digest of that message.
  pub sha256_finalize-digest : (sha256_finalize d).hcomps ≡ digest m
  sha256_finalize-digest = elim (dec_lt d.chunk_size 56) [
    | yes s ↦
        finalize_short s
        ∙ ap (compress d.hcomps)
            (put_size_lem 8 (length m * 8 % 2 ^ 64) marked (omega (arith, length-marked)))
        ∙ sym (digest_short s)
    | no l ↦
        finalize_long (omega arith)
        ∙ ap (compress (compress d.hcomps marked))
            (put_size_lem 8 (length m * 8 % 2 ^ 64) (replicate 64 0) (omega arith) ∙ zeros_front)
        ∙ sym (digest_long (omega arith))
  ]
    where
      zeros_front :
          take 56 (replicate {A = ℕ} 64 0) ++ (size_bytes ++ drop (56 + 8) (replicate {A = ℕ} 64 0))
          ≡ replicate 56 0 ++ size_bytes
      zeros_front = ap (λ z. replicate 56 0 ++ z) (append-nil size_bytes)

  -- The buffer keeps its length, so the state can be used again.
  pub length-sha256_finalize : length (sha256_finalize d).last_chunk ≡ 64
  unfolding sha256_finalize sha256_calculate_chunk
  length-sha256_finalize =
      length-put_size 8 ((finalize_pad d).data_size * 8 % 2 ^ 64) (finalize_pad d).last_chunk
      ∙ padded
    where
      padded : length (finalize_pad d).last_chunk ≡ 64
      padded = unfold finalize_pad in ground (arith, ap length blit_marked, length-marked)
