-- ===== src/Sha256/Stream.antt =====
-- `sha256_compute_data_init` and `sha256_update`: the state stands for the message so far, whatever
-- the pieces that it came in.
use bittorrent_implementatio.Prelude.{
  ℕ, zero, suc, ◌+◌, ◌-◌, ◌%◌, ◌^◌, ◌≤◌, ◌<◌, ◌≡◌, refl, ap, sym, subst, ◌∙◌, List, [], ◌∷◌, ◌++◌,
  le→leb, lt→leb_false, length, take, drop, length-append, length-drop, length-take, arith,
}
use native.Mathlib.Decide.{dec_lt}
use bittorrent_implementatio.Sha256.{
  Sha, blit, compress, initial, sha256_compute_data_init, sha256_calculate_chunk, update_blocks,
  update_partial, update_keep, sha256_update,
}
use bittorrent_implementatio.Sha256.Spec.{
  absorb, absorb_done, absorb-rest, absorb_same, absorb_block, absorb-append, take-append_le,
  take-append_add, drop-append_add,
}

pub record Holds (d : Sha) (m : List ℕ) : Type 0 where
  pub buffer : length d.last_chunk ≡ 64
  pub size : d.data_size ≡ length m % 2 ^ 64
  pub used : d.chunk_size ≡ length m % 64
  pub chain : d.hcomps ≡ (absorb (length m) initial m).0
  pub rest : take d.chunk_size d.last_chunk ≡ (absorb (length m) initial m).1

-- After `sha256_compute_data_init` the state stands for the empty message, whatever it held.
pub init-Holds : (d : Sha) → length d.last_chunk ≡ 64 → Holds (sha256_compute_data_init d) []
unfolding sha256_compute_data_init absorb
init-Holds d h = record { buffer = h; size = refl; used = refl; chain = refl; rest = refl }

module _ {ℓ} {A : Type ℓ} where
  pub take_all : (xs : List A) → take (length xs) xs ≡ xs
  take_all [] = refl
  take_all (x ∷ xs) = ap (◌∷◌ x) (take_all xs)

pub length-blit :
    (dst : List ℕ) (off : ℕ) (src : List ℕ)
    → off + length src ≤ length dst
    → length (blit dst off src) ≡ length dst
length-blit dst off src h = omega (
  arith,
  length-append (take off dst) (src ++ drop (off + length src) dst),
  length-append src (drop (off + length src) dst),
  length-take off dst,
  length-drop (off + length src) dst,
)

pub take-blit :
    (dst : List ℕ) (off : ℕ) (src : List ℕ)
    → off + length src ≤ length dst
    → take (off + length src) (blit dst off src) ≡ take off dst ++ src
take-blit dst off src h =
    subst (λ k. take (k + length src) (blit dst off src) ≡ take off dst ++ src)
      (omega (arith, length-take off dst))
      (take-append_add (length src) (take off dst) (src ++ drop (off + length src) dst)
        ∙ ap (◌++◌ (take off dst)) (take-append_le (length src) src _ (omega arith) ∙ take_all src))

update_blocks-absorb :
    (f : ℕ) (d : Sha) (p : List ℕ)
    → update_blocks f d p ≡ (let (h, r) = absorb f d.hcomps p in (record d { hcomps = h }, r))
unfolding update_blocks absorb sha256_calculate_chunk
update_blocks-absorb zero d p = refl
update_blocks-absorb (suc f) d p = elim (dec_lt (length p) 64) [
  | yes s ↦ rw (lt→leb_false 64 (length p) s, update_blocks, absorb) refl
  | no l ↦
      rw (le→leb 64 (length p) (omega arith), update_blocks, absorb)
        (update_blocks-absorb f (sha256_calculate_chunk d (take 64 p)) (drop 64 p))
]

-- What the last step of `sha256_update` leaves.
keep-Holds :
    (e : Sha) (q m : List ℕ)
    → length e.last_chunk ≡ 64
    → e.data_size ≡ length m % 2 ^ 64
    → e.chunk_size + length q ≡ length m % 64
    → e.hcomps ≡ (absorb (length m) initial m).0
    → take e.chunk_size e.last_chunk ++ q ≡ (absorb (length m) initial m).1
    → Holds (update_keep (e, q)) m
unfolding update_keep
keep-Holds e q m hb hs hu hc hr = record {
  buffer = length-blit e.last_chunk e.chunk_size q (omega arith) ∙ hb;
  size = hs;
  used = omega arith;
  chain = hc;
  rest =
      subst (λ k. take k (blit e.last_chunk e.chunk_size q) ≡ (absorb (length m) initial m).1)
        (omega arith) (take-blit e.last_chunk e.chunk_size q (omega arith) ∙ hr);
}

module _ (d : Sha) (m bytes : List ℕ) (v : Holds d m) (small : length bytes + 64 < 2 ^ 32) where
  -- The buffered bytes, and the new ones behind them.
  abbrev pending : List ℕ
  pending = take d.chunk_size d.last_chunk ++ bytes

  abbrev counted : Sha
  counted = record d { data_size = (d.data_size + length bytes) % 2 ^ 64 }

  length-buffered : length (take d.chunk_size d.last_chunk) ≡ d.chunk_size
  length-buffered = omega (arith, length-take d.chunk_size d.last_chunk, v.buffer, v.used)

  length-pending : length pending ≡ length bytes + d.chunk_size
  length-pending =
      omega (arith, length-append (take d.chunk_size d.last_chunk) bytes, length-buffered)

  absorb-pending :
      absorb (length (m ++ bytes)) initial (m ++ bytes) ≡ absorb (length pending) d.hcomps pending
  absorb-pending =
      absorb-append (length m) (length (m ++ bytes)) initial m bytes (omega arith) (omega arith)
      ∙ rw (← v.chain, ← v.rest)
          (absorb_same (length (m ++ bytes)) (length pending) d.hcomps pending
            (omega (arith, length-pending, length-append m bytes, v.used)) (omega arith))

  sixty_four : length (take d.chunk_size d.last_chunk) + (64 - d.chunk_size) ≡ 64
  sixty_four = omega (arith, length-buffered, v.used)

  take-pending : take 64 pending ≡ take d.chunk_size d.last_chunk ++ take (64 - d.chunk_size) bytes
  take-pending =
      ap (λ k. take k pending) (sym sixty_four)
      ∙ take-append_add (64 - d.chunk_size) (take d.chunk_size d.last_chunk) bytes

  drop-pending : drop 64 pending ≡ drop (64 - d.chunk_size) bytes
  drop-pending =
      ap (λ k. drop k pending) (sym sixty_four)
      ∙ drop-append_add (64 - d.chunk_size) (take d.chunk_size d.last_chunk) bytes

  fits : (length bytes + d.chunk_size) % 2 ^ 32 ≡ length bytes + d.chunk_size
  fits = omega (arith, v.used)

  -- The filled block, and the state that the loop starts from.
  abbrev filled : Sha
  filled = record counted { hcomps = compress d.hcomps (take 64 pending); chunk_size = 0 }

  partial_full :
      64 ≤ length bytes + d.chunk_size → update_partial counted bytes ≡ (filled, drop 64 pending)
  unfolding update_partial sha256_calculate_chunk
  partial_full h = rw (fits, le→leb 64 _ h, take-pending, drop-pending) refl

  partial_short : length bytes + d.chunk_size < 64 → update_partial counted bytes ≡ (counted, bytes)
  unfolding update_partial
  partial_short h = rw (fits, lt→leb_false 64 _ h) refl

  abbrev absorbed : List ℕ × List ℕ
  absorbed = absorb (length pending) d.hcomps pending

  update_full :
      64 ≤ length bytes + d.chunk_size
      → sha256_update d bytes ≡ update_keep (record filled { hcomps = absorbed.0 }, absorbed.1)
  unfolding sha256_update
  update_full h =
      rw
        (
          partial_full h,
          update_blocks-absorb (length (drop 64 pending)) filled (drop 64 pending),
          absorb_block (length pending) d.hcomps pending (omega (arith, length-pending))
              (omega arith),
        )
        refl

  update_short :
      length bytes + d.chunk_size < 64 → sha256_update d bytes ≡ update_keep (counted, bytes)
  unfolding sha256_update
  update_short h =
      rw
        (
          partial_short h,
          update_blocks-absorb (length bytes) counted bytes,
          absorb_done (length bytes) d.hcomps bytes (omega arith),
        )
        refl

  total : (d.data_size + length bytes) % 2 ^ 64 ≡ length (m ++ bytes) % 2 ^ 64
  total = omega (arith, v.size, length-append m bytes)

  length-absorbed : length absorbed.1 ≡ length (m ++ bytes) % 64
  length-absorbed = omega (
    arith,
    absorb-rest (length pending) d.hcomps pending (omega arith),
    length-pending,
    length-append m bytes,
    v.used,
  )

  -- The pieces of a message can come in any number of calls: a state that stands for `m` stands
  -- for `m ++ bytes` after `sha256_update`, if `bytes` is shorter than 2^32 - 64.
  pub sha256_update-Holds : Holds (sha256_update d bytes) (m ++ bytes)
  sha256_update-Holds = elim (dec_lt (length bytes + d.chunk_size) 64) [
    | yes s ↦ rw (update_short s) (
        keep-Holds counted bytes (m ++ bytes) v.buffer total
          (omega (arith, v.used, length-append m bytes))
          (rw
            (
              absorb-pending,
              absorb_done (length pending) d.hcomps pending (omega (arith, length-pending)),
            )
            refl)
          (rw
            (
              absorb-pending,
              absorb_done (length pending) d.hcomps pending (omega (arith, length-pending)),
            )
            refl))
    | no l ↦ rw (update_full (omega arith)) (
        keep-Holds (record filled { hcomps = absorbed.0 }) absorbed.1 (m ++ bytes) v.buffer total
          (omega (arith, length-absorbed)) (rw absorb-pending refl) (rw absorb-pending refl))
  ]
