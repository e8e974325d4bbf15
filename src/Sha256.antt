-- ===== src/Sha256.antt =====
-- project/src/crypt/sha256.c and project/include/crypt/sha256.h. A byte is a number below 256, a
-- `uint32_t` a number below 2 ^ 32 with its wrap-around written out.
pub mod Spec
pub mod Stream
pub mod Padding
pub mod Finalize
pub mod Digest
mod Tests
use Prim.Native.Nat.{bit_and, bit_or, bit_xor}
use bittorrent_implementatio.Prelude.{
  ℕ, zero, suc, ◌+◌, ◌-◌, ◌*◌, ◌/◌, ◌%◌, ◌^◌, true, false, List, [], ◌∷◌, ◌++◌, CString, ltb, leb,
  if◌then◌else◌, length, get_or, set, take, drop, replicate,
}

-- `struct sha256_compute_data`
pub record Sha : Type 0 where
  pub data_size : ℕ
  pub hcomps : List ℕ
  pub last_chunk : List ℕ
  pub chunk_size : ℕ

-- `memcpy(dst + off, src, length src)`, and `memset` with a constant list
abbrev pub blit : List ℕ → ℕ → List ℕ → List ℕ
blit dst off src = take off dst ++ (src ++ drop (off + length src) dst)

abbrev word : ℕ
word = 2 ^ 32

unfoldable rotate_r : ℕ → ℕ → ℕ
rotate_r val bits = bit_or (val / 2 ^ bits) (val * 2 ^ (32 - bits) % word)

-- The round constants; the last entry of the C array is 0 and is never read.
abbrev k_table : List ℕ
k_table =
    0x428a2f98 ∷ 0x71374491 ∷ 0xb5c0fbcf ∷ 0xe9b5dba5 ∷ 0x3956c25b ∷ 0x59f111f1 ∷ 0x923f82a4
    ∷ 0xab1c5ed5 ∷ 0xd807aa98 ∷ 0x12835b01 ∷ 0x243185be ∷ 0x550c7dc3 ∷ 0x72be5d74 ∷ 0x80deb1fe
    ∷ 0x9bdc06a7 ∷ 0xc19bf174 ∷ 0xe49b69c1 ∷ 0xefbe4786 ∷ 0x0fc19dc6 ∷ 0x240ca1cc ∷ 0x2de92c6f
    ∷ 0x4a7484aa ∷ 0x5cb0a9dc ∷ 0x76f988da ∷ 0x983e5152 ∷ 0xa831c66d ∷ 0xb00327c8 ∷ 0xbf597fc7
    ∷ 0xc6e00bf3 ∷ 0xd5a79147 ∷ 0x06ca6351 ∷ 0x14292967 ∷ 0x27b70a85 ∷ 0x2e1b2138 ∷ 0x4d2c6dfc
    ∷ 0x53380d13 ∷ 0x650a7354 ∷ 0x766a0abb ∷ 0x81c2c92e ∷ 0x92722c85 ∷ 0xa2bfe8a1 ∷ 0xa81a664b
    ∷ 0xc24b8b70 ∷ 0xc76c51a3 ∷ 0xd192e819 ∷ 0xd6990624 ∷ 0xf40e3585 ∷ 0x106aa070 ∷ 0x19a4c116
    ∷ 0x1e376c08 ∷ 0x2748774c ∷ 0x34b0bcb5 ∷ 0x391c0cb3 ∷ 0x4ed8aa4a ∷ 0x5b9cca4f ∷ 0x682e6ff3
    ∷ 0x748f82ee ∷ 0x78a5636f ∷ 0x84c87814 ∷ 0x8cc70208 ∷ 0x90befffa ∷ 0xa4506ceb ∷ 0xbef9a3f7
    ∷ 0xc67178f2 ∷ 0 ∷ []

abbrev pub initial : List ℕ
initial =
    0x6a09e667 ∷ 0xbb67ae85 ∷ 0x3c6ef372 ∷ 0xa54ff53a ∷ 0x510e527f ∷ 0x9b05688c ∷ 0x1f83d9ab
    ∷ 0x5be0cd19 ∷ []

unfoldable pub sha256_compute_data_init : Sha → Sha
sha256_compute_data_init d = record d { data_size = 0; hcomps = initial; chunk_size = 0 }

-- The first loop: 16 words, big-endian.
unfoldable w_words : ℕ → List ℕ → List ℕ
w_words zero chunk = []
w_words (suc n) chunk =
    bit_or (get_or chunk 0 0 * 2 ^ 24 % word) (
      bit_or (get_or chunk 1 0 * 2 ^ 16 % word)
        (bit_or (get_or chunk 2 0 * 2 ^ 8 % word) (get_or chunk 3 0)))
    ∷ w_words n (drop 4 chunk)

-- The second loop, from index `i`: each round appends `w[i]`.
unfoldable w_extend : ℕ → ℕ → List ℕ → List ℕ
w_extend zero i w = w
w_extend (suc n) i w =
    let x = get_or w (i - 15) 0 in
    let s0 = bit_xor (rotate_r x 7) (bit_xor (rotate_r x 18) (x / 2 ^ 3)) in
    let y = get_or w (i - 2) 0 in
    let s1 = bit_xor (rotate_r y 17) (bit_xor (rotate_r y 19) (y / 2 ^ 10)) in
    w_extend n (i + 1) (w ++ ((get_or w (i - 16) 0 + s0 + get_or w (i - 7) 0 + s1) % word ∷ []))

-- One round of the main loop, on the eight working variables `tv`.
unfoldable tv_round : ℕ → ℕ → List ℕ → List ℕ
tv_round k w tv =
    let t0 = get_or tv 0 0 in
    let t1 = get_or tv 1 0 in
    let t2 = get_or tv 2 0 in
    let t4 = get_or tv 4 0 in
    let t5 = get_or tv 5 0 in
    let t6 = get_or tv 6 0 in
    let big_s1 = bit_xor (rotate_r t4 6) (bit_xor (rotate_r t4 11) (rotate_r t4 25)) in
    let ch = bit_xor (bit_and t4 t5) (bit_and (word - 1 - t4) t6) in
    let temp1 = (get_or tv 7 0 + big_s1 + ch + k + w) % word in
    let big_s0 = bit_xor (rotate_r t0 2) (bit_xor (rotate_r t0 13) (rotate_r t0 22)) in
    let maj = bit_xor (bit_and t0 t1) (bit_xor (bit_and t0 t2) (bit_and t1 t2)) in
    let temp2 = (big_s0 + maj) % word in
    (temp1 + temp2) % word ∷ t0 ∷ t1 ∷ t2 ∷ (get_or tv 3 0 + temp1) % word ∷ t4 ∷ t5 ∷ t6 ∷ []

-- The main loop, over `k[i]` and `w[i]` side by side.
unfoldable tv_rounds : List ℕ → List ℕ → List ℕ → List ℕ
tv_rounds (k ∷ ks) (w ∷ ws) tv = tv_rounds ks ws (tv_round k w tv)
tv_rounds _ _ tv = tv

unfoldable add_words : List ℕ → List ℕ → List ℕ
add_words (a ∷ as_) (b ∷ bs) = (a + b) % word ∷ add_words as_ bs
add_words as_ _ = as_

-- What `sha256_calculate_chunk` does to `hcomps`.
unfoldable pub compress : List ℕ → List ℕ → List ℕ
unfolding rotate_r w_words w_extend tv_round tv_rounds add_words
compress hcomps chunk =
    add_words hcomps (tv_rounds k_table (w_extend 48 16 (w_words 16 chunk)) hcomps)

unfoldable pub sha256_calculate_chunk : Sha → List ℕ → Sha
sha256_calculate_chunk d chunk = record d { hcomps = compress d.hcomps chunk }

-- The `while` loop of `sha256_update`: the new state, and what is left of the input.
unfoldable pub update_blocks : ℕ → Sha → List ℕ → Sha × List ℕ
update_blocks zero d ptr = (d, ptr)
update_blocks (suc fuel) d ptr = elim (leb 64 (length ptr)) [
  | true ↦ update_blocks fuel (sha256_calculate_chunk d (take 64 ptr)) (drop 64 ptr)
  | false ↦ (d, ptr)
]

-- The first branch of `sha256_update`: the buffered bytes are filled up to a block.
unfoldable pub update_partial : Sha → List ℕ → Sha × List ℕ
update_partial d ptr =
    if leb 64 ((length ptr + d.chunk_size) % word)
    then (
      sha256_calculate_chunk (record d { chunk_size = 0 })
          (take d.chunk_size d.last_chunk ++ take (64 - d.chunk_size) ptr),
      drop (64 - d.chunk_size) ptr,
    )
    else (d, ptr)

-- The last step of `sha256_update`: what is left goes to the buffer.
unfoldable pub update_keep : Sha × List ℕ → Sha
update_keep (d, ptr) = record d {
  last_chunk = blit d.last_chunk d.chunk_size ptr;
  chunk_size = (d.chunk_size + length ptr) % 2 ^ 8;
}

-- `size` is the length of `bytes`.
unfoldable pub sha256_update : Sha → List ℕ → Sha
unfolding update_blocks update_partial update_keep
sha256_update d bytes =
    let (d', rest) =
      update_partial (record d { data_size = (d.data_size + length bytes) % 2 ^ 64 }) bytes in
    update_keep (update_blocks (length rest) d' rest)

-- The loop that writes the size at `last_chunk[55 + i]`, from `i = 8` down to 1.
unfoldable pub put_size : ℕ → ℕ → List ℕ → List ℕ
put_size zero size chunk = chunk
put_size (suc i) size chunk = put_size i (size / 2 ^ 8) (set chunk (55 + suc i) (size % 256))

-- The padding of the buffer, and the block that it needs where the size does not fit.
unfoldable pub finalize_pad : Sha → Sha
finalize_pad d =
    let used = d.chunk_size + 1 in
    let padded = record d {
      last_chunk = blit (set d.last_chunk d.chunk_size 0x80) used (replicate (64 - used) 0);
      chunk_size = used;
    } in
    if ltb 56 used
    then record (sha256_calculate_chunk padded padded.last_chunk) { last_chunk = replicate 64 0 }
    else padded

unfoldable pub sha256_finalize : Sha → Sha
sha256_finalize d =
    let p = finalize_pad d in
    let chunk = put_size 8 (p.data_size * 8 % 2 ^ 64) p.last_chunk in
    sha256_calculate_chunk (record p { last_chunk = chunk }) chunk

unfoldable pub sha256_output : List ℕ → List ℕ
sha256_output [] = []
sha256_output (h ∷ hs) =
    h / 2 ^ 24 % 256 ∷ h / 2 ^ 16 % 256 ∷ h / 2 ^ 8 % 256 ∷ h % 256 ∷ sha256_output hs

abbrev lut : List ℕ
lut =
    b'0' ∷ b'1' ∷ b'2' ∷ b'3' ∷ b'4' ∷ b'5' ∷ b'6' ∷ b'7' ∷ b'8' ∷ b'9' ∷ b'a' ∷ b'b' ∷ b'c' ∷ b'd'
    ∷ b'e' ∷ b'f' ∷ []

unfoldable pub bin_to_hex : List ℕ → CString
bin_to_hex [] = []
bin_to_hex (c ∷ cs) = get_or lut (c / 16) 0 ∷ get_or lut (c % 16) 0 ∷ bin_to_hex cs

unfoldable pub sha256_output_hex : Sha → CString
unfolding sha256_output bin_to_hex
sha256_output_hex d = bin_to_hex (sha256_output d.hcomps)
