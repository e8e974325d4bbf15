-- ===== src/Packets.antt =====
-- The REQ and RES packets of project/src/peer.c, with project/include/net/packet.h, and the loop that
-- answers a request. A number in a packet has the byte order of the machine, taken to be
-- little-endian. A pointer is the list of the bytes that can be read from it on.
pub mod Fields
pub mod Serve
mod Tests
use bittorrent_implementatio.Prelude.{
  ℕ, zero, suc, ◌+◌, ◌-◌, ◌*◌, ◌/◌, ◌%◌, ◌^◌, Bool, true, false, Option, none, some, List, [], ◌∷◌,
  ◌++◌, CString, ltb, leb, ◌==◌, if◌then◌else◌, length, get_or, take, drop, replicate, ◌>>=◌,
}
use bittorrent_implementatio.Sha256.{blit}

-- `struct btide_packet`
pub record BtidePacket : Type 0 where
  pub msg_code : ℕ
  pub error : ℕ
  pub payload : List ℕ

-- PKT_MSG_REQ and PKT_MSG_RES
abbrev pub pkt_msg_req : ℕ
pkt_msg_req = 6

abbrev pub pkt_msg_res : ℕ
pkt_msg_res = 7

-- DATA_MAX_SIZE
abbrev pub data_max_size : ℕ
data_max_size = 2998

-- The bytes that a store of a `uint32_t` writes.
abbrev pub put_u32 : ℕ → List ℕ
put_u32 n = n % 256 ∷ n / 2 ^ 8 % 256 ∷ n / 2 ^ 16 % 256 ∷ n / 2 ^ 24 % 256 ∷ []

-- What a `uint32_t *` and a `uint16_t *` read.
abbrev pub get_u32 : List ℕ → ℕ
get_u32 b = get_or b 0 0 + get_or b 1 0 * 2 ^ 8 + get_or b 2 0 * 2 ^ 16 + get_or b 3 0 * 2 ^ 24

abbrev pub get_u16 : List ℕ → ℕ
get_u16 b = get_or b 0 0 + get_or b 1 0 * 2 ^ 8

-- The `n` bytes that `memcpy` reads; there is no result where the memory ends before.
abbrev pub read_bytes : ℕ → List ℕ → Option (List ℕ)
read_bytes n src = if leb n (length src) then some (take n src) else none

-- The packet that `send_req` sends.
unfoldable pub send_req : ℕ → ℕ → List ℕ → List ℕ → Option BtidePacket
send_req file_offset data_len chunk_hash ident = do
  hash ← read_bytes 64 chunk_hash
  name ← read_bytes 1024 ident
  let p₁ = blit (replicate 4092 0) 0 (put_u32 file_offset)
  let p₂ = blit p₁ 4 (put_u32 data_len)
  let p₃ = blit p₂ 8 hash
  some (record { msg_code = pkt_msg_req; error = 0; payload = blit p₃ 72 name })

-- What the receiver of a REQ packet reads: the offset, the length, the hash, and the memory that
-- `ident` points to.
pub record Request : Type 0 where
  pub offset : ℕ
  pub req_len : ℕ
  pub hash : List ℕ
  pub ident : List ℕ

unfoldable pub read_req : BtidePacket → Request
read_req buffer = record {
  offset = get_u32 buffer.payload;
  req_len = get_u32 (drop 4 buffer.payload);
  hash = take 64 (drop 8 buffer.payload);
  ident = drop 72 buffer.payload;
}

-- The packet that `send_res` sends without an error. The length is stored as a `uint32_t`, and the
-- hash then written over its upper half.
unfoldable pub send_res : ℕ → List ℕ → ℕ → List ℕ → List ℕ → Option BtidePacket
send_res file_offset bytes current_read chunk_hash ident = do
  block ← read_bytes data_max_size bytes
  hash ← read_bytes 64 chunk_hash
  name ← read_bytes 1024 ident
  let p₁ = blit (replicate 4092 0) 0 (put_u32 file_offset)
  let p₂ = blit p₁ 4 block
  let p₃ = blit p₂ 3002 (put_u32 current_read)
  let p₄ = blit p₃ 3004 hash
  some (record { msg_code = pkt_msg_res; error = 0; payload = blit p₄ 3068 name })

-- What the receiver of a RES packet reads.
pub record Response : Type 0 where
  pub offset : ℕ
  pub block : List ℕ
  pub data_len : ℕ
  pub hash : List ℕ
  pub ident : List ℕ

unfoldable pub read_res : BtidePacket → Response
read_res buffer = record {
  offset = get_u32 buffer.payload;
  block = take data_max_size (drop 4 buffer.payload);
  data_len = get_u16 (drop 3002 buffer.payload);
  hash = take 64 (drop 3004 buffer.payload);
  ident = drop 3068 buffer.payload;
}

-- What one RES packet of the answer holds besides the hash and the identifier.
pub record Piece : Type 0 where
  pub offset : ℕ
  pub current_read : ℕ
  pub payload : List ℕ

-- `read_amount`, or a whole DATA_MAX_SIZE, of what is left to send.
abbrev pub read_amount : ℕ → ℕ
read_amount left = if ltb left data_max_size then left else data_max_size

-- What a read of `get_data_from_file` gives: a short one frees the buffer and closes the file.
pub data FileRead : Type 0 where
  short : FileRead
  whole : List ℕ → List ℕ → FileRead

-- A read of `n` bytes into the buffer, whose rest is cleared, where `bytes_read` were read before. The file is `none`
-- once it is closed: to read from it, into the freed buffer, is no result. `bytes_read` is an `int`, and a sum that it
-- cannot hold is no result.
unfoldable pub read_open : ℕ → ℕ → Option (List ℕ) → Option FileRead
read_open bytes_read n none = none
read_open bytes_read n (some rest) =
    if leb n (length rest)
    then (if ltb (bytes_read + n) (2 ^ 31)
        then some (whole (take n rest ++ replicate (data_max_size - n) 0) (drop n rest))
        else none)
    else some short

-- The loop of the REQ handler: the packets without the error bit that it sends. `left` is `data_len - bytes_read`.
-- After a short read it sends a packet with the error bit and goes on, `bytes_read` being what it was. There is no
-- result if the fuel runs out.
unfoldable pub serve : ℕ → ℕ → ℕ → ℕ → Option (List ℕ) → Option (List Piece)
unfolding read_open
serve zero bytes_read left file_offset file = if ltb 0 left then none else some []
serve (suc fuel) bytes_read left file_offset file = elim (ltb 0 left) [
  | false ↦ some []
  | true ↦
      let n = read_amount left in
      elim (read_open bytes_read n file) [
        | none ↦ none
        | some short ↦ serve fuel bytes_read left file_offset none
        | some (whole block rest) ↦ do
          ps ← serve fuel (bytes_read + n) (left - n) ((file_offset + n) % 2 ^ 32) (some rest)
          some (record { offset = file_offset; current_read = n; payload = block } ∷ ps)
      ]
]
