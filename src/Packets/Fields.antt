-- ===== src/Packets/Fields.antt =====
-- The fields of REQ and RES packets, as sent and as read (project/src/peer.c).
use bittorrent_implementatio.Prelude.{
  ℕ, suc, ◌+◌, ◌/◌, ◌%◌, ◌^◌, ◌≤◌, ◌<◌, ◌≡◌, refl, sym, ap, ap₂, ◌∙◌, some, List, [], ◌∷◌, ◌++◌,
  append_assoc, length, length-append, length-take, take, drop, replicate, arith,
}
use bittorrent_implementatio.Sha256.{blit}
use bittorrent_implementatio.Packets.{
  BtidePacket, pkt_msg_req, pkt_msg_res, put_u32, get_u32, get_u16, read_bytes, send_req, read_req,
  send_res, read_res,
}

module _ {ℓ} {A : Type ℓ} where
  pub take-length : (xs ys : List A) → take (length xs) (xs ++ ys) ≡ xs
  take-length [] ys = refl
  take-length (x ∷ xs) ys = ap (◌∷◌ x) (take-length xs ys)

  drop-length : (xs ys : List A) (k : ℕ) → drop (length xs + k) (xs ++ ys) ≡ drop k ys
  drop-length [] ys k = ap (λ n. drop n ys) {y = k} (omega arith)
  drop-length (x ∷ xs) ys k =
      ap (λ n. drop n (x ∷ (xs ++ ys))) {y = suc (length xs + k)} (omega arith)
      ∙ drop-length xs ys k

-- A write behind `xs`.
blit-at :
    (xs rest src : List ℕ) (k : ℕ)
    → k ≡ length xs
    → blit (xs ++ rest) k src ≡ (xs ++ src) ++ drop (length src) rest
blit-at xs rest src k h =
    ap (λ j. blit (xs ++ rest) j src) h
    ∙ ap₂ (λ (a b : List ℕ). a ++ (src ++ b)) (take-length xs rest)
        (drop-length xs rest (length src))
    ∙ sym (append_assoc xs src (drop (length src) rest))

get-put_u32 : (n : ℕ) → n < 2 ^ 32 → (xs : List ℕ) → get_u32 (put_u32 n ++ xs) ≡ n
get-put_u32 n h xs = omega arith

read_bytes_exact : (n : ℕ) (xs : List ℕ) → n ≤ length xs → read_bytes n xs ≡ some (take n xs)
read_bytes_exact n xs h = ground arith

pub drop-prefix : (xs ys : List ℕ) (n : ℕ) → length xs ≡ n → drop n (xs ++ ys) ≡ ys
drop-prefix xs ys n h =
    ap (λ k. drop k (xs ++ ys)) {y = length xs + 0} (omega (arith, h)) ∙ drop-length xs ys 0

pub take-prefix : (xs ys : List ℕ) (n : ℕ) → length xs ≡ n → take n (xs ++ ys) ≡ xs
take-prefix xs ys n h = ap (λ k. take k (xs ++ ys)) (sym h) ∙ take-length xs ys

-- The four fields of a REQ packet one behind the other.
req_layout :
    (zs hash name : List ℕ) (a b : ℕ)
    → length hash ≡ 64
    → blit (blit (blit (blit zs 0 (put_u32 a)) 4 (put_u32 b)) 8 hash) 72 name
      ≡ (((put_u32 a ++ put_u32 b) ++ hash) ++ name)
        ++ drop (length name) (drop (length hash) (drop 4 (drop 4 zs)))
req_layout zs hash name a b h =
    ap (λ p. blit (blit p 8 hash) 72 name) (blit-at (put_u32 a) (drop 4 zs) (put_u32 b) 4 refl)
    ∙ ap (λ p. blit p 72 name) (blit-at (put_u32 a ++ put_u32 b) (drop 4 (drop 4 zs)) hash 8 refl)
    ∙ blit-at ((put_u32 a ++ put_u32 b) ++ hash) (drop (length hash) (drop 4 (drop 4 zs))) name 72
        (omega (arith, length-append (put_u32 a ++ put_u32 b) hash, h))

module _ (file_offset data_len : ℕ) (chunk_hash ident : List ℕ) (offset_fits : file_offset < 2 ^ 32)
    (length_fits : data_len < 2 ^ 32) (hash_bytes : 64 ≤ length chunk_hash)
    (ident_bytes : 1024 ≤ length ident) where
  -- With 64 and 1024 bytes to read at the two pointers, and an offset and a length below 2^32,
  -- `send_req` never faults, and what the receiver reads from its packet is what was sent: the
  -- offset, the length, the 64 bytes of the hash, and the 1024 bytes from the identifier on.
  pub read-send_req :
      (p : BtidePacket) × (send_req file_offset data_len chunk_hash ident ≡ some p)
      × (p.msg_code ≡ pkt_msg_req)
      × ((read_req p).offset ≡ file_offset)
      × ((read_req p).req_len ≡ data_len)
      × ((read_req p).hash ≡ take 64 chunk_hash)
      × (take 1024 (read_req p).ident ≡ take 1024 ident)
  unfolding send_req read_req
  read-send_req = (
    record { msg_code = 6; error = 0; payload = laid },
    rw (read_bytes_exact 64 chunk_hash hash_bytes, read_bytes_exact 1024 ident ident_bytes)
        (ap (λ q. some (record { msg_code = 6; error = 0; payload = q }))
          (req_layout (replicate 4092 0) (take 64 chunk_hash) (take 1024 ident) file_offset data_len
            hash_length)),
    refl,
    get-put_u32 file_offset offset_fits [],
    get-put_u32 data_len length_fits [],
    ap (take 64) (append_assoc (take 64 chunk_hash) (take 1024 ident) _)
        ∙ take-prefix (take 64 chunk_hash) _ 64 hash_length,
    ap (λ q. take 1024 (drop 64 q)) (append_assoc (take 64 chunk_hash) (take 1024 ident) _)
        ∙ ap (take 1024) (drop-prefix (take 64 chunk_hash) _ 64 hash_length)
        ∙ take-prefix (take 1024 ident) _ 1024 (omega (arith, length-take 1024 ident)),
  )
    where
      hash_length : length (take 64 chunk_hash) ≡ 64
      hash_length = omega (arith, length-take 64 chunk_hash)

      laid : List ℕ
      laid =
          (((put_u32 file_offset ++ put_u32 data_len) ++ take 64 chunk_hash) ++ take 1024 ident)
          ++ drop (length (take 1024 ident))
              (drop (length (take 64 chunk_hash)) (drop 4 (drop 4 (replicate 4092 0))))

abbrev lower : ℕ → List ℕ
lower n = n % 256 ∷ n / 2 ^ 8 % 256 ∷ []

abbrev upper : ℕ → List ℕ
upper n = n / 2 ^ 16 % 256 ∷ n / 2 ^ 24 % 256 ∷ []

-- The fields of a RES packet: the hash stands over the upper half of the length.
res_layout :
    (zs block hash name : List ℕ) (a n : ℕ)
    → length block ≡ 2998
    → length hash ≡ 64
    → (rest : List ℕ) × (blit
          (blit (blit (blit (blit zs 0 (put_u32 a)) 4 block) 3002 (put_u32 n)) 3004 hash)
          3068
          name
        ≡ put_u32 a ++ (block ++ (lower n ++ (hash ++ (name ++ rest)))))
res_layout zs block hash name a n hb hh = (
  drop (length name) rest₂,
  ap (λ p. blit (blit (blit p 3002 (put_u32 n)) 3004 hash) 3068 name)
        (blit-at (put_u32 a) (drop 4 zs) block 4 refl)
      ∙ ap (λ p. blit (blit p 3004 hash) 3068 name)
          (blit-at written₁ rest₁ (put_u32 n) 3002 (omega (arith, hb)))
      ∙ ap (λ p. blit (blit p 3004 hash) 3068 name)
          (append_assoc written₁ (put_u32 n) (drop 4 rest₁)
            ∙ sym (append_assoc written₁ (lower n) _))
      ∙ ap (λ p. blit p 3068 name)
          (blit-at (written₁ ++ lower n) (upper n ++ drop 4 rest₁) hash 3004
            (omega (arith, length-append written₁ (lower n), hb)))
      ∙ blit-at ((written₁ ++ lower n) ++ hash) rest₂ name 3068 (
          omega (
            arith,
            length-append (written₁ ++ lower n) hash,
            length-append written₁ (lower n),
            hb,
            hh,
          ))
      ∙ simp append_assoc,
)
  where
    written₁ : List ℕ
    written₁ = put_u32 a ++ block

    rest₁ : List ℕ
    rest₁ = drop (length block) (drop 4 zs)

    rest₂ : List ℕ
    rest₂ = drop (length hash) (upper n ++ drop 4 rest₁)

module _ (file_offset current_read : ℕ) (bytes chunk_hash ident : List ℕ)
    (offset_fits : file_offset < 2 ^ 32) (read_fits : current_read < 2 ^ 16)
    (block_bytes : 2998 ≤ length bytes) (hash_bytes : 64 ≤ length chunk_hash)
    (ident_bytes : 1024 ≤ length ident) where
  -- With 2998, 64 and 1024 bytes to read at the three pointers, an offset below 2^32 and a length
  -- below 2^16, `send_res` never faults, and what the receiver reads from its packet is what was
  -- sent: the offset, the data, their length, the 64 bytes of the hash, and the 1024 bytes from
  -- the identifier on.
  pub read-send_res :
      (p : BtidePacket) × (send_res file_offset bytes current_read chunk_hash ident ≡ some p)
      × (p.msg_code ≡ pkt_msg_res)
      × ((read_res p).offset ≡ file_offset)
      × ((read_res p).block ≡ take 2998 bytes)
      × ((read_res p).data_len ≡ current_read)
      × ((read_res p).hash ≡ take 64 chunk_hash)
      × (take 1024 (read_res p).ident ≡ take 1024 ident)
  unfolding send_res read_res
  read-send_res =
      let block = take 2998 bytes in
      let hash = take 64 chunk_hash in
      let name = take 1024 ident in
      let (rest, e) =
        res_layout (replicate 4092 0) block hash name file_offset current_read block_length
          hash_length in
      (
        record {
          msg_code = 7;
          error = 0;
          payload =
              put_u32 file_offset ++ (block ++ (lower current_read ++ (hash ++ (name ++ rest))));
        },
        rw
            (
              read_bytes_exact 2998 bytes block_bytes,
              read_bytes_exact 64 chunk_hash hash_bytes,
              read_bytes_exact 1024 ident ident_bytes,
            )
            (ap (λ q. some (record { msg_code = 7; error = 0; payload = q })) e),
        refl,
        get-put_u32 file_offset offset_fits [],
        take-prefix block _ 2998 block_length,
        ap get_u16
              (drop-prefix block (lower current_read ++ (hash ++ (name ++ rest))) 2998 block_length)
            ∙ omega (arith, read_fits),
        ap (take 64) (behind_length (hash ++ (name ++ rest))) ∙ take-prefix hash _ 64 hash_length,
        ap (take 1024) (behind_hash (name ++ rest))
            ∙ take-prefix name _ 1024 (omega (arith, length-take 1024 ident)),
      )
    where
      block_length : length (take 2998 bytes) ≡ 2998
      block_length = omega (arith, length-take 2998 bytes)

      hash_length : length (take 64 chunk_hash) ≡ 64
      hash_length = omega (arith, length-take 64 chunk_hash)

      behind_length : (ys : List ℕ) → drop 3000 (take 2998 bytes ++ (lower current_read ++ ys)) ≡ ys
      behind_length ys =
          ap (drop 3000) (sym (append_assoc (take 2998 bytes) (lower current_read) ys))
          ∙ drop-prefix (take 2998 bytes ++ lower current_read) ys 3000
              (omega (arith, length-append (take 2998 bytes) (lower current_read), block_length))

      behind_hash :
          (ys : List ℕ)
          → drop 3064 (take 2998 bytes ++ (lower current_read ++ (take 64 chunk_hash ++ ys))) ≡ ys
      behind_hash ys =
          ap (drop 3064) (
            ap (◌++◌ (take 2998 bytes))
              (sym (append_assoc (lower current_read) (take 64 chunk_hash) ys))
            ∙ sym (append_assoc (take 2998 bytes) (lower current_read ++ take 64 chunk_hash) ys))
          ∙ drop-prefix (take 2998 bytes ++ (lower current_read ++ take 64 chunk_hash)) ys 3064 (
              omega (
                arith,
                length-append (take 2998 bytes) (lower current_read ++ take 64 chunk_hash),
                block_length,
                hash_length,
              ))
