-- ===== src/Packets/Serve.antt =====
-- The pieces that answer a request (the REQ handler of project/src/peer.c and `get_data_from_file` of
-- project/src/package.c).
use bittorrent_implementatio.Prelude.{
  ℕ, zero, suc, ◌+◌, ◌-◌, ◌/◌, ◌%◌, ◌^◌, ◌≤◌, ◌<◌, ◌≡◌, refl, ap, ap₂, ◌∙◌, Option, some, List, [],
  ◌∷◌, ◌++◌, lt→ltb, le→leb, length, length-append, length-take, length-drop, length-replicate,
  take, drop, replicate, arith,
}
use bittorrent_implementatio.Packets.{Piece, whole, read_open, read_amount, serve}
use bittorrent_implementatio.Packets.Fields.{take-prefix}

-- The bytes that the pieces carry, one behind the other.
abbrev pub carried : List Piece → List ℕ
carried [] = []
carried (p ∷ ps) = take p.current_read p.payload ++ carried ps

-- Each piece is as big as the receiver expects and says where its bytes belong, from `offset` on.
abbrev pub Placed : ℕ → List Piece → Type 0
Placed offset [] = Unit {0}
Placed offset (p ∷ ps) =
    (p.offset ≡ offset)
    × (0 < p.current_read)
    × (p.current_read ≤ 2998)
    × (length p.payload ≡ 2998)
    × Placed ((offset + p.current_read) % 2 ^ 32) ps

pub record Serves (left offset : ℕ) (rest : List ℕ) (out : Option (List Piece)) : Type 0 where
  pub pieces : List Piece
  pub returns : out ≡ some pieces
  pub carries : carried pieces ≡ take left rest
  pub placed : Placed offset pieces
  pub packets : length pieces ≡ (left + 2997) / 2998

amount_pos :
    (left : ℕ)
    → 0 < left
    → (0 < read_amount left) × (read_amount left ≤ left) × (read_amount left ≤ 2998)
amount_pos left h = (ground arith, ground arith, ground arith)

take_nil : (n : ℕ) → take {A = ℕ} n [] ≡ []
take_nil zero = refl
take_nil (suc n) = refl

take-split : (a b : ℕ) (xs : List ℕ) → a ≤ b → take a xs ++ take (b - a) (drop a xs) ≡ take b xs
take-split zero b xs h = ap (λ n. take n xs) {y = b} (omega arith)
take-split (suc a) zero xs h = absurd (omega arith)
take-split (suc a) (suc b) [] h = take_nil (suc b - suc a)
take-split (suc a) (suc b) (x ∷ xs) h = ap (◌∷◌ x) (
    ap (λ n. take a xs ++ take n (drop a xs)) {x = suc b - suc a} {y = b - a} (omega arith)
    ∙ take-split a b xs (omega arith))

serve_done :
    (fuel bytes_read offset : ℕ) (file : Option (List ℕ))
    → serve fuel bytes_read 0 offset file ≡ some []
unfolding serve
serve_done zero bytes_read offset file = refl
serve_done (suc fuel) bytes_read offset file = refl

nothing_left :
    (offset : ℕ) (rest : List ℕ) {out : Option (List Piece)}
    → out ≡ some []
    → Serves 0 offset rest out
nothing_left offset rest e = record {
  pieces = [];
  returns = e;
  carries = refl;
  placed = tt;
  packets = omega arith;
}

read_whole :
    (bytes_read n : ℕ) (rest : List ℕ)
    → n ≤ length rest
    → bytes_read + n < 2 ^ 31
    → read_open bytes_read n (some rest)
      ≡ some (whole (take n rest ++ replicate (2998 - n) 0) (drop n rest))
unfolding read_open
read_whole bytes_read n rest h k =
    rw (read_open, le→leb n (length rest) h, lt→ltb (bytes_read + n) (2 ^ 31) k) refl

-- One packet, and what the rest of the loop sends.
serve_piece :
    (fuel bytes_read left offset : ℕ) (rest : List ℕ)
    → 0 < left
    → left ≤ length rest
    → bytes_read + left < 2 ^ 31
    → Serves
        (left - read_amount left)
        ((offset + read_amount left) % 2 ^ 32)
        (drop (read_amount left) rest)
        (serve fuel
          (bytes_read + read_amount left)
          (left - read_amount left)
          ((offset + read_amount left) % 2 ^ 32)
          (some (drop (read_amount left) rest)))
    → Serves left offset rest (serve (suc fuel) bytes_read left offset (some rest))
serve_piece fuel bytes_read left offset rest pos has fits more = record {
  pieces =
      record { offset = offset; current_read = n; payload = take n rest ++ replicate (2998 - n) 0 }
      ∷ more.pieces;
  returns =
      unfold serve in
      rw (serve, lt→ltb 0 left pos)
        (rw (read_whole bytes_read n rest (omega (arith, bound.1)) (omega (arith, bound.1)))
          (rw more.returns refl));
  carries =
      ap₂ ◌++◌ (take-prefix (take n rest) _ n (omega (arith, length-take n rest, bound.1)))
        more.carries
      ∙ take-split n left rest bound.1;
  placed = (
    refl,
    bound.0,
    bound.2,
    omega (
      arith,
      length-append (take n rest) (replicate (2998 - n) 0),
      length-take n rest,
      bound.1,
      bound.2,
      length-replicate {0} {A = ℕ} (2998 - n) 0,
    ),
    more.placed,
  );
  packets = ground (arith, more.packets);
}
  where
    n : ℕ
    n = read_amount left

    bound : (0 < read_amount left) × (read_amount left ≤ left) × (read_amount left ≤ 2998)
    bound = amount_pos left pos

-- If the file has `left` bytes from here on, the fuel is at least as much, and `bytes_read` stays
-- below 2^31 with them, the loop that answers a request returns: its pieces carry just these
-- bytes, each says where they belong, modulo 2^32, and the number of pieces is `left / 2998`
-- rounded up.
pub serve-Serves :
    (fuel bytes_read left offset : ℕ) (rest : List ℕ)
    → left ≤ fuel
    → left ≤ length rest
    → bytes_read + left < 2 ^ 31
    → Serves left offset rest (serve fuel bytes_read left offset (some rest))
serve-Serves fuel bytes_read zero offset rest hf hl h =
    nothing_left offset rest (serve_done fuel bytes_read offset (some rest))
serve-Serves zero bytes_read (suc k) offset rest hf hl h = absurd (omega arith)
serve-Serves (suc fuel) bytes_read (suc k) offset rest hf hl h =
    let (a, b, c) = amount_pos (suc k) (omega arith) in
    serve_piece fuel bytes_read (suc k) offset rest (omega arith) hl h (
      serve-Serves fuel (bytes_read + read_amount (suc k)) (suc k - read_amount (suc k)) _ _
        (omega (arith, a)) (omega (arith, a, length-drop (read_amount (suc k)) rest))
        (omega (arith, b)))
