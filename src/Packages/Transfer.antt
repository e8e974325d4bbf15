-- ===== src/Packages/Transfer.antt =====
-- A whole answer: the pieces that the REQ handler sends (project/src/peer.c), written one after the
-- other as `add_data_to_file` of project/src/package.c writes them.
use bittorrent_implementatio.Prelude.{
  ℕ, ◌+◌, ◌^◌, ◌≤◌, ◌<◌, ◌≡◌, sym, ap, ap₂, ◌∙◌, subst, List, [], ◌∷◌, ◌++◌, append-nil,
  append_assoc, some, length, length-append, length-take, take, drop, arith,
}
use bittorrent_implementatio.Packages.{write_at}
use bittorrent_implementatio.Packages.Writes.{padded, length-before, drop-write_at, take-append}
use bittorrent_implementatio.Packets.{Piece, serve}
use bittorrent_implementatio.Packets.Fields.{take-prefix}
use bittorrent_implementatio.Packets.Serve.{Placed, carried, serve-Serves}

-- The file after the pieces are written in the order of their packets.
unfoldable pub write_pieces : List ℕ → List Piece → List ℕ
write_pieces content [] = content
write_pieces content (p ∷ ps) =
    write_pieces (write_at content p.offset (take p.current_read p.payload)) ps

module _ (content : List ℕ) (off : ℕ) (x : List ℕ) where
  length-written : off + length x ≤ length (write_at content off x)
  length-written = omega (
    arith,
    length-append (take off (padded content off x)) (x ++ drop (off + length x) content),
    length-append x (drop (off + length x) content),
    length-before content off x,
  )

  before_next :
      take (off + length x) (write_at content off x) ≡ take off (padded content off x) ++ x
  before_next =
      ap (take (off + length x))
        (sym (append_assoc (take off (padded content off x)) x (drop (off + length x) content)))
      ∙ take-prefix (take off (padded content off x) ++ x) _ (off + length x) (
          omega
            (arith, length-append (take off (padded content off x)) x, length-before content off x))

  -- Two writes, one right behind the other, are one write.
  write_at-append :
      (y : List ℕ)
      → write_at (write_at content off x) (off + length x) y ≡ write_at content off (x ++ y)
  write_at-append y =
      ap₂ (λ (a b : List ℕ). a ++ (y ++ b))
        (take-append (off + length x) (write_at content off x) _ length-written ∙ before_next)
        (drop-write_at content off x (off + length x + length y) (omega arith)
          ∙ ap (λ k. drop k content) {y = off + length (x ++ y)} (omega (arith, length-append x y)))
      ∙ append_assoc (take off (padded content off x)) x (y ++ drop (off + length (x ++ y)) content)
      ∙ ap (◌++◌ (take off (padded content off x)))
          (sym (append_assoc x y (drop (off + length (x ++ y)) content)))

abbrev pub block_of : Piece → List ℕ
block_of p = take p.current_read p.payload

-- Pieces that go on where the last write ended.
pieces_after :
    (content : List ℕ) (off : ℕ) (x : List ℕ) (ps : List Piece)
    → Placed (off + length x) ps
    → off + length x + length (carried ps) < 2 ^ 32
    → write_pieces (write_at content off x) ps ≡ write_at content off (x ++ carried ps)
unfolding write_pieces
pieces_after content off x [] pl h = ap (write_at content off) (sym (append-nil x))
pieces_after content off x (p ∷ ps) (e, pos, le, full, pl) h =
    ap (λ c. write_pieces c ps)
      (ap (λ o. write_at (write_at content off x) o (block_of p)) e
        ∙ write_at-append content off x (block_of p))
    ∙ pieces_after content off (x ++ block_of p) ps
        (subst (λ o. Placed o ps)
          (omega (arith, here, size, length-append (block_of p) (carried ps), h)) pl)
        (omega (arith, here, length-append (block_of p) (carried ps), h))
    ∙ ap (write_at content off) (append_assoc x (block_of p) (carried ps))
  where
    size : length (block_of p) ≡ p.current_read
    size = omega (arith, length-take p.current_read p.payload, full, le)

    here : length (x ++ block_of p) ≡ length x + length (block_of p)
    here = length-append x (block_of p)

pub pieces_from :
    (content : List ℕ) (off : ℕ) (ps : List Piece)
    → Placed off ps
    → 0 < length (carried ps)
    → off + length (carried ps) < 2 ^ 32
    → write_pieces content ps ≡ write_at content off (carried ps)
unfolding write_pieces
pieces_from content off [] pl pos h = absurd (omega arith)
pieces_from content off (p ∷ ps) (e, q, le, full, pl) pos h =
    ap (λ o. write_pieces (write_at content o (block_of p)) ps) e
    ∙ pieces_after content off (block_of p) ps
        (subst (λ o. Placed o ps) (omega (arith, size, length-append (block_of p) (carried ps), h))
          pl)
        (omega (arith, length-append (block_of p) (carried ps), h))
  where
    size : length (block_of p) ≡ p.current_read
    size = omega (arith, length-take p.current_read p.payload, full, le)

-- The answer to a request for at least one byte, of fewer than 2^31, of a file that has the bytes asked
-- for and ends below 4 GiB: the loop returns, and its pieces, written one after the other, put just these bytes at the
-- offset that was asked for, as one write would.
pub serve-write_at :
    (fuel left offset : ℕ) (rest content : List ℕ)
    → 0 < left
    → left ≤ fuel
    → left ≤ length rest
    → left < 2 ^ 31
    → offset + left < 2 ^ 32
    → (ps : List Piece) × (serve fuel 0 left offset (some rest) ≡ some ps)
      × (write_pieces content ps ≡ write_at content offset (take left rest))
serve-write_at fuel left offset rest content pos hf hl hi h =
    let r = serve-Serves fuel 0 left offset rest hf hl (omega arith) in
    let size : length (carried r.pieces) ≡ left =
      omega (arith, ap length r.carries, length-take left rest, hl) in
    (
      r.pieces,
      r.returns,
      pieces_from content offset r.pieces r.placed (omega (arith, size)) (omega (arith, size))
          ∙ ap (write_at content offset) r.carries,
    )
