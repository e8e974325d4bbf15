-- ===== src/Sha256/Digest.antt =====
-- sha256.c from end to end, for a message that comes in pieces, as its callers use it.
use bittorrent_implementatio.Prelude.{
  ℕ, ◌+◌, ◌^◌, ◌<◌, ◌≡◌, sym, ap, subst, List, [], ◌∷◌, ◌++◌, append_assoc, append-nil, CString,
  length,
}
use bittorrent_implementatio.Sha256.{
  Sha, sha256_compute_data_init, sha256_update, sha256_finalize, sha256_output, bin_to_hex,
  sha256_output_hex,
}
use bittorrent_implementatio.Sha256.Spec.{digest}
use bittorrent_implementatio.Sha256.Stream.{Holds, init-Holds, sha256_update-Holds}
use bittorrent_implementatio.Sha256.Finalize.{sha256_finalize-digest}

-- One `sha256_update` for each piece.
unfoldable pub update_all : Sha → List (List ℕ) → Sha
update_all d [] = d
update_all d (p ∷ ps) = update_all (sha256_update d p) ps

abbrev pub join : List (List ℕ) → List ℕ
join [] = []
join (p ∷ ps) = p ++ join ps

-- No piece is so long that a 32-bit sum wraps.
abbrev pub Short : List (List ℕ) → Type 0
Short [] = Unit {0}
Short (p ∷ ps) = (length p + 64 < 2 ^ 32) × Short ps

-- The digest as `sha256_output_hex` writes it.
abbrev pub hex_digest : List ℕ → CString
hex_digest m = bin_to_hex (sha256_output (digest m))

pub update_all-Holds :
    (d : Sha) (m : List ℕ) (ps : List (List ℕ))
    → Holds d m
    → Short ps
    → Holds (update_all d ps) (m ++ join ps)
unfolding update_all
update_all-Holds d m [] v s = subst (Holds d) (sym (append-nil m)) v
update_all-Holds d m (p ∷ ps) v s =
    subst (Holds (update_all (sha256_update d p) ps)) (append_assoc m p (join ps))
      (update_all-Holds (sha256_update d p) (m ++ p) ps (sha256_update-Holds d m p v s.0) s.1)

-- However a message is cut into pieces of less than 2^32 - 64 bytes, and whatever the state held
-- before in its buffer of 64 bytes, initialising, updating with each piece and finalising gives
-- the hexadecimal form of the reference digest of the whole message.
pub sha256_output_hex-digest :
    (d : Sha) (ps : List (List ℕ))
    → length d.last_chunk ≡ 64
    → Short ps
    → sha256_output_hex (sha256_finalize (update_all (sha256_compute_data_init d) ps))
      ≡ hex_digest (join ps)
unfolding sha256_output_hex
sha256_output_hex-digest d ps h s =
    ap (λ hs. bin_to_hex (sha256_output hs))
      (sha256_finalize-digest _ (join ps) (update_all-Holds _ [] ps (init-Holds d h) s))
