-- ===== src/Pkgchk/Completed.antt =====
-- `compute_hashes_for_chunks`: which leaves get a computed hash, and which.
use bittorrent_implementatio.Prelude.{
  ℕ, zero, suc, ◌+◌, ◌*◌, ◌^◌, ◌≤◌, ◌<◌, ◌≡◌, ◌≢◌, refl, sym, ap, subst, ◌∙◌, true, false, some,
  Option, List, [], ◌∷◌, map, CString, ◌==◌, leb, lt→leb_false, if◌then◌else◌, length, length-take,
  length-drop, get_elem?, take, drop, arith,
}
use native.Mathlib.Decide.{dec_lt}
use native.Mathlib.Nat.{zero-add, suc-add}
use bittorrent_implementatio.Sha256.{
  Sha, sha256_compute_data_init, sha256_update, sha256_output, bin_to_hex, sha256_output_hex,
}
use bittorrent_implementatio.Sha256.Stream.{Holds, init-Holds, sha256_update-Holds}
use bittorrent_implementatio.Sha256.Finalize.{sha256_finalize-digest, length-sha256_finalize}
use bittorrent_implementatio.Sha256.Digest.{hex_digest}
use bittorrent_implementatio.Merkle.{Tree, Chunk, set_computed}
use bittorrent_implementatio.Merkle.Marks.{
  blank, blank-set_computed, mark, mark-set_computed, copy_hash-set_computed,
}
use bittorrent_implementatio.Merkle.Built.{link}
use bittorrent_implementatio.Merkle.Keys.{IsTreeOf}
use bittorrent_implementatio.Strings.{strip_whitespace}
use bittorrent_implementatio.Pkgchk.{
  BpkgObj, Files, zero_sha, block_state, compute_loop, compute_hashes_for_chunks,
}
use bittorrent_implementatio.Pkgchk.AllHashes.{IsPackage}

module _ (sha : Sha) (block : List ℕ) (h : length sha.last_chunk ≡ 64)
    (s : length block + 64 < 2 ^ 32) where
  block-Holds : Holds (sha256_update (sha256_compute_data_init sha) block) block
  block-Holds = sha256_update-Holds (sha256_compute_data_init sha) [] block (init-Holds sha h) s

  block_state-hex : sha256_output_hex (block_state sha block) ≡ hex_digest block
  unfolding block_state sha256_output_hex
  block_state-hex =
      ap (λ hs. bin_to_hex (sha256_output hs)) (sha256_finalize-digest _ block block-Holds)

  length-block_state : length (block_state sha block).last_chunk ≡ 64
  unfolding block_state
  length-block_state = length-sha256_finalize _ block block-Holds

-- The computed hash of chunk `j` of a file whose blocks have `size` bytes.
abbrev pub block_hex : ℕ → List ℕ → ℕ → CString
block_hex size content j = hex_digest (take size (drop (j * size) content))

-- Chunk `j` from here on is linked to the leaf of key `j + n`.
abbrev pub Linked : ℕ → List Chunk → Type 0
Linked n [] = Unit {0}
Linked n (c ∷ cs) = (c.node_ptr ≡ some n) × Linked (suc n) cs

-- What the loop makes of the tree, from chunk `n` of the file on.
record Computes (size n : ℕ) (cs : List Chunk) (rest : List ℕ) (t : Tree) (out : Option Tree)
    : Type 0 where
  after : Tree
  returns : out ≡ some after
  same : blank after ≡ blank t
  early : (k : ℕ) → k < n → mark k after ≡ mark k t
  marked :
      (j : ℕ)
      → j < length cs
      → mark (j + n) after ≡ (
          if leb (size + j * size) (length rest)
          then map (λ _. block_hex size rest j) (mark (j + n) t)
          else mark (j + n) t)

pub drop-drop : (a b : ℕ) (xs : List ℕ) → drop a (drop b xs) ≡ drop (b + a) xs
drop-drop a zero xs = rw zero-add refl
drop-drop a (suc b) [] = rw suc-add (drop-nil a)
  where
    drop-nil : (k : ℕ) → drop {A = ℕ} k [] ≡ []
    drop-nil zero = refl
    drop-nil (suc k) = refl
drop-drop a (suc b) (x ∷ xs) = rw suc-add (drop-drop a b xs)

module _ (size : ℕ) (pos : 0 < size) (small : size + 64 < 2 ^ 32) where
  -- A block that is not whole ends the loop.
  loop_short :
      (n : ℕ) (cs : List Chunk) (rest : List ℕ) (sha : Sha) (t : Tree)
      → length rest < size
      → Computes size n cs rest t (compute_loop size cs rest sha t)
  unfolding compute_loop
  loop_short n cs rest sha t h = record {
    after = t;
    returns = ends cs;
    same = refl;
    early = λ k lt. refl;
    marked = λ j lt. rw (lt→leb_false (size + j * size) (length rest) (omega arith)) refl;
  }
    where
      not_whole : (length (take size rest) == size) ≡ false
      not_whole = ground (arith, length-take size rest)

      ends : (cs : List Chunk) → compute_loop size cs rest sha t ≡ some t
      ends [] = rw not_whole refl
      ends (c ∷ cs) = rw (not_whole, compute_loop) refl

  loop_whole :
      (n : ℕ) (c : Chunk) (cs : List Chunk) (rest : List ℕ) (sha : Sha) (t : Tree)
      → size ≤ length rest
      → length sha.last_chunk ≡ 64
      → c.node_ptr ≡ some n
      → Computes size (suc n) cs (drop size rest) (set_computed n (hex_digest (take size rest)) t) (
          compute_loop size cs
            (drop size rest)
            (block_state sha (take size rest))
            (set_computed n (hex_digest (take size rest)) t))
      → Computes size n (c ∷ cs) rest t (compute_loop size (c ∷ cs) rest sha t)
  loop_whole n c cs rest sha t h hl e r = record {
    after = r.after;
    returns = step ∙ r.returns;
    same = r.same ∙ blank-set_computed n first t;
    early = λ k lt. r.early k (omega arith) ∙ mark-set_computed k n first t ∙ other k (omega arith);
    marked = marks;
  }
    where
      first : CString
      first = hex_digest (take size rest)

      whole : (length (take size rest) == size) ≡ true
      whole = ground (arith, length-take size rest)

      step :
          compute_loop size (c ∷ cs) rest sha t
          ≡ compute_loop size cs
              (drop size rest)
              (block_state sha (take size rest))
              (set_computed n first t)
      step =
          unfold compute_loop in
          rw (whole, compute_loop)
            (rw (e, block_state-hex sha (take size rest) hl (omega (arith, length-take size rest)))
              (rw (copy_hash-set_computed n first t) refl))

      other :
          (k : ℕ) → k ≢ n → (if k == n then map (λ _. first) (mark k t) else mark k t) ≡ mark k t
      other k ne = ground arith

      later : (j : ℕ) → block_hex size (drop size rest) j ≡ block_hex size rest (suc j)
      later j =
          ap (λ xs. hex_digest (take size xs))
            (drop-drop (j * size) size rest
              ∙ ap (λ k. drop k rest) {y = suc j * size} (omega arith))

      marks :
          (j : ℕ)
          → j < length (c ∷ cs)
          → mark (j + n) r.after ≡ (
              if leb (size + j * size) (length rest)
              then map (λ _. block_hex size rest j) (mark (j + n) t)
              else mark (j + n) t)
      marks zero lt =
          r.early (0 + n) (omega arith)
          ∙ mark-set_computed (0 + n) n first t
          ∙ ground (
            arith,
            ap (λ k. hex_digest (take size (drop k rest))) {x = 0 * size} {y = 0} (omega arith),
          )
      marks (suc j) lt =
          ap (λ k. mark k r.after) {y = j + suc n} (omega arith)
          ∙ r.marked j (omega arith)
          ∙ ground (
            arith,
            ap (λ k. mark k (set_computed n first t)) {x = suc j + n} {y = j + suc n} (omega arith),
            mark-set_computed (suc j + n) n first t,
            later j,
            length-drop size rest,
          )

  -- If the file has no whole block behind the last chunk, the loop never faults.
  loop-Computes :
      (n : ℕ) (cs : List Chunk) (rest : List ℕ) (sha : Sha) (t : Tree)
      → length sha.last_chunk ≡ 64
      → Linked n cs
      → length rest < size + length cs * size
      → Computes size n cs rest t (compute_loop size cs rest sha t)
  loop-Computes n [] rest sha t hl ln fits = loop_short n [] rest sha t (omega arith)
  loop-Computes n (c ∷ cs) rest sha t hl ln fits = elim (dec_lt (length rest) size) [
    | yes short ↦ loop_short n (c ∷ cs) rest sha t short
    | no long ↦
        let block = take size rest in
        let le : length block + 64 < 2 ^ 32 = omega (arith, length-take size rest) in
        loop_whole n c cs rest sha t (omega arith) hl ln.0 (
          loop-Computes (suc n) cs (drop size rest) (block_state sha block) _
            (length-block_state sha block hl le) ln.1 (omega (arith, length-drop size rest)))
  ]

pub Linked-from :
    (n : ℕ) (cs : List Chunk) → ((j : ℕ) → j < length cs → link cs j ≡ some (j + n)) → Linked n cs
Linked-from n [] h = tt
Linked-from n (c ∷ cs) h = (
  h 0 (omega arith) ∙ ap some (omega arith),
  Linked-from (suc n) cs (λ j lt. h (suc j) (omega arith) ∙ ap some {x = suc j + n} (omega arith)),
)

module _ (files : Files) (b : BpkgObj) (v : IsPackage b) (first : Chunk) (content : List ℕ)
    (has_chunk : get_elem? b.chunks 0 ≡ some first)
    (opens : files (strip_whitespace b.filename) ≡ some content) (pos : 0 < first.size)
    (small : first.size + 64 < 2 ^ 32)
    (fits : length content < first.size + length b.chunks * first.size) where
  pub compute_hashes-marks :
      (b' : BpkgObj) × (compute_hashes_for_chunks files b ≡ some b')
      × IsPackage b'
      × ((j : ℕ)
          → j < length b.chunks
          → mark (j + b.nhashes) b'.tree.root ≡ (
              if leb (first.size + j * first.size) (length content)
              then map (λ _. block_hex first.size content j) (mark (j + b.nhashes) b.tree.root)
              else mark (j + b.nhashes) b.tree.root))
      × (b' ≡ record b { filename = strip_whitespace b.filename; tree = b'.tree })
  unfolding compute_hashes_for_chunks
  compute_hashes-marks = (
    record b {
      filename = strip_whitespace b.filename;
      tree = record { root = r.after; n_nodes = b.tree.n_nodes };
    },
    ground (arith, r.returns),
    record {
      hash_count = v.hash_count;
      chunk_count = v.chunk_count;
      shape = subst (IsTreeOf b.hashes b.chunks) (sym r.same) v.shape;
    },
    r.marked,
    refl,
  )
    where
      r :
          Computes first.size b.nhashes b.chunks content b.tree.root
            (compute_loop first.size b.chunks content zero_sha b.tree.root)
      r =
          loop-Computes first.size pos small b.nhashes b.chunks content zero_sha b.tree.root refl
            (Linked-from b.nhashes b.chunks
              (λ j lt. v.shape.linked j lt ∙ ap some (omega (arith, v.hash_count))))
            fits
