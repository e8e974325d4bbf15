-- ===== src/Sha256/Padding.antt =====
-- The bytes of a size field, and messages of one or two blocks, for `sha256_finalize`.
use bittorrent_implementatio.Prelude.{
  ℕ, zero, suc, ◌+◌, ◌/◌, ◌%◌, ◌^◌, ◌≤◌, ◌<◌, ◌≡◌, refl, ap, sym, ◌∙◌, List, [], ◌∷◌, ◌++◌, set,
  length, take, drop, replicate, length-append, length-set, append_assoc, arith,
}
use native.Mathlib.Nat.{zero-add, suc-add}
use bittorrent_implementatio.Sha256.{compress, put_size}
use bittorrent_implementatio.Sha256.Spec.{
  absorb, absorb_done, absorb_block, be_bytes, take-append_le, drop-append_le,
}
use bittorrent_implementatio.Sha256.Stream.{take_all}

module _ {ℓ} {A : Type ℓ} where
  pub drop_all : (k : ℕ) (xs : List A) → length xs ≤ k → drop k xs ≡ []
  drop_all zero [] h = refl
  drop_all (suc k) [] h = refl
  drop_all zero (x ∷ xs) h = absurd (omega arith)
  drop_all (suc k) (x ∷ xs) h = drop_all k xs (omega arith)

  pub drop-set :
      (xs : List A) (k : ℕ) (v : A) → k < length xs → drop k (set xs k v) ≡ v ∷ drop (suc k) xs
  drop-set [] k v h = absurd (omega arith)
  drop-set (x ∷ xs) zero v h = refl
  drop-set (x ∷ xs) (suc k) v h = drop-set xs k v (omega arith)

  pub take-set : (xs : List A) (j k : ℕ) (v : A) → j ≤ k → take j (set xs k v) ≡ take j xs
  take-set xs zero k v h = refl
  take-set [] (suc j) k v h = refl
  take-set (x ∷ xs) (suc j) zero v h = absurd (omega arith)
  take-set (x ∷ xs) (suc j) (suc k) v h = ap (◌∷◌ x) (take-set xs j k v (omega arith))

  pub take-suc-set :
      (xs : List A) (k : ℕ) (v : A)
      → k < length xs
      → take (suc k) (set xs k v) ≡ take k xs ++ (v ∷ [])
  take-suc-set [] k v h = absurd (omega arith)
  take-suc-set (x ∷ xs) zero v h = refl
  take-suc-set (x ∷ xs) (suc k) v h = ap (◌∷◌ x) (take-suc-set xs k v (omega arith))

  pub replicate-add : (a b : ℕ) (x : A) → replicate (a + b) x ≡ replicate a x ++ replicate b x
  replicate-add zero b x = rw zero-add refl
  replicate-add (suc a) b x = rw suc-add (ap (◌∷◌ x) (replicate-add a b x))

pub length-be_bytes : (n s : ℕ) → length (be_bytes n s) ≡ n
unfolding be_bytes
length-be_bytes zero s = refl
length-be_bytes (suc n) s =
    omega
      (arith, length-append (be_bytes n (s / 2 ^ 8)) (s % 256 ∷ []), length-be_bytes n (s / 2 ^ 8))

-- The loop writes the big-endian bytes from index 56 on.
pub put_size_lem :
    (i s : ℕ) (c : List ℕ)
    → 56 + i ≤ length c
    → put_size i s c ≡ take 56 c ++ (be_bytes i s ++ drop (56 + i) c)
unfolding put_size be_bytes
put_size_lem zero s c h = sym (take_drop 56 c)
  where
    take_drop : (k : ℕ) (xs : List ℕ) → take k xs ++ drop k xs ≡ xs
    take_drop zero xs = refl
    take_drop (suc k) [] = refl
    take_drop (suc k) (x ∷ xs) = ap (◌∷◌ x) (take_drop k xs)
put_size_lem (suc i) s c h =
    put_size_lem i (s / 2 ^ 8) (set c (55 + suc i) (s % 256))
      (omega (arith, length-set c (55 + suc i) (s % 256)))
    ∙ rw (take-set c 56 (55 + suc i) (s % 256) (omega arith), last, append_assoc) refl
  where
    last : drop (56 + i) (set c (55 + suc i) (s % 256)) ≡ s % 256 ∷ drop (56 + suc i) c
    last =
        ap (λ k. drop k (set c (55 + suc i) (s % 256))) (omega arith)
        ∙ drop-set c (55 + suc i) (s % 256) (omega arith)
        ∙ ap (λ k. s % 256 ∷ drop k c) {x = suc (55 + suc i)} (omega arith)

pub length-put_size : (i s : ℕ) (c : List ℕ) → length (put_size i s c) ≡ length c
unfolding put_size
length-put_size zero s c = refl
length-put_size (suc i) s c =
    length-put_size i (s / 2 ^ 8) (set c (55 + suc i) (s % 256))
    ∙ length-set c (55 + suc i) (s % 256)

-- A message whose first 64 bytes are `c`.
pub absorb_first :
    (f : ℕ) (h c rest : List ℕ)
    → length c ≡ 64
    → length (c ++ rest) ≤ f
    → absorb f h (c ++ rest) ≡ absorb (length rest) (compress h c) rest
absorb_first f h c rest e l =
    absorb_block f h (c ++ rest) (omega (arith, length-append c rest)) l ∙ rw (front, back) refl
  where
    front : take 64 (c ++ rest) ≡ c
    front = take-append_le 64 c rest (omega arith) ∙ rw e at (take_all c)

    back : drop 64 (c ++ rest) ≡ rest
    back = drop-append_le 64 c rest (omega arith) ∙ rw (drop_all 64 c (omega arith)) refl

pub one_block : (h c : List ℕ) → length c ≡ 64 → (absorb (length c) h c).0 ≡ compress h c
one_block h c e =
    ap (λ r. r.0) (absorb_block (length c) h c (omega arith) (omega arith))
    ∙ rw (drop_all 64 c (omega arith), absorb_done 0 (compress h (take 64 c)) [] (omega arith))
        (ap (compress h) (rw e at (take_all c)))

pub two_blocks :
    (h a b : List ℕ)
    → length a ≡ 64
    → length b ≡ 64
    → (absorb (length (a ++ b)) h (a ++ b)).0 ≡ compress (compress h a) b
two_blocks h a b ea eb =
    ap (λ r. r.0) (absorb_first (length (a ++ b)) h a b ea (omega arith))
    ∙ one_block (compress h a) b eb
