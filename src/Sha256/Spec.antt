-- ===== src/Sha256/Spec.antt =====
-- What sha256.c computes: the block function folded over the padded message (FIPS 180-4, 5.1.1 and
-- 6.2.2), with the block function itself as `compress`.
use bittorrent_implementatio.Prelude.{
  ℕ, zero, suc, ◌+◌, ◌-◌, ◌*◌, ◌/◌, ◌%◌, ◌^◌, ◌≤◌, ◌<◌, ◌≡◌, refl, ap, sym, subst, ◌∙◌, true, false,
  List, [], ◌∷◌, ◌++◌, leb, le→leb, length, take, drop, replicate, length-append, length-drop,
  arith,
}
use native.Mathlib.Nat.{zero-add, suc-add}
use native.Mathlib.Decide.{dec_lt}
use bittorrent_implementatio.Sha256.{compress, initial}

-- The chaining value after every whole block of the input, and the input that is left. The fuel is
-- at least the length.
unfoldable pub absorb : ℕ → List ℕ → List ℕ → List ℕ × List ℕ
absorb zero h p = (h, p)
absorb (suc f) h p = elim (leb 64 (length p)) [
  | true ↦ absorb f (compress h (take 64 p)) (drop 64 p)
  | false ↦ (h, p)
]

-- `size` as `n` big-endian bytes.
unfoldable pub be_bytes : ℕ → ℕ → List ℕ
be_bytes zero size = []
be_bytes (suc n) size = be_bytes n (size / 2 ^ 8) ++ (size % 256 ∷ [])

-- The number of zero bytes between the 0x80 and the length.
abbrev pub zeros : ℕ → ℕ
zeros len = (119 - len % 64) % 64

unfoldable pub padding : ℕ → List ℕ
padding len = 0x80 ∷ replicate (zeros len) 0 ++ be_bytes 8 (len * 8 % 2 ^ 64)

unfoldable pub digest : List ℕ → List ℕ
digest m = let p = m ++ padding (length m) in (absorb (length p) initial p).0

module _ {ℓ} {A : Type ℓ} where
  pub take-append_le : (n : ℕ) (xs ys : List A) → n ≤ length xs → take n (xs ++ ys) ≡ take n xs
  take-append_le zero xs ys h = refl
  take-append_le (suc n) [] ys h = absurd (omega arith)
  take-append_le (suc n) (x ∷ xs) ys h = ap (◌∷◌ x) (take-append_le n xs ys (omega arith))

  pub drop-append_le :
      (n : ℕ) (xs ys : List A) → n ≤ length xs → drop n (xs ++ ys) ≡ drop n xs ++ ys
  drop-append_le zero xs ys h = refl
  drop-append_le (suc n) [] ys h = absurd (omega arith)
  drop-append_le (suc n) (x ∷ xs) ys h = drop-append_le n xs ys (omega arith)

  pub take-append_add : (n : ℕ) (xs ys : List A) → take (length xs + n) (xs ++ ys) ≡ xs ++ take n ys
  take-append_add n [] ys = rw zero-add refl
  take-append_add n (x ∷ xs) ys = rw suc-add (ap (◌∷◌ x) (take-append_add n xs ys))

  pub drop-append_add : (n : ℕ) (xs ys : List A) → drop (length xs + n) (xs ++ ys) ≡ drop n ys
  drop-append_add n [] ys = rw zero-add refl
  drop-append_add n (x ∷ xs) ys = rw suc-add (drop-append_add n xs ys)

absorb_more :
    (f : ℕ) (h p : List ℕ)
    → 64 ≤ length p
    → absorb (suc f) h p ≡ absorb f (compress h (take 64 p)) (drop 64 p)
unfolding absorb
absorb_more f h p l = rw (le→leb 64 (length p) l, absorb) refl

pub absorb_done : (f : ℕ) (h p : List ℕ) → length p < 64 → absorb f h p ≡ (h, p)
unfolding absorb
absorb_done zero h p l = refl
absorb_done (suc f) h p l = ground arith

absorb_fuel : (f : ℕ) (h p : List ℕ) → length p ≤ f → absorb (suc f) h p ≡ absorb f h p
absorb_fuel zero h p l = absorb_done 1 h p (omega arith) ∙ sym (absorb_done 0 h p (omega arith))
absorb_fuel (suc f) h p l = elim (dec_lt (length p) 64) [
  | yes s ↦ absorb_done (suc (suc f)) h p s ∙ sym (absorb_done (suc f) h p s)
  | no b ↦
      absorb_more (suc f) h p (omega arith)
      ∙ absorb_fuel f _ (drop 64 p) (omega (arith, length-drop 64 p))
      ∙ sym (absorb_more f h p (omega arith))
]

-- What is left is no longer than the input, and shorter than a block.
pub absorb-rest :
    (f : ℕ) (h p : List ℕ)
    → length p ≤ f
    → (length (absorb f h p).1 ≤ length p)
      × (length (absorb f h p).1 < 64)
      × (length (absorb f h p).1 ≡ length p % 64)
absorb-rest zero h p l = rw (absorb_done 0 h p (omega arith)) (omega arith)
absorb-rest (suc f) h p l = elim (dec_lt (length p) 64) [
  | yes s ↦ rw (absorb_done (suc f) h p s) (omega arith)
  | no b ↦ rw (absorb_more f h p (omega arith)) (
      omega (
        arith,
        absorb-rest f (compress h (take 64 p)) (drop 64 p) (omega (arith, length-drop 64 p)),
        length-drop 64 p,
      ))
]

-- Any fuel from the length on gives one result.
absorb_enough : (k f : ℕ) (h p : List ℕ) → length p ≤ f → absorb (k + f) h p ≡ absorb f h p
absorb_enough zero f h p l = rw zero-add refl
absorb_enough (suc k) f h p l =
    rw suc-add (absorb_fuel (k + f) h p (omega arith) ∙ absorb_enough k f h p l)

absorb-length : (f : ℕ) (h p : List ℕ) → length p ≤ f → absorb f h p ≡ absorb (length p) h p
absorb-length f h p l =
    subst (λ g. absorb g h p ≡ absorb (length p) h p) (omega arith)
      (absorb_enough (f - length p) (length p) h p (omega arith))

pub absorb_same :
    (f g : ℕ) (h p : List ℕ) → length p ≤ f → length p ≤ g → absorb f h p ≡ absorb g h p
absorb_same f g h p lf lg = absorb-length f h p lf ∙ sym (absorb-length g h p lg)

-- A whole block in front is one step.
pub absorb_block :
    (f : ℕ) (h p : List ℕ)
    → 64 ≤ length p
    → length p ≤ f
    → absorb f h p ≡ absorb (length (drop 64 p)) (compress h (take 64 p)) (drop 64 p)
absorb_block f h p l lf =
    absorb_same f (suc (length p)) h p lf (omega arith)
    ∙ absorb_more (length p) h p l
    ∙ absorb-length (length p) _ (drop 64 p) (omega (arith, length-drop 64 p))

-- Absorbing in two parts is absorbing the whole.
pub absorb-append :
    (f g : ℕ) (h a b : List ℕ)
    → length a ≤ f
    → length (a ++ b) ≤ g
    → absorb g h (a ++ b) ≡ (let (h', r) = absorb f h a in absorb g h' (r ++ b))
absorb-append zero g h a b hf hg = rw (absorb_done 0 h a (omega arith)) refl
absorb-append (suc f) zero h a b hf hg =
    rw (absorb_done (suc f) h a (omega (arith, length-append a b))) refl
absorb-append (suc f) (suc g) h a b hf hg = elim (dec_lt (length a) 64) [
  | yes s ↦ rw (absorb_done (suc f) h a s) refl
  | no l ↦
      absorb_more g h (a ++ b) (omega (arith, length-append a b))
      ∙ rw
          (
            take-append_le 64 a b (omega arith),
            drop-append_le 64 a b (omega arith),
            absorb_more f h a (omega arith),
          )
          (absorb-append f g (compress h (take 64 a)) (drop 64 a) b
              (omega (arith, length-drop 64 a))
              (omega (arith, length-append (drop 64 a) b, length-append a b, length-drop 64 a))
            ∙ sym (
                absorb_fuel g _ _ (
                  omega (
                    arith,
                    absorb-rest f (compress h (take 64 a)) (drop 64 a)
                        (omega (arith, length-drop 64 a)),
                    length-append (absorb f (compress h (take 64 a)) (drop 64 a)).1 b,
                    length-append a b,
                    length-drop 64 a,
                  ))))
]
