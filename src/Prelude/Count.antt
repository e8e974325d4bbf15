-- ===== src/Prelude/Count.antt =====
-- Occurrences of a number in a list, and permutations by occurrences.
use Prim.Native.Nat.{ℕ, zero, suc, ◌+◌, ◌<◌}
use mathlib.Core.Path.{◌≡◌, refl, ap, ◌∙◌}
use mathlib.Core.List.{List, [], ◌∷◌, ◌++◌, Perm, Permᴰ}
use mathlib.Core.List.Perm
use mathlib.Core.Logic.{inl, inr, ∥∥₁_elim}
use native.Mathlib.Nat.{ℕ_set}
use native.Mathlib.Omega.{arith}
use bittorrent_implementatio.Prelude.Tests.{◌==◌, ltb, if◌then◌else◌, Bool-cases, ==_iff}
use bittorrent_implementatio.Prelude.Lists.{length}

unfoldable pub count : ℕ → List ℕ → ℕ
count a [] = 0
count a (x ∷ xs) = (if a == x then 1 else 0) + count a xs

pub count-append : (a : ℕ) (xs ys : List ℕ) → count a (xs ++ ys) ≡ count a xs + count a ys
unfolding count
count-append a [] ys = omega arith
count-append a (x ∷ xs) ys = omega (arith, count-append a xs ys)

-- The numbers from `i` on, `n` of them.
unfoldable pub range_from : ℕ → ℕ → List ℕ
range_from i zero = []
range_from i (suc n) = i ∷ range_from (suc i) n

pub count-range_from :
    (a i n : ℕ) → count a (range_from i n) ≡ (if ltb a i then 0 else if ltb a (i + n) then 1 else 0)
unfolding count range_from
count-range_from a i zero = ground arith
count-range_from a i (suc n) = ground (arith, count-range_from a (suc i) n)

pub length-range_from : (i n : ℕ) → length (range_from i n) ≡ n
unfolding range_from
length-range_from i zero = refl
length-range_from i (suc n) = ap suc (length-range_from (suc i) n)

unfoldable pub remove_one : ℕ → List ℕ → List ℕ
remove_one a [] = []
remove_one a (x ∷ xs) = if a == x then xs else x ∷ remove_one a xs

count-remove_one :
    (a b : ℕ) (xs : List ℕ)
    → 0 < count a xs
    → count b (remove_one a xs) + (if b == a then 1 else 0) ≡ count b xs
unfolding count remove_one
count-remove_one a b [] h = absurd (omega arith)
count-remove_one a b (x ∷ xs) h = ground (arith, count-remove_one a b xs)

remove_one-perm : (a : ℕ) (xs : List ℕ) → 0 < count a xs → Perm (a ∷ remove_one a xs) xs
unfolding count remove_one
remove_one-perm a [] h = absurd (omega arith)
remove_one-perm a (x ∷ xs) h = elim (Bool-cases (a == x)) [
  | inl e ↦ rw (e, (==_iff a x).0 e, if◌then◌else◌) (Perm.refl (x ∷ xs))
  | inr e ↦
      rw (e, if◌then◌else◌)
        (Perm.trans (Perm.swap x a _) (Perm.cons x (remove_one-perm a xs (ground arith))))
]

empty_of_count : (ys : List ℕ) → ((a : ℕ) → count a [] ≡ count a ys) → ys ≡ []
unfolding count
empty_of_count [] h = refl
empty_of_count (y ∷ ys) h = absurd (ground (arith, h y))

pub perm_of_count : (xs ys : List ℕ) → ((a : ℕ) → count a xs ≡ count a ys) → Perm xs ys
perm_of_count [] ys h = rw (empty_of_count ys h) (Perm.refl [])
perm_of_count (x ∷ xs) ys h =
    Perm.trans
      (Perm.cons x (
        perm_of_count xs (remove_one x ys)
          (λ a. unfold count in ground (arith, h a, count-remove_one x a ys (occurs a)))))
      (remove_one-perm x ys (occurs x))
  where
    occurs : ℕ → 0 < count x ys
    occurs _ = unfold count in ground (arith, h x)

length-permᴰ {ℓ} : {A : Type ℓ} {xs ys : List A} → Permᴰ xs ys → length xs ≡ length ys
length-permᴰ Permᴰ.nil = refl
length-permᴰ (Permᴰ.cons e p) = ap suc (length-permᴰ p)
length-permᴰ (Permᴰ.swap e f) = refl
length-permᴰ (Permᴰ.trans p q) = length-permᴰ p ∙ length-permᴰ q

pub length-perm {ℓ} : {A : Type ℓ} {xs ys : List A} → Perm xs ys → length xs ≡ length ys
length-perm {xs = xs} {ys = ys} p = ∥∥₁_elim p (ℕ_set (length xs) (length ys)) length-permᴰ
