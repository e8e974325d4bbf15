-- ===== src/Prelude/Text.antt =====
-- C strings: the bytes before the terminating NUL. `strcmp(a, b) == 0` and `strncmp(a, b, n) == 0`.
use Prim.Native.Nat.{ℕ, zero, suc}
use mathlib.Core.Path.{◌≡◌, refl}
use mathlib.Core.Logic.{◌↔◌}
use mathlib.Core.Bool.{Bool, true, false, ◌&&◌}
use mathlib.Core.List.{List, [], ◌∷◌}
use native.Mathlib.Omega.{arith}
use bittorrent_implementatio.Prelude.Tests.{◌==◌}
use bittorrent_implementatio.Prelude.Lists.{take}

abbrev pub CString : Type 0
CString = List ℕ

unfoldable pub str_eq : CString → CString → Bool
str_eq [] [] = true
str_eq [] (y ∷ b) = false
str_eq (x ∷ a) [] = false
str_eq (x ∷ a) (y ∷ b) = x == y && str_eq a b

-- `strncmp` stops at the first difference, at the end of both texts, or after `n` bytes.
unfoldable pub strn_eq : ℕ → CString → CString → Bool
strn_eq zero a b = true
strn_eq (suc n) [] [] = true
strn_eq (suc n) [] (y ∷ b) = false
strn_eq (suc n) (x ∷ a) [] = false
strn_eq (suc n) (x ∷ a) (y ∷ b) = x == y && strn_eq n a b

pub str_eq→eq : (a b : CString) → str_eq a b ≡ true → a ≡ b
unfolding str_eq
str_eq→eq [] [] h = refl
str_eq→eq [] (y ∷ b) h = ground arith
str_eq→eq (x ∷ a) [] h = ground arith
str_eq→eq (x ∷ a) (y ∷ b) h = ground (arith, str_eq→eq a b)

pub str_eq_refl : (a : CString) → str_eq a a ≡ true
unfolding str_eq
str_eq_refl [] = refl
str_eq_refl (x ∷ a) = ground (arith, str_eq_refl a)

pub str_eq_iff : (a b : CString) → (str_eq a b ≡ true) ↔ (a ≡ b)
str_eq_iff a b = (str_eq→eq a b, λ e. ground (arith, e, str_eq_refl a))

pub str_eq_comm : (a b : CString) → str_eq a b ≡ str_eq b a
unfolding str_eq
str_eq_comm [] [] = refl
str_eq_comm [] (y ∷ b) = refl
str_eq_comm (x ∷ a) [] = refl
str_eq_comm (x ∷ a) (y ∷ b) = ground (arith, str_eq_comm a b)

pub strn_eq_iff : (n : ℕ) (a b : CString) → (strn_eq n a b ≡ true) ↔ (take n a ≡ take n b)
unfolding strn_eq
strn_eq_iff zero a b = (λ _. refl, λ _. refl)
strn_eq_iff (suc n) [] [] = (λ _. refl, λ _. refl)
strn_eq_iff (suc n) [] (y ∷ b) = (λ h. ground arith, λ h. ground arith)
strn_eq_iff (suc n) (x ∷ a) [] = (λ h. ground arith, λ h. ground arith)
strn_eq_iff (suc n) (x ∷ a) (y ∷ b) =
    (λ h. ground (arith, (strn_eq_iff n a b).0), λ h. ground (arith, (strn_eq_iff n a b).1))

pub strn_eq_refl : (n : ℕ) (a : CString) → strn_eq n a a ≡ true
unfolding strn_eq
strn_eq_refl zero a = refl
strn_eq_refl (suc n) [] = refl
strn_eq_refl (suc n) (x ∷ a) = ground (arith, strn_eq_refl n a)
