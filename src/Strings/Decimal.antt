-- ===== src/Strings/Decimal.antt =====
-- Decimal numbers: `is_an_int` and `atoi` read back what `%d` prints.
use bittorrent_implementatio.Prelude.{
  ℕ, zero, suc, ◌+◌, ◌-◌, ◌*◌, ◌/◌, ◌%◌, ◌^◌, ◌≤◌, ◌<◌, ◌≡◌, refl, sym, ◌∙◌, inl, inr, true,
  Bool-cases, ◌&&◌, some, [], ◌∷◌, ◌++◌, CString, ltb, subst, lt→ltb, if◌then◌else◌, length,
  length-append, arith,
}
use native.Mathlib.Nat.{pow-suc}
use bittorrent_implementatio.Strings.{
  isspace, isdigit, is_any_space, all_digits, is_an_int, digits_value, atoi,
}
use bittorrent_implementatio.Strings.Lines.{IsWord}

abbrev digit : ℕ → CString
digit d = (b'0' + d) ∷ []

-- The decimal form of a number of at most `f` digits.
unfoldable pub decimal_on : ℕ → ℕ → CString
decimal_on zero n = []
decimal_on (suc f) n =
    let more = decimal_on f (n / 10) in if ltb n 10 then digit n else more ++ digit (n % 10)

-- That of an `int` that is not negative.
unfoldable pub decimal : ℕ → CString
decimal n = decimal_on 10 n

all_digits-append : (s t : CString) → all_digits (s ++ t) ≡ all_digits s && all_digits t
unfolding all_digits
all_digits-append [] t = refl
all_digits-append (c ∷ s) t = ground (arith, all_digits-append s t)

all_digits-digit : (d : ℕ) → d < 10 → all_digits (digit d) ≡ true
unfolding all_digits isdigit
all_digits-digit d h = ground arith

all_digits-decimal_on : (f n : ℕ) → all_digits (decimal_on f n) ≡ true
unfolding decimal_on
all_digits-decimal_on zero n = unfold all_digits in refl
all_digits-decimal_on (suc f) n = elim (Bool-cases (ltb n 10)) [
  | inl y ↦ rw y (all_digits-digit n (ground arith))
  | inr m ↦ rw m (
      ground (
        arith,
        all_digits-append (decimal_on f (n / 10)) (digit (n % 10)),
        all_digits-decimal_on f (n / 10),
        all_digits-digit (n % 10),
      ))
]

digits_value-append :
    (acc : ℕ) (s : CString) (d : ℕ)
    → all_digits s ≡ true
    → d < 10
    → digits_value acc (s ++ digit d) ≡ digits_value acc s * 10 + d
unfolding digits_value all_digits isdigit
digits_value-append acc [] d a h = ground arith
digits_value-append acc (c ∷ s) d a h =
    ground (arith, digits_value-append (acc * 10 + (c - b'0')) s d)

fewer_digits : (f n : ℕ) → n < 10 ^ suc f → n / 10 < 10 ^ f
fewer_digits f n h = omega (arith, pow-suc 10 f, h)

digits_value-digit : (n : ℕ) → n < 10 → digits_value 0 (digit n) ≡ n
unfolding digits_value isdigit
digits_value-digit n h = ground arith

digits_value-decimal_on : (f n : ℕ) → n < 10 ^ f → digits_value 0 (decimal_on f n) ≡ n
unfolding decimal_on
digits_value-decimal_on zero n h = unfold digits_value in omega arith
digits_value-decimal_on (suc f) n h = elim (Bool-cases (ltb n 10)) [
  | inl y ↦ rw y (digits_value-digit n (ground arith))
  | inr m ↦ rw m (
      digits_value-append 0 (decimal_on f (n / 10)) (n % 10) (all_digits-decimal_on f (n / 10))
        (omega arith)
      ∙ omega (arith, digits_value-decimal_on f (n / 10) (fewer_digits f n h)))
]

length-decimal_on : (f n : ℕ) → length (decimal_on f n) ≤ f
unfolding decimal_on
length-decimal_on zero n = omega arith
length-decimal_on (suc f) n =
    ground
      (arith, length-append (decimal_on f (n / 10)) (digit (n % 10)), length-decimal_on f (n / 10))

IsWord-append : (s t : CString) → IsWord s → IsWord t → IsWord (s ++ t)
IsWord-append [] t p q = q
IsWord-append (c ∷ s) t (h, p) q = (h, IsWord-append s t p q)

IsWord-digit : (d : ℕ) → d < 10 → IsWord (digit d)
unfolding is_any_space isspace
IsWord-digit d h = (ground arith, tt)

IsWord-decimal_on : (f n : ℕ) → IsWord (decimal_on f n)
unfolding decimal_on
IsWord-decimal_on zero n = tt
IsWord-decimal_on (suc f) n = elim (Bool-cases (ltb n 10)) [
  | inl y ↦ rw y (IsWord-digit n (ground arith))
  | inr m ↦ rw m (
      IsWord-append (decimal_on f (n / 10)) (digit (n % 10)) (IsWord-decimal_on f (n / 10))
        (IsWord-digit (n % 10) (omega arith)))
]

snoc-cons : (s : CString) (d : ℕ) → (c : ℕ) × (t : CString) × (s ++ digit d ≡ c ∷ t)
snoc-cons [] d = (b'0' + d, [], refl)
snoc-cons (c ∷ s) d = (c, s ++ digit d, refl)

-- The first character and the others.
decimal_on-cons : (f n : ℕ) → (c : ℕ) × (s : CString) × (decimal_on (suc f) n ≡ c ∷ s)
unfolding decimal_on
decimal_on-cons f n = elim (Bool-cases (ltb n 10)) [
  | inl y ↦ (b'0' + n, [], rw y refl)
  | inr m ↦ let (c, t, e) = snoc-cons (decimal_on f (n / 10)) (n % 10) in (c, t, rw m e)
]

-- What the parsers need of a printed number: it is there, has ten digits at most and no other
-- characters, and is read back.
pub record IsPrinted (n : ℕ) (s : CString) : Type 0 where
  pub head : ℕ
  pub rest : CString
  pub not_empty : s ≡ head ∷ rest
  pub plain : IsWord s
  pub short : length s ≤ 10
  pub is_int : is_an_int s ≡ true
  pub value : atoi s ≡ some n

is_an_int-cons : (c : ℕ) (s : CString) → all_digits (c ∷ s) ≡ true → is_an_int (c ∷ s) ≡ true
unfolding is_an_int
is_an_int-cons c s h = h

pub decimal-IsPrinted : (n : ℕ) → n < 2 ^ 31 → IsPrinted n (decimal n)
unfolding decimal atoi
decimal-IsPrinted n h =
    let (c, s, e) = decimal_on-cons 9 n in
    record {
      head = c;
      rest = s;
      not_empty = e;
      plain = IsWord-decimal_on 10 n;
      short = length-decimal_on 10 n;
      is_int =
          subst (λ z. is_an_int z ≡ true) (sym e)
            (is_an_int-cons c s (subst (λ z. all_digits z ≡ true) e (all_digits-decimal_on 10 n)));
      value = rw (digits_value-decimal_on 10 n (omega arith), lt→ltb n (2 ^ 31) h) refl;
    }
