-- ===== src/Strings/Lines.antt =====
-- Reading a text file by lines, and fields by delimiters: `fgets` and `strtok` on well-formed input.
use bittorrent_implementatio.Prelude.{
  ℕ, zero, suc, ◌+◌, ◌-◌, ◌<◌, ◌≡◌, refl, ap, ◌∙◌, Bool, true, false, ◌&&◌, Option, some, List, [],
  ◌∷◌, ◌++◌, CString, ◌==◌, if◌then◌else◌, length, arith,
}
use bittorrent_implementatio.Strings.{
  isspace, is_any_space, skip_space, cut_space, strip_whitespace, skip_delim, split_delim,
  first_token, strtok, fgets, cut_line, c_text,
}

-- A text with no space of any kind, no NUL and no delimiter in it.
abbrev pub word_char : ℕ → Bool
word_char c =
    if is_any_space c then false else if c == b':' then false else if c == b',' then false else true

abbrev pub IsWord : CString → Type 0
IsWord [] = Unit {0}
IsWord (c ∷ cs) = (word_char c ≡ true) × IsWord cs

and_left : (a b : Bool) → a && b ≡ true → a ≡ true
and_left a b h = ground arith

and_right : (a b : Bool) → a && b ≡ true → b ≡ true
and_right a b h = ground arith

-- The same as a test, for a given text.
abbrev pub all_word : CString → Bool
all_word [] = true
all_word (c ∷ cs) = word_char c && all_word cs

pub all_word-IsWord : (s : CString) → all_word s ≡ true → IsWord s
all_word-IsWord [] h = tt
all_word-IsWord (c ∷ cs) h = (and_left _ _ h, all_word-IsWord cs (and_right _ _ h))

-- `s` has no byte `d`.
abbrev pub Lacks : ℕ → CString → Type 0
Lacks d [] = Unit {0}
Lacks d (c ∷ cs) = ((c == d) ≡ false) × Lacks d cs

pub Lacks-append : (d : ℕ) (s t : CString) → Lacks d s → Lacks d t → Lacks d (s ++ t)
Lacks-append d [] t ls lt = lt
Lacks-append d (c ∷ s) t (h, ls) lt = (h, Lacks-append d s t ls lt)

word_colon : (c : ℕ) → word_char c ≡ true → (c == b':') ≡ false
unfolding is_any_space isspace
word_colon c h = ground arith

word_comma : (c : ℕ) → word_char c ≡ true → (c == b',') ≡ false
unfolding is_any_space isspace
word_comma c h = ground arith

word_space : (c : ℕ) → word_char c ≡ true → (c == b' ') ≡ false
unfolding is_any_space isspace
word_space c h = ground arith

word_line : (c : ℕ) → word_char c ≡ true → (c == 10) ≡ false
unfolding is_any_space isspace
word_line c h = ground arith

word_null : (c : ℕ) → word_char c ≡ true → (c == 0) ≡ false
unfolding is_any_space isspace
word_null c h = ground arith

word_any : (c : ℕ) → word_char c ≡ true → is_any_space c ≡ false
unfolding is_any_space isspace
word_any c h = ground arith

module _ (d : ℕ) (each : (c : ℕ) → word_char c ≡ true → (c == d) ≡ false) where
  IsWord-Lacks : (s : CString) → IsWord s → Lacks d s
  IsWord-Lacks [] p = tt
  IsWord-Lacks (c ∷ s) (h, p) = (each c h, IsWord-Lacks s p)

pub IsWord-Lacks_colon : (s : CString) → IsWord s → Lacks b':' s
IsWord-Lacks_colon s p = IsWord-Lacks b':' word_colon s p

pub IsWord-Lacks_comma : (s : CString) → IsWord s → Lacks b',' s
IsWord-Lacks_comma s p = IsWord-Lacks b',' word_comma s p

pub IsWord-Lacks_space : (s : CString) → IsWord s → Lacks b' ' s
IsWord-Lacks_space s p = IsWord-Lacks b' ' word_space s p

pub IsWord-Lacks_line : (s : CString) → IsWord s → Lacks 10 s
IsWord-Lacks_line s p = IsWord-Lacks 10 word_line s p

pub IsWord-Lacks_null : (s : CString) → IsWord s → Lacks 0 s
IsWord-Lacks_null s p = IsWord-Lacks 0 word_null s p

cut_line-line :
    (n : ℕ) (s rest : List ℕ)
    → Lacks 10 s
    → length s < n
    → cut_line n (s ++ 10 ∷ rest) ≡ (s ++ 10 ∷ [], rest)
unfolding cut_line
cut_line-line zero s rest l h = absurd (omega arith)
cut_line-line (suc n) [] rest l h = refl
cut_line-line (suc n) (c ∷ s) rest (h, l) lt = ground (arith, cut_line-line n s rest l)

c_text_lem : (s : CString) → Lacks 0 s → c_text s ≡ s
unfolding c_text
c_text_lem [] l = refl
c_text_lem (c ∷ s) (h, l) = ground (arith, c_text_lem s l)

text :
    (n : ℕ) (s rest : List ℕ)
    → Lacks 10 s
    → Lacks 0 s
    → length s + 1 < n
    → ◌≡◌ {A = Option (CString × List ℕ)}
        (some (c_text (cut_line (n - 1) (s ++ 10 ∷ rest)).0, (cut_line (n - 1) (s ++ 10 ∷ rest)).1))
        (some (s ++ 10 ∷ [], rest))
text n s rest l z h =
    ap (λ r. some (c_text r.0, r.1)) (cut_line-line (n - 1) s rest l (omega arith))
    ∙ ap (λ t. some (t, rest)) (c_text_lem (s ++ 10 ∷ []) (Lacks-append 0 s (10 ∷ []) z (refl, tt)))

-- `fgets` on a line that fits the buffer.
pub fgets-line :
    (n : ℕ) (s rest : List ℕ)
    → Lacks 10 s
    → Lacks 0 s
    → length s + 1 < n
    → fgets n (s ++ 10 ∷ rest) ≡ some (s ++ 10 ∷ [], rest)
unfolding fgets
fgets-line n [] rest l z h = text n [] rest l z h
fgets-line n (c ∷ s) rest l z h = text n (c ∷ s) rest l z h

split_delim-token :
    (d : ℕ) (s rest : CString) → Lacks d s → split_delim d (s ++ d ∷ rest) ≡ (s, rest)
unfolding split_delim
split_delim-token d [] rest l = ground arith
split_delim-token d (c ∷ s) rest (h, l) = ground (arith, split_delim-token d s rest l)

split_delim-all : (d : ℕ) (s : CString) → Lacks d s → split_delim d s ≡ (s, [])
unfolding split_delim
split_delim-all d [] l = refl
split_delim-all d (c ∷ s) (h, l) = ground (arith, split_delim-all d s l)

skip_delim-head : (d c : ℕ) (s : CString) → (c == d) ≡ false → skip_delim d (c ∷ s) ≡ c ∷ s
unfolding skip_delim
skip_delim-head d c s h = rw h refl

-- The first field of a text, and the last one.
pub strtok-token :
    (d c : ℕ) (s rest : CString)
    → Lacks d (c ∷ s)
    → strtok d ((c ∷ s) ++ d ∷ rest) ≡ some (c ∷ s, rest)
unfolding strtok first_token
strtok-token d c s rest (h, l) =
    rw (skip_delim-head d c (s ++ d ∷ rest) h) (ap some (split_delim-token d (c ∷ s) rest (h, l)))

pub strtok-all : (d c : ℕ) (s : CString) → Lacks d (c ∷ s) → strtok d (c ∷ s) ≡ some (c ∷ s, [])
unfolding strtok first_token
strtok-all d c s (h, l) = rw (skip_delim-head d c s h) (ap some (split_delim-all d (c ∷ s) (h, l)))

-- A text with no space of any kind and no NUL.
abbrev pub IsSolid : CString → Type 0
IsSolid [] = Unit {0}
IsSolid (c ∷ cs) = (is_any_space c ≡ false) × IsSolid cs

pub IsWord-IsSolid : (s : CString) → IsWord s → IsSolid s
IsWord-IsSolid [] p = tt
IsWord-IsSolid (c ∷ s) (h, p) = (word_any c h, IsWord-IsSolid s p)

pub IsSolid-append : (s t : CString) → IsSolid s → IsSolid t → IsSolid (s ++ t)
IsSolid-append [] t p q = q
IsSolid-append (c ∷ s) t (h, p) q = (h, IsSolid-append s t p q)

solid_isspace : (c : ℕ) → is_any_space c ≡ false → isspace c ≡ false
unfolding is_any_space
solid_isspace c h = ground arith

cut_space-line : (s : CString) → IsSolid s → cut_space (s ++ 10 ∷ []) ≡ s
unfolding cut_space is_any_space
cut_space-line [] p = refl
cut_space-line (c ∷ []) (h, p) = rw h refl
cut_space-line (c ∷ d ∷ s) (h, p) = rw (cut_space-line (d ∷ s) p) refl

skip_space-head : (c : ℕ) (s : CString) → isspace c ≡ false → skip_space (c ∷ s) ≡ c ∷ s
unfolding skip_space
skip_space-head c s h = rw h refl

-- A field with the newline behind it, or with a tab in front besides, is stripped to the field.
pub strip-line : (s : CString) → IsSolid s → strip_whitespace (s ++ 10 ∷ []) ≡ s
unfolding strip_whitespace
strip-line [] p = refl
strip-line (c ∷ s) (h, p) =
    rw (skip_space-head c (s ++ 10 ∷ []) (solid_isspace c h)) (cut_space-line (c ∷ s) (h, p))

skip_tab : (s : CString) → skip_space (9 ∷ s) ≡ skip_space s
unfolding skip_space isspace
skip_tab s = refl

pub strip_tabbed : (s : CString) → IsSolid s → strip_whitespace (9 ∷ s ++ 10 ∷ []) ≡ s
unfolding strip_whitespace
strip_tabbed s p = ap cut_space (skip_tab (s ++ 10 ∷ [])) ∙ strip-line s p

cut_space_solid : (s : CString) → IsSolid s → cut_space s ≡ s
unfolding cut_space
cut_space_solid [] p = refl
cut_space_solid (c ∷ []) (h, p) = rw h refl
cut_space_solid (c ∷ d ∷ s) (h, p) = rw (cut_space_solid (d ∷ s) p) refl

pub strip_solid : (s : CString) → IsSolid s → strip_whitespace s ≡ s
unfolding strip_whitespace
strip_solid [] p = refl
strip_solid (c ∷ s) (h, p) =
    rw (skip_space-head c s (solid_isspace c h)) (cut_space_solid (c ∷ s) (h, p))
