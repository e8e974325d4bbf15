-- ===== src/Strings.antt =====
-- The text helpers at the end of project/src/chk/helpers.c, and the functions of the C library that
-- the parsers call. A text is the bytes in front of its NUL.
pub mod Laws
pub mod Lines
pub mod Decimal
pub mod Fields
mod Tests
use bittorrent_implementatio.Prelude.{
  ℕ, zero, suc, ◌+◌, ◌-◌, ◌*◌, ◌^◌, Bool, true, false, not, ◌&&◌, ◌||◌, Option, none, some, List,
  [], ◌∷◌, CString, ltb, leb, ◌==◌, if◌then◌else◌,
}

-- `isspace` in the C locale
unfoldable pub isspace : ℕ → Bool
isspace c = c == b' ' || leb 9 c && leb c 13

unfoldable pub isdigit : ℕ → Bool
isdigit c = leb b'0' c && leb c b'9'

abbrev newline : ℕ
newline = 10

unfoldable pub is_any_space : ℕ → Bool
unfolding isspace
is_any_space word = isspace word || word == newline || word == 0

-- The first loop of `strip_whitespace`.
unfoldable pub skip_space : CString → CString
skip_space [] = []
skip_space (c ∷ cs) = let rest = skip_space cs in if isspace c then rest else c ∷ cs

-- The second loop, from the NUL back, and the new NUL.
unfoldable pub cut_space : CString → CString
cut_space [] = []
cut_space (c ∷ cs) = elim (cut_space cs) [
  | [] ↦ if is_any_space c then [] else c ∷ []
  | d ∷ ds ↦ c ∷ d ∷ ds
]

-- On a text that is not null. A text of spaces alone becomes the empty text.
unfoldable pub strip_whitespace : CString → CString
unfolding skip_space cut_space isspace is_any_space
strip_whitespace word = cut_space (skip_space word)

unfoldable pub all_digits : CString → Bool
all_digits [] = true
all_digits (c ∷ cs) = isdigit c && all_digits cs

unfoldable pub is_an_int : CString → Bool
unfolding all_digits isdigit
is_an_int [] = false
is_an_int (c ∷ cs) = all_digits (c ∷ cs)

unfoldable pub digits_value : ℕ → CString → ℕ
digits_value acc [] = acc
digits_value acc (c ∷ cs) = if isdigit c then digits_value (acc * 10 + (c - b'0')) cs else acc

-- `atoi` on a text that passed `is_an_int`; its value must fit an `int`, or C leaves it undefined.
unfoldable pub atoi : CString → Option ℕ
unfolding digits_value isdigit
atoi cs = let n = digits_value 0 cs in if ltb n (2 ^ 31) then some n else none

unfoldable pub skip_delim : ℕ → CString → CString
skip_delim d [] = []
skip_delim d (c ∷ cs) = let rest = skip_delim d cs in if c == d then rest else c ∷ cs

-- The text up to the delimiter, and what follows it.
unfoldable pub split_delim : ℕ → CString → CString × CString
split_delim d [] = ([], [])
split_delim d (c ∷ cs) =
    let (tok, rest) = split_delim d cs in if c == d then ([], cs) else (c ∷ tok, rest)

unfoldable pub first_token : ℕ → CString → Option (CString × CString)
first_token d [] = none
first_token d (c ∷ cs) = some (split_delim d (c ∷ cs))

-- `strtok` with one delimiter: the token and the text from which the next call goes on, or `none`
-- for the null pointer.
unfoldable pub strtok : ℕ → CString → Option (CString × CString)
unfolding skip_delim split_delim first_token
strtok d s = first_token d (skip_delim d s)

-- The bytes up to and with the first newline, `n` at most, and what follows them.
unfoldable pub cut_line : ℕ → List ℕ → List ℕ × List ℕ
cut_line zero s = ([], s)
cut_line (suc n) [] = ([], [])
cut_line (suc n) (c ∷ s) =
    let (line, rest) = cut_line n s in if c == newline then (c ∷ [], s) else (c ∷ line, rest)

-- The text that the bytes in a buffer hold: they end at the first NUL.
unfoldable pub c_text : List ℕ → CString
c_text [] = []
c_text (c ∷ s) = let rest = c_text s in if c == 0 then [] else c ∷ rest

-- `fgets` into a buffer of `n` bytes, from what is left of a file: the text in the buffer and what is left
-- then, or `none` for the null pointer.
unfoldable pub fgets : ℕ → List ℕ → Option (CString × List ℕ)
unfolding cut_line c_text
fgets n [] = none
fgets n (c ∷ s) = let (line, rest) = cut_line (n - 1) (c ∷ s) in some (c_text line, rest)
