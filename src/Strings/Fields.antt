-- ===== src/Strings/Fields.antt =====
-- The lines of a file that gives one field each, with a colon behind its key.
use bittorrent_implementatio.Prelude.{
  ℕ, ◌+◌, ◌<◌, ◌≡◌, refl, some, List, [], ◌∷◌, ◌++◌, append_assoc, CString, length, length-append,
  arith,
}
use bittorrent_implementatio.Strings.{fgets, strtok}
use bittorrent_implementatio.Strings.Lines.{
  IsWord, Lacks-append, IsWord-Lacks_colon, IsWord-Lacks_line, IsWord-Lacks_null, fgets-line,
  strtok-token, strtok-all,
}

-- A field: its key, a colon, its value and a newline.
abbrev pub field_line : CString → CString → List ℕ → List ℕ
field_line key v rest = (key ++ b':' ∷ v) ++ 10 ∷ rest

-- `fgets` and the two calls of `strtok` on a field.
pub fgets-field_line :
    (n : ℕ) (key v rest : List ℕ)
    → IsWord key
    → IsWord v
    → length key + length v + 2 < n
    → fgets n (field_line key v rest) ≡ some ((key ++ b':' ∷ v) ++ 10 ∷ [], rest)
fgets-field_line n key v rest wk wv h =
    fgets-line n (key ++ b':' ∷ v) rest
      (Lacks-append 10 key (b':' ∷ v) (IsWord-Lacks_line key wk) (refl, IsWord-Lacks_line v wv))
      (Lacks-append 0 key (b':' ∷ v) (IsWord-Lacks_null key wk) (refl, IsWord-Lacks_null v wv))
      (omega (arith, length-append key (b':' ∷ v)))

pub strtok-key :
    (c : ℕ) (key v : CString)
    → IsWord (c ∷ key)
    → strtok b':' (((c ∷ key) ++ b':' ∷ v) ++ 10 ∷ []) ≡ some (c ∷ key, v ++ 10 ∷ [])
strtok-key c key v wk =
    rw (append_assoc) (strtok-token b':' c key (v ++ 10 ∷ []) (IsWord-Lacks_colon (c ∷ key) wk))

pub strtok-value : (v : CString) → IsWord v → strtok b':' (v ++ 10 ∷ []) ≡ some (v ++ 10 ∷ [], [])
strtok-value [] w = strtok-all b':' 10 [] (refl, tt)
strtok-value (c ∷ v) w =
    strtok-all b':' c (v ++ 10 ∷ [])
      (Lacks-append b':' (c ∷ v) (10 ∷ []) (IsWord-Lacks_colon (c ∷ v) w) (refl, tt))
