-- ===== src/Config/RoundTrip.antt =====
-- What `config_load` (project/src/config.c) makes of a file with the three fields.
use bittorrent_implementatio.Prelude.{
  ℕ, suc, ◌+◌, ◌-◌, ◌^◌, ◌≤◌, ◌<◌, ◌≡◌, refl, ap, ◌∙◌, Bool, true, false, ◌&&◌, ◌||◌, inl, inr,
  Bool-cases, some, List, [], ◌∷◌, ◌++◌, CString, str_eq, leb, if◌then◌else◌, length, length-append,
  arith,
}
use bittorrent_implementatio.Strings.{fgets, is_any_space, isspace}
use bittorrent_implementatio.Strings.Lines.{IsWord, IsWord-IsSolid, all_word-IsWord, strip-line}
use bittorrent_implementatio.Strings.Decimal.{decimal, decimal-IsPrinted}
use bittorrent_implementatio.Strings.Fields.{field_line, fgets-field_line, strtok-key, strtok-value}
use bittorrent_implementatio.Pkgchk.{Files}
use bittorrent_implementatio.Config.{
  Config, ConfigExit, unset, Dirs, Configured, goes_on, exits, no_directory, bad_max_peers,
  bad_port, exit_freeing, on_directory, on_max_peers, on_port, max_path_len, key_directory,
  key_max_peers, key_port, config_line, config_split, config_loop, config_load,
}

-- The text of a configuration file.
abbrev pub print_config : CString → ℕ → ℕ → List ℕ
print_config d n k =
    field_line key_directory d
      (field_line key_max_peers (decimal n) (field_line key_port (decimal k) []))

-- The directories once `d` is there.
abbrev pub with_dir : Dirs → CString → Dirs
with_dir dirs d = if dirs d then dirs else (λ name. str_eq name d || dirs name)

-- What the fields ask for: the first of them that is not acceptable ends the program.
abbrev pub accepted : (CString → Bool) → Dirs → CString → ℕ → ℕ → Configured
accepted can_make dirs d n k =
    if dirs d || can_make d
    then if leb 1 n && leb n 2048
      then if leb 1025 k && leb k 65535
        then goes_on (record { directory = some d; max_peers = some n; port = some k })
            (with_dir dirs d)
        else exits bad_port
      else exits bad_max_peers
    else exits no_directory

config_split-field :
    (c : ℕ) (key v : CString)
    → IsWord (c ∷ key)
    → IsWord v
    → config_split (((c ∷ key) ++ b':' ∷ v) ++ 10 ∷ []) ≡ some (c ∷ key, some v)
unfolding config_split
config_split-field c key v wk wv =
    rw (strtok-key c key v wk, strtok-value v wv, strip-line v (IsWord-IsSolid v wv)) refl

-- One line of the loop: how it goes on after an exit, and after a field that is taken.
module _ (can_make : CString → Bool) (c : Config) (dirs : Dirs) (ch : ℕ) (key v rest : CString)
    (wk : IsWord (ch ∷ key)) (wv : IsWord v) (short : length key + length v ≤ 4091) where
  loop_exits :
      (fuel : ℕ) (x : ConfigExit)
      → config_line can_make (ch ∷ key) (some v) c dirs ≡ some (exits x)
      → config_loop (suc fuel) can_make c dirs (field_line (ch ∷ key) v rest) ≡ some (exits x)
  unfolding config_loop
  loop_exits fuel x h =
      rw (fgets-field_line max_path_len (ch ∷ key) v rest wk wv (omega (arith, short)), config_loop)
        (rw (config_split-field ch key v wk wv) (rw h refl))

  loop_goes_on :
      (fuel : ℕ) (c' : Config) (dirs' : Dirs)
      → config_line can_make (ch ∷ key) (some v) c dirs ≡ some (goes_on c' dirs')
      → config_loop (suc fuel) can_make c dirs (field_line (ch ∷ key) v rest)
        ≡ config_loop fuel can_make c' dirs' rest
  unfolding config_loop
  loop_goes_on fuel c' dirs' h =
      rw (fgets-field_line max_path_len (ch ∷ key) v rest wk wv (omega (arith, short)), config_loop)
        (rw (config_split-field ch key v wk wv) (rw h refl))

-- The three lines.
module _ (can_make : CString → Bool) (dirs : Dirs) (d : CString) (n k : ℕ) (fits_n : n < 2 ^ 31)
    (fits_k : k < 2 ^ 31) where
  abbrev c₁ : Config
  c₁ = record unset { directory = some d }

  abbrev c₂ : Config
  c₂ = record c₁ { max_peers = some n }

  abbrev c₃ : Config
  c₃ = record c₂ { port = some k }

  line_directory :
      dirs d || can_make d ≡ true
      → config_line can_make key_directory (some d) unset dirs ≡ some (goes_on c₁ (with_dir dirs d))
  unfolding config_line str_eq on_directory
  line_directory h = ground arith

  line_no_directory :
      dirs d || can_make d ≡ false
      → config_line can_make key_directory (some d) unset dirs ≡ some (exits no_directory)
  unfolding config_line str_eq on_directory
  line_no_directory h = ground arith

  line_max_peers :
      config_line can_make key_max_peers (some (decimal n)) c₁ (with_dir dirs d)
      ≡ some (if leb 1 n && leb n 2048 then goes_on c₂ (with_dir dirs d) else exits bad_max_peers)
  unfolding config_line str_eq on_max_peers exit_freeing
  line_max_peers = let p = decimal-IsPrinted n fits_n in rw p.is_int (rw p.value (ground arith))

  line_port :
      config_line can_make key_port (some (decimal k)) c₂ (with_dir dirs d)
      ≡ some (if leb 1025 k && leb k 65535 then goes_on c₃ (with_dir dirs d) else exits bad_port)
  unfolding config_line str_eq on_port exit_freeing
  line_port = let p = decimal-IsPrinted k fits_k in rw p.is_int (rw p.value (ground arith))

  loop_end :
      (fuel : ℕ) (c : Config) (after : Dirs)
      → config_loop (suc fuel) can_make c after [] ≡ some (goes_on c after)
  unfolding config_loop fgets
  loop_end fuel c after = refl

  module _ (word : IsWord d) (short : length d ≤ 4000) where
    from_port :
        (fuel : ℕ)
        → config_loop
            (suc (suc fuel))
            can_make
            c₂
            (with_dir dirs d)
            (field_line key_port (decimal k) [])
          ≡ some
              (if leb 1025 k && leb k 65535 then goes_on c₃ (with_dir dirs d) else exits bad_port)
    unfolding is_any_space isspace
    from_port fuel =
        let p = decimal-IsPrinted k fits_k in
        let w = all_word-IsWord key_port refl in
        elim (Bool-cases (leb 1025 k && leb k 65535)) [
          | inl y ↦ rw y (
              loop_goes_on can_make c₂ (with_dir dirs d) _ _ (decimal k) [] w p.plain
                (omega (arith, p.short)) _ c₃ (with_dir dirs d) (rw y at line_port)
              ∙ loop_end fuel c₃ (with_dir dirs d))
          | inr m ↦ rw m (
              loop_exits can_make c₂ (with_dir dirs d) _ _ (decimal k) [] w p.plain
                (omega (arith, p.short)) _ bad_port (rw m at line_port))
        ]

    from_max_peers :
        (fuel : ℕ)
        → config_loop
            (suc (suc (suc fuel)))
            can_make
            c₁
            (with_dir dirs d)
            (field_line key_max_peers (decimal n) (field_line key_port (decimal k) []))
          ≡ some (
              if leb 1 n && leb n 2048
              then (if leb 1025 k && leb k 65535
                  then goes_on c₃ (with_dir dirs d)
                  else exits bad_port)
              else exits bad_max_peers)
    unfolding is_any_space isspace
    from_max_peers fuel =
        let p = decimal-IsPrinted n fits_n in
        let w = all_word-IsWord key_max_peers refl in
        elim (Bool-cases (leb 1 n && leb n 2048)) [
          | inl y ↦ rw y (
              loop_goes_on can_make c₁ (with_dir dirs d) _ _ (decimal n) _ w p.plain
                (omega (arith, p.short)) _ c₂ (with_dir dirs d) (rw y at line_max_peers)
              ∙ from_port fuel)
          | inr m ↦ rw m (
              loop_exits can_make c₁ (with_dir dirs d) _ _ (decimal n) _ w p.plain
                (omega (arith, p.short)) _ bad_max_peers (rw m at line_max_peers))
        ]

    from_directory :
        (fuel : ℕ)
        → config_loop (suc (suc (suc (suc fuel)))) can_make unset dirs (print_config d n k)
          ≡ some (accepted can_make dirs d n k)
    unfolding is_any_space isspace
    from_directory fuel =
        let w = all_word-IsWord key_directory refl in
        elim (Bool-cases (dirs d || can_make d)) [
          | inl y ↦ rw y (
              loop_goes_on can_make unset dirs _ _ d _ w word (omega (arith, short)) _ c₁
                (with_dir dirs d) (line_directory y)
              ∙ from_max_peers fuel)
          | inr m ↦ rw m (
              loop_exits can_make unset dirs _ _ d _ w word (omega (arith, short)) _ no_directory
                (line_no_directory m))
        ]

    long : 3 ≤ length (print_config d n k)
    long = omega (
      arith,
      length-append (key_directory ++ b':' ∷ d)
          (10 ∷ field_line key_max_peers (decimal n) (field_line key_port (decimal k) [])),
    )

    pub config_load-print :
        (files : Files) (path : CString)
        → files path ≡ some (print_config d n k)
        → config_load can_make files dirs path ≡ some (accepted can_make dirs d n k)
    unfolding config_load
    config_load-print files path opened =
        rw (opened, config_load)
          (ap (λ f. config_loop f can_make unset dirs (print_config d n k))
              {x = suc (length (print_config d n k))}
              {y = suc (suc (suc (suc (length (print_config d n k) - 3))))} (omega (arith, long))
            ∙ from_directory (length (print_config d n k) - 3))
