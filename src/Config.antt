-- ===== src/Config.antt =====
-- `config_load` of project/src/config.c, with project/include/net/config.h. The result `none` is undefined
-- behaviour: a null value, a number beyond an `int`, or `free` of a directory that was never stored.
pub mod Range
pub mod RoundTrip
mod Tests
use bittorrent_implementatio.Prelude.{
  ℕ, zero, suc, ◌+◌, ◌<◌, Bool, true, false, ◌&&◌, ◌||◌, Option, none, some, List, [], ◌∷◌, CString,
  str_eq, ltb, leb, if◌then◌else◌, length, ◌>>=◌,
}
use bittorrent_implementatio.Strings.{strip_whitespace, is_an_int, atoi, strtok, fgets}
use bittorrent_implementatio.Pkgchk.{Files}

-- `struct config`: a field is `none` until a line sets it.
pub record Config : Type 0 where
  pub directory : Option CString
  pub max_peers : Option ℕ
  pub port : Option ℕ

abbrev pub unset : Config
unset = record { directory = none; max_peers = none; port = none }

-- MAX_PATH_LEN, MAX_PEER_RANGE, MIN_PORT_RANGE and MAX_PORT_RANGE
abbrev pub max_path_len : ℕ
max_path_len = 4095

abbrev pub max_peer_range : ℕ
max_peer_range = 2048

abbrev pub min_port_range : ℕ
min_port_range = 1024

abbrev pub max_port_range : ℕ
max_port_range = 65535

-- Which names are directories, as `stat` tells.
abbrev pub Dirs : Type 0
Dirs = CString → Bool

-- The statuses with which `config_load` ends the program: 3, -1, 4 and 5.
pub data ConfigExit : Type 0 where
  no_directory not_an_integer bad_max_peers bad_port : ConfigExit

pub data Configured : Type 0 where
  goes_on : Config → Dirs → Configured
  exits : ConfigExit → Configured

-- The exit after `free(config_file->directory)`.
unfoldable pub exit_freeing : ConfigExit → Config → Option Configured
exit_freeing e c = elim c.directory [ none ↦ none | some d ↦ some (exits e) ]

-- `can_make` is whether `mkdir` succeeds.
unfoldable pub on_directory : (CString → Bool) → CString → Config → Dirs → Option Configured
on_directory can_make value c dirs =
    if dirs value
    then some (goes_on (record c { directory = some value }) dirs)
    else if can_make value
    then some
        (goes_on (record c { directory = some value }) (λ name. str_eq name value || dirs name))
    else some (exits no_directory)

-- The number in a value, with the exit where it is none.
abbrev pub with_number : CString → Config → (ℕ → Option Configured) → Option Configured
with_number value c k =
    if is_an_int value then (atoi value >>= k) else exit_freeing not_an_integer c

unfoldable pub on_max_peers : CString → Config → Dirs → Option Configured
unfolding exit_freeing
on_max_peers value c dirs = with_number value c (λ val.
    if ltb val 1 || ltb max_peer_range val
    then exit_freeing bad_max_peers c
    else some (goes_on (record c { max_peers = some val }) dirs))

unfoldable pub on_port : CString → Config → Dirs → Option Configured
unfolding exit_freeing
on_port value c dirs = with_number value c (λ val.
    if leb val min_port_range || ltb max_port_range val
    then exit_freeing bad_port c
    else some (goes_on (record c { port = some val }) dirs))

abbrev pub key_directory : CString
key_directory = b'd' ∷ b'i' ∷ b'r' ∷ b'e' ∷ b'c' ∷ b't' ∷ b'o' ∷ b'r' ∷ b'y' ∷ []

abbrev pub key_max_peers : CString
key_max_peers = b'm' ∷ b'a' ∷ b'x' ∷ b'_' ∷ b'p' ∷ b'e' ∷ b'e' ∷ b'r' ∷ b's' ∷ []

abbrev pub key_port : CString
key_port = b'p' ∷ b'o' ∷ b'r' ∷ b't' ∷ []

-- The body of the loop. A line with another key is passed over.
unfoldable pub config_line :
    (CString → Bool) → CString → Option CString → Config → Dirs → Option Configured
unfolding on_directory on_max_peers on_port
config_line can_make key value c dirs =
    if str_eq key key_directory
    then (value >>= λ v. on_directory can_make v c dirs)
    else if str_eq key key_max_peers
    then (value >>= λ v. on_max_peers v c dirs)
    else if str_eq key key_port
    then (value >>= λ v. on_port v c dirs)
    else some (goes_on c dirs)

-- The key, which is not stripped, and the value, which is, and may be null.
unfoldable pub config_split : CString → Option (CString × Option CString)
config_split line = do
  (key, after) ← strtok b':' line
  some (key, elim (strtok b':' after) [ none ↦ none | some (v, _) ↦ some (strip_whitespace v) ])

-- The main loop, on fuel as for `load_loop`.
unfoldable pub config_loop : ℕ → (CString → Bool) → Config → Dirs → List ℕ → Option Configured
unfolding config_line config_split
config_loop zero can_make c dirs rest = none
config_loop (suc fuel) can_make c dirs rest = elim (fgets max_path_len rest) [
  | none ↦ some (goes_on c dirs)
  | some (line, rest₁) ↦ do
    (key, value) ← config_split line
    out ← config_line can_make key value c dirs
    elim out [
      | exits e ↦ some (exits e)
      | goes_on c' dirs' ↦ config_loop fuel can_make c' dirs' rest₁
    ]
]

-- Where the file cannot be opened the fields stay unset.
unfoldable pub config_load : (CString → Bool) → Files → Dirs → CString → Option Configured
unfolding config_loop
config_load can_make files dirs path = elim (files path) [
  | none ↦ some (goes_on unset dirs)
  | some content ↦ config_loop (suc (length content)) can_make unset dirs content
]
