-- ===== src/Commands/Loop.antt =====
-- The loop of `main` in project/src/btide.c: the state that it sets up, and its commands.
pub mod Kept
pub mod Running
mod Tests
use bittorrent_implementatio.Prelude.{
  ℕ, suc, Bool, true, false, Option, none, some, List, [], ◌∷◌, CString, str_eq, ltb, leb,
  if◌then◌else◌, length, drop, replicate,
}
use bittorrent_implementatio.Strings.{skip_space, strip_whitespace, strtok}
use bittorrent_implementatio.Pkgchk.{Files}
use bittorrent_implementatio.Load.{bpkg_load}
use bittorrent_implementatio.Config.{Config}
use bittorrent_implementatio.Packages.{ManagedPackages, add_package, remove_package}
use bittorrent_implementatio.Packages.Status.{StatusLine, package_status}
use bittorrent_implementatio.Peers.{
  Slots, Arrays, M, ◌>>=◌, ◌>>◌, return, lock_peers, unlock_peers, get_slots,
}
use bittorrent_implementatio.Connect.{Dial, Exit}
use bittorrent_implementatio.Commands.{
  strtok_rest, Connected, connect_or_disconnect, Fetched, fetch_parser,
}

-- What the local variables of `main` point to, and the files.
pub record Btide : Type 0 where
  pub config_file : Config
  pub required_arrays : Arrays
  pub managed : ManagedPackages
  pub files : Files

-- INITIAL_PACKAGE_ARRAY_SIZE
abbrev pub initial_package_array_size : ℕ
initial_package_array_size = 2

-- What `main` sets up from the configuration. Without `max_peers` it reads a field that was never set.
unfoldable pub start : Config → Files → Option Btide
start c files = elim c.max_peers [
  | none ↦ none
  | some max_peers ↦ some (record {
    config_file = c;
    required_arrays = record {
      thread_status_array = replicate max_peers 0;
      peer_array = replicate max_peers none;
      thread_status_lock = false;
      peer_array_lock = false;
      started = [];
      closed = [];
    };
    managed = record { managed_array = replicate initial_package_array_size none; size = 0 };
    files = files;
  })
]

-- What the system's calls answer during a command, and the bytes of an earlier line behind this one.
pub record World : Type 0 where
  pub dial : Dial
  pub ends : Exit
  pub memory : Bool
  pub creatable : Bool
  pub stale : CString

-- What a command sends or prints.
pub data Effect : Type 0 where
  silent invalid : Effect
  connected : Connected → Effect
  fetched : Fetched → Effect
  pinged : List ℕ → Effect
  printed : List StatusLine → Effect

pub data Turn : Type 0 where
  goes_on : Btide → Effect → Turn
  quits : Turn

abbrev pub on_arrays : {A : Type 0} → M A → (A → Effect) → Btide → Option Turn
on_arrays f k b = elim (f b.required_arrays) [
  | none ↦ none
  | some (a, s) ↦ some (goes_on (record b { required_arrays = s }) (k a))
]

unfoldable pub load_and_add : World → CString → CString → Btide → Option Turn
load_and_add w dir path b = elim (bpkg_load b.files path (some dir)) [
  | none ↦ none
  | some loaded ↦ elim (add_package loaded w.memory w.creatable b.files b.managed) [
    | none ↦ none
    | some (_, files, m) ↦ some (goes_on (record b { managed = m; files = files }) silent)
  ]
]

unfoldable pub on_addpackage : World → Option CString → Btide → Option Turn
unfolding load_and_add
on_addpackage w none b = some (goes_on b silent)
on_addpackage w (some path) b = elim b.config_file.directory [
  | none ↦ none
  | some dir ↦ load_and_add w dir path b
]

unfoldable pub on_rempackage : Option CString → Btide → Option Turn
on_rempackage none b = some (goes_on b silent)
on_rempackage (some ident) b =
    if leb 20 (length ident)
    then some (goes_on (record b { managed = (remove_package b.managed ident).1 }) silent)
    else some (goes_on b silent)

unfoldable pub on_packages : Btide → Option Turn
on_packages b = elim (package_status b.files b.managed) [
  | none ↦ none
  | some (_, m, lines) ↦ some (goes_on (record b { managed = m }) (printed lines))
]

abbrev pub descriptors : Slots → List ℕ
descriptors [] = []
descriptors (none ∷ xs) = descriptors xs
descriptors (some p ∷ xs) = p.socket_fd ∷ descriptors xs

-- PEERS sends a PNG to every peer that it lists, with the lock held.
unfoldable pub ping_peers : M (List ℕ)
ping_peers = do lock_peers; xs ← get_slots; unlock_peers; return (descriptors xs)

abbrev pub key_connect : CString
key_connect = b'C' ∷ b'O' ∷ b'N' ∷ b'N' ∷ b'E' ∷ b'C' ∷ b'T' ∷ []

abbrev pub key_disconnect : CString
key_disconnect = b'D' ∷ b'I' ∷ b'S' ∷ key_connect

abbrev pub key_package : CString
key_package = b'P' ∷ b'A' ∷ b'C' ∷ b'K' ∷ b'A' ∷ b'G' ∷ b'E' ∷ []

abbrev pub key_addpackage : CString
key_addpackage = b'A' ∷ b'D' ∷ b'D' ∷ key_package

abbrev pub key_rempackage : CString
key_rempackage = b'R' ∷ b'E' ∷ b'M' ∷ key_package

abbrev pub key_packages : CString
key_packages = b'P' ∷ b'A' ∷ b'C' ∷ b'K' ∷ b'A' ∷ b'G' ∷ b'E' ∷ b'S' ∷ []

abbrev pub key_peers : CString
key_peers = b'P' ∷ b'E' ∷ b'E' ∷ b'R' ∷ b'S' ∷ []

abbrev pub key_fetch : CString
key_fetch = b'F' ∷ b'E' ∷ b'T' ∷ b'C' ∷ b'H' ∷ []

abbrev pub key_quit : CString
key_quit = b'Q' ∷ b'U' ∷ b'I' ∷ b'T' ∷ []

-- The text behind the NUL that ends the stripped value, from which FETCH may read on: the spaces that were
-- cut off but for one, or what an earlier line left.
unfoldable pub left_behind : CString → CString → CString
left_behind stale value =
    let word = skip_space value in
    let n = length (strip_whitespace value) in
    if ltb n (length word) then drop (suc n) word else stale

abbrev pub behind_value : CString → Option CString → CString
behind_value stale none = stale
behind_value stale (some v) = left_behind stale v

-- The body of the loop for a key, the stripped value and the text behind it.
unfoldable pub run_command : World → CString → Option CString → CString → Btide → Option Turn
unfolding on_addpackage on_rempackage on_packages ping_peers
run_command w key value behind b =
    if str_eq key key_connect
    then on_arrays (connect_or_disconnect false w.dial w.ends value) connected b
    else if str_eq key key_disconnect
    then on_arrays (connect_or_disconnect true w.dial w.ends value) connected b
    else if str_eq key key_addpackage
    then on_addpackage w value b
    else if str_eq key key_rempackage
    then on_rempackage value b
    else if str_eq key key_packages
    then on_packages b
    else if str_eq key key_peers
    then on_arrays ping_peers pinged b
    else if str_eq key key_fetch
    then on_arrays (fetch_parser b.managed behind value) fetched b
    else if str_eq key key_quit
    then some quits
    else some (goes_on b invalid)

-- A line: its first word, and the rest, both stripped. Where there is no word, `strcmp` reads through a
-- null pointer.
unfoldable pub command : World → CString → Btide → Option Turn
unfolding run_command left_behind
command w line b = elim (strtok b' ' line) [
  | none ↦ none
  | some (key, after) ↦
      run_command w (strip_whitespace key)
        (elim (strtok_rest after) [ none ↦ none | some v ↦ some (strip_whitespace v) ])
        (behind_value w.stale (strtok_rest after)) b
]
