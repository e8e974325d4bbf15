-- ===== src/Config/Range.antt =====
-- The limits that `config_load` (project/src/config.c) keeps.
use bittorrent_implementatio.Prelude.{
  ℕ, zero, suc, ◌≤◌, ◌<◌, ◌≡◌, subst, Bool, true, false, inl, inr, Bool-cases, Option, none, some,
  List, CString, ◌>>=◌, str_eq, if◌then◌else◌, ◌||◌, length, ltb, leb, arith,
}
use bittorrent_implementatio.Strings.{is_an_int, atoi, fgets}
use bittorrent_implementatio.Pkgchk.{Files}
use bittorrent_implementatio.Config.{
  Config, unset, Dirs, Configured, ConfigExit, goes_on, exits, not_an_integer, bad_max_peers,
  bad_port, exit_freeing, with_number, on_directory, on_max_peers, on_port, max_path_len,
  key_directory, key_max_peers, key_port, config_line, config_split, config_loop, config_load,
}

-- What is set lies within its limits.
abbrev pub PeersInRange : Option ℕ → Type 0
PeersInRange none = Unit {0}
PeersInRange (some n) = (1 ≤ n) × (n ≤ 2048)

abbrev pub PortInRange : Option ℕ → Type 0
PortInRange none = Unit {0}
PortInRange (some n) = (1024 < n) × (n ≤ 65535)

pub record InRange (c : Config) : Type 0 where
  pub peers : PeersInRange c.max_peers
  pub port : PortInRange c.port

-- A configuration with which the program goes on is within the limits.
abbrev Kept : Option Configured → Type 0
Kept none = Unit {0}
Kept (some (exits e)) = Unit {0}
Kept (some (goes_on c dirs)) = InRange c

exit_freeing-Kept : (e : ConfigExit) (c : Config) → Kept (exit_freeing e c)
unfolding exit_freeing
exit_freeing-Kept e c =
    elim c.directory as (λ d. Kept (elim d [ none ↦ none | some d ↦ some (exits e) ])) [
      | none ↦ tt
      | some d ↦ tt
    ]

bound-Kept :
    {A : Type 0} (value : Option A) (k : A → Option Configured)
    → ((v : A) → Kept (k v))
    → Kept (value >>= k)
bound-Kept none k each = tt
bound-Kept (some v) k each = each v

if-Kept : (b : Bool) (x y : Option Configured) → Kept x → Kept y → Kept (if b then x else y)
if-Kept true x y p q = p
if-Kept false x y p q = q

with_number-Kept :
    (value : CString) (c : Config) (k : ℕ → Option Configured)
    → ((n : ℕ) → Kept (k n))
    → Kept (with_number value c k)
with_number-Kept value c k each =
    if-Kept (is_an_int value) _ _ (bound-Kept (atoi value) k each)
      (exit_freeing-Kept not_an_integer c)

on_max_peers-Kept :
    (value : CString) (c : Config) (dirs : Dirs) → InRange c → Kept (on_max_peers value c dirs)
unfolding on_max_peers
on_max_peers-Kept value c dirs r = with_number-Kept value c _ (λ n.
    elim (Bool-cases (ltb n 1 || ltb 2048 n)) [
      | inl y ↦ rw y (exit_freeing-Kept bad_max_peers c)
      | inr m ↦ rw m (record { peers = (ground arith, ground arith); port = r.port })
    ])

on_port-Kept :
    (value : CString) (c : Config) (dirs : Dirs) → InRange c → Kept (on_port value c dirs)
unfolding on_port
on_port-Kept value c dirs r = with_number-Kept value c _ (λ n.
    elim (Bool-cases (leb n 1024 || ltb 65535 n)) [
      | inl y ↦ rw y (exit_freeing-Kept bad_port c)
      | inr m ↦ rw m (record { peers = r.peers; port = (ground arith, ground arith) })
    ])

on_directory-Kept :
    (can_make : CString → Bool) (value : CString) (c : Config) (dirs : Dirs)
    → InRange c
    → Kept (on_directory can_make value c dirs)
unfolding on_directory
on_directory-Kept can_make value c dirs r =
    let stays : InRange (record c { directory = some value }) = record {
      peers = r.peers;
      port = r.port;
    } in
    if-Kept (dirs value) _ _ stays (if-Kept (can_make value) _ _ stays tt)

config_line-Kept :
    (can_make : CString → Bool) (key : CString) (value : Option CString) (c : Config) (dirs : Dirs)
    → InRange c
    → Kept (config_line can_make key value c dirs)
unfolding config_line
config_line-Kept can_make key value c dirs r =
    if-Kept (str_eq key key_directory) _ _
      (bound-Kept value _ (λ v. on_directory-Kept can_make v c dirs r))
      (if-Kept (str_eq key key_max_peers) _ _
        (bound-Kept value _ (λ v. on_max_peers-Kept v c dirs r))
        (if-Kept (str_eq key key_port) _ _ (bound-Kept value _ (λ v. on_port-Kept v c dirs r)) r))

read-Kept :
    {A : Type 0} (o : Option A) (x : Option Configured) (k : A → Option Configured)
    → Kept x
    → ((a : A) → Kept (k a))
    → Kept (elim o [ none ↦ x | some a ↦ k a ])
read-Kept none x k p each = p
read-Kept (some a) x k p each = each a

next-Kept :
    (o : Option Configured) (k : Config → Dirs → Option Configured)
    → Kept o
    → ((c : Config) (dirs : Dirs) → InRange c → Kept (k c dirs))
    → Kept (o >>= λ out. elim out [ exits e ↦ some (exits e) | goes_on c dirs ↦ k c dirs ])
next-Kept none k p each = tt
next-Kept (some (exits e)) k p each = tt
next-Kept (some (goes_on c dirs)) k p each = each c dirs p

config_loop-Kept :
    (fuel : ℕ) (can_make : CString → Bool) (c : Config) (dirs : Dirs) (rest : List ℕ)
    → InRange c
    → Kept (config_loop fuel can_make c dirs rest)
unfolding config_loop
config_loop-Kept zero can_make c dirs rest r = tt
config_loop-Kept (suc fuel) can_make c dirs rest r =
    read-Kept (fgets max_path_len rest) _ _ r (λ (line, rest₁).
      bound-Kept (config_split line) _ (λ (key, value).
        next-Kept (config_line can_make key value c dirs) _
          (config_line-Kept can_make key value c dirs r)
          (λ c' dirs' r'. config_loop-Kept fuel can_make c' dirs' rest₁ r')))

config_load-Kept :
    (can_make : CString → Bool) (files : Files) (dirs : Dirs) (path : CString)
    → Kept (config_load can_make files dirs path)
unfolding config_load
config_load-Kept can_make files dirs path =
    read-Kept (files path) _ _ (record { peers = tt; port = tt })
      (λ content.
        config_loop-Kept (suc (length content)) can_make unset dirs content
          (record { peers = tt; port = tt }))

-- If `config_load` goes on with a configuration, then in it the number of peers lies between 1
-- and 2048 if it is set, and the port between 1025 and 65535 if it is set, whatever the file
-- holds.
pub config_load-InRange :
    (can_make : CString → Bool) (files : Files) (dirs after : Dirs) (path : CString) (c : Config)
    → config_load can_make files dirs path ≡ some (goes_on c after)
    → InRange c
config_load-InRange can_make files dirs after path c e =
    subst Kept e (config_load-Kept can_make files dirs path)
