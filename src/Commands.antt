-- ===== src/Commands.antt =====
-- The command loop: project/src/btide.c, from the line that `fgets` reads to the operations that it calls.
-- A line that follows another may leave bytes of the earlier one in the buffer: those are an argument where a
-- command reads them. The result `none` is undefined behaviour, or a wait that never ends.
pub mod Fetching
pub mod Loop
pub mod Handler
mod Tests
use bittorrent_implementatio.Prelude.{
  ℕ, suc, Bool, true, false, Option, none, some, List, [], ◌∷◌, CString, str_eq, ltb, leb, ◌==◌,
  if◌then◌else◌, length, drop,
}
use bittorrent_implementatio.Strings.{
  skip_space, skip_delim, strip_whitespace, is_an_int, atoi, strtok,
}
use bittorrent_implementatio.Pkgchk.{BpkgObj, Files}
use bittorrent_implementatio.Load.{bpkg_load}
use bittorrent_implementatio.Config.{Config}
use bittorrent_implementatio.Packages.{
  ManagedPackages, ReqArgs, InMemory, in_package, no_chunk, no_package, add_package, remove_package,
  calculate_data_len, chunk_in_memory,
}
use bittorrent_implementatio.Packages.Status.{StatusLine, package_status}
use bittorrent_implementatio.Peers.{
  Slots, Arrays, M, ◌>>=◌, ◌>>◌, return, lock_peers, unlock_peers, get_slots, in_array, get_fd,
}
use bittorrent_implementatio.Connect.{Dial, Exit, peer_connect, peer_disconnect}

-- `strtok` with no delimiter: what is left, or null.
abbrev pub strtok_rest : CString → Option CString
strtok_rest [] = none
strtok_rest (c ∷ s) = some (c ∷ s)

abbrev pub stuck : {A : Type 0} → M A
stuck s = none

-- What `connect_or_disconnect_to_client` returns: -1 without an address, 0 if the port is no number, and
-- otherwise what the operation returns.
pub data Connected : Type 0 where
  missing not_an_integer : Connected
  done : Bool → Connected

-- The two tokens; a null argument has none, nor has an empty one.
unfoldable pub split_address : Option CString → Option (CString × CString)
split_address none = none
split_address (some arguments) = elim (strtok b':' arguments) [
  | none ↦ none
  | some (ip, after) ↦ elim (strtok b':' after) [ none ↦ none | some (port, _) ↦ some (ip, port) ]
]

-- The operation that the flag asks for.
abbrev pub operate : Bool → Dial → Exit → CString → ℕ → M Connected
operate true d e ip port = do r ← peer_disconnect e ip port; return (done r)
operate false d e ip port = do r ← peer_connect d ip port; return (done r)

unfoldable pub connect_or_disconnect : Bool → Dial → Exit → Option CString → M Connected
unfolding split_address
connect_or_disconnect disconnect_flag d e arguments = elim (split_address arguments) [
  | none ↦ return missing
  | some (ip, port) ↦ elim (is_an_int port) [
    | false ↦ return not_an_integer
    | true ↦ elim (atoi port) [ none ↦ stuck | some n ↦ operate disconnect_flag d e ip n ]
  ]
]

-- The arguments of FETCH, the offset null if it is not given.
pub record FetchArgs : Type 0 where
  pub ip : CString
  pub port : CString
  pub ident : CString
  pub chunk_hash : CString
  pub offset : Option CString

-- The calls of `strtok` on what follows the peer, if the peer has an address and a port.
unfoldable pub fetch_rest : CString → CString → CString → Option FetchArgs
fetch_rest ip port resume = elim (strtok b' ' resume) [
  | none ↦ none
  | some (ident, after_ident) ↦ elim (strtok b' ' after_ident) [
    | none ↦ none
    | some (chunk_hash, after_hash) ↦ some (record {
      ip = ip;
      port = port;
      ident = ident;
      chunk_hash = chunk_hash;
      offset = elim (strtok b' ' after_hash) [ none ↦ none | some (t, _) ↦ some t ];
    })
  ]
]

unfoldable pub fetch_peer : CString → CString → Option FetchArgs
unfolding fetch_rest
fetch_peer peer resume = elim (strtok b':' peer) [
  | none ↦ none
  | some (ip, after) ↦ elim (strtok_rest after) [
    | none ↦ none
    | some port ↦ fetch_rest ip port resume
  ]
]

-- The text from which the second `strtok` goes on: if the peer takes the whole argument, that is the memory
-- `behind` the argument's end.
unfoldable pub resume_text : CString → CString → CString → CString → CString
resume_text behind arguments peer rest =
    if length peer == length (skip_delim b' ' arguments) then behind else rest

-- The arguments, or `none` inside where one is missing. Without a peer `strlen` reads through a null
-- pointer.
unfoldable pub fetch_args : CString → Option CString → Option (Option FetchArgs)
unfolding fetch_peer resume_text
fetch_args behind none = none
fetch_args behind (some arguments) = elim (strtok b' ' arguments) [
  | none ↦ none
  | some (peer, rest) ↦ some (fetch_peer peer (resume_text behind arguments peer rest))
]

-- What `fetch_parser` does: nothing, and it returns 0, or it calls `send_req` with these arguments and
-- returns 1.
pub data Fetched : Type 0 where
  refused : Fetched
  requested : ℕ → ReqArgs → CString → CString → Fetched

unfoldable pub fetch_range : BpkgObj → FetchArgs → ℕ → Option ℕ → M Fetched
fetch_range p a port offset = elim (calculate_data_len p a.chunk_hash offset) [
  | none ↦ stuck
  | some none ↦ return refused
  | some (some args) ↦ do fd ← get_fd a.ip port; return (requested fd args a.ident a.chunk_hash)
]

unfoldable pub fetch_offset : BpkgObj → FetchArgs → ℕ → M Fetched
unfolding fetch_range
fetch_offset p a port = elim a.offset [
  | none ↦ fetch_range p a port none
  | some o ↦ elim (is_an_int o) [
    | false ↦ return refused
    | true ↦ elim (atoi o) [ none ↦ stuck | some n ↦ fetch_range p a port (some n) ]
  ]
]

unfoldable pub fetch_found : InMemory → FetchArgs → ℕ → M Fetched
unfolding fetch_offset
fetch_found no_package a port = return refused
fetch_found no_chunk a port = return refused
fetch_found (in_package p) a port = fetch_offset p a port

unfoldable pub fetch_chunk : ManagedPackages → FetchArgs → ℕ → M Fetched
unfolding fetch_found
fetch_chunk m a port = do
  listed ← in_array a.ip port
  elim listed [
    | false ↦ return refused
    | true ↦ elim (chunk_in_memory m a.ident a.chunk_hash) [
      | none ↦ stuck
      | some ret ↦ fetch_found ret a port
    ]
  ]

unfoldable pub fetch_parsed : ManagedPackages → Option FetchArgs → M Fetched
unfolding fetch_chunk
fetch_parsed m none = return refused
fetch_parsed m (some a) = elim (is_an_int a.port) [
  | false ↦ return refused
  | true ↦ elim (atoi a.port) [ none ↦ stuck | some port ↦ fetch_chunk m a port ]
]

unfoldable pub fetch_parser : ManagedPackages → CString → Option CString → M Fetched
unfolding fetch_args fetch_parsed
fetch_parser m behind arguments = elim (fetch_args behind arguments) [
  | none ↦ stuck
  | some parsed ↦ fetch_parsed m parsed
]
