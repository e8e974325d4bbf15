-- ===== src/Commands/Tests.antt =====
-- A peer that manages one package and has one peer, and instances of the theorems on it.
use bittorrent_implementatio.Prelude.{◌≡◌, refl, inr, false, none, some, [], ◌∷◌, CString, arith}
use bittorrent_implementatio.Strings.{
  is_an_int, all_digits, isdigit, atoi, digits_value, strtok, first_token, skip_delim, split_delim,
}
use bittorrent_implementatio.Pkgchk.Samples.{two_chunks}
use bittorrent_implementatio.Packages.{ManagedPackages}
use bittorrent_implementatio.Peers.{Peer, Arrays}
use bittorrent_implementatio.Commands.{
  FetchArgs, fetch_args, fetch_peer, fetch_rest, resume_text, Fetched, fetch_parser,
}
use bittorrent_implementatio.Commands.Fetching.{Answered, fetch_parser-Answered}

abbrev one_managed : ManagedPackages
one_managed = record { managed_array = some two_chunks ∷ none ∷ []; size = 1 }

abbrev peer : Peer
peer = record { ip = b'7' ∷ []; port = 80; socket_fd = 5; thread_id = some 0 }

abbrev one_peer : Arrays
one_peer = record {
  thread_status_array = 1 ∷ 0 ∷ [];
  peer_array = some peer ∷ none ∷ [];
  thread_status_lock = false;
  peer_array_lock = false;
  started = [];
  closed = [];
}

-- The text "7:80 p C 1".
abbrev request : CString
request = b'7' ∷ b':' ∷ b'8' ∷ b'0' ∷ b' ' ∷ b'p' ∷ b' ' ∷ b'C' ∷ b' ' ∷ b'1' ∷ []

abbrev fields : FetchArgs
fields = record {
  ip = b'7' ∷ [];
  port = b'8' ∷ b'0' ∷ [];
  ident = b'p' ∷ [];
  chunk_hash = b'C' ∷ [];
  offset = some (b'1' ∷ []);
}

fetch_parser-Answered_example :
    (out : Fetched) × (fetch_parser one_managed [] (some request) one_peer ≡ some (out, one_peer))
    × Answered one_managed fields one_peer out
unfolding fetch_args fetch_peer fetch_rest resume_text strtok first_token skip_delim split_delim
    is_an_int all_digits isdigit atoi digits_value
fetch_parser-Answered_example =
    fetch_parser-Answered one_managed [] (some request) fields one_peer refl refl
      ((_, _, _, refl), tt) ((refl, (omega arith, (omega arith, tt))), tt) (inr (refl, 80, refl))
      (inr (refl, 1, refl))
