-- ===== src/Commands/Loop/Tests.antt =====
-- A program that was started with a table of two peers, and an instance of the theorem on it.
use bittorrent_implementatio.Prelude.{
  ℕ, ◌≡◌, ◌≤◌, refl, Bool, true, false, none, some, [], ◌∷◌, CString, str_eq, arith,
}
use bittorrent_implementatio.Strings.{
  is_any_space, isspace, strtok, first_token, skip_delim, split_delim, strip_whitespace, skip_space,
  cut_space,
}
use bittorrent_implementatio.Strings.Lines.{all_word-IsWord}
use bittorrent_implementatio.Pkgchk.{Files}
use bittorrent_implementatio.Config.{Config, Dirs, goes_on, config_load}
use bittorrent_implementatio.Config.RoundTrip.{print_config, config_load-print}
use bittorrent_implementatio.Peers.{
  Arrays, add_slots, add_to_array, free_thread, assign_thread, set_slots, set_thread_id, is_at,
}
use bittorrent_implementatio.Connect.Connects.{accepts}
use bittorrent_implementatio.Connect.{recv_error}
use bittorrent_implementatio.Connect.Listener.{Incoming, pkt_msg_ack, enlist, await_ack, accept_one}
use bittorrent_implementatio.Commands.Loop.{
  Btide, World, Turn, start, pinged, ping_peers, command, run_command,
}
use bittorrent_implementatio.Commands.Loop.Kept.{IsRunning}
use bittorrent_implementatio.Commands.Loop.Running.{Step, begin, next, Reach-IsRunning}

abbrev here : CString
here = 46 ∷ []

abbrev known : Dirs
known name = str_eq name here

abbrev nothing_made : CString → Bool
nothing_made name = false

abbrev two_peers : Files
two_peers name = some (print_config here 2 9000)

abbrev small_config : Config
small_config = record { directory = some here; max_peers = some 2; port = some 9000 }

loaded : config_load nothing_made two_peers known [] ≡ some (goes_on small_config known)
unfolding is_any_space isspace str_eq
loaded =
    config_load-print nothing_made known here 2 9000 (omega arith) (omega arith)
      (all_word-IsWord here refl) (omega arith) two_peers [] refl

abbrev fresh : Btide
fresh = record {
  config_file = small_config;
  required_arrays = record {
    thread_status_array = 0 ∷ 0 ∷ [];
    peer_array = none ∷ none ∷ [];
    thread_status_lock = false;
    peer_array_lock = false;
    started = [];
    closed = [];
  };
  managed = record { managed_array = none ∷ none ∷ []; size = 0 };
  files = two_peers;
}

started_fresh : start small_config two_peers ≡ some fresh
unfolding start
started_fresh = refl

abbrev visitor : Incoming
visitor = record {
  ip = b'7' ∷ [];
  port = 80;
  socket = 5;
  acp_sent = true;
  received = λ fd. some pkt_msg_ack;
  memory = true;
}

abbrev visited : Arrays
visited = record fresh.required_arrays {
  thread_status_array = 1 ∷ 0 ∷ [];
  peer_array =
      some (record { ip = b'7' ∷ []; port = 80; socket_fd = 5; thread_id = some 0 }) ∷ none ∷ [];
  started = record { ip = b'7' ∷ []; port = 80; client_socket_fd = 5; thread_id = 0 } ∷ [];
}

accepted : accept_one visitor fresh.required_arrays ≡ some (tt, visited)
unfolding accept_one await_ack enlist add_to_array add_slots assign_thread free_thread set_thread_id
    set_slots is_at str_eq
accepted = refl

abbrev after_visit : Btide
after_visit = record fresh { required_arrays = visited }

-- The line "PEERS".
abbrev line : CString
line = b'P' ∷ b'E' ∷ b'E' ∷ b'R' ∷ b'S' ∷ 10 ∷ []

abbrev quiet : World
quiet = record { dial = accepts 6; ends = recv_error; memory = true; creatable = true; stale = [] }

pinged_one : command quiet line after_visit ≡ some (Turn.goes_on after_visit (pinged (5 ∷ [])))
unfolding command run_command ping_peers strtok first_token skip_delim split_delim strip_whitespace
    skip_space cut_space is_any_space isspace str_eq
pinged_one = refl

Reach-IsRunning_example :
    (max : ℕ) × (small_config.max_peers ≡ some max)
    × (1 ≤ max)
    × (max ≤ 2048)
    × IsRunning max after_visit
Reach-IsRunning_example =
    Reach-IsRunning nothing_made two_peers two_peers known known [] small_config fresh after_visit
      loaded started_fresh
      (next (next begin (Step.accepts visitor visited accepted))
        (Step.commands quiet line after_visit (pinged (5 ∷ [])) pinged_one))
