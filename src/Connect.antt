-- ===== src/Connect.antt =====
-- Connecting and disconnecting: `peer_connect` and `peer_disconnect` of project/src/peer.c, and the
-- three ways in which `handle_peers` there ends. The network's answers are arguments.
pub mod Connects
pub mod Disconnects
pub mod Listener
pub mod Sizes
mod Tests
use bittorrent_implementatio.Prelude.{
  ℕ, Bool, true, false, Option, none, some, List, [], ◌∷◌, CString, ◌==◌, if◌then◌else◌, set,
}
use bittorrent_implementatio.Peers.{
  Arrays, ThreadArgs, M, ◌>>=◌, ◌>>◌, return, lock_status, unlock_status, Added, added, full,
  no_memory, in_array, get_fd, get_thread_id, add_to_array, remove_from_array, assign_thread,
}

-- `PKT_MSG_ACP` of project/include/net/packet.h
abbrev pub pkt_msg_acp : ℕ
pkt_msg_acp = 0x02

-- What the calls of `peer_connect` return: the descriptor that `socket` gives, if any; whether
-- `inet_pton` and `connect` succeed; the `msg_code` that `recv` reads, if it reads anything; whether
-- the ACK is sent; whether `malloc` has memory.
pub record Dial : Type 0 where
  pub socket : Option ℕ
  pub address_ok : Bool
  pub connects : Bool
  pub response : Option ℕ
  pub ack_sent : Bool
  pub memory : Bool

abbrev pub close : ℕ → M (Unit {0})
close fd s = some (tt, record s { closed = fd ∷ s.closed })

-- From the answer of the peer on. The return values 1 and -1 are `true` and `false`.
unfoldable pub finish_connect : Dial → ℕ → CString → ℕ → ℕ → M Bool
finish_connect d code ip port sock =
    if code == pkt_msg_acp
    then (elim d.ack_sent [
      | false ↦ do close sock; return false
      | true ↦ do
        ret ← add_to_array d.memory ip port sock
        elim ret [
          | full ↦ do close sock; return false
          | no_memory ↦ do close sock; return false
          | added ↦ do assign_thread ip port sock; return true
        ]
    ])
    else (do close sock; return false)

unfoldable pub peer_connect : Dial → CString → ℕ → M Bool
unfolding finish_connect
peer_connect d ip port = do
  already_in_array ← in_array ip port
  elim already_in_array [
    | true ↦ return false
    | false ↦ elim d.socket [
      | none ↦ return false
      | some sock ↦ elim d.address_ok [
        | false ↦ return false
        | true ↦ elim d.connects [
          | false ↦ return false
          | true ↦ elim d.response [
            | none ↦ do close sock; return false
            | some code ↦ finish_connect d code ip port sock
          ]
        ]
      ]
    ]
  ]

-- Why the loop of `handle_peers` ends: `recv` fails, the connection is closed, or a DSN arrives.
pub data Exit : Type 0 where
  recv_error closed_by_peer got_dsn : Exit

abbrev pub clear_status : ℕ → M (Unit {0})
clear_status j s = some (tt, record s { thread_status_array = set s.thread_status_array j 0 })

-- The end of `handle_peers`. Only where the connection was closed is the status lock not taken.
unfoldable pub exit_handler : Exit → ThreadArgs → M (Unit {0})
exit_handler e args = do
  remove_from_array args.ip args.port
  close args.client_socket_fd
  elim e [
    | closed_by_peer ↦ clear_status args.thread_id
    | recv_error ↦ do lock_status; clear_status args.thread_id; unlock_status
    | got_dsn ↦ do lock_status; clear_status args.thread_id; unlock_status
  ]

-- The arguments of the thread last started under an index.
unfoldable pub find_started : ℕ → List ThreadArgs → Option ThreadArgs
find_started j [] = none
find_started j (a ∷ as_) = if a.thread_id == j then some a else find_started j as_

-- `pthread_join`: the thread runs to its end, in the way `e`, while the caller waits.
unfoldable pub join : Exit → ℕ → M (Unit {0})
join e j s = elim (find_started j s.started) [ none ↦ none | some args ↦ exit_handler e args s ]

-- Whether the DSN is sent changes nothing but the output. The return values 1 and -1 are `true` and
-- `false`.
unfoldable pub peer_disconnect : Exit → CString → ℕ → M Bool
unfolding join
peer_disconnect e ip port = do
  already_in_array ← in_array ip port
  elim already_in_array [
    | false ↦ return false
    | true ↦ do
      get_fd ip port
      thread_id ← get_thread_id ip port
      lock_status
      join e thread_id
      clear_status thread_id
      unlock_status
      return true
  ]
