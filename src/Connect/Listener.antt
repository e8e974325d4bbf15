-- ===== src/Connect/Listener.antt =====
-- An incoming connection: one turn of the loop of `listener` in project/src/peer.c, after `accept`.
pub mod Accepts
mod Tests
use bittorrent_implementatio.Prelude.{
  ℕ, Bool, true, false, Option, none, some, CString, ◌==◌, if◌then◌else◌,
}
use bittorrent_implementatio.Peers.{
  M, ◌>>=◌, ◌>>◌, return, added, full, no_memory, add_to_array, assign_thread,
}
use bittorrent_implementatio.Connect.{close}

-- `PKT_MSG_ACK` of project/include/net/packet.h
abbrev pub pkt_msg_ack : ℕ
pkt_msg_ack = 0x0c

-- The connection that `accept` gives, with the peer's address; whether the ACP is sent; the `msg_code` that
-- `recv` reads from a descriptor, if it reads anything; whether `malloc` has memory.
pub record Incoming : Type 0 where
  pub ip : CString
  pub port : ℕ
  pub socket : ℕ
  pub acp_sent : Bool
  pub received : ℕ → Option ℕ
  pub memory : Bool

-- What follows an ACK.
unfoldable pub enlist : Incoming → ℕ → M (Unit {0})
enlist i fd = do
  ret ← add_to_array i.memory i.ip i.port fd
  elim ret [
    | full ↦ close fd
    | no_memory ↦ close fd
    | added ↦ do assign_thread i.ip i.port fd; return tt
  ]

-- The answer of the peer is waited for on `new_socket`, which a failure has set to 0.
unfoldable pub await_ack : Incoming → ℕ → M (Unit {0})
unfolding enlist
await_ack i new_socket = elim (i.received new_socket) [
  | none ↦ close new_socket
  | some code ↦ if code == pkt_msg_ack then enlist i new_socket else return tt
]

unfoldable pub accept_one : Incoming → M (Unit {0})
unfolding await_ack
accept_one i = elim i.acp_sent [
  | true ↦ await_ack i i.socket
  | false ↦ do close i.socket; await_ack i 0
]
