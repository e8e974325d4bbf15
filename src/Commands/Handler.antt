-- ===== src/Commands/Handler.antt =====
-- One turn of the loop of `handle_peers` in project/src/peer.c: what a peer's thread does with what `recv` gives.
pub mod Answers
mod Tests
use bittorrent_implementatio.Prelude.{
  ℕ, Bool, true, false, Option, none, some, List, [], ◌∷◌, CString, ◌==◌, if◌then◌else◌,
}
use bittorrent_implementatio.Strings.{c_text}
use bittorrent_implementatio.Packages.{ResArgs, add_data_to_file}
use bittorrent_implementatio.Packages.Serving.{handle_req}
use bittorrent_implementatio.Packets.{
  BtidePacket, pkt_msg_req, pkt_msg_res, Request, read_req, Response, read_res, Piece,
}
use bittorrent_implementatio.Peers.{ThreadArgs, Arrays}
use bittorrent_implementatio.Connect.{Exit, recv_error, closed_by_peer, got_dsn, exit_handler}
use bittorrent_implementatio.Commands.Loop.{Btide}

-- PKT_MSG_DSN, PKT_MSG_PNG and PKT_MSG_POG of project/include/net/packet.h
abbrev pub pkt_msg_dsn : ℕ
pkt_msg_dsn = 0x03

abbrev pub pkt_msg_png : ℕ
pkt_msg_png = 0xFF

abbrev pub pkt_msg_pog : ℕ
pkt_msg_pog = 0x00

-- What `recv` gives: an error, the end of the connection, or a packet.
pub data Received : Type 0 where
  fails closes : Received
  packet : BtidePacket → Received

-- What the thread sends, or that it ends. A REQ is answered by RES packets, or by one with the error bit.
pub data Reply : Type 0 where
  nothing pong ended : Reply
  answered : Option (List Piece) → Reply

unfoldable pub ends : Exit → ThreadArgs → Btide → Option (Btide × Reply)
ends e args b = elim (exit_handler e args b.required_arrays) [
  | none ↦ none
  | some (_, s) ↦ some (record b { required_arrays = s }, ended)
]

unfoldable pub on_req : List ℕ → Request → Btide → Option (Btide × Reply)
on_req behind r b = elim (handle_req b.files b.managed behind r) [
  | none ↦ none
  | some (m, sent) ↦ some (record b { managed = m }, answered sent)
]

-- The fields that the handler fills in. The array `hash` is cleared first, so that its text ends behind the 64
-- bytes at the latest.
abbrev pub res_args_of : Response → ResArgs
res_args_of r = record {
  data_recieved = r.data_len;
  ident = c_text r.ident;
  chunk_hash = c_text r.hash;
  file_offset = r.offset;
  payload = r.block;
}

-- `written` is how many bytes `fwrite` gets on the disk.
unfoldable pub on_res : ℕ → Response → Btide → Option (Btide × Reply)
on_res written r b = elim (add_data_to_file written b.files b.managed (res_args_of r)) [
  | none ↦ none
  | some files ↦ some (record b { files = files }, nothing)
]

-- A packet, by its `msg_code`; one that is not known is passed over.
unfoldable pub on_packet : ThreadArgs → ℕ → List ℕ → BtidePacket → Btide → Option (Btide × Reply)
unfolding ends on_req on_res
on_packet args written behind buffer b =
    if buffer.msg_code == pkt_msg_dsn
    then ends got_dsn args b
    else if buffer.msg_code == pkt_msg_png
    then some (b, pong)
    else if buffer.msg_code == pkt_msg_pog
    then some (b, nothing)
    else if buffer.msg_code == pkt_msg_req
    then on_req behind (read_req buffer) b
    else if buffer.msg_code == pkt_msg_res
    then if buffer.error == 0 then on_res written (read_res buffer) b else some (b, nothing)
    else some (b, nothing)

unfoldable pub handle_peers : ThreadArgs → ℕ → List ℕ → Received → Btide → Option (Btide × Reply)
unfolding on_packet
handle_peers args written behind fails b = ends recv_error args b
handle_peers args written behind closes b = ends closed_by_peer args b
handle_peers args written behind (packet buffer) b = on_packet args written behind buffer b
