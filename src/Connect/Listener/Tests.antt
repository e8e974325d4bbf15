-- ===== src/Connect/Listener/Tests.antt =====
-- Connections to a peer with a table of two slots, and instances of the theorems on them.
use bittorrent_implementatio.Prelude.{◌≡◌, refl, true, false, none, some, [], ◌∷◌}
use bittorrent_implementatio.Peers.{Arrays, in_slots}
use bittorrent_implementatio.Connect.{peer_connect}
use bittorrent_implementatio.Connect.Connects.{accepts}
use bittorrent_implementatio.Connect.Listener.{Incoming, pkt_msg_ack, accept_one}
use bittorrent_implementatio.Connect.Listener.Accepts.{after, accept_one-peer_connect}

abbrev idle : Arrays
idle = record {
  thread_status_array = 0 ∷ 0 ∷ [];
  peer_array = none ∷ none ∷ [];
  thread_status_lock = false;
  peer_array_lock = false;
  started = [];
  closed = [];
}

abbrev visitor : Incoming
visitor = record {
  ip = b'7' ∷ [];
  port = 80;
  socket = 5;
  acp_sent = true;
  received = λ fd. some pkt_msg_ack;
  memory = true;
}

accept_one-peer_connect_example :
    after (accept_one visitor idle)
    ≡ after (peer_connect (accepts visitor.socket) visitor.ip visitor.port idle)
unfolding in_slots
accept_one-peer_connect_example = accept_one-peer_connect visitor idle refl refl refl refl refl
