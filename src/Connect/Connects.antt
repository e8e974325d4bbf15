-- ===== src/Connect/Connects.antt =====
-- `peer_connect`: what it lists, and what it leaves alone where it fails.
use bittorrent_implementatio.Prelude.{
  ℕ, ◌<◌, ◌≡◌, refl, ◌∙◌, Bool, true, false, Option, none, some, CString, str_eq_refl, ◌∷◌,
  if◌then◌else◌, length, set, arith,
}
use bittorrent_implementatio.Peers.{
  Arrays, count_peers, in_slots, in_array, add_slots, add_to_array, set_slots, set_thread_id,
  free_thread, assign_thread,
}
use bittorrent_implementatio.Peers.Table.{
  lookup, same, lookup-add_slots, count-add_slots, lookup-set_slots, add_slots_keeps,
}
use bittorrent_implementatio.Peers.Ops.{fresh_peer}
use bittorrent_implementatio.Connect.{Dial, pkt_msg_acp, finish_connect, peer_connect}

-- The state after `assign_thread` has taken thread `j`.
abbrev assigned : CString → ℕ → ℕ → ℕ → Arrays → Arrays
assigned ip port fd j s = record s {
  thread_status_array = set s.thread_status_array j 1;
  peer_array = (set_slots ip port j s.peer_array).1;
  started = record { ip = ip; port = port; client_socket_fd = fd; thread_id = j } ∷ s.started;
}

-- With both locks free and a free thread, `assign_thread` returns 0, here `true`: the first free
-- thread's status becomes 1, the peer's entry, if there is one, gets its index, every other entry
-- stays, no socket is closed, and both locks are free again.
pub assign_thread_lem :
    (ip : CString) (port fd j : ℕ) (s : Arrays)
    → s.thread_status_lock ≡ false
    → s.peer_array_lock ≡ false
    → free_thread 0 s.thread_status_array ≡ some j
    → (s' : Arrays) × (assign_thread ip port fd s ≡ some (true, s'))
      × (s'.thread_status_array ≡ set s.thread_status_array j 1)
      × ((a : CString) (b : ℕ)
          → lookup a b s'.peer_array ≡ (
              if same ip port a b
              then elim (lookup a b s.peer_array) [
                | none ↦ none
                | some p ↦ some (record p { thread_id = some j })
              ]
              else lookup a b s.peer_array))
      × (s'.closed ≡ s.closed)
      × (s'.thread_status_lock ≡ false)
      × (s'.peer_array_lock ≡ false)
unfolding assign_thread set_thread_id
assign_thread_lem ip port fd j s hs hp hj = (
  assigned ip port fd j s,
  ground arith,
  refl,
  λ a b. lookup-set_slots ip port j a b s.peer_array,
  refl,
  hs,
  hp,
)

-- With every thread busy the socket is closed, and the table stays as it is: a peer that was just
-- listed stays listed, over a closed socket and with no thread.
pub assign_thread_busy :
    (ip : CString) (port fd : ℕ) (s : Arrays)
    → s.thread_status_lock ≡ false
    → free_thread 0 s.thread_status_array ≡ none
    → (s' : Arrays) × (assign_thread ip port fd s ≡ some (false, s'))
      × (s'.peer_array ≡ s.peer_array)
      × (s'.thread_status_array ≡ s.thread_status_array)
unfolding assign_thread
assign_thread_busy ip port fd s hs hj =
    (record s { closed = fd ∷ s.closed }, ground arith, refl, refl)

finish_connect_fails :
    (d : Dial) (code : ℕ) (ip : CString) (port sock : ℕ) (s s' : Arrays)
    → finish_connect d code ip port sock s ≡ some (false, s')
    → (s'.peer_array ≡ s.peer_array) × (s'.thread_status_array ≡ s.thread_status_array)
unfolding finish_connect add_to_array
finish_connect_fails d code ip port sock s s' h =
    ground (arith, add_slots_keeps d.memory (fresh_peer ip port sock) s.peer_array)

-- Where `peer_connect` returns -1, whatever the network answered, it has listed no peer and taken
-- no thread.
pub peer_connect_fails :
    (d : Dial) (ip : CString) (port : ℕ) (s s' : Arrays)
    → peer_connect d ip port s ≡ some (false, s')
    → (s'.peer_array ≡ s.peer_array) × (s'.thread_status_array ≡ s.thread_status_array)
unfolding peer_connect in_array
peer_connect_fails d ip port s s' h = go d.socket d.response refl refl
  where
    go :
        (so re : Option ℕ)
        → d.socket ≡ so
        → d.response ≡ re
        → (s'.peer_array ≡ s.peer_array) × (s'.thread_status_array ≡ s.thread_status_array)
    go (some sock) (some code) es er =
        ground (
          arith,
          finish_connect_fails d code ip port sock (record s { peer_array_lock = false }) s',
        )
    go none re es er = ground arith
    go (some sock) none es er = ground arith

-- Every call of `peer_connect` succeeds, over the socket.
abbrev pub accepts : ℕ → Dial
accepts sock = record {
  socket = some sock;
  address_ok = true;
  connects = true;
  response = some pkt_msg_acp;
  ack_sent = true;
  memory = true;
}

module _ (ip : CString) (port sock : ℕ) (s : Arrays) (status_free : s.thread_status_lock ≡ false)
    (peers_free : s.peer_array_lock ≡ false) (new : in_slots ip port s.peer_array ≡ false)
    (room : count_peers s.peer_array < length s.peer_array) where
  -- The state in which `peer_connect` calls `assign_thread`.
  abbrev listed : Arrays
  listed = record s {
    peer_array = (add_slots true (fresh_peer ip port sock) s.peer_array).1;
    peer_array_lock = false;
  }

  connect_assigns :
      (r : Bool) (s' : Arrays)
      → assign_thread ip port sock listed ≡ some (r, s')
      → peer_connect (accepts sock) ip port s ≡ some (true, s')
  unfolding peer_connect in_array add_to_array
  connect_assigns r s' h =
      ground (arith, count-add_slots (fresh_peer ip port sock) s.peer_array room)

  -- Both locks are free, the address is not listed, a slot is empty, a thread is free, and every
  -- call of the system succeeds with an ACP from the peer. Then `peer_connect` returns 1: the
  -- peer is listed with that thread, every other address stays as it was, the thread's status is
  -- 1, no socket is closed, and both locks are free.
  pub peer_connect_lem :
      (j : ℕ)
      → free_thread 0 s.thread_status_array ≡ some j
      → (s' : Arrays) × (peer_connect (accepts sock) ip port s ≡ some (true, s'))
        × ((a : CString) (b : ℕ)
            → lookup a b s'.peer_array ≡ (
                if same ip port a b
                then some (record { ip = ip; port = port; socket_fd = sock; thread_id = some j })
                else lookup a b s.peer_array))
        × (s'.thread_status_array ≡ set s.thread_status_array j 1)
        × (s'.closed ≡ s.closed)
        × (s'.thread_status_lock ≡ false)
        × (s'.peer_array_lock ≡ false)
  peer_connect_lem j hj =
      let (s', e, st, l, c, u, v) = assign_thread_lem ip port sock j listed status_free refl hj in
      (
        s',
        connect_assigns true s' e,
        λ a b. l a b ∙ ground (arith, lookup-add_slots a b (fresh_peer ip port sock) s.peer_array),
        st,
        c,
        u,
        v,
      )

  -- Both locks are free, the address is not listed, a slot is empty, and every call of the system
  -- succeeds with an ACP from the peer, but no thread is free. Then `peer_connect` returns 1 all
  -- the same: the peer is listed, without a thread, no thread is started, and the peer's socket
  -- is closed.
  pub peer_connect_busy :
      free_thread 0 s.thread_status_array ≡ none
      → (s' : Arrays) × (peer_connect (accepts sock) ip port s ≡ some (true, s'))
        × (lookup ip port s'.peer_array ≡ some (fresh_peer ip port sock))
        × (s'.closed ≡ sock ∷ s.closed)
        × (s'.started ≡ s.started)
  peer_connect_busy hj = (
    record listed { closed = sock ∷ s.closed },
    connect_assigns false _ (unfold assign_thread in ground arith),
    ground (arith, lookup-add_slots ip port (fresh_peer ip port sock) s.peer_array, str_eq_refl ip),
    refl,
    refl,
  )
