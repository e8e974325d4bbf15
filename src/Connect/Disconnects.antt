-- ===== src/Connect/Disconnects.antt =====
-- `peer_disconnect` against the three ways in which the thread that it joins can end.
use bittorrent_implementatio.Prelude.{
  ℕ, ◌≡◌, refl, ◌≢◌, true, false, none, some, ◌∷◌, CString, if◌then◌else◌, set, set-set, arith,
}
use bittorrent_implementatio.Peers.{
  Peer, Arrays, ThreadArgs, in_slots, in_array, get_fd, get_thread_id, thread_slots, remove_slots,
  remove_from_array,
}
use bittorrent_implementatio.Peers.Table.{
  lookup, same, Distinct, lookup-remove_slots, in_slots-lookup, thread_slots-lookup,
}
use bittorrent_implementatio.Connect.{
  Exit, recv_error, closed_by_peer, got_dsn, exit_handler, find_started, peer_disconnect,
}

-- An address that is not listed is refused, and nothing changes.
pub peer_disconnect_unknown :
    (e : Exit) (ip : CString) (port : ℕ) (s : Arrays)
    → s.peer_array_lock ≡ false
    → in_slots ip port s.peer_array ≡ false
    → peer_disconnect e ip port s ≡ some (false, s)
unfolding peer_disconnect in_array
peer_disconnect_unknown e ip port s free h = ground arith

module _ (ip : CString) (port : ℕ) (s : Arrays) (p : Peer) (j : ℕ) (args : ThreadArgs)
    (status_free : s.thread_status_lock ≡ false) (peers_free : s.peer_array_lock ≡ false)
    (found : lookup ip port s.peer_array ≡ some p) (managed : p.thread_id ≡ some j)
    (running : find_started j s.started ≡ some args) where
  in_found : in_slots ip port s.peer_array ≡ true
  in_found = ground (arith, in_slots-lookup ip port s.peer_array)

  thread_found : thread_slots ip port s.peer_array ≡ some j
  thread_found = ground (arith, thread_slots-lookup ip port s.peer_array)

  -- Both locks are free, no address is listed twice, the peer is listed with a thread that was
  -- started for its address, and that thread ends because the connection was closed. Then
  -- `peer_disconnect` returns 1, the address is listed no more, every other one stays as it was,
  -- the thread's status is 0, its socket is closed, and both locks are free.
  pub peer_disconnect_lem :
      Distinct s.peer_array
      → args.ip ≡ ip
      → args.port ≡ port
      → args.thread_id ≡ j
      → (s' : Arrays) × (peer_disconnect closed_by_peer ip port s ≡ some (true, s'))
        × ((a : CString) (b : ℕ)
            → lookup a b s'.peer_array
              ≡ (if same ip port a b then none else lookup a b s.peer_array))
        × (s'.thread_status_array ≡ set s.thread_status_array j 0)
        × (s'.closed ≡ args.client_socket_fd ∷ s.closed)
        × (s'.thread_status_lock ≡ false)
        × (s'.peer_array_lock ≡ false)
  unfolding peer_disconnect in_array get_fd get_thread_id exit_handler remove_from_array
  peer_disconnect_lem d ea eb ec = (
    record s {
      thread_status_array = set (set s.thread_status_array j 0) j 0;
      peer_array = remove_slots ip port s.peer_array;
      closed = args.client_socket_fd ∷ s.closed;
      thread_status_lock = false;
      peer_array_lock = false;
    },
    ground (arith, in_found, thread_found),
    λ a b. lookup-remove_slots ip port a b s.peer_array d,
    set-set s.thread_status_array j 0 0,
    refl,
    refl,
    refl,
  )

  -- Both locks are free, and the peer is listed with a thread that was started. If that thread
  -- ends in another way than by a closed connection, it waits for the status lock, which
  -- `peer_disconnect` holds while it waits for the thread: neither goes on.
  pub peer_disconnect_deadlock :
      (e : Exit) → e ≢ closed_by_peer → peer_disconnect e ip port s ≡ none
  unfolding peer_disconnect in_array get_fd get_thread_id exit_handler remove_from_array
  peer_disconnect_deadlock closed_by_peer h = absurd (h refl)
  peer_disconnect_deadlock recv_error h = ground (arith, in_found, thread_found)
  peer_disconnect_deadlock got_dsn h = ground (arith, in_found, thread_found)
