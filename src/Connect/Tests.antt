-- ===== src/Connect/Tests.antt =====
-- A table of two slots, and instances of the theorems on it.
use bittorrent_implementatio.Prelude.{
  ℕ, suc, ◌+◌, ◌≡◌, refl, ◌≢◌, Bool, true, false, none, some, [], ◌∷◌, CString, if◌then◌else◌,
  str_eq, set, subst, arith,
}
use bittorrent_implementatio.Peers.{
  Peer, Arrays, ThreadArgs, count_peers, in_slots, in_array, get_fd, get_number_of_connections,
  get_thread_id, is_at, added, no_memory, add_to_array, remove_from_array, set_thread_id,
  free_thread, assign_thread,
}
use bittorrent_implementatio.Peers.Table.{lookup, same, Distinct}
use bittorrent_implementatio.Peers.Ops.{
  fresh_peer, add_to_array_lem, add_to_array_no_memory, remove_from_array_lem,
}
use bittorrent_implementatio.Connect.{
  Dial, Exit, recv_error, closed_by_peer, got_dsn, find_started, peer_connect, peer_disconnect,
}
use bittorrent_implementatio.Connect.Connects.{
  accepts, assign_thread_lem, peer_connect_fails, peer_connect_lem, peer_connect_busy,
}
use bittorrent_implementatio.Connect.Disconnects.{peer_disconnect_lem, peer_disconnect_deadlock}

abbrev address : CString
address = 49 ∷ 46 ∷ 50 ∷ []

abbrev listed_peer : Peer
listed_peer = record { ip = address; port = 80; socket_fd = 5; thread_id = some 0 }

abbrev running_thread : ThreadArgs
running_thread = record { ip = address; port = 80; client_socket_fd = 5; thread_id = 0 }

-- Nobody is connected.
abbrev idle : Arrays
idle = record {
  thread_status_array = 0 ∷ 0 ∷ [];
  peer_array = none ∷ none ∷ [];
  thread_status_lock = false;
  peer_array_lock = false;
  started = [];
  closed = [];
}

-- A slot is free, and no thread.
abbrev crowded : Arrays
crowded = record idle { thread_status_array = 1 ∷ 1 ∷ [] }

-- One peer is connected.
abbrev busy : Arrays
busy = record idle {
  thread_status_array = 1 ∷ 0 ∷ [];
  peer_array = some listed_peer ∷ none ∷ [];
  started = running_thread ∷ [];
}

-- The peer does not answer.
abbrev silent : Dial
silent = record (accepts 7) { connects = false }

add_to_array_lem_example :
    (s' : Arrays) × (add_to_array true address 80 5 idle ≡ some (added, s'))
    × ((a : CString) (b : ℕ)
        → lookup a b s'.peer_array ≡ (
            if same address 80 a b
            then some (fresh_peer address 80 5)
            else lookup a b idle.peer_array))
    × (count_peers s'.peer_array ≡ suc (count_peers idle.peer_array))
    × (s'.peer_array_lock ≡ false)
unfolding in_slots count_peers
add_to_array_lem_example = add_to_array_lem address 80 5 idle refl refl (omega arith)

add_to_array_no_memory_example :
    (s' : Arrays) × (add_to_array false address 80 5 idle ≡ some (no_memory, s'))
    × (s'.peer_array ≡ idle.peer_array)
    × ((a : CString) (b c : ℕ) (m : Bool)
        → (in_array a b s' ≡ none)
          × (get_fd a b s' ≡ none)
          × (get_thread_id a b s' ≡ none)
          × (add_to_array m a b c s' ≡ none)
          × (remove_from_array a b s' ≡ none)
          × (set_thread_id a b c s' ≡ none)
          × (get_number_of_connections s' ≡ none))
unfolding count_peers
add_to_array_no_memory_example = add_to_array_no_memory address 80 5 idle refl (omega arith)

remove_from_array_lem_example :
    (s' : Arrays) × (remove_from_array address 80 busy ≡ some (tt, s'))
    × ((a : CString) (b : ℕ)
        → lookup a b s'.peer_array
          ≡ (if same address 80 a b then none else lookup a b busy.peer_array))
    × (count_peers s'.peer_array + (if in_slots address 80 busy.peer_array then 1 else 0)
        ≡ count_peers busy.peer_array)
    × Distinct s'.peer_array
    × (s'.peer_array_lock ≡ false)
unfolding in_slots
remove_from_array_lem_example = remove_from_array_lem address 80 busy refl (refl, tt)

assign_thread_lem_example :
    (s' : Arrays) × (assign_thread address 80 5 (record busy { thread_status_array = 0 ∷ 0 ∷ [] })
      ≡ some (true, s'))
    × (s'.thread_status_array
        ≡ set (record busy { thread_status_array = 0 ∷ 0 ∷ [] }).thread_status_array 0 1)
    × ((a : CString) (b : ℕ)
        → lookup a b s'.peer_array ≡ (
            if same address 80 a b
            then elim (lookup a b (record busy { thread_status_array = 0 ∷ 0 ∷ [] }).peer_array) [
              | none ↦ none
              | some listed_peer ↦ some (record listed_peer { thread_id = some 0 })
            ]
            else lookup a b (record busy { thread_status_array = 0 ∷ 0 ∷ [] }).peer_array))
    × (s'.closed ≡ (record busy { thread_status_array = 0 ∷ 0 ∷ [] }).closed)
    × (s'.thread_status_lock ≡ false)
    × (s'.peer_array_lock ≡ false)
unfolding free_thread
assign_thread_lem_example =
    assign_thread_lem address 80 5 0 (record busy { thread_status_array = 0 ∷ 0 ∷ [] }) refl refl
      refl

peer_connect_fails_example :
    (idle.peer_array ≡ idle.peer_array) × (idle.thread_status_array ≡ idle.thread_status_array)
unfolding peer_connect in_array in_slots
peer_connect_fails_example = peer_connect_fails silent address 80 idle idle refl

peer_connect_lem_example :
    (s' : Arrays) × (peer_connect (accepts 5) address 80 idle ≡ some (true, s'))
    × ((a : CString) (b : ℕ)
        → lookup a b s'.peer_array ≡ (
            if same address 80 a b
            then some (record { ip = address; port = 80; socket_fd = 5; thread_id = some 0 })
            else lookup a b idle.peer_array))
    × (s'.thread_status_array ≡ set idle.thread_status_array 0 1)
    × (s'.closed ≡ idle.closed)
    × (s'.thread_status_lock ≡ false)
    × (s'.peer_array_lock ≡ false)
unfolding in_slots count_peers free_thread
peer_connect_lem_example = peer_connect_lem address 80 5 idle refl refl refl (omega arith) 0 refl

peer_connect_busy_example :
    (s' : Arrays) × (peer_connect (accepts 5) address 80 crowded ≡ some (true, s'))
    × (lookup address 80 s'.peer_array ≡ some (fresh_peer address 80 5))
    × (s'.closed ≡ 5 ∷ crowded.closed)
    × (s'.started ≡ crowded.started)
unfolding in_slots count_peers free_thread
peer_connect_busy_example = peer_connect_busy address 80 5 crowded refl refl refl (omega arith) refl

peer_disconnect_lem_example :
    (s' : Arrays) × (peer_disconnect closed_by_peer address 80 busy ≡ some (true, s'))
    × ((a : CString) (b : ℕ)
        → lookup a b s'.peer_array
          ≡ (if same address 80 a b then none else lookup a b busy.peer_array))
    × (s'.thread_status_array ≡ set busy.thread_status_array 0 0)
    × (s'.closed ≡ running_thread.client_socket_fd ∷ busy.closed)
    × (s'.thread_status_lock ≡ false)
    × (s'.peer_array_lock ≡ false)
unfolding lookup is_at str_eq find_started in_slots
peer_disconnect_lem_example =
    peer_disconnect_lem address 80 busy listed_peer 0 running_thread refl refl refl refl refl
      (refl, tt) refl refl refl

abbrev IsClosed : Exit → Type 0
IsClosed closed_by_peer = ⊥
IsClosed recv_error = Unit {0}
IsClosed got_dsn = Unit {0}

not_closed : got_dsn ≢ closed_by_peer
not_closed e = subst IsClosed e tt

peer_disconnect_deadlock_example : peer_disconnect got_dsn address 80 busy ≡ none
unfolding lookup is_at str_eq find_started
peer_disconnect_deadlock_example =
    peer_disconnect_deadlock address 80 busy listed_peer 0 running_thread refl refl refl refl refl
      got_dsn not_closed
