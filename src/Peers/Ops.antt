-- ===== src/Peers/Ops.antt =====
-- The operations of helpers.c on the peer table, as a map from addresses to peers: what each
-- returns, what it changes, and that it gives its lock back.
use bittorrent_implementatio.Prelude.{
  ℕ, zero, suc, ◌+◌, ◌≤◌, ◌<◌, ◌≡◌, refl, Bool, true, false, none, some, List, [], ◌∷◌, CString,
  if◌then◌else◌, length, get_elem?, arith,
}
use bittorrent_implementatio.Peers.{
  Peer, Arrays, count_peers, in_slots, in_array, get_fd, get_number_of_connections, added, full,
  no_memory, add_slots, add_to_array, remove_slots, remove_from_array, set_thread_id, get_thread_id,
  free_thread,
}
use bittorrent_implementatio.Peers.Table.{
  lookup, same, Distinct, lookup-add_slots, count-add_slots, add_slots_full, add_slots_no_memory,
  lookup-remove_slots, Distinct-remove_slots, count-remove_slots,
}

-- The peer that `add_to_array` stores.
abbrev pub fresh_peer : CString → ℕ → ℕ → Peer
fresh_peer ip port fd = record { ip = ip; port = port; socket_fd = fd; thread_id = none }

-- With the lock free, memory, a free slot and an address that is not listed, `add_to_array` lists
-- the peer, leaves every other address as it was, raises the number of peers by one, and gives
-- the lock back.
pub add_to_array_lem :
    (ip : CString) (port fd : ℕ) (s : Arrays)
    → s.peer_array_lock ≡ false
    → in_slots ip port s.peer_array ≡ false
    → count_peers s.peer_array < length s.peer_array
    → (s' : Arrays) × (add_to_array true ip port fd s ≡ some (added, s'))
      × ((a : CString) (b : ℕ)
          → lookup a b s'.peer_array
            ≡ (if same ip port a b then some (fresh_peer ip port fd) else lookup a b s.peer_array))
      × (count_peers s'.peer_array ≡ suc (count_peers s.peer_array))
      × (s'.peer_array_lock ≡ false)
unfolding add_to_array
add_to_array_lem ip port fd s free new room = (
  record s { peer_array = (add_slots true (fresh_peer ip port fd) s.peer_array).1 },
  ground (arith, count-add_slots (fresh_peer ip port fd) s.peer_array room),
  λ a b. lookup-add_slots a b (fresh_peer ip port fd) s.peer_array new room,
  (count-add_slots (fresh_peer ip port fd) s.peer_array room).0,
  free,
)

-- With every slot taken `add_to_array` changes nothing and says so.
pub add_to_array_full :
    (memory : Bool) (ip : CString) (port fd : ℕ) (s : Arrays)
    → s.peer_array_lock ≡ false
    → length s.peer_array ≤ count_peers s.peer_array
    → add_to_array memory ip port fd s ≡ some (full, s)
unfolding add_to_array
add_to_array_full memory ip port fd s free h =
    ground (arith, add_slots_full memory (fresh_peer ip port fd) s.peer_array h)

-- With the lock free and a free slot, where `malloc` fails `add_to_array` changes no slot and
-- returns with the lock held: from then on every operation on the table waits for ever.
pub add_to_array_no_memory :
    (ip : CString) (port fd : ℕ) (s : Arrays)
    → s.peer_array_lock ≡ false
    → count_peers s.peer_array < length s.peer_array
    → (s' : Arrays) × (add_to_array false ip port fd s ≡ some (no_memory, s'))
      × (s'.peer_array ≡ s.peer_array)
      × ((a : CString) (b c : ℕ) (m : Bool)
          → (in_array a b s' ≡ none)
            × (get_fd a b s' ≡ none)
            × (get_thread_id a b s' ≡ none)
            × (add_to_array m a b c s' ≡ none)
            × (remove_from_array a b s' ≡ none)
            × (set_thread_id a b c s' ≡ none)
            × (get_number_of_connections s' ≡ none))
unfolding add_to_array in_array get_fd get_thread_id remove_from_array set_thread_id
    get_number_of_connections
add_to_array_no_memory ip port fd s free room = (
  record s { peer_array_lock = true },
  ground (arith, add_slots_no_memory (fresh_peer ip port fd) s.peer_array room),
  refl,
  λ a b c m. (refl, refl, refl, refl, refl, refl, refl),
)

-- With the lock free and no address listed twice, `remove_from_array` takes the address out,
-- leaves every other address as it was, lowers the number of peers by one if the address was
-- listed, and gives the lock back; no address is listed twice afterwards.
pub remove_from_array_lem :
    (ip : CString) (port : ℕ) (s : Arrays)
    → s.peer_array_lock ≡ false
    → Distinct s.peer_array
    → (s' : Arrays) × (remove_from_array ip port s ≡ some (tt, s'))
      × ((a : CString) (b : ℕ)
          → lookup a b s'.peer_array ≡ (if same ip port a b then none else lookup a b s.peer_array))
      × (count_peers s'.peer_array + (if in_slots ip port s.peer_array then 1 else 0)
          ≡ count_peers s.peer_array)
      × Distinct s'.peer_array
      × (s'.peer_array_lock ≡ false)
unfolding remove_from_array
remove_from_array_lem ip port s free d = (
  record s { peer_array = remove_slots ip port s.peer_array },
  ground arith,
  λ a b. lookup-remove_slots ip port a b s.peer_array d,
  count-remove_slots ip port s.peer_array,
  Distinct-remove_slots ip port s.peer_array d,
  free,
)

-- The first free thread: its status is 0, and that of every earlier one is not.
free_thread_first :
    (k : ℕ) (ss : List ℕ) (j : ℕ)
    → free_thread k ss ≡ some j
    → (i : ℕ) × (j ≡ i + k) × (get_elem? ss i ≡ some 0)
unfolding free_thread
free_thread_first k [] j h = absurd (ground arith)
free_thread_first k (zero ∷ ss) j h = (0, ground arith, refl)
free_thread_first k (suc s ∷ ss) j h =
    let (i, e, f) = free_thread_first (suc k) ss j (ground arith) in (suc i, omega arith, f)
