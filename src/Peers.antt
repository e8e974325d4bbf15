-- ===== src/Peers.antt =====
-- The peer table and the thread table: project/src/chk/helpers.c up to line 192, and the types of
-- project/include/net/peers.h. `peer_array` has `max_peers` slots, so a loop up to `max_peers` is a
-- recursion over the slots. A mutex is a flag: an operation that would wait for it gets stuck,
-- which is the result `none`, as is a read of a field that was never set.
pub mod Table
pub mod Ops
pub mod Keeps
pub mod Sizes
use bittorrent_implementatio.Prelude.{
  ℕ, suc, Bool, true, false, ◌&&◌, Option, none, some, List, [], ◌∷◌, CString, str_eq, ◌==◌,
  if◌then◌else◌, set,
}

-- `struct peer`. `thread_id` is `none` from `malloc` until `set_thread_id`.
pub record Peer : Type 0 where
  pub ip : CString
  pub port : ℕ
  pub socket_fd : ℕ
  pub thread_id : Option ℕ

abbrev pub Slots : Type 0
Slots = List (Option Peer)

-- `struct client_thread_args`, less the pointers to the shared state
pub record ThreadArgs : Type 0 where
  pub ip : CString
  pub port : ℕ
  pub client_socket_fd : ℕ
  pub thread_id : ℕ

-- `struct arrays` and `struct locks`, and what the operations did to the world: the threads that
-- they started and the sockets that they closed, latest first.
pub record Arrays : Type 0 where
  pub thread_status_array : List ℕ
  pub peer_array : Slots
  pub thread_status_lock : Bool
  pub peer_array_lock : Bool
  pub started : List ThreadArgs
  pub closed : List ℕ

abbrev pub M : Type 0 → Type 0
M A = Arrays → Option (A × Arrays)

infixl 5 ◌>>=◌ ◌>>◌
abbrev pub ◌>>=◌ : {A B : Type 0} → M A → (A → M B) → M B
◌>>=◌ m f s = elim (m s) [ none ↦ none | some (a, s') ↦ f a s' ]

abbrev pub ◌>>◌ : {A B : Type 0} → M A → M B → M B
m >> k = m >>= λ _. k

abbrev pub return : {A : Type 0} → A → M A
return a s = some (a, s)

abbrev pub lock_peers : M (Unit {0})
lock_peers s = elim s.peer_array_lock [
  | true ↦ none
  | false ↦ some (tt, record s { peer_array_lock = true })
]

abbrev pub unlock_peers : M (Unit {0})
unlock_peers s = some (tt, record s { peer_array_lock = false })

abbrev pub lock_status : M (Unit {0})
lock_status s = elim s.thread_status_lock [
  | true ↦ none
  | false ↦ some (tt, record s { thread_status_lock = true })
]

abbrev pub unlock_status : M (Unit {0})
unlock_status s = some (tt, record s { thread_status_lock = false })

abbrev pub get_slots : M Slots
get_slots s = some (s.peer_array, s)

abbrev pub put_slots : Slots → M (Unit {0})
put_slots xs s = some (tt, record s { peer_array = xs })

-- `strcmp(p->ip, ip) == 0 && p->port == port`
unfoldable pub is_at : CString → ℕ → Peer → Bool
is_at ip port p = str_eq p.ip ip && p.port == port

unfoldable pub count_free : List ℕ → ℕ
count_free [] = 0
count_free (s ∷ ss) = if s == 0 then suc (count_free ss) else count_free ss

unfoldable pub threads_available : M ℕ
threads_available = do
  lock_status
  n ← λ s. some (count_free s.thread_status_array, s)
  unlock_status
  return n

unfoldable pub count_peers : Slots → ℕ
count_peers [] = 0
count_peers (none ∷ xs) = count_peers xs
count_peers (some p ∷ xs) = suc (count_peers xs)

unfoldable pub get_number_of_connections : M ℕ
get_number_of_connections = do lock_peers; xs ← get_slots; unlock_peers; return (count_peers xs)

-- The descriptor of the first peer at the address, or 0.
unfoldable pub fd_slots : CString → ℕ → Slots → ℕ
fd_slots ip port [] = 0
fd_slots ip port (none ∷ xs) = fd_slots ip port xs
fd_slots ip port (some p ∷ xs) = if is_at ip port p then p.socket_fd else fd_slots ip port xs

unfoldable pub get_fd : CString → ℕ → M ℕ
get_fd ip port = do lock_peers; xs ← get_slots; unlock_peers; return (fd_slots ip port xs)

unfoldable pub in_slots : CString → ℕ → Slots → Bool
in_slots ip port [] = false
in_slots ip port (none ∷ xs) = in_slots ip port xs
in_slots ip port (some p ∷ xs) = if is_at ip port p then true else in_slots ip port xs

unfoldable pub in_array : CString → ℕ → M Bool
in_array ip port = do lock_peers; xs ← get_slots; unlock_peers; return (in_slots ip port xs)

-- The return values 1, 0 and -1 of `add_to_array`.
pub data Added : Type 0 where
  added full no_memory : Added

-- The loop finds the first free slot; `memory` is whether `malloc` has memory to give.
unfoldable pub add_slots : Bool → Peer → Slots → Added × Slots
add_slots memory p [] = (full, [])
add_slots memory p (none ∷ xs) = if memory then (added, some p ∷ xs) else (no_memory, none ∷ xs)
add_slots memory p (some q ∷ xs) = let (r, ys) = add_slots memory p xs in (r, some q ∷ ys)

-- Where `malloc` fails the function returns with the lock held.
unfoldable pub add_to_array : Bool → CString → ℕ → ℕ → M Added
add_to_array memory ip port socket_fd = do
  lock_peers
  xs ← get_slots
  let out =
      add_slots memory (record { ip = ip; port = port; socket_fd = socket_fd; thread_id = none }) xs
  put_slots out.1
  elim out.0 [
    | no_memory ↦ return no_memory
    | full ↦ do unlock_peers; return full
    | added ↦ do unlock_peers; return added
  ]

unfoldable pub remove_slots : CString → ℕ → Slots → Slots
remove_slots ip port [] = []
remove_slots ip port (none ∷ xs) = none ∷ remove_slots ip port xs
remove_slots ip port (some p ∷ xs) =
    if is_at ip port p then none ∷ xs else some p ∷ remove_slots ip port xs

unfoldable pub remove_from_array : CString → ℕ → M (Unit {0})
remove_from_array ip port = do
  lock_peers
  xs ← get_slots
  put_slots (remove_slots ip port xs)
  unlock_peers

-- The return value 1 is `true`.
unfoldable pub set_slots : CString → ℕ → ℕ → Slots → Bool × Slots
set_slots ip port j [] = (false, [])
set_slots ip port j (none ∷ xs) = let (r, ys) = set_slots ip port j xs in (r, none ∷ ys)
set_slots ip port j (some p ∷ xs) =
    let (r, ys) = set_slots ip port j xs in
    if is_at ip port p
    then (true, some (record p { thread_id = some j }) ∷ xs)
    else (r, some p ∷ ys)

unfoldable pub set_thread_id : CString → ℕ → ℕ → M Bool
set_thread_id ip port thread_id = do
  lock_peers
  xs ← get_slots
  let out = set_slots ip port thread_id xs
  put_slots out.1
  unlock_peers
  return out.0

-- The thread of the first peer at the address, or 0.
unfoldable pub thread_slots : CString → ℕ → Slots → Option ℕ
thread_slots ip port [] = some 0
thread_slots ip port (none ∷ xs) = thread_slots ip port xs
thread_slots ip port (some p ∷ xs) =
    if is_at ip port p then p.thread_id else thread_slots ip port xs

unfoldable pub get_thread_id : CString → ℕ → M ℕ
get_thread_id ip port = do
  lock_peers
  xs ← get_slots
  unlock_peers
  λ s. elim (thread_slots ip port xs) [ none ↦ none | some j ↦ some (j, s) ]

-- The index of the first thread whose status is 0, counted from `j`.
unfoldable pub free_thread : ℕ → List ℕ → Option ℕ
free_thread j [] = none
free_thread j (s ∷ ss) = if s == 0 then some j else free_thread (suc j) ss

-- The return values 0 and -1 are `true` and `false`.
unfoldable pub assign_thread : CString → ℕ → ℕ → M Bool
assign_thread ip port new_socket = do
  lock_status
  free ← λ s. some (free_thread 0 s.thread_status_array, s)
  elim free [
    | none ↦ do unlock_status; λ s. some (false, record s { closed = new_socket ∷ s.closed })
    | some j ↦ do
      λ s. some (tt, record s { thread_status_array = set s.thread_status_array j 1 })
      set_thread_id ip port j
      λ s. some (
        tt,
        record s {
          started =
              record { ip = ip; port = port; client_socket_fd = new_socket; thread_id = j }
              ∷ s.started;
        },
      )
      unlock_status
      return true
  ]
