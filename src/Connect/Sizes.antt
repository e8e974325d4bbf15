-- ===== src/Connect/Sizes.antt =====
-- Connecting, disconnecting and accepting (project/src/peer.c) keep the bounds of the two tables.
use bittorrent_implementatio.Prelude.{ℕ, Bool, true, false, Option, none, some, CString, ◌==◌}
use bittorrent_implementatio.Peers.{
  Arrays, ThreadArgs, M, ◌>>=◌, ◌>>◌, return, lock_status, unlock_status, Added, added, full,
  no_memory, in_array, get_fd, get_thread_id, add_to_array, remove_from_array, assign_thread,
}
use bittorrent_implementatio.Peers.Keeps.{
  Leaves, Keeps, bind-Keeps, choose-Keeps, if-Keeps, option-Keeps,
}
use bittorrent_implementatio.Peers.Sizes.{
  IsSized, in_array-Keeps, get_fd-Keeps, get_thread_id-Keeps, add_to_array-Keeps,
  remove_from_array-Keeps, lock_status-Keeps, unlock_status-Keeps,
}
use bittorrent_implementatio.Peers.Sizes.Threads.{status-Keeps, close-Keeps, assign_thread-Keeps}
use bittorrent_implementatio.Connect.{
  Dial, Exit, recv_error, closed_by_peer, got_dsn, pkt_msg_acp, close, clear_status, finish_connect,
  peer_connect, exit_handler, find_started, join, peer_disconnect,
}
use bittorrent_implementatio.Connect.Listener.Accepts.{added_to, enlisted}
use bittorrent_implementatio.Connect.Listener.{Incoming, pkt_msg_ack, enlist, await_ack, accept_one}

module _ (max : ℕ) where
  returns : {A : Type 0} (x : A) → Keeps (IsSized max) (return x)
  returns x s v = v

  close_after : {A : Type 0} (fd : ℕ) (x : A) → Keeps (IsSized max) (do close fd; return x)
  close_after fd x = bind-Keeps (close fd) (λ _. return x) (close-Keeps max fd) (λ _. returns x)

  added_to-Keeps :
      (ip : CString) (port sock : ℕ) (r : Added) → Keeps (IsSized max) (added_to ip port sock r)
  added_to-Keeps ip port sock full = close_after sock false
  added_to-Keeps ip port sock no_memory = close_after sock false
  added_to-Keeps ip port sock added =
      bind-Keeps (assign_thread ip port sock) (λ _. return true)
        (assign_thread-Keeps max ip port sock) (λ _. returns true)

  finish_connect-Keeps :
      (d : Dial) (code : ℕ) (ip : CString) (port sock : ℕ)
      → Keeps (IsSized max) (finish_connect d code ip port sock)
  unfolding finish_connect
  finish_connect-Keeps d code ip port sock =
      if-Keeps (code == pkt_msg_acp) _ _
        (choose-Keeps d.ack_sent _ _
          (bind-Keeps (add_to_array d.memory ip port sock) (added_to ip port sock)
            (add_to_array-Keeps max d.memory ip port sock) (added_to-Keeps ip port sock))
          (close_after sock false))
        (close_after sock false)

  abbrev dialled : Dial → CString → ℕ → Bool → M Bool
  dialled d ip port listed = elim listed [
    | true ↦ return false
    | false ↦ elim d.socket [
      | none ↦ return false
      | some sock ↦ elim d.address_ok [
        | false ↦ return false
        | true ↦ elim d.connects [
          | false ↦ return false
          | true ↦ elim d.response [
            | none ↦ do close sock; return false
            | some code ↦ finish_connect d code ip port sock
          ]
        ]
      ]
    ]
  ]

  pub peer_connect-Keeps :
      (d : Dial) (ip : CString) (port : ℕ) → Keeps (IsSized max) (peer_connect d ip port)
  unfolding peer_connect
  peer_connect-Keeps d ip port =
      bind-Keeps (in_array ip port) (dialled d ip port) (in_array-Keeps max ip port) (λ listed.
        choose-Keeps listed _ _ (returns false) (
          option-Keeps d.socket _ _ (returns false) (λ sock.
            choose-Keeps d.address_ok _ _
              (choose-Keeps d.connects _ _
                (option-Keeps d.response _ _ (close_after sock false)
                  (λ code. finish_connect-Keeps d code ip port sock))
                (returns false))
              (returns false))))

  locked_clear : ℕ → M (Unit {0})
  locked_clear j = do lock_status; clear_status j; unlock_status

  locked_clear-Keeps : (j : ℕ) → Keeps (IsSized max) (locked_clear j)
  unfolding locked_clear
  locked_clear-Keeps j =
      bind-Keeps lock_status (λ _. do clear_status j; unlock_status) (lock_status-Keeps max)
        (λ _.
          bind-Keeps (clear_status j) (λ _. unlock_status) (status-Keeps max j 0)
            (λ _. unlock_status-Keeps max))

  abbrev left : Exit → ℕ → M (Unit {0})
  left e j = elim e [
    | closed_by_peer ↦ clear_status j
    | recv_error ↦ do lock_status; clear_status j; unlock_status
    | got_dsn ↦ do lock_status; clear_status j; unlock_status
  ]

  left-Keeps : (e : Exit) (j : ℕ) → Keeps (IsSized max) (left e j)
  unfolding locked_clear
  left-Keeps closed_by_peer j = status-Keeps max j 0
  left-Keeps recv_error j = locked_clear-Keeps j
  left-Keeps got_dsn j = locked_clear-Keeps j

  pub exit_handler-Keeps : (e : Exit) (a : ThreadArgs) → Keeps (IsSized max) (exit_handler e a)
  unfolding exit_handler
  exit_handler-Keeps e a =
      bind-Keeps (remove_from_array a.ip a.port)
        (λ _. do close a.client_socket_fd; left e a.thread_id)
        (remove_from_array-Keeps max a.ip a.port)
        (λ _.
          bind-Keeps (close a.client_socket_fd) (λ _. left e a.thread_id)
            (close-Keeps max a.client_socket_fd) (λ _. left-Keeps e a.thread_id))

  joined-Keeps :
      (e : Exit) (o : Option ThreadArgs) (s : Arrays)
      → IsSized max s
      → Leaves (IsSized max) (elim o [ none ↦ none | some args ↦ exit_handler e args s ])
  joined-Keeps e none s v = tt
  joined-Keeps e (some a) s v = exit_handler-Keeps e a s v

  join-Keeps : (e : Exit) (j : ℕ) → Keeps (IsSized max) (join e j)
  unfolding join
  join-Keeps e j s v = joined-Keeps e (find_started j s.started) s v

  ends_thread : Exit → ℕ → M Bool
  ends_thread e j = do lock_status; join e j; clear_status j; unlock_status; return true

  ends_thread-Keeps : (e : Exit) (j : ℕ) → Keeps (IsSized max) (ends_thread e j)
  unfolding ends_thread
  ends_thread-Keeps e j =
      bind-Keeps lock_status (λ _. do join e j; clear_status j; unlock_status; return true)
        (lock_status-Keeps max)
        (λ _.
          bind-Keeps (join e j) (λ _. do clear_status j; unlock_status; return true)
            (join-Keeps e j)
            (λ _.
              bind-Keeps (clear_status j) (λ _. do unlock_status; return true)
                (status-Keeps max j 0)
                (λ _.
                  bind-Keeps unlock_status (λ _. return true) (unlock_status-Keeps max)
                    (λ _. returns true))))

  pub peer_disconnect-Keeps :
      (e : Exit) (ip : CString) (port : ℕ) → Keeps (IsSized max) (peer_disconnect e ip port)
  unfolding peer_disconnect ends_thread
  peer_disconnect-Keeps e ip port =
      bind-Keeps (in_array ip port)
        (λ listed. elim listed [
          | false ↦ return false
          | true ↦ do get_fd ip port; j ← get_thread_id ip port; ends_thread e j
        ])
        (in_array-Keeps max ip port)
        (λ listed.
          choose-Keeps listed _ _
            (bind-Keeps (get_fd ip port) (λ _. do j ← get_thread_id ip port; ends_thread e j)
              (get_fd-Keeps max ip port)
              (λ _.
                bind-Keeps (get_thread_id ip port) (ends_thread e) (get_thread_id-Keeps max ip port)
                  (ends_thread-Keeps e)))
            (returns false))

  enlisted-Keeps : (i : Incoming) (fd : ℕ) (r : Added) → Keeps (IsSized max) (enlisted i fd r)
  enlisted-Keeps i fd full = close-Keeps max fd
  enlisted-Keeps i fd no_memory = close-Keeps max fd
  enlisted-Keeps i fd added =
      bind-Keeps (assign_thread i.ip i.port fd) (λ _. return tt)
        (assign_thread-Keeps max i.ip i.port fd) (λ _. returns tt)

  await_ack-Keeps : (i : Incoming) (fd : ℕ) → Keeps (IsSized max) (await_ack i fd)
  unfolding await_ack enlist
  await_ack-Keeps i fd = option-Keeps (i.received fd) _ _ (close-Keeps max fd) (λ code.
      if-Keeps (code == pkt_msg_ack) _ _
        (bind-Keeps (add_to_array i.memory i.ip i.port fd) (enlisted i fd)
          (add_to_array-Keeps max i.memory i.ip i.port fd) (enlisted-Keeps i fd))
        (returns tt))

  pub accept_one-Keeps : (i : Incoming) → Keeps (IsSized max) (accept_one i)
  unfolding accept_one
  accept_one-Keeps i = choose-Keeps i.acp_sent _ _ (await_ack-Keeps i i.socket) (
      bind-Keeps (close i.socket) (λ _. await_ack i 0) (close-Keeps max i.socket)
        (λ _. await_ack-Keeps i 0))
