-- ===== src/Peers/Sizes/Threads.antt =====
-- `assign_thread` (project/src/chk/helpers.c) keeps the bounds of the two tables.
use bittorrent_implementatio.Prelude.{
  ℕ, zero, suc, ◌+◌, ◌<◌, ◌≡◌, refl, ap, ◌∙◌, Bool, true, false, Option, none, some, List, [], ◌∷◌,
  CString, length, set, arith,
}
use bittorrent_implementatio.Peers.{
  return, lock_status, unlock_status, Arrays, M, ◌>>=◌, ◌>>◌, free_thread, set_thread_id,
  assign_thread,
}
use bittorrent_implementatio.Peers.Keeps.{Leaves, Keeps, bind-Keeps}
use bittorrent_implementatio.Peers.Sizes.{IsSized, lock_status-Keeps, set_thread_id-Keeps}

module _ (max : ℕ) where
  set-length : (xs : List ℕ) (j x : ℕ) → length (set xs j x) ≡ length xs
  set-length [] j x = refl
  set-length (y ∷ xs) zero x = refl
  set-length (y ∷ xs) (suc j) x = ap suc (set-length xs j x)

  -- A write to the status of a thread.
  pub status-Keeps :
      (j x : ℕ)
      → Keeps
          (IsSized max)
          (λ s. some (tt, record s { thread_status_array = set s.thread_status_array j x }))
  status-Keeps j x s v = record {
    slots = v.slots;
    statuses = set-length s.thread_status_array j x ∙ v.statuses;
    ids = v.ids;
    threads = v.threads;
  }

  pub close-Keeps :
      (fd : ℕ) → Keeps (IsSized max) (λ s. some (tt, record s { closed = fd ∷ s.closed }))
  close-Keeps fd s v = record {
    slots = v.slots;
    statuses = v.statuses;
    ids = v.ids;
    threads = v.threads;
  }

  free_thread_bound : (k : ℕ) (ss : List ℕ) (j : ℕ) → free_thread k ss ≡ some j → j < k + length ss
  unfolding free_thread
  free_thread_bound k [] j h = absurd (ground arith)
  free_thread_bound k (zero ∷ ss) j h = ground arith
  free_thread_bound k (suc s ∷ ss) j h =
      omega (arith, free_thread_bound (suc k) ss j (ground arith))

  -- What `assign_thread` does once it has a thread and has written it to the peer, and all that it does then.
  abbrev announce : CString → ℕ → ℕ → ℕ → M Bool
  announce ip port fd j = do
    λ s. some (
      tt,
      record s {
        started = record { ip = ip; port = port; client_socket_fd = fd; thread_id = j } ∷ s.started;
      },
    )
    unlock_status
    return true

  abbrev start_thread : CString → ℕ → ℕ → ℕ → M Bool
  start_thread ip port fd j = do
    λ s. some (tt, record s { thread_status_array = set s.thread_status_array j 1 })
    set_thread_id ip port j
    announce ip port fd j

  start_thread-Keeps :
      (ip : CString) (port fd j : ℕ) → j < max → Keeps (IsSized max) (start_thread ip port fd j)
  start_thread-Keeps ip port fd j h s v =
      bind-Keeps (set_thread_id ip port j) (λ _. announce ip port fd j)
        (set_thread_id-Keeps max ip port j h)
        (λ _ t w. record {
          slots = w.slots;
          statuses = w.statuses;
          ids = w.ids;
          threads = (h, w.threads);
        })
        _ (status-Keeps j 1 s v)

  abbrev found_thread : CString → ℕ → ℕ → Option ℕ → M Bool
  found_thread ip port fd none = do
    unlock_status
    λ s. some (false, record s { closed = fd ∷ s.closed })
  found_thread ip port fd (some j) = start_thread ip port fd j

  found_thread-Keeps :
      (ip : CString) (port fd : ℕ) (o : Option ℕ) (s : Arrays)
      → free_thread 0 s.thread_status_array ≡ o
      → IsSized max s
      → Leaves (IsSized max) (found_thread ip port fd o s)
  found_thread-Keeps ip port fd none s e v = record {
    slots = v.slots;
    statuses = v.statuses;
    ids = v.ids;
    threads = v.threads;
  }
  found_thread-Keeps ip port fd (some j) s e v =
      start_thread-Keeps ip port fd j
        (omega (arith, free_thread_bound 0 s.thread_status_array j e, v.statuses)) s v

  pub assign_thread-Keeps :
      (ip : CString) (port fd : ℕ) → Keeps (IsSized max) (assign_thread ip port fd)
  unfolding assign_thread
  assign_thread-Keeps ip port fd =
      bind-Keeps lock_status
        (λ _. do
          free ← λ s. some (free_thread 0 s.thread_status_array, s)
          found_thread ip port fd free)
        (lock_status-Keeps max)
        (λ _ s v. found_thread-Keeps ip port fd (free_thread 0 s.thread_status_array) s refl v)
