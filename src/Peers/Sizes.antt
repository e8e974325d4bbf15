-- ===== src/Peers/Sizes.antt =====
-- The bounds of the two tables (project/src/chk/helpers.c): no operation moves them, and every thread
-- index is one of a thread.
pub mod Threads
use bittorrent_implementatio.Prelude.{
  ℕ, zero, suc, ◌+◌, ◌<◌, ◌≤◌, ◌≡◌, refl, sym, ap, subst, ◌∙◌, inl, inr, Bool, true, false,
  Bool-cases, Option, none, some, List, [], ◌∷◌, CString, ◌==◌, if◌then◌else◌, length, set, arith,
}
use bittorrent_implementatio.Peers.Keeps.{Leaves, Keeps, bind-Keeps}
use bittorrent_implementatio.Peers.Ops.{fresh_peer}
use bittorrent_implementatio.Peers.{
  return, lock_peers, unlock_peers, lock_status, unlock_status, get_slots, put_slots, in_slots,
  fd_slots, thread_slots, Added, Peer, Slots, ThreadArgs, Arrays, M, ◌>>=◌, ◌>>◌, is_at, added,
  full, no_memory, add_slots, remove_slots, set_slots, free_thread, threads_available, in_array,
  get_fd, get_thread_id, add_to_array, remove_from_array, set_thread_id, assign_thread,
}

abbrev pub IdBelow : ℕ → Option ℕ → Type 0
IdBelow max none = Unit {0}
IdBelow max (some j) = j < max

abbrev pub SlotsBelow : ℕ → Slots → Type 0
SlotsBelow max [] = Unit {0}
SlotsBelow max (none ∷ xs) = SlotsBelow max xs
SlotsBelow max (some p ∷ xs) = IdBelow max p.thread_id × SlotsBelow max xs

abbrev pub StartedBelow : ℕ → List ThreadArgs → Type 0
StartedBelow max [] = Unit {0}
StartedBelow max (a ∷ xs) = (a.thread_id < max) × StartedBelow max xs

-- Both tables have `max` entries, and the indices of threads in the slots and of the threads that were started are below it.
pub record IsSized (max : ℕ) (s : Arrays) : Type 0 where
  pub slots : length s.peer_array ≡ max
  pub statuses : length s.thread_status_array ≡ max
  pub ids : SlotsBelow max s.peer_array
  pub threads : StartedBelow max s.started

module _ (max : ℕ) where
  lock_peers-Keeps : Keeps (IsSized max) lock_peers
  lock_peers-Keeps s v =
      elim s.peer_array_lock
        as (λ b.
          Leaves (IsSized max)
            (elim b [ true ↦ none | false ↦ some (tt, record s { peer_array_lock = true }) ])) [
              | true ↦ tt
              | false ↦ record {
                slots = v.slots;
                statuses = v.statuses;
                ids = v.ids;
                threads = v.threads;
              }
            ]

  unlock_peers-Keeps : Keeps (IsSized max) unlock_peers
  unlock_peers-Keeps s v = record {
    slots = v.slots;
    statuses = v.statuses;
    ids = v.ids;
    threads = v.threads;
  }

  pub lock_status-Keeps : Keeps (IsSized max) lock_status
  lock_status-Keeps s v =
      elim s.thread_status_lock
        as (λ b.
          Leaves (IsSized max)
            (elim b [ true ↦ none | false ↦ some (tt, record s { thread_status_lock = true }) ])) [
              | true ↦ tt
              | false ↦ record {
                slots = v.slots;
                statuses = v.statuses;
                ids = v.ids;
                threads = v.threads;
              }
            ]

  pub unlock_status-Keeps : Keeps (IsSized max) unlock_status
  unlock_status-Keeps s v = record {
    slots = v.slots;
    statuses = v.statuses;
    ids = v.ids;
    threads = v.threads;
  }

  -- A change of the slots that keeps their number and their threads.
  put_slots-Keeps :
      (xs : Slots) → length xs ≡ max → SlotsBelow max xs → Keeps (IsSized max) (put_slots xs)
  put_slots-Keeps xs e b s v = record {
    slots = e;
    statuses = v.statuses;
    ids = b;
    threads = v.threads;
  }

  add_slots-Below :
      (memory : Bool) (p : Peer) (xs : Slots)
      → p.thread_id ≡ none
      → SlotsBelow max xs
      → (length (add_slots memory p xs).1 ≡ length xs) × SlotsBelow max (add_slots memory p xs).1
  unfolding add_slots
  add_slots-Below memory p [] e b = (refl, tt)
  add_slots-Below true p (none ∷ xs) e b = (refl, (subst (IdBelow max) (sym e) tt, b))
  add_slots-Below false p (none ∷ xs) e b = (refl, b)
  add_slots-Below memory p (some q ∷ xs) e (i, b) =
      let (l, c) = add_slots-Below memory p xs e b in (ap suc l, (i, c))

  remove_slots-Below :
      (ip : CString) (port : ℕ) (xs : Slots)
      → SlotsBelow max xs
      → (length (remove_slots ip port xs) ≡ length xs) × SlotsBelow max (remove_slots ip port xs)
  unfolding remove_slots
  remove_slots-Below ip port [] b = (refl, tt)
  remove_slots-Below ip port (none ∷ xs) b =
      let (l, c) = remove_slots-Below ip port xs b in (ap suc l, c)
  remove_slots-Below ip port (some p ∷ xs) (i, b) =
      let (l, c) = remove_slots-Below ip port xs b in
      elim (Bool-cases (is_at ip port p)) [
        | inl y ↦ (rw y refl, rw y b)
        | inr n ↦ (rw n (ap suc l), rw n (i, c))
      ]

  set_slots-Below :
      (ip : CString) (port j : ℕ) (xs : Slots)
      → j < max
      → SlotsBelow max xs
      → (length (set_slots ip port j xs).1 ≡ length xs) × SlotsBelow max (set_slots ip port j xs).1
  unfolding set_slots
  set_slots-Below ip port j [] h b = (refl, tt)
  set_slots-Below ip port j (none ∷ xs) h b =
      let (l, c) = set_slots-Below ip port j xs h b in (ap suc l, c)
  set_slots-Below ip port j (some p ∷ xs) h (i, b) =
      let (l, c) = set_slots-Below ip port j xs h b in
      elim (Bool-cases (is_at ip port p)) [
        | inl y ↦ (rw y refl, rw y (h, b))
        | inr n ↦ (rw n (ap suc l), rw n (i, c))
      ]

  -- What runs with the lock held.
  after_lock :
      {A : Type 0} (k : M A) → Keeps (IsSized max) k → Keeps (IsSized max) (lock_peers >> k)
  after_lock k h = bind-Keeps lock_peers (λ _. k) lock_peers-Keeps (λ _. h)

  pub reads_slots :
      {A : Type 0} (r : Slots → A)
      → Keeps (IsSized max) (do lock_peers; xs ← get_slots; unlock_peers; return (r xs))
  reads_slots r =
      after_lock (do xs ← get_slots; unlock_peers; return (r xs))
        (λ s v. record { slots = v.slots; statuses = v.statuses; ids = v.ids; threads = v.threads })

  pub in_array-Keeps : (ip : CString) (port : ℕ) → Keeps (IsSized max) (in_array ip port)
  unfolding in_array
  in_array-Keeps ip port = reads_slots (in_slots ip port)

  pub get_fd-Keeps : (ip : CString) (port : ℕ) → Keeps (IsSized max) (get_fd ip port)
  unfolding get_fd
  get_fd-Keeps ip port = reads_slots (fd_slots ip port)

  gives :
      {A : Type 0} (o : Option A) (s : Arrays)
      → IsSized max s
      → Leaves (IsSized max) (elim o [ none ↦ none | some j ↦ some (j, s) ])
  gives none s v = tt
  gives (some j) s v = v

  pub get_thread_id-Keeps : (ip : CString) (port : ℕ) → Keeps (IsSized max) (get_thread_id ip port)
  unfolding get_thread_id
  get_thread_id-Keeps ip port =
      after_lock
        (do
          xs ← get_slots
          unlock_peers
          λ s. elim (thread_slots ip port xs) [ none ↦ none | some j ↦ some (j, s) ])
        (λ s v.
          gives (thread_slots ip port s.peer_array) _
            (record { slots = v.slots; statuses = v.statuses; ids = v.ids; threads = v.threads }))

  pub remove_from_array-Keeps :
      (ip : CString) (port : ℕ) → Keeps (IsSized max) (remove_from_array ip port)
  unfolding remove_from_array
  remove_from_array-Keeps ip port =
      after_lock (do xs ← get_slots; put_slots (remove_slots ip port xs); unlock_peers)
        (λ s v.
          let (l, c) = remove_slots-Below ip port s.peer_array v.ids in
          record { slots = l ∙ v.slots; statuses = v.statuses; ids = c; threads = v.threads })

  pub set_thread_id-Keeps :
      (ip : CString) (port j : ℕ) → j < max → Keeps (IsSized max) (set_thread_id ip port j)
  unfolding set_thread_id
  set_thread_id-Keeps ip port j h =
      after_lock
        (do
          xs ← get_slots
          let out = set_slots ip port j xs
          put_slots out.1
          unlock_peers
          return out.0)
        (λ s v.
          let (l, c) = set_slots-Below ip port j s.peer_array h v.ids in
          record { slots = l ∙ v.slots; statuses = v.statuses; ids = c; threads = v.threads })

  abbrev ended : Added → M Added
  ended no_memory = return no_memory
  ended full = do unlock_peers; return full
  ended added = do unlock_peers; return added

  ended-Keeps : (r : Added) → Keeps (IsSized max) (ended r)
  ended-Keeps no_memory s v = v
  ended-Keeps full s v = unlock_peers-Keeps s v
  ended-Keeps added s v = unlock_peers-Keeps s v

  pub add_to_array-Keeps :
      (memory : Bool) (ip : CString) (port fd : ℕ)
      → Keeps (IsSized max) (add_to_array memory ip port fd)
  unfolding add_to_array
  add_to_array-Keeps memory ip port fd =
      after_lock
        (do
          xs ← get_slots
          let out = add_slots memory (fresh_peer ip port fd) xs
          put_slots out.1
          ended out.0)
        (λ s v.
          let (l, c) = add_slots-Below memory (fresh_peer ip port fd) s.peer_array refl v.ids in
          ended-Keeps (add_slots memory (fresh_peer ip port fd) s.peer_array).0 _
            (record { slots = l ∙ v.slots; statuses = v.statuses; ids = c; threads = v.threads }))
