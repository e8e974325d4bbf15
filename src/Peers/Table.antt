-- ===== src/Peers/Table.antt =====
-- The slots of `peer_array` as a map from addresses to peers, for the loops of helpers.c.
use bittorrent_implementatio.Prelude.{
  ℕ, suc, ◌+◌, ◌≤◌, ◌<◌, ◌≡◌, refl, ◌⊎◌, inr, ◌∙◌, str_eq_comm, Bool, true, false, ◌&&◌, Option,
  none, some, [], ◌∷◌, CString, str_eq, str_eq_iff, ◌==◌, if◌then◌else◌, length, arith,
}
use bittorrent_implementatio.Peers.{
  Peer, Slots, is_at, count_peers, fd_slots, in_slots, added, full, no_memory, add_slots, set_slots,
  remove_slots, thread_slots,
}

-- The first peer at an address: what every loop of helpers.c looks for.
unfoldable pub lookup : CString → ℕ → Slots → Option Peer
lookup ip port [] = none
lookup ip port (none ∷ xs) = lookup ip port xs
lookup ip port (some p ∷ xs) = if is_at ip port p then some p else lookup ip port xs

abbrev pub is_some {ℓ} : {A : Type ℓ} → Option A → Bool
is_some none = false
is_some (some a) = true

pub in_slots-lookup :
    (ip : CString) (port : ℕ) (xs : Slots) → in_slots ip port xs ≡ is_some (lookup ip port xs)
unfolding in_slots lookup
in_slots-lookup ip port [] = refl
in_slots-lookup ip port (none ∷ xs) = in_slots-lookup ip port xs
in_slots-lookup ip port (some p ∷ xs) = ground (arith, in_slots-lookup ip port xs)

pub fd_slots-lookup :
    (ip : CString) (port : ℕ) (xs : Slots)
    → fd_slots ip port xs ≡ elim (lookup ip port xs) [ none ↦ 0 | some p ↦ p.socket_fd ]
unfolding fd_slots lookup
fd_slots-lookup ip port [] = refl
fd_slots-lookup ip port (none ∷ xs) = fd_slots-lookup ip port xs
fd_slots-lookup ip port (some p ∷ xs) = ground (arith, fd_slots-lookup ip port xs)

pub thread_slots-lookup :
    (ip : CString) (port : ℕ) (xs : Slots)
    → thread_slots ip port xs ≡ elim (lookup ip port xs) [ none ↦ some 0 | some p ↦ p.thread_id ]
unfolding thread_slots lookup
thread_slots-lookup ip port [] = refl
thread_slots-lookup ip port (none ∷ xs) = thread_slots-lookup ip port xs
thread_slots-lookup ip port (some p ∷ xs) = ground (arith, thread_slots-lookup ip port xs)

-- Two addresses are one.
abbrev pub same : CString → ℕ → CString → ℕ → Bool
same ip port ip' port' = str_eq ip ip' && port == port'

is_at-same : (ip : CString) (port : ℕ) (p : Peer) → is_at ip port p ≡ same p.ip p.port ip port
unfolding is_at
is_at-same ip port p = refl

is_at_record :
    (ip : CString) (port : ℕ) (q : Peer) (j : ℕ)
    → is_at ip port (record q { thread_id = some j }) ≡ is_at ip port q
unfolding is_at
is_at_record ip port q j = refl

is_at_same :
    (ip ip' : CString) (port port' : ℕ) (q : Peer)
    → same ip port ip' port' ≡ true
    → is_at ip port q ≡ is_at ip' port' q
is_at_same ip ip' port port' q h = ground (arith, (str_eq_iff ip ip').0)

is_at_both :
    (ip ip' : CString) (port port' : ℕ) (q : Peer)
    → is_at ip port q ≡ true
    → is_at ip' port' q ≡ same ip port ip' port'
unfolding is_at
is_at_both ip ip' port port' q h = ground (arith, (str_eq_iff q.ip ip).0)

lookup_same :
    (ip ip' : CString) (port port' : ℕ) (xs : Slots)
    → same ip port ip' port' ≡ true
    → lookup ip port xs ≡ lookup ip' port' xs
lookup_same ip ip' port port' xs h = ground (arith, (str_eq_iff ip ip').0)

lookup-none :
    (q : Peer) (ip : CString) (port : ℕ) (xs : Slots)
    → in_slots q.ip q.port xs ≡ false
    → is_at ip port q ≡ true
    → lookup ip port xs ≡ none
lookup-none q ip port xs h e = lookup_same ip q.ip port q.port xs (turn e) ∙ none_of
  where
    turn : is_at ip port q ≡ true → same ip port q.ip q.port ≡ true
    turn a = ground (arith, is_at-same ip port q, str_eq_comm q.ip ip)

    none_of : lookup q.ip q.port xs ≡ none
    none_of = ground (arith, in_slots-lookup q.ip q.port xs)

is_at_comm : (p q : Peer) → is_at p.ip p.port q ≡ is_at q.ip q.port p
unfolding is_at
is_at_comm p q = ground (arith, str_eq_comm p.ip q.ip)

in_slots-remove_slots :
    (ip ip' : CString) (port port' : ℕ) (xs : Slots)
    → in_slots ip' port' xs ≡ false
    → in_slots ip' port' (remove_slots ip port xs) ≡ false
unfolding in_slots remove_slots
in_slots-remove_slots ip ip' port port' [] h = h
in_slots-remove_slots ip ip' port port' (none ∷ xs) h = in_slots-remove_slots ip ip' port port' xs h
in_slots-remove_slots ip ip' port port' (some q ∷ xs) h =
    ground (arith, in_slots-remove_slots ip ip' port port' xs)

in_slots-add_slots :
    (memory : Bool) (ip : CString) (port : ℕ) (p : Peer) (xs : Slots)
    → in_slots ip port xs ≡ false
    → is_at ip port p ≡ false
    → in_slots ip port (add_slots memory p xs).1 ≡ false
unfolding in_slots add_slots
in_slots-add_slots memory ip port p [] h e = h
in_slots-add_slots memory ip port p (none ∷ xs) h e = ground arith
in_slots-add_slots memory ip port p (some q ∷ xs) h e =
    ground (arith, in_slots-add_slots memory ip port p xs)

-- An address occurs at most once.
abbrev pub Distinct : Slots → Type 0
Distinct [] = Unit {0}
Distinct (none ∷ xs) = Distinct xs
Distinct (some p ∷ xs) = (in_slots p.ip p.port xs ≡ false) × Distinct xs

-- A new peer at a new address is found there, and no other address is touched.
pub lookup-add_slots :
    (ip : CString) (port : ℕ) (p : Peer) (xs : Slots)
    → in_slots p.ip p.port xs ≡ false
    → count_peers xs < length xs
    → lookup ip port (add_slots true p xs).1
      ≡ (if same p.ip p.port ip port then some p else lookup ip port xs)
unfolding lookup add_slots in_slots count_peers
lookup-add_slots ip port p [] h c = absurd (omega arith)
lookup-add_slots ip port p (none ∷ xs) h c = rw (is_at-same ip port p) refl
lookup-add_slots ip port p (some q ∷ xs) h c =
    ground (arith, lookup-add_slots ip port p xs, is_at_same p.ip ip p.port port q)

pub count-add_slots :
    (p : Peer) (xs : Slots)
    → count_peers xs < length xs
    → (count_peers (add_slots true p xs).1 ≡ suc (count_peers xs))
      × ((add_slots true p xs).0 ≡ added)
unfolding add_slots count_peers
count-add_slots p [] c = absurd (omega arith)
count-add_slots p (none ∷ xs) c = (refl, refl)
count-add_slots p (some q ∷ xs) c = ground (arith, count-add_slots p xs)

-- With every slot taken, nothing is added.
pub add_slots_full :
    (memory : Bool) (p : Peer) (xs : Slots)
    → length xs ≤ count_peers xs
    → add_slots memory p xs ≡ (full, xs)
unfolding add_slots count_peers
add_slots_full memory p [] c = refl
add_slots_full memory p (none ∷ xs) c = absurd (omega (arith, count_le xs))
  where
    count_le : (ys : Slots) → count_peers ys ≤ length ys
    count_le [] = omega arith
    count_le (none ∷ ys) = omega (arith, count_le ys)
    count_le (some q ∷ ys) = omega (arith, count_le ys)
add_slots_full memory p (some q ∷ xs) c = ground (arith, add_slots_full memory p xs)

pub add_slots_no_memory :
    (p : Peer) (xs : Slots) → count_peers xs < length xs → add_slots false p xs ≡ (no_memory, xs)
unfolding add_slots count_peers
add_slots_no_memory p [] c = absurd (omega arith)
add_slots_no_memory p (none ∷ xs) c = refl
add_slots_no_memory p (some q ∷ xs) c = ground (arith, add_slots_no_memory p xs)

-- Freeing the slot of an address of a table without duplicates removes that address only.
pub lookup-remove_slots :
    (ip : CString) (port : ℕ) (ip' : CString) (port' : ℕ) (xs : Slots)
    → Distinct xs
    → lookup ip' port' (remove_slots ip port xs)
      ≡ (if same ip port ip' port' then none else lookup ip' port' xs)
unfolding lookup remove_slots
lookup-remove_slots ip port ip' port' [] d = ground arith
lookup-remove_slots ip port ip' port' (none ∷ xs) d = lookup-remove_slots ip port ip' port' xs d
lookup-remove_slots ip port ip' port' (some q ∷ xs) d = ground (
  arith,
  lookup-remove_slots ip port ip' port' xs,
  is_at_both ip ip' port port' q,
  is_at_same ip ip' port port' q,
  lookup-none q ip' port' xs,
)

pub Distinct-remove_slots :
    (ip : CString) (port : ℕ) (xs : Slots) → Distinct xs → Distinct (remove_slots ip port xs)
unfolding remove_slots
Distinct-remove_slots ip port [] d = tt
Distinct-remove_slots ip port (none ∷ xs) d = Distinct-remove_slots ip port xs d
Distinct-remove_slots ip port (some q ∷ xs) d =
    ground (
      arith,
      Distinct-remove_slots ip port xs d.1,
      in_slots-remove_slots ip q.ip port q.port xs d.0,
    )

pub Distinct-add_slots :
    (memory : Bool) (p : Peer) (xs : Slots)
    → in_slots p.ip p.port xs ≡ false
    → Distinct xs
    → Distinct (add_slots memory p xs).1
unfolding add_slots in_slots
Distinct-add_slots memory p [] h d = tt
Distinct-add_slots memory p (none ∷ xs) h d = ground arith
Distinct-add_slots memory p (some q ∷ xs) h d = ground (
  arith,
  Distinct-add_slots memory p xs,
  in_slots-add_slots memory q.ip q.port p xs,
  is_at_comm p q,
)

pub count-remove_slots :
    (ip : CString) (port : ℕ) (xs : Slots)
    → count_peers (remove_slots ip port xs) + (if in_slots ip port xs then 1 else 0)
      ≡ count_peers xs
unfolding remove_slots count_peers in_slots
count-remove_slots ip port [] = refl
count-remove_slots ip port (none ∷ xs) = count-remove_slots ip port xs
count-remove_slots ip port (some q ∷ xs) = ground (arith, count-remove_slots ip port xs)

-- Setting the thread of an address changes that field of that peer only.
pub lookup-set_slots :
    (ip : CString) (port j : ℕ) (ip' : CString) (port' : ℕ) (xs : Slots)
    → lookup ip' port' (set_slots ip port j xs).1 ≡ (
        if same ip port ip' port'
        then elim (lookup ip' port' xs) [
          | none ↦ none
          | some p ↦ some (record p { thread_id = some j })
        ]
        else lookup ip' port' xs)
unfolding lookup set_slots
lookup-set_slots ip port j ip' port' [] = ground arith
lookup-set_slots ip port j ip' port' (none ∷ xs) = lookup-set_slots ip port j ip' port' xs
lookup-set_slots ip port j ip' port' (some q ∷ xs) = ground (
  arith,
  lookup-set_slots ip port j ip' port' xs,
  is_at_both ip ip' port port' q,
  is_at_same ip ip' port port' q,
  is_at_record ip' port' q j,
)

pub set_slots-found :
    (ip : CString) (port j : ℕ) (xs : Slots) → (set_slots ip port j xs).0 ≡ in_slots ip port xs
unfolding set_slots in_slots
set_slots-found ip port j [] = refl
set_slots-found ip port j (none ∷ xs) = set_slots-found ip port j xs
set_slots-found ip port j (some q ∷ xs) = ground (arith, set_slots-found ip port j xs)

-- Unless it adds the peer, the loop changes nothing.
pub add_slots_keeps :
    (memory : Bool) (p : Peer) (xs : Slots)
    → ((add_slots memory p xs).0 ≡ added) ⊎ ((add_slots memory p xs).1 ≡ xs)
unfolding add_slots
add_slots_keeps memory p [] = inr refl
add_slots_keeps memory p (none ∷ xs) = ground arith
add_slots_keeps memory p (some q ∷ xs) = ground (arith, add_slots_keeps memory p xs)
