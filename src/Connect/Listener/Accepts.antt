-- ===== src/Connect/Listener/Accepts.antt =====
-- The two sides of a connection, and the failure of the first answer (`listener` of project/src/peer.c).
use bittorrent_implementatio.Prelude.{
  ℕ, ◌≡◌, refl, sym, ◌∙◌, ap, Bool, true, false, Option, none, some, CString,
}
use bittorrent_implementatio.Peers.{
  Arrays, M, ◌>>=◌, ◌>>◌, return, Added, added, full, no_memory, in_slots, in_array, add_to_array,
  assign_thread,
}
use bittorrent_implementatio.Peers.Keeps.{after_bind, in_array_free}
use bittorrent_implementatio.Connect.{close, finish_connect, peer_connect}
use bittorrent_implementatio.Connect.Connects.{accepts}
use bittorrent_implementatio.Connect.Listener.{Incoming, pkt_msg_ack, enlist, await_ack, accept_one}

-- The state alone.
abbrev pub after {ℓ} : {A : Type ℓ} → Option (A × Arrays) → Option Arrays
after none = none
after (some (a, s)) = some s

-- What each side does with the result of `add_to_array`.
abbrev pub added_to : CString → ℕ → ℕ → Added → M Bool
added_to ip port sock full = do close sock; return false
added_to ip port sock no_memory = do close sock; return false
added_to ip port sock added = do assign_thread ip port sock; return true

abbrev pub enlisted : Incoming → ℕ → Added → M (Unit {0})
enlisted i fd full = close fd
enlisted i fd no_memory = close fd
enlisted i fd added = do assign_thread i.ip i.port fd; return tt

after_assign :
    (o : Option (Bool × Arrays)) (x : Bool)
    → after {0} {A = Unit {0}} (elim o [ none ↦ none | some (_, s) ↦ some (tt, s) ])
      ≡ after {0} {A = Bool} (elim o [ none ↦ none | some (_, s) ↦ some (x, s) ])
after_assign none x = refl
after_assign (some (b, s)) x = refl

ends_alike :
    (i : Incoming) (r : Added) (s : Arrays)
    → after (enlisted i i.socket r s) ≡ after (added_to i.ip i.port i.socket r s)
ends_alike i full s = refl
ends_alike i no_memory s = refl
ends_alike i added s = after_assign (assign_thread i.ip i.port i.socket s) true

added_alike :
    (i : Incoming) (o : Option (Added × Arrays))
    → after (elim o [ none ↦ none | some (r, s) ↦ enlisted i i.socket r s ])
      ≡ after (elim o [ none ↦ none | some (r, s) ↦ added_to i.ip i.port i.socket r s ])
added_alike i none = refl
added_alike i (some (r, s)) = ends_alike i r s

-- If the ACP is sent and an ACK received, the lock of the peer table is free, the address is not
-- listed and there is memory, then a turn of `listener` leaves the tables and the sockets just as
-- `peer_connect` does where every call succeeds over the same socket, whether there is room for
-- the peer or not.
pub accept_one-peer_connect :
    (i : Incoming) (s : Arrays)
    → i.acp_sent ≡ true
    → i.received i.socket ≡ some pkt_msg_ack
    → i.memory ≡ true
    → s.peer_array_lock ≡ false
    → in_slots i.ip i.port s.peer_array ≡ false
    → after (accept_one i s) ≡ after (peer_connect (accepts i.socket) i.ip i.port s)
unfolding accept_one await_ack enlist peer_connect finish_connect
accept_one-peer_connect i s sent ack memory free new =
    ap after accepted
    ∙ added_alike i (add_to_array true i.ip i.port i.socket s)
    ∙ ap after {x = (add_to_array true i.ip i.port i.socket >>= added_to i.ip i.port i.socket) s}
        (sym connected)
  where
    accepted : accept_one i s ≡ (add_to_array true i.ip i.port i.socket >>= enlisted i i.socket) s
    accepted = rw (accept_one, sent) (rw (await_ack, ack) (rw (enlist, memory) refl))

    connected :
        peer_connect (accepts i.socket) i.ip i.port s
        ≡ (add_to_array true i.ip i.port i.socket >>= added_to i.ip i.port i.socket) s
    connected =
        after_bind (in_array i.ip i.port) _ s s _ (in_array_free i.ip i.port s free) ∙ rw new refl
