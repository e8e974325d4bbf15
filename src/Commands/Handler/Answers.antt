-- ===== src/Commands/Handler/Answers.antt =====
-- What a turn of `handle_peers` (project/src/peer.c) may do to the files and the tables.
use bittorrent_implementatio.Prelude.{
  ℕ, ◌≤◌, ◌≡◌, refl, sym, subst, ◌⊎◌, inl, inr, Bool, true, false, Bool-cases, Option, none, some,
  List, ◌==◌, if◌then◌else◌, length, arith,
}
use bittorrent_implementatio.Pkgchk.{Files}
use bittorrent_implementatio.Packages.{ManagedPackages, add_data_to_file}
use bittorrent_implementatio.Packages.Managed.{packages}
use bittorrent_implementatio.Packages.Search.{Rooted}
use bittorrent_implementatio.Packages.Writes.{AllFilled, Writes, add_data_to_file-Writes}
use bittorrent_implementatio.Packages.Serving.{handle_req}
use bittorrent_implementatio.Packages.Counts.{WithManaged, handle_req-WithManaged}
use bittorrent_implementatio.Packets.{
  BtidePacket, pkt_msg_req, pkt_msg_res, Request, read_req, Response, read_res, Piece,
}
use bittorrent_implementatio.Peers.{ThreadArgs, Arrays}
use bittorrent_implementatio.Peers.Keeps.{Leaves}
use bittorrent_implementatio.Peers.Sizes.{IsSized}
use bittorrent_implementatio.Connect.{Exit, recv_error, closed_by_peer, got_dsn, exit_handler}
use bittorrent_implementatio.Connect.Sizes.{exit_handler-Keeps}
use bittorrent_implementatio.Commands.Loop.{Btide}
use bittorrent_implementatio.Commands.Loop.Kept.{IsRunning}
use bittorrent_implementatio.Commands.Handler.{
  pkt_msg_dsn, pkt_msg_png, pkt_msg_pog, Received, fails, closes, packet, Reply, nothing, ended,
  answered, ends, on_req, res_args_of, on_res, on_packet, handle_peers,
}

-- What a turn leaves, if it does not fault.
abbrev pub TurnKept : (Btide → Type 0) → Option (Btide × Reply) → Type 0
TurnKept P none = Unit {0}
TurnKept P (some (b, _)) = P b

if-TurnKept :
    (P : Btide → Type 0) (c : Bool) (x y : Option (Btide × Reply))
    → TurnKept P x
    → TurnKept P y
    → TurnKept P (if c then x else y)
if-TurnKept P true x y p q = p
if-TurnKept P false x y p q = q

module _ (max : ℕ) where
  ends-Kept :
      (e : Exit) (args : ThreadArgs) (b : Btide)
      → IsRunning max b
      → TurnKept (IsRunning max) (ends e args b)
  unfolding ends
  ends-Kept e args b v =
      go (exit_handler e args b.required_arrays)
        (exit_handler-Keeps max e args b.required_arrays v.sized)
    where
      go :
          (o : Option (Unit {0} × Arrays))
          → Leaves (IsSized max) o
          → TurnKept (IsRunning max) (elim o [
            | none ↦ none
            | some (_, s) ↦ some (record b { required_arrays = s }, ended)
          ])
      go none q = tt
      go (some (_, s)) q = record { sized = q; kept = v.kept }

  on_req-Kept :
      (behind : List ℕ) (r : Request) (b : Btide)
      → IsRunning max b
      → TurnKept (IsRunning max) (on_req behind r b)
  unfolding on_req
  on_req-Kept behind r b v =
      go (handle_req b.files b.managed behind r)
        (handle_req-WithManaged b.files b.managed behind r v.kept)
    where
      go :
          (o : Option (ManagedPackages × Option (List Piece)))
          → WithManaged o
          → TurnKept (IsRunning max) (elim o [
            | none ↦ none
            | some (m, sent) ↦ some (record b { managed = m }, answered sent)
          ])
      go none q = tt
      go (some (m, sent)) q = record { sized = v.sized; kept = q }

  on_res-Kept :
      (written : ℕ) (r : Response) (b : Btide)
      → IsRunning max b
      → TurnKept (IsRunning max) (on_res written r b)
  unfolding on_res
  on_res-Kept written r b v = go (add_data_to_file written b.files b.managed (res_args_of r))
    where
      go :
          (o : Option Files)
          → TurnKept
              (IsRunning max)
              (elim o [ none ↦ none | some files ↦ some (record b { files = files }, nothing) ])
      go none = tt
      go (some files) = record { sized = v.sized; kept = v.kept }

  on_packet-Kept :
      (args : ThreadArgs) (written : ℕ) (behind : List ℕ) (buffer : BtidePacket) (b : Btide)
      → IsRunning max b
      → TurnKept (IsRunning max) (on_packet args written behind buffer b)
  unfolding on_packet
  on_packet-Kept args written behind buffer b v =
      if-TurnKept (IsRunning max) (buffer.msg_code == pkt_msg_dsn) _ _ (ends-Kept got_dsn args b v)
        (if-TurnKept (IsRunning max) (buffer.msg_code == pkt_msg_png) _ _ v (
          if-TurnKept (IsRunning max) (buffer.msg_code == pkt_msg_pog) _ _ v (
            if-TurnKept (IsRunning max) (buffer.msg_code == pkt_msg_req) _ _
              (on_req-Kept behind (read_req buffer) b v)
              (if-TurnKept (IsRunning max) (buffer.msg_code == pkt_msg_res) _ _
                (if-TurnKept (IsRunning max) (buffer.error == 0) _ _
                  (on_res-Kept written (read_res buffer) b v) v)
                v))))

  pub handle_peers-Kept :
      (args : ThreadArgs) (written : ℕ) (behind : List ℕ) (r : Received) (b : Btide)
      → IsRunning max b
      → TurnKept (IsRunning max) (handle_peers args written behind r b)
  unfolding handle_peers
  handle_peers-Kept args written behind fails b v = ends-Kept recv_error args b v
  handle_peers-Kept args written behind closes b v = ends-Kept closed_by_peer args b v
  handle_peers-Kept args written behind (packet buffer) b v =
      on_packet-Kept args written behind buffer b v

-- The length in a RES packet is not more than the data that it holds.
abbrev pub Fits : Received → Type 0
Fits fails = Unit {0}
Fits closes = Unit {0}
Fits (packet buffer) = (read_res buffer).data_len ≤ length (read_res buffer).block

-- The files are as they were, or a RES packet has written inside the chunk that it names.
abbrev pub Changed : Btide → Received → Btide → Type 0
Changed b r b' =
    (b'.files ≡ b.files)
    ⊎ ((buffer : BtidePacket) × (r ≡ packet buffer)
        × (buffer.msg_code ≡ pkt_msg_res)
        × (buffer.error ≡ 0)
        × Writes b.managed (res_args_of (read_res buffer)) b.files b'.files)

module _ (b : Btide) (rooted : Rooted b.managed.managed_array)
    (filled : AllFilled (packages b.managed.managed_array)) where
  ends-Changed :
      (r : Received) (e : Exit) (args : ThreadArgs) → TurnKept (Changed b r) (ends e args b)
  unfolding ends
  ends-Changed r e args = go (exit_handler e args b.required_arrays)
    where
      go :
          (o : Option (Unit {0} × Arrays))
          → TurnKept (Changed b r) (elim o [
            | none ↦ none
            | some (_, s) ↦ some (record b { required_arrays = s }, ended)
          ])
      go none = tt
      go (some (_, s)) = inl refl

  on_req-Changed :
      (r : Received) (behind : List ℕ) (q : Request) → TurnKept (Changed b r) (on_req behind q b)
  unfolding on_req
  on_req-Changed r behind q = go (handle_req b.files b.managed behind q)
    where
      go :
          (o : Option (ManagedPackages × Option (List Piece)))
          → TurnKept (Changed b r) (elim o [
            | none ↦ none
            | some (m, sent) ↦ some (record b { managed = m }, answered sent)
          ])
      go none = tt
      go (some (m, sent)) = inl refl

  on_res-Changed :
      (written : ℕ) (buffer : BtidePacket)
      → Fits (packet buffer)
      → buffer.msg_code ≡ pkt_msg_res
      → buffer.error ≡ 0
      → TurnKept (Changed b (packet buffer)) (on_res written (read_res buffer) b)
  unfolding on_res
  on_res-Changed written buffer fits code clean =
      let (files', e, out) =
        add_data_to_file-Writes written b.files b.managed (res_args_of (read_res buffer)) fits
          rooted filled in
      subst
        (λ o.
          TurnKept (Changed b (packet buffer))
            (elim o [ none ↦ none | some files ↦ some (record b { files = files }, nothing) ]))
        (sym e) (by_case files' out)
    where
      by_case :
          (files' : Files)
          → (files' ≡ b.files) ⊎ Writes b.managed (res_args_of (read_res buffer)) b.files files'
          → Changed b (packet buffer) (record b { files = files' })
      by_case files' (inl same) = inl same
      by_case files' (inr w) = inr (buffer, refl, code, clean, w)

  on_packet-Changed :
      (args : ThreadArgs) (written : ℕ) (behind : List ℕ) (buffer : BtidePacket)
      → Fits (packet buffer)
      → TurnKept (Changed b (packet buffer)) (on_packet args written behind buffer b)
  unfolding on_packet
  on_packet-Changed args written behind buffer fits =
      let P = Changed b (packet buffer) in
      if-TurnKept P (buffer.msg_code == pkt_msg_dsn) _ _ (ends-Changed (packet buffer) got_dsn args)
        (if-TurnKept P (buffer.msg_code == pkt_msg_png) _ _ (inl refl) (
          if-TurnKept P (buffer.msg_code == pkt_msg_pog) _ _ (inl refl) (
            if-TurnKept P (buffer.msg_code == pkt_msg_req) _ _
              (on_req-Changed (packet buffer) behind (read_req buffer))
              (elim (Bool-cases (buffer.msg_code == pkt_msg_res)) [
                | inr n ↦ rw n (inl refl)
                | inl y ↦ elim (Bool-cases (buffer.error == 0)) [
                  | inr n ↦ rw (y, n) (inl refl)
                  | inl z ↦
                      rw (y, z) (on_res-Changed written buffer fits (ground arith) (ground arith))
                ]
              ]))))

  turn-Changed :
      (args : ThreadArgs) (written : ℕ) (behind : List ℕ) (r : Received)
      → Fits r
      → TurnKept (Changed b r) (handle_peers args written behind r b)
  unfolding handle_peers
  turn-Changed args written behind fails fits = ends-Changed fails recv_error args
  turn-Changed args written behind closes fits = ends-Changed closes closed_by_peer args
  turn-Changed args written behind (packet buffer) fits =
      on_packet-Changed args written behind buffer fits

  -- Every managed package has a tree with a root, and an array of `nchunks` chunks without a null
  -- entry, which end below 4 GiB, and the length field of a packet that comes is not more than
  -- the data that it holds; no other thread changes the packages meanwhile. Then, whatever a peer
  -- sends, a turn of `handle_peers` that does not fault leaves every file as it was, unless it
  -- got a RES packet without the error bit: then bytes may change inside the chunk that the
  -- packet names, in the file of a managed package, and no others, but that a file that ended
  -- before the chunk is filled up to it with zeros.
  pub handle_peers-Changed :
      (args : ThreadArgs) (written : ℕ) (behind : List ℕ) (r : Received) (b' : Btide)
      (reply : Reply)
      → Fits r
      → handle_peers args written behind r b ≡ some (b', reply)
      → Changed b r b'
  handle_peers-Changed args written behind r b' reply fits e =
      subst (TurnKept (Changed b r)) e (turn-Changed args written behind r fits)
