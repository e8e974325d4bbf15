-- ===== src/Commands/Fetching.antt =====
-- FETCH (`fetch_parser` of project/src/btide.c): what is asked for, and of whom.
use bittorrent_implementatio.Prelude.{
  ℕ, ◌≡◌, refl, sym, ap, ◌∙◌, ◌⊎◌, inl, inr, true, false, Bool-cases, Option, none, some, CString,
  str_eq, arith,
}
use bittorrent_implementatio.Strings.{is_an_int, atoi}
use bittorrent_implementatio.Merkle.{Chunk}
use bittorrent_implementatio.Pkgchk.{BpkgObj}
use bittorrent_implementatio.Packages.{
  ManagedPackages, ReqArgs, InMemory, same_ident, no_chunk, no_package, calculate_data_len,
  chunk_in_memory,
}
use bittorrent_implementatio.Packages.Managed.{packages}
use bittorrent_implementatio.Packages.Ranges.{Among, Within, some_serves, calculate_data_len-Within}
use bittorrent_implementatio.Packages.Search.{
  Rooted, Answers, chosen, unknown_chunk, unknown_package, find_chunk-Answers,
}
use bittorrent_implementatio.Packages.Writes.{AllFilled, all_filled}
use bittorrent_implementatio.Peers.{Peer, Arrays, in_slots, in_array, get_fd}
use bittorrent_implementatio.Peers.Keeps.{after_bind, in_array_free, get_fd_free}
use bittorrent_implementatio.Peers.Table.{lookup, is_some, in_slots-lookup, fd_slots-lookup}
use bittorrent_implementatio.Commands.{
  FetchArgs, fetch_args, Fetched, refused, requested, fetch_range, fetch_offset, fetch_found,
  fetch_chunk, fetch_parsed, fetch_parser,
}

-- The number that an optional offset gives.
pub data Offset : Option CString → Option ℕ → Type 0 where
  not_given : Offset none none
  given : {o : CString} {n : ℕ} → is_an_int o ≡ true → atoi o ≡ some n → Offset (some o) (some n)

-- Why nothing is sent, and what is sent otherwise.
pub data Answered (m : ManagedPackages) (a : FetchArgs) (s : Arrays) : Fetched → Type 0 where
  no_port : is_an_int a.port ≡ false → Answered m a s refused
  unlisted :
      {port : ℕ}
      → atoi a.port ≡ some port
      → lookup a.ip port s.peer_array ≡ none
      → Answered m a s refused
  unmanaged : chunk_in_memory m a.ident a.chunk_hash ≡ some no_package → Answered m a s refused
  unknown : chunk_in_memory m a.ident a.chunk_hash ≡ some no_chunk → Answered m a s refused
  no_offset : {o : CString} → a.offset ≡ some o → is_an_int o ≡ false → Answered m a s refused
  out_of_chunk :
      {p : BpkgObj} {offset : Option ℕ}
      → Among p (packages m.managed_array)
      → Offset a.offset offset
      → some_serves a.chunk_hash offset p.chunks ≡ false
      → Answered m a s refused
  asks :
      {port : ℕ} {peer : Peer} {p : BpkgObj} {c : Chunk} {r : ReqArgs} {offset : Option ℕ}
      → atoi a.port ≡ some port
      → lookup a.ip port s.peer_array ≡ some peer
      → Among p (packages m.managed_array)
      → same_ident a.ident p ≡ true
      → Offset a.offset offset
      → calculate_data_len p a.chunk_hash offset ≡ some (some r)
      → Among c p.chunks
      → str_eq c.hash a.chunk_hash ≡ true
      → Within c r
      → Answered m a s (requested peer.socket_fd r a.ident a.chunk_hash)

-- A text is no number, or one that fits an `int`.
abbrev pub FitsInt : CString → Type 0
FitsInt t = (is_an_int t ≡ false) ⊎ ((is_an_int t ≡ true) × (n : ℕ) × (atoi t ≡ some n))

abbrev pub OffsetFits : Option CString → Type 0
OffsetFits none = Unit {0}
OffsetFits (some t) = FitsInt t

lookup_none : (o : Option Peer) → is_some o ≡ false → o ≡ none
lookup_none none e = refl
lookup_none (some p) e = absurd (ground arith)

lookup_some : (o : Option Peer) → is_some o ≡ true → (p : Peer) × (o ≡ some p)
lookup_some none e = absurd (ground arith)
lookup_some (some p) e = (p, refl)

module _ (m : ManagedPackages) (a : FetchArgs) (s : Arrays) (free : s.peer_array_lock ≡ false)
    (rooted : Rooted m.managed_array) (filled : AllFilled (packages m.managed_array))
    (offset_fits : OffsetFits a.offset) (port : ℕ) (number : atoi a.port ≡ some port) where
  module _ (peer : Peer) (listed : lookup a.ip port s.peer_array ≡ some peer) (p : BpkgObj)
      (managed : Among p (packages m.managed_array)) (named : same_ident a.ident p ≡ true) where
    range_answer :
        (offset : Option ℕ)
        → Offset a.offset offset
        → (out : Fetched) × (fetch_range p a port offset s ≡ some (out, s)) × Answered m a s out
    unfolding fetch_range
    range_answer offset at =
        let (f, b) = all_filled p _ filled managed in
        elim (calculate_data_len-Within p a.chunk_hash offset f b) [
          | inl (n, none_serves) ↦
              (refused, rw (fetch_range, n) refl, out_of_chunk managed at none_serves)
          | inr (c, r, ac, eq, e, w) ↦ (
            requested peer.socket_fd r a.ident a.chunk_hash,
            rw (fetch_range, e)
                (after_bind (get_fd a.ip port) _ s s _ (get_fd_free a.ip port s free)
                  ∙ ap (λ fd. some (requested fd r a.ident a.chunk_hash, s))
                      (fd_slots-lookup a.ip port s.peer_array ∙ rw listed refl)),
            asks number listed managed named at e ac eq w,
          )
        ]

    offset_answer : (out : Fetched) × (fetch_offset p a port s ≡ some (out, s)) × Answered m a s out
    unfolding fetch_offset
    offset_answer = go a.offset refl offset_fits
      where
        go :
            (o : Option CString)
            → a.offset ≡ o
            → OffsetFits o
            → (out : Fetched) × (fetch_offset p a port s ≡ some (out, s)) × Answered m a s out
        go none e fits =
            let (out, f, w) = range_answer none (rw e not_given) in (out, rw (fetch_offset, e) f, w)
        go (some t) e (inl n) = (refused, rw (fetch_offset, e, n) refl, no_offset e n)
        go (some t) e (inr (y, n, v)) =
            let (out, f, w) = range_answer (some n) (rw e (given y v)) in
            (out, rw (fetch_offset, e, y, v) f, w)

  chunk_answer : (out : Fetched) × (fetch_chunk m a port s ≡ some (out, s)) × Answered m a s out
  unfolding fetch_chunk fetch_found
  chunk_answer = elim (Bool-cases (in_slots a.ip port s.peer_array)) [
    | inr n ↦ (
      refused,
      after_bind (in_array a.ip port) _ s s _ (in_array_free a.ip port s free) ∙ rw n refl,
      unlisted number (lookup_none _ (sym (in_slots-lookup a.ip port s.peer_array) ∙ n)),
    )
    | inl y ↦
        let (peer, listed) = lookup_some _ (sym (in_slots-lookup a.ip port s.peer_array) ∙ y) in
        let (ret, e, found) = find_chunk-Answers a.ident a.chunk_hash m.managed_array rooted in
        let (out, f, w) = by_answer peer listed ret (unfold chunk_in_memory in e) found in
        let c : chunk_in_memory m a.ident a.chunk_hash ≡ some ret = unfold chunk_in_memory in e in
        (
          out,
          after_bind (in_array a.ip port) _ s s _ (in_array_free a.ip port s free) ∙ rw (y, c) f,
          w,
        )
  ]
    where
      by_answer :
          (peer : Peer)
          → lookup a.ip port s.peer_array ≡ some peer
          → (ret : InMemory) → chunk_in_memory m a.ident a.chunk_hash ≡ some ret
          → Answers a.ident a.chunk_hash m.managed_array ret
          → (out : Fetched) × (fetch_found ret a port s ≡ some (out, s)) × Answered m a s out
      by_answer peer listed _ e (chosen {p = p} mp named) =
          let (out, f, w) = offset_answer peer listed p mp named in (out, f, w)
      by_answer peer listed _ e unknown_chunk = (refused, refl, unknown e)
      by_answer peer listed _ e unknown_package = (refused, refl, unmanaged e)

-- The lock of the peer table is free, every managed package has a tree with a root, and an array
-- of `nchunks` chunks without a null entry, which end below 4 GiB, the arguments are all there
-- but perhaps the offset, and the port and the offset fit an `int` where they are numbers; no
-- other thread changes the packages meanwhile. Then `fetch_parser` returns and changes neither
-- table. Either it sends a request over the socket of the peer at the address, for a range that
-- starts in a chunk of that hash, of a managed package of the identifier, and goes on to the
-- chunk's end; or it sends nothing, because the port is no number, the address is not listed,
-- `chunk_in_memory` finds no package or no chunk, the offset is no number, or no chunk of the
-- hash has it.
pub fetch_parser-Answered :
    (m : ManagedPackages) (behind : CString) (arguments : Option CString) (a : FetchArgs)
    (s : Arrays)
    → fetch_args behind arguments ≡ some (some a)
    → s.peer_array_lock ≡ false
    → Rooted m.managed_array
    → AllFilled (packages m.managed_array)
    → FitsInt a.port
    → OffsetFits a.offset
    → (out : Fetched) × (fetch_parser m behind arguments s ≡ some (out, s)) × Answered m a s out
unfolding fetch_parser fetch_parsed
fetch_parser-Answered m behind arguments a s parsed free rooted filled (inl n) offset_fits =
    (refused, rw (parsed, fetch_parser) (rw (n, fetch_parsed) refl), no_port n)
fetch_parser-Answered m behind arguments a s parsed free rooted filled (inr (y, port, v))
      offset_fits =
    let (out, f, w) = chunk_answer m a s free rooted filled offset_fits port v in
    (out, rw (parsed, fetch_parser) (rw (y, fetch_parsed) (rw v f)), w)
