-- ===== src/Commands/Loop/Kept.antt =====
-- Every command of the loop of project/src/btide.c keeps the bounds of the tables and the packages' counter.
use bittorrent_implementatio.Prelude.{
  ℕ, Bool, true, false, Option, none, some, List, CString, str_eq, leb, if◌then◌else◌, length,
}
use bittorrent_implementatio.Strings.{is_an_int, atoi, strtok, strip_whitespace}
use bittorrent_implementatio.Pkgchk.{BpkgObj, Files}
use bittorrent_implementatio.Load.{bpkg_load}
use bittorrent_implementatio.Packages.{
  ManagedPackages, InMemory, in_package, no_chunk, no_package, chunk_in_memory, calculate_data_len,
  add_package,
}
use bittorrent_implementatio.Packages.Managed.{
  IsManaged, ManagedAfter, add_package-IsManaged, remove_package_lem,
}
use bittorrent_implementatio.Packages.Status.{StatusLine, package_status}
use bittorrent_implementatio.Packages.Counts.{StatusManaged, package_status-StatusManaged}
use bittorrent_implementatio.Peers.{Arrays, M, return, in_array, get_fd}
use bittorrent_implementatio.Peers.Keeps.{Leaves, Keeps, bind-Keeps, choose-Keeps, option-Keeps}
use bittorrent_implementatio.Peers.Sizes.{IsSized, in_array-Keeps, get_fd-Keeps, reads_slots}
use bittorrent_implementatio.Connect.{Dial, Exit, peer_connect, peer_disconnect}
use bittorrent_implementatio.Connect.Sizes.{peer_connect-Keeps, peer_disconnect-Keeps}
use bittorrent_implementatio.Commands.{
  strtok_rest, FetchArgs, refused, requested, fetch_args, fetch_range, fetch_found, fetch_chunk,
  fetch_offset, fetch_parsed, operate, missing, not_an_integer, done, connect_or_disconnect,
  fetch_parser, split_address,
}
use bittorrent_implementatio.Commands.Loop.{
  behind_value, key_connect, key_disconnect, key_addpackage, key_rempackage, key_packages,
  key_peers, key_fetch, key_quit, silent, printed, connected, fetched, pinged, descriptors,
  ping_peers, load_and_add, on_addpackage, on_rempackage, on_packages, Btide, World, Effect, Turn,
  on_arrays, quits, command, run_command,
}

-- The tables keep their sizes, and the array of packages its counter.
pub record IsRunning (max : ℕ) (b : Btide) : Type 0 where
  pub sized : IsSized max b.required_arrays
  pub kept : IsManaged b.managed

-- What a command leaves, if the program goes on.
abbrev pub Kept : ℕ → Option Turn → Type 0
Kept max none = Unit {0}
Kept max (some quits) = Unit {0}
Kept max (some (Turn.goes_on b e)) = IsRunning max b

module _ (max : ℕ) where
  if-Kept : (b : Bool) (x y : Option Turn) → Kept max x → Kept max y → Kept max (if b then x else y)
  if-Kept true x y p q = p
  if-Kept false x y p q = q

  on_arrays-Kept :
      {A : Type 0} (f : M A) (k : A → Effect) (b : Btide)
      → Keeps (IsSized max) f
      → IsRunning max b
      → Kept max (on_arrays f k b)
  on_arrays-Kept {A} f k b h v = go (f b.required_arrays) (h b.required_arrays v.sized)
    where
      go :
          (o : Option (A × Arrays))
          → Leaves (IsSized max) o
          → Kept max (elim o [
            | none ↦ none
            | some (a, s) ↦ some (Turn.goes_on (record b { required_arrays = s }) (k a))
          ])
      go none q = tt
      go (some (a, s)) q = record { sized = q; kept = v.kept }

  returns : {A : Type 0} (x : A) → Keeps (IsSized max) (return x)
  returns x s v = v

  operate-Keeps :
      (flag : Bool) (d : Dial) (e : Exit) (ip : CString) (port : ℕ)
      → Keeps (IsSized max) (operate flag d e ip port)
  operate-Keeps true d e ip port =
      bind-Keeps (peer_disconnect e ip port) (λ r. return (done r))
        (peer_disconnect-Keeps max e ip port) (λ r. returns (done r))
  operate-Keeps false d e ip port =
      bind-Keeps (peer_connect d ip port) (λ r. return (done r)) (peer_connect-Keeps max d ip port)
        (λ r. returns (done r))

  connect_or_disconnect-Keeps :
      (flag : Bool) (d : Dial) (e : Exit) (arguments : Option CString)
      → Keeps (IsSized max) (connect_or_disconnect flag d e arguments)
  unfolding connect_or_disconnect
  connect_or_disconnect-Keeps flag d e arguments =
      option-Keeps (split_address arguments) _ _ (returns missing) (λ (ip, port).
        choose-Keeps (is_an_int port) _ _
          (option-Keeps (atoi port) _ _ (λ _ _. tt) (λ n. operate-Keeps flag d e ip n))
          (returns not_an_integer))

  fetch_range-Keeps :
      (p : BpkgObj) (a : FetchArgs) (port : ℕ) (offset : Option ℕ)
      → Keeps (IsSized max) (fetch_range p a port offset)
  unfolding fetch_range
  fetch_range-Keeps p a port offset =
      option-Keeps (calculate_data_len p a.chunk_hash offset) _ _ (λ _ _. tt)
        (λ range. option-Keeps range _ _ (returns refused) (λ args.
          bind-Keeps (get_fd a.ip port) (λ fd. return (requested fd args a.ident a.chunk_hash))
            (get_fd-Keeps max a.ip port) (λ fd. returns (requested fd args a.ident a.chunk_hash))))

  fetch_found-Keeps :
      (ret : InMemory) (a : FetchArgs) (port : ℕ) → Keeps (IsSized max) (fetch_found ret a port)
  unfolding fetch_found fetch_offset
  fetch_found-Keeps no_package a port = returns refused
  fetch_found-Keeps no_chunk a port = returns refused
  fetch_found-Keeps (in_package p) a port =
      option-Keeps a.offset _ _ (fetch_range-Keeps p a port none) (λ o.
        choose-Keeps (is_an_int o) _ _
          (option-Keeps (atoi o) _ _ (λ _ _. tt) (λ n. fetch_range-Keeps p a port (some n)))
          (returns refused))

  fetch_chunk-Keeps :
      (m : ManagedPackages) (a : FetchArgs) (port : ℕ) → Keeps (IsSized max) (fetch_chunk m a port)
  unfolding fetch_chunk
  fetch_chunk-Keeps m a port =
      bind-Keeps (in_array a.ip port) _ (in_array-Keeps max a.ip port) (λ listed.
        choose-Keeps listed _ _
          (option-Keeps (chunk_in_memory m a.ident a.chunk_hash) _ _ (λ _ _. tt)
            (λ ret. fetch_found-Keeps ret a port))
          (returns refused))

  parsed-Keeps :
      (m : ManagedPackages) (o : Option FetchArgs) → Keeps (IsSized max) (fetch_parsed m o)
  unfolding fetch_parsed
  parsed-Keeps m none = returns refused
  parsed-Keeps m (some a) =
      choose-Keeps (is_an_int a.port) _ _
        (option-Keeps (atoi a.port) _ _ (λ _ _. tt) (λ port. fetch_chunk-Keeps m a port))
        (returns refused)

  fetch_parser-Keeps :
      (m : ManagedPackages) (behind : CString) (arguments : Option CString)
      → Keeps (IsSized max) (fetch_parser m behind arguments)
  unfolding fetch_parser
  fetch_parser-Keeps m behind arguments =
      option-Keeps (fetch_args behind arguments) _ _ (λ _ _. tt) (parsed-Keeps m)

  ping_peers-Keeps : Keeps (IsSized max) ping_peers
  unfolding ping_peers
  ping_peers-Keeps = reads_slots max descriptors

  load_and_add-Kept :
      (w : World) (dir path : CString) (b : Btide)
      → IsRunning max b
      → Kept max (load_and_add w dir path b)
  unfolding load_and_add
  load_and_add-Kept w dir path b v = loads (bpkg_load b.files path (some dir))
    where
      adds :
          (o : Option (ℕ × Files × ManagedPackages))
          → ManagedAfter o
          → Kept max (elim o [
            | none ↦ none
            | some (_, files, m) ↦
                some (Turn.goes_on (record b { managed = m; files = files }) silent)
          ])
      adds none q = tt
      adds (some (_, files, m)) q = record { sized = v.sized; kept = q }

      loads :
          (o : Option (Option BpkgObj))
          → Kept max (elim o [
            | none ↦ none
            | some loaded ↦ elim (add_package loaded w.memory w.creatable b.files b.managed) [
              | none ↦ none
              | some (_, files, m) ↦
                  some (Turn.goes_on (record b { managed = m; files = files }) silent)
            ]
          ])
      loads none = tt
      loads (some loaded) =
          adds (add_package loaded w.memory w.creatable b.files b.managed)
            (add_package-IsManaged loaded w.memory w.creatable b.files b.managed v.kept)

  on_addpackage-Kept :
      (w : World) (value : Option CString) (b : Btide)
      → IsRunning max b
      → Kept max (on_addpackage w value b)
  unfolding on_addpackage
  on_addpackage-Kept w none b v = v
  on_addpackage-Kept w (some path) b v = go b.config_file.directory
    where
      go :
          (o : Option CString)
          → Kept max (elim o [ none ↦ none | some dir ↦ load_and_add w dir path b ])
      go none = tt
      go (some dir) = load_and_add-Kept w dir path b v

  on_rempackage-Kept :
      (value : Option CString) (b : Btide) → IsRunning max b → Kept max (on_rempackage value b)
  unfolding on_rempackage
  on_rempackage-Kept none b v = v
  on_rempackage-Kept (some ident) b v =
      if-Kept (leb 20 (length ident)) _ _
        (let (_, _, k, _) = remove_package_lem b.managed ident v.kept in
          record { sized = v.sized; kept = k })
        v

  on_packages-Kept : (b : Btide) → IsRunning max b → Kept max (on_packages b)
  unfolding on_packages
  on_packages-Kept b v =
      go (package_status b.files b.managed) (package_status-StatusManaged b.files b.managed v.kept)
    where
      go :
          (o : Option (ℕ × ManagedPackages × List StatusLine))
          → StatusManaged o
          → Kept max (elim o [
            | none ↦ none
            | some (_, m, lines) ↦ some (Turn.goes_on (record b { managed = m }) (printed lines))
          ])
      go none q = tt
      go (some (_, m, lines)) q = record { sized = v.sized; kept = q }

  run_command-Kept :
      (w : World) (key : CString) (value : Option CString) (behind : CString) (b : Btide)
      → IsRunning max b
      → Kept max (run_command w key value behind b)
  unfolding run_command
  run_command-Kept w key value behind b v =
      if-Kept (str_eq key key_connect) _ _
        (on_arrays-Kept (connect_or_disconnect false w.dial w.ends value) connected b
          (connect_or_disconnect-Keeps false w.dial w.ends value) v)
        (if-Kept (str_eq key key_disconnect) _ _
          (on_arrays-Kept (connect_or_disconnect true w.dial w.ends value) connected b
            (connect_or_disconnect-Keeps true w.dial w.ends value) v)
          (if-Kept (str_eq key key_addpackage) _ _ (on_addpackage-Kept w value b v) (
            if-Kept (str_eq key key_rempackage) _ _ (on_rempackage-Kept value b v) (
              if-Kept (str_eq key key_packages) _ _ (on_packages-Kept b v) (
                if-Kept (str_eq key key_peers) _ _
                  (on_arrays-Kept ping_peers pinged b ping_peers-Keeps v)
                  (if-Kept (str_eq key key_fetch) _ _
                    (on_arrays-Kept (fetch_parser b.managed behind value) fetched b
                      (fetch_parser-Keeps b.managed behind value) v)
                    (if-Kept (str_eq key key_quit) _ _ tt v)))))))

  -- A command that does not fault keeps what stays true.
  pub command-Kept :
      (w : World) (line : CString) (b : Btide) → IsRunning max b → Kept max (command w line b)
  unfolding command
  command-Kept w line b v = go (strtok b' ' line)
    where
      go :
          (o : Option (CString × CString))
          → Kept max (elim o [
            | none ↦ none
            | some (key, after) ↦
                run_command w
                  (strip_whitespace key)
                  (elim (strtok_rest after) [ none ↦ none | some v ↦ some (strip_whitespace v) ])
                  (behind_value w.stale (strtok_rest after))
                  b
          ])
      go none = tt
      go (some (key, after)) = run_command-Kept w _ _ _ b v
