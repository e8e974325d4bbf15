-- ===== src/Packages/Counts.antt =====
-- The operations of project/src/package.c that compute hashes keep the array of packages as it is otherwise.
use bittorrent_implementatio.Prelude.{
  if◌then◌else◌, ℕ, suc, ◌≡◌, refl, ap, Bool-cases, inl, inr, Option, none, some, List, [], ◌∷◌,
  ◌++◌, CString, ◌==◌, length, ◌>>=◌, arith,
}
use bittorrent_implementatio.Strings.{c_text}
use bittorrent_implementatio.Pkgchk.{slots, BpkgObj, Files, compute_hashes_for_chunks}
use bittorrent_implementatio.Packages.{
  ManagedPackages, same_ident, InMemory, in_package, no_chunk, no_package, chunk_in_memory,
}
use bittorrent_implementatio.Packages.Managed.{packages, IsManaged}
use bittorrent_implementatio.Packages.Status.{StatusLine, package_line, status_loop, package_status}
use bittorrent_implementatio.Packages.Serving.{
  has_computed, replace_first, open_at, open_found, get_data_open, handle_req,
}
use bittorrent_implementatio.Packets.{Request, Piece, serve}

-- As many entries, and as many packages among them.
abbrev SameCount : List (Option BpkgObj) → List (Option BpkgObj) → Type 0
SameCount ps qs = (length qs ≡ length ps) × (length (packages qs) ≡ length (packages ps))

replace_first-SameCount :
    (ident : CString) (p : BpkgObj) (ps : List (Option BpkgObj))
    → SameCount ps (replace_first ident p ps)
unfolding replace_first
replace_first-SameCount ident p [] = (refl, refl)
replace_first-SameCount ident p (none ∷ ps) =
    let (a, b) = replace_first-SameCount ident p ps in (ap suc a, b)
replace_first-SameCount ident p (some q ∷ ps) =
    let (a, b) = replace_first-SameCount ident p ps in
    elim (Bool-cases (same_ident ident q)) [
      | inl y ↦ (rw y refl, rw y refl)
      | inr n ↦ (rw n (ap suc a), rw n (ap suc b))
    ]

abbrev StatusAfter :
    List (Option BpkgObj) → Option (List (Option BpkgObj) × List StatusLine) → Type 0
StatusAfter ps none = Unit {0}
StatusAfter ps (some (qs, _)) = SameCount ps qs

null_kept :
    (ps : List (Option BpkgObj)) (o : Option (List (Option BpkgObj) × List StatusLine))
    → StatusAfter ps o
    → StatusAfter (none ∷ ps) (o >>= λ r. some (none ∷ r.0, r.1))
null_kept ps none q = tt
null_kept ps (some (qs, lines)) (a, b) = (ap suc a, b)

line_kept :
    (p : BpkgObj) (ps : List (Option BpkgObj)) (l : Option (BpkgObj × StatusLine))
    (o : Option (List (Option BpkgObj) × List StatusLine))
    → StatusAfter ps o
    → StatusAfter (some p ∷ ps) (l >>= λ x. o >>= λ r. some (some x.0 ∷ r.0, x.1 ∷ r.1))
line_kept p ps none o q = tt
line_kept p ps (some (p', line)) none q = tt
line_kept p ps (some (p', line)) (some (qs, lines)) (a, b) = (ap suc a, ap suc b)

status_loop-SameCount :
    (files : Files) (counter : ℕ) (ps : List (Option BpkgObj))
    → StatusAfter ps (status_loop files counter ps)
unfolding status_loop
status_loop-SameCount files counter [] = (refl, refl)
status_loop-SameCount files counter (none ∷ ps) =
    null_kept ps (status_loop files counter ps) (status_loop-SameCount files counter ps)
status_loop-SameCount files counter (some p ∷ ps) =
    line_kept p ps (package_line files counter p) (status_loop files (suc counter) ps)
      (status_loop-SameCount files (suc counter) ps)

counts :
    (m : ManagedPackages) (qs : List (Option BpkgObj))
    → IsManaged m
    → SameCount m.managed_array qs
    → IsManaged (record m { managed_array = qs })
counts m qs v (a, b) = record {
  counted = omega (arith, v.counted, b);
  room = omega (arith, v.room, a);
}

-- The state that comes with a result is a managed one.
abbrev pub WithManaged {ℓ} : {A : Type ℓ} → Option (ManagedPackages × A) → Type 0
WithManaged none = Unit
WithManaged (some (m, _)) = IsManaged m

bind-WithManaged {ℓ} :
    {A : Type 0} {B : Type ℓ} (o : Option A) (k : A → Option (ManagedPackages × B))
    → ((a : A) → WithManaged (k a))
    → WithManaged (o >>= k)
bind-WithManaged none k h = tt
bind-WithManaged (some a) k h = h a

abbrev pub StatusManaged : Option (ℕ × ManagedPackages × List StatusLine) → Type 0
StatusManaged none = Unit {0}
StatusManaged (some (_, m, _)) = IsManaged m

status_kept :
    (m : ManagedPackages) (o : Option (List (Option BpkgObj) × List StatusLine))
    → IsManaged m
    → StatusAfter m.managed_array o
    → StatusManaged (o >>= λ r. some (1, record m { managed_array = r.0 }, r.1))
status_kept m none v q = tt
status_kept m (some (qs, lines)) v q = counts m qs v q

-- What `package_status` leaves, if it does not fault.
pub package_status-StatusManaged :
    (files : Files) (m : ManagedPackages) → IsManaged m → StatusManaged (package_status files m)
unfolding package_status
package_status-StatusManaged files m v = elim (Bool-cases (m.size == 0)) [
  | inl y ↦ rw (package_status, y) v
  | inr n ↦
      rw (package_status, n)
        (status_kept m (status_loop files 1 m.managed_array) v
          (status_loop-SameCount files 1 m.managed_array))
]

open_found-WithManaged :
    (files : Files) (m : ManagedPackages) (ident hash : CString) (offset : ℕ) (ret : InMemory)
    → IsManaged m
    → WithManaged (open_found files m ident hash offset ret)
unfolding open_found
open_found-WithManaged files m ident hash offset no_chunk v = v
open_found-WithManaged files m ident hash offset no_package v = v
open_found-WithManaged files m ident hash offset (in_package p) v =
    bind-WithManaged (compute_hashes_for_chunks files p) _ (λ p'.
      bind-WithManaged (has_computed hash p'.tree.root (slots p')) _ (λ found.
        bind-WithManaged (if found then open_at files p' hash offset else some none) _ (λ opened.
          counts m (replace_first ident p' m.managed_array) v
            (replace_first-SameCount ident p' m.managed_array))))

get_data_open-WithManaged :
    (files : Files) (m : ManagedPackages) (ident hash : CString) (offset : ℕ)
    → IsManaged m
    → WithManaged (get_data_open files m ident hash offset)
unfolding get_data_open
get_data_open-WithManaged files m ident hash offset v =
    bind-WithManaged (chunk_in_memory m ident hash) (open_found files m ident hash offset)
      (λ ret. open_found-WithManaged files m ident hash offset ret v)

answer_kept :
    (o : Option (ManagedPackages × Option (List ℕ))) (n offset : ℕ)
    → WithManaged o
    → WithManaged {A = Option (List Piece)} (
        o >>= λ x. elim x.1 [
          | none ↦ some (x.0, none)
          | some rest ↦ serve n 0 n offset (some rest) >>= λ pieces. some (x.0, some pieces)
        ])
answer_kept none n offset q = tt
answer_kept (some (m, none)) n offset q = q
answer_kept (some (m, some rest)) n offset q =
    bind-WithManaged (serve n 0 n offset (some rest)) (λ pieces. some (m, some pieces))
      (λ pieces. q)

pub handle_req-WithManaged :
    (files : Files) (m : ManagedPackages) (behind : List ℕ) (r : Request)
    → IsManaged m
    → WithManaged (handle_req files m behind r)
unfolding handle_req
handle_req-WithManaged files m behind r v =
    answer_kept (get_data_open files m (c_text r.ident) (c_text (r.hash ++ behind)) r.offset)
      r.req_len r.offset
      (get_data_open-WithManaged files m (c_text r.ident) (c_text (r.hash ++ behind)) r.offset v)
