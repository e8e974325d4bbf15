-- ===== src/Pkgmain/Prints.antt =====
-- What the package checker (project/src/pkgmain.c) prints for a package file.
use mathlib.Core.List.{Perm}
use mathlib.Core.List.Perm
use bittorrent_implementatio.Prelude.{
  ℕ, zero, suc, ◌≤◌, ◌≡◌, refl, ap, ap₂, subst, ◌∙◌, Bool, none, some, List, [], ◌∷◌, ◌++◌, map,
  map-append, CString, str_eq, le→leb, length, take, arith,
}
use bittorrent_implementatio.Merkle.{Chunk}
use bittorrent_implementatio.Merkle.Built.{plain}
use bittorrent_implementatio.Pkgchk.{BpkgQuery, Files, bpkg_get_all_hashes}
use bittorrent_implementatio.Pkgchk.AllHashes.{bpkg_get_all_hashes-perm}
use bittorrent_implementatio.Load.Lines.{GoodHashes, GoodChunks}
use bittorrent_implementatio.Load.RoundTrip.{Package, print_package, IsPrintable, bpkg_load-print}
use bittorrent_implementatio.Pkgmain.{
  flag_all_hashes, select_flag, arg_select, prints, bpkg_print_hashes, run_query, run_loaded,
  run_selected, main,
}

take_all {ℓ} : {A : Type ℓ} (n : ℕ) (xs : List A) → length xs ≤ n → take n xs ≡ xs
take_all zero [] h = refl
take_all zero (x ∷ xs) h = absurd (omega arith)
take_all (suc n) [] h = refl
take_all (suc n) (x ∷ xs) h = ap (◌∷◌ x) (take_all n xs (omega arith))

-- A query whose length is that of its list is printed whole.
bpkg_print_hashes_all :
    (q : BpkgQuery) → q.len ≡ length q.hashes → bpkg_print_hashes q ≡ some (map (take 64) q.hashes)
unfolding bpkg_print_hashes
bpkg_print_hashes_all q e =
    rw (le→leb q.len (length q.hashes) (omega (arith, e)))
      (ap (λ hs. some (map (take 64) hs)) (take_all q.len q.hashes (omega (arith, e))))

-- The hashes of a package that fits its buffers are printed whole.
good_hashes : (hs : List CString) → GoodHashes hs → map (take 64) hs ≡ hs
good_hashes [] g = refl
good_hashes (h ∷ hs) ((w, le), g) = ap₂ ◌∷◌ (take_all 64 h le) (good_hashes hs g)

good_chunks :
    (cs : List (CString × ℕ × ℕ))
    → GoodChunks cs
    → map (take 64) (map (λ c. c.0) cs) ≡ map (λ c. c.0) cs
good_chunks [] g = refl
good_chunks ((h, o, z) ∷ cs) ((f, w, le, _, _), g) = ap₂ ◌∷◌ (take_all 64 h le) (good_chunks cs g)

chunk_hashes : (cs : List Chunk) → map (λ c. c.hash) cs ≡ map (λ t. t.0) (plain cs)
chunk_hashes [] = refl
chunk_hashes (c ∷ cs) = ap (◌∷◌ c.hash) (chunk_hashes cs)

module _ (p : Package) (good : IsPrintable p) where
  -- For the text of a package as `bpkg_load` reads it back, the package checker with the flag
  -- `-all_hashes` never faults: it prints every hash of the package and of its chunks, as often
  -- as the file has it, and nothing else, in some order.
  pub main-all_hashes :
      (creatable : Bool) (files : Files) (name path : CString)
      → files path ≡ some (print_package p)
      → (hs : List CString) × (main creatable files (name ∷ path ∷ flag_all_hashes ∷ [])
          ≡ some (prints hs))
        × Perm hs (p.hashes ++ map (λ c. c.0) p.chunks)
  unfolding main arg_select select_flag run_selected run_loaded run_query str_eq
  main-all_hashes creatable files name path opened =
      let (b, loaded, v, _, _, _, same_hashes, same_chunks) =
        bpkg_load-print none p good files path opened in
      let (perm, count) = bpkg_get_all_hashes-perm b v in
      let all = p.hashes ++ map (λ c. c.0) p.chunks in
      let values : b.hashes ++ map (λ c. c.hash) b.chunks ≡ all =
        ap₂ ◌++◌ same_hashes (chunk_hashes b.chunks ∙ ap (map (λ t. t.0)) same_chunks) in
      let whole : map (take 64) all ≡ all =
        map-append (take 64) p.hashes (map (λ c. c.0) p.chunks)
        ∙ ap₂ ◌++◌ (good_hashes p.hashes good.hashes_good)
            (good_chunks p.chunks good.chunks_good) in
      (
        map (take 64) (bpkg_get_all_hashes b).hashes,
        rw loaded (rw (bpkg_print_hashes_all (bpkg_get_all_hashes b) count) refl),
        subst (Perm (map (take 64) (bpkg_get_all_hashes b).hashes))
            (ap (map (take 64)) values ∙ whole) (Perm.map (take 64) perm),
      )
