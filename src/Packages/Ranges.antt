-- ===== src/Packages/Ranges.antt =====
-- `calculate_data_len` of project/src/package.c: the range of the file that belongs to a chunk.
use bittorrent_implementatio.Prelude.{
  ℕ, ◌+◌, ◌^◌, ◌≤◌, ◌<◌, ◌≡◌, refl, ◌⊎◌, inl, inr, Bool, true, false, ◌||◌, Bool-cases, Option,
  none, some, List, [], ◌∷◌, CString, str_eq, leb→le, arith, map, length, ap, ◌∙◌, ◌++◌, replicate,
  append-nil,
}
use bittorrent_implementatio.Merkle.{Chunk}
use bittorrent_implementatio.Pkgchk.{BpkgObj, slots}
use bittorrent_implementatio.Packages.{
  ReqArgs, chunk_end, serves, args_of, len_loop, calculate_data_len,
}

-- An entry of a list.
pub data Among {ℓ} {A : Type ℓ} (a : A) : List A → Type ℓ where
  first : {xs : List A} → Among a (a ∷ xs)
  later : {x : A} {xs : List A} → Among a xs → Among a (x ∷ xs)

abbrev pub some_serves : CString → Option ℕ → List Chunk → Bool
some_serves hash offset [] = false
some_serves hash offset (c ∷ cs) = serves hash offset c || some_serves hash offset cs

loop_result :
    (cs : List Chunk) (hash : CString) (offset : Option ℕ)
    → ((len_loop (map some cs) hash offset ≡ some none) × (some_serves hash offset cs ≡ false))
      ⊎ ((c : Chunk) × Among c cs
          × (serves hash offset c ≡ true)
          × (len_loop (map some cs) hash offset ≡ some (some (args_of offset c))))
loop_result [] hash offset = inl (unfold len_loop in refl, refl)
loop_result (c ∷ cs) hash offset = elim (Bool-cases (serves hash offset c)) [
  | inl y ↦ inr (c, first, y, unfold len_loop in rw y refl)
  | inr n ↦ elim (loop_result cs hash offset) [
    | inl (e, m) ↦ inl (unfold len_loop in rw n e, rw n m)
    | inr (d, a, s, e) ↦ inr (d, later a, s, unfold len_loop in rw n e)
  ]
]

-- No entry of the array of chunks is null: the file of the package had a line for each of `nchunks`.
abbrev pub Filled : BpkgObj → Type 0
Filled bpkg = bpkg.nchunks ≡ length bpkg.chunks

pub slots-Filled : (bpkg : BpkgObj) → Filled bpkg → slots bpkg ≡ map some bpkg.chunks
slots-Filled bpkg f =
    ap (λ k. map some bpkg.chunks ++ replicate k none) {y = 0} (omega (arith, f))
    ∙ append-nil (map some bpkg.chunks)

-- With no null entry, `calculate_data_len` never faults.
pub calculate_data_len-Filled :
    (bpkg : BpkgObj) (hash : CString) (offset : Option ℕ)
    → Filled bpkg
    → (range : Option ReqArgs) × (calculate_data_len bpkg hash offset ≡ some range)
unfolding calculate_data_len
calculate_data_len-Filled bpkg hash offset f = elim (loop_result bpkg.chunks hash offset) [
  | inl (e, n) ↦ (none, rw (slots-Filled bpkg f) e)
  | inr (c, a, s, e) ↦ (some (args_of offset c), rw (slots-Filled bpkg f) e)
]

-- A range of the file that lies in the chunk and ends where the chunk ends.
pub record Within (c : Chunk) (r : ReqArgs) : Type 0 where
  pub from : c.offset ≤ r.file_offset
  pub up_to : r.file_offset + r.data_len ≡ c.offset + c.size

-- No chunk ends behind the 4 GiB that a `uint32_t` counts.
abbrev pub Bounded : List Chunk → Type 0
Bounded [] = Unit {0}
Bounded (c ∷ cs) = (c.offset + c.size < 2 ^ 32) × Bounded cs

Bounded-Among : (c : Chunk) (cs : List Chunk) → Bounded cs → Among c cs → c.offset + c.size < 2 ^ 32
Bounded-Among c cs b first = b.0
Bounded-Among c cs b (later a) = Bounded-Among c _ b.1 a

args_of-Within :
    (c : Chunk) (hash : CString) (offset : Option ℕ)
    → c.offset + c.size < 2 ^ 32
    → serves hash offset c ≡ true
    → (str_eq c.hash hash ≡ true) × Within c (args_of offset c)
args_of-Within c hash none h s = (s, record { from = omega arith; up_to = refl })
args_of-Within c hash (some o) h s = (
  ground arith,
  record { from = ground arith; up_to = omega (arith, leb→le o (chunk_end c) (ground arith)) },
)

pub calculate_data_len-Within :
    (bpkg : BpkgObj) (hash : CString) (offset : Option ℕ)
    → Filled bpkg
    → Bounded bpkg.chunks
    → ((calculate_data_len bpkg hash offset ≡ some none)
        × (some_serves hash offset bpkg.chunks ≡ false))
      ⊎ ((c : Chunk) × (r : ReqArgs) × Among c bpkg.chunks
          × (str_eq c.hash hash ≡ true)
          × (calculate_data_len bpkg hash offset ≡ some (some r))
          × Within c r)
unfolding calculate_data_len
calculate_data_len-Within bpkg hash offset f b = elim (loop_result bpkg.chunks hash offset) [
  | inl (e, n) ↦ inl (rw (slots-Filled bpkg f) e, n)
  | inr (c, a, s, e) ↦
      let (eq, w) = args_of-Within c hash offset (Bounded-Among c _ b a) s in
      inr (c, args_of offset c, a, eq, rw (slots-Filled bpkg f) e, w)
]
