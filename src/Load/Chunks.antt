-- ===== src/Load/Chunks.antt =====
-- The lines of the chunks in a package file: what `bpkg_load` (project/src/chk/pkgchk.c) reads from them.
use bittorrent_implementatio.Prelude.{
  ℕ, ◌+◌, ◌≤◌, ◌≡◌, refl, sym, subst, false, some, List, [], ◌∷◌, ◌++◌, map, CString, ◌==◌, lt→ltb,
  length, length-append, arith,
}
use bittorrent_implementatio.Strings.{strtok, fgets, is_any_space, isspace}
use bittorrent_implementatio.Strings.Lines.{
  IsWord, Lacks, Lacks-append, IsSolid, IsSolid-append, IsWord-IsSolid, IsWord-Lacks_comma,
  IsWord-Lacks_space, IsWord-Lacks_line, IsWord-Lacks_null, fgets-line, strtok-token, strtok-all,
  strip_tabbed,
}
use bittorrent_implementatio.Strings.Decimal.{decimal, IsPrinted, decimal-IsPrinted}
use bittorrent_implementatio.Load.{max_input_size, chunk_of, chunk_numbers, chunk_line, read_chunks}
use bittorrent_implementatio.Load.Lines.{chunk_lines, loaded_chunk, GoodChunks, tabbed_token}

-- A text of three words with commas between them.
abbrev three : CString → CString → CString → CString
three h o z = h ++ b',' ∷ (o ++ b',' ∷ z)

module _ (P : CString → Type 0) (join : (s t : CString) → P s → P t → P (s ++ t)) where
  three_all : (h o z : CString) → P h → P (b',' ∷ []) → P o → P z → P (three h o z)
  three_all h o z ph pc po pz =
      join h _ ph (join (b',' ∷ []) _ pc (join o _ po (join (b',' ∷ []) z pc pz)))

module _ (h o z : CString) (wh : IsWord h) (wo : IsWord o) (wz : IsWord z) where
  three-IsSolid : IsSolid (three h o z)
  unfolding is_any_space isspace
  three-IsSolid =
      three_all IsSolid IsSolid-append h o z (IsWord-IsSolid h wh) (refl, tt) (IsWord-IsSolid o wo)
        (IsWord-IsSolid z wz)

  three-Lacks :
      (d : ℕ) → (b',' == d) ≡ false → ((s : CString) → IsWord s → Lacks d s) → Lacks d (three h o z)
  three-Lacks d e each =
      three_all (Lacks d) (Lacks-append d) h o z (each h wh) (e, tt) (each o wo) (each z wz)

  length-three : length (three h o z) ≡ length h + length o + length z + 2
  length-three = omega (arith, length-append h (b',' ∷ (o ++ b',' ∷ z)), length-append o (b',' ∷ z))

-- The fields of a line, with the numbers as texts that are not empty.
chunk_fields :
    (a b c : ℕ) (h o z : CString)
    → IsWord (a ∷ h)
    → IsWord (b ∷ o)
    → IsWord (c ∷ z)
    → (strtok b',' (three (a ∷ h) (b ∷ o) (c ∷ z)) ≡ some (a ∷ h, (b ∷ o) ++ b',' ∷ c ∷ z))
      × (strtok b',' ((b ∷ o) ++ b',' ∷ c ∷ z) ≡ some (b ∷ o, c ∷ z))
      × (strtok b',' (c ∷ z) ≡ some (c ∷ z, []))
chunk_fields a b c h o z wh wo wz = (
  strtok-token b',' a h ((b ∷ o) ++ b',' ∷ c ∷ z) (IsWord-Lacks_comma (a ∷ h) wh),
  strtok-token b',' b o (c ∷ z) (IsWord-Lacks_comma (b ∷ o) wo),
  strtok-all b',' c z (IsWord-Lacks_comma (c ∷ z) wz),
)

chunk_of_lem :
    (h o z : CString) (n k : ℕ)
    → length h ≤ 64
    → IsPrinted n o
    → IsPrinted k z
    → chunk_of h o z ≡ some (some (loaded_chunk (h, n, k)))
unfolding chunk_of
chunk_of_lem h o z n k le po pz =
    rw (pz.is_int, chunk_of) (rw (po.value, pz.value, lt→ltb (length h) 65 (omega arith)) refl)

chunk_numbers_lem :
    (h o z : CString) (n k : ℕ)
    → length h ≤ 64
    → IsPrinted n o
    → IsPrinted k z
    → strtok b',' z ≡ some (z, [])
    → chunk_numbers h o z ≡ some (some (loaded_chunk (h, n, k)))
chunk_numbers_lem h o z n k le po pz e =
    unfold chunk_numbers in rw (po.is_int, chunk_numbers) (rw e (chunk_of_lem h o z n k le po pz))

chunk_line-cons :
    (a b c : ℕ) (h o z : CString) (n k : ℕ)
    → IsWord (a ∷ h)
    → length (a ∷ h) ≤ 64
    → IsPrinted n (b ∷ o)
    → IsPrinted k (c ∷ z)
    → chunk_line (9 ∷ three (a ∷ h) (b ∷ o) (c ∷ z) ++ 10 ∷ [])
      ≡ some (some (loaded_chunk (a ∷ h, n, k)))
unfolding chunk_line
chunk_line-cons a b c h o z n k wh le po pz =
    let (e₁, e₂, e₃) = chunk_fields a b c h o z wh po.plain pz.plain in
    rw
      (
        tabbed_token (three (a ∷ h) (b ∷ o) (c ∷ z))
            (three-Lacks (a ∷ h) (b ∷ o) (c ∷ z) wh po.plain pz.plain b' ' refl IsWord-Lacks_space),
        strip_tabbed (three (a ∷ h) (b ∷ o) (c ∷ z))
            (three-IsSolid (a ∷ h) (b ∷ o) (c ∷ z) wh po.plain pz.plain),
      )
      (rw (e₁, e₂) (chunk_numbers_lem (a ∷ h) (b ∷ o) (c ∷ z) n k le po pz e₃))

-- A line of three words of which two are printed numbers is read as a chunk.
chunk_line-three :
    (a : ℕ) (h o z : CString) (n k : ℕ)
    → IsWord (a ∷ h)
    → length (a ∷ h) ≤ 64
    → IsPrinted n o
    → IsPrinted k z
    → chunk_line (9 ∷ three (a ∷ h) o z ++ 10 ∷ []) ≡ some (some (loaded_chunk (a ∷ h, n, k)))
chunk_line-three a h o z n k wh le po pz =
    subst
      (λ s.
        IsPrinted n s
        → chunk_line (9 ∷ three (a ∷ h) s z ++ 10 ∷ []) ≡ some (some (loaded_chunk (a ∷ h, n, k))))
      (sym po.not_empty)
      (λ po'.
        subst
          (λ s.
            IsPrinted k s
            → chunk_line (9 ∷ three (a ∷ h) (po.head ∷ po.rest) s ++ 10 ∷ [])
              ≡ some (some (loaded_chunk (a ∷ h, n, k))))
          (sym pz.not_empty)
          (λ pz'. chunk_line-cons a po.head pz.head h po.rest pz.rest n k wh le po' pz') pz)
      po

chunk_fgets :
    (h o z rest : CString) (n k : ℕ)
    → IsWord h
    → length h ≤ 64
    → IsPrinted n o
    → IsPrinted k z
    → fgets max_input_size ((9 ∷ three h o z) ++ 10 ∷ rest)
      ≡ some ((9 ∷ three h o z) ++ 10 ∷ [], rest)
chunk_fgets h o z rest n k w le po pz =
    fgets-line 1035 (9 ∷ three h o z) rest
      (refl, three-Lacks h o z w po.plain pz.plain 10 refl IsWord-Lacks_line)
      (refl, three-Lacks h o z w po.plain pz.plain 0 refl IsWord-Lacks_null)
      (omega (arith, length-three h o z w po.plain pz.plain, po.short, pz.short))

-- `read_chunks` reads back the lines of the chunks.
pub read_chunks-chunk_lines :
    (cs : List (CString × ℕ × ℕ)) (rest : List ℕ)
    → GoodChunks cs
    → read_chunks (length cs) (chunk_lines cs rest) ≡ some (false, map loaded_chunk cs, rest)
unfolding read_chunks
read_chunks-chunk_lines [] rest g = refl
read_chunks-chunk_lines (([], o, z) ∷ cs) rest ((f, _, _, _, _), g) = absurd f
read_chunks-chunk_lines ((a ∷ h, o, z) ∷ cs) rest ((_, w, le, ho, hz), g) =
    let po = decimal-IsPrinted o ho in
    let pz = decimal-IsPrinted z hz in
    rw
      (
        chunk_fgets (a ∷ h) (decimal o) (decimal z) (chunk_lines cs rest) o z w le po pz,
        read_chunks,
      )
      (rw (chunk_line-three a h (decimal o) (decimal z) o z w le po pz)
        (rw (read_chunks-chunk_lines cs rest g) refl))
