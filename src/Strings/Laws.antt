-- ===== src/Strings/Laws.antt =====
-- What `strip_whitespace` and `is_an_int` give their callers.
use bittorrent_implementatio.Prelude.{
  ℕ, ◌≡◌, refl, ap, ◌∙◌, ◌⊎◌, inl, inr, Bool-cases, ◌++◌, true, false, if◌then◌else◌, List, [], ◌∷◌,
  CString, arith,
}
use bittorrent_implementatio.Strings.{
  isspace, is_any_space, skip_space, cut_space, strip_whitespace,
}

abbrev pub Spaces : List ℕ → Type 0
Spaces [] = Unit {0}
Spaces (c ∷ cs) = (is_any_space c ≡ true) × Spaces cs

space_any : (c : ℕ) → isspace c ≡ true → is_any_space c ≡ true
unfolding is_any_space isspace
space_any c h = ground arith

skip_split : (s : CString) → (lead : CString) × (s ≡ lead ++ skip_space s) × Spaces lead
unfolding skip_space
skip_split [] = ([], refl, tt)
skip_split (c ∷ cs) =
    let (lead, e, h) = skip_split cs in
    elim (Bool-cases (isspace c)) [
      | inl y ↦ (c ∷ lead, rw y (ap (◌∷◌ c) e), (space_any c y, h))
      | inr n ↦ ([], rw n refl, tt)
    ]

cut_cases :
    (c : ℕ) (cs : CString)
    → ((cut_space cs ≡ []) × (is_any_space c ≡ true) × (cut_space (c ∷ cs) ≡ []))
      ⊎ (cut_space (c ∷ cs) ≡ c ∷ cut_space cs)
unfolding cut_space
cut_cases c cs = ground arith

cut_split : (s : CString) → (trail : CString) × (s ≡ cut_space s ++ trail) × Spaces trail
cut_split [] = ([], unfold cut_space in refl, tt)
cut_split (c ∷ cs) =
    let (trail, e, h) = cut_split cs in
    elim (cut_cases c cs) [
      | inl (none_left, y, gone) ↦ (c ∷ trail, rw gone (ap (◌∷◌ c) (e ∙ rw none_left refl)), (y, h))
      | inr kept ↦ (trail, rw kept (ap (◌∷◌ c) e), h)
    ]

-- No space at the beginning, and none at the end.
abbrev pub NoneFirst : CString → Type 0
NoneFirst [] = Unit {0}
NoneFirst (c ∷ cs) = isspace c ≡ false

abbrev pub NoneLast : CString → Type 0
NoneLast [] = Unit {0}
NoneLast (c ∷ []) = is_any_space c ≡ false
NoneLast (c ∷ d ∷ ds) = NoneLast (d ∷ ds)

skip_space-NoneFirst : (s : CString) → NoneFirst (skip_space s)
unfolding skip_space
skip_space-NoneFirst [] = tt
skip_space-NoneFirst (c ∷ cs) = elim (Bool-cases (isspace c)) [
  | inl y ↦ rw y (skip_space-NoneFirst cs)
  | inr n ↦ rw n n
]

cut_space-NoneFirst : (s : CString) → NoneFirst s → NoneFirst (cut_space s)
cut_space-NoneFirst [] h = unfold cut_space in tt
cut_space-NoneFirst (c ∷ cs) h = elim (cut_cases c cs) [
  | inl (none_left, y, gone) ↦ rw gone tt
  | inr kept ↦ rw kept h
]

cut_space-NoneLast : (s : CString) → NoneLast (cut_space s)
unfolding cut_space
cut_space-NoneLast [] = tt
cut_space-NoneLast (c ∷ cs) = go (cut_space cs) (cut_space-NoneLast cs)
  where
    go :
        (rest : CString)
        → NoneLast rest
        → NoneLast (elim rest [ [] ↦ if is_any_space c then [] else c ∷ [] | d ∷ ds ↦ c ∷ d ∷ ds ])
    go [] h = elim (Bool-cases (is_any_space c)) [ inl y ↦ rw y tt | inr n ↦ rw n n ]
    go (d ∷ ds) h = h

-- `strip_whitespace` takes nothing but spaces off, at the two ends, and leaves none there.
pub strip_whitespace-split :
    (s : CString)
    → (lead trail : CString) × (s ≡ lead ++ (strip_whitespace s ++ trail))
      × Spaces lead
      × Spaces trail
      × NoneFirst (strip_whitespace s)
      × NoneLast (strip_whitespace s)
unfolding strip_whitespace
strip_whitespace-split s =
    let (lead, e, h) = skip_split s in
    let (trail, f, k) = cut_split (skip_space s) in
    (
      lead,
      trail,
      e ∙ ap (◌++◌ lead) f,
      h,
      k,
      cut_space-NoneFirst (skip_space s) (skip_space-NoneFirst s),
      cut_space-NoneLast (skip_space s),
    )

cut_space_twice : (s : CString) → cut_space (cut_space s) ≡ cut_space s
unfolding cut_space
cut_space_twice [] = refl
cut_space_twice (c ∷ cs) = ground (arith, cut_space_twice cs)

-- The head that `skip_space` stops at stays, whatever is cut behind it.
skip-cut : (s : CString) → skip_space (cut_space (skip_space s)) ≡ cut_space (skip_space s)
unfolding skip_space
skip-cut [] = unfold cut_space in refl
skip-cut (c ∷ cs) = ground (arith, skip-cut cs, cut_cases c cs)

-- Stripping a text a second time with `strip_whitespace` changes nothing.
strip_whitespace_twice : (s : CString) → strip_whitespace (strip_whitespace s) ≡ strip_whitespace s
unfolding strip_whitespace
strip_whitespace_twice s = rw (skip-cut s) (cut_space_twice (skip_space s))
