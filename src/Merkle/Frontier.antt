-- ===== src/Merkle/Frontier.antt =====
-- What the largest complete subtrees stand for: exactly the completed chunks.
use bittorrent_implementatio.Prelude.{
  ℕ, ◌≡◌, refl, ap, ap₂, ◌∙◌, sym, ◌⊎◌, inl, inr, Bool, true, false, Bool-cases, Option, none, some,
  List, [], ◌∷◌, ◌++◌, append-nil, append_assoc, CString, str_eq, str_eq_comm, if◌then◌else◌, arith,
}
use bittorrent_implementatio.Merkle.{Tree, null, node, NodeData}
use bittorrent_implementatio.Merkle.Built.{Built, branch, leaf, Plain}
use bittorrent_implementatio.Merkle.Traverse.{collect}
use bittorrent_implementatio.Merkle.Marks.{blank}
use bittorrent_implementatio.Merkle.MinHash.{Full, complete, frontier}

abbrev pub leaf_value : NodeData → List CString
leaf_value d = if d.is_leaf then d.value ∷ [] else []

abbrev pub completed_value : NodeData → List CString
completed_value d =
    if d.is_leaf then (if str_eq d.value d.computed_hash then d.value ∷ [] else []) else []

-- The chunk hashes below a node, from left to right.
abbrev pub leaves : Tree → List CString
leaves = collect leaf_value

-- Those of them whose chunk has the right hash.
abbrev pub completed : Tree → List CString
completed = collect completed_value

abbrev pub all_leaves : List Tree → List CString
all_leaves [] = []
all_leaves (t ∷ ts) = leaves t ++ all_leaves ts

Built-Full :
    {hashes : List CString} {chunks : List Plain} {n i : ℕ} {p : Option ℕ} {t : Tree}
    → Built hashes chunks n i p t
    → Full (elim p [ none ↦ false | some k ↦ true ]) t
Built-Full (branch {p = none} v h e l r) = (refl, inr (refl, Built-Full l, Built-Full r))
Built-Full (branch {p = some k} v h e l r) = (refl, inr (refl, Built-Full l, Built-Full r))
Built-Full (leaf {p = none} v o s h e) = (refl, inl refl)
Built-Full (leaf {p = some k} v o s h e) = (refl, inl refl)

Full-unblank : (p : Bool) (t : Tree) → Full p (blank t) → Full p t
unfolding blank
Full-unblank p null f = f
Full-unblank p (node d l r) (q, inl e) = (q, inl e)
Full-unblank p (node d l r) (q, inr (e, fl, fr)) =
    (q, inr (e, Full-unblank true l fl, Full-unblank true r fr))

pub blank-Full :
    {hashes : List CString} {chunks : List Plain} {n : ℕ} (t : Tree)
    → Built hashes chunks n 0 none (blank t)
    → Full false t
blank-Full t b = Full-unblank false t (Built-Full b)

-- The shape of leaves: nothing hangs below them.
abbrev pub Bare : Tree → Type 0
Bare null = Unit {0}
Bare (node d l r) =
    ((d.is_leaf ≡ true) × (l ≡ null) × (r ≡ null) ⊎ (d.is_leaf ≡ false)) × Bare l × Bare r

all_leaves-append : (xs ys : List Tree) → all_leaves (xs ++ ys) ≡ all_leaves xs ++ all_leaves ys
all_leaves-append [] ys = refl
all_leaves-append (t ∷ ts) ys =
    ap (◌++◌ (leaves t)) (all_leaves-append ts ys)
    ∙ sym (append_assoc (leaves t) (all_leaves ts) (all_leaves ys))

completed_all : (t : Tree) → Bare t → complete t ≡ true → completed t ≡ leaves t
unfolding collect complete
completed_all null b h = refl
completed_all (node d l r) (inl (e, el, er), bl, br) h =
    ground (arith, el, er, str_eq_comm d.value d.computed_hash)
completed_all (node d l r) (inr e, bl, br) h =
    ground (arith, completed_all l bl, completed_all r br)

Built-Bare :
    {hashes : List CString} {chunks : List Plain} {n i : ℕ} {p : Option ℕ} {t : Tree}
    → Built hashes chunks n i p t
    → Bare t
Built-Bare (branch v h e l r) = (inr refl, Built-Bare l, Built-Bare r)
Built-Bare (leaf v o s h e) = (inl (refl, refl, refl), _, _)

null-unblank : (t : Tree) → blank t ≡ null → t ≡ null
unfolding blank
null-unblank null e = refl
null-unblank (node d l r) e = cc e

Bare-unblank : (t : Tree) → Bare (blank t) → Bare t
unfolding blank
Bare-unblank null b = b
Bare-unblank (node d l r) (inl (e, el, er), bl, br) =
    (inl (e, null-unblank l el, null-unblank r er), Bare-unblank l bl, Bare-unblank r br)
Bare-unblank (node d l r) (inr e, bl, br) = (inr e, Bare-unblank l bl, Bare-unblank r br)

whole : (t : Tree) → Bare t → complete t ≡ true → all_leaves (t ∷ []) ≡ completed t
whole t b h = append-nil (leaves t) ∙ sym (completed_all t b h)

frontier-whole :
    (d : NodeData) (l r : Tree)
    → complete (node d l r) ≡ true
    → frontier (node d l r) ≡ node d l r ∷ []
unfolding frontier
frontier-whole d l r h = rw h refl

leaf_part :
    (d : NodeData) (l r : Tree)
    → d.is_leaf ≡ true
    → l ≡ null
    → r ≡ null
    → complete (node d l r) ≡ false
    → all_leaves (frontier (node d l r)) ≡ completed (node d l r)
leaf_part d l r e el er n =
    unfold frontier collect in
    rw (n, e, el, er) (unfold complete in ground (arith, str_eq_comm d.value d.computed_hash))

branch_part :
    (d : NodeData) (l r : Tree)
    → d.is_leaf ≡ false
    → complete (node d l r) ≡ false
    → all_leaves (frontier l) ≡ completed l
    → all_leaves (frontier r) ≡ completed r
    → all_leaves (frontier (node d l r)) ≡ completed (node d l r)
branch_part d l r e n hl hr =
    ap all_leaves {x = frontier (node d l r)} {y = frontier l ++ frontier r}
      (unfold frontier in rw (n, e) refl)
    ∙ all_leaves-append (frontier l) (frontier r)
    ∙ ap₂ ◌++◌ hl hr
    ∙ unfold collect in ground (arith, e)

-- The chunks below the largest complete subtrees are the completed chunks, in the same order.
pub frontier-completed : (t : Tree) → Bare t → all_leaves (frontier t) ≡ completed t
frontier-completed null b = unfold frontier collect in refl
frontier-completed (node d l r) (inl (e, el, er), bl, br) =
    elim (Bool-cases (complete (node d l r))) [
      | inl y ↦
          ap all_leaves (frontier-whole d l r y) ∙ whole (node d l r) (inl (e, el, er), bl, br) y
      | inr n ↦ leaf_part d l r e el er n
    ]
frontier-completed (node d l r) (inr e, bl, br) = elim (Bool-cases (complete (node d l r))) [
  | inl y ↦ ap all_leaves (frontier-whole d l r y) ∙ whole (node d l r) (inr e, bl, br) y
  | inr n ↦ branch_part d l r e n (frontier-completed l bl) (frontier-completed r br)
]

pub blank-Bare :
    {hashes : List CString} {chunks : List Plain} {n : ℕ} (t : Tree)
    → Built hashes chunks n 0 none (blank t)
    → Bare t
blank-Bare t b = Bare-unblank t (Built-Bare b)
