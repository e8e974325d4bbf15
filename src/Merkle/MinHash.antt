-- ===== src/Merkle/MinHash.antt =====
-- `min_hash_find` against a plain description of its result: the roots of the largest complete
-- subtrees.
use mathlib.Core.List.{Perm, perm_append_comm}
use mathlib.Core.List.Perm
use bittorrent_implementatio.Prelude.{
  ◌≡◌, refl, subst, ◌∙◌, ◌⊎◌, inl, inr, Bool, true, false, not, ◌&&◌, Bool-cases, Option, none,
  some, List, [], ◌∷◌, ◌++◌, map, map-append, append-nil, append_assoc, CString, str_eq,
  if◌then◌else◌, arith,
}
use bittorrent_implementatio.Merkle.{
  Tree, null, node, NodeData, value_of, min_hash_find, min_hash_join,
}

abbrev is_some {ℓ} : {A : Type ℓ} → Option A → Bool
is_some none = false
is_some (some a) = true

-- A node is a leaf or has two children, and only the root has no parent.
abbrev pub Full : Bool → Tree → Type 0
Full p null = ⊥
Full p (node d l r) =
    (is_some d.parent ≡ p)
    × ((d.is_leaf ≡ true) ⊎ ((d.is_leaf ≡ false) × Full true l × Full true r))

-- Every chunk below the node has the hash that the package says.
unfoldable pub complete : Tree → Bool
complete null = false
complete (node d l r) =
    if d.is_leaf then str_eq d.computed_hash d.value else complete l && complete r

abbrev pub value_or : Tree → CString
value_or null = []
value_or (node d l r) = d.value

-- The largest complete subtrees, from left to right.
unfoldable pub frontier : Tree → List Tree
frontier null = []
frontier (node d l r) =
    if complete (node d l r)
    then node d l r ∷ []
    else if d.is_leaf
    then []
    else frontier l ++ frontier r

-- What a node writes of its children, if it is no complete root.
siblings : Bool → Bool → CString → CString → List CString
siblings true true x y = []
siblings true false x y = x ∷ []
siblings false true x y = y ∷ []
siblings false false x y = []

-- What a call below the root writes.
emitted : Tree → List CString
emitted null = []
emitted (node d l r) =
    if d.is_leaf
    then []
    else (emitted l ++ emitted r) ++ siblings (complete l) (complete r) (value_or l) (value_or r)

-- The node itself, where its caller has to write it.
own : Tree → List CString
own t = if complete t then value_or t ∷ [] else []

value_of-Full : (t : Tree) → Full true t → value_of t ≡ some (value_or t)
value_of-Full null f = absurd f
value_of-Full (node d l r) f = refl

join-siblings :
    (d : NodeData) (l r : Tree) (a b : Bool) (hs : List CString)
    → Full true l
    → Full true r
    → min_hash_join d l r a b hs
      ≡ some (
        a && b,
        hs
            ++ (siblings a b (value_or l) (value_or r)
                ++ (if a && b && not (is_some d.parent) then d.value ∷ [] else [])),
      )
unfolding min_hash_join siblings
join-siblings d l r true true hs fl fr = ground (arith, append-nil hs)
join-siblings d l r true false hs fl fr = rw (value_of-Full l fl) refl
join-siblings d l r false true hs fl fr = rw (value_of-Full r fr) refl
join-siblings d l r false false hs fl fr = ground (arith, append-nil hs)

abbrev at_root : NodeData → Bool → List CString
at_root d c = if c && not (is_some d.parent) then d.value ∷ [] else []

-- A call on a node that is no leaf, from what the calls on its children do.
find_branch :
    (d : NodeData) (l r : Tree) (hs : List CString)
    → d.is_leaf ≡ false
    → Full true l
    → Full true r
    → ((xs : List CString) → min_hash_find l xs ≡ some (complete l, xs ++ emitted l))
    → ((xs : List CString) → min_hash_find r xs ≡ some (complete r, xs ++ emitted r))
    → min_hash_find (node d l r) hs
      ≡ some
          (complete (node d l r), hs ++ (emitted (node d l r) ++ at_root d (complete (node d l r))))
unfolding min_hash_find complete emitted
find_branch d l r hs e fl fr hl hr =
    rw (e, hl, hr, join-siblings d l r _ _ _ fl fr) (simp append_assoc)

min_hash_find-emitted :
    (t : Tree) (hashes : List CString)
    → Full true t
    → min_hash_find t hashes ≡ some (complete t, hashes ++ emitted t)
min_hash_find-emitted null hashes f = absurd f
min_hash_find-emitted (node d l r) hashes (q, inl e) =
    unfold min_hash_find complete emitted in ground (arith, append-nil hashes)
min_hash_find-emitted (node d l r) hashes (q, inr (e, fl, fr)) =
    find_branch d l r hashes e fl fr (λ xs. min_hash_find-emitted l xs fl)
      (λ xs. min_hash_find-emitted r xs fr)
    ∙ ground (arith, append-nil (emitted (node d l r)))

emitted-complete : (t : Tree) → complete t ≡ true → emitted t ≡ []
unfolding complete emitted siblings
emitted-complete null h = refl
emitted-complete (node d l r) h = ground (arith, emitted-complete l, emitted-complete r)

regroup : (a b c d : List CString) → Perm ((a ++ b) ++ (c ++ d)) ((a ++ c) ++ (b ++ d))
regroup a b c d =
    rw (append_assoc, append_assoc)
      (Perm.append_left a (
        subst (λ z. Perm z (c ++ (b ++ d))) (append_assoc b c d)
          (subst (Perm (b ++ c ++ d)) (append_assoc c b d)
            (Perm.append_right d (perm_append_comm b c)))))

siblings-own :
    (l r : Tree)
    → complete l && complete r ≡ false
    → siblings (complete l) (complete r) (value_or l) (value_or r) ≡ own l ++ own r
unfolding siblings own
siblings-own l r h = ground arith

own-complete : (t : Tree) → complete t ≡ true → own t ≡ map value_or (frontier t)
unfolding own frontier
own-complete null h = unfold complete in cc
own-complete (node d l r) h = ground arith

own_incomplete : (t : Tree) → complete t ≡ false → own t ≡ []
unfolding own
own_incomplete t h = ground arith

branch_incomplete :
    (d : NodeData) (l r : Tree)
    → d.is_leaf ≡ false
    → complete (node d l r) ≡ false
    → (emitted (node d l r) ≡ (emitted l ++ emitted r) ++ (own l ++ own r))
      × (map value_or (frontier (node d l r))
          ≡ map value_or (frontier l) ++ map value_or (frontier r))
branch_incomplete d l r e h = (
  unfold emitted in ground (arith, siblings-own l r (unfold complete in ground arith)),
  unfold frontier in ground (arith, map-append value_or (frontier l) (frontier r)),
)

leaf_incomplete :
    (d : NodeData) (l r : Tree)
    → d.is_leaf ≡ true
    → complete (node d l r) ≡ false
    → (emitted (node d l r) ≡ []) × (frontier (node d l r) ≡ [])
unfolding emitted frontier
leaf_incomplete d l r e h = ground arith

emitted-frontier : (t : Tree) → Perm (emitted t ++ own t) (map value_or (frontier t))
emitted-frontier null = unfold emitted own frontier complete in Perm.refl []
emitted-frontier (node d l r) = elim (Bool-cases (complete (node d l r))) [
  | inl y ↦ rw (emitted-complete (node d l r) y, own-complete (node d l r) y) (Perm.refl _)
  | inr n ↦ elim (Bool-cases d.is_leaf) [
    | inl e ↦
        let (a, b) = leaf_incomplete d l r e n in
        rw (a, b, own_incomplete (node d l r) n) (Perm.refl [])
    | inr e ↦
        let (a, b) = branch_incomplete d l r e n in
        rw (a, b, own_incomplete (node d l r) n, append-nil)
          (Perm.trans (regroup (emitted l) (emitted r) (own l) (own r))
            (Perm.append (emitted-frontier l) (emitted-frontier r)))
  ]
]

-- On a tree in which every node that is no leaf has two children and only the root has no parent,
-- and whose root is no leaf, `min_hash_find` never faults. It returns whether every chunk is
-- complete, and writes behind what is there the hashes of the largest complete subtrees, each
-- once, in some order.
pub min_hash_find-frontier :
    (d : NodeData) (l r : Tree) (hashes : List CString)
    → Full false (node d l r)
    → d.is_leaf ≡ false
    → (written : List CString) × (min_hash_find (node d l r) hashes
        ≡ some (complete (node d l r), hashes ++ written))
      × Perm written (map value_or (frontier (node d l r)))
min_hash_find-frontier d l r hashes (q, inl y) e = absurd (ground arith)
min_hash_find-frontier d l r hashes (q, inr (_, fl, fr)) e = (
  emitted (node d l r) ++ at_root d (complete (node d l r)),
  find_branch d l r hashes e fl fr (λ xs. min_hash_find-emitted l xs fl)
      (λ xs. min_hash_find-emitted r xs fr),
  subst (λ z. Perm (emitted (node d l r) ++ z) (map value_or (frontier (node d l r))))
      {x = own (node d l r)} (unfold own in ground arith) (emitted-frontier (node d l r)),
)
