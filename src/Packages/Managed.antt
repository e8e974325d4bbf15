-- ===== src/Packages/Managed.antt =====
-- `add_package` and `remove_package` on the array of managed packages (project/src/package.c).
use mathlib.Core.List.{Perm, perm_append_comm}
use mathlib.Core.List.Perm
use bittorrent_implementatio.Prelude.{
  ℕ, zero, suc, ◌-◌, ◌*◌, ◌≤◌, ◌<◌, ◌≡◌, refl, sym, ap, subst, ◌∙◌, ◌⊎◌, inl, inr, Bool, true,
  false, Bool-cases, Option, none, some, List, [], ◌∷◌, ◌++◌, CString, if◌then◌else◌, length,
  length-append, length-replicate, length-perm, set, replicate, ltb, lt→ltb, arith,
}
use bittorrent_implementatio.Pkgchk.{BpkgObj, Files, bpkg_file_check}
use bittorrent_implementatio.Packages.{
  ManagedPackages, put_first, add_resized, add_package, same_ident, take_out, remove_package,
}

-- The packages in the array, in its order.
abbrev pub packages : List (Option BpkgObj) → List BpkgObj
packages [] = []
packages (none ∷ ps) = packages ps
packages (some p ∷ ps) = p ∷ packages ps

-- The counter is right, and the array has room to grow from.
pub record IsManaged (m : ManagedPackages) : Type 0 where
  pub counted : m.size ≡ length (packages m.managed_array)
  pub room : 0 < length m.managed_array

-- The list without its first package of the identifier.
abbrev pub without : CString → List BpkgObj → List BpkgObj
without ident [] = []
without ident (p ∷ ps) = if same_ident ident p then ps else p ∷ without ident ps

abbrev pub has_ident : CString → List BpkgObj → Bool
has_ident ident [] = false
has_ident ident (p ∷ ps) = if same_ident ident p then true else has_ident ident ps

packages-append : (xs ys : List (Option BpkgObj)) → packages (xs ++ ys) ≡ packages xs ++ packages ys
packages-append [] ys = refl
packages-append (none ∷ xs) ys = packages-append xs ys
packages-append (some p ∷ xs) ys = ap (◌∷◌ p) (packages-append xs ys)

packages-replicate : (n : ℕ) → packages (replicate n none) ≡ []
packages-replicate zero = refl
packages-replicate (suc n) = packages-replicate n

length-packages : (ps : List (Option BpkgObj)) → length (packages ps) ≤ length ps
length-packages [] = omega arith
length-packages (none ∷ ps) = omega (arith, length-packages ps)
length-packages (some p ∷ ps) = omega (arith, length-packages ps)

-- What the search for a null entry does.
put_first-perm :
    (b : BpkgObj) (ps : List (Option BpkgObj))
    → (((put_first b ps).0 ≡ true)
        × Perm (packages (put_first b ps).1) (b ∷ packages ps)
        × (length (put_first b ps).1 ≡ length ps)
        × (length (packages ps) < length ps))
      ⊎ (((put_first b ps).0 ≡ false) × (length (packages ps) ≡ length ps))
unfolding put_first
put_first-perm b [] = inr (refl, refl)
put_first-perm b (none ∷ ps) = inl (refl, Perm.refl _, refl, omega (arith, length-packages ps))
put_first-perm b (some p ∷ ps) = elim (put_first-perm b ps) [
  | inl (e, q, l, h) ↦
      inl (e, Perm.trans (Perm.cons p q) (Perm.swap b p (packages ps)), ap suc l, omega arith)
  | inr (e, l) ↦ inr (e, ap suc l)
]

take_out-without :
    (ident : CString) (ps : List (Option BpkgObj))
    → ((take_out ident ps).0 ≡ has_ident ident (packages ps))
      × (packages (take_out ident ps).1 ≡ without ident (packages ps))
      × (length (take_out ident ps).1 ≡ length ps)
unfolding take_out
take_out-without ident [] = (refl, refl, refl)
take_out-without ident (none ∷ ps) = let (a, b, c) = take_out-without ident ps in (a, b, ap suc c)
take_out-without ident (some p ∷ ps) =
    let (a, b, c) = take_out-without ident ps in
    elim (Bool-cases (same_ident ident p)) [
      | inl y ↦ ground (arith, c)
      | inr n ↦ ground (arith, a, b, c)
    ]

set-append :
    (xs : List (Option BpkgObj)) (y z : Option BpkgObj) (ys : List (Option BpkgObj))
    → set (xs ++ (y ∷ ys)) (length xs) z ≡ xs ++ (z ∷ ys)
set-append [] y z ys = refl
set-append (x ∷ xs) y z ys = ap (◌∷◌ x) (set-append xs y z ys)

-- Where every entry is taken, the array is doubled and the package comes behind the others.
resized :
    (b : BpkgObj) (m : ManagedPackages) (k : ℕ)
    → length m.managed_array ≡ suc k
    → m.size ≡ length m.managed_array
    → add_resized true b m
      ≡ some (
        1,
        record {
          managed_array = m.managed_array ++ (some b ∷ replicate k none);
          size = suc m.size;
        },
      )
unfolding add_resized
resized b m k h e =
    rw (grown, e, fits, set-append m.managed_array none (some b) (replicate k none)) refl
  where
    grown :
        m.managed_array ++ replicate (length m.managed_array * 2 - length m.managed_array) none
        ≡ m.managed_array ++ (none ∷ replicate k none)
    grown = ap (λ n. m.managed_array ++ replicate n none) {y = suc k} (omega (arith, h))

    fits :
        ltb (length m.managed_array) (length (m.managed_array ++ (none ∷ replicate k none))) ≡ true
    fits = lt→ltb _ _ (omega (arith, length-append m.managed_array (none ∷ replicate k none)))

packages-resized :
    (ps : List (Option BpkgObj)) (b : BpkgObj) (k : ℕ)
    → Perm (packages (ps ++ (some b ∷ replicate k none))) (b ∷ packages ps)
packages-resized ps b k =
    rw (packages-append ps (some b ∷ replicate k none), packages-replicate k)
      (perm_append_comm (packages ps) (b ∷ []))

-- With the counter right and room to grow, and if `realloc` finds room where it is called,
-- `add_package` of a package that loads never faults: it returns 1 and adds the package, with its file checked, and
-- nothing else; the counter stays right. The array keeps its length as long as an entry is free, and
-- is doubled otherwise.
pub add_package_lem :
    (b : BpkgObj) (creatable : Bool) (files : Files) (m : ManagedPackages)
    → IsManaged m
    → (m' : ManagedPackages) × (add_package (some b) true creatable files m
        ≡ some (1, (bpkg_file_check creatable files b).1, m'))
      × Perm
          (packages m'.managed_array)
          ((bpkg_file_check creatable files b).2 ∷ packages m.managed_array)
      × IsManaged m'
      × (length m'.managed_array ≡ (
          if ltb m.size (length m.managed_array)
          then length m.managed_array
          else length m.managed_array * 2))
unfolding add_package
add_package_lem b creatable files m v = elim (put_first-perm b' m.managed_array) [
  | inl (e, q, l, h) ↦ (
    record { managed_array = (put_first b' m.managed_array).1; size = suc m.size },
    rw (add_package, e) refl,
    q,
    record { counted = omega (arith, v.counted, length-perm q); room = omega (arith, l, v.room) },
    ground (arith, l, h, v.counted),
  )
  | inr (e, l) ↦ (
    record {
      managed_array = m.managed_array ++ (some b' ∷ replicate (length m.managed_array - 1) none);
      size = suc m.size;
    },
    rw
        (
          add_package,
          e,
          resized b' m (length m.managed_array - 1) (omega (arith, v.room))
              (omega (arith, v.counted, l)),
        )
        refl,
    packages-resized m.managed_array b' (length m.managed_array - 1),
    record {
      counted = omega (
        arith,
        v.counted,
        length-perm (packages-resized m.managed_array b' (length m.managed_array - 1)),
      );
      room = omega (arith, grown);
    },
    ground (arith, grown, l, v.counted),
  )
]
  where
    b' : BpkgObj
    b' = (bpkg_file_check creatable files b).2

    grown :
        length (m.managed_array ++ (some b' ∷ replicate (length m.managed_array - 1) none))
        ≡ length m.managed_array * 2
    grown = omega (
      arith,
      v.room,
      length-append m.managed_array (some b' ∷ replicate (length m.managed_array - 1) none),
      length-replicate {0} {A = Option BpkgObj} (length m.managed_array - 1) none,
    )

length-without :
    (ident : CString) (ps : List BpkgObj)
    → has_ident ident ps ≡ true
    → suc (length (without ident ps)) ≡ length ps
length-without ident [] h = ground arith
length-without ident (p ∷ ps) h = ground (arith, length-without ident ps)

without_none :
    (ident : CString) (ps : List BpkgObj) → has_ident ident ps ≡ false → without ident ps ≡ ps
without_none ident [] h = refl
without_none ident (p ∷ ps) h = ground (arith, without_none ident ps)

-- With the counter right and an array that is not empty, `remove_package` takes out the first
-- package whose identifier agrees in its first 20 characters, and no other; it returns 1 if there
-- was one and 0 otherwise. The counter stays right, and the array keeps its length.
pub remove_package_lem :
    (m : ManagedPackages) (ident : CString)
    → IsManaged m
    → ((remove_package m ident).0 ≡ (if has_ident ident (packages m.managed_array) then 1 else 0))
      × (packages (remove_package m ident).1.managed_array
          ≡ without ident (packages m.managed_array))
      × IsManaged (remove_package m ident).1
      × (length (remove_package m ident).1.managed_array ≡ length m.managed_array)
remove_package_lem m ident v =
    let (a, b, c) = take_out-without ident m.managed_array in
    elim (Bool-cases (take_out ident m.managed_array).0) [
      | inl y ↦
          let has = sym a ∙ y in
          unfold remove_package in
          (
            rw (y, has) refl,
            rw y b,
            rw y (record {
              counted = omega (arith, ap length b, length-without ident _ has, v.counted);
              room = omega (arith, c, v.room);
            }),
            rw y c,
          )
      | inr n ↦
          let has = sym a ∙ n in
          unfold remove_package in
          (rw (n, has) refl, rw n (sym (without_none ident _ has)), rw n v, rw n refl)
    ]

-- What an operation makes of the packages, if it does not fault.
abbrev pub ManagedAfter {ℓ} : {A : Type ℓ} → Option (A × Files × ManagedPackages) → Type 0
ManagedAfter none = Unit
ManagedAfter (some (_, _, m)) = IsManaged m

-- `add_package` keeps the counter right whatever is loaded, with memory or without.
pub add_package-IsManaged :
    (loaded : Option BpkgObj) (memory creatable : Bool) (files : Files) (m : ManagedPackages)
    → IsManaged m
    → ManagedAfter (add_package loaded memory creatable files m)
unfolding add_package
add_package-IsManaged none memory creatable files m v = v
add_package-IsManaged (some b) true creatable files m v =
    let (m', e, _, w, _) = add_package_lem b creatable files m v in subst ManagedAfter (sym e) w
add_package-IsManaged (some b) false creatable files m v =
    elim (Bool-cases (put_first (bpkg_file_check creatable files b).2 m.managed_array).0) [
      | inl y ↦
          let (m', e, _, w, _) = add_package_lem b creatable files m v in
          let with_memory : ManagedAfter (add_package (some b) true creatable files m) =
            subst ManagedAfter (sym e) w in
          rw (add_package, y) (rw (add_package, y) at with_memory)
      | inr n ↦ rw (add_package, n) (unfold add_resized in v)
    ]
