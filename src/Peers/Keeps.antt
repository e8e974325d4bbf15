-- ===== src/Peers/Keeps.antt =====
-- Properties of the state of project/src/chk/helpers.c that an operation keeps, whatever it returns.
use bittorrent_implementatio.Prelude.{
  ℕ, ◌≡◌, ap, CString, arith, Bool, true, false, Option, none, some, if◌then◌else◌,
}
use bittorrent_implementatio.Peers.{Arrays, in_slots, fd_slots, in_array, get_fd, M, ◌>>=◌}

-- Every result of an operation satisfies `P`.
abbrev pub Leaves {ℓ} : {A : Type 0} → (Arrays → Type ℓ) → Option (A × Arrays) → Type ℓ
Leaves P none = Unit
Leaves P (some (a, s)) = P s

abbrev pub Keeps {ℓ} : {A : Type 0} → (Arrays → Type ℓ) → M A → Type ℓ
Keeps P f = (s : Arrays) → P s → Leaves P (f s)

pub bind-Keeps {ℓ} :
    {A B : Type 0} {P : Arrays → Type ℓ} (f : M A) (k : A → M B)
    → Keeps P f
    → ((a : A) → Keeps P (k a))
    → Keeps P (f >>= k)
bind-Keeps {A} {B} {P} f k kf kk s p = go (f s) (kf s p)
  where
    go :
        (o : Option (A × Arrays))
        → Leaves P o
        → Leaves P (elim o [ none ↦ none | some (a, t) ↦ k a t ])
    go none q = tt
    go (some (a, t)) q = kk a t q

-- On each branch of a test.
pub choose-Keeps {ℓ} :
    {A : Type 0} {P : Arrays → Type ℓ} (b : Bool) (f g : M A)
    → Keeps P f
    → Keeps P g
    → Keeps P (elim b [ true ↦ f | false ↦ g ])
choose-Keeps true f g p q = p
choose-Keeps false f g p q = q

pub if-Keeps {ℓ} :
    {A : Type 0} {P : Arrays → Type ℓ} (b : Bool) (f g : M A)
    → Keeps P f
    → Keeps P g
    → Keeps P (if b then f else g)
if-Keeps true f g p q = p
if-Keeps false f g p q = q

pub option-Keeps {ℓ} :
    {A B : Type 0} {P : Arrays → Type ℓ} (o : Option B) (f : M A) (k : B → M A)
    → Keeps P f
    → ((b : B) → Keeps P (k b))
    → Keeps P (elim o [ none ↦ f | some b ↦ k b ])
option-Keeps none f k p q = p
option-Keeps (some b) f k p q = q b

-- With the lock free the two searches change nothing.
pub in_array_free :
    (ip : CString) (port : ℕ) (s : Arrays)
    → s.peer_array_lock ≡ false
    → in_array ip port s ≡ some (in_slots ip port s.peer_array, s)
unfolding in_array
in_array_free ip port s free = ground arith

pub get_fd_free :
    (ip : CString) (port : ℕ) (s : Arrays)
    → s.peer_array_lock ≡ false
    → get_fd ip port s ≡ some (fd_slots ip port s.peer_array, s)
unfolding get_fd
get_fd_free ip port s free = ground arith

-- The operation that comes behind one that returns.
pub after_bind :
    {A B : Type 0} (f : M A) (k : A → M B) (s s' : Arrays) (x : A)
    → f s ≡ some (x, s')
    → (f >>= k) s ≡ k x s'
after_bind f k s s' x e = ap (λ o. elim o [ none ↦ none | some (y, t) ↦ k y t ]) e
