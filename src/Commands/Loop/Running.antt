-- ===== src/Commands/Loop/Running.antt =====
-- What stays true while the program of project/src/btide.c runs: its commands, the connections that the
-- listener accepts, the packets that the peers' threads handle, and the ends of these threads, in any order.
use bittorrent_implementatio.Prelude.{
  ℕ, zero, suc, ◌≤◌, ◌≡◌, refl, sym, subst, ◌∙◌, inl, inr, Bool, Option, Option-cases, none, some,
  List, CString, length-replicate, replicate, arith,
}
use bittorrent_implementatio.Pkgchk.{Files}
use bittorrent_implementatio.Config.{Config, Dirs, goes_on, config_load}
use bittorrent_implementatio.Config.Range.{PeersInRange, config_load-InRange}
use bittorrent_implementatio.Peers.{Peer, ThreadArgs, Arrays}
use bittorrent_implementatio.Peers.Keeps.{Leaves}
use bittorrent_implementatio.Peers.Sizes.{SlotsBelow, IsSized}
use bittorrent_implementatio.Connect.Listener.{Incoming, accept_one}
use bittorrent_implementatio.Connect.Sizes.{accept_one-Keeps}
use bittorrent_implementatio.Commands.Handler.{Received, Reply, handle_peers}
use bittorrent_implementatio.Commands.Handler.Answers.{TurnKept, handle_peers-Kept}
use bittorrent_implementatio.Commands.Loop.Kept.{IsRunning, Kept, command-Kept}
use bittorrent_implementatio.Commands.Loop.{Btide, World, Effect, Turn, start, command}

-- One step of one thread: a command of `main`, a connection that `listener` accepts, or a turn of a
-- `handle_peers`. Each step runs alone, from its first line to its last.
pub data Step (b : Btide) : Btide → Type 0 where
  commands :
      (w : World) (line : CString) (b' : Btide) (e : Effect)
      → command w line b ≡ some (Turn.goes_on b' e)
      → Step b b'
  accepts :
      (i : Incoming) (s : Arrays)
      → accept_one i b.required_arrays ≡ some (tt, s)
      → Step b (record b { required_arrays = s })
  handles :
      (args : ThreadArgs) (written : ℕ) (behind : List ℕ) (r : Received) (b' : Btide)
      (reply : Reply)
      → handle_peers args written behind r b ≡ some (b', reply)
      → Step b b'

pub data Reach (b : Btide) : Btide → Type 0 where
  begin : Reach b b
  next : {b₁ b₂ : Btide} → Reach b b₁ → Step b₁ b₂ → Reach b b₂

replicate-SlotsBelow : (max n : ℕ) → SlotsBelow max (replicate n none)
replicate-SlotsBelow max zero = tt
replicate-SlotsBelow max (suc n) = replicate-SlotsBelow max n

abbrev Begun : ℕ → Option Btide → Type 0
Begun max none = Unit {0}
Begun max (some b) = IsRunning max b

-- The state that `main` sets up.
start-IsRunning :
    (c : Config) (files : Files) (max : ℕ) (b : Btide)
    → c.max_peers ≡ some max
    → start c files ≡ some b
    → IsRunning max b
unfolding start
start-IsRunning c files max b e s = subst (Begun max) s (
    rw (start, e)
      (record {
        sized = record {
          slots = length-replicate {0} {A = Option Peer} max none;
          statuses = length-replicate {0} {A = ℕ} max 0;
          ids = replicate-SlotsBelow max max;
          threads = tt;
        };
        kept = record { counted = refl; room = omega arith };
      }))

start_unset : (c : Config) (files : Files) → c.max_peers ≡ none → start c files ≡ none
unfolding start
start_unset c files e = rw (start, e) refl

Step-IsRunning : (max : ℕ) (b b' : Btide) → Step b b' → IsRunning max b → IsRunning max b'
Step-IsRunning max b _ (commands w line b' e h) v = subst (Kept max) h (command-Kept max w line b v)
Step-IsRunning max b _ (accepts i s h) v = record {
  sized = subst (Leaves (IsSized max)) h (accept_one-Keeps max i b.required_arrays v.sized);
  kept = v.kept;
}
Step-IsRunning max b _ (handles args written behind r b' reply h) v =
    subst (TurnKept (IsRunning max)) h (handle_peers-Kept max args written behind r b v)

Reach-IsRunning_from : (max : ℕ) {b b' : Btide} → Reach b b' → IsRunning max b → IsRunning max b'
Reach-IsRunning_from max begin v = v
Reach-IsRunning_from max (next {b₁ = b₁} {b₂ = b₂} r s) v =
    Step-IsRunning max b₁ b₂ s (Reach-IsRunning_from max r v)

not_begun : (b : Btide) → none ≡ some b → ⊥
not_begun b e = subst (λ o. elim o [ none ↦ Unit {0} | some _ ↦ ⊥ ]) e tt

-- The program was started with a configuration with which `config_load` went on, and has taken
-- any number of steps without a fault: commands, connections that the listener accepts, and turns
-- of the threads of the peers, in any order, each from its first line to its last. Then
-- `max_peers` was set, to a number from 1 to 2048; the tables of peers and of threads still have
-- so many entries; the index of every thread in them, and of every thread that was started, is
-- below that number; and the counter of the managed packages is right.
pub Reach-IsRunning :
    (can_make : CString → Bool) (config_files files : Files) (dirs after : Dirs) (path : CString)
    (c : Config) (b₀ b : Btide)
    → config_load can_make config_files dirs path ≡ some (goes_on c after)
    → start c files ≡ some b₀
    → Reach b₀ b
    → (max : ℕ) × (c.max_peers ≡ some max) × (1 ≤ max) × (max ≤ 2048) × IsRunning max b
Reach-IsRunning can_make config_files files dirs after path c b₀ b loaded begun r =
    elim (Option-cases c.max_peers) [
      | inl n ↦ absurd (not_begun b₀ (sym (start_unset c files n) ∙ begun))
      | inr (max, e) ↦
          let range = config_load-InRange can_make config_files dirs after path c loaded in
          let (lo, hi) : (1 ≤ max) × (max ≤ 2048) = subst PeersInRange e range.peers in
          (max, e, lo, hi, Reach-IsRunning_from max r (start-IsRunning c files max b₀ e begun))
    ]
