-- ===== src/Packages/Serving/Opens.antt =====
-- When the first call of `get_data_from_file` (project/src/package.c) opens the file.
use bittorrent_implementatio.Prelude.{
  ℕ, ◌+◌, ◌*◌, ◌<◌, ◌≡◌, ◌⊎◌, Bool, true, false, some, List, CString, leb, length,
}
use bittorrent_implementatio.Merkle.{Tree, Chunk}
use bittorrent_implementatio.Pkgchk.{BpkgObj}
use bittorrent_implementatio.Pkgchk.Completed.{block_hex}
use bittorrent_implementatio.Packages.Serving.{computed_at}

-- What the loop finds among the chunks from `n` on.
record Searched (hash : CString) (root : Tree) (n : ℕ) (cs : List Chunk) (found : Bool)
    : Type 0 where
  sound : found ≡ true → (j : ℕ) × (j < length cs) × (computed_at (j + n) root ≡ some hash)
  complete : (j : ℕ) → j < length cs → computed_at (j + n) root ≡ some hash → found ≡ true

-- The file has all of its block `j`, of `size` bytes.
abbrev pub whole : ℕ → List ℕ → ℕ → Bool
whole size content j = leb (size + j * size) (length content)

-- Why the file is opened for a hash: a block that is there has the digest, or one that is not had it
-- computed before.
abbrev pub Justified : ℕ → List ℕ → BpkgObj → CString → ℕ → Type 0
Justified size content b hash j =
    ((whole size content j ≡ true) × (block_hex size content j ≡ hash))
    ⊎ ((whole size content j ≡ false) × (computed_at (j + b.nhashes) b.tree.root ≡ some hash))
