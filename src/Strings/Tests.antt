-- ===== src/Strings/Tests.antt =====
-- Instances of the theorems on strings.
use bittorrent_implementatio.Prelude.{◌≡◌, refl, [], ◌∷◌, ◌++◌, CString}
use bittorrent_implementatio.Strings.{strip_whitespace, skip_space, cut_space}
use bittorrent_implementatio.Strings.Laws.{Spaces, NoneFirst, NoneLast, strip_whitespace-split}

-- " a b "
abbrev padded : CString
padded = 32 ∷ 97 ∷ 32 ∷ 98 ∷ 10 ∷ []

stripped : strip_whitespace padded ≡ 97 ∷ 32 ∷ 98 ∷ []
unfolding strip_whitespace skip_space cut_space
stripped = refl

strip_whitespace-split_example :
    (lead trail : CString) × (padded ≡ lead ++ (strip_whitespace padded ++ trail))
    × Spaces lead
    × Spaces trail
    × NoneFirst (strip_whitespace padded)
    × NoneLast (strip_whitespace padded)
strip_whitespace-split_example = strip_whitespace-split padded
