-- ===== src/Config/Tests.antt =====
-- A configuration file, and instances of the theorems on it.
use bittorrent_implementatio.Prelude.{◌≡◌, refl, Bool, false, some, [], ◌∷◌, CString, str_eq, arith}
use bittorrent_implementatio.Strings.{is_any_space, isspace}
use bittorrent_implementatio.Strings.Lines.{all_word-IsWord}
use bittorrent_implementatio.Pkgchk.{Files}
use bittorrent_implementatio.Config.{Config, Dirs, goes_on, config_load}
use bittorrent_implementatio.Config.Range.{InRange, config_load-InRange}
use bittorrent_implementatio.Config.RoundTrip.{print_config, config_load-print}

abbrev here : CString
here = 46 ∷ []

abbrev known : Dirs
known name = str_eq name here

abbrev nothing_made : CString → Bool
nothing_made name = false

abbrev two_peers : Files
two_peers name = some (print_config here 2 9000)

abbrev small_config : Config
small_config = record { directory = some here; max_peers = some 2; port = some 9000 }

two_peers_loaded : config_load nothing_made two_peers known [] ≡ some (goes_on small_config known)
unfolding is_any_space isspace str_eq
two_peers_loaded =
    config_load-print nothing_made known here 2 9000 (omega arith) (omega arith)
      (all_word-IsWord here refl) (omega arith) two_peers [] refl

config_load-InRange_example : InRange small_config
config_load-InRange_example =
    config_load-InRange nothing_made two_peers known known [] small_config two_peers_loaded
