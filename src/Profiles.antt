-- ===== src/Profiles.antt =====
-- profiles.cpp: the map from names to profiles, in the order of the keys as `std::map` keeps it.
pub mod Laws
use dpitunnel_cli.Prelude.{Bool, true, false, ◌++◌, List, [], ◌∷◌, Option, none, some, Bytes, codes}
use dpitunnel_cli.Prelude.{is_empty, bytes_eq, bytes_lt, c_str, if◌then◌else◌}
use dpitunnel_cli.Settings.{Profile}
use dpitunnel_cli.Utils.Wildcard.{wildcard_match}

abbrev pub Profiles : Type 0
Profiles = List (Bytes × Profile)

-- `Profiles[name] = profile`
unfoldable pub add_profile : Bytes → Profile → Profiles → Profiles
add_profile name profile [] = (name, profile) ∷ []
add_profile name profile ((key, old) ∷ rest) =
    let later = (key, old) ∷ add_profile name profile rest in
    if bytes_eq name key
    then (name, profile) ∷ rest
    else if bytes_lt name key
    then (name, profile) ∷ (key, old) ∷ rest
    else later

unfoldable pub find_profile : Bytes → Profiles → Option Profile
find_profile name [] = none
find_profile name ((key, profile) ∷ rest) =
    if bytes_eq key name then some profile else find_profile name rest

-- The text that the keys are matched with: the interface, with the access point if there is one.
unfoldable pub connection_name : Bytes → Bytes → Bytes
connection_name iface wifi_ap = iface ++ (if is_empty wifi_ap then [] else b':' ∷ wifi_ap)

-- `find_if` over the map.
unfoldable pub find_match : Bytes → Profiles → Option (Bytes × Profile)
find_match name [] = none
find_match name ((key, profile) ∷ rest) =
    if wildcard_match (c_str key) (c_str name) then some (key, profile) else find_match name rest

abbrev pub default_name : Bytes
default_name = codes "default"

-- The match, else the default, else -1.
unfoldable pub choose : Option (Bytes × Profile) → Option Profile → Option (Option Bytes × Profile)
choose (some (key, profile)) fallback = some (some key, profile)
choose none (some profile) = some (some default_name, profile)
choose none none = none

-- `none` is the -1. Without profiles the current one stays and no name is chosen.
unfoldable pub change_profile : Profiles → Bytes → Bytes → Profile → Option (Option Bytes × Profile)
unfolding choose
change_profile [] iface wifi_ap current = some (none, current)
change_profile (p ∷ ps) iface wifi_ap current =
    choose (find_match (connection_name iface wifi_ap) (p ∷ ps))
      (find_profile default_name (p ∷ ps))
