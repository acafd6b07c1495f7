-- ===== src/Main/Loaded.antt =====
-- What the files and the choice of a profile keep within bounds.
use dpitunnel_cli.Prelude.{
  pos, ◌≤ℤ◌, List, [], ◌∷◌, Option, none, some, Bytes, bytes_eq, set_insert, c_str, codes,
  if◌then◌else◌, if_cases,
}
use dpitunnel_cli.Settings.{Profile, Settings}
use dpitunnel_cli.Profiles.{
  Profiles, change_profile, choose, find_match, find_profile, connection_name, default_name,
}
use dpitunnel_cli.Utils.Whitelist.{
  load_whitelist, load_custom_ips, add_lines, add_entry, add_found, entry_of,
}
use dpitunnel_cli.Utils.Wildcard.{wildcard_match}
use dpitunnel_cli.CmdLine.Ranges.{IsInRange, AllInRange}

abbrev pub IsPort : Settings → Type 0
IsPort s = (pos 1 ≤ℤ s.server_port) × (s.server_port ≤ℤ pos 65535)

entry-IsPort : (e : Bytes × Bytes) (s : Settings) → IsPort s → IsPort (add_entry e s)
unfolding add_entry
entry-IsPort (key, value) s h =
    let with_ip : Settings = record s { whitelist_ips = set_insert value s.whitelist_ips } in
    let with_domain : Settings = record s {
      whitelist_domains = set_insert value s.whitelist_domains;
    } in
    let is_domain = bytes_eq key (codes "domain") in
    if_cases IsPort (bytes_eq key (codes "ip")) with_ip (if is_domain then with_domain else s)
      (λ _. h) (λ _. if_cases IsPort is_domain with_domain s (λ _. h) (λ _. h))

found-IsPort : (o : Option (Bytes × Bytes)) (s : Settings) → IsPort s → IsPort (add_found o s)
unfolding add_found
found-IsPort none s h = h
found-IsPort (some e) s h = entry-IsPort e s h

lines-IsPort : (lines : List Bytes) (s : Settings) → IsPort s → IsPort (add_lines lines s)
unfolding add_lines
lines-IsPort [] s h = h
lines-IsPort (line ∷ lines) s h =
    lines-IsPort lines (add_found (entry_of line) s) (found-IsPort (entry_of line) s h)

abbrev pub WhenLoaded : Option Settings → Type 0
WhenLoaded none = Unit
WhenLoaded (some s) = IsPort s

pub whitelist-WhenLoaded :
    (o : Option (List Bytes)) (s : Settings) → IsPort s → WhenLoaded (load_whitelist o s)
unfolding load_whitelist
whitelist-WhenLoaded none s h = tt
whitelist-WhenLoaded (some lines) s h = lines-IsPort lines s h

pub ips-WhenLoaded :
    (o : Option (List Bytes)) (s : Settings) → IsPort s → WhenLoaded (load_custom_ips o s)
unfolding load_custom_ips
ips-WhenLoaded none s h = tt
ips-WhenLoaded (some lines) s h = h

-- A profile that is found is one of those that are stored.
abbrev pub FoundInRange : Option (Bytes × Profile) → Type 0
FoundInRange none = Unit
FoundInRange (some (key, p)) = IsInRange p

abbrev pub SomeInRange : Option Profile → Type 0
SomeInRange none = Unit
SomeInRange (some p) = IsInRange p

abbrev pub ChosenInRange : Option (Option Bytes × Profile) → Type 0
ChosenInRange none = Unit
ChosenInRange (some (name, p)) = IsInRange p

match-InRange : (name : Bytes) (ps : Profiles) → AllInRange ps → FoundInRange (find_match name ps)
unfolding find_match
match-InRange name [] h = tt
match-InRange name ((key, p) ∷ rest) h =
    if_cases FoundInRange (wildcard_match (c_str key) (c_str name)) (some (key, p))
      (find_match name rest) (λ _. h.0) (λ _. match-InRange name rest h.1)

profile-InRange :
    (name : Bytes) (ps : Profiles) → AllInRange ps → SomeInRange (find_profile name ps)
unfolding find_profile
profile-InRange name [] h = tt
profile-InRange name ((key, p) ∷ rest) h =
    if_cases SomeInRange (bytes_eq key name) (some p) (find_profile name rest) (λ _. h.0)
      (λ _. profile-InRange name rest h.1)

choose-InRange :
    (o : Option (Bytes × Profile)) (f : Option Profile)
    → FoundInRange o
    → SomeInRange f
    → ChosenInRange (choose o f)
unfolding choose
choose-InRange (some (key, p)) f h k = h
choose-InRange none (some p) h k = k
choose-InRange none none h k = tt

pub change_profile-InRange :
    (ps : Profiles) (iface wifi_ap : Bytes) (p : Profile)
    → AllInRange ps
    → IsInRange p
    → ChosenInRange (change_profile ps iface wifi_ap p)
unfolding change_profile
change_profile-InRange [] iface wifi_ap p h k = k
change_profile-InRange (q ∷ qs) iface wifi_ap p h k =
    choose-InRange _ _ (match-InRange (connection_name iface wifi_ap) (q ∷ qs) h)
      (profile-InRange default_name (q ∷ qs) h)
