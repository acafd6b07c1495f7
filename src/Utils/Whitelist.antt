-- ===== src/Utils/Whitelist.antt =====
-- The whitelist and the custom IPs of utils.cpp. A file is the list of its lines, or `none` where it
-- cannot be opened.
mod Lines
pub mod Firsts
pub mod Laws
use dpitunnel_cli.Prelude.{
  ℕ, suc, ◌+◌, Bool, List, [], ◌∷◌, Option, none, some, drop, take, ◌&&◌, not, Bytes,
}
use dpitunnel_cli.Prelude.{
  codes, is_empty, bytes_eq, find_byte, contains, set_insert, map_find, if◌then◌else◌,
}
use dpitunnel_cli.Settings.{Settings}

-- The key and value of a line, at its first space; a line without one is passed over.
unfoldable pub entry_of : Bytes → Option (Bytes × Bytes)
entry_of input = elim (find_byte b' ' input) [
  | none ↦ none
  | some at ↦ some (take at input, drop (at + 1) input)
]

-- One line of the whitelist.
unfoldable pub add_entry : Bytes × Bytes → Settings → Settings
add_entry (key, value) s =
    if bytes_eq key (codes "ip")
    then record s { whitelist_ips = set_insert value s.whitelist_ips }
    else if bytes_eq key (codes "domain")
    then record s { whitelist_domains = set_insert value s.whitelist_domains }
    else s

unfoldable pub add_found : Option (Bytes × Bytes) → Settings → Settings
add_found none s = s
add_found (some entry) s = add_entry entry s

unfoldable pub add_lines : List Bytes → Settings → Settings
add_lines [] s = s
add_lines (line ∷ lines) s = add_lines lines (add_found (entry_of line) s)

-- `none` is the -1 for a file that is not there.
unfoldable pub load_whitelist : Option (List Bytes) → Settings → Option Settings
load_whitelist none s = none
load_whitelist (some lines) s = some (add_lines lines s)

unfoldable pub match_whitelist_domain : Settings → Bytes → Bool
match_whitelist_domain s domain = contains s.whitelist_domains domain

unfoldable pub match_whitelist_ip : Settings → Bytes → Bool
match_whitelist_ip s ip = contains s.whitelist_ips ip

-- `insert` of a map keeps the value of a key that is there, so that the first one counts.
unfoldable pub insert_new : Bytes × Bytes → List (Bytes × Bytes) → List (Bytes × Bytes)
insert_new (key, value) m = elim (map_find key m) [ none ↦ (key, value) ∷ m | some old ↦ m ]

unfoldable pub add_custom_ip : Bytes × Bytes → List (Bytes × Bytes) → List (Bytes × Bytes)
add_custom_ip (key, value) m =
    if not (is_empty key) && not (is_empty value) then insert_new (key, value) m else m

unfoldable pub custom_ip_found :
    Option (Bytes × Bytes) → List (Bytes × Bytes) → List (Bytes × Bytes)
custom_ip_found none m = m
custom_ip_found (some entry) m = add_custom_ip entry m

unfoldable pub add_custom_ips : List Bytes → List (Bytes × Bytes) → List (Bytes × Bytes)
add_custom_ips [] m = m
add_custom_ips (line ∷ lines) m = add_custom_ips lines (custom_ip_found (entry_of line) m)

unfoldable pub load_custom_ips : Option (List Bytes) → Settings → Option Settings
load_custom_ips none s = none
load_custom_ips (some lines) s = some (record s { custom_ips = add_custom_ips lines s.custom_ips })

-- The empty text where the domain has no entry.
unfoldable pub find_custom_ip : Settings → Bytes → Bytes
find_custom_ip s domain = elim (map_find domain s.custom_ips) [ none ↦ [] | some ip ↦ ip ]
