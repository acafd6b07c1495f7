-- ===== src/Utils/Whitelist/Firsts.antt =====
-- The custom IPs after a file of them has been read, line by line.
use dpitunnel_cli.Prelude.{◌≡◌, refl, ap, arith}
use dpitunnel_cli.Prelude.{
  List, [], ◌∷◌, Option, none, some, Bytes, not, ◌&&◌, is_empty, bytes_eq, map_find, Option-cases,
  if◌then◌else◌,
}
use dpitunnel_cli.Prelude.TextLaws.{bytes_eq_iff}
use dpitunnel_cli.Settings.{Settings}
use dpitunnel_cli.Utils.Whitelist.{entry_of}
use dpitunnel_cli.Utils.Whitelist.{insert_new, custom_ip_found}
use dpitunnel_cli.Utils.Whitelist.{add_custom_ip, add_custom_ips, load_custom_ips}

abbrev pub or_else : Option Bytes → Option Bytes → Option Bytes
or_else none o = o
or_else (some v) o = some v

or_else-none : (o : Option Bytes) → o ≡ or_else o none
or_else-none none = refl
or_else-none (some v) = refl

-- The address that an entry gives to the domain, if neither of its parts is empty.
abbrev pub listed_for : Bytes → Option (Bytes × Bytes) → Option Bytes
listed_for d none = none
listed_for d (some (k, v)) =
    if bytes_eq k d then (if not (is_empty k) && not (is_empty v) then some v else none) else none

-- The first line with an address for the domain.
abbrev pub first_listed : Bytes → List Bytes → Option Bytes
first_listed d [] = none
first_listed d (line ∷ lines) = or_else (listed_for d (entry_of line)) (first_listed d lines)

map_find-insert_new :
    (k v d : Bytes) (m : List (Bytes × Bytes))
    → map_find d (insert_new (k, v) m)
      ≡ or_else (map_find d m) (if bytes_eq k d then some v else none)
unfolding insert_new map_find
map_find-insert_new k v d m = ground (arith, bytes_eq_iff k d, Option-cases (map_find d m))

map_find-found :
    (o : Option (Bytes × Bytes)) (m : List (Bytes × Bytes)) (d : Bytes)
    → map_find d (custom_ip_found o m) ≡ or_else (map_find d m) (listed_for d o)
unfolding custom_ip_found add_custom_ip
map_find-found none m d = or_else-none (map_find d m)
map_find-found (some (k, v)) m d = ground (arith, map_find-insert_new k v d m)

map_find-lines :
    (lines : List Bytes) (m : List (Bytes × Bytes)) (d : Bytes)
    → map_find d (add_custom_ips lines m) ≡ or_else (map_find d m) (first_listed d lines)
unfolding add_custom_ips
map_find-lines [] m d = or_else-none (map_find d m)
map_find-lines (line ∷ lines) m d = ground (
  arith,
  map_find-lines lines (custom_ip_found (entry_of line) m) d,
  map_find-found (entry_of line) m d,
)

ips_of : Option Settings → Settings → List (Bytes × Bytes)
ips_of none s = s.custom_ips
ips_of (some t) s = t.custom_ips

pub map_find-load :
    (lines : List Bytes) (s t : Settings) (d : Bytes)
    → load_custom_ips (some lines) s ≡ some t
    → map_find d t.custom_ips ≡ or_else (map_find d s.custom_ips) (first_listed d lines)
unfolding load_custom_ips ips_of
map_find-load lines s t d e =
    let r : add_custom_ips lines s.custom_ips ≡ t.custom_ips =
      ap (λ (o : Option Settings). ips_of o s) e in
    rw (← r) (map_find-lines lines s.custom_ips d)
