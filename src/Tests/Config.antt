-- ===== src/Tests/Config.antt =====
-- A command line, the profiles it leaves, and the lists that are loaded from files.
use dpitunnel_cli.Prelude.{
  ◌≡◌, refl, true, some, map_find, Bytes, codes, [], ◌∷◌, if◌then◌else◌, bytes_eq, to_unsigned,
  List, ◌⊎◌, ◌↔◌,
}
use dpitunnel_cli.Settings.{Profile, default_profile, default_settings}
use dpitunnel_cli.Profiles.{Profiles, add_profile, find_profile, change_profile, connection_name}
use dpitunnel_cli.Profiles.Laws.{Chosen, change_profile-Chosen, find_profile-add}
use dpitunnel_cli.Utils.Whitelist.{
  load_whitelist, load_custom_ips, match_whitelist_domain, match_whitelist_ip, add_lines,
  add_custom_ips,
}
use dpitunnel_cli.Utils.Whitelist.Laws.{Listed, load_whitelist_iff, IsFound, load_custom_ips_lem}
use dpitunnel_cli.CmdLine.{
  Parsed, opt, port, ttl, profile, buffer_size, invalid, options_loop, apply_option,
  set_buffer_size, unless, parse_cmdline,
}
use dpitunnel_cli.CmdLine.Numbers.{atoi}
use dpitunnel_cli.CmdLine.Bounds.{parse_cmdline-IsValid}
use dpitunnel_cli.CmdLine.Ranges.{WhenParsed, IsValid}

abbrev pub command_line : List Parsed
command_line =
    opt port (codes "8081")
    ∷ opt profile (codes "wlan0")
    ∷ opt buffer_size (codes "1024")
    ∷ opt profile (codes "default")
    ∷ opt ttl (codes "7")
    ∷ []

parse_cmdline-IsValid_example : WhenParsed IsValid (parse_cmdline command_line)
parse_cmdline-IsValid_example = parse_cmdline-IsValid command_line

-- A value that is too small is refused.
small_buffer : parse_cmdline (opt buffer_size (codes "100") ∷ []) ≡ invalid
unfolding parse_cmdline options_loop apply_option set_buffer_size unless to_unsigned atoi
small_buffer = refl

abbrev faster : Profile
faster = record default_profile { buffer_size = 4096 }

abbrev profiles : Profiles
profiles = (codes "default", default_profile) ∷ (codes "wlan?", faster) ∷ []

change_profile-Chosen_example :
    Chosen profiles
      (connection_name (codes "wlan0") [])
      faster
      (change_profile profiles (codes "wlan0") [] faster)
change_profile-Chosen_example = change_profile-Chosen profiles (codes "wlan0") [] faster

find_profile-add_example :
    find_profile (codes "eth0") (add_profile (codes "eth0") faster profiles) ≡ (
      if bytes_eq (codes "eth0") (codes "eth0")
      then some faster
      else find_profile (codes "eth0") profiles)
find_profile-add_example = find_profile-add (codes "eth0") (codes "eth0") faster profiles

abbrev lines : List Bytes
lines = codes "ip 192.0.2.0" ∷ codes "domain a.org" ∷ codes "remark" ∷ []

load_whitelist_iff_example :
    ((match_whitelist_domain (add_lines lines default_settings) (codes "a.org") ≡ true) ↔ (
      Listed (codes "domain") (codes "a.org") lines
      ⊎ (match_whitelist_domain default_settings (codes "a.org") ≡ true)))
    × ((match_whitelist_ip (add_lines lines default_settings) (codes "a.org") ≡ true) ↔ (
        Listed (codes "ip") (codes "a.org") lines
        ⊎ (match_whitelist_ip default_settings (codes "a.org") ≡ true)))
unfolding load_whitelist
load_whitelist_iff_example =
    load_whitelist_iff lines default_settings (add_lines lines default_settings) (codes "a.org")
      refl

abbrev ip_lines : List Bytes
ip_lines = codes "a.org 192.0.2.1" ∷ codes "a.org 192.0.2.2" ∷ []

load_custom_ips_lem_example :
    IsFound
      (codes "a.org")
      (map_find (codes "a.org") [])
      ip_lines
      (map_find (codes "a.org") (add_custom_ips ip_lines []))
unfolding load_custom_ips
load_custom_ips_lem_example =
    load_custom_ips_lem ip_lines default_settings
      (record default_settings { custom_ips = add_custom_ips ip_lines [] }) (codes "a.org") refl
