-- ===== src/CmdLine.antt =====
-- `parse_cmdline` of dpitunnel-cli.cpp. What `getopt_long_only` finds is a list of options with
-- their arguments; an option without an argument has the empty text.
pub mod Numbers
pub mod Ranges
pub mod Bounds
use dpitunnel_cli.Prelude.{
  ℕ, zero, suc, ◌+◌, ◌^◌, ℤ, pos, negsuc, to_unsigned, Bool, true, false, ◌||◌, List, [], ◌∷◌,
}
use dpitunnel_cli.Prelude.{
  Option, none, some, Bytes, is_empty, bytes_eq, ltb, ltb_ℤ, ◌==◌, if◌then◌else◌,
}
use dpitunnel_cli.Settings.{
  Profile, Settings, default_profile, default_settings, zero_attacks_names, first_attacks_names,
  proxy_mode_names,
}
use dpitunnel_cli.Settings.{
  desync_zero_fake, desync_zero_rst, desync_zero_rstack, desync_first_disorder,
}
use dpitunnel_cli.Settings.{
  desync_first_disorder_fake, desync_first_split, desync_first_split_fake, mode_proxy,
  mode_transparent,
}
use dpitunnel_cli.Profiles.{Profiles, add_profile}
use Numbers.{atoi, to_short, split_on, tokens}

-- The table of options, in its order.
pub data LongOption : Type 0 where
  ip port buffer_size split_position ttl doh doh_server ca_bundle_path split_at_sni : LongOption
  desync_attacks auto help daemon wsize wsfactor profile builtin_dns builtin_dns_ip : LongOption
  builtin_dns_port pid min_ttl auto_ttl wrong_seq mode whitelist custom_ips : LongOption

-- One result of `getopt_long_only`; `unknown` is a result that is not 0.
pub data Parsed : Type 0 where
  opt : LongOption → Bytes → Parsed
  unknown : Parsed

-- The variables of the loop and the globals that it changes.
pub record State : Type 0 where
  pub settings : Settings
  pub profiles : Profiles
  pub curr_profile_name : Bytes
  pub current : Profile
  pub global : Profile

-- The return codes 0 and -1; -2 after `run_autoconf`.
pub data Result : Type 0 where
  parsed : State → Result
  invalid autoconf : Result

-- `if (bad) { ...; return -1; }`, else on with the state.
unfoldable pub unless : Bool → State → Result
unless true s = invalid
unless false s = parsed s

-- One name of `--desync-attacks`.
unfoldable pub attack_named : Bytes → Profile → Option Profile
unfolding bytes_eq zero_attacks_names first_attacks_names
attack_named p r =
    if bytes_eq p (zero_attacks_names desync_zero_fake)
    then some (record r { desync_zero_attack = desync_zero_fake })
    else if bytes_eq p (zero_attacks_names desync_zero_rst)
    then some (record r { desync_zero_attack = desync_zero_rst })
    else if bytes_eq p (zero_attacks_names desync_zero_rstack)
    then some (record r { desync_zero_attack = desync_zero_rstack })
    else if bytes_eq p (first_attacks_names desync_first_disorder)
    then some (record r { desync_first_attack = desync_first_disorder })
    else if bytes_eq p (first_attacks_names desync_first_disorder_fake)
    then some (record r { desync_first_attack = desync_first_disorder_fake })
    else if bytes_eq p (first_attacks_names desync_first_split)
    then some (record r { desync_first_attack = desync_first_split })
    else if bytes_eq p (first_attacks_names desync_first_split_fake)
    then some (record r { desync_first_attack = desync_first_split_fake })
    else none

unfoldable pub attacks_named : List Bytes → Profile → Option Profile
unfolding attack_named
attacks_named [] r = some r
attacks_named (p ∷ ps) r = elim (attack_named p r) [ none ↦ none | some r' ↦ attacks_named ps r' ]

-- `--auto-ttl=a1-a2-max`: three tokens, and `min_ttl` where it is not set.
unfoldable pub set_auto_ttl : List Bytes → Profile → Option Profile
set_auto_ttl (a1 ∷ a2 ∷ top ∷ []) r = some (record r {
  auto_ttl = true;
  auto_ttl_a1 = to_unsigned (2 ^ 16) (atoi a1);
  auto_ttl_a2 = to_unsigned (2 ^ 16) (atoi a2);
  auto_ttl_max = to_unsigned (2 ^ 16) (atoi top);
  min_ttl = if r.min_ttl == 0 then 3 else r.min_ttl;
})
set_auto_ttl _ r = none

-- The profile of an option that may fail.
unfoldable pub with_profile : Option Profile → State → Result
with_profile none s = invalid
with_profile (some r) s = parsed (record s { current = r })

-- The profile so far goes to the map where it has a name.
unfoldable pub store_current : State → State
unfolding is_empty
store_current s =
    if is_empty (s.curr_profile_name)
    then s
    else record s { profiles = add_profile (s.curr_profile_name) (s.current) (s.profiles) }

unfoldable pub set_mode : Bytes → State → Result
unfolding bytes_eq proxy_mode_names
set_mode arg s =
    if bytes_eq arg (proxy_mode_names mode_proxy)
    then parsed (record s { settings = record (s.settings) { proxy_mode = mode_proxy } })
    else if bytes_eq arg (proxy_mode_names mode_transparent)
    then parsed (record s { settings = record (s.settings) { proxy_mode = mode_transparent } })
    else invalid

-- A value that is outside of `low` and `high`.
unfoldable pub outside : ℕ → ℕ → ℕ → Bool
outside low high n = ltb n low || ltb high n

unfoldable pub outside_ℤ : ℤ → ℤ → ℤ → Bool
outside_ℤ low high n = ltb_ℤ n low || ltb_ℤ high n

-- The ends of the numeric options; each converts to the type of its field before the test.
unfoldable pub set_port : ℤ → State → Result
unfolding outside_ℤ
set_port n s =
    unless (outside_ℤ (pos 1) (pos 65535) n)
      (record s { settings = record (s.settings) { server_port = n } })

unfoldable pub set_buffer_size : ℕ → State → Result
unfolding outside
set_buffer_size n s =
    unless (outside 128 65535 n) (record s { current = record (s.current) { buffer_size = n } })

unfoldable pub set_split_position : ℕ → State → Result
set_split_position n s =
    unless (ltb 65535 n) (record s { current = record (s.current) { split_position = n } })

unfoldable pub set_ttl : ℕ → State → Result
unfolding outside
set_ttl n s =
    unless (outside 1 255 n) (record s { current = record (s.current) { fake_packets_ttl = n } })

unfoldable pub set_wsize : ℕ → State → Result
unfolding outside
set_wsize n s =
    unless (outside 1 65535 n) (record s { current = record (s.current) { window_size = n } })

unfoldable pub set_wsfactor : ℤ → State → Result
unfolding outside_ℤ
set_wsfactor n s =
    unless (outside_ℤ (pos 0) (pos 14) n)
      (record s { current = record (s.current) { window_scale_factor = n } })

unfoldable pub set_dns_port : ℤ → State → Result
unfolding outside_ℤ
set_dns_port n s =
    unless (outside_ℤ (pos 1) (pos 65535) n)
      (record s { current = record (s.current) { builtin_dns_port = n } })

unfoldable pub set_min_ttl : ℕ → State → Result
unfolding outside
set_min_ttl n s =
    unless (outside 1 255 n) (record s { current = record (s.current) { min_ttl = n } })

-- One turn of the loop: the `switch`.
unfoldable pub apply_option : LongOption → Bytes → State → Result
apply_option ip arg s =
    parsed (record s { settings = record (s.settings) { server_address = arg } })
apply_option port arg s = set_port (atoi arg) s
apply_option buffer_size arg s = set_buffer_size (to_unsigned (2 ^ 32) (atoi arg)) s
apply_option split_position arg s = set_split_position (to_unsigned (2 ^ 32) (atoi arg)) s
apply_option ttl arg s = set_ttl (to_unsigned (2 ^ 16) (atoi arg)) s
apply_option doh arg s = parsed (record s { current = record (s.current) { doh = true } })
apply_option doh_server arg s =
    parsed (record s { current = record (s.current) { doh_server = arg } })
apply_option ca_bundle_path arg s =
    parsed (record s { settings = record (s.settings) { ca_bundle_path = arg } })
apply_option split_at_sni arg s =
    parsed (record s { current = record (s.current) { split_at_sni = true } })
apply_option desync_attacks arg s =
    with_profile (attacks_named (split_on b',' arg) (record (s.current) { desync_attacks = true }))
      s
apply_option auto arg s = autoconf
apply_option help arg s = invalid
apply_option daemon arg s = parsed (record s { settings = record (s.settings) { daemon = true } })
apply_option wsize arg s = set_wsize (to_unsigned (2 ^ 16) (atoi arg)) s
apply_option wsfactor arg s = set_wsfactor (to_short (atoi arg)) s
apply_option profile arg s =
    parsed (record (store_current s) { curr_profile_name = arg; current = default_profile })
apply_option builtin_dns arg s =
    parsed (record s { current = record (s.current) { builtin_dns = true } })
apply_option builtin_dns_ip arg s =
    parsed (record s { current = record (s.current) { builtin_dns_ip = arg } })
apply_option builtin_dns_port arg s = set_dns_port (atoi arg) s
apply_option pid arg s = parsed (record s { settings = record (s.settings) { pid_file = arg } })
apply_option min_ttl arg s = set_min_ttl (to_unsigned (2 ^ 16) (atoi arg)) s
apply_option auto_ttl arg s = with_profile (set_auto_ttl (tokens b'-' arg) (s.current)) s
apply_option wrong_seq arg s =
    parsed (record s { current = record (s.current) { wrong_seq = true } })
apply_option mode arg s = set_mode arg s
apply_option whitelist arg s =
    parsed (record s { settings = record (s.settings) { whitelist_path = arg } })
apply_option custom_ips arg s =
    parsed (record s { settings = record (s.settings) { custom_ips_path = arg } })

-- After the loop: the last profile goes to the map, or becomes the current one.
unfoldable pub finish : State → State
unfolding is_empty
finish s =
    if is_empty (s.curr_profile_name) then record s { global = s.current } else store_current s

unfoldable pub options_loop : List Parsed → State → Result
options_loop [] s = parsed (finish s)
options_loop (unknown ∷ rest) s = invalid
options_loop (opt o arg ∷ rest) s = elim (apply_option o arg s) [
  | parsed s' ↦ options_loop rest s'
  | invalid ↦ invalid
  | autoconf ↦ autoconf
]

abbrev pub start : State
start = record {
  settings = default_settings;
  profiles = [];
  curr_profile_name = [];
  current = default_profile;
  global = default_profile;
}

unfoldable pub parse_cmdline : List Parsed → Result
parse_cmdline args = options_loop args start
