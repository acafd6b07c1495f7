-- ===== src/CmdLine/Bounds.antt =====
-- The numbers of the profiles and of the settings that the command line leaves.
use dpitunnel_cli.Prelude.{refl, arith, List, [], ◌∷◌}
use dpitunnel_cli.Prelude.{Option, none, some, Bytes, is_empty, bytes_eq, bytes_lt, if_cases}
use dpitunnel_cli.Settings.{
  Profile, default_profile, mode_proxy, mode_transparent, proxy_mode_names,
}
use dpitunnel_cli.Profiles.{Profiles, add_profile}
use dpitunnel_cli.CmdLine.{
  State, Result, parsed, invalid, autoconf, attack_named, attacks_named, set_auto_ttl,
}
use dpitunnel_cli.CmdLine.{with_profile, store_current, set_mode}
use dpitunnel_cli.CmdLine.{
  Parsed, unknown, opt, apply_option, finish, options_loop, start, parse_cmdline,
}
use dpitunnel_cli.CmdLine.{
  LongOption, ip, port, buffer_size, split_position, ttl, doh, doh_server, ca_bundle_path,
  split_at_sni,
}
use dpitunnel_cli.CmdLine.{
  desync_attacks, auto, help, daemon, wsize, wsfactor, profile, builtin_dns, builtin_dns_ip,
}
use dpitunnel_cli.CmdLine.{
  builtin_dns_port, pid, min_ttl, auto_ttl, wrong_seq, mode, whitelist, custom_ips,
}
use dpitunnel_cli.CmdLine.Ranges.{
  IsInRange, AllInRange, IsValid, WhenParsed, default-IsInRange, with_current, with_settings,
  set_buffer_size-IsValid, set_wsfactor-IsValid, set_split_position-IsValid, set_ttl-IsValid,
  set_wsize-IsValid, set_min_ttl-IsValid, set_dns_port-IsValid, set_port-IsValid,
}

abbrev pub WhenSome : (Profile → Type 0) → Option Profile → Type 0
WhenSome P none = Unit
WhenSome P (some q) = P q

attack_named-IsInRange :
    (p : Bytes) (r : Profile) → IsInRange r → WhenSome IsInRange (attack_named p r)
unfolding attack_named
attack_named-IsInRange p r h = ground arith

-- On with the profile, where there is one.
WhenSome-elim :
    (P : Profile → Type 0) (o : Option Profile) (f : Profile → Option Profile)
    → WhenSome P o
    → ((q : Profile) → P q → WhenSome P (f q))
    → WhenSome P (elim o [ none ↦ none | some q ↦ f q ])
WhenSome-elim P none f h k = tt
WhenSome-elim P (some q) f h k = k q h

attacks_named-IsInRange :
    (ps : List Bytes) (r : Profile) → IsInRange r → WhenSome IsInRange (attacks_named ps r)
unfolding attacks_named
attacks_named-IsInRange [] r h = h
attacks_named-IsInRange (p ∷ ps) r h =
    WhenSome-elim IsInRange (attack_named p r) (attacks_named ps) (attack_named-IsInRange p r h)
      (λ q. attacks_named-IsInRange ps q)

set_auto_ttl-IsInRange :
    (ts : List Bytes) (r : Profile) → IsInRange r → WhenSome IsInRange (set_auto_ttl ts r)
unfolding set_auto_ttl
set_auto_ttl-IsInRange [] r h = tt
set_auto_ttl-IsInRange (a ∷ []) r h = tt
set_auto_ttl-IsInRange (a ∷ b ∷ []) r h = tt
set_auto_ttl-IsInRange (a ∷ b ∷ c ∷ []) r h = ground arith
set_auto_ttl-IsInRange (a ∷ b ∷ c ∷ d ∷ ts) r h = tt

with_profile-IsValid :
    (o : Option Profile) (s : State)
    → IsValid s
    → WhenSome IsInRange o
    → WhenParsed IsValid (with_profile o s)
unfolding with_profile
with_profile-IsValid none s v h = tt
with_profile-IsValid (some r) s v h = with_current v r h

set_mode-IsValid : (arg : Bytes) (s : State) → IsValid s → WhenParsed IsValid (set_mode arg s)
unfolding set_mode
set_mode-IsValid arg s v =
    if_cases (WhenParsed IsValid) (bytes_eq arg (proxy_mode_names mode_proxy)) _ _
      (λ e. with_settings v _ refl)
      (λ e.
        if_cases (WhenParsed IsValid) (bytes_eq arg (proxy_mode_names mode_transparent)) _ _
          (λ e'. with_settings v _ refl) (λ e'. tt))

add_profile-AllInRange :
    (k : Bytes) (r : Profile) (m : Profiles)
    → IsInRange r
    → AllInRange m
    → AllInRange (add_profile k r m)
unfolding add_profile
add_profile-AllInRange k r [] h a = (h, tt)
add_profile-AllInRange k r ((key, q) ∷ m) h (first, a) =
    if_cases AllInRange (bytes_eq k key) _ _ (λ e. (h, a))
      (λ e.
        if_cases AllInRange (bytes_lt k key) _ _ (λ e'. (h, (first, a)))
          (λ e'. (first, add_profile-AllInRange k r m h a)))

store_current-IsValid : (s : State) → IsValid s → IsValid (store_current s)
unfolding store_current
store_current-IsValid s v =
    if_cases IsValid (is_empty (s.curr_profile_name)) _ _ (λ e. v)
      (λ e. record {
        port_low = v.port_low;
        port_high = v.port_high;
        stored =
            add_profile-AllInRange (s.curr_profile_name) (s.current) (s.profiles) v.active v.stored;
        active = v.active;
        chosen = v.chosen;
      })

finish-IsValid : (s : State) → IsValid s → IsValid (finish s)
unfolding finish
finish-IsValid s v =
    if_cases IsValid (is_empty (s.curr_profile_name)) _ _
      (λ e. record {
        port_low = v.port_low;
        port_high = v.port_high;
        stored = v.stored;
        active = v.active;
        chosen = v.active;
      })
      (λ e. store_current-IsValid s v)

with_name :
    {s : State}
    → IsValid s
    → (arg : Bytes) → IsValid (record s { curr_profile_name = arg; current = default_profile })
with_name v arg = record {
  port_low = v.port_low;
  port_high = v.port_high;
  stored = v.stored;
  active = default-IsInRange;
  chosen = v.chosen;
}

-- Every option keeps the numbers in their ranges, or it is refused.
pub apply_option-IsValid :
    (o : LongOption) (arg : Bytes) (s : State)
    → IsValid s
    → WhenParsed IsValid (apply_option o arg s)
unfolding apply_option
apply_option-IsValid ip arg s v = with_settings v _ refl
apply_option-IsValid port arg s v = set_port-IsValid _ s v
apply_option-IsValid buffer_size arg s v = set_buffer_size-IsValid _ s v
apply_option-IsValid split_position arg s v = set_split_position-IsValid _ s v
apply_option-IsValid ttl arg s v = set_ttl-IsValid _ s v
apply_option-IsValid doh arg s v = with_current v _ v.active
apply_option-IsValid doh_server arg s v = with_current v _ v.active
apply_option-IsValid ca_bundle_path arg s v = with_settings v _ refl
apply_option-IsValid split_at_sni arg s v = with_current v _ v.active
apply_option-IsValid desync_attacks arg s v =
    with_profile-IsValid _ s v (attacks_named-IsInRange _ _ v.active)
apply_option-IsValid auto arg s v = tt
apply_option-IsValid help arg s v = tt
apply_option-IsValid daemon arg s v = with_settings v _ refl
apply_option-IsValid wsize arg s v = set_wsize-IsValid _ s v
apply_option-IsValid wsfactor arg s v = set_wsfactor-IsValid _ s v
apply_option-IsValid profile arg s v = with_name (store_current-IsValid s v) arg
apply_option-IsValid builtin_dns arg s v = with_current v _ v.active
apply_option-IsValid builtin_dns_ip arg s v = with_current v _ v.active
apply_option-IsValid builtin_dns_port arg s v = set_dns_port-IsValid _ s v
apply_option-IsValid pid arg s v = with_settings v _ refl
apply_option-IsValid min_ttl arg s v = set_min_ttl-IsValid _ s v
apply_option-IsValid auto_ttl arg s v =
    with_profile-IsValid _ s v (set_auto_ttl-IsInRange _ _ v.active)
apply_option-IsValid wrong_seq arg s v = with_current v _ v.active
apply_option-IsValid mode arg s v = set_mode-IsValid arg s v
apply_option-IsValid whitelist arg s v = with_settings v _ refl
apply_option-IsValid custom_ips arg s v = with_settings v _ refl

WhenParsed-elim :
    (P : State → Type 0) (r : Result) (f : State → Result)
    → WhenParsed P r
    → ((s : State) → P s → WhenParsed P (f s))
    → WhenParsed P (elim r [ parsed s' ↦ f s' | invalid ↦ invalid | autoconf ↦ autoconf ])
WhenParsed-elim P (parsed s) f h k = k s h
WhenParsed-elim P invalid f h k = tt
WhenParsed-elim P autoconf f h k = tt

options_loop-IsValid :
    (args : List Parsed) (s : State) → IsValid s → WhenParsed IsValid (options_loop args s)
unfolding options_loop
options_loop-IsValid [] s v = finish-IsValid s v
options_loop-IsValid (unknown ∷ rest) s v = tt
options_loop-IsValid (opt o arg ∷ rest) s v =
    WhenParsed-elim IsValid (apply_option o arg s) (options_loop rest)
      (apply_option-IsValid o arg s v) (λ s'. options_loop-IsValid rest s')

start-IsValid : IsValid start
start-IsValid = record {
  port_low = omega arith;
  port_high = omega arith;
  stored = tt;
  active = default-IsInRange;
  chosen = default-IsInRange;
}

-- Whatever the options are, a command line that `parse_cmdline` accepts leaves a server port
-- between 1 and 65535, and its numbers in range in every profile, stored or current.
pub parse_cmdline-IsValid : (args : List Parsed) → WhenParsed IsValid (parse_cmdline args)
unfolding parse_cmdline
parse_cmdline-IsValid args = options_loop-IsValid args start start-IsValid
