-- ===== src/Main.antt =====
-- `main` of dpitunnel-cli.cpp up to the loop that accepts clients, with `daemonize` of utils.cpp.
mod Loaded
pub mod Ready
use dpitunnel_cli.Prelude.{
  ℕ, ℤ, pos, negsuc, Bool, true, false, not, List, [], ◌∷◌, Option, none, some, Bytes, is_empty,
  ◌==◌, if◌then◌else◌,
}
use dpitunnel_cli.Prelude.Outcome.{Outcome, done, ◌>>=◌}
use dpitunnel_cli.Settings.{Profile, Settings}
use dpitunnel_cli.Profiles.{Profiles, change_profile}
use dpitunnel_cli.Utils.Whitelist.{load_whitelist, load_custom_ips}
use dpitunnel_cli.CmdLine.{State, Result, parsed, invalid, autoconf, Parsed, parse_cmdline}
use dpitunnel_cli.Netiface.{IfAddr, get_current_iface_name, Netlink, get_current_wifi_name}

-- What `fork` answers to its caller: -1, the number of the child, or 0 in the child.
pub data Fork : Type 0 where
  fork_failed is_parent is_child : Fork

-- What the calls answer: the lines of the two files, the interfaces and access points, the CA bundle
-- and the server socket.
pub record World : Type 0 where
  pub whitelist : Option (List Bytes)
  pub custom_ips : Option (List Bytes)
  pub test_socket_ok : Bool
  pub test_connect_ok : Bool
  pub own : ℕ
  pub entries : List IfAddr
  pub essid : Bytes → Option Bytes
  pub netlink : Netlink
  pub ca_bundle_ok : Bool
  pub socket_ok : Bool
  pub setsockopt_ok : Bool
  pub bind_ok : Bool
  pub listen_ok : Bool
  pub fork : Fork
  pub setsid_ok : Bool
  pub chdir_ok : Bool

-- The process returns from `main`, with how many server sockets it has opened and closed; or it calls
-- `exit` in `daemonize`, with its server socket open; or it serves clients on its socket, with the settings, profiles and current profile then, and the route monitor or not.
pub data Main : Type 0 where
  exits : (code : ℤ) (opened closed : ℕ) → Main
  exits_open : (code : ℤ) → Main
  serves : (settings : Settings) (profiles : Profiles) (profile : Profile) (monitors : Bool) → Main

unfoldable pub has_profiles : Profiles → Bool
has_profiles [] = false
has_profiles (p ∷ ps) = true

-- `daemonize`: only the child, in a session of its own, goes on.
unfoldable pub forked : World → Fork → Main → Main
forked w fork_failed next = exits_open (pos 2)
forked w is_parent next = exits_open (pos 0)
forked w is_child next =
    if not w.setsid_ok
    then exits_open (pos 2)
    else if not w.chdir_ok
    then exits_open (pos 2)
    else next

unfoldable pub daemonize : World → Main → Main
daemonize w next = forked w w.fork next

unfoldable pub listens : World → Settings → Profiles → Profile → Main
listens w s ps p =
    if not w.socket_ok
    then exits (negsuc 0) 0 0
    else if not w.setsockopt_ok
    then exits (negsuc 0) 1 1
    else if not w.bind_ok
    then exits (negsuc 0) 1 1
    else if not w.listen_ok
    then exits (negsuc 0) 1 1
    else if s.daemon
    then daemonize w (serves s ps p (has_profiles ps))
    else serves s ps p (has_profiles ps)

unfoldable pub with_ca_bundle : World → Settings → Profiles → Profile → Main
with_ca_bundle w s ps p =
    if p.doh
    then (if w.ca_bundle_ok then listens w s ps p else exits (negsuc 0) 0 0)
    else listens w s ps p

unfoldable pub with_profile : World → Settings → Profiles → Option (Option Bytes × Profile) → Main
with_profile w s ps none = exits (negsuc 0) 0 0
with_profile w s ps (some (name, p)) = with_ca_bundle w s ps p

-- The profile of the connection, if there are profiles.
unfoldable pub choose_profile : World → Settings → Profiles → Profile → Outcome Main
choose_profile w s [] p = done (with_ca_bundle w s [] p)
choose_profile w s (q ∷ qs) p =
    let iface = get_current_iface_name w.test_socket_ok w.test_connect_ok w.own w.entries in
    get_current_wifi_name (w.essid iface) w.netlink >>= λ wifi_ap.
    done (with_profile w s (q ∷ qs) (change_profile (q ∷ qs) iface wifi_ap p))

unfoldable pub with_custom_ips : World → Profiles → Profile → Option Settings → Outcome Main
with_custom_ips w ps p none = done (exits (negsuc 0) 0 0)
with_custom_ips w ps p (some s) = choose_profile w s ps p

unfoldable pub with_whitelist : World → Profiles → Profile → Option Settings → Outcome Main
with_whitelist w ps p none = done (exits (negsuc 0) 0 0)
with_whitelist w ps p (some s) =
    with_custom_ips w ps p
      (if is_empty s.custom_ips_path then some s else load_custom_ips w.custom_ips s)

unfoldable pub with_options : World → Result → Outcome Main
with_options w invalid = done (exits (negsuc 0) 0 0)
with_options w autoconf = done (exits (pos 0) 0 0)
with_options w (parsed st) =
    let s = st.settings in
    with_whitelist w st.profiles st.global
      (if is_empty s.whitelist_path then some s else load_whitelist w.whitelist s)

unfoldable pub main : World → List Parsed → Outcome Main
main w args = with_options w (parse_cmdline args)
