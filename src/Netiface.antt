-- ===== src/Netiface.antt =====
-- netiface.cpp: the current network interface, its Wi-Fi name and the monitor of routes.
pub mod Ssid
pub mod Routes
pub mod Name
use dpitunnel_cli.Prelude.{
  ℕ, zero, suc, ◌+◌, Bool, true, false, not, ◌&&◌, List, [], ◌∷◌, Option, none, some, Bytes, c_str,
  is_empty, length, ◌==◌, if◌then◌else◌,
}
use dpitunnel_cli.Prelude.Outcome.{Outcome, done, fault, out_of_fuel, ◌>>=◌}
use dpitunnel_cli.Netiface.Ssid.{find_ssid}

-- An entry of `getifaddrs`: its address and its family, if it has one, and its name, if it has one.
pub record IfAddr : Type 0 where
  pub is_inet : Bool
  pub addr : Option ℕ
  pub name : Option Bytes

unfoldable pub named : Option Bytes → Bytes → Bytes
named none res = res
named (some name) res = name

unfoldable pub matched : ℕ → IfAddr → Option ℕ → Bytes → Bytes
matched own i none res = res
matched own i (some a) res =
    if not i.is_inet then res else if a == own then named i.name res else res

-- The loop over the entries goes on behind a match: the last one counts.
unfoldable pub ifaddr_loop : ℕ → List IfAddr → Bytes → Bytes
ifaddr_loop own [] res = res
ifaddr_loop own (i ∷ rest) res = ifaddr_loop own rest (matched own i i.addr res)

-- `own` is the address that `getsockname` gives for a socket to a server of the internet.
unfoldable pub get_current_iface_name :
    (socket_ok connect_ok : Bool) → (own : ℕ) → List IfAddr → Bytes
get_current_iface_name false connect_ok own entries = []
get_current_iface_name true false own entries = []
get_current_iface_name true true own entries = ifaddr_loop own entries []

-- A result of a scan, as libnl takes it apart: whether the attributes are there and can be parsed, the
-- status of the access point, and its information elements.
pub record Scan : Type 0 where
  pub has_bss : Bool
  pub parses : Bool
  pub status : Option ℕ
  pub elements : Option Bytes

-- NL80211_BSS_STATUS_ASSOCIATED
abbrev pub associated : ℕ
associated = 1

unfoldable pub store_ssid : Bytes → Option Bytes → Bytes
store_ssid ssid none = ssid
store_ssid ssid (some []) = ssid
store_ssid ssid (some (c ∷ s)) = c ∷ s

unfoldable pub with_elements : Bytes → Option Bytes → Outcome Bytes
with_elements ssid none = done ssid
with_elements ssid (some ies) = find_ssid ies >>= λ found. done (store_ssid ssid found)

unfoldable pub with_status : Bytes → Scan → Option ℕ → Outcome Bytes
with_status ssid s none = done ssid
with_status ssid s (some status) =
    if status == associated then with_elements ssid s.elements else done ssid

-- What `w.ssid` is after the call, which always returns NL_SKIP.
unfoldable pub get_scan_callback : Scan → Bytes → Outcome Bytes
get_scan_callback s ssid =
    if not s.has_bss
    then done ssid
    else if not s.parses
    then done ssid
    else with_status ssid s s.status

-- libnl's answers: whether the socket, the connection, the number of nl80211, the callback and the
-- message can be had, the number of the interface (0 where it is unknown), and what `nl_recvmsgs`
-- calls back.
pub data Reply : Type 0 where
  valid : Scan → Reply
  dump_end recv_error : Reply

pub record Netlink : Type 0 where
  pub socket_ok : Bool
  pub connect_ok : Bool
  pub id_ok : Bool
  pub cb_ok : Bool
  pub msg_ok : Bool
  pub ifindex : ℕ
  pub replies : List Reply

-- The name, with the sockets, callbacks and messages that are still held.
pub record Scanned : Type 0 where
  pub ssid : Bytes
  pub sockets : ℕ
  pub callbacks : ℕ
  pub messages : ℕ

-- A failure that has put everything back.
abbrev pub no_name : Scanned
no_name = record { ssid = []; sockets = 0; callbacks = 0; messages = 0 }

-- `while (nl.result > 0)`: only the end of the dump sets the result to 0; after an error the loop calls
-- on.
unfoldable pub scan_results : List Reply → Bytes → Outcome Bytes
scan_results [] ssid = out_of_fuel
scan_results (dump_end ∷ rest) ssid = done ssid
scan_results (recv_error ∷ rest) ssid = scan_results rest ssid
scan_results (valid s ∷ rest) ssid = get_scan_callback s ssid >>= scan_results rest

-- `init_nl80211`: on failure it puts back the socket.
unfoldable pub init_nl80211 : Netlink → Bool
init_nl80211 n = n.socket_ok && n.connect_ok && n.id_ok && n.cb_ok

-- The message is freed; the socket and the callback are not.
unfoldable pub get_current_wifi_name_netlink : Netlink → Outcome Scanned
get_current_wifi_name_netlink n =
    if not (init_nl80211 n)
    then done no_name
    else if not n.msg_ok
    then done no_name
    else if n.ifindex == 0
    then done no_name
    else (scan_results n.replies [] >>= λ ssid.
        done (record { ssid = ssid; sockets = 1; callbacks = 1; messages = 0 }))

-- The name from the ioctl, up to its first NUL; the empty text where that fails.
unfoldable pub get_current_wifi_name_ioctl : Option Bytes → Bytes
get_current_wifi_name_ioctl none = []
get_current_wifi_name_ioctl (some essid) = c_str essid

unfoldable pub get_current_wifi_name : (essid : Option Bytes) → Netlink → Outcome Bytes
get_current_wifi_name essid n =
    let response = get_current_wifi_name_ioctl essid in
    if is_empty response
    then (get_current_wifi_name_netlink n >>= λ r. done r.ssid)
    else done response
