-- ===== src/Netiface/Routes.antt =====
-- `route_monitor_thread` of netiface.cpp. The memory is what is left of the buffer from `nlh` on: the
-- pointer goes over the messages and never back. Numbers are in the little-endian order of the host.
pub mod Overflow
use dpitunnel_cli.Prelude.{
  ℕ, zero, suc, ◌+◌, ◌-◌, ◌*◌, ◌/◌, ◌%◌, Bool, true, false, not, ◌&&◌, List, [], ◌∷◌, ◌++◌, Option,
  none, some, Bytes, take, drop, length, get_or, leb, ltb, ◌==◌, if◌then◌else◌,
}
use dpitunnel_cli.Prelude.Outcome.{Outcome, done, fault, out_of_fuel, ◌>>=◌}
use dpitunnel_cli.Settings.{Profile}
use dpitunnel_cli.Profiles.{Profiles, change_profile}
use dpitunnel_cli.Capture.{Polled, poll_failed, timed_out, broken, no_data, read_failed, received}

unfoldable pub le16 : Bytes → ℕ → ℕ
le16 s i = get_or s i 0 + 256 * get_or s (i + 1) 0

unfoldable pub le32 : Bytes → ℕ → ℕ
le32 s i = le16 s i + 65536 * le16 s (i + 2)

-- A length up to the next multiple of 4.
unfoldable pub align : ℕ → ℕ
align n = (n + 3) / 4 * 4

-- The pointers `tb`, as what the memory holds from each on.
abbrev pub Attributes : Type 0
Attributes = ℕ → Option Bytes

abbrev set_attribute : ℕ → Bytes → Attributes → Attributes
set_attribute type rta tb i = if i == type then some rta else tb i

-- An attribute whose length fits is stored, unless its type is above `max`; the last of a type stays.
-- An attribute takes four bytes at least, so that `len` turns are enough.
unfoldable pub parse_rtattr : ℕ → ℕ → Bytes → ℕ → Attributes → Attributes
parse_rtattr zero max rta len tb = tb
parse_rtattr (suc fuel) max rta len tb =
    let n = le16 rta 0 in
    let type = le16 rta 2 in
    let tb' = if leb type max then set_attribute type rta tb else tb in
    if leb 4 len && leb 4 n && leb n len
    then parse_rtattr fuel max (drop (align n) rta) (len - align n) tb'
    else tb

-- The interface of a default route: no destination, with its length 0, and an output interface.
unfoldable pub default_iface : Bytes → Attributes → Option ℕ
default_iface nlh tb = picked (tb 1) (get_or nlh 17 0) (tb 4)
  where
    picked : Option Bytes → ℕ → Option Bytes → Option ℕ
    picked none zero (some oif) = some (le32 oif 4)
    picked none (suc n) o = none
    picked none zero none = none
    picked (some dst) n o = none

-- The names of interfaces and of their access points, and the profiles.
pub record Names : Type 0 where
  pub iface_name : ℕ → Bytes
  pub wifi_name : Bytes → Bytes
  pub profiles : Profiles

-- A profile is changed only where one fits.
unfoldable pub changed : Profile → Option (Option Bytes × Profile) → Profile
changed p none = p
changed p (some (name, q)) = q

unfoldable pub on_iface : Names → Profile → Option ℕ → Profile
on_iface names p none = p
on_iface names p (some index) =
    let iface = names.iface_name index in
    changed p (change_profile names.profiles iface (names.wifi_name iface) p)

-- A message with a new route; the byte of `rtm_dst_len` must be in the buffer.
unfoldable pub on_route : Names → Bytes → Profile → Outcome Profile
on_route names nlh p =
    let len = le32 nlh 0 - 28 in
    if leb (length nlh) 17
    then fault
    else done (
        on_iface names p
          (default_iface nlh (parse_rtattr (len + 1) 30 (drop 28 nlh) len (λ _. none))))

unfoldable pub on_message : Names → Bytes → Profile → Outcome Profile
on_message names nlh p = if le16 nlh 4 == 24 then on_route names nlh p else done p

-- The messages of one datagram, to the end of its `len` bytes or a message of the type 3. A message
-- takes 16 bytes at least, so that `len` turns are enough.
unfoldable pub messages : ℕ → Names → Bytes → ℕ → Profile → Outcome (Bytes × Profile)
messages zero names nlh len p = out_of_fuel
messages (suc fuel) names nlh len p =
    let n = le32 nlh 0 in
    if leb 16 len && leb 16 n && leb n len && not (le16 nlh 4 == 3)
    then (on_message names nlh p >>= λ q.
        messages fuel names (drop (align n) nlh) (len - align n) q)
    else done (nlh, p)

pub data Turn : Type 0 where
  stopped : Turn
  polls : Polled → Turn

-- The socket is closed, with the profile then; `monitors` where the turns end first.
pub data RouteEnd : Type 0 where
  closed : Profile → RouteEnd
  monitors : Profile → RouteEnd

-- `recv` is told that there is room for the 8192 bytes of the whole buffer.
unfoldable pub receive : Names → Bytes → Bytes → Profile → Outcome (Bytes × Profile)
receive names nlh datagram p =
    let d = take 8192 datagram in
    if ltb (length nlh) (length d)
    then fault
    else messages (length d + 1) names (d ++ drop (length d) nlh) (length d) p

unfoldable pub route_loop : Names → List Turn → Bytes → Profile → Outcome RouteEnd
route_loop names [] nlh p = done (monitors p)
route_loop names (stopped ∷ rest) nlh p = done (closed p)
route_loop names (polls poll_failed ∷ rest) nlh p = done (closed p)
route_loop names (polls broken ∷ rest) nlh p = done (closed p)
route_loop names (polls read_failed ∷ rest) nlh p = done (closed p)
route_loop names (polls timed_out ∷ rest) nlh p = route_loop names rest nlh p
route_loop names (polls no_data ∷ rest) nlh p = route_loop names rest nlh p
route_loop names (polls (received []) ∷ rest) nlh p = done (closed p)
route_loop names (polls (received (c ∷ d)) ∷ rest) nlh p =
    receive names nlh (c ∷ d) p >>= λ r. route_loop names rest r.0 r.1
