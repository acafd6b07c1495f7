-- ===== src/Autoconf/Run.antt =====
-- `run_autoconf` of autoconf.cpp, over the lines that are typed in and the answers of the system.
pub mod Shown
use dpitunnel_cli.Prelude.{
  ℕ, zero, suc, ◌+◌, ◌-◌, ◌∷◌, ℤ, pos, negsuc, Bool, true, false, not, ◌&&◌, Option, none, some,
  Bytes, find_byte, take, drop, is_empty, ◌==◌, if◌then◌else◌,
}
use dpitunnel_cli.Prelude.Outcome.{Outcome, done, fault, out_of_fuel, ◌>>=◌}
use dpitunnel_cli.Settings.{Profile, Settings}
use dpitunnel_cli.Http.Request.{stoi}
use dpitunnel_cli.Capture.{Server}
use dpitunnel_cli.Dns.Resolve.{DnsWorld, resolve_host}
use dpitunnel_cli.Dns.Doh.{Resolved, failed, address, no_answer}
use dpitunnel_cli.Stream.Hops.{count_hops}
use dpitunnel_cli.Autoconf.{Combination, combinations, set_profile, try_combinations}
use dpitunnel_cli.Autoconf.Target.{Target, read_target}
use dpitunnel_cli.Autoconf.Attempt.{Tested, tested, undefined, test_desync_attack}

-- The lines that are typed in, OpenSSL's answers, the two resolutions, the rounds that count hops and
-- the tests by their number; `server_of` is the server's address and port in the system's form.
pub record World : Type 0 where
  pub site : Bytes
  pub doh_line : Bytes
  pub ca_line : Bytes
  pub dns_line : Bytes
  pub ca_bundle_ok : Bool
  pub store_ok : Bool
  pub ctx_ok : Bool
  pub first_dns : DnsWorld
  pub second_dns : DnsWorld
  pub server_of : Bytes → ℤ → Server
  pub is_ipv4 : Bytes → Bool
  pub hops1 : dpitunnel_cli.Stream.Hops.World
  pub hops2 : dpitunnel_cli.Stream.Hops.World
  pub hops3 : dpitunnel_cli.Stream.Hops.World
  pub tests : ℕ → dpitunnel_cli.Autoconf.Attempt.World

-- The code, and the profile whose options are shown, if one works.
pub record Configured : Type 0 where
  pub code : ℤ
  pub shown : Option Profile

abbrev failure : Outcome Configured
failure = done (record { code = negsuc 0; shown = none })

unfoldable pub as_outcome : Tested → Outcome Bool
as_outcome (tested success closed) = done success
as_outcome Tested.waits = out_of_fuel
as_outcome undefined = fault

-- The loops, with the distance to the server; the code is 0 with and without a result.
unfoldable pub search : World → Target → Profile → Bool → Bytes → Option ℤ → Outcome Configured
search w t p builtin_dns ip none = out_of_fuel
search w t p builtin_dns ip (some (negsuc n)) = failure
search w t p builtin_dns ip (some (pos hops)) =
    let srv = w.server_of ip t.port in
    let test : ℕ → Profile → Outcome Bool =
      λ n q. as_outcome (test_desync_attack (w.tests n) q t.host ip srv t.is_https) in
    try_combinations test 0 (set_profile p.doh_server builtin_dns (hops - 1)) combinations
    >>= λ shown. done (record { code = pos 0; shown = shown })

unfoldable pub with_ip : World → Target → Profile → Bool → Bytes → Outcome Configured
with_ip w t p builtin_dns ip =
    search w t p builtin_dns ip
      (count_hops w.hops1 w.hops2 w.hops3 (w.server_of ip t.port) (w.is_ipv4 ip))

-- The second resolution.
unfoldable pub on_second : World → Target → Profile → Resolved → Outcome Configured
on_second w t p failed = failure
on_second w t p no_answer = out_of_fuel
on_second w t p (address ip) = with_ip w t p true ip

unfoldable pub set_dns_port : Profile → Bytes → Option ℤ → Outcome Profile
set_dns_port p ip none = fault
set_dns_port p ip (some port) = done (record p { builtin_dns_ip = ip; builtin_dns_port = port })

unfoldable pub split_dns : Profile → Bytes → Option ℕ → Outcome Profile
split_dns p line none = done (record p { builtin_dns_ip = line })
split_dns p line (some at) = set_dns_port p (take at line) (stoi (drop (at + 1) line))

-- The DNS server that is typed in, for the profile; an empty line keeps the old one.
unfoldable pub read_dns : Profile → Bytes → Outcome Profile
read_dns p line =
    let q = record p { builtin_dns = true } in
    if is_empty line then done q else split_dns q line (find_byte b':' line)

unfoldable pub on_first : World → Settings → Target → Profile → Resolved → Outcome Configured
on_first w s t p no_answer = out_of_fuel
on_first w s t p (address ip) = with_ip w t p false ip
on_first w s t p failed =
    read_dns p w.dns_line >>= λ q. (resolve_host w.second_dns s q t.host >>= on_second w t q)

-- The CA bundle is needed for the DoH server in any case, and its certificates for HTTPS.
unfoldable pub with_target : World → Settings → Profile → Target → Outcome Configured
with_target w s p t =
    if not w.ca_bundle_ok
    then failure
    else if t.is_https && not w.store_ok
    then failure
    else if t.is_https && not w.ctx_ok
    then failure
    else (let q = record p { doh = true } in
        resolve_host w.first_dns s q t.host >>= on_first w s t q)

unfoldable pub run_autoconf : World → Settings → Profile → Outcome Configured
run_autoconf w s p =
    let q = if is_empty w.doh_line then p else record p { doh_server = w.doh_line } in
    let bundle = if is_empty w.ca_line then s.ca_bundle_path else w.ca_line in
    read_target w.site >>= with_target w (record s { ca_bundle_path = bundle }) q
