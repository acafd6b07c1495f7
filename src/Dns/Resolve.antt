-- ===== src/Dns/Resolve.antt =====
-- `resolve_host` of dns.cpp.
use dpitunnel_cli.Prelude.{Bool, List, [], Option, Bytes, c_str, is_empty, if◌then◌else◌}
use dpitunnel_cli.Prelude.Outcome.{Outcome, done, ◌>>=◌}
use dpitunnel_cli.Settings.{Profile, Settings}
use dpitunnel_cli.Utils.Whitelist.{find_custom_ip}
use dpitunnel_cli.Dns.{DnsLib}
use dpitunnel_cli.Dns.Udp.{UdpWorld, resolve_host_over_udp}
use dpitunnel_cli.Dns.Doh.{
  DohWorld, Resolved, failed, address, of_option, of_end, resolve_host_over_doh,
}
use dpitunnel_cli.Dns.System.{AddrInfo, resolve_host_over_system}

-- The world of a resolution: dnslib, the two servers and the system's answer for a host.
pub record DnsWorld : Type 0 where
  pub lib : DnsLib
  pub is_ipv4 : Bytes → Bool
  pub udp : UdpWorld
  pub doh : DohWorld
  pub system : Bytes → Option (List AddrInfo)

-- The resolver of the profile.
unfoldable pub over_network : DnsWorld → Profile → Bytes → Outcome Resolved
over_network w p host =
    if p.doh
    then resolve_host_over_doh w.lib w.doh (resolve_host_over_udp w.lib w.udp p) p host
    else if p.builtin_dns
    then (resolve_host_over_udp w.lib w.udp p host >>= λ e. done (of_end e))
    else done (of_option (resolve_host_over_system (w.system (c_str host)) []))

-- The caller's `ip` is empty, as in every call of the program.
unfoldable pub resolve_host : DnsWorld → Settings → Profile → Bytes → Outcome Resolved
resolve_host w s p host =
    if is_empty host
    then done failed
    else if w.is_ipv4 (c_str host)
    then done (address host)
    else if is_empty (find_custom_ip s host)
    then over_network w p host
    else done (address (find_custom_ip s host))
