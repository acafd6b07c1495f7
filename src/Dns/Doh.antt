-- ===== src/Dns/Doh.antt =====
-- `resolve_host_over_doh`: the query as a GET request to an HTTPS server.
use dpitunnel_cli.Prelude.{ℕ, ◌%◌, Bool, [], ◌∷◌, ◌++◌, Option, none, some, Bytes, codes}
use dpitunnel_cli.Prelude.{
  take, drop, length, get_or, starts_with, find_byte, c_str, ◌==◌, if◌then◌else◌,
}
use dpitunnel_cli.Prelude.Outcome.{Outcome, done, fault, ◌>>=◌}
use dpitunnel_cli.Settings.{Profile}
use dpitunnel_cli.Base64.{base64_encode}
use dpitunnel_cli.Dns.{DnsLib, Message, no_message, form_dns_request, first_address}
use dpitunnel_cli.Dns.Udp.{UdpEnd, ended, waits}

-- `back()` of an empty text is read out of bounds; a slash at the end goes.
unfoldable pub pop_slash : Bytes → Outcome Bytes
pop_slash [] = fault
pop_slash (c ∷ s) =
    let n = length s in done (if get_or (c ∷ s) n 0 == b'/' then take n (c ∷ s) else c ∷ s)

unfoldable pub remove_scheme : Bytes → Bytes
remove_scheme s = if starts_with (codes "https://") s then drop 8 s else s

-- The server's host and the path with the name of the parameter, at the first slash if there is one.
unfoldable pub split_path : Bytes → Option ℕ → Bytes × Bytes
split_path s none = (s, codes "/dns-query?dns=")
split_path s (some at) = (take at s, drop at s ++ codes "?dns=")

unfoldable pub doh_url : Bytes → Outcome (Bytes × Bytes)
doh_url server = pop_slash (remove_scheme server) >>= λ s. done (split_path s (find_byte b'/' s))

-- httplib and OpenSSL: whether the store of certificates is there, and the answer to a GET of a path
-- from a host, whose address may be given: its status and body, or `none` where the request fails.
pub record DohWorld : Type 0 where
  pub rand : ℕ
  pub is_ipv4 : Bytes → Bool
  pub store_ok : Bool
  pub get : (host : Bytes) (ip : Option Bytes) (path : Bytes) → Option (ℕ × Bytes)

-- How it ends: -1, an address, or a wait for the DNS server's answer without an end.
pub data Resolved : Type 0 where
  failed : Resolved
  address : Bytes → Resolved
  no_answer : Resolved

unfoldable pub of_option : Option Bytes → Resolved
of_option none = failed
of_option (some ip) = address ip

unfoldable pub of_end : UdpEnd (Option Bytes) → Resolved
of_end waits = no_answer
of_end (ended closed o) = of_option o

unfoldable pub doh_decoded : Option Message → Resolved
doh_decoded none = failed
doh_decoded (some m) = of_option (first_address m.answers)

unfoldable pub doh_response : DnsLib → Option (ℕ × Bytes) → Resolved
doh_response lib none = failed
doh_response lib (some (status, body)) =
    if status == 200 then doh_decoded (lib.decode no_message body) else failed

unfoldable pub doh_get : DnsLib → DohWorld → Bytes → Option Bytes → Bytes → Resolved
doh_get lib w host ip path = if w.store_ok then doh_response lib (w.get host ip path) else failed

-- With the builtin resolver the server's own address comes over UDP, unless it is one already.
unfoldable pub with_server_ip : DnsLib → DohWorld → Bytes → Bytes → Resolved → Resolved
with_server_ip lib w host path failed = failed
with_server_ip lib w host path no_answer = no_answer
with_server_ip lib w host path (address ip) = doh_get lib w host (some ip) path

unfoldable pub over_udp_first :
    DnsLib → DohWorld → (Bytes → Outcome (UdpEnd (Option Bytes))) → Bytes → Bytes → Outcome Resolved
over_udp_first lib w over_udp host path =
    if w.is_ipv4 (c_str host)
    then done (doh_get lib w host (some host) path)
    else (over_udp host >>= λ e. done (with_server_ip lib w host path (of_end e)))

unfoldable pub doh_request :
    DnsLib
    → DohWorld
    → (Bytes → Outcome (UdpEnd (Option Bytes)))
    → Profile
    → Bytes
    → Bytes × Bytes
    → Outcome Resolved
doh_request lib w over_udp p request (host, prefix) =
    let path = prefix ++ base64_encode request in
    if p.builtin_dns
    then over_udp_first lib w over_udp host path
    else done (doh_get lib w host none path)

unfoldable pub resolve_host_over_doh :
    DnsLib
    → DohWorld
    → (Bytes → Outcome (UdpEnd (Option Bytes)))
    → Profile
    → Bytes
    → Outcome Resolved
resolve_host_over_doh lib w over_udp p host =
    form_dns_request lib host (w.rand % 65535) >>= λ request.
    doh_url p.doh_server >>= λ url. doh_request lib w over_udp p request url
