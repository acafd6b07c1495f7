-- ===== src/Dns/Query.antt =====
-- The request that `resolve_host_over_doh` makes, and the server's URL.
use dpitunnel_cli.Prelude.{◌≡◌, true, false, ◌∷◌, ◌++◌, Option, none, some, c_str}
use dpitunnel_cli.Prelude.{Bytes, codes, length, get_or, ◌==◌}
use dpitunnel_cli.Prelude.Outcome.{Outcome}
use dpitunnel_cli.Settings.{Profile}
use dpitunnel_cli.Dns.Doh.{DohWorld}

-- The URL of a server, and the path that its queries go to, up to the query itself: the server alone,
-- or with a path that does not end in a slash.
pub data UrlOf (server : Bytes) : Bytes → Bytes → Type 0 where
  host_only : UrlOf server (codes "https://" ++ server) (codes "/dns-query?dns=")
  host_path :
      (r : Bytes)
      → (get_or (b'/' ∷ r) (length r) 0 == b'/') ≡ false
      → UrlOf server (codes "https://" ++ (server ++ b'/' ∷ r)) ((b'/' ∷ r) ++ codes "?dns=")

-- Whose address the request goes to: the one that httplib finds, or the host itself where that is an
-- address and the builtin resolver is on.
abbrev pub IsDirect : DohWorld → Profile → Bytes → Option Bytes → Type 0
IsDirect w p server none = p.builtin_dns ≡ false
IsDirect w p server (some ip) =
    (p.builtin_dns ≡ true) × (w.is_ipv4 (c_str server) ≡ true) × (ip ≡ server)
