-- ===== src/Tests/Names.antt =====
-- Resolving hosts, the access point's name, the routes and the start of the program.
use dpitunnel_cli.Prelude.{
  ℕ, ◌≡◌, ◌≢◌, refl, arith, true, false, Option, some, none, [], ◌∷◌, ◌++◌, List, Bytes, codes,
  length, replicate, map, find_byte, bytes_eq, set_insert, contains,
}
use dpitunnel_cli.Prelude.Outcome.{out_of_fuel, fault, Returns}
use dpitunnel_cli.Settings.{default_profile, default_settings, Settings}
use dpitunnel_cli.Capture.{received}
use dpitunnel_cli.Dns.{DnsLib, Message, rdata_a, other_record}
use dpitunnel_cli.Dns.Udp.{UdpWorld, datagram, timed_out, resolve_host_over_udp}
use dpitunnel_cli.Dns.Answers.{Resolves, resolve_host_over_udp-Resolves}
use dpitunnel_cli.Dns.Doh.{DohWorld}
use dpitunnel_cli.Dns.System.{inet, resolve_host_over_system}
use dpitunnel_cli.Dns.Trailing.{match_whitelist_ip-system, resolve_host_over_system_lem}
use dpitunnel_cli.Utils.Whitelist.{
  load_whitelist, add_lines, add_found, add_entry, entry_of, match_whitelist_ip,
}
use dpitunnel_cli.Netiface.{valid, dump_end}
use dpitunnel_cli.Netiface.Ssid.{encode, Finds, find_ssid, find_ssid-Finds}
use dpitunnel_cli.Netiface.Routes.{Names, polls, route_loop, le16, le32}
use dpitunnel_cli.Netiface.Routes.Overflow.{route_loop-overflows, IsSingle}
use dpitunnel_cli.Main.{World, is_child, main}
use dpitunnel_cli.Main.Ready.{Ends, main-Ends}
use dpitunnel_cli.Tests.Config.{command_line}

-- A stand-in for dnslib: a message is its number and the address 1.2.3.n behind another record.
abbrev pub lib : DnsLib
lib = record { encode_query = λ host id. id ∷ host; decode = λ m d. decoded d }
  where
    decoded : Bytes → Option Message
    decoded [] = none
    decoded (id ∷ d) =
        some (record { id = id; answers = other_record ∷ rdata_a 1 2 3 (length d) ∷ [] })

-- The second answer is the one to the query 7.
abbrev pub udp : UdpWorld
udp = record {
  rand = 7;
  socket_ok = true;
  is_ipv4 = λ s. true;
  sendto_ok = true;
  turns = datagram (9 ∷ []) ∷ timed_out ∷ datagram (7 ∷ 1 ∷ []) ∷ [];
}

resolve_host_over_udp-Resolves_example :
    Returns (Resolves lib 7 udp.turns) (resolve_host_over_udp lib udp default_profile (codes "a.b"))
resolve_host_over_udp-Resolves_example =
    resolve_host_over_udp-Resolves lib udp default_profile b'a' (codes ".b")

abbrev pub doh : DohWorld
doh = record {
  rand = 7;
  is_ipv4 = λ s. false;
  store_ok = true;
  get = λ host ip path. some (200, 0 ∷ []);
}

abbrev ip_line : Bytes
ip_line = codes "ip 8.8.8.8"

abbrev with_ip : Settings
with_ip = record default_settings { whitelist_ips = codes "8.8.8.8" ∷ [] }

ip_line-loads : load_whitelist (some (ip_line ∷ [])) default_settings ≡ some with_ip
unfolding load_whitelist add_lines add_found entry_of find_byte add_entry bytes_eq set_insert
ip_line-loads = refl

system_ip :
    resolve_host_over_system (some (inet (codes "8.8.8.8") ∷ [])) []
    ≡ some (codes "8.8.8.8" ++ 0 ∷ [])
system_ip =
    resolve_host_over_system_lem (codes "8.8.8.8") [] (omega arith)
      (refl, (refl, (refl, (refl, (refl, (refl, (refl, tt)))))))

not_before : match_whitelist_ip default_settings (codes "8.8.8.8" ++ 0 ∷ []) ≡ false
unfolding match_whitelist_ip contains
not_before = refl

match_whitelist_ip-system_example : match_whitelist_ip with_ip (codes "8.8.8.8" ++ 0 ∷ []) ≡ false
match_whitelist_ip-system_example =
    match_whitelist_ip-system (ip_line ∷ []) default_settings with_ip (codes "8.8.8.8") []
      (codes "8.8.8.8" ++ 0 ∷ [])
      ((refl, (refl, (refl, (refl, (refl, (refl, (refl, (refl, (refl, (refl, tt)))))))))), tt)
      ip_line-loads (omega arith) (refl, (refl, (refl, (refl, (refl, (refl, (refl, tt)))))))
      not_before system_ip

-- The elements of an access point: rates, its name, a channel.
abbrev elements : List (ℕ × Bytes)
elements = (1, 2 ∷ 4 ∷ []) ∷ (0, codes "home") ∷ (3, 6 ∷ []) ∷ []

find_ssid-Finds_example :
    (find_ssid (5 ∷ 200 ∷ 1 ∷ []) ≢ out_of_fuel)
    × Finds (codes "home") (find_ssid (encode elements))
find_ssid-Finds_example = find_ssid-Finds (5 ∷ 200 ∷ 1 ∷ []) elements (omega arith)

abbrev names : Names
names = record { iface_name = λ i. codes "wlan0"; wifi_name = λ s. codes "home"; profiles = [] }

-- A message with a new route, of 28 bytes.
abbrev message : Bytes
message = 28 ∷ 0 ∷ 0 ∷ 0 ∷ 24 ∷ 0 ∷ replicate 22 0

message-IsSingle : IsSingle message
unfolding le32 le16
message-IsSingle = (omega arith, omega arith, refl, refl, λ e. cc)

route_loop-overflows_example :
    route_loop names
      (map (λ d. polls (received d)) (message ∷ message ∷ []))
      (replicate 40 0)
      default_profile
    ≡ fault
route_loop-overflows_example =
    route_loop-overflows names (message ∷ message ∷ []) (replicate 40 0) default_profile
      (message-IsSingle, (message-IsSingle, tt)) (omega arith)

abbrev system : World
system = record {
  whitelist = none;
  custom_ips = none;
  test_socket_ok = true;
  test_connect_ok = true;
  own = 1;
  entries = record { is_inet = true; addr = some 1; name = some (codes "wlan0") } ∷ [];
  essid = λ s. none;
  netlink = record {
    socket_ok = true;
    connect_ok = true;
    id_ok = true;
    cb_ok = true;
    msg_ok = true;
    ifindex = 3;
    replies =
        valid (record {
          has_bss = true;
          parses = true;
          status = some 1;
          elements = some (encode elements);
        })
        ∷ dump_end
        ∷ [];
  };
  ca_bundle_ok = true;
  socket_ok = true;
  setsockopt_ok = true;
  bind_ok = true;
  listen_ok = true;
  fork = is_child;
  setsid_ok = true;
  chdir_ok = true;
}

main-Ends_example : Ends system (main system command_line)
main-Ends_example = main-Ends system command_line
