-- ===== src/Tests/Search.antt =====
-- The search for a configuration.
use dpitunnel_cli.Prelude.{◌≡◌, refl, find_byte, find_byte_from, find_str, find_str_from}
use dpitunnel_cli.Prelude.{refl, Bool, true, false, some, none, [], ◌∷◌, codes, leb}
use dpitunnel_cli.Prelude.Outcome.{done, Returns}
use dpitunnel_cli.Settings.{Profile, default_profile, default_settings}
use dpitunnel_cli.Autoconf.{Combination, combinations, set_profile, try_combinations}
use dpitunnel_cli.Autoconf.First.{Chooses, try_combinations-Chooses}
use dpitunnel_cli.Autoconf.Response.{
  judge_response, with_status, with_code, location_factor, location_end, elsewhere, up_to_slash,
  without_http, too_early, is_redirect,
}
use dpitunnel_cli.Autoconf.Run.{run_autoconf}
use dpitunnel_cli.Autoconf.Run.Shown.{WhenDone, ShowsDefaults, run_autoconf-ShowsDefaults}
use dpitunnel_cli.Stream.Receive.{gives}
use dpitunnel_cli.Tests.Attack.{checksums, kernel, quiet}
use dpitunnel_cli.Tests.Sockets.{server, sniffed, hops_world}
use dpitunnel_cli.Tests.Names.{lib, udp, doh}

-- The attack works with fakes that go three hops or more.
abbrev works : Profile → Bool
works p = leb 3 p.fake_packets_ttl

try_combinations-Chooses_example :
    Returns
      (Chooses works (set_profile (codes "dns") false 5) combinations)
      (try_combinations (λ n p. done (works p)) 0 (set_profile (codes "dns") false 5) combinations)
try_combinations-Chooses_example =
    try_combinations-Chooses (λ n p. done (works p)) works (λ n p. refl)
      (set_profile (codes "dns") false 5) 0 combinations

-- One test against a server that answers.
abbrev attempt : dpitunnel_cli.Autoconf.Attempt.World
attempt = record {
  checksums = checksums;
  sniff_socket_ok = true;
  sniff_turns = sniffed;
  remote = record {
    socket_ok = true;
    is_ipv4 = λ s. true;
    rcvbuf_ok = true;
    connect_ok = true;
    timeouts_ok = true;
  };
  nodelay_ok = true;
  local_port = some 50000;
  connect_time = 30;
  kernel = kernel;
  wire = quiet;
  receive = record {
    set_ok = true;
    restore_ok = true;
    elapsed = 40;
    answers = gives (codes "HTTP/1.1 200 OK") ∷ [];
  };
  receive_time = 1;
  https = record {
    checksums = checksums;
    kernel = kernel;
    wire = quiet;
    turns = [];
    chain_ok = true;
    certificate = none;
  };
}

-- A DNS server is typed in, after the first resolution has failed.
abbrev typed : dpitunnel_cli.Autoconf.Run.World
typed = record {
  site = codes "http://a.b";
  doh_line = [];
  ca_line = [];
  dns_line = codes "9.9.9.9";
  ca_bundle_ok = true;
  store_ok = true;
  ctx_ok = true;
  first_dns = record {
    lib = lib;
    is_ipv4 = λ s. false;
    udp = udp;
    doh = record doh { store_ok = false };
    system = λ s. none;
  };
  second_dns = record { lib = lib; is_ipv4 = λ s. false; udp = udp; doh = doh; system = λ s. none };
  server_of = λ ip port. server;
  is_ipv4 = λ s. true;
  hops1 = hops_world;
  hops2 = hops_world;
  hops3 = hops_world;
  tests = λ n. attempt;
}

run_autoconf-ShowsDefaults_example :
    WhenDone ShowsDefaults (run_autoconf typed default_settings default_profile)
run_autoconf-ShowsDefaults_example =
    run_autoconf-ShowsDefaults typed default_settings default_profile

-- A redirect of the server itself to HTTPS is taken for the filter's.
own_redirect :
    judge_response 30 40 (codes "a.b") (codes "HTTP/1.1 301 Moved\r\nLocation: https://a.b/\r\n")
    ≡ done false
unfolding judge_response with_status find_byte with_code find_byte_from location_factor find_str
    location_end find_str_from elsewhere up_to_slash without_http too_early is_redirect
own_redirect = refl

late_redirect :
    judge_response 30 10 (codes "a.b") (codes "HTTP/1.1 200 OK\r\nLocation: https://a.b/\r\n")
    ≡ done false
unfolding judge_response with_status find_byte with_code find_byte_from location_factor find_str
    location_end find_str_from elsewhere up_to_slash without_http too_early is_redirect
late_redirect = refl

own_http_redirect :
    judge_response 30 40 (codes "a.b") (codes "HTTP/1.1 301 Moved\r\nLocation: http://a.b/\r\n")
    ≡ done true
unfolding judge_response with_status find_byte with_code find_byte_from location_factor find_str
    location_end find_str_from elsewhere up_to_slash without_http too_early is_redirect
own_http_redirect = refl
