-- ===== src/Settings.antt =====
-- The settings and profiles of include/dpitunnel-cli.h, and the names of the attacks.
use dpitunnel_cli.Prelude.{ℕ, ℤ, pos, negsuc, Bool, false, List, [], Bytes, codes}

pub data DesyncZeroAttacks : Type 0 where
  desync_zero_fake desync_zero_rst desync_zero_rstack desync_zero_none : DesyncZeroAttacks

pub data DesyncFirstAttacks : Type 0 where
  desync_first_disorder desync_first_disorder_fake : DesyncFirstAttacks
  desync_first_split desync_first_split_fake desync_first_none : DesyncFirstAttacks

pub data ProxyMode : Type 0 where
  mode_proxy mode_transparent : ProxyMode

-- The names of the attacks on the command line; `none` has no entry in the source's maps.
unfoldable pub zero_attacks_names : DesyncZeroAttacks → Bytes
zero_attacks_names desync_zero_fake = codes "fake"
zero_attacks_names desync_zero_rst = codes "rst"
zero_attacks_names desync_zero_rstack = codes "rstack"
zero_attacks_names desync_zero_none = []

unfoldable pub first_attacks_names : DesyncFirstAttacks → Bytes
first_attacks_names desync_first_disorder = codes "disorder"
first_attacks_names desync_first_disorder_fake = codes "disorder_fake"
first_attacks_names desync_first_split = codes "split"
first_attacks_names desync_first_split_fake = codes "split_fake"
first_attacks_names desync_first_none = []

unfoldable pub proxy_mode_names : ProxyMode → Bytes
proxy_mode_names mode_proxy = codes "proxy"
proxy_mode_names mode_transparent = codes "transparent"

pub record Profile : Type 0 where
  pub buffer_size : ℕ
  pub split_position : ℕ
  pub fake_packets_ttl : ℕ
  pub window_size : ℕ
  pub window_scale_factor : ℤ
  pub wrong_seq : Bool
  pub wrong_seq_drift_ack : ℤ
  pub wrong_seq_drift_seq : ℤ
  pub min_ttl : ℕ
  pub auto_ttl : Bool
  pub auto_ttl_a1 : ℕ
  pub auto_ttl_a2 : ℕ
  pub auto_ttl_max : ℕ
  pub doh_server : Bytes
  pub builtin_dns : Bool
  pub builtin_dns_ip : Bytes
  pub builtin_dns_port : ℤ
  pub split_at_sni : Bool
  pub desync_attacks : Bool
  pub doh : Bool
  pub desync_zero_attack : DesyncZeroAttacks
  pub desync_first_attack : DesyncFirstAttacks

abbrev pub default_profile : Profile
default_profile = record {
  buffer_size = 512;
  split_position = 3;
  fake_packets_ttl = 0;
  window_size = 0;
  window_scale_factor = negsuc 0;
  wrong_seq = false;
  wrong_seq_drift_ack = negsuc 65999;
  wrong_seq_drift_seq = negsuc 9999;
  min_ttl = 0;
  auto_ttl = false;
  auto_ttl_a1 = 1;
  auto_ttl_a2 = 4;
  auto_ttl_max = 10;
  doh_server = codes "https://dns.google/dns-query";
  builtin_dns = false;
  builtin_dns_ip = codes "8.8.8.8";
  builtin_dns_port = pos 53;
  split_at_sni = false;
  desync_attacks = false;
  doh = false;
  desync_zero_attack = desync_zero_none;
  desync_first_attack = desync_first_none;
}

-- The whitelists are sets, read through membership; `custom_ips` is a map from a domain.
pub record Settings : Type 0 where
  pub test_ssl_handshake_timeout : ℕ
  pub packet_capture_timeout : ℕ
  pub builtin_dns_req_timeout : ℕ
  pub count_hops_connect_timeout : ℕ
  pub server_port : ℤ
  pub server_address : Bytes
  pub proxy_mode : ProxyMode
  pub ca_bundle_path : Bytes
  pub ca_bundle : Bytes
  pub whitelist_path : Bytes
  pub whitelist_domains : List Bytes
  pub whitelist_ips : List Bytes
  pub custom_ips_path : Bytes
  pub custom_ips : List (Bytes × Bytes)
  pub pid_file : Bytes
  pub daemon : Bool

abbrev pub default_settings : Settings
default_settings = record {
  test_ssl_handshake_timeout = 5;
  packet_capture_timeout = 5000;
  builtin_dns_req_timeout = 10000;
  count_hops_connect_timeout = 1000;
  server_port = pos 8080;
  server_address = codes "0.0.0.0";
  proxy_mode = mode_proxy;
  ca_bundle_path = codes "./ca.bundle";
  ca_bundle = [];
  whitelist_path = [];
  whitelist_domains = [];
  whitelist_ips = [];
  custom_ips_path = [];
  custom_ips = [];
  pid_file = [];
  daemon = false;
}
