-- ===== src/Tests/Attack.antt =====
-- An attack on a server at a distance of four hops.
use dpitunnel_cli.Prelude.{◌⊎◌, ◌≢◌, min}
use dpitunnel_cli.Prelude.{
  ℕ, ◌+◌, ◌-◌, ◌<◌, ◌≡◌, refl, arith, ltb, get_elem?, take, drop, some, none, pos, negsuc, codes,
  true, length, [], ◌∷◌, ◌++◌, if◌then◌else◌,
}
use dpitunnel_cli.Prelude.Outcome.{done}
use dpitunnel_cli.Settings.{default_profile, desync_zero_fake, desync_first_disorder_fake}
use dpitunnel_cli.Desync.Packet.{CheckSums, Fields, form_packet}
use dpitunnel_cli.Desync.Packet.Header.{Header, header_bytes, IsHeader}
use dpitunnel_cli.Desync.Packet.Fill.{formed, form_packet_lem}
use dpitunnel_cli.Desync.Fakes.{fake_tls_packet}
use dpitunnel_cli.Desync.Receiver.{received}
use dpitunnel_cli.Desync.Raw.{Kernel, Wire, ret}
use dpitunnel_cli.Desync.Attack.{Attack, Options, skips_fakes, choose_fake_ttl, do_desync_attack}
use dpitunnel_cli.Desync.Attack.Trace.{Runs}
use dpitunnel_cli.Desync.Attack.Deliver.{Opens, do_desync_attack-received}
use dpitunnel_cli.Desync.Attack.Sockets.{ReturnsClosed, do_desync_attack-ReturnsClosed}
use dpitunnel_cli.Utils.Ttl.{tcp_get_auto_ttl, count_nhops, cap_ttl, scaled_ttl}
use dpitunnel_cli.Utils.Ttl.Laws.{tcp_get_auto_ttl-lt, tcp_get_auto_ttl-wraps}

abbrev pub checksums : CheckSums
checksums = record { cksum_ip = λ p. length p; cksum_tcp = λ p at. length p + at }

-- The SYN, ACK packet of the server.
abbrev pub answer : Header
answer = record {
  tos = 0;
  tot_len = 40;
  id = 7;
  frag_off = 0x4000;
  ttl = 60;
  protocol = 6;
  ip_check = 0;
  saddr = 0x0a000001;
  daddr = 0x0a000002;
  source = 443;
  dest = 50000;
  seq = 1000;
  ack_seq = 2000;
  offset = 0x50;
  flags = 0x12;
  window = 512;
  tcp_check = 0;
  urg_ptr = 0;
}

pub answer-IsHeader : IsHeader answer
answer-IsHeader = record { seq_fits = omega arith; ack_seq_fits = omega arith }

abbrev pub kernel : Kernel
kernel = record {
  socket_ok = true;
  sndbuf_ok = true;
  hdrincl_ok = true;
  default_ttl = some 64;
  max_segment = some 1460;
  rand = λ n. n;
  sendto_ok = λ n. true;
}

abbrev options : Options
options = record { default_ttl = 64; window_size = 1460 }

abbrev attack : Attack
attack = record {
  checksums = checksums;
  profile = record default_profile {
    auto_ttl = true;
    min_ttl = 3;
    desync_zero_attack = desync_zero_fake;
    desync_first_attack = desync_first_disorder_fake;
  };
  is_https = true;
  packet_raw = header_bytes answer ++ 1 ∷ 2 ∷ [];
  packet_data = codes "hello, world";
  last_char = 12;
  split_pos = 5;
}

abbrev pub quiet : Wire
quiet = record { sent = []; draws = 0; sends = 0; open_sockets = 3 }

attack-Runs : Runs kernel attack answer (1 ∷ 2 ∷ [])
attack-Runs = record {
  answered = refl;
  header = answer-IsHeader;
  held = omega arith;
  inside = omega arith;
  narrow = omega arith;
  takes = λ n. refl;
}

kernel-Opens : Opens kernel options
kernel-Opens = record { socket = refl; sndbuf = refl; hdrincl = refl; ttl = refl; segment = refl }

-- A ClientHello of 517 bytes, with the name at 125.
fake_tls_packet_size : length fake_tls_packet ≡ 517
unfolding fake_tls_packet
fake_tls_packet_size = refl

fake_tls_packet_name : take 10 (drop 125 fake_tls_packet) ≡ codes "www.w3.org"
unfolding fake_tls_packet
fake_tls_packet_name = refl

fake_ttl : choose_fake_ttl attack options ≡ 2
unfolding choose_fake_ttl tcp_get_auto_ttl count_nhops cap_ttl scaled_ttl
fake_ttl = refl

do_desync_attack-received_example :
    ((i : ℕ)
      → received 4 2000 ((do_desync_attack kernel attack quiet).1).sent i
        ≡ (if ltb i 12 then get_elem? (codes "hello, world") i else none))
    × ((do_desync_attack kernel attack quiet).0
        ≡ ret (if skips_fakes attack then negsuc 0 else pos 0))
do_desync_attack-received_example =
    do_desync_attack-received kernel attack options answer (1 ∷ 2 ∷ []) 4 quiet attack-Runs
      kernel-Opens (omega arith) (omega arith) (omega (arith, fake_ttl)) refl

do_desync_attack-ReturnsClosed_example : ReturnsClosed 3 (do_desync_attack kernel attack quiet)
do_desync_attack-ReturnsClosed_example = do_desync_attack-ReturnsClosed kernel attack quiet

abbrev fields : Fields
fields = record {
  id = 9;
  ttl = 64;
  seq = 5;
  ack_seq = 1;
  window_size = 1460;
  is_swap_addr = true;
  flags = none;
}

form_packet_lem_example :
    form_packet checksums fields (header_bytes answer ++ 1 ∷ []) (codes "abc")
    ≡ done (header_bytes (formed checksums fields answer (codes "abc")) ++ codes "abc")
form_packet_lem_example =
    form_packet_lem checksums fields answer (codes "abc") (1 ∷ []) refl answer-IsHeader

-- Six hops with the default scale.
tcp_get_auto_ttl-lt_example : tcp_get_auto_ttl 58 1 4 3 10 < count_nhops 58
tcp_get_auto_ttl-lt_example =
    tcp_get_auto_ttl-lt 58 1 4 3 10 (omega arith) (omega arith) (unfold count_nhops in omega arith)

-- Three hops with the default scale: the TTL is 10.
tcp_get_auto_ttl-wraps_example :
    ((◌≡◌ {A = ℕ} 10 0)
      × (tcp_get_auto_ttl 61 1 4 3 10 ≡ 256 + count_nhops 61 - 4)
      × (count_nhops 61 < tcp_get_auto_ttl 61 1 4 3 10))
    ⊎ ((◌≢◌ {A = ℕ} 10 0) × (tcp_get_auto_ttl 61 1 4 3 10 ≡ min 10 (256 + count_nhops 61 - 4)))
tcp_get_auto_ttl-wraps_example =
    tcp_get_auto_ttl-wraps 61 1 4 3 10 (unfold count_nhops in omega arith)
      (unfold count_nhops in omega arith) (unfold count_nhops in omega arith) (omega arith)
