-- ===== src/Tests/Sockets.antt =====
-- Sockets: the packets of a handshake, hops, and what is sent.
use dpitunnel_cli.Prelude.{◌≡◌, pos, get_or, take}
use dpitunnel_cli.Prelude.{
  refl, arith, true, false, some, none, [], ◌∷◌, List, codes, ◌==◌, if◌then◌else◌,
}
use dpitunnel_cli.Capture.{
  sniff_loop, search, on_polled, on_received, from_server, on_packet, found_or, find_packet,
  port_dst, into_buffer, no_packet, Server, received, timed_out, sniff_handshake_packet, Turn,
}
use dpitunnel_cli.Capture.Handshake.{Stores, sniff_handshake_packet-Stores}
use dpitunnel_cli.Desync.Packet.Header.{header_bytes}
use dpitunnel_cli.Stream.{took, again, all_sent, send_string}
use dpitunnel_cli.Stream.Progress.{send_string-sends}
use dpitunnel_cli.Desync.Packet.{form_packet, fill_headers, fill_ip, fill_tcp}
use dpitunnel_cli.Stream.Connect.{connect_with_timeout, with_flags, restore, started, wait_turns}
use dpitunnel_cli.Stream.Hops.{
  with_connect, with_port, with_sniffed, with_raw_socket, with_segment, ttl_loop, probe, on_reply,
  reply_loop, is_reply, World, over, polls, count_hops_private, count_hops,
}
use dpitunnel_cli.Stream.Hops.Rounds.{Answers, count_hops-Answers}
use dpitunnel_cli.Stream.Connect.{in_progress, ready}
use dpitunnel_cli.Tests.Attack.{checksums, answer}

abbrev pub server : Server
server = record { addr = 0x0a000001; port = 443 }

-- The packet comes before the local port is known.
abbrev pub sniffed : List Turn
sniffed =
    record { flag = true; local_port = none; late = false; polled = received (header_bytes answer) }
    ∷ record { flag = true; local_port = some 50000; late = false; polled = timed_out }
    ∷ []

sniff_handshake_packet-Stores_example :
    Stores server 50000 (sniff_handshake_packet server true sniffed)
sniff_handshake_packet-Stores_example =
    sniff_handshake_packet-Stores server 50000 sniffed (tt, (refl, tt))

-- The server answers the packet with TTL 2.
abbrev pub hops_world : World
hops_world = record {
  checksums = checksums;
  socket_ok = true;
  sniff_socket_ok = true;
  sniff_turns = sniffed;
  connect = record {
    flags = some 2;
    set_ok = true;
    start = in_progress;
    clock_ok = true;
    turns = ready (some 0) ∷ [];
    restore_ok = true;
  };
  local_port = some 50000;
  raw_socket_ok = true;
  sndbuf_ok = true;
  hdrincl_ok = true;
  max_segment = some 1460;
  probes = λ ttl. record {
    rand = ttl;
    sendto_ok = true;
    turns = λ packet.
        if get_or packet 8 0 == 2 then polls (received (header_bytes answer)) ∷ [] else over ∷ [];
  };
}

count_hops-Answers_example :
    Answers
      (count_hops_private hops_world server
        ∷ count_hops_private hops_world server
        ∷ count_hops_private hops_world server
        ∷ [])
      (count_hops hops_world hops_world hops_world server true)
count_hops-Answers_example = count_hops-Answers hops_world hops_world hops_world server

send_string-sends_example :
    send_string (codes "abc") 3 2 (took 2 ∷ again ∷ took 1 ∷ took 1 ∷ [])
    ≡ all_sent (take 3 (codes "abc"))
send_string-sends_example =
    send_string-sends (codes "abc") 3 2 (took 2 ∷ again ∷ took 1 ∷ took 1 ∷ [])
      (omega arith, (omega arith, (omega arith, tt)))

hops_found : count_hops_private hops_world server ≡ dpitunnel_cli.Stream.Hops.hops (pos 2) 2 2
unfolding count_hops_private with_connect with_port with_sniffed with_raw_socket with_segment
    ttl_loop probe on_reply reply_loop is_reply connect_with_timeout with_flags restore started
    wait_turns sniff_handshake_packet sniff_loop search on_polled on_received from_server on_packet
    found_or find_packet port_dst form_packet fill_headers fill_ip fill_tcp
hops_found = refl

handshake_found :
    sniff_handshake_packet server true sniffed
    ≡ dpitunnel_cli.Capture.ended (pos 0) (some (into_buffer no_packet (header_bytes answer))) 1
unfolding sniff_handshake_packet sniff_loop search on_polled on_received from_server on_packet
    found_or find_packet port_dst
handshake_found = refl
