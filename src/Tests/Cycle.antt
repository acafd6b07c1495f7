-- ===== src/Tests/Cycle.antt =====
-- Two clients that connect to a.org, and one that has gone before the reply.
use dpitunnel_cli.Prelude.{
  ◌≡◌, refl, pos, true, false, some, none, Bytes, codes, Bool, ◌&&◌, ◌==◌, [], ◌∷◌,
}
use dpitunnel_cli.Settings.{default_profile, default_settings}
use dpitunnel_cli.Prelude.{bytes_eq, contains}
use dpitunnel_cli.Utils.Whitelist.{match_whitelist_ip, match_whitelist_domain}
use dpitunnel_cli.Http.{parse_all, message_lines, parse_lines, parse_first_line}
use dpitunnel_cli.Http.Request.{parse_request, request_of, stoi}
use dpitunnel_cli.Proxy.{choose_split_pos}
use dpitunnel_cli.Proxy.State.{
  received_or, recv_step, send, leave, World, End, Target, ready, returned, waits, terminated,
}
use dpitunnel_cli.Proxy.Transfer.{
  strip_if, transfer, after_parts, client_part, from_client, forward, send_step, server_part,
  from_server,
}
use dpitunnel_cli.Proxy.Cycle.{
  first_request, parsed_request, with_host, resolve_stripped, resolved, when_ready, connect,
  with_port, relay, desync_stage, attack_now, attack_at, synchronize, accepted, establish,
  process_client_cycle,
}
use dpitunnel_cli.Proxy.Cycle.Closing.{Shut, process_client_cycle-Shut}

abbrev connect_text : Bytes
connect_text = codes "CONNECT a.org:443 HTTP/1.1"

abbrev world : World
world = record {
  settings = default_settings;
  profile = record default_profile { desync_attacks = true };
  timeouts_ok = true;
  recv = λ n old. (true, connect_text, 26);
  send_ok = λ n. true;
  original = none;
  resolve = λ host. some (codes "192.0.2.1");
  sniff_socket_ok = true;
  connect_ok = true;
  nodelay_ok = true;
  local_port = some 40000;
  captured = true;
  polls = ready true true ∷ [];
}

abbrev gone : World
gone = record world { send_ok = λ n. false }

abbrev waiting : World
waiting = record world { sniff_socket_ok = false }

abbrev target : Target
target = record {
  is_https = true;
  server_ip = codes "192.0.2.1";
  server_port = pos 443;
  desync = true;
}

process_client_cycle-Shut_example : Shut world (process_client_cycle world)
process_client_cycle-Shut_example = process_client_cycle-Shut world

-- Without a raw socket the client waits for ever.
no_raw_socket : Shut waiting (process_client_cycle waiting)
no_raw_socket = process_client_cycle-Shut waiting

-- Where the reply to CONNECT cannot be sent while packets are captured, the program ends.
gone_terminates : establish gone target (record (accepted gone) { sniffing = true }) ≡ terminated
unfolding establish send leave
gone_terminates = refl

closed_of : End → Bool
closed_of (returned s) = s.client_closed == 1 && s.server_closed == 1
closed_of (waits s) = false
closed_of terminated = false

world_closes : closed_of (process_client_cycle world) ≡ true
unfolding process_client_cycle closed_of received_or recv_step first_request parsed_request
    with_host strip_if resolve_stripped resolved when_ready connect with_port establish send relay
    desync_stage leave attack_now attack_at synchronize transfer after_parts client_part from_client
    forward send_step server_part from_server parse_request parse_all message_lines parse_lines
    parse_first_line bytes_eq request_of stoi match_whitelist_ip match_whitelist_domain
    choose_split_pos contains
world_closes = refl
