-- ===== src/Proxy/Cycle.antt =====
-- `process_client_cycle` of dpitunnel-cli.cpp as a run over what the calls answer.
pub mod Closing
use dpitunnel_cli.Prelude.{
  ℕ, ◌+◌, ◌-◌, ◌%◌, ◌^◌, take, Bool, true, false, not, ◌&&◌, ◌||◌, List, [], ◌∷◌, ◌++◌, Option,
  none, some,
}
use dpitunnel_cli.Prelude.{ℤ, pos, Bytes, codes, bytes_eq, length, replicate, ◌==◌, if◌then◌else◌}
use dpitunnel_cli.Prelude.Outcome.{Outcome, done, fault, out_of_fuel}
use dpitunnel_cli.Settings.{
  Profile, Settings, DesyncFirstAttacks, desync_first_none, ProxyMode, mode_proxy, mode_transparent,
}
use dpitunnel_cli.Utils.Whitelist.{match_whitelist_ip, match_whitelist_domain}
use dpitunnel_cli.Http.Request.{
  Request, request, no_url, no_host, throws, parse_request, remove_proxy_strings,
}
use dpitunnel_cli.Proxy.{transparent_host, choose_split_pos}
use dpitunnel_cli.Proxy.State.{
  Poll, World, Event, Run, End, close_client, close_server, join, leave, close_both,
  connection_error_response, connection_established_response, sent, reply_error, send, fail,
  recv_step, received_or, Target, is_proxy_mode, text, poll_error, timed_out, broken, client_gets,
  server_gets, attacks, returned, waits, terminated, ready,
}
use dpitunnel_cli.Proxy.Transfer.{
  send_step, put_back, strip, strip_if, forward, from_client, from_server, client_part, server_part,
  after_parts, transfer,
}

-- The zeros that the kernel sends in place of the data, to move its numbers on.
abbrev pub zeros : Run → ℕ → Bytes
zeros s n = take n (replicate s.last_char 0)

unfoldable pub synchronize : World → Target → ℕ → DesyncFirstAttacks → Run → End
synchronize w t at desync_first_none s =
    send w (server_gets (zeros s s.last_char)) (transfer w t.is_https w.polls) (fail w) s
synchronize w t at _ s =
    send w (server_gets (zeros s at))
      (send w (server_gets (zeros s ((s.last_char + 2 ^ 32 - at) % 2 ^ 32)))
        (transfer w t.is_https w.polls) (fail w))
      (fail w) s

unfoldable pub attack_at : World → Target → Run → Outcome ℕ → End
attack_at w t s (done at) = synchronize w t at (w.profile).desync_first_attack (record s {
  events = s.events ++ attacks t.server_ip t.server_port t.is_https s.buffer s.last_char at ∷ [];
})
attack_at w t s fault = terminated
attack_at w t s out_of_fuel = terminated

unfoldable pub attack_now : World → Target → Run → End
attack_now w t s = attack_at w t s (
    choose_split_pos t.is_https (w.profile).split_at_sni (w.profile).split_position s.buffer
      s.last_char)

-- The capture is over; the first data of an HTTPS client comes only now.
unfoldable pub desync_stage : World → Target → Run → End
desync_stage w t s =
    if not w.captured
    then fail w s
    else if t.is_https && is_proxy_mode w
    then received_or w (attack_now w t) close_both s
    else attack_now w t s

unfoldable pub relay : World → Target → Run → End
relay w t s =
    if t.desync
    then desync_stage w t (join s)
    else if not t.is_https || not (is_proxy_mode w)
    then send w (server_gets (text s)) (transfer w t.is_https w.polls) (fail w) s
    else transfer w t.is_https w.polls s

unfoldable pub establish : World → Target → Run → End
establish w t s =
    if t.is_https && is_proxy_mode w
    then send w (client_gets connection_established_response) (relay w t) close_both s
    else relay w t s

unfoldable pub with_port : World → Target → Option ℕ → Run → End
with_port w t none s = fail w (join s)
with_port w t (some port) s = establish w t s

unfoldable pub connect : World → Target → Run → End
connect w t s =
    if not w.connect_ok
    then fail w (join s)
    else if not w.nodelay_ok
    then fail w (join s)
    else with_port w t w.local_port s

-- Before there is a server socket.
unfoldable pub fail_client : World → Run → End
fail_client w s = leave (close_client (reply_error w s))

-- The connection starts when the capturing thread is ready. That returns before it says so where its
-- raw socket cannot be created.
unfoldable pub when_ready : World → Target → Run → End
when_ready w t s =
    if t.desync && not w.sniff_socket_ok
    then waits s
    else connect w t (record s { sniffing = t.desync })

unfoldable pub resolved : World → Bool → Bytes → ℤ → Run → Option Bytes → End
resolved w is_https host port s none = fail_client w s
resolved w is_https host port s (some ip) =
    let listed = match_whitelist_ip w.settings ip || match_whitelist_domain w.settings host in
    let desync = (w.profile).desync_attacks && not listed in
    when_ready w
      (record { is_https = is_https; server_ip = ip; server_port = port; desync = desync }) s

unfoldable pub resolve_stripped : World → Bool → Bytes → ℤ → Option Run → End
resolve_stripped w is_https host port none = terminated
resolve_stripped w is_https host port (some s) = resolved w is_https host port s (w.resolve host)

unfoldable pub with_host : World → Bool → Bytes → ℤ → Run → End
with_host w is_https host port s =
    resolve_stripped w is_https host port (strip_if (not is_https && is_proxy_mode w) s)

unfoldable pub with_name : World → ℤ → Run → Outcome Bytes → End
with_name w port s (done host) = with_host w true host port s
with_name w port s fault = terminated
with_name w port s out_of_fuel = terminated

-- In transparent mode the address and the port are the connection's own.
unfoldable pub transparent : World → Option Bytes → Run → Option (Bytes × ℤ) → End
transparent w host s none = leave (close_client s)
transparent w (some host) s (some (address, port)) = with_host w false host port s
transparent w none s (some (address, port)) =
    with_name w port s (transparent_host s.buffer s.last_char address)

unfoldable pub parsed_request : World → ProxyMode → Run → Request → End
parsed_request w mode s throws = terminated
parsed_request w mode s no_url = fail_client w s
parsed_request w mode_proxy s (request method host port) =
    with_host w (bytes_eq method (codes "CONNECT")) host port s
parsed_request w mode_proxy s (no_host method) =
    with_host w (bytes_eq method (codes "CONNECT")) [] (pos 0) s
parsed_request w mode_transparent s (request method host port) =
    transparent w (some host) s w.original
parsed_request w mode_transparent s (no_host method) = transparent w none s w.original

unfoldable pub first_request : World → Run → End
first_request w s =
    parsed_request w (w.settings).proxy_mode s (parse_request s.buffer (is_proxy_mode w))

abbrev pub accepted : World → Run
accepted w = record {
  buffer = replicate (w.profile).buffer_size b' ';
  last_char = 0;
  recvs = 0;
  sends = 0;
  events = [];
  client_closed = 0;
  server_closed = 0;
  sniffing = false;
}

unfoldable pub process_client_cycle : World → End
process_client_cycle w =
    if not w.timeouts_ok
    then leave (close_client (accepted w))
    else received_or w (first_request w) (λ s. leave (close_client s)) (accepted w)
