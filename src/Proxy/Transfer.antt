-- ===== src/Proxy/Transfer.antt =====
-- The loop of `process_client_cycle` that carries data between the client and the server.
pub mod Sockets
use dpitunnel_cli.Prelude.{
  ℕ, ◌+◌, ◌-◌, ◌%◌, ◌^◌, take, Bool, true, false, not, ◌&&◌, ◌||◌, List, [], ◌∷◌, ◌++◌, Option,
  none, some,
}
use dpitunnel_cli.Prelude.{ℤ, pos, Bytes, codes, bytes_eq, length, replicate, ◌==◌, if◌then◌else◌}
use dpitunnel_cli.Prelude.Outcome.{Outcome, done, fault, out_of_fuel}
use dpitunnel_cli.Settings.{
  Profile, Settings, DesyncFirstAttacks, desync_first_none, ProxyMode, mode_proxy, mode_transparent,
}
use dpitunnel_cli.Utils.Whitelist.{match_whitelist_ip, match_whitelist_domain}
use dpitunnel_cli.Http.Request.{
  Request, request, no_url, no_host, throws, parse_request, remove_proxy_strings,
}
use dpitunnel_cli.Proxy.{transparent_host, choose_split_pos}
use dpitunnel_cli.Proxy.State.{
  Poll, World, Event, Run, End, close_client, close_server, join, leave, close_both,
  connection_error_response, connection_established_response, sent, reply_error, send, fail,
  recv_step, received_or, Target, is_proxy_mode, text, poll_error, timed_out, broken, client_gets,
  server_gets, attacks, returned, terminated, ready,
}

-- `send_string` in the loop: whether it has returned 0.
unfoldable pub send_step : World → Event → Run → Bool × Run
send_step w e s =
    if w.send_ok s.sends then (true, sent s e) else (false, record s { sends = s.sends + 1 })

-- `remove_proxy_strings` on the buffer; `none` where it throws.
unfoldable pub put_back : Run → Option (Bytes × ℕ) → Option Run
put_back s none = none
put_back s (some (buffer, last_char)) = some (record s { buffer = buffer; last_char = last_char })

unfoldable pub strip : Run → Option Run
strip s = put_back s (remove_proxy_strings s.buffer s.last_char)

unfoldable pub strip_if : Bool → Run → Option Run
strip_if true s = strip s
strip_if false s = some s

unfoldable pub forward : World → Bool → Option Run → Option (Bool × Run)
forward w ok none = none
forward w ok (some s) =
    let step = send_step w (server_gets (text s)) s in some (ok && step.0, step.1)

unfoldable pub from_client : World → Bool → Run → Option (Bool × Run)
from_client w is_https s =
    let step = recv_step w s in
    forward w (step.0) (strip_if (not is_https && is_proxy_mode w) (step.1))

unfoldable pub from_server : World → Bool × Run → Bool × Run
from_server w (ok, s) =
    let step = recv_step w s in
    let step' = send_step w (client_gets (text (step.1))) (step.1) in
    (ok && (step.0 && step'.0), step'.1)

unfoldable pub client_part : World → Bool → Bool → Run → Option (Bool × Run)
client_part w is_https true s = from_client w is_https s
client_part w is_https false s = some (true, s)

unfoldable pub server_part : World → Bool → Bool × Run → Bool × Run
server_part w true r = from_server w r
server_part w false r = r

-- The loop goes on where nothing has failed.
unfoldable pub after_parts : World → Bool → (Run → End) → Option (Bool × Run) → End
after_parts w server on none = terminated
after_parts w server on (some r) =
    let step = server_part w server r in if step.0 then on (step.1) else close_both (step.1)

unfoldable pub transfer : World → Bool → List Poll → Run → End
transfer w is_https [] s = close_both s
transfer w is_https (poll_error ∷ ps) s = close_both s
transfer w is_https (broken ∷ ps) s = close_both s
transfer w is_https (timed_out ∷ ps) s = transfer w is_https ps s
transfer w is_https (ready client server ∷ ps) s =
    after_parts w server (transfer w is_https ps) (client_part w is_https client s)
