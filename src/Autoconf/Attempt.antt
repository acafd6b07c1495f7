-- ===== src/Autoconf/Attempt.antt =====
-- `check_http_response` and `test_desync_attack` of autoconf.cpp.
pub mod Closing
use dpitunnel_cli.Prelude.{
  ℕ, [], ◌+◌, ◌-◌, ◌%◌, ◌^◌, ◌≡◌, refl, ℤ, pos, negsuc, Bool, true, false, not, ◌++◌, Option, none,
  some, List, Bytes, codes, length, replicate, min, ltb_ℤ, ◌==◌, if◌then◌else◌,
}
use dpitunnel_cli.Prelude.Outcome.{Outcome, done, fault, out_of_fuel}
use dpitunnel_cli.Settings.{Profile}
use dpitunnel_cli.Capture.{Server, SniffEnd, ended, never_ready, runs, sniff_handshake_packet}
use dpitunnel_cli.Desync.Packet.{CheckSums}
use dpitunnel_cli.Desync.Raw.{Kernel, Wire, Step, go, ret, crash}
use dpitunnel_cli.Desync.Attack.{do_desync_attack}
use dpitunnel_cli.Stream.Receive.{Received, received, broken, recv_string}
use dpitunnel_cli.Stream.Remote.{Init, init_remote_server_socket}
use dpitunnel_cli.Autoconf.Https.{Checked, check_https_response}
use dpitunnel_cli.Autoconf.Response.{judge_response}

-- What the system and the network answer in one test; `receive_time` is what its variable holds before
-- it is set.
pub record World : Type 0 where
  pub checksums : CheckSums
  pub sniff_socket_ok : Bool
  pub sniff_turns : List dpitunnel_cli.Capture.Turn
  pub remote : dpitunnel_cli.Stream.Remote.World
  pub nodelay_ok : Bool
  pub local_port : Option ℕ
  pub connect_time : ℕ
  pub kernel : Kernel
  pub wire : Wire
  pub receive : dpitunnel_cli.Stream.Receive.World
  pub receive_time : ℕ
  pub https : dpitunnel_cli.Autoconf.Https.World

-- How a test ends: with success or not, and how often the connected socket has been closed.
pub data Tested : Type 0 where
  tested : (success : Bool) (closed : ℕ) → Tested
  waits undefined : Tested

unfoldable pub http_request : Bytes → Bytes
http_request host =
    codes "GET / HTTP/1.1\r\nHost: "
    ++ host
    ++ codes
        "\r\nUser-Agent: Mozilla/5.0 (Windows NT 10.0; Win64; x64; rv:70.0) Gecko/20100101 Firefox/70.0\r\nAccept: text/html,application/xhtml+xml,application/xml;q=0.9,*/*;q=0.8\r\nAccept-Encoding: gzip, deflate\r\n\r\n"

unfoldable pub judged : ℕ → Outcome Bool → Tested
judged closed fault = undefined
judged closed out_of_fuel = waits
judged closed (done success) = tested success closed

unfoldable pub checked : Outcome Checked → Tested
checked fault = undefined
checked out_of_fuel = waits
checked (done (success, closed)) = tested success closed

-- The response; the socket is closed where `recv_string` fails, and before the response is judged.
-- Nothing within the time is a failure too.
unfoldable pub on_received : World → Bytes → Received → Tested
on_received w host broken = tested false 1
on_received w host Received.waits = waits
on_received w host (received message last_char none long) = undefined
on_received w host (received message last_char (some receive_time) long) =
    if last_char == 0
    then tested false 1
    else judged 1 (judge_response w.connect_time receive_time host message)

unfoldable pub on_attacked : World → Profile → Bytes → Step ℤ × Wire → Tested
on_attacked w r host (go code, wire) = undefined
on_attacked w r host (crash, wire) = undefined
on_attacked w r host (ret code, wire) =
    if ltb_ℤ code (pos 0)
    then tested false 1
    else on_received w host
        (recv_string w.receive true (some w.receive_time) (replicate r.buffer_size b' '))

-- The attack is told that the connection is HTTPS.
unfoldable pub check_http_response : World → Profile → Bytes → Bytes → Tested
check_http_response w r host sniffed_packet =
    let request = http_request host in
    on_attacked w r host (
      do_desync_attack w.kernel
        (record {
          checksums = w.checksums;
          profile = r;
          is_https = true;
          packet_raw = sniffed_packet;
          packet_data = request;
          last_char = length request;
          split_pos = min r.split_position (length request);
        })
        w.wire)

unfoldable pub check_response : World → Profile → Bytes → Bool → Bytes → Tested
check_response w r host true sniffed_packet =
    checked (check_https_response w.https r host sniffed_packet)
check_response w r host false sniffed_packet = check_http_response w r host sniffed_packet

-- With the thread joined; what has not been stored is the empty text.
unfoldable pub on_sniffed : World → Profile → Bytes → Bool → SniffEnd → Tested
on_sniffed w r host is_https never_ready = waits
on_sniffed w r host is_https runs = waits
on_sniffed w r host is_https (ended (negsuc n) packet closed) = tested false 1
on_sniffed w r host is_https (ended (pos n) none closed) = check_response w r host is_https []
on_sniffed w r host is_https (ended (pos n) (some packet) closed) =
    check_response w r host is_https packet

unfoldable pub on_port : World → Profile → Bytes → Bool → Option ℕ → SniffEnd → Tested
on_port w r host is_https none e = tested false 1
on_port w r host is_https (some port) e = on_sniffed w r host is_https e

-- A socket that could not be created is not closed.
unfoldable pub on_init : World → Profile → Bytes → Bool → Outcome Init → SniffEnd → Tested
on_init w r host is_https fault e = undefined
on_init w r host is_https out_of_fuel e = waits
on_init w r host is_https (done i) e =
    if ltb_ℤ i.code (pos 0)
    then tested false (if i.open_socket then 1 else 0)
    else if not w.nodelay_ok
    then tested false 1
    else on_port w r host is_https w.local_port e

-- The connection starts when the sniffing thread is ready.
unfoldable pub when_ready : World → Profile → Bytes → Bytes → Bool → SniffEnd → Tested
when_ready w r host ip is_https never_ready = waits
when_ready w r host ip is_https runs =
    on_init w r host is_https (init_remote_server_socket w.remote r ip) runs
when_ready w r host ip is_https (ended status packet closed) =
    on_init w r host is_https (init_remote_server_socket w.remote r ip) (ended status packet closed)

unfoldable pub test_desync_attack :
    World → Profile → (host ip : Bytes) → Server → (is_https : Bool) → Tested
test_desync_attack w r host ip srv is_https =
    when_ready w r host ip is_https (sniff_handshake_packet srv w.sniff_socket_ok w.sniff_turns)
