-- ===== src/Stream/Hops.antt =====
-- `count_hops_private` and `count_hops` of socket.cpp: the least TTL that reaches the server.
pub mod Least
pub mod Rounds
use dpitunnel_cli.Prelude.{
  ℕ, zero, suc, ◌+◌, ◌*◌, ◌%◌, ◌≡◌, refl, ℤ, pos, negsuc, Bool, true, false, not, ◌&&◌, List, [],
  ◌∷◌, Option, none, some, Bytes, c_str, get_or, ltb_ℤ, ◌==◌, if◌then◌else◌,
}
use dpitunnel_cli.Prelude.Outcome.{Outcome, done, fault, out_of_fuel}
use dpitunnel_cli.Capture.{
  Server, into_buffer, no_packet, from_server, port_dst, Polled, poll_failed, timed_out, broken,
  no_data, read_failed, received,
}
use dpitunnel_cli.Capture.{SniffEnd, ended, never_ready, runs, sniff_handshake_packet}
use dpitunnel_cli.Stream.Connect.{Connect, connects, connect_with_timeout}
use dpitunnel_cli.Desync.Packet.{CheckSums, Fields, form_packet}

-- One turn of the wait for an answer.
pub data Turn : Type 0 where
  over : Turn
  polls : Polled → Turn

-- What happens at one TTL; the turns are those after the packet given has been sent.
pub record Probe : Type 0 where
  pub rand : ℕ
  pub sendto_ok : Bool
  pub turns : Bytes → List Turn

-- The answers of the system and of the network.
pub record World : Type 0 where
  pub checksums : CheckSums
  pub socket_ok : Bool
  pub sniff_socket_ok : Bool
  pub sniff_turns : List dpitunnel_cli.Capture.Turn
  pub connect : dpitunnel_cli.Stream.Connect.World
  pub local_port : Option ℕ
  pub raw_socket_ok : Bool
  pub sndbuf_ok : Bool
  pub hdrincl_ok : Bool
  pub max_segment : Option ℕ
  pub probes : ℕ → Probe

-- The code, with the sockets that the call has opened and closed itself; `undefined` where a packet
-- is read out of bounds.
pub data Hops : Type 0 where
  hops : (code : ℤ) (opened closed : ℕ) → Hops
  waits undefined : Hops

-- The wait ends with an answer or without, and leaves the buffer.
pub data Reply : Type 0 where
  replied endless : Reply
  silent : Bytes → Reply

unfoldable pub is_reply : Server → ℕ → Bytes → Bool
is_reply srv local_port p = from_server srv p && port_dst p == local_port

unfoldable pub reply_loop : Server → ℕ → Bytes → List Turn → Reply
reply_loop srv local_port buffer [] = endless
reply_loop srv local_port buffer (over ∷ rest) = silent buffer
reply_loop srv local_port buffer (polls poll_failed ∷ rest) = silent buffer
reply_loop srv local_port buffer (polls broken ∷ rest) = silent buffer
reply_loop srv local_port buffer (polls read_failed ∷ rest) = silent buffer
reply_loop srv local_port buffer (polls timed_out ∷ rest) = reply_loop srv local_port buffer rest
reply_loop srv local_port buffer (polls no_data ∷ rest) = reply_loop srv local_port buffer rest
reply_loop srv local_port buffer (polls (received packet) ∷ rest) =
    let p = into_buffer buffer packet in
    let more = reply_loop srv local_port p rest in
    if is_reply srv local_port p then replied else more

abbrev probe_fields : ℕ → ℕ → ℕ → Fields
probe_fields rand ttl window_size = record {
  id = rand % 65535;
  ttl = ttl;
  seq = 0;
  ack_seq = 1;
  window_size = window_size;
  is_swap_addr = true;
  flags = none;
}

-- Both sockets are closed at the end.
abbrev pub both_closed : ℤ → Hops
both_closed code = hops code 2 2

unfoldable pub on_reply : ℕ → Reply → (Bytes → Hops) → Hops
on_reply ttl replied next = both_closed (pos ttl)
on_reply ttl (silent buffer) next = next buffer
on_reply ttl endless next = waits

-- The packet is formed; it goes out, or the loop is left.
unfoldable pub probe : Server → ℕ → ℕ → Probe → Bytes → Outcome Bytes → (Bytes → Hops) → Hops
probe srv local_port ttl p buffer fault next = undefined
probe srv local_port ttl p buffer out_of_fuel next = undefined
probe srv local_port ttl p buffer (done packet) next =
    if p.sendto_ok
    then on_reply ttl (reply_loop srv local_port buffer (p.turns packet)) next
    else both_closed (negsuc 0)

-- `left` more values of `ttl`.
unfoldable pub ttl_loop : World → Server → ℕ → Bytes → ℕ → ℕ → ℕ → Bytes → Hops
ttl_loop w srv local_port sniffed window_size ttl zero buffer = both_closed (negsuc 0)
ttl_loop w srv local_port sniffed window_size ttl (suc left) buffer =
    let p = w.probes ttl in
    probe srv local_port ttl p buffer
      (form_packet w.checksums (probe_fields p.rand ttl window_size) sniffed (0 ∷ []))
      (ttl_loop w srv local_port sniffed window_size (suc ttl) left)

unfoldable pub with_segment : World → Server → ℕ → Bytes → Option ℕ → Hops
with_segment w srv local_port sniffed none = both_closed (negsuc 0)
with_segment w srv local_port sniffed (some window_size) =
    ttl_loop w srv local_port sniffed window_size 1 255 no_packet

unfoldable pub with_raw_socket : World → Server → ℕ → Bytes → Hops
with_raw_socket w srv local_port sniffed =
    if not w.raw_socket_ok
    then hops (negsuc 0) 1 1
    else if not w.sndbuf_ok
    then both_closed (negsuc 0)
    else if not w.hdrincl_ok
    then both_closed (negsuc 0)
    else with_segment w srv local_port sniffed w.max_segment

-- A packet that has not been stored is the empty text.
unfoldable pub with_sniffed : World → Server → ℕ → SniffEnd → Hops
with_sniffed w srv local_port never_ready = waits
with_sniffed w srv local_port runs = waits
with_sniffed w srv local_port (ended (negsuc n) packet closed) = hops (negsuc 0) 1 1
with_sniffed w srv local_port (ended (pos n) none closed) = with_raw_socket w srv local_port []
with_sniffed w srv local_port (ended (pos n) (some p) closed) = with_raw_socket w srv local_port p

unfoldable pub with_port : World → Server → Option ℕ → SniffEnd → Hops
with_port w srv none e = hops (negsuc 0) 1 1
with_port w srv (some local_port) e = with_sniffed w srv local_port e

-- The sniffing thread must be ready before the connection starts.
unfoldable pub with_connect : World → Server → Connect → SniffEnd → Hops
with_connect w srv c never_ready = waits
with_connect w srv Connect.waits e = waits
with_connect w srv (connects rc flags) e =
    if ltb_ℤ rc (pos 0) then hops (negsuc 0) 1 1 else with_port w srv w.local_port e

unfoldable pub count_hops_private : World → Server → Hops
count_hops_private w srv =
    if not w.socket_ok
    then hops (negsuc 0) 0 0
    else with_connect w srv (connect_with_timeout w.connect)
        (sniff_handshake_packet srv w.sniff_socket_ok w.sniff_turns)

-- A smaller TTL is kept.
unfoldable pub keep : Hops → Option ℤ → Option ℤ
keep (hops (pos n) opened closed) (some ttl) = some (if ltb_ℤ (pos n) ttl then pos n else ttl)
keep (hops (negsuc n) opened closed) o = o
keep (hops (pos n) opened closed) none = none
keep waits o = none
keep undefined o = none

-- `ttl == 256 ? -1 : ttl`; the start value and a TTL are not below 0.
unfoldable pub last_ttl : Option ℤ → Option ℤ
last_ttl none = none
last_ttl (some (negsuc n)) = some (negsuc n)
last_ttl (some (pos n)) = some (if n == 256 then negsuc 0 else pos n)

-- Three rounds; `none` where one of them does not end.
unfoldable pub count_hops : (w1 w2 w3 : World) → Server → (is_ipv4 : Bool) → Option ℤ
count_hops w1 w2 w3 srv is_ipv4 =
    if not is_ipv4
    then some (negsuc 0)
    else last_ttl (
        keep (count_hops_private w3 srv)
          (keep (count_hops_private w2 srv) (keep (count_hops_private w1 srv) (some (pos 256)))))
