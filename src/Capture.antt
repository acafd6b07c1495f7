-- ===== src/Capture.antt =====
-- `sniff_ack_packet` and `sniff_handshake_packet` of desync.cpp: loops over the packets that a raw
-- socket receives. A loop is given its turns; where they end, it still runs.
pub mod Handshake
use dpitunnel_cli.Prelude.{
  ℕ, ◌+◌, ◌*◌, ◌%◌, ◌^◌, ℤ, pos, negsuc, Bool, true, false, not, ◌&&◌, List, [], ◌∷◌, ◌++◌, Option,
  none, some,
}
use dpitunnel_cli.Prelude.{Bytes, length, take, drop, replicate, ◌==◌, if◌then◌else◌}
use dpitunnel_cli.Desync.Packet.{get16, get32, tcp_offset}

-- The server's address, as `inet_aton` gives it, and its port.
pub record Server : Type 0 where
  pub addr : ℕ
  pub port : ℕ

-- `recv` into a buffer of 100 bytes: what is behind the packet stays.
abbrev pub into_buffer : Bytes → Bytes → Bytes
into_buffer buffer packet = take 100 packet ++ drop (length packet) buffer

abbrev pub no_packet : Bytes
no_packet = replicate 100 b' '

-- The packet comes from the server; the port it is for.
unfoldable pub from_server : Server → Bytes → Bool
from_server srv p = (get32 p 12 == srv.addr) && (srv.port == get16 p (tcp_offset p))

unfoldable pub port_dst : Bytes → ℕ
port_dst p = get16 p (tcp_offset p + 2)

-- What `poll`, and then `recv`, give.
pub data Polled : Type 0 where
  poll_failed timed_out broken no_data read_failed : Polled
  received : Bytes → Polled

-- One turn: what `flag` and `local_port_atom` hold at its start (`none` for -1), whether the time is
-- over after `poll`, and what has come.
pub record Turn : Type 0 where
  pub flag : Bool
  pub local_port : Option ℕ
  pub late : Bool
  pub polled : Polled

-- How the thread ends: `status`, the packet that it has stored, if any, and how often it has closed
-- its socket. Without a socket it returns before it says that it is ready.
pub data SniffEnd : Type 0 where
  ended : (status : ℤ) (packet : Option Bytes) (closed : ℕ) → SniffEnd
  never_ready : SniffEnd
  runs : SniffEnd

-- The map `packets`, from a port to the packet that came last: the first entry of a port counts.
abbrev pub Packets : Type 0
Packets = List (ℕ × Bytes)

unfoldable pub find_packet : ℕ → Packets → Option Bytes
find_packet port [] = none
find_packet port ((key, p) ∷ rest) = if key == port then some p else find_packet port rest

-- The variables of the loop. `searched` holds the local port from the search in the map on.
pub record Sniff : Type 0 where
  pub buffer : Bytes
  pub packets : Packets
  pub searched : Option ℕ

-- `break`: the socket is closed and the status is 0.
abbrev pub break_with : Option Bytes → SniffEnd
break_with packet = ended (pos 0) packet 1

unfoldable pub on_packet : Server → Option ℕ → Bytes → Sniff → (Sniff → SniffEnd) → SniffEnd
on_packet srv none p s next = next (record s { packets = (port_dst p, p) ∷ s.packets })
on_packet srv (some port) p s next = if port == port_dst p then break_with (some p) else next s

-- The buffer with a packet in it.
unfoldable pub on_received : Server → Bytes → Sniff → (Sniff → SniffEnd) → SniffEnd
on_received srv p s next =
    let s' = record s { buffer = p } in
    if from_server srv p then on_packet srv s.searched p s' next else next s'

unfoldable pub on_polled : Server → Bool → Polled → Sniff → (Sniff → SniffEnd) → SniffEnd
on_polled srv true polled s next = ended (negsuc 0) none 1
on_polled srv false poll_failed s next = break_with none
on_polled srv false broken s next = break_with none
on_polled srv false read_failed s next = break_with none
on_polled srv false timed_out s next = next s
on_polled srv false no_data s next = next s
on_polled srv false (received packet) s next = on_received srv (into_buffer s.buffer packet) s next

-- The search in the map, once, as soon as the local port is known.
unfoldable pub found_or : Option Bytes → ℕ → Sniff → (Sniff → SniffEnd) → SniffEnd
found_or (some p) port s next = break_with (some p)
found_or none port s next = next (record s { searched = some port })

unfoldable pub search : Option ℕ → Option ℕ → Sniff → (Sniff → SniffEnd) → SniffEnd
search (some known) port s next = next s
search none none s next = next s
search none (some port) s next = found_or (find_packet port s.packets) port s next

unfoldable pub sniff_loop : Server → List Turn → Sniff → SniffEnd
sniff_loop srv [] s = runs
sniff_loop srv (t ∷ rest) s =
    let next = sniff_loop srv rest in
    if not t.flag
    then break_with none
    else search s.searched t.local_port s (λ s'. on_polled srv t.late t.polled s' next)

unfoldable pub sniff_handshake_packet : Server → (socket_ok : Bool) → List Turn → SniffEnd
sniff_handshake_packet srv false turns = never_ready
sniff_handshake_packet srv true turns =
    sniff_loop srv turns (record { buffer = no_packet; packets = []; searched = none })

-- `sniff_ack_packet` returns 0 however its loop ends; the flag is cleared where a packet is found, so
-- that the next turn's test stops.
pub data AckEnd : Type 0 where
  ack_ended : (code : ℤ) (packet : Option Bytes) (closed : ℕ) → AckEnd
  ack_runs : AckEnd

pub data AckTurn : Type 0 where
  stopped : AckTurn
  polls : Polled → AckTurn

unfoldable pub ack_received : Server → ℕ → Bytes → (Bytes → AckEnd) → AckEnd
ack_received srv port_local p next =
    if from_server srv p && port_local == port_dst p then ack_ended (pos 0) (some p) 1 else next p

unfoldable pub ack_loop : Server → ℕ → List AckTurn → Bytes → AckEnd
ack_loop srv port_local [] buffer = ack_runs
ack_loop srv port_local (stopped ∷ rest) buffer = ack_ended (pos 0) none 1
ack_loop srv port_local (polls poll_failed ∷ rest) buffer = ack_ended (pos 0) none 1
ack_loop srv port_local (polls broken ∷ rest) buffer = ack_ended (pos 0) none 1
ack_loop srv port_local (polls read_failed ∷ rest) buffer = ack_ended (pos 0) none 1
ack_loop srv port_local (polls timed_out ∷ rest) buffer = ack_loop srv port_local rest buffer
ack_loop srv port_local (polls no_data ∷ rest) buffer = ack_loop srv port_local rest buffer
ack_loop srv port_local (polls (received packet) ∷ rest) buffer =
    ack_received srv port_local (into_buffer buffer packet) (ack_loop srv port_local rest)

unfoldable pub sniff_ack_packet : Server → ℕ → (socket_ok : Bool) → List AckTurn → AckEnd
sniff_ack_packet srv port_local false turns = ack_ended (negsuc 0) none 0
sniff_ack_packet srv port_local true turns = ack_loop srv port_local turns no_packet
