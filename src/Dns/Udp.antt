-- ===== src/Dns/Udp.antt =====
-- `resolve_host_over_udp`: a query to the DNS server of the profile and the wait for its answer.
use dpitunnel_cli.Prelude.{
  ℕ, ◌%◌, Bool, List, [], ◌∷◌, Option, none, some, Bytes, take, not, c_str, ◌==◌, if◌then◌else◌,
}
use dpitunnel_cli.Prelude.Outcome.{Outcome, done, fault, out_of_fuel}
use dpitunnel_cli.Settings.{Profile}
use dpitunnel_cli.Dns.{DnsLib, Message, no_message, form_dns_request, first_address}

-- One turn of the loop: the time is over, or `poll` fails, times out, reports an error or no data,
-- or `recvfrom` fails or gives a datagram.
pub data Turn : Type 0 where
  expired poll_failed timed_out broken no_data receive_failed : Turn
  datagram : Bytes → Turn

-- What the calls before the loop answer, and the turns.
pub record UdpWorld : Type 0 where
  pub rand : ℕ
  pub socket_ok : Bool
  pub is_ipv4 : Bytes → Bool
  pub sendto_ok : Bool
  pub turns : List Turn

-- How the call ends, with how often the socket has been closed; `waits` where the turns end first.
pub data UdpEnd (A : Type 0) : Type 0 where
  ended : (closed : ℕ) → A → UdpEnd A
  waits : UdpEnd A

-- `close(sock); return -1;`
abbrev pub close_failed : UdpEnd (Option Message)
close_failed = ended 1 none

-- The answer to another query is passed over, but what it has left in the message stays.
unfoldable pub on_message :
    ℕ → (Message → UdpEnd (Option Message)) → Option Message → UdpEnd (Option Message)
on_message id again none = close_failed
on_message id again (some m) = if m.id == id then ended 1 (some m) else again m

-- A datagram is cut at the 512 bytes of the buffer.
unfoldable pub wait_answer : DnsLib → ℕ → Message → List Turn → UdpEnd (Option Message)
wait_answer lib id m [] = waits
wait_answer lib id m (expired ∷ rest) = close_failed
wait_answer lib id m (poll_failed ∷ rest) = close_failed
wait_answer lib id m (broken ∷ rest) = close_failed
wait_answer lib id m (receive_failed ∷ rest) = close_failed
wait_answer lib id m (timed_out ∷ rest) = wait_answer lib id m rest
wait_answer lib id m (no_data ∷ rest) = wait_answer lib id m rest
wait_answer lib id m (datagram d ∷ rest) =
    on_message id (λ m'. wait_answer lib id m' rest) (lib.decode m (take 512 d))

unfoldable pub udp_result : UdpEnd (Option Message) → UdpEnd (Option Bytes)
udp_result waits = waits
udp_result (ended closed none) = ended closed none
udp_result (ended closed (some m)) = ended closed (first_address m.answers)

-- The socket has been opened.
unfoldable pub query_server : DnsLib → UdpWorld → Profile → ℕ → UdpEnd (Option Message)
query_server lib w p id =
    if not (w.is_ipv4 (c_str p.builtin_dns_ip))
    then close_failed
    else if not w.sendto_ok
    then close_failed
    else wait_answer lib id no_message w.turns

unfoldable pub udp_query :
    DnsLib → UdpWorld → Profile → ℕ → Outcome Bytes → Outcome (UdpEnd (Option Bytes))
udp_query lib w p id fault = fault
udp_query lib w p id out_of_fuel = out_of_fuel
udp_query lib w p id (done request) =
    done (if w.socket_ok then udp_result (query_server lib w p id) else ended 0 none)

unfoldable pub resolve_host_over_udp :
    DnsLib → UdpWorld → Profile → Bytes → Outcome (UdpEnd (Option Bytes))
resolve_host_over_udp lib w p host =
    let id = w.rand % 65535 in udp_query lib w p id (form_dns_request lib host id)
