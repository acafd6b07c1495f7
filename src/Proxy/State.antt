-- ===== src/Proxy/State.antt =====
-- The state of `process_client_cycle` of dpitunnel-cli.cpp. A socket is followed by how often it has
-- been closed; the thread that captures packets by whether it has been joined, since a thread that is
-- destroyed before that ends the program.
use dpitunnel_cli.Prelude.{ℕ, ◌+◌, take, Bool, true, false, not, ◌||◌, List, [], ◌∷◌, ◌++◌, Option}
use dpitunnel_cli.Prelude.{ℤ, Bytes, codes, ◌==◌, if◌then◌else◌}
use dpitunnel_cli.Settings.{Profile, Settings, mode_proxy, mode_transparent}

-- One return of `poll`; the list of them ends where `stop_flag` is set.
pub data Poll : Type 0 where
  poll_error timed_out broken : Poll
  ready : (client server : Bool) → Poll

-- What the calls answer: the n-th `recv_string` (whether it is 0, the buffer and its `last_char`)
-- from the buffer before, the n-th `send_string`, and the others, which are made once.
pub record World : Type 0 where
  pub settings : Settings
  pub profile : Profile
  pub timeouts_ok : Bool
  pub recv : ℕ → Bytes × ℕ → Bool × Bytes × ℕ
  pub send_ok : ℕ → Bool
  pub original : Option (Bytes × ℤ)
  pub resolve : Bytes → Option Bytes
  pub sniff_socket_ok : Bool
  pub connect_ok : Bool
  pub nodelay_ok : Bool
  pub local_port : Option ℕ
  pub captured : Bool
  pub polls : List Poll

pub data Event : Type 0 where
  client_gets server_gets : Bytes → Event
  attacks :
      (server_ip : Bytes) (port : ℤ) (is_https : Bool) (buffer : Bytes) (last_char split_pos : ℕ)
      → Event

pub record Run : Type 0 where
  pub buffer : Bytes
  pub last_char : ℕ
  pub recvs : ℕ
  pub sends : ℕ
  pub events : List Event
  pub client_closed : ℕ
  pub server_closed : ℕ
  pub sniffing : Bool

-- The function has returned; or the program ends: an exception, a read out of bounds or a thread
-- that is not joined; or the function waits for ever, in the state given.
pub data End : Type 0 where
  returned waits : Run → End
  terminated : End

abbrev pub close_client : Run → Run
close_client s = record s { client_closed = s.client_closed + 1 }

abbrev pub close_server : Run → Run
close_server s = record s { server_closed = s.server_closed + 1 }

abbrev pub join : Run → Run
join s = record s { sniffing = false }

-- The thread is destroyed where the function returns.
unfoldable pub leave : Run → End
leave s = if s.sniffing then terminated else returned s

abbrev pub close_both : Run → End
close_both s = leave (close_client (close_server s))

abbrev pub connection_error_response : Bytes
connection_error_response =
    codes "HTTP/1.1 0 Connection establish problem (read logs)" ++ 13 ∷ 10 ∷ 13 ∷ 10 ∷ []

abbrev pub connection_established_response : Bytes
connection_established_response =
    codes "HTTP/1.1 200 Connection established" ++ 13 ∷ 10 ∷ 13 ∷ 10 ∷ []

-- `send_string` to one of the two; what it sends counts where it returns 0.
abbrev pub sent : Run → Event → Run
sent s e = record s { sends = s.sends + 1; events = s.events ++ e ∷ [] }

unfoldable pub reply_error : World → Run → Run
reply_error w s =
    if w.send_ok s.sends
    then sent s (client_gets connection_error_response)
    else record s { sends = s.sends + 1 }

-- `send_string`, and what follows on 0 and on -1.
unfoldable pub send : World → Event → (Run → End) → (Run → End) → Run → End
send w e good bad s =
    if w.send_ok s.sends then good (sent s e) else bad (record s { sends = s.sends + 1 })

-- The reply to the client, and both sockets closed.
unfoldable pub fail : World → Run → End
unfolding reply_error
fail w s = close_both (reply_error w s)

-- `recv_string`: whether it has returned 0, and what is in the buffer.
unfoldable pub recv_step : World → Run → Bool × Run
recv_step w s =
    let (ok, buffer, last_char) = w.recv s.recvs (s.buffer, s.last_char) in
    (ok, record s { buffer = buffer; last_char = last_char; recvs = s.recvs + 1 })

-- `recv_string` of the first packets, where nothing received is a failure.
unfoldable pub received_or : World → (Run → End) → (Run → End) → Run → End
received_or w good bad s =
    let step = recv_step w s in
    if not (step.0) || (step.1).last_char == 0 then bad (step.1) else good (step.1)

-- The server, as the first request and the profile give it.
pub record Target : Type 0 where
  pub is_https : Bool
  pub server_ip : Bytes
  pub server_port : ℤ
  pub desync : Bool

abbrev pub is_proxy_mode : World → Bool
is_proxy_mode w = elim (w.settings).proxy_mode [ mode_proxy ↦ true | mode_transparent ↦ false ]

-- The text in the buffer.
abbrev pub text : Run → Bytes
text s = take s.last_char s.buffer
