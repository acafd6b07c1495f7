-- ===== src/Proxy/Transfer/Sockets.antt =====
-- Where the loop that carries data ends, both sockets are closed.
use dpitunnel_cli.Prelude.{
  ℕ, ◌≡◌, arith, Bool, true, false, not, ◌&&◌, ◌||◌, List, [], ◌∷◌, Option, none, some,
}
use dpitunnel_cli.Prelude.{Bytes, if_cases, ◌==◌}
use dpitunnel_cli.Http.Request.{remove_proxy_strings}
use dpitunnel_cli.Proxy.State.{
  Poll, poll_error, timed_out, broken, ready, World, Event, Run, End, returned, waits, terminated,
  server_gets, close_client, close_server, leave, close_both, reply_error, send, fail, received_or,
  is_proxy_mode, text, recv_step,
}
use dpitunnel_cli.Proxy.Transfer.{
  put_back, send_step, strip, strip_if, forward, from_client, from_server, client_part, server_part,
  after_parts, transfer,
}

-- Neither socket has been closed.
abbrev pub Fresh : Run → Type 0
Fresh s = (s.client_closed ≡ 0) × (s.server_closed ≡ 0)

-- A return with both sockets closed once and the thread joined.
abbrev pub Both : End → Type 0
Both (returned s) = (s.client_closed ≡ 1) × (s.server_closed ≡ 1) × (s.sniffing ≡ false)
Both (waits s) = ⊥
Both terminated = Unit

abbrev pub Ends : (Run → End) → Type 0
Ends f = (s : Run) → Fresh s → Both (f s)

pub close_both-Both : Ends close_both
unfolding leave
close_both-Both s (c, v) =
    if_cases Both s.sniffing terminated (returned (close_client (close_server s))) (λ e. tt)
      (λ e. (omega arith, omega arith, e))

pub send-Ends :
    (w : World) (e : Event) (good bad : Run → End) → Ends good → Ends bad → Ends (send w e good bad)
unfolding send
send-Ends w e good bad g b s h = if_cases Both (w.send_ok s.sends) _ _ (λ _. g _ h) (λ _. b _ h)

pub reply_error-Fresh : (w : World) (s : Run) → Fresh s → Fresh (reply_error w s)
unfolding reply_error
reply_error-Fresh w s h = if_cases Fresh (w.send_ok s.sends) _ _ (λ _. h) (λ _. h)

pub fail-Ends : (w : World) → Ends (fail w)
unfolding fail
fail-Ends w s h = close_both-Both (reply_error w s) (reply_error-Fresh w s h)

pub recv_step-Fresh : (w : World) (s : Run) → Fresh s → Fresh ((recv_step w s).1)
unfolding recv_step
recv_step-Fresh w s h = h

pub received_or-Ends :
    (w : World) (good bad : Run → End) → Ends good → Ends bad → Ends (received_or w good bad)
unfolding received_or
received_or-Ends w good bad g b s h =
    let step = recv_step w s in
    if_cases Both (not (step.0) || (step.1).last_char == 0) (bad (step.1)) (good (step.1))
      (λ _. b (step.1) (recv_step-Fresh w s h)) (λ _. g (step.1) (recv_step-Fresh w s h))

-- What the steps of the loop leave.
abbrev pub Some : Option (Bool × Run) → Type 0
Some none = Unit
Some (some (ok, s)) = Fresh s

abbrev pub SomeRun : Option Run → Type 0
SomeRun none = Unit
SomeRun (some s) = Fresh s

pub put_back-Fresh : (s : Run) (o : Option (Bytes × ℕ)) → Fresh s → SomeRun (put_back s o)
unfolding put_back
put_back-Fresh s none h = tt
put_back-Fresh s (some (buffer, last_char)) h = h

pub strip_if-Fresh : (b : Bool) (s : Run) → Fresh s → SomeRun (strip_if b s)
unfolding strip_if strip
strip_if-Fresh false s h = h
strip_if-Fresh true s h = put_back-Fresh s (remove_proxy_strings s.buffer s.last_char) h

pub send_step-Fresh : (w : World) (e : Event) (s : Run) → Fresh s → Fresh ((send_step w e s).1)
unfolding send_step
send_step-Fresh w e s h =
    if_cases (λ (r : Bool × Run). Fresh (r.1)) (w.send_ok s.sends) _ _ (λ _. h) (λ _. h)

pub forward-Some : (w : World) (ok : Bool) (o : Option Run) → SomeRun o → Some (forward w ok o)
unfolding forward
forward-Some w ok none h = tt
forward-Some w ok (some s) h = send_step-Fresh w (server_gets (text s)) s h

pub client_part-Some :
    (w : World) (is_https client : Bool) (s : Run)
    → Fresh s
    → Some (client_part w is_https client s)
unfolding client_part from_client
client_part-Some w is_https false s h = h
client_part-Some w is_https true s h =
    forward-Some w _ _ (strip_if-Fresh (not is_https && is_proxy_mode w) _ (recv_step-Fresh w s h))

pub server_part-Fresh :
    (w : World) (server ok : Bool) (s : Run) → Fresh s → Fresh ((server_part w server (ok, s)).1)
unfolding server_part from_server
server_part-Fresh w false ok s h = h
server_part-Fresh w true ok s h = send_step-Fresh w _ _ (recv_step-Fresh w s h)

pub after_parts-Both :
    (w : World) (server : Bool) (on : Run → End) (o : Option (Bool × Run))
    → Ends on
    → Some o
    → Both (after_parts w server on o)
unfolding after_parts
after_parts-Both w server on none g h = tt
after_parts-Both w server on (some (ok, s)) g h =
    let f = server_part-Fresh w server ok s h in
    if_cases Both ((server_part w server (ok, s)).0) _ _ (λ _. g _ f) (λ _. close_both-Both _ f)

pub transfer-Ends : (w : World) (is_https : Bool) (ps : List Poll) → Ends (transfer w is_https ps)
unfolding transfer
transfer-Ends w is_https [] s h = close_both-Both s h
transfer-Ends w is_https (poll_error ∷ ps) s h = close_both-Both s h
transfer-Ends w is_https (broken ∷ ps) s h = close_both-Both s h
transfer-Ends w is_https (timed_out ∷ ps) s h = transfer-Ends w is_https ps s h
transfer-Ends w is_https (ready client server ∷ ps) s h =
    after_parts-Both w server (transfer w is_https ps) (client_part w is_https client s)
      (transfer-Ends w is_https ps) (client_part-Some w is_https client s h)
