-- ===== src/Proxy/Cycle/Closing.antt =====
-- How `process_client_cycle` leaves its sockets and its thread.
use dpitunnel_cli.Prelude.{
  ℕ, ◌≤◌, ◌≡◌, refl, arith, ℤ, pos, Bool, true, false, not, ◌&&◌, ◌||◌, [], Option, none, some,
}
use dpitunnel_cli.Prelude.{Bytes, if_cases, both, not-true, ◌==◌}
use dpitunnel_cli.Utils.Whitelist.{match_whitelist_ip, match_whitelist_domain}
use dpitunnel_cli.Prelude.Outcome.{Outcome, done, fault, out_of_fuel}
use dpitunnel_cli.Settings.{
  DesyncFirstAttacks, desync_first_none, desync_first_disorder, desync_first_disorder_fake,
  desync_first_split, desync_first_split_fake, ProxyMode, mode_proxy, mode_transparent,
}
use dpitunnel_cli.Http.Request.{Request, request, no_url, no_host, throws}
use dpitunnel_cli.Proxy.State.{
  World, Event, Run, End, returned, waits, terminated, Target, close_client, join, leave,
  close_both, reply_error, send, fail, received_or, is_proxy_mode, recv_step,
}
use dpitunnel_cli.Proxy.Transfer.{transfer}
use dpitunnel_cli.Proxy.Cycle.{
  synchronize, attack_at, attack_now, desync_stage, relay, establish, with_port, connect,
  fail_client, when_ready, resolved, resolve_stripped, with_host, with_name, transparent,
  parsed_request, first_request, accepted, process_client_cycle,
}
use dpitunnel_cli.Proxy.Transfer.Sockets.{
  Fresh, Both, Ends, close_both-Both, send-Ends, reply_error-Fresh, fail-Ends, recv_step-Fresh,
  received_or-Ends, SomeRun, strip_if-Fresh, transfer-Ends,
}

twice :
    (w : World) (t : Target) (a b : Event) (s : Run)
    → Fresh s
    → Both (send w a (send w b (transfer w t.is_https w.polls) (fail w)) (fail w) s)
twice w t a b s h =
    let loop = transfer-Ends w t.is_https w.polls in
    send-Ends w a _ _ (send-Ends w b _ _ loop (fail-Ends w)) (fail-Ends w) s h

synchronize-Ends :
    (w : World) (t : Target) (at : ℕ) (kind : DesyncFirstAttacks) → Ends (synchronize w t at kind)
unfolding synchronize
synchronize-Ends w t at desync_first_none s h =
    send-Ends w _ _ _ (transfer-Ends w t.is_https w.polls) (fail-Ends w) s h
synchronize-Ends w t at desync_first_disorder s h = twice w t _ _ s h
synchronize-Ends w t at desync_first_disorder_fake s h = twice w t _ _ s h
synchronize-Ends w t at desync_first_split s h = twice w t _ _ s h
synchronize-Ends w t at desync_first_split_fake s h = twice w t _ _ s h

attack_at-Both :
    (w : World) (t : Target) (s : Run) (o : Outcome ℕ) → Fresh s → Both (attack_at w t s o)
unfolding attack_at
attack_at-Both w t s (done at) h = synchronize-Ends w t at (w.profile).desync_first_attack _ h
attack_at-Both w t s fault h = tt
attack_at-Both w t s out_of_fuel h = tt

attack_now-Ends : (w : World) (t : Target) → Ends (attack_now w t)
unfolding attack_now
attack_now-Ends w t s h = attack_at-Both w t s _ h

desync_stage-Ends : (w : World) (t : Target) → Ends (desync_stage w t)
unfolding desync_stage
desync_stage-Ends w t s h =
    if_cases Both (not w.captured) _ _ (λ _. fail-Ends w s h)
      (λ _.
        if_cases Both (t.is_https && is_proxy_mode w) _ _
          (λ _.
            received_or-Ends w (attack_now w t) close_both (attack_now-Ends w t) close_both-Both s
              h)
          (λ _. attack_now-Ends w t s h))

relay-Ends : (w : World) (t : Target) → Ends (relay w t)
unfolding relay
relay-Ends w t s h =
    let loop = transfer-Ends w t.is_https w.polls in
    if_cases Both t.desync _ _ (λ _. desync_stage-Ends w t (join s) h)
      (λ _.
        if_cases Both (not t.is_https || not (is_proxy_mode w)) _ _
          (λ _. send-Ends w _ _ _ loop (fail-Ends w) s h) (λ _. loop s h))

establish-Ends : (w : World) (t : Target) → Ends (establish w t)
unfolding establish
establish-Ends w t s h =
    if_cases Both (t.is_https && is_proxy_mode w) _ _
      (λ _. send-Ends w _ _ _ (relay-Ends w t) close_both-Both s h) (λ _. relay-Ends w t s h)

with_port-Both : (w : World) (t : Target) (o : Option ℕ) → Ends (with_port w t o)
unfolding with_port
with_port-Both w t none s h = fail-Ends w (join s) h
with_port-Both w t (some port) s h = establish-Ends w t s h

connect-Ends : (w : World) (t : Target) → Ends (connect w t)
unfolding connect
connect-Ends w t s h =
    if_cases Both (not w.connect_ok) _ _ (λ _. fail-Ends w (join s) h)
      (λ _.
        if_cases Both (not w.nodelay_ok) _ _ (λ _. fail-Ends w (join s) h)
          (λ _. with_port-Both w t w.local_port s h))

-- A return with the client's socket closed once, the server's once if there was one, and the thread
-- joined; or a wait for ever, with no socket closed, for a thread that could not open its own.
abbrev pub Shut : World → End → Type 0
Shut w (returned s) = (s.client_closed ≡ 1) × (s.server_closed ≤ 1) × (s.sniffing ≡ false)
Shut w (waits s) =
    (w.sniff_socket_ok ≡ false)
    × ((w.profile).desync_attacks ≡ true)
    × (s.client_closed ≡ 0)
    × (s.server_closed ≡ 0)
Shut w terminated = Unit

Both→Shut : (w : World) (e : End) → Both e → Shut w e
Both→Shut w (returned s) (c, v, j) = (c, omega arith, j)
Both→Shut w (waits s) h = absurd h
Both→Shut w terminated h = tt

leave-Shut : (w : World) (s : Run) → Fresh s → Shut w (leave (close_client s))
unfolding leave
leave-Shut w s (c, v) =
    if_cases (Shut w) s.sniffing terminated (returned (close_client s)) (λ e. tt)
      (λ e. (omega arith, omega arith, e))

fail_client-Shut : (w : World) (s : Run) → Fresh s → Shut w (fail_client w s)
unfolding fail_client
fail_client-Shut w s h = leave-Shut w (reply_error w s) (reply_error-Fresh w s h)

ready-Shut :
    (w : World) (t : Target) (s : Run)
    → Fresh s
    → (t.desync ≡ true → (w.profile).desync_attacks ≡ true)
    → Shut w (when_ready w t s)
unfolding when_ready
ready-Shut w t s h attacks =
    if_cases (Shut w) (t.desync && not w.sniff_socket_ok) (waits s) _
      (λ e.
        let tests = both t.desync (not w.sniff_socket_ok) e in
        (not-true tests.1, attacks tests.0, h.0, h.1))
      (λ _. Both→Shut w _ (connect-Ends w t _ h))

resolved-Shut :
    (w : World) (is_https : Bool) (host : Bytes) (port : ℤ) (s : Run) (o : Option Bytes)
    → Fresh s
    → Shut w (resolved w is_https host port s o)
unfolding resolved
resolved-Shut w is_https host port s none h = fail_client-Shut w s h
resolved-Shut w is_https host port s (some server) h =
    let listed = match_whitelist_ip w.settings server || match_whitelist_domain w.settings host in
    ready-Shut w _ s h (λ e. (both (w.profile).desync_attacks (not listed) e).0)

resolve_stripped-Shut :
    (w : World) (is_https : Bool) (host : Bytes) (port : ℤ) (o : Option Run)
    → SomeRun o
    → Shut w (resolve_stripped w is_https host port o)
unfolding resolve_stripped
resolve_stripped-Shut w is_https host port none h = tt
resolve_stripped-Shut w is_https host port (some s) h = resolved-Shut w is_https host port s _ h

with_host-Shut :
    (w : World) (is_https : Bool) (host : Bytes) (port : ℤ) (s : Run)
    → Fresh s
    → Shut w (with_host w is_https host port s)
unfolding with_host
with_host-Shut w is_https host port s h =
    resolve_stripped-Shut w is_https host port _
      (strip_if-Fresh (not is_https && is_proxy_mode w) s h)

with_name-Shut :
    (w : World) (port : ℤ) (s : Run) (o : Outcome Bytes) → Fresh s → Shut w (with_name w port s o)
unfolding with_name
with_name-Shut w port s (done host) h = with_host-Shut w true host port s h
with_name-Shut w port s fault h = tt
with_name-Shut w port s out_of_fuel h = tt

transparent-Shut :
    (w : World) (host : Option Bytes) (s : Run) (o : Option (Bytes × ℤ))
    → Fresh s
    → Shut w (transparent w host s o)
unfolding transparent
transparent-Shut w none s none h = leave-Shut w s h
transparent-Shut w (some host) s none h = leave-Shut w s h
transparent-Shut w (some host) s (some (address, port)) h = with_host-Shut w false host port s h
transparent-Shut w none s (some (address, port)) h = with_name-Shut w port s _ h

parsed_request-Shut :
    (w : World) (mode : ProxyMode) (s : Run) (r : Request)
    → Fresh s
    → Shut w (parsed_request w mode s r)
unfolding parsed_request
parsed_request-Shut w mode_proxy s throws h = tt
parsed_request-Shut w mode_transparent s throws h = tt
parsed_request-Shut w mode_proxy s no_url h = fail_client-Shut w s h
parsed_request-Shut w mode_transparent s no_url h = fail_client-Shut w s h
parsed_request-Shut w mode_proxy s (request method host port) h = with_host-Shut w _ host port s h
parsed_request-Shut w mode_proxy s (no_host method) h = with_host-Shut w _ [] (pos 0) s h
parsed_request-Shut w mode_transparent s (request method host port) h =
    transparent-Shut w (some host) s w.original h
parsed_request-Shut w mode_transparent s (no_host method) h = transparent-Shut w none s w.original h

-- Whatever the calls answer, `process_client_cycle` returns with the client's socket closed exactly
-- once, the server's at most once and the capturing thread joined; or the program ends; or it waits
-- for ever with the client's socket open, which it does only where packets are to be captured and
-- the capturing thread cannot create its raw socket.
pub process_client_cycle-Shut : (w : World) → Shut w (process_client_cycle w)
unfolding process_client_cycle received_or first_request
process_client_cycle-Shut w =
    let step = recv_step w (accepted w) in
    let fresh = recv_step-Fresh w (accepted w) (refl, refl) in
    if_cases (Shut w) (not w.timeouts_ok) _ _ (λ _. leave-Shut w (accepted w) (refl, refl))
      (λ _.
        if_cases (Shut w) (not (step.0) || (step.1).last_char == 0) (leave (close_client (step.1)))
          (first_request w (step.1)) (λ _. leave-Shut w (step.1) fresh)
          (λ _. parsed_request-Shut w _ (step.1) _ fresh))
