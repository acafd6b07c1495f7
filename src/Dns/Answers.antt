-- ===== src/Dns/Answers.antt =====
-- Which datagram gives the address that `resolve_host_over_udp` returns.
use dpitunnel_cli.Prelude.{
  ℕ, ◌%◌, ◌≤◌, ◌≡◌, ◌≢◌, ◌∙◌, refl, sym, arith, ==_iff, false≢true, List, [], ◌∷◌, Option, none,
  some, Bytes, take, c_str, not, if_cases, ◌==◌,
}
use dpitunnel_cli.Prelude.Outcome.{Returns}
use dpitunnel_cli.Settings.{Profile}
use dpitunnel_cli.Dns.{DnsLib, Message, no_message, form_dns_request, first_address}
use dpitunnel_cli.Dns.Udp.{
  Turn, expired, poll_failed, timed_out, broken, no_data, receive_failed, datagram, UdpWorld,
  UdpEnd, ended, waits, on_message, wait_answer, udp_result, query_server, udp_query,
  resolve_host_over_udp,
}

-- A message is taken from the first datagram whose message has the query's number. Those before it
-- had another, and the turns between them brought nothing.
pub data Answers (lib : DnsLib) (id : ℕ) : Message → List Turn → Message → Type 0 where
  here :
      {m m' : Message} {d : Bytes} {rest : List Turn}
      → lib.decode m (take 512 d) ≡ some m'
      → m'.id ≡ id
      → Answers lib id m (datagram d ∷ rest) m'
  later :
      {m m1 m' : Message} {d : Bytes} {rest : List Turn}
      → lib.decode m (take 512 d) ≡ some m1
      → m1.id ≢ id
      → Answers lib id m1 rest m'
      → Answers lib id m (datagram d ∷ rest) m'
  after_timeout :
      {m m' : Message} {rest : List Turn}
      → Answers lib id m rest m'
      → Answers lib id m (timed_out ∷ rest) m'
  after_nothing :
      {m m' : Message} {rest : List Turn}
      → Answers lib id m rest m'
      → Answers lib id m (no_data ∷ rest) m'

-- How the wait may end.
abbrev pub Waited : DnsLib → ℕ → Message → List Turn → UdpEnd (Option Message) → Type 0
Waited lib id m turns waits = Unit
Waited lib id m turns (ended closed none) = closed ≡ 1
Waited lib id m turns (ended closed (some m')) = (closed ≡ 1) × Answers lib id m turns m'

-- More turns at the front.
Waited-later :
    (lib : DnsLib) (id : ℕ) (m m1 : Message) (before turns : List Turn)
    (e : UdpEnd (Option Message))
    → ((m' : Message) → Answers lib id m1 turns m' → Answers lib id m before m')
    → Waited lib id m1 turns e
    → Waited lib id m before e
Waited-later lib id m m1 before turns waits f h = tt
Waited-later lib id m m1 before turns (ended closed none) f h = h
Waited-later lib id m m1 before turns (ended closed (some m')) f (c, a) = (c, f m' a)

on_message-Waited :
    (lib : DnsLib) (id : ℕ) (m : Message) (d : Bytes) (rest : List Turn) (o : Option Message)
    → lib.decode m (take 512 d) ≡ o
    → ((m1 : Message) → Waited lib id m1 rest (wait_answer lib id m1 rest))
    → Waited lib id m (datagram d ∷ rest) (on_message id (λ m1. wait_answer lib id m1 rest) o)
unfolding on_message
on_message-Waited lib id m d rest none e ih = refl
on_message-Waited lib id m d rest (some m1) e ih =
    if_cases (Waited lib id m (datagram d ∷ rest)) (m1.id == id) _ _
      (λ same. (refl, here e ((==_iff m1.id id).0 same)))
      (λ other.
        Waited-later lib id m m1 (datagram d ∷ rest) rest (wait_answer lib id m1 rest)
          (λ m' a. later e (λ q. false≢true (sym other ∙ (==_iff m1.id id).1 q)) a) (ih m1))

wait_answer-Waited :
    (lib : DnsLib) (id : ℕ) (m : Message) (turns : List Turn)
    → Waited lib id m turns (wait_answer lib id m turns)
unfolding wait_answer
wait_answer-Waited lib id m [] = tt
wait_answer-Waited lib id m (expired ∷ rest) = refl
wait_answer-Waited lib id m (poll_failed ∷ rest) = refl
wait_answer-Waited lib id m (broken ∷ rest) = refl
wait_answer-Waited lib id m (receive_failed ∷ rest) = refl
wait_answer-Waited lib id m (timed_out ∷ rest) =
    Waited-later lib id m m (timed_out ∷ rest) rest (wait_answer lib id m rest)
      (λ m'. after_timeout) (wait_answer-Waited lib id m rest)
wait_answer-Waited lib id m (no_data ∷ rest) =
    Waited-later lib id m m (no_data ∷ rest) rest (wait_answer lib id m rest) (λ m'. after_nothing)
      (wait_answer-Waited lib id m rest)
wait_answer-Waited lib id m (datagram d ∷ rest) =
    on_message-Waited lib id m d rest (lib.decode m (take 512 d)) refl
      (λ m1. wait_answer-Waited lib id m1 rest)

-- An address is the first of the message that answers; else the socket has been closed, if it was open.
abbrev pub Resolves : DnsLib → ℕ → List Turn → UdpEnd (Option Bytes) → Type 0
Resolves lib id turns waits = Unit
Resolves lib id turns (ended closed none) = closed ≤ 1
Resolves lib id turns (ended closed (some ip)) =
    (closed ≡ 1)
    × ((m : Message) × Answers lib id no_message turns m × (first_address m.answers ≡ some ip))

first-Resolves :
    (lib : DnsLib) (id : ℕ) (turns : List Turn) (m : Message) (o : Option Bytes)
    → Answers lib id no_message turns m
    → first_address m.answers ≡ o
    → Resolves lib id turns (ended 1 o)
first-Resolves lib id turns m none a e = omega arith
first-Resolves lib id turns m (some ip) a e = (refl, (m, a, e))

udp_result-Resolves :
    (lib : DnsLib) (id : ℕ) (turns : List Turn) (e : UdpEnd (Option Message))
    → Waited lib id no_message turns e
    → Resolves lib id turns (udp_result e)
unfolding udp_result
udp_result-Resolves lib id turns waits h = tt
udp_result-Resolves lib id turns (ended closed none) h = omega arith
udp_result-Resolves lib id turns (ended closed (some m)) (c, a) =
    rw c (first-Resolves lib id turns m (first_address m.answers) a refl)

query_server-Waited :
    (lib : DnsLib) (w : UdpWorld) (p : Profile) (id : ℕ)
    → Waited lib id no_message w.turns (query_server lib w p id)
unfolding query_server
query_server-Waited lib w p id =
    if_cases (Waited lib id no_message w.turns) (not (w.is_ipv4 (c_str p.builtin_dns_ip))) _ _
      (λ _. refl)
      (λ _.
        if_cases (Waited lib id no_message w.turns) (not w.sendto_ok) _ _ (λ _. refl)
          (λ _. wait_answer-Waited lib id no_message w.turns))

-- For a host that is not empty `resolve_host_over_udp` gives an address only from the first message
-- with the number of its own query, and from its first A record; it closes the socket exactly once
-- before it does, and at most once where it fails.
pub resolve_host_over_udp-Resolves :
    (lib : DnsLib) (w : UdpWorld) (p : Profile) (c : ℕ) (host : Bytes)
    → Returns (Resolves lib (w.rand % 65535) w.turns) (resolve_host_over_udp lib w p (c ∷ host))
unfolding resolve_host_over_udp udp_query form_dns_request
resolve_host_over_udp-Resolves lib w p c host =
    let id = w.rand % 65535 in
    (
      _,
      refl,
      if_cases (Resolves lib id w.turns) w.socket_ok (udp_result (query_server lib w p id))
          (ended 0 none)
          (λ _.
            udp_result-Resolves lib id w.turns (query_server lib w p id)
              (query_server-Waited lib w p id))
          (λ _. omega arith),
    )
