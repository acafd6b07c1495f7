-- ===== src/Autoconf/Https/Verified.antt =====
-- When the check of a TLS handshake succeeds.
use dpitunnel_cli.Prelude.{
  ℕ, ◌-◌, ◌≡◌, refl, ℤ, pos, Bool, true, false, List, [], ◌∷◌, Option, none, some, Bytes, replicate,
  ltb, ltb_ℤ, Bool-cases, inl, inr, if_cases, ◌==◌, if◌then◌else◌,
}
use dpitunnel_cli.Prelude.Outcome.{Outcome, done, fault, out_of_fuel, ◌>>=◌}
use dpitunnel_cli.Settings.{
  Profile, DesyncFirstAttacks, desync_first_disorder, desync_first_disorder_fake,
  desync_first_split, desync_first_split_fake, desync_first_none,
}
use dpitunnel_cli.Desync.Raw.{Wire, Step, go, ret, crash}
use dpitunnel_cli.Stream.{Answer, Sent, all_sent, broken, waiting, send_string}
use dpitunnel_cli.Stream.Receive.{Received, received, recv_string}
use dpitunnel_cli.Autoconf.Response.{Certificate, verify_cert}
use dpitunnel_cli.Autoconf.Https.{
  World, Checked, closing, Turn, finished, sends, needs, went, send_zeros, after_attack,
  attack_hello, in_time, test_split_pos, send_turn, on_read, verify_peer, handshake,
  check_https_response,
}

-- The socket is closed once; success needs a certificate with the host's name.
abbrev pub Verifies : World → Bytes → Outcome Checked → Type 0
Verifies w host (done (true, closed)) =
    (closed ≡ 1)
    × (cert : Certificate) × (w.chain_ok ≡ true)
    × (w.certificate ≡ some cert)
    × (verify_cert cert host ≡ true)
Verifies w host (done (false, closed)) = closed ≡ 1
Verifies w host fault = Unit
Verifies w host out_of_fuel = Unit

module _ (w : World) (host : Bytes) where
  went-Verifies :
      (s : Sent) (next : Outcome Checked) → Verifies w host next → Verifies w host (went s next)
  unfolding went
  went-Verifies (all_sent out) next h = h
  went-Verifies (broken out) next h = refl
  went-Verifies (waiting out) next h = tt

  parts-Verifies :
      (res at : ℕ) (first second : List Answer) (next : Outcome Checked)
      → Verifies w host next
      → Verifies w host (
          if ltb res at
          then fault
          else went
              (send_string (replicate res 0) at 0 first)
              (went (send_string (replicate res 0) (res - at) 0 second) next))
  parts-Verifies res at first second next h =
      if_cases (Verifies w host) (ltb res at) fault _ (λ _. tt)
        (λ _. went-Verifies _ _ (went-Verifies _ next h))

  zeros-Verifies :
      (k : DesyncFirstAttacks) (res at : ℕ) (first second : List Answer) (next : Outcome Checked)
      → Verifies w host next
      → Verifies w host (send_zeros k res at first second next)
  unfolding send_zeros
  zeros-Verifies desync_first_none res at first second next h = went-Verifies _ next h
  zeros-Verifies desync_first_disorder res at first second next h =
      parts-Verifies res at first second next h
  zeros-Verifies desync_first_disorder_fake res at first second next h =
      parts-Verifies res at first second next h
  zeros-Verifies desync_first_split res at first second next h =
      parts-Verifies res at first second next h
  zeros-Verifies desync_first_split_fake res at first second next h =
      parts-Verifies res at first second next h

  attack-Verifies :
      (s : Step ℤ × Wire) (next : Outcome Checked)
      → Verifies w host next
      → Verifies w host (after_attack s next)
  unfolding after_attack
  attack-Verifies (go code, wire) next h = tt
  attack-Verifies (crash, wire) next h = tt
  attack-Verifies (ret code, wire) next h =
      if_cases (Verifies w host) (ltb_ℤ code (pos 0)) (closing false) next (λ _. refl) (λ _. h)

  split-Verifies :
      (o : Outcome ℕ) (f : ℕ → Outcome Checked)
      → ((n : ℕ) → Verifies w host (f n))
      → Verifies w host (o >>= f)
  split-Verifies (done n) f h = h n
  split-Verifies fault f h = tt
  split-Verifies out_of_fuel f h = tt

  send-Verifies :
      (r : Profile) (sniffed : Bytes) (is_first_time : Bool) (b : Bytes) (res : ℕ)
      (first second : List Answer) (next : Outcome Checked)
      → Verifies w host next
      → Verifies w host (send_turn w r sniffed is_first_time b res first second next)
  unfolding send_turn attack_hello
  send-Verifies r sniffed false b res first second next h = went-Verifies _ next h
  send-Verifies r sniffed true b res first second next h =
      split-Verifies (test_split_pos r b res) _ (λ at.
        attack-Verifies _ (send_zeros r.desync_first_attack res at first second next)
          (zeros-Verifies r.desync_first_attack res at first second next h))

  time-Verifies :
      (late : Bool) (next : Outcome Checked)
      → Verifies w host next
      → Verifies w host (in_time late next)
  unfolding in_time
  time-Verifies true next h = refl
  time-Verifies false next h = h

  read-Verifies :
      (e : Received) (takes : Bool) (next : Bytes → Outcome Checked)
      → ((b : Bytes) → Verifies w host (next b))
      → Verifies w host (on_read e takes next)
  unfolding on_read
  read-Verifies Received.broken takes next h = refl
  read-Verifies Received.waits takes next h = tt
  read-Verifies (received message n recv_time long) takes next h =
      if_cases (Verifies w host) (n == 0) (next message)
        (if takes then next message else closing false) (λ _. h message)
        (λ _.
          if_cases (Verifies w host) takes (next message) (closing false) (λ _. h message)
            (λ _. refl))

  peer-Verifies :
      (o : Option Certificate)
      → w.chain_ok ≡ true
      → w.certificate ≡ o
      → Verifies w host (verify_peer w host o)
  unfolding verify_peer
  peer-Verifies none c e = refl
  peer-Verifies (some cert) c e = elim (Bool-cases (verify_cert cert host)) [
    | inl v ↦ rw v (refl, cert, c, e, v)
    | inr v ↦ rw v refl
  ]

  handshake-Verifies :
      (r : Profile) (sniffed : Bytes) (turns : List Turn) (is_first_time : Bool) (buffer : Bytes)
      → Verifies w host (handshake w r host sniffed turns is_first_time buffer)
  unfolding handshake
  handshake-Verifies r sniffed [] is_first_time buffer = tt
  handshake-Verifies r sniffed (finished ∷ rest) is_first_time buffer =
      if_cases (Verifies w host) w.chain_ok (verify_peer w host w.certificate) (closing false)
        (λ c. peer-Verifies w.certificate c refl) (λ _. refl)
  handshake-Verifies r sniffed (sends data_out first second late ∷ rest) is_first_time buffer =
      send-Verifies r sniffed is_first_time _ _ first second _
        (time-Verifies late _ (handshake-Verifies r sniffed rest false _))
  handshake-Verifies r sniffed (needs receive takes late ∷ rest) is_first_time buffer =
      read-Verifies (recv_string receive false none buffer) takes _
        (λ b. time-Verifies late _ (handshake-Verifies r sniffed rest is_first_time b))

-- Whatever the messages and the kernel's answers are, where `check_https_response` returns it has closed
-- the socket exactly once, and it succeeds only if OpenSSL accepts the chain of certificates and the peer's certificate has the host's name.
pub check_https_response-Verifies :
    (w : World) (r : Profile) (host sniffed : Bytes)
    → Verifies w host (check_https_response w r host sniffed)
unfolding check_https_response
check_https_response-Verifies w r host sniffed =
    handshake-Verifies w host r sniffed w.turns true (replicate r.buffer_size b' ')
