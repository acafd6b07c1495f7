-- ===== src/Autoconf/Https.antt =====
-- `check_https_response` of autoconf.cpp: a TLS handshake whose first message is attacked. OpenSSL is
-- given by its answers.
pub mod Verified
use dpitunnel_cli.Prelude.{
  ℕ, zero, suc, ◌+◌, ◌-◌, ◌/◌, ◌%◌, ◌^◌, ◌≡◌, refl, ℤ, pos, negsuc, min, Bool, true, false, not,
  ◌||◌, List, [], ◌∷◌, ◌++◌, Option, none, some, Bytes, length, take, drop, replicate, ltb, ltb_ℤ,
  ◌==◌, if◌then◌else◌, if_cases,
}
use dpitunnel_cli.Prelude.Outcome.{Outcome, done, fault, out_of_fuel, ◌>>=◌}
use dpitunnel_cli.Settings.{
  Profile, DesyncFirstAttacks, desync_first_disorder, desync_first_disorder_fake,
  desync_first_split, desync_first_split_fake, desync_first_none,
}
use dpitunnel_cli.Utils.Sni.{Sni, get_tls_sni}
use dpitunnel_cli.Desync.Packet.{CheckSums}
use dpitunnel_cli.Desync.Raw.{Kernel, Wire, Step, go, ret, crash}
use dpitunnel_cli.Desync.Attack.{do_desync_attack}
use dpitunnel_cli.Stream.{Answer, Sent, all_sent, broken, waiting, send_string}
use dpitunnel_cli.Stream.Receive.{Received, received, recv_string}
use dpitunnel_cli.Autoconf.Response.{Certificate, verify_cert}

-- A return: whether it is 0, and how often the function has closed the socket.
abbrev pub Checked : Type 0
Checked = Bool × ℕ

-- `close(socket)` and the return.
abbrev pub closing : Bool → Outcome Checked
closing success = done (success, 1)

-- One turn of the handshake: it is over; or OpenSSL has bytes to send, with the answers to the two
-- calls of `send_string`; or it needs bytes, which `BIO_write` takes or not. `late`: the time is over.
pub data Turn : Type 0 where
  finished : Turn
  sends : (data_out : Bytes) (first second : List Answer) (late : Bool) → Turn
  needs : (receive : dpitunnel_cli.Stream.Receive.World) (takes : Bool) (late : Bool) → Turn

pub record World : Type 0 where
  pub checksums : CheckSums
  pub kernel : Kernel
  pub wire : Wire
  pub turns : List Turn
  pub chain_ok : Bool
  pub certificate : Option Certificate

-- The middle of the name, or the position of the profile as it is.
unfoldable pub split_at_name : ℕ → ℕ → Sni → ℕ
split_at_name split_position res (start, len) =
    if ltb res ((start + len) % 2 ^ 32) || start == 0 || len == 0
    then split_position
    else start + len / 2

unfoldable pub test_split_pos : Profile → Bytes → ℕ → Outcome ℕ
test_split_pos r buffer res =
    if r.split_at_sni
    then (get_tls_sni buffer res >>= λ sni. done (split_at_name r.split_position res sni))
    else done (min r.split_position res)

-- The zeros after an attack, whole or in two parts; a part beyond them is read out of bounds.
unfoldable pub went : Sent → Outcome Checked → Outcome Checked
went (all_sent out) next = next
went (broken out) next = closing false
went (waiting out) next = out_of_fuel

unfoldable pub send_zeros :
    DesyncFirstAttacks → ℕ → ℕ → List Answer → List Answer → Outcome Checked → Outcome Checked
send_zeros desync_first_none res split_pos first second next =
    went (send_string (replicate res 0) res 0 first) next
send_zeros _ res split_pos first second next =
    if ltb res split_pos
    then fault
    else went (send_string (replicate res 0) split_pos 0 first)
        (went (send_string (replicate res 0) (res - split_pos) 0 second) next)

unfoldable pub after_attack : Step ℤ × Wire → Outcome Checked → Outcome Checked
after_attack (go code, wire) next = fault
after_attack (crash, wire) next = fault
after_attack (ret code, wire) next = if ltb_ℤ code (pos 0) then closing false else next

unfoldable pub attack_hello :
    World → Profile → Bytes → Bytes → ℕ → ℕ → Outcome Checked → Outcome Checked
attack_hello w r sniffed buffer res split_pos next =
    after_attack
      (do_desync_attack w.kernel
        (record {
          checksums = w.checksums;
          profile = r;
          is_https = true;
          packet_raw = sniffed;
          packet_data = buffer;
          last_char = res;
          split_pos = split_pos;
        })
        w.wire)
      next

unfoldable pub in_time : Bool → Outcome Checked → Outcome Checked
in_time late next = if late then closing false else next

-- What `BIO_read` gives goes to the front of the buffer.
unfoldable pub send_turn :
    World
    → Profile
    → Bytes
    → Bool
    → Bytes
    → ℕ
    → List Answer
    → List Answer
    → Outcome Checked
    → Outcome Checked
send_turn w r sniffed true buffer res first second next =
    test_split_pos r buffer res >>= λ split_pos.
    attack_hello w r sniffed buffer res split_pos
      (send_zeros r.desync_first_attack res split_pos first second next)
send_turn w r sniffed false buffer res first second next =
    went (send_string buffer res 0 first) next

-- With nothing received there is nothing to write.
unfoldable pub on_read : Received → Bool → (Bytes → Outcome Checked) → Outcome Checked
on_read Received.broken takes next = closing false
on_read Received.waits takes next = out_of_fuel
on_read (received message last_char recv_time long) takes next =
    if last_char == 0 then next message else if takes then next message else closing false

-- The certificate of the peer.
unfoldable pub verify_peer : World → Bytes → Option Certificate → Outcome Checked
verify_peer w host none = closing false
verify_peer w host (some cert) = closing (verify_cert cert host)

unfoldable pub handshake :
    World → Profile → Bytes → Bytes → List Turn → Bool → Bytes → Outcome Checked
handshake w r host sniffed [] is_first_time buffer = out_of_fuel
handshake w r host sniffed (finished ∷ rest) is_first_time buffer =
    if w.chain_ok then verify_peer w host w.certificate else closing false
handshake w r host sniffed (sends data_out first second late ∷ rest) is_first_time buffer =
    let d = take (length buffer) data_out in
    let b = d ++ drop (length d) buffer in
    send_turn w r sniffed is_first_time b (length d) first second
      (in_time late (handshake w r host sniffed rest false b))
handshake w r host sniffed (needs receive takes late ∷ rest) is_first_time buffer =
    on_read (recv_string receive false none buffer) takes
      (λ b. in_time late (handshake w r host sniffed rest is_first_time b))

unfoldable pub check_https_response : World → Profile → Bytes → Bytes → Outcome Checked
check_https_response w r host sniffed =
    handshake w r host sniffed w.turns true (replicate r.buffer_size b' ')
