-- ===== src/Desync/Attack/Trace.antt =====
-- What `do_desync_attack` puts on the wire where the kernel takes every packet.
use dpitunnel_cli.Prelude.{
  ℕ, ◌+◌, ◌-◌, ◌%◌, ◌^◌, ◌≤◌, ◌<◌, ◌≡◌, ◌∙◌, refl, ap, arith, true, pos, negsuc,
}
use dpitunnel_cli.Prelude.{none, some, [], ◌∷◌, ◌++◌, Bytes, length, replicate, if◌then◌else◌}
use dpitunnel_cli.Prelude.{length-replicate, le→not-ltb, suc-not-zero}
use dpitunnel_cli.Settings.{
  DesyncZeroAttacks, DesyncFirstAttacks, desync_zero_fake, desync_zero_rst,
}
use dpitunnel_cli.Settings.{
  desync_zero_rstack, desync_zero_none, desync_first_disorder, desync_first_disorder_fake,
}
use dpitunnel_cli.Settings.{desync_first_split, desync_first_split_fake, desync_first_none}
use dpitunnel_cli.Desync.Fakes.{fake_tls_packet, fake_http_packet}
use dpitunnel_cli.Desync.Packet.{Fields, form_packet}
use dpitunnel_cli.Desync.Packet.Header.{Header, header_bytes, IsHeader}
use dpitunnel_cli.Desync.Packet.Fill.{formed, form_packet_lem}
use dpitunnel_cli.Desync.Receiver.{slice}
use dpitunnel_cli.Desync.Raw.{
  Kernel, Wire, go, ret, lift, read_data, draw_id, send_or_return, send_string_raw,
  close_unless_sent, after_go,
}
use dpitunnel_cli.Desync.Attack.{
  Attack, Options, real_fields, fake_fields, form, form_empty, send_data, send_second, send_whole,
  send_rst, zero_attack, first_attack, both_attacks, only_data, th_rst, th_rst_ack,
}

-- The packet has been sent; an id has been drawn.
abbrev pub push : Bytes → Wire → Wire
push p w = record w { sent = w.sent ++ p ∷ []; sends = w.sends + 1 }

abbrev pub drawn : Wire → Wire
drawn w = record w { draws = w.draws + 1 }

abbrev pub id_of : Kernel → Wire → ℕ
id_of k w = k.rand w.draws % 65535

-- The packet that is answered is of header `h`, the data is as long as it is said to be, is split
-- inside, and every packet is taken.
pub record Runs (k : Kernel) (a : Attack) (h : Header) (rest : Bytes) : Type 0 where
  pub answered : a.packet_raw ≡ header_bytes h ++ rest
  pub header : IsHeader h
  pub held : a.last_char ≤ length a.packet_data
  pub inside : a.split_pos ≤ a.last_char
  pub narrow : a.last_char < 2 ^ 32
  pub takes : (n : ℕ) → k.sendto_ok n ≡ true

read_data-go :
    (s : Bytes) (at count : ℕ) (w : Wire)
    → at + count ≤ length s
    → read_data s at count w ≡ (go (slice s at count), w)
read_data-go s at count w h = rw (le→not-ltb (length s) (at + count) h)

module _ (k : Kernel) (a : Attack) (o : Options) (h : Header) (rest : Bytes)
    (r : Runs k a h rest) where
  -- The packet with some fields and some data.
  abbrev pub packet : Fields → Bytes → Bytes
  packet f d = header_bytes (formed a.checksums f h d) ++ d

  form_lem :
      (f : Fields) (d : Bytes) (w : Wire)
      → f.is_swap_addr ≡ true
      → form k a o f d w ≡ (go (packet f d), w)
  form_lem f d w e =
      unfold form in
      ap (λ p. lift (form_packet a.checksums f p d) w) r.answered
      ∙ ap (λ p. lift p w) (form_packet_lem a.checksums f h d rest e r.header)

  send_lem :
      (f : Fields) (d : Bytes) (w : Wire)
      → send_or_return k (packet f d) w ≡ (go tt, push (packet f d) w)
  unfolding send_or_return send_string_raw close_unless_sent
  send_lem f d w = rw (suc-not-zero _, r.takes w.sends)

  send_data_lem :
      (id at count : ℕ) (w : Wire)
      → at + count ≤ length a.packet_data
      → send_data k a o id at count w
        ≡ (go tt, push (packet (real_fields k a o id at) (slice a.packet_data at count)) w)
  unfolding send_data
  send_data_lem id at count w e =
      let d = slice a.packet_data at count in
      let f = real_fields k a o id at in
      rw (read_data-go a.packet_data at count w e) (rw (form_lem f d w refl) (send_lem f d w))

  form_empty_lem :
      (id : ℕ) (w : Wire)
      → form_empty k a o id w ≡ (
        go (packet (fake_fields k a o id none) (slice (replicate a.last_char 0) 0 a.split_pos)),
        w,
      )
  unfolding form_empty
  form_empty_lem id w =
      let zeros : Bytes = replicate a.last_char 0 in
      let held : 0 + a.split_pos ≤ length zeros =
        omega (arith, r.inside, length-replicate {A = ℕ} a.last_char 0) in
      rw (read_data-go zeros 0 a.split_pos w held)
        (form_lem (fake_fields k a o id none) (slice zeros 0 a.split_pos) w refl)

  -- The packets of the data, each with its id.
  abbrev pub whole_packet : ℕ → Bytes
  whole_packet id = packet (real_fields k a o id 0) (slice a.packet_data 0 a.last_char)

  abbrev pub first_packet : ℕ → Bytes
  first_packet id = packet (real_fields k a o id 0) (slice a.packet_data 0 a.split_pos)

  abbrev pub second_packet : ℕ → Bytes
  second_packet id =
      packet (real_fields k a o id a.split_pos)
        (slice a.packet_data a.split_pos (a.last_char - a.split_pos))

  abbrev pub fake_first : ℕ → Bytes
  fake_first id = packet (fake_fields k a o id none) (slice (replicate a.last_char 0) 0 a.split_pos)

  abbrev pub fake_hello : ℕ → Bytes
  fake_hello id =
      packet (fake_fields k a o id none) (if a.is_https then fake_tls_packet else fake_http_packet)

  abbrev pub fake_rst : ℕ → ℕ → Bytes
  fake_rst flags id = packet (fake_fields k a o id (some flags)) []

  -- The wire after each attack.
  abbrev pub after_zero : DesyncZeroAttacks → Wire → Wire
  after_zero desync_zero_fake w = push (fake_hello (id_of k w)) (drawn w)
  after_zero desync_zero_rst w = push (fake_rst th_rst (id_of k w)) (drawn w)
  after_zero desync_zero_rstack w = push (fake_rst th_rst_ack (id_of k w)) (drawn w)
  after_zero desync_zero_none w = w

  abbrev pub after_second : Wire → Wire
  after_second w = push (second_packet (id_of k w)) (drawn w)

  abbrev pub after_first : ℕ → DesyncFirstAttacks → Wire → Wire
  after_first id desync_first_disorder w = push (first_packet id) (after_second w)
  after_first id desync_first_disorder_fake w =
      push (fake_first id) (push (first_packet id) (push (fake_first id) (after_second w)))
  after_first id desync_first_split w = after_second (push (first_packet id) w)
  after_first id desync_first_split_fake w =
      after_second (push (fake_first id) (push (first_packet id) (push (fake_first id) w)))
  after_first id desync_first_none w = push (whole_packet (id_of k w)) (drawn w)

  send_whole_lem :
      (w : Wire) → send_whole k a o w ≡ (go tt, push (whole_packet (id_of k w)) (drawn w))
  unfolding send_whole draw_id
  send_whole_lem w = send_data_lem (id_of k w) 0 a.last_char (drawn w) (omega (arith, r.held))

  send_second_lem : (w : Wire) → send_second k a o w ≡ (go tt, after_second w)
  unfolding send_second draw_id
  send_second_lem w =
      let size : (a.last_char + 2 ^ 32 - a.split_pos) % 2 ^ 32 ≡ a.last_char - a.split_pos =
        omega (arith, r.inside, r.narrow) in
      rw size (
        send_data_lem (id_of k w) a.split_pos (a.last_char - a.split_pos) (drawn w)
          (omega (arith, r.held, r.inside)))

  send_rst_lem :
      (flags : ℕ) (w : Wire)
      → send_rst k a o flags w ≡ (go tt, push (fake_rst flags (id_of k w)) (drawn w))
  unfolding send_rst draw_id
  send_rst_lem flags w =
      let f = fake_fields k a o (id_of k w) (some flags) in
      rw (form_lem f [] (drawn w) refl) (send_lem f [] (drawn w))

  pub zero_attack_lem :
      (kind : DesyncZeroAttacks) (w : Wire) → zero_attack k a o kind w ≡ (go tt, after_zero kind w)
  unfolding zero_attack draw_id
  zero_attack_lem desync_zero_fake w =
      let f = fake_fields k a o (id_of k w) none in
      let d = if a.is_https then fake_tls_packet else fake_http_packet in
      rw (form_lem f d (drawn w) refl) (send_lem f d (drawn w))
  zero_attack_lem desync_zero_rst w = send_rst_lem th_rst w
  zero_attack_lem desync_zero_rstack w = send_rst_lem th_rst_ack w
  zero_attack_lem desync_zero_none w = refl

  first_data :
      (id : ℕ) (w : Wire) → send_data k a o id 0 a.split_pos w ≡ (go tt, push (first_packet id) w)
  first_data id w = send_data_lem id 0 a.split_pos w (omega (arith, r.held, r.inside))

  send_fake :
      (id : ℕ) (w : Wire) → send_or_return k (fake_first id) w ≡ (go tt, push (fake_first id) w)
  send_fake id w =
      send_lem (fake_fields k a o id none) (slice (replicate a.last_char 0) 0 a.split_pos) w

  pub first_attack_lem :
      (id : ℕ) (kind : DesyncFirstAttacks) (w : Wire)
      → first_attack k a o id kind w ≡ (go tt, after_first id kind w)
  unfolding first_attack
  first_attack_lem id desync_first_disorder w =
      rw (send_second_lem w) (first_data id (after_second w))
  first_attack_lem id desync_first_disorder_fake w =
      let v1 = after_second w in
      let v2 = push (fake_first id) v1 in
      after_go (send_second k a o) _ (send_second_lem w)
      ∙ (after_go (form_empty k a o id) _ (form_empty_lem id v1)
          ∙ (after_go (send_or_return k (fake_first id)) _ (send_fake id v1)
              ∙ (after_go (send_data k a o id 0 a.split_pos) _ (first_data id v2)
                  ∙ send_fake id (push (first_packet id) v2))))
  first_attack_lem id desync_first_split w =
      rw (first_data id w) (send_second_lem (push (first_packet id) w))
  first_attack_lem id desync_first_split_fake w =
      let v1 = push (fake_first id) w in
      let v2 = push (first_packet id) v1 in
      after_go (form_empty k a o id) _ (form_empty_lem id w)
      ∙ (after_go (send_or_return k (fake_first id)) _ (send_fake id w)
          ∙ (after_go (send_data k a o id 0 a.split_pos) _ (first_data id v1)
              ∙ (after_go (send_or_return k (fake_first id)) _ (send_fake id v2)
                  ∙ send_second_lem (push (fake_first id) v2))))
  first_attack_lem id desync_first_none w = send_whole_lem w

  abbrev pub after_attacks : Wire → Wire
  after_attacks w =
      after_first (id_of k w) a.profile.desync_first_attack
        (after_zero a.profile.desync_zero_attack (drawn w))

  -- Where fakes are left out, the data goes out alone.
  abbrev pub after_only_data : Wire → Wire
  after_only_data w = push (whole_packet (id_of k (drawn w))) (drawn (drawn w))

  abbrev pub closed : Wire → Wire
  closed w = record w { open_sockets = w.open_sockets - 1 }

  pub both_attacks_lem :
      (id : ℕ) (w : Wire)
      → both_attacks k a o id w ≡ (
        ret (pos 0),
        closed (
            after_first id a.profile.desync_first_attack
              (after_zero a.profile.desync_zero_attack w)),
      )
  unfolding both_attacks
  both_attacks_lem id w =
      let z = a.profile.desync_zero_attack in
      after_go (zero_attack k a o z) _ (zero_attack_lem z w)
      ∙ after_go (first_attack k a o id a.profile.desync_first_attack) _
          (first_attack_lem id a.profile.desync_first_attack (after_zero z w))

  pub only_data_lem :
      (w : Wire)
      → only_data k a o w ≡ (ret (negsuc 0), closed (push (whole_packet (id_of k w)) (drawn w)))
  unfolding only_data
  only_data_lem w = after_go (send_whole k a o) _ (send_whole_lem w)
