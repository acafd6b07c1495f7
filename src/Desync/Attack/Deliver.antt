-- ===== src/Desync/Attack/Deliver.antt =====
-- What a server receives of the packets that `do_desync_attack` sends.
use dpitunnel_cli.Prelude.{
  ℕ, ◌+◌, ◌-◌, ◌%◌, ◌^◌, ◌≤◌, ◌<◌, ◌≡◌, ◌∙◌, refl, ap, ap₂, arith, pos, negsuc, true, ◌&&◌,
}
use dpitunnel_cli.Prelude.{
  Option, none, some, [], Bytes, get_elem?, replicate, ltb, leb, Bool-cases, inl, inr,
  if◌then◌else◌,
}
use dpitunnel_cli.Settings.{
  DesyncZeroAttacks, DesyncFirstAttacks, desync_zero_fake, desync_zero_rst,
}
use dpitunnel_cli.Settings.{
  desync_zero_rstack, desync_zero_none, desync_first_disorder, desync_first_disorder_fake,
}
use dpitunnel_cli.Settings.{desync_first_split, desync_first_split_fake, desync_first_none}
use dpitunnel_cli.Desync.Packet.{Fields}
use dpitunnel_cli.Desync.Receiver.{
  slice, offset_of, received, first_of, arrives, received-snoc, arrives-slice, arrives-lost,
}
use dpitunnel_cli.Desync.Packet.Header.{Header}
use dpitunnel_cli.Desync.Raw.{Kernel, Wire, ret, draw_id}
use dpitunnel_cli.Desync.Attack.{
  Attack, Options, real_fields, fake_fields, choose_fake_ttl, skips_fakes, attack_on,
  do_desync_attack, th_rst, th_rst_ack,
}
use dpitunnel_cli.Desync.Attack.Trace.{
  Runs, only_data_lem, both_attacks_lem, push, packet, drawn, id_of, after_zero, after_first,
  after_second,
}
use dpitunnel_cli.Desync.Attack.Trace.{whole_packet, first_packet, fake_first}

module _ (k : Kernel) (a : Attack) (o : Options) (h : Header) (rest : Bytes) (r : Runs k a h rest)
    (dist : ℕ) (near : dist ≤ o.default_ttl) (byte : o.default_ttl < 256)
    (far : choose_fake_ttl a o < dist) where
  offset_lem :
      (f : Fields) (d : Bytes) → offset_of h.ack_seq (packet k a o h rest r f d) ≡ f.seq % 2 ^ 32
  offset_lem f d = omega (arith, r.header.ack_seq_fits)

  arrives-real :
      (id at count i : ℕ)
      → at < 2 ^ 32
      → arrives dist h.ack_seq
          (packet k a o h rest r (real_fields k a o id at) (slice a.packet_data at count))
          i
        ≡ (if leb at i && ltb (i - at) count then get_elem? a.packet_data i else none)
  arrives-real id at count i small =
      let f = real_fields k a o id at in
      let d = slice a.packet_data at count in
      let offset = offset_lem f d in
      arrives-slice dist h.ack_seq at count i a.packet_data (packet k a o h rest r f d)
        (omega arith) (omega arith) refl

  arrives-fake :
      (id i : ℕ) (flags : Option ℕ) (d : Bytes)
      → arrives dist h.ack_seq (packet k a o h rest r (fake_fields k a o id flags) d) i ≡ none
  arrives-fake id i flags d =
      arrives-lost dist h.ack_seq i (packet k a o h rest r (fake_fields k a o id flags) d)
        (omega arith)

  -- What has arrived when a packet has been sent.
  module _ (i : ℕ) where
    abbrev has : Wire → Option ℕ
    has w = received dist h.ack_seq w.sent i

    -- The part of the data from `at` on.
    abbrev part : ℕ → ℕ → Option ℕ
    part at count = if leb at i && ltb (i - at) count then get_elem? a.packet_data i else none

    has-real :
        (id at count : ℕ) (w : Wire) (x : Option ℕ)
        → at < 2 ^ 32
        → has w ≡ x
        → has (
            push (packet k a o h rest r (real_fields k a o id at) (slice a.packet_data at count)) w)
          ≡ first_of x (part at count)
    has-real id at count w x small e =
        received-snoc dist h.ack_seq w.sent _ i ∙ ap₂ first_of e (arrives-real id at count i small)

    first_of-none : (x : Option ℕ) → first_of x none ≡ x
    first_of-none none = refl
    first_of-none (some c) = refl

    has-fake :
        (id : ℕ) (flags : Option ℕ) (d : Bytes) (w : Wire) (x : Option ℕ)
        → has w ≡ x
        → has (push (packet k a o h rest r (fake_fields k a o id flags) d) w) ≡ x
    has-fake id flags d w x e =
        received-snoc dist h.ack_seq w.sent _ i
        ∙ (ap₂ first_of e (arrives-fake id i flags d) ∙ first_of-none x)

    has-zero :
        (kind : DesyncZeroAttacks) (w : Wire)
        → has w ≡ none
        → has (after_zero k a o h rest r kind w) ≡ none
    has-zero desync_zero_fake w e = has-fake (id_of k w) none _ (drawn w) none e
    has-zero desync_zero_rst w e = has-fake (id_of k w) (some th_rst) [] (drawn w) none e
    has-zero desync_zero_rstack w e = has-fake (id_of k w) (some th_rst_ack) [] (drawn w) none e
    has-zero desync_zero_none w e = e

    abbrev zeros : Bytes
    zeros = slice (replicate a.last_char 0) 0 a.split_pos

    abbrev whole : Option ℕ
    whole = if ltb i a.last_char then get_elem? a.packet_data i else none

    has-second :
        (w : Wire) (x : Option ℕ)
        → has w ≡ x
        → has (after_second k a o h rest r w)
          ≡ first_of x (part a.split_pos (a.last_char - a.split_pos))
    has-second w x e =
        has-real (id_of k w) a.split_pos (a.last_char - a.split_pos) (drawn w) x
          (omega (arith, r.inside, r.narrow)) e

    has-whole :
        (id : ℕ) (w : Wire) → has w ≡ none → has (push (whole_packet k a o h rest r id) w) ≡ whole
    has-whole id w e = has-real id 0 a.last_char w none (omega arith) e ∙ ground arith

    second_then_first :
        first_of (first_of none (part a.split_pos (a.last_char - a.split_pos))) (part 0 a.split_pos)
        ≡ whole
    second_then_first = ground (arith, r.inside, r.held)

    first_then_second :
        first_of (first_of none (part 0 a.split_pos)) (part a.split_pos (a.last_char - a.split_pos))
        ≡ whole
    first_then_second = ground (arith, r.inside)

    has-first :
        (id : ℕ) (kind : DesyncFirstAttacks) (w : Wire)
        → has w ≡ none
        → has (after_first k a o h rest r id kind w) ≡ whole
    has-first id desync_first_disorder w e =
        has-real id 0 a.split_pos (after_second k a o h rest r w) _ (omega arith)
          (has-second w none e)
        ∙ second_then_first
    has-first id desync_first_disorder_fake w e =
        let w1 = after_second k a o h rest r w in
        let w2 = push (fake_first k a o h rest r id) w1 in
        let w3 = push (first_packet k a o h rest r id) w2 in
        has-fake id none zeros w3 whole (
          has-real id 0 a.split_pos w2 _ (omega arith)
            (has-fake id none zeros w1 _ (has-second w none e))
          ∙ second_then_first)
    has-first id desync_first_split w e =
        has-second (push (first_packet k a o h rest r id) w) _
          (has-real id 0 a.split_pos w none (omega arith) e)
        ∙ first_then_second
    has-first id desync_first_split_fake w e =
        let w1 = push (fake_first k a o h rest r id) w in
        let w2 = push (first_packet k a o h rest r id) w1 in
        has-second (push (fake_first k a o h rest r id) w2) _ (
          has-fake id none zeros w2 _
            (has-real id 0 a.split_pos w1 none (omega arith) (has-fake id none zeros w none e)))
        ∙ first_then_second
    has-first id desync_first_none w e = has-whole (id_of k w) (drawn w) e

    -- The wire after the whole call.
    attack_on-received : (w : Wire) → has w ≡ none → has (attack_on k a o w).1 ≡ whole
    unfolding attack_on draw_id
    attack_on-received w e = elim (Bool-cases (skips_fakes a)) [
      | inl skips ↦
          rw (skips, only_data_lem k a o h rest r (drawn w)) (has-whole _ (drawn (drawn w)) e)
      | inr both ↦
          rw (both, both_attacks_lem k a o h rest r (id_of k w) (drawn w))
            (has-first (id_of k w) a.profile.desync_first_attack _
              (has-zero a.profile.desync_zero_attack (drawn w) e))
    ]

attack_on-code :
    (k : Kernel) (a : Attack) (o : Options) (h : Header) (rest : Bytes) (r : Runs k a h rest)
    (w : Wire)
    → (attack_on k a o w).0 ≡ ret (if skips_fakes a then negsuc 0 else pos 0)
unfolding attack_on draw_id
attack_on-code k a o h rest r w = elim (Bool-cases (skips_fakes a)) [
  | inl skips ↦ rw (skips, only_data_lem k a o h rest r (drawn w))
  | inr both ↦ rw (both, both_attacks_lem k a o h rest r (id_of k w) (drawn w))
]

-- Every system call before the first packet succeeds.
pub record Opens (k : Kernel) (o : Options) : Type 0 where
  pub socket : k.socket_ok ≡ true
  pub sndbuf : k.sndbuf_ok ≡ true
  pub hdrincl : k.hdrincl_ok ≡ true
  pub ttl : k.default_ttl ≡ some o.default_ttl
  pub segment : k.max_segment ≡ some o.window_size

enters :
    (k : Kernel) (a : Attack) (o : Options) (w : Wire)
    → Opens k o
    → do_desync_attack k a w ≡ attack_on k a o (record w { open_sockets = w.open_sockets + 1 })
unfolding do_desync_attack
enters k a o w p = rw (p.socket, p.sndbuf, p.hdrincl, p.ttl, p.segment)

-- When every call succeeds, the packet answered has plain headers, the data is split inside, and
-- fakes die before the server while data reaches it, the server receives exactly the first
-- `last_char` bytes of the data, whatever the profile's attacks are. The code is 0, or -1 in the
-- branch that leaves fakes out.
pub do_desync_attack-received :
    (k : Kernel) (a : Attack) (o : Options) (h : Header) (rest : Bytes) (dist : ℕ) (w : Wire)
    → Runs k a h rest
    → Opens k o
    → dist ≤ o.default_ttl
    → o.default_ttl < 256
    → choose_fake_ttl a o < dist
    → w.sent ≡ []
    → ((i : ℕ)
        → received dist h.ack_seq ((do_desync_attack k a w).1).sent i
          ≡ (if ltb i a.last_char then get_elem? a.packet_data i else none))
      × ((do_desync_attack k a w).0 ≡ ret (if skips_fakes a then negsuc 0 else pos 0))
unfolding received
do_desync_attack-received k a o h rest dist w r p near byte far nothing =
    let v = record w { open_sockets = w.open_sockets + 1 } in
    (
      λ i.
          ap (λ x. received dist h.ack_seq (x.1).sent i) (enters k a o w p)
          ∙ attack_on-received k a o h rest r dist near byte far i v
              (ap (λ l. received dist h.ack_seq l i) nothing),
      ap (λ x. x.0) (enters k a o w p) ∙ attack_on-code k a o h rest r v,
    )
