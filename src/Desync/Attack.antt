-- ===== src/Desync/Attack.antt =====
-- `do_desync_attack` of desync.cpp.
pub mod Trace
pub mod Deliver
pub mod Sockets
use dpitunnel_cli.Prelude.{
  ℕ, ◌+◌, ◌-◌, ◌%◌, ◌^◌, ℤ, pos, negsuc, to_unsigned, Bool, true, false, not, ◌&&◌,
}
use dpitunnel_cli.Prelude.{Option, none, some, [], Bytes, get_or, replicate, ◌==◌, if◌then◌else◌}
use dpitunnel_cli.Settings.{
  Profile, DesyncZeroAttacks, DesyncFirstAttacks, desync_zero_fake, desync_zero_rst,
}
use dpitunnel_cli.Settings.{
  desync_zero_rstack, desync_zero_none, desync_first_disorder, desync_first_disorder_fake,
}
use dpitunnel_cli.Settings.{desync_first_split, desync_first_split_fake, desync_first_none}
use dpitunnel_cli.Utils.Ttl.{tcp_get_auto_ttl}
use dpitunnel_cli.Desync.Fakes.{fake_tls_packet, fake_http_packet}
use dpitunnel_cli.Desync.Packet.{CheckSums, Fields, form_packet}
use dpitunnel_cli.Desync.Raw.{Kernel, M, go, ◌>>=◌, ◌>>◌, pass, lift, draw_id, close_and_return}
use dpitunnel_cli.Desync.Raw.{return_code, open_socket, send_or_return, read_data}

-- The flags of RST and of RST with ACK.
abbrev pub th_rst : ℕ
th_rst = 4

abbrev pub th_rst_ack : ℕ
th_rst_ack = 4 + 16

-- The arguments of the call but for the socket and the addresses, with the two globals it reads.
pub record Attack : Type 0 where
  pub checksums : CheckSums
  pub profile : Profile
  pub is_https : Bool
  pub packet_raw : Bytes
  pub packet_data : Bytes
  pub last_char : ℕ
  pub split_pos : ℕ

-- What `getsockopt` has given.
pub record Options : Type 0 where
  pub default_ttl : ℕ
  pub window_size : ℕ

-- The TTL of the packet that is answered, a byte.
abbrev pub srv_ttl : Attack → ℕ
srv_ttl a = get_or a.packet_raw 8 0 % 2 ^ 8

-- The TTL of fakes, a byte.
unfoldable pub choose_fake_ttl : Attack → Options → ℕ
choose_fake_ttl a o =
    let p = a.profile in
    if p.auto_ttl
    then tcp_get_auto_ttl (srv_ttl a) (p.auto_ttl_a1 % 2 ^ 8) (p.auto_ttl_a2 % 2 ^ 8)
        (p.min_ttl % 2 ^ 8) (p.auto_ttl_max % 2 ^ 8)
    else if not (p.fake_packets_ttl == 0)
    then p.fake_packets_ttl % 2 ^ 8
    else o.default_ttl % 2 ^ 8

-- The branch of `min_ttl` in which no fakes are sent.
unfoldable pub skips_fakes : Attack → Bool
skips_fakes a =
    let p = a.profile in
    not p.auto_ttl
    && not (p.min_ttl == 0)
    && not (tcp_get_auto_ttl (srv_ttl a) 0 0 (p.min_ttl % 2 ^ 8) 0 == 0)

module _ (k : Kernel) (a : Attack) (o : Options) where
  -- A packet with data of the client, for the server. `seq` is its offset.
  abbrev pub real_fields : ℕ → ℕ → Fields
  real_fields id seq = record {
    id = id;
    ttl = o.default_ttl;
    seq = seq;
    ack_seq = 1;
    window_size = if a.profile.window_size == 0 then o.window_size else a.profile.window_size;
    is_swap_addr = true;
    flags = none;
  }

  -- A packet for the filter.
  abbrev pub fake_fields : ℕ → Option ℕ → Fields
  fake_fields id flags = record {
    id = id;
    ttl = choose_fake_ttl a o;
    seq = if a.profile.wrong_seq then to_unsigned (2 ^ 32) a.profile.wrong_seq_drift_seq else 0;
    ack_seq = if a.profile.wrong_seq then to_unsigned (2 ^ 32) a.profile.wrong_seq_drift_ack else 1;
    window_size = o.window_size;
    is_swap_addr = true;
    flags = flags;
  }

  pub form : Fields → Bytes → M Bytes
  form f packet_data = lift (form_packet a.checksums f a.packet_raw packet_data)

  -- `count` bytes of the data from `at` on, sent as they are.
  pub send_data : ℕ → ℕ → ℕ → M (Unit {0})
  send_data id at count = do
    bytes ← read_data a.packet_data at count
    packet_mod ← form (real_fields id at) bytes
    send_or_return k packet_mod

  -- The packet of `data_empty`: zeros in place of the first part of the data.
  pub form_empty : ℕ → M Bytes
  form_empty id = do
    bytes ← read_data (replicate a.last_char 0) 0 a.split_pos
    form (fake_fields id none) bytes

  pub send_whole : M (Unit {0})
  send_whole = do id ← draw_id k; send_data id 0 a.last_char

  pub send_rst : ℕ → M (Unit {0})
  send_rst flags = do
    id ← draw_id k
    packet_fake ← form (fake_fields id (some flags)) []
    send_or_return k packet_fake

  unfoldable pub zero_attack : DesyncZeroAttacks → M (Unit {0})
  zero_attack desync_zero_fake = do
    id ← draw_id k
    packet_fake ←
        form (fake_fields id none) (if a.is_https then fake_tls_packet else fake_http_packet)
    send_or_return k packet_fake
  zero_attack desync_zero_rst = send_rst th_rst
  zero_attack desync_zero_rstack = send_rst th_rst_ack
  zero_attack desync_zero_none = pass

  -- The second part of the data.
  pub send_second : M (Unit {0})
  send_second = do
    id ← draw_id k
    send_data id a.split_pos ((a.last_char + 2 ^ 32 - a.split_pos) % 2 ^ 32)

  -- `ip_id_first` is the id of the first part and of the fakes of it.
  unfoldable pub first_attack : ℕ → DesyncFirstAttacks → M (Unit {0})
  first_attack ip_id_first desync_first_disorder = do
    send_second
    send_data ip_id_first 0 a.split_pos
  first_attack ip_id_first desync_first_disorder_fake = do
    send_second
    packet_fake ← form_empty ip_id_first
    send_or_return k packet_fake
    send_data ip_id_first 0 a.split_pos
    send_or_return k packet_fake
  first_attack ip_id_first desync_first_split = do send_data ip_id_first 0 a.split_pos; send_second
  first_attack ip_id_first desync_first_split_fake = do
    packet_fake ← form_empty ip_id_first
    send_or_return k packet_fake
    send_data ip_id_first 0 a.split_pos
    send_or_return k packet_fake
    send_second
  first_attack ip_id_first desync_first_none = send_whole

  -- The data alone, and -1 in any case.
  pub only_data : M ℤ
  only_data = do send_whole; close_and_return (negsuc 0)

  pub both_attacks : ℕ → M ℤ
  both_attacks ip_id_first = do
    zero_attack a.profile.desync_zero_attack
    first_attack ip_id_first a.profile.desync_first_attack
    close_and_return (pos 0)

  -- From the first draw on; the socket is open.
  unfoldable pub attack_on : M ℤ
  attack_on = do
    ip_id_first ← draw_id k
    if skips_fakes a then only_data else both_attacks ip_id_first

-- A call that has failed: the socket is closed and -1 returned.
check : Bool → M (Unit {0})
check true = pass
check false = close_and_return (negsuc 0)

got : Option ℕ → M ℕ
got none = close_and_return (negsuc 0)
got (some v) = λ w. (go v, w)

opened : Bool → M (Unit {0})
opened true = open_socket
opened false = return_code (negsuc 0)

unfoldable pub do_desync_attack : Kernel → Attack → M ℤ
unfolding check got opened
do_desync_attack k a = do
  opened k.socket_ok
  check k.sndbuf_ok
  check k.hdrincl_ok
  default_ttl ← got k.default_ttl
  window_size ← got k.max_segment
  attack_on k a (record { default_ttl = default_ttl; window_size = window_size })
