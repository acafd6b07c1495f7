-- ===== src/Desync/Packet.antt =====
-- `form_packet` of desync.cpp, on bytes. Fields of several bytes are in network order.
pub mod Header
pub mod Fill
use dpitunnel_cli.Prelude.{
  ℕ, ◌+◌, ◌-◌, ◌*◌, ◌/◌, ◌%◌, ◌^◌, Bool, Option, none, some, List, [], ◌∷◌, ◌++◌,
}
use dpitunnel_cli.Prelude.{Bytes, length, take, get_or, set, resize, ltb, if◌then◌else◌}
use dpitunnel_cli.Prelude.Outcome.{Outcome, done, fault}

-- `ntohs` and `ntohl` of the field at an offset, and the stores of `htons` and `htonl`.
abbrev pub get16 : Bytes → ℕ → ℕ
get16 p i = get_or p i 0 * 2 ^ 8 + get_or p (i + 1) 0

abbrev pub get32 : Bytes → ℕ → ℕ
get32 p i = get16 p i * 2 ^ 16 + get16 p (i + 2)

abbrev pub put16 : Bytes → ℕ → ℕ → Bytes
put16 p i v = set (set p i (v / 2 ^ 8 % 2 ^ 8)) (i + 1) (v % 2 ^ 8)

abbrev pub put32 : Bytes → ℕ → ℕ → Bytes
put32 p i v =
    set
      (set (set (set p i (v / 2 ^ 24 % 2 ^ 8)) (i + 1) (v / 2 ^ 16 % 2 ^ 8)) (i + 2)
        (v / 2 ^ 8 % 2 ^ 8))
      (i + 3) (v % 2 ^ 8)

-- `std::swap` of two fields of one, two and four bytes.
abbrev pub swap8 : Bytes → ℕ → ℕ → Bytes
swap8 p i j = set (set p i (get_or p j 0)) j (get_or p i 0)

abbrev pub swap16 : Bytes → ℕ → ℕ → Bytes
swap16 p i j = swap8 (swap8 p i j) (i + 1) (j + 1)

abbrev pub swap32 : Bytes → ℕ → ℕ → Bytes
swap32 p i j = swap16 (swap16 p i j) (i + 2) (j + 2)

-- `ihl * 4`: where the TCP header begins. `ihl` is the low half of the first byte.
abbrev pub tcp_offset : Bytes → ℕ
tcp_offset p = get_or p 0 0 % 16 * 4

-- The checksums of RawSocket: of the IP header, and of the TCP segment at an offset of the packet.
pub record CheckSums : Type 0 where
  pub cksum_ip : Bytes → ℕ
  pub cksum_tcp : Bytes → ℕ → ℕ

-- The arguments after the packet and the data; `flags` is `none` for NULL.
pub record Fields : Type 0 where
  pub id : ℕ
  pub ttl : ℕ
  pub seq : ℕ
  pub ack_seq : ℕ
  pub window_size : ℕ
  pub is_swap_addr : Bool
  pub flags : Option ℕ

-- The flag byte: FIN 1, SYN 2, RST 4, PSH 8, ACK 16, URG 32, and two more above. Without flags FIN,
-- SYN, RST are cleared and PSH, ACK set; URG is cleared in any case.
abbrev pub new_flags : Option ℕ → ℕ → ℕ
new_flags none old = old / 64 * 64 + 0x18
new_flags (some f) old = f % 2 ^ 8 / 64 * 64 + f % 32

module _ (ck : CheckSums) (f : Fields) where
  -- The stores to the IP header; `size` is the length of the data.
  unfoldable pub fill_ip : ℕ → Bytes → Bytes
  fill_ip size p =
      let p1 = set p 1 0 in
      let p2 = put16 p1 2 (40 + size) in
      let p3 = put16 p2 4 f.id in
      let p4 = put16 p3 6 0x4000 in
      let p5 = set p4 8 (f.ttl % 2 ^ 8) in
      let p6 = put16 p5 10 0 in
      let p7 = if f.is_swap_addr then swap32 p6 12 16 else p6 in
      put16 p7 10 (ck.cksum_ip (take (tcp_offset p7) p7))

  -- The stores to the TCP header at the offset `t`.
  unfoldable pub fill_tcp : ℕ → Bytes → Bytes
  fill_tcp t p =
      let p1 = if f.is_swap_addr then swap32 (swap16 p t (t + 2)) (t + 4) (t + 8) else p in
      let p2 = put32 p1 (t + 8) (get32 p1 (t + 8) + f.ack_seq) in
      let p3 = put32 p2 (t + 4) (get32 p2 (t + 4) + f.seq) in
      let p4 = put16 p3 (t + 14) f.window_size in
      let p5 = set p4 (t + 12) (5 * 16 + get_or p4 (t + 12) 0 % 16) in
      let p6 = set p5 (t + 13) (new_flags f.flags (get_or p5 (t + 13) 0)) in
      let p7 = put16 (put16 p6 (t + 16) 0) (t + 18) 0 in put16 p7 (t + 16) (ck.cksum_tcp p7 t)

  -- Both headers of `p` filled in, `size` bytes of data behind them. A TCP header that does not end
  -- inside the packet is written out of bounds.
  unfoldable pub fill_headers : ℕ → Bytes → Outcome Bytes
  fill_headers size p =
      if ltb (length p) (tcp_offset p + 20)
      then fault
      else done (fill_tcp (tcp_offset p) (fill_ip size p))

  -- Only the first 40 bytes of the packet that is answered are kept.
  unfoldable pub form_packet : Bytes → Bytes → Outcome Bytes
  form_packet packet_raw packet_data =
      fill_headers (length packet_data) (resize packet_raw 40 0 ++ packet_data)
