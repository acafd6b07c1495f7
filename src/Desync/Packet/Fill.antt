-- ===== src/Desync/Packet/Fill.antt =====
-- `form_packet` on a packet with headers of 20 bytes each: which header it writes.
use dpitunnel_cli.Prelude.{
  ℕ, ◌+◌, ◌-◌, ◌*◌, ◌%◌, ◌^◌, ◌<◌, ◌≡◌, ap, ap₂, ◌∙◌, arith, true, false, ◌++◌,
}
use dpitunnel_cli.Prelude.{Bytes, length, replicate, resize, ltb}
use dpitunnel_cli.Prelude.Outcome.{done}
use dpitunnel_cli.Desync.Packet.{
  CheckSums, Fields, new_flags, fill_ip, fill_tcp, fill_headers, form_packet, get32,
}
use dpitunnel_cli.Desync.Packet.Header.{Header, header_bytes, ip_bytes, be32, IsHeader}

module _ (f : Fields) (size : ℕ) (h : Header) where
  -- The IP header before its checksum is stored, the addresses swapped.
  abbrev pub ip_cleared : Header
  ip_cleared = record h {
    tos = 0;
    tot_len = 40 + size;
    id = f.id;
    frag_off = 0x4000;
    ttl = f.ttl % 2 ^ 8;
    ip_check = 0;
    saddr = h.daddr;
    daddr = h.saddr;
  }

module _ (ck : CheckSums) (f : Fields) (size : ℕ) (h : Header) where
  abbrev pub ip_filled : Header
  ip_filled = record (ip_cleared f size h) {
    ip_check = ck.cksum_ip (ip_bytes (ip_cleared f size h));
  }

  fill_ip_lem :
      (rest : Bytes)
      → f.is_swap_addr ≡ true
      → fill_ip ck f size (header_bytes h ++ rest) ≡ header_bytes ip_filled ++ rest
  unfolding fill_ip
  fill_ip_lem rest e = rw e

-- The header `g` with the TCP fields of an answer; `s` and `a` are what is read of it in the
-- places of its sequence number and its acknowledgement.
abbrev pub tcp_cleared : Fields → ℕ → ℕ → Header → Header
tcp_cleared f s a g = record g {
  source = g.dest;
  dest = g.source;
  seq = a + f.seq;
  ack_seq = s + f.ack_seq;
  offset = 5 * 16 + g.offset % 16;
  flags = new_flags f.flags g.flags;
  window = f.window_size;
  tcp_check = 0;
  urg_ptr = 0;
}

module _ (ck : CheckSums) (f : Fields) (g : Header) (rest : Bytes) where
  abbrev pub tcp_filled : ℕ → ℕ → Header
  tcp_filled s a =
      let c = tcp_cleared f s a g in
      record c { tcp_check = ck.cksum_tcp (header_bytes c ++ rest) 20 }

  -- The numbers as the stores of `form_packet` read them back.
  fill_tcp_read :
      f.is_swap_addr ≡ true
      → fill_tcp ck f 20 (header_bytes g ++ rest)
        ≡ header_bytes (tcp_filled (get32 (be32 g.seq) 0) (get32 (be32 g.ack_seq) 0)) ++ rest
  unfolding fill_tcp
  fill_tcp_read e = rw e

get32-be32 : (x : ℕ) → x < 2 ^ 32 → get32 (be32 x) 0 ≡ x
get32-be32 x h = omega arith

resize-header : (h : Header) (rest : Bytes) → resize (header_bytes h ++ rest) 40 0 ≡ header_bytes h
resize-header h rest =
    let enough : 40 - length (header_bytes h ++ rest) ≡ 0 = omega arith in
    ap (λ n. header_bytes h ++ replicate n 0) enough

-- The header that `form_packet` writes when it answers the packet of `h` with `size` bytes of data.
abbrev pub formed : CheckSums → Fields → Header → Bytes → Header
formed ck f h packet_data =
    tcp_filled ck f (ip_filled ck f (length packet_data) h) packet_data h.seq h.ack_seq

headers-fit : (h : Header) (rest : Bytes) → ltb (length (header_bytes h ++ rest)) 40 ≡ false
headers-fit h rest = ground arith

module _ (ck : CheckSums) (f : Fields) (h : Header) (packet_data : Bytes) where
  enter :
      fill_headers ck f (length packet_data) (header_bytes h ++ packet_data)
      ≡ done (fill_tcp ck f 20 (fill_ip ck f (length packet_data) (header_bytes h ++ packet_data)))
  unfolding fill_headers
  enter = rw (headers-fit h packet_data)

  fill_headers_lem :
      f.is_swap_addr ≡ true
      → IsHeader h
      → fill_headers ck f (length packet_data) (header_bytes h ++ packet_data)
        ≡ done (header_bytes (formed ck f h packet_data) ++ packet_data)
  fill_headers_lem e v =
      let g = ip_filled ck f (length packet_data) h in
      let write =
        λ (s a : ℕ). done (header_bytes (tcp_filled ck f g packet_data s a) ++ packet_data) in
      enter
      ∙ (ap (λ p. done (fill_tcp ck f 20 p)) (fill_ip_lem ck f (length packet_data) h packet_data e)
          ∙ (ap done (fill_tcp_read ck f g packet_data e)
              ∙ ap₂ write (get32-be32 h.seq v.seq_fits) (get32-be32 h.ack_seq v.ack_seq_fits)))

  -- Whatever follows the two headers in the packet that is answered is dropped. The new packet is
  -- its headers with the addresses, ports and numbers swapped and filled in anew, and then the data.
  pub form_packet_lem :
      (rest : Bytes)
      → f.is_swap_addr ≡ true
      → IsHeader h
      → form_packet ck f (header_bytes h ++ rest) packet_data
        ≡ done (header_bytes (formed ck f h packet_data) ++ packet_data)
  form_packet_lem rest e v =
      unfold form_packet in
      ap (λ p. fill_headers ck f (length packet_data) (p ++ packet_data)) (resize-header h rest)
      ∙ fill_headers_lem e v
