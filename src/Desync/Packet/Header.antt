-- ===== src/Desync/Packet/Header.antt =====
-- The two headers of a packet as a record. A value is stored modulo the width of its field.
use dpitunnel_cli.Prelude.{ℕ, ◌/◌, ◌%◌, ◌^◌, ◌<◌, [], ◌∷◌, ◌++◌}
use dpitunnel_cli.Prelude.{Bytes}
use dpitunnel_cli.Prelude.Views.{be16}

pub record Header : Type 0 where
  pub tos : ℕ
  pub tot_len : ℕ
  pub id : ℕ
  pub frag_off : ℕ
  pub ttl : ℕ
  pub protocol : ℕ
  pub ip_check : ℕ
  pub saddr : ℕ
  pub daddr : ℕ
  pub source : ℕ
  pub dest : ℕ
  pub seq : ℕ
  pub ack_seq : ℕ
  pub offset : ℕ
  pub flags : ℕ
  pub window : ℕ
  pub tcp_check : ℕ
  pub urg_ptr : ℕ

abbrev pub be32 : ℕ → Bytes
be32 n = (n / 2 ^ 24 % 2 ^ 8) ∷ (n / 2 ^ 16 % 2 ^ 8) ∷ (n / 2 ^ 8 % 2 ^ 8) ∷ (n % 2 ^ 8) ∷ []

abbrev pub ip_bytes : Header → Bytes
ip_bytes h =
    0x45
    ∷ h.tos
    ∷ (be16 h.tot_len
        ++ (be16 h.id
            ++ (be16 h.frag_off
                ++ (h.ttl ∷ h.protocol ∷ (be16 h.ip_check ++ (be32 h.saddr ++ be32 h.daddr))))))

-- `offset` is the byte whose high half is the data offset.
abbrev pub tcp_bytes : Header → Bytes
tcp_bytes h =
    be16 h.source
    ++ (be16 h.dest
        ++ (be32 h.seq
            ++ (be32 h.ack_seq
                ++ (h.offset ∷ h.flags ∷ (be16 h.window ++ (be16 h.tcp_check ++ be16 h.urg_ptr))))))

abbrev pub header_bytes : Header → Bytes
header_bytes h = ip_bytes h ++ tcp_bytes h

-- The numbers of the sequence fit their width.
pub record IsHeader (h : Header) : Type 0 where
  pub seq_fits : h.seq < 2 ^ 32
  pub ack_seq_fits : h.ack_seq < 2 ^ 32
