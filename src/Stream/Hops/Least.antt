-- ===== src/Stream/Hops/Least.antt =====
-- Which number `count_hops` returns.
use dpitunnel_cli.Prelude.{
  ℕ, suc, ◌%◌, ◌^◌, ◌<◌, ◌≡◌, pos, negsuc, true, ◌++◌, Option, none, some, Bytes, get_or,
}
use dpitunnel_cli.Prelude.Outcome.{Outcome, done, fault, out_of_fuel}
use dpitunnel_cli.Capture.{Server, no_packet, SniffEnd, ended, never_ready, runs}
use dpitunnel_cli.Desync.Packet.Header.{Header, header_bytes, IsHeader}
use dpitunnel_cli.Stream.Connect.{Connect}
use dpitunnel_cli.Stream.Hops.{World, Hops, hops, undefined, replied, silent, reply_loop}

-- The packet begins with an IP header of 20 bytes and a TCP header.
abbrev pub IsPlain : Bytes → Type 0
IsPlain p = (h : Header) × (rest : Bytes) × IsHeader h × (p ≡ header_bytes h ++ rest)

-- What is captured, if the capture succeeds.
abbrev pub Sniffs : SniffEnd → Type 0
Sniffs never_ready = Unit
Sniffs runs = Unit
Sniffs (ended (negsuc n) packet closed) = Unit
Sniffs (ended (pos n) none closed) = ⊥
Sniffs (ended (pos n) (some p) closed) = IsPlain p

-- The TTL of the IP header of the packet.
abbrev HasTtl : ℕ → Outcome Bytes → Type 0
HasTtl ttl fault = ⊥
HasTtl ttl out_of_fuel = ⊥
HasTtl ttl (done packet) = get_or packet 8 0 ≡ ttl % 2 ^ 8

module _ (w : World) (srv : Server) where
  -- The server answers a packet with this TTL in its header on the local port, and none with a smaller
  -- TTL, which have all been sent; the buffer goes from one wait to the next.
  pub data Reaches (local_port : ℕ) : ℕ → Bytes → ℕ → Type 0 where
    hit :
        {ttl : ℕ} {b : Bytes} (packet : Bytes)
        → get_or packet 8 0 ≡ ttl % 2 ^ 8
        → (w.probes ttl).sendto_ok ≡ true
        → reply_loop srv local_port b ((w.probes ttl).turns packet) ≡ replied
        → Reaches local_port ttl b ttl
    miss :
        {ttl n : ℕ} {b b' : Bytes} (packet : Bytes)
        → get_or packet 8 0 ≡ ttl % 2 ^ 8
        → (w.probes ttl).sendto_ok ≡ true
        → reply_loop srv local_port b ((w.probes ttl).turns packet) ≡ silent b'
        → Reaches local_port (suc ttl) b' n
        → Reaches local_port ttl b n

  -- What a call may end in: the code is -1 or a TTL below `top`, or the call waits.
  abbrev pub Counts : (Option ℕ) → ℕ → Bytes → ℕ → Hops → Type 0
  Counts lp ttl b top Hops.waits = Unit
  Counts lp ttl b top undefined = ⊥
  Counts lp ttl b top (hops (negsuc n) o c) = n ≡ 0
  Counts none ttl b top (hops (pos n) o c) = ⊥
  Counts (some lp) ttl b top (hops (pos n) o c) = (n < top) × Reaches lp ttl b n

  abbrev pub Ends : Option ℕ → Hops → Type 0
  Ends lp h = Counts lp 1 no_packet 256 h
