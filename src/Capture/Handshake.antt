-- ===== src/Capture/Handshake.antt =====
-- Which packet the sniffing threads store.
use dpitunnel_cli.Prelude.{
  ℕ, ◌≡◌, ◌∙◌, refl, sym, pos, ◌⊎◌, inl, inr, Bool, true, false, not, ◌&&◌, ==_iff, List, [], ◌∷◌,
  Option, none, some, Bytes, if_cases, both, ◌==◌, ◌+◌,
}
use dpitunnel_cli.Desync.Packet.{get16, get32, tcp_offset}
use dpitunnel_cli.Capture.{
  Server, into_buffer, no_packet, from_server, port_dst, Polled, poll_failed, timed_out, broken,
  no_data, read_failed, received, Turn,
}
use dpitunnel_cli.Capture.{
  SniffEnd, ended, never_ready, runs, Packets, find_packet, Sniff, break_with, on_packet,
  on_received, on_polled, found_or, search, sniff_loop, sniff_handshake_packet,
}
use dpitunnel_cli.Capture.{
  AckEnd, ack_ended, ack_runs, AckTurn, stopped, polls, ack_received, ack_loop, sniff_ack_packet,
}

-- A local port is `port`, where it is known.
abbrev pub IsPort : ℕ → Option ℕ → Type 0
IsPort port none = Unit
IsPort port (some p) = p ≡ port

abbrev pub Knows : ℕ → List Turn → Type 0
Knows port [] = Unit
Knows port (t ∷ rest) = IsPort port t.local_port × Knows port rest

-- A packet of the connection: the IP header has the server's address as its source, and the TCP
-- header behind it the server's port as its source and the local port as its destination.
abbrev pub IsOurs : Server → ℕ → Bytes → Type 0
IsOurs srv port p =
    (get32 p 12 ≡ srv.addr)
    × (get16 p (tcp_offset p) ≡ srv.port)
    × (get16 p (tcp_offset p + 2) ≡ port)

-- So the tests of the code say.
IsOurs-tests :
    (srv : Server) (port : ℕ) (p : Bytes)
    → from_server srv p ≡ true
    → port_dst p ≡ port
    → IsOurs srv port p
unfolding from_server port_dst
IsOurs-tests srv port p e d =
    let tests = both (get32 p 12 == srv.addr) (srv.port == get16 p (tcp_offset p)) e in
    (
      (==_iff (get32 p 12) srv.addr).0 tests.0,
      sym ((==_iff srv.port (get16 p (tcp_offset p))).0 tests.1),
      d,
    )

-- For another name of the port.
IsOurs-port :
    (srv : Server) (k port : ℕ) (p : Bytes) → k ≡ port → IsOurs srv k p → IsOurs srv port p
IsOurs-port srv k port p e o = (o.0, o.1, o.2 ∙ e)

abbrev pub Keyed : Server → Packets → Type 0
Keyed srv [] = Unit
Keyed srv ((key, p) ∷ rest) = IsOurs srv key p × Keyed srv rest

abbrev pub IsStored : Server → ℕ → Option Bytes → Type 0
IsStored srv port none = Unit
IsStored srv port (some p) = IsOurs srv port p

-- How the thread may end: the socket is closed once; a packet comes with status 0 only.
abbrev pub Stores : Server → ℕ → SniffEnd → Type 0
Stores srv port never_ready = ⊥
Stores srv port runs = Unit
Stores srv port (ended status packet closed) =
    (closed ≡ 1) × IsStored srv port packet × ((status ≡ pos 0) ⊎ (packet ≡ none))

module _ (srv : Server) (port : ℕ) where
  abbrev Holds : Sniff → Type 0
  Holds s = Keyed srv s.packets × IsPort port s.searched

  find_packet-IsOurs :
      (key : ℕ) (ps : Packets) → Keyed srv ps → IsStored srv key (find_packet key ps)
  unfolding find_packet
  find_packet-IsOurs key [] h = tt
  find_packet-IsOurs key ((k, p) ∷ rest) (o, h) =
      if_cases (IsStored srv key) (k == key) (some p) (find_packet key rest)
        (λ e. IsOurs-port srv k key p ((==_iff k key).0 e) o) (λ _. find_packet-IsOurs key rest h)

  break_with-Stores : (o : Option Bytes) → IsStored srv port o → Stores srv port (break_with o)
  break_with-Stores o h = (refl, h, inl refl)

  module _ (next : Sniff → SniffEnd) (ok : (s : Sniff) → Holds s → Stores srv port (next s)) where
    on_packet-Stores :
        (known : Option ℕ) (p : Bytes) (s : Sniff)
        → from_server srv p ≡ true
        → Holds s
        → IsPort port known
        → Stores srv port (on_packet srv known p s next)
    unfolding on_packet
    on_packet-Stores none p s e h k = ok _ ((IsOurs-tests srv (port_dst p) p e refl, h.0), h.1)
    on_packet-Stores (some known) p s e h k =
        if_cases (Stores srv port) (known == port_dst p) (break_with (some p)) (next s)
          (λ q.
            break_with-Stores (some p)
              (IsOurs-tests srv port p e (sym ((==_iff known (port_dst p)).0 q) ∙ k)))
          (λ _. ok s h)

    on_received-Stores :
        (p : Bytes) (s : Sniff) → Holds s → Stores srv port (on_received srv p s next)
    unfolding on_received
    on_received-Stores p s h =
        let s' : Sniff = record s { buffer = p } in
        if_cases (Stores srv port) (from_server srv p) (on_packet srv s.searched p s' next)
          (next s') (λ e. on_packet-Stores s.searched p s' e h h.1) (λ _. ok s' h)

    on_polled-Stores :
        (late : Bool) (polled : Polled) (s : Sniff)
        → Holds s
        → Stores srv port (on_polled srv late polled s next)
    unfolding on_polled
    on_polled-Stores true polled s h = (refl, tt, inr refl)
    on_polled-Stores false poll_failed s h = break_with-Stores none tt
    on_polled-Stores false broken s h = break_with-Stores none tt
    on_polled-Stores false read_failed s h = break_with-Stores none tt
    on_polled-Stores false timed_out s h = ok s h
    on_polled-Stores false no_data s h = ok s h
    on_polled-Stores false (received packet) s h =
        on_received-Stores (into_buffer s.buffer packet) s h

    found_or-Stores :
        (found : Option Bytes) (p : ℕ) (s : Sniff)
        → p ≡ port
        → IsStored srv p found
        → Holds s
        → Stores srv port (found_or found p s next)
    unfolding found_or
    found_or-Stores (some packet) p s e o h =
        break_with-Stores (some packet) (IsOurs-port srv p port packet e o)
    found_or-Stores none p s e o h = ok _ (h.0, e)

    search-Stores :
        (known at_start : Option ℕ) (s : Sniff)
        → IsPort port at_start
        → Holds s
        → Stores srv port (search known at_start s next)
    unfolding search
    search-Stores (some p) at_start s k h = ok s h
    search-Stores none none s k h = ok s h
    search-Stores none (some p) s k h =
        found_or-Stores (find_packet p s.packets) p s k (find_packet-IsOurs p s.packets h.0) h

  sniff_loop-Stores :
      (turns : List Turn) (s : Sniff)
      → Knows port turns
      → Holds s
      → Stores srv port (sniff_loop srv turns s)
  unfolding sniff_loop
  sniff_loop-Stores [] s k h = tt
  sniff_loop-Stores (t ∷ rest) s k h =
      let next = sniff_loop srv rest in
      let polled : Sniff → SniffEnd = λ s'. on_polled srv t.late t.polled s' next in
      if_cases (Stores srv port) (not t.flag) (break_with none)
        (search s.searched t.local_port s polled) (λ _. break_with-Stores none tt)
        (λ _.
          search-Stores polled
            (λ s' h'.
              on_polled-Stores next (λ s2 h2. sniff_loop-Stores rest s2 k.1 h2) t.late t.polled s'
                h')
            s.searched t.local_port s k.0 h)

-- Where the socket opens and the local port, as soon as it is known, is `port`: whatever the raw
-- socket brings and whenever the port becomes known, `sniff_handshake_packet` stores only a packet
-- from the server's address and port that is for that local port, stores none unless its status is 0,
-- and closes its socket exactly once.
pub sniff_handshake_packet-Stores :
    (srv : Server) (port : ℕ) (turns : List Turn)
    → Knows port turns
    → Stores srv port (sniff_handshake_packet srv true turns)
unfolding sniff_handshake_packet
sniff_handshake_packet-Stores srv port turns k = sniff_loop-Stores srv port turns _ k (tt, tt)

-- The same of the other thread; its code is 0 however the loop ends.
abbrev pub AckStores : Server → ℕ → AckEnd → Type 0
AckStores srv port ack_runs = Unit
AckStores srv port (ack_ended code packet closed) =
    (closed ≡ 1) × IsStored srv port packet × (code ≡ pos 0)

ack_received-AckStores :
    (srv : Server) (port : ℕ) (p : Bytes) (next : Bytes → AckEnd)
    → ((b : Bytes) → AckStores srv port (next b))
    → AckStores srv port (ack_received srv port p next)
unfolding ack_received
ack_received-AckStores srv port p next ok =
    if_cases (AckStores srv port) (from_server srv p && port == port_dst p)
      (ack_ended (pos 0) (some p) 1) (next p)
      (λ e.
        let tests = both (from_server srv p) (port == port_dst p) e in
        (refl, IsOurs-tests srv port p tests.0 (sym ((==_iff port (port_dst p)).0 tests.1)), refl))
      (λ _. ok p)

ack_loop-AckStores :
    (srv : Server) (port : ℕ) (turns : List AckTurn) (b : Bytes)
    → AckStores srv port (ack_loop srv port turns b)
unfolding ack_loop
ack_loop-AckStores srv port [] b = tt
ack_loop-AckStores srv port (stopped ∷ rest) b = (refl, tt, refl)
ack_loop-AckStores srv port (polls poll_failed ∷ rest) b = (refl, tt, refl)
ack_loop-AckStores srv port (polls broken ∷ rest) b = (refl, tt, refl)
ack_loop-AckStores srv port (polls read_failed ∷ rest) b = (refl, tt, refl)
ack_loop-AckStores srv port (polls timed_out ∷ rest) b = ack_loop-AckStores srv port rest b
ack_loop-AckStores srv port (polls no_data ∷ rest) b = ack_loop-AckStores srv port rest b
ack_loop-AckStores srv port (polls (received packet) ∷ rest) b =
    ack_received-AckStores srv port (into_buffer b packet) (ack_loop srv port rest)
      (ack_loop-AckStores srv port rest)

-- `sniff_ack_packet` on an open socket stores only a packet from the server's address and port that
-- is for the local port given, closes its socket exactly once, and returns 0 however its loop ends.
pub sniff_ack_packet-AckStores :
    (srv : Server) (port : ℕ) (turns : List AckTurn)
    → AckStores srv port (sniff_ack_packet srv port true turns)
unfolding sniff_ack_packet
sniff_ack_packet-AckStores srv port turns = ack_loop-AckStores srv port turns no_packet
