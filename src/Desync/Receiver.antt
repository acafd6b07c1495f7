-- ===== src/Desync/Receiver.antt =====
-- A receiver of packets: which byte of a stream has arrived. It stands for the network and the server.
use dpitunnel_cli.Prelude.{ℕ, zero, suc, ◌+◌, ◌-◌, ◌%◌, ◌^◌, ◌≤◌, ◌<◌, ◌≡◌, refl, arith, ◌&&◌}
use dpitunnel_cli.Prelude.{
  Option, none, some, List, [], ◌∷◌, ◌++◌, Bytes, take, drop, get_or, get_elem?, ltb, leb,
  Option-cases, if◌then◌else◌,
}
use dpitunnel_cli.Desync.Packet.{get32}

-- `count` bytes of the text from `at` on.
abbrev pub slice : Bytes → ℕ → ℕ → Bytes
slice s at count = take count (drop at s)

-- What the network and the server read of a packet with headers of 20 bytes each.
abbrev pub ttl_of : Bytes → ℕ
ttl_of p = get_or p 8 0

abbrev pub payload_of : Bytes → Bytes
payload_of p = drop 40 p

-- The offset of the data from the number `base` on, modulo 2 ^ 32.
abbrev pub offset_of : ℕ → Bytes → ℕ
offset_of base p = (get32 p 24 + 2 ^ 32 - base) % 2 ^ 32

-- The byte at offset `i` of one packet's data.
unfoldable pub carried : ℕ → Bytes → ℕ → Option ℕ
carried base p i =
    if leb (offset_of base p) i then get_elem? (payload_of p) (i - offset_of base p) else none

abbrev pub first_of : Option ℕ → Option ℕ → Option ℕ
first_of (some c) o = some c
first_of none o = o

-- The byte at offset `i` of what a server at a distance of `dist` hops receives, which expects
-- `base` next: of the packets whose TTL is enough the first one that carries it decides.
unfoldable pub received : ℕ → ℕ → List Bytes → ℕ → Option ℕ
received dist base [] i = none
received dist base (p ∷ ps) i =
    if leb dist (ttl_of p)
    then first_of (carried base p i) (received dist base ps i)
    else received dist base ps i

-- What one packet brings.
abbrev pub arrives : ℕ → ℕ → Bytes → ℕ → Option ℕ
arrives dist base p i = if leb dist (ttl_of p) then carried base p i else none

pub received-snoc :
    (dist base : ℕ) (ps : List Bytes) (p : Bytes) (i : ℕ)
    → received dist base (ps ++ p ∷ []) i
      ≡ first_of (received dist base ps i) (arrives dist base p i)
unfolding received
received-snoc dist base [] p i = ground arith
received-snoc dist base (q ∷ ps) p i =
    ground (arith, received-snoc dist base ps p i, Option-cases (carried base q i))

get_elem?-take :
    (s : Bytes) (n i : ℕ) → get_elem? (take n s) i ≡ (if ltb i n then get_elem? s i else none)
get_elem?-take s zero i = ground arith
get_elem?-take [] (suc n) i = ground arith
get_elem?-take (c ∷ s) (suc n) zero = ground arith
get_elem?-take (c ∷ s) (suc n) (suc i) = ground (arith, get_elem?-take s n i)

get_elem?-drop : (s : Bytes) (n i : ℕ) → get_elem? (drop n s) i ≡ get_elem? s (n + i)
get_elem?-drop s zero i = ground arith
get_elem?-drop [] (suc n) i = refl
get_elem?-drop (c ∷ s) (suc n) i = ground (arith, get_elem?-drop s n i)

get_elem?-slice :
    (s : Bytes) (at count i : ℕ)
    → get_elem? (slice s at count) i ≡ (if ltb i count then get_elem? s (at + i) else none)
get_elem?-slice s at count i =
    ground (arith, get_elem?-take (drop at s) count i, get_elem?-drop s at i)

-- A packet of some of the text that gets through, and one that does not.
pub arrives-slice :
    (dist base at count i : ℕ) (s p : Bytes)
    → dist ≤ ttl_of p
    → offset_of base p ≡ at
    → payload_of p ≡ slice s at count
    → arrives dist base p i ≡ (if leb at i && ltb (i - at) count then get_elem? s i else none)
unfolding carried
arrives-slice dist base at count i s p through place text =
    rw (place, text) (ground (arith, get_elem?-slice s at count (i - at)))

pub arrives-lost : (dist base i : ℕ) (p : Bytes) → ttl_of p < dist → arrives dist base p i ≡ none
arrives-lost dist base i p lost = ground arith
