-- ===== src/Utils/Ttl/Laws.antt =====
-- The TTL of fakes: below the distance to the server, or not.
use dpitunnel_cli.Prelude.{ℕ, ◌+◌, ◌-◌, ◌*◌, ◌%◌, ◌≤◌, ◌<◌, ◌≡◌, ◌≢◌, ◌⊎◌, arith, min}
use dpitunnel_cli.Utils.Ttl.{tcp_get_auto_ttl, count_nhops, scaled_ttl, cap_ttl}

cap_ttl-le : (m t : ℕ) → cap_ttl m t ≤ t
unfolding cap_ttl
cap_ttl-le m t = ground arith

pub cap_ttl-max : (m t : ℕ) → m ≢ 0 → cap_ttl m t ≤ m
unfolding cap_ttl
cap_ttl-max m t h = ground arith

pub count_nhops-lt : (ttl : ℕ) → count_nhops ttl < 30
unfolding count_nhops
count_nhops-lt ttl = ground arith

scaled_ttl-lt : (n a1 a2 : ℕ) → a1 < n → n ≤ 9 → 0 < a1 → a1 ≤ a2 → a2 ≤ n → scaled_ttl n a1 a2 < n
unfolding scaled_ttl
scaled_ttl-lt n a1 a2 h k p q r =
    let tenth : (a2 - a1) * n ≤ (a2 - a1) * 9 = grind arith in ground arith

-- With 0 < a1 ≤ a2 and a distance of at least a2 hops, the TTL chosen is below the distance, so
-- that fakes do not reach the server.
pub tcp_get_auto_ttl-lt :
    (ttl a1 a2 minhops maxttl : ℕ)
    → 0 < a1
    → a1 ≤ a2
    → a2 ≤ count_nhops ttl
    → tcp_get_auto_ttl ttl a1 a2 minhops maxttl < count_nhops ttl
unfolding tcp_get_auto_ttl
tcp_get_auto_ttl-lt ttl a1 a2 minhops maxttl h k q =
    let n = count_nhops ttl in
    ground (
      arith,
      count_nhops-lt ttl,
      cap_ttl-le maxttl (scaled_ttl n a1 a2),
      cap_ttl-le maxttl ((n + 256 - a2) % 256),
      scaled_ttl-lt n a1 a2,
    )

-- With a distance above a1, not below the minimum and below a2 < 128, the difference nhops - a2
-- wraps round. Without a maximum the TTL is 256 + nhops - a2, which is above the distance, so that
-- fakes reach the server; with one it is the smaller of the two, so the maximum wherever that is at
-- most 128.
pub tcp_get_auto_ttl-wraps :
    (ttl a1 a2 minhops maxttl : ℕ)
    → a1 < count_nhops ttl
    → minhops ≤ count_nhops ttl
    → count_nhops ttl < a2
    → a2 < 128
    → ((maxttl ≡ 0)
        × (tcp_get_auto_ttl ttl a1 a2 minhops maxttl ≡ 256 + count_nhops ttl - a2)
        × (count_nhops ttl < tcp_get_auto_ttl ttl a1 a2 minhops maxttl))
      ⊎ ((maxttl ≢ 0)
          × (tcp_get_auto_ttl ttl a1 a2 minhops maxttl ≡ min maxttl (256 + count_nhops ttl - a2)))
unfolding tcp_get_auto_ttl cap_ttl
tcp_get_auto_ttl-wraps ttl a1 a2 minhops maxttl h k q r = ground (arith, count_nhops-lt ttl)
