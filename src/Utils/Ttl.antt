-- ===== src/Utils/Ttl.antt =====
-- `tcp_get_auto_ttl` of utils.cpp, over uint8_t values.
pub mod Laws
use dpitunnel_cli.Prelude.{
  ℕ, ◌+◌, ◌-◌, ◌*◌, ◌/◌, ◌%◌, ◌&&◌, ◌||◌, not, ltb, leb, ◌==◌, if◌then◌else◌,
}

-- How many hops the answer has travelled, if it began with TTL 128 or 64; 0 where the code returns
-- at once.
unfoldable pub count_nhops : ℕ → ℕ
count_nhops ttl =
    if ltb 98 ttl && ltb ttl 128
    then 128 - ttl
    else if ltb 34 ttl && ltb ttl 64
    then 64 - ttl
    else 0

-- `(uint8_t) (nhops - a1 - trunc((a2 - a1) * ((float) nhops / 10)))`, for nhops ≤ 9. The product in
-- single precision truncates as the exact quotient does, at every a1, a2 below 256 and nhops ≤ 9.
-- Truncation is toward zero, so a falling scale (a2 < a1) adds. A sum below 0 or above 255 is out
-- of range for the conversion, which C leaves undefined; it is wrapped here.
unfoldable pub scaled_ttl : ℕ → ℕ → ℕ → ℕ
scaled_ttl nhops a1 a2 =
    if leb a1 a2
    then (nhops + 2 * 256 - a1 - (a2 - a1) * nhops / 10) % 256
    else (nhops + 256 - a1 + (a1 - a2) * nhops / 10) % 256

-- `maxttl && ttl > maxttl`
unfoldable pub cap_ttl : ℕ → ℕ → ℕ
cap_ttl maxttl ttl = if not (maxttl == 0) && ltb maxttl ttl then maxttl else ttl

-- `nhops - autottl2` is stored in a uint8_t.
unfoldable pub tcp_get_auto_ttl : ℕ → ℕ → ℕ → ℕ → ℕ → ℕ
tcp_get_auto_ttl ttl autottl1 autottl2 minhops maxttl =
    let nhops = count_nhops ttl in
    let lowered = (nhops + 256 - autottl2) % 256 in
    if nhops == 0
    then 0
    else if leb nhops autottl1 || ltb nhops minhops
    then 0
    else if ltb lowered autottl2 && leb nhops 9
    then cap_ttl maxttl (scaled_ttl nhops autottl1 autottl2)
    else cap_ttl maxttl lowered
