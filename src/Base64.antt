-- ===== src/Base64.antt =====
-- include/base64.h. `val` is an `int` that keeps its low 32 bits; the counts of pending bits stand
-- 6 (encoder) and 8 (decoder) above the source's `valb`, so that they are numbers.
pub mod RoundTrip
use dpitunnel_cli.Prelude.{
  ℕ, zero, suc, ◌+◌, ◌-◌, ◌*◌, ◌/◌, ◌%◌, ◌^◌, List, [], ◌∷◌, ◌++◌, Option, none, some,
}
use dpitunnel_cli.Prelude.{Bytes, codes, find_byte, get_or, ltb, leb, if◌then◌else◌}

abbrev pub alphabet : Bytes
alphabet = codes "ABCDEFGHIJKLMNOPQRSTUVWXYZabcdefghijklmnopqrstuvwxyz0123456789-_"

-- The character of `(val >> shift) & 0x3F`.
unfoldable pub symbol : ℕ → ℕ → ℕ
symbol val shift = get_or alphabet (val / 2 ^ shift % 64) 0

-- The inner loop, at most as often as the first argument says: the characters and the bits left.
unfoldable pub flush : ℕ → ℕ → ℕ → Bytes × ℕ
flush zero val bits = ([], bits)
flush (suc fuel) val bits =
    let rest = flush fuel val (bits - 6) in
    if leb 6 bits then (symbol val (bits - 6) ∷ rest.0, rest.1) else ([], bits)

unfoldable pub encode_from : ℕ → ℕ → Bytes → Bytes
unfolding flush
encode_from val bits [] = if ltb 0 bits then symbol (val * 256 % 2 ^ 32) (bits + 2) ∷ [] else []
encode_from val bits (c ∷ s) =
    let val' = (val * 256 + c) % 2 ^ 32 in
    let out = flush (bits + 8) val' (bits + 8) in out.0 ++ encode_from val' (out.1) s

unfoldable pub base64_encode : Bytes → Bytes
base64_encode s = encode_from 0 0 s

-- The table `T`: the place in the alphabet, or -1.
unfoldable pub table : ℕ → Option ℕ
unfolding find_byte
table c = find_byte c alphabet

-- A byte goes out where 8 bits are there.
unfoldable pub decoded : ℕ → ℕ → (ℕ → Bytes) → Bytes
decoded val bits next =
    if leb 8 bits then val / 2 ^ (bits - 8) % 256 ∷ next (bits - 8) else next bits

unfoldable pub decode_from : ℕ → ℕ → Bytes → Bytes
unfolding decoded
decode_from val bits [] = []
decode_from val bits (c ∷ s) = elim (table c) [
  | none ↦ []
  | some v ↦
      let val' = (val * 64 + v) % 2 ^ 32 in
      decoded val' (bits + 6) (λ left. decode_from val' left s)
]

unfoldable pub base64_decode : Bytes → Bytes
base64_decode s = decode_from 0 0 s
