-- ===== src/Base64/RoundTrip.antt =====
-- What is encoded decodes to itself.
use dpitunnel_cli.Prelude.{
  ℕ, zero, suc, ◌+◌, ◌*◌, ◌/◌, ◌%◌, ◌^◌, ◌<◌, ◌≡◌, refl, ap, ◌∙◌, arith, Bool, true, ◌&&◌, [], ◌∷◌,
}
use dpitunnel_cli.Prelude.{Option, none, some, Bytes, get_or, ◌==◌}
use dpitunnel_cli.Base64.{
  alphabet, symbol, flush, encode_from, base64_encode, table, decoded, decode_from, base64_decode,
}

is_some : Option ℕ → ℕ → Bool
is_some none i = 0 == 1
is_some (some j) i = j == i

is_some→some : (o : Option ℕ) (i : ℕ) → is_some o i ≡ true → o ≡ some i
unfolding is_some
is_some→some none i e = ground arith
is_some→some (some j) i e = ap some (ground arith)

-- `f` finds every number below `n`.
undone : (ℕ → Option ℕ) → ℕ → Bool
undone f zero = true
undone f (suc i) = is_some (f i) i && undone f i

both : (a b : Bool) → a && b ≡ true → (a ≡ true) × (b ≡ true)
both a b e = ground arith

undone-below : (f : ℕ → Option ℕ) (n i : ℕ) → undone f n ≡ true → i < n → f i ≡ some i
unfolding undone
undone-below f zero i e h = elim h [ ]
undone-below f (suc n) i e h =
    let last = is_some→some (f n) n (both _ _ e).0 in
    let earlier = undone-below f n i (both _ _ e).1 in at_or_below i n h last earlier
  where
    at_or_below : (i n : ℕ) → i < suc n → f n ≡ some n → (i < n → f i ≡ some i) → f i ≡ some i
    at_or_below i n h last earlier = ground arith

entry : ℕ → Option ℕ
unfolding table
entry i = table (get_or alphabet i 0)

entry_64 : undone entry 64 ≡ true
unfolding undone is_some entry
entry_64 = refl

-- What the decoder reads from a character.
table-symbol : (val shift : ℕ) → table (symbol val shift) ≡ some (val / 2 ^ shift % 64)
unfolding symbol entry
table-symbol val shift = undone-below entry 64 (val / 2 ^ shift % 64) entry_64 (omega arith)

-- Every element is a byte.
abbrev pub AreBytes : Bytes → Type 0
AreBytes [] = Unit
AreBytes (c ∷ s) = (c < 256) × AreBytes s

join : {c d : ℕ} {s t : Bytes} → c ≡ d → s ≡ t → c ∷ s ≡ d ∷ t
join e f = cc

-- The decoder at a character of the encoder.
decode_from-symbol :
    (d bits val shift : ℕ) (s : Bytes)
    → decode_from d bits (symbol val shift ∷ s)
      ≡ decoded
          ((d * 64 + val / 2 ^ shift % 64) % 2 ^ 32)
          (bits + 6)
          (λ left. decode_from ((d * 64 + val / 2 ^ shift % 64) % 2 ^ 32) left s)
unfolding decode_from
decode_from-symbol d bits val shift s =
    ap
      (λ o. elim o as (λ o. Bytes) [
        | none ↦ []
        | some v ↦
            decoded ((d * 64 + v) % 2 ^ 32) (bits + 6)
              (λ left. decode_from ((d * 64 + v) % 2 ^ 32) left s)
      ])
      (table-symbol val shift)

-- The decoder behind the encoder that holds 0, 2 or 4 bits of the byte before.
abbrev Even : Bytes → Type 0
Even s = (d e : ℕ) → decode_from d 0 (encode_from e 0 s) ≡ s

abbrev TwoHeld : Bytes → Type 0
TwoHeld s = (d e : ℕ) → decode_from d 6 (encode_from e 2 s) ≡ (d % 64 * 4 + e % 4) ∷ s

abbrev FourHeld : Bytes → Type 0
FourHeld s = (d e : ℕ) → decode_from d 4 (encode_from e 4 s) ≡ (d % 16 * 16 + e % 16) ∷ s

even : (c : ℕ) (s : Bytes) → c < 256 → TwoHeld s → Even (c ∷ s)
unfolding encode_from flush decoded
even c s b ih d e = decode_from-symbol d 0 _ 2 _ ∙ ih _ _ ∙ join (omega arith) refl

two_held : (c : ℕ) (s : Bytes) → c < 256 → FourHeld s → TwoHeld (c ∷ s)
unfolding encode_from flush decoded
two_held c s b ih d e =
    decode_from-symbol d 6 _ 4 _ ∙ join (omega arith) (ih _ _ ∙ join (omega arith) refl)

four_held : (c : ℕ) (s : Bytes) → c < 256 → Even s → FourHeld (c ∷ s)
unfolding encode_from flush decoded
four_held c s b ih d e =
    decode_from-symbol d 4 _ 6 _
    ∙ join (omega arith) (decode_from-symbol _ 2 _ 0 _ ∙ join (omega arith) (ih _ _))

ends : Even [] × TwoHeld [] × FourHeld []
unfolding encode_from flush decoded decode_from
ends = (
  λ d e. refl,
  λ d e. decode_from-symbol d 6 _ 4 [] ∙ join (omega arith) refl,
  λ d e. decode_from-symbol d 4 _ 6 [] ∙ join (omega arith) refl,
)

held : (s : Bytes) → AreBytes s → Even s × TwoHeld s × FourHeld s
held [] h = ends
held (c ∷ s) (b, h) =
    let (e, t, f) = held s h in (even c s b t, two_held c s b f, four_held c s b e)

-- What `base64_encode` writes, `base64_decode` reads back, for every text of bytes.
pub decode-encode : (s : Bytes) → AreBytes s → base64_decode (base64_encode s) ≡ s
unfolding base64_decode base64_encode
decode-encode s h = (held s h).0 0 0
