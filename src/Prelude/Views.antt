-- ===== src/Prelude/Views.antt =====
-- Reading a text at a position, through what is left from there on.
use Prim.Native.Nat.{ℕ, zero, suc, ◌+◌, ◌-◌, ◌*◌, ◌/◌, ◌%◌, ◌<◌, ◌≤◌}
use mathlib.Core.Path.{◌≡◌, refl, sym, ◌∙◌, ap}
use mathlib.Core.List.{[], ◌∷◌, ◌++◌}
use native.Mathlib.Omega.{arith}
use dpitunnel_cli.Prelude.Outcome.{Outcome, done, fault, ◌>>=◌}
use dpitunnel_cli.Prelude.Lists.{length, drop, length-drop}
use dpitunnel_cli.Prelude.Text.{Bytes}

-- `s[i]` of a `std::string`: the NUL behind the text may be read, and nothing further.
abbrev pub byte_at : Bytes → ℕ → Outcome ℕ
byte_at [] zero = done 0
byte_at [] (suc i) = fault
byte_at (c ∷ s) zero = done c
byte_at (c ∷ s) (suc i) = byte_at s i

-- `ntohs(*(unsigned short *) &s[i])`, an `unsigned short`
unfoldable pub word_at : Bytes → ℕ → Outcome ℕ
word_at s i = do hi ← byte_at s i; lo ← byte_at s (i + 1); done ((hi * 256 + lo) % 65536)

pub byte_at-total : (s : Bytes) (i : ℕ) → i ≤ length s → (c : ℕ) × (byte_at s i ≡ done c)
byte_at-total [] zero h = (0, refl)
byte_at-total [] (suc i) h = absurd (omega arith)
byte_at-total (c ∷ s) zero h = (c, refl)
byte_at-total (c ∷ s) (suc i) h = byte_at-total s i (omega arith)

pub word_at-total :
    (s : Bytes) (i : ℕ) → i < length s → (w : ℕ) × (word_at s i ≡ done w) × (w < 65536)
unfolding word_at
word_at-total s i h =
    let (hi, p) = byte_at-total s i (omega arith) in
    let (lo, q) = byte_at-total s (i + 1) (omega arith) in
    ((hi * 256 + lo) % 65536, rw (p, q), omega arith)

-- From position `i` the text reads `r`.
abbrev pub From : Bytes → ℕ → Bytes → Type 0
From s i r = drop i s ≡ r

drop_cons : (s : Bytes) (i c : ℕ) (r : Bytes) → drop i s ≡ c ∷ r → drop (suc i) s ≡ r
drop_cons [] zero c r e = cc
drop_cons [] (suc i) c r e = cc
drop_cons (d ∷ s) zero c r e = cc
drop_cons (d ∷ s) (suc i) c r e = drop_cons s i c r e

pub From-cons : (s : Bytes) (i c : ℕ) (r : Bytes) → From s i (c ∷ r) → From s (i + 1) r
From-cons s i c r e = ground (arith, drop_cons s i c r e)

pub From-append : (s : Bytes) (i : ℕ) (p r : Bytes) → From s i (p ++ r) → From s (i + length p) r
From-append s i [] r e = ground arith
From-append s i (c ∷ p) r e = ground (arith, From-append s (i + 1) p r (From-cons s i c (p ++ r) e))

pub byte_at-From : (s : Bytes) (i c : ℕ) (r : Bytes) → From s i (c ∷ r) → byte_at s i ≡ done c
byte_at-From [] zero c r e = cc
byte_at-From [] (suc i) c r e = cc
byte_at-From (d ∷ s) zero c r e = cc
byte_at-From (d ∷ s) (suc i) c r e = byte_at-From s i c r e

-- The two low bytes of a number, the high one first.
abbrev pub be16 : ℕ → Bytes
be16 n = (n / 256 % 256) ∷ (n % 256) ∷ []

pub word_at-From :
    (s : Bytes) (i n : ℕ) (r : Bytes) → n < 65536 → From s i (be16 n ++ r) → word_at s i ≡ done n
unfolding word_at
word_at-From s i n r h e =
    rw
      (
        byte_at-From s i (n / 256 % 256) ((n % 256) ∷ r) e,
        byte_at-From s (i + 1) (n % 256) r (From-cons s i (n / 256 % 256) ((n % 256) ∷ r) e),
      )
      (ap done (omega arith))

pub From-length : (s : Bytes) (i : ℕ) (r : Bytes) → From s i r → length s - i ≡ length r
From-length s i r e = sym (length-drop i s) ∙ ap length e
