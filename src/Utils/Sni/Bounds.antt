-- ===== src/Utils/Sni/Bounds.antt =====
-- `get_tls_sni` on any bytes: it returns, reads nothing out of range, and what it finds begins
-- inside the data.
use dpitunnel_cli.Prelude.{ℕ, zero, suc, ◌+◌, ◌%◌, ◌^◌, ◌≤◌, ◌<◌, ◌≡◌, ◌⊎◌, inl, inr, refl, arith}
use dpitunnel_cli.Prelude.{Bytes, length, leb, ltb, ◌==◌, if_cases}
use dpitunnel_cli.Prelude.Outcome.{Outcome, done, ◌>>=◌, Returns}
use dpitunnel_cli.Prelude.Views.{byte_at, word_at, byte_at-total, word_at-total}
use dpitunnel_cli.Utils.Sni.{
  Sni, u32, widen_char, name_at, extensions, after_compression, after_ciphers,
}
use dpitunnel_cli.Utils.Sni.{after_session, get_tls_sni}

-- Nothing was found, or a name that begins inside the data.
abbrev pub Inside : ℕ → Sni → Type 0
Inside last_char (start, len) =
    ((start ≡ 0) × (len ≡ 0)) ⊎ ((0 < start) × (start < last_char) × (len < 65536))

module _ (bytes : Bytes) (last_char : ℕ) (held : last_char ≤ length bytes)
    (small : last_char ≤ 0x7fffffff) where
  abbrev Ends : Outcome Sni → Type 0
  Ends = Returns (Inside last_char)

  nothing : Ends (done (0, 0))
  nothing = ((0, 0), refl, inl (refl, refl))

  -- A word that is read, and what follows.
  Ends-word :
      (i : ℕ) (k : ℕ → Outcome Sni)
      → i < last_char
      → ((w : ℕ) → w < 65536 → Ends (k w))
      → Ends (word_at bytes i >>= k)
  Ends-word i k h f = let (w, e, b) = word_at-total bytes i (omega arith) in rw e (f w b)

  Ends-byte :
      (i : ℕ) (k : ℕ → Outcome Sni)
      → i < last_char
      → ((c : ℕ) → Ends (k c))
      → Ends (byte_at bytes i >>= k)
  Ends-byte i k h f = let (c, e) = byte_at-total bytes i (omega arith) in rw e (f c)

  widen_char-lt : (c : ℕ) → widen_char c < 65536
  unfolding widen_char
  widen_char-lt c = ground arith

  name_at-Ends : (it : ℕ) → it + 9 < last_char → Ends (name_at bytes it)
  unfolding name_at
  name_at-Ends it h =
      Ends-word (u32 (it + 7)) (λ namelen. done (u32 (it + 9), namelen)) (omega arith)
        (λ w b. ((u32 (it + 9), w), refl, inr (omega arith, omega arith, b)))

  module _ (maxcharit : ℕ) (word : maxcharit < 65536) where
    extensions-Ends :
        (fuel it : ℕ)
        → 0 < fuel
        → last_char < it + fuel
        → Ends (extensions bytes last_char fuel it maxcharit)
    unfolding extensions
    extensions-Ends zero it p h = absurd (omega arith)
    extensions-Ends (suc fuel) it p h =
        if_cases Ends (ltb it maxcharit) _ _
          (λ more.
            if_cases Ends (leb last_char (u32 (it + 9))) _ _ (λ _. nothing)
              (λ long.
                let room : it + 9 < last_char = ground arith in
                Ends-word it _ (omega arith) (λ ty b.
                  Ends-word (u32 (it + 2)) _ (omega arith) (λ len c.
                    if_cases Ends (ty == 0) _ _ (λ _. name_at-Ends it room)
                      (λ _.
                        extensions-Ends fuel (u32 (it + 4 + len)) (omega arith) (omega arith))))))
          (λ _. nothing)

  after_compression-Ends : (it : ℕ) → 0 < it → Ends (after_compression bytes last_char it)
  unfolding after_compression
  after_compression-Ends it p =
      if_cases Ends (leb last_char it) _ _ (λ _. nothing)
        (λ long. Ends-word it _ (ground arith) (λ total b.
          let below : it < last_char = ground arith in
          extensions-Ends ((it + 2 + total) % 2 ^ 16) (omega arith) last_char (u32 (it + 2))
            (omega arith) (omega arith)))

  after_ciphers-Ends : (it : ℕ) → 0 < it → Ends (after_ciphers bytes last_char it)
  unfolding after_ciphers
  after_ciphers-Ends it p =
      if_cases Ends (leb last_char it) _ _ (λ _. nothing)
        (λ long.
          let below : it < last_char = ground arith in
          Ends-byte it _ (omega arith) (λ c.
            after_compression-Ends (u32 (it + 1 + widen_char c)) (omega (arith, widen_char-lt c))))

  after_session-Ends : (it : ℕ) → 0 < it → Ends (after_session bytes last_char it)
  unfolding after_session
  after_session-Ends it p =
      if_cases Ends (leb last_char it) _ _ (λ _. nothing)
        (λ long.
          let below : it < last_char = ground arith in
          Ends-word it _ (omega arith) (λ w b. after_ciphers-Ends (u32 (it + 2 + w)) (omega arith)))

  -- For data within the buffer and below 2 GiB, `get_tls_sni` returns without a read out of range,
  -- and either finds nothing (0, 0) or a name that begins inside the data.
  pub get_tls_sni-Returns : Returns (Inside last_char) (get_tls_sni bytes last_char)
  unfolding get_tls_sni
  get_tls_sni-Returns =
      if_cases Ends (leb last_char 43) _ _ (λ _. nothing)
        (λ long.
          let below : 43 < last_char = ground arith in
          Ends-byte 43 _ below
            (λ c. after_session-Ends (u32 (44 + widen_char c)) (omega (arith, widen_char-lt c))))
