-- ===== src/Utils/Sni.antt =====
-- `get_tls_sni` of utils.cpp.
pub mod Bounds
pub mod Find
pub mod Hello
use dpitunnel_cli.Prelude.{ℕ, zero, suc, ◌+◌, ◌%◌, ◌^◌, Bytes, leb, ltb, ◌==◌, if◌then◌else◌}
use dpitunnel_cli.Prelude.Outcome.{Outcome, done, out_of_fuel, ◌>>=◌}
use dpitunnel_cli.Prelude.Views.{byte_at, word_at}

-- An `unsigned int` value.
abbrev pub u32 : ℕ → ℕ
u32 n = n % 2 ^ 32

-- `char` is signed, so a byte from 128 on becomes an `unsigned short` with its high byte 0xff.
unfoldable pub widen_char : ℕ → ℕ
widen_char c = if ltb c 128 then c else (c + 0xff00) % 2 ^ 16

-- The values of `start_pos` and `len`. Both are 0 where no name was found.
abbrev pub Sni : Type 0
Sni = ℕ × ℕ

-- The name of the extension at `it`: a list length, a type and a length stand before it.
name_at : Bytes → ℕ → Outcome Sni
name_at bytes it = do namelen ← word_at bytes (u32 (it + 7)); done (u32 (it + 9), namelen)

-- The `while` loop over the extensions, from `it` up to `maxcharit`.
pub extensions : Bytes → ℕ → ℕ → ℕ → ℕ → Outcome Sni
unfolding name_at
extensions bytes last_char zero it maxcharit = out_of_fuel
extensions bytes last_char (suc fuel) it maxcharit =
    let next =
      λ (ext_len : ℕ). extensions bytes last_char fuel (u32 (it + 4 + ext_len)) maxcharit in
    let body : Outcome Sni = do
      ext_type ← word_at bytes it
      ext_len ← word_at bytes (u32 (it + 2))
      if ext_type == 0 then name_at bytes it else next ext_len
    in if ltb it maxcharit
      then (if leb last_char (u32 (it + 9)) then done (0, 0) else body)
      else done (0, 0)

-- From the length of the extensions on; `maxcharit` is an `unsigned short`.
pub after_compression : Bytes → ℕ → ℕ → Outcome Sni
after_compression bytes last_char it = if leb last_char it then done (0, 0) else do
  total ← word_at bytes it
  extensions bytes last_char last_char (u32 (it + 2)) ((it + 2 + total) % 2 ^ 16)

pub after_ciphers : Bytes → ℕ → ℕ → Outcome Sni
after_ciphers bytes last_char it = if leb last_char it then done (0, 0) else do
  cmplen ← byte_at bytes it
  after_compression bytes last_char (u32 (it + 1 + widen_char cmplen))

pub after_session : Bytes → ℕ → ℕ → Outcome Sni
after_session bytes last_char it =
    if leb last_char it
    then done (0, 0)
    else do cslen ← word_at bytes it; after_ciphers bytes last_char (u32 (it + 2 + cslen))

unfoldable pub get_tls_sni : Bytes → ℕ → Outcome Sni
get_tls_sni bytes last_char =
    if leb last_char 43
    then done (0, 0)
    else do sidlen ← byte_at bytes 43; after_session bytes last_char (u32 (44 + widen_char sidlen))
