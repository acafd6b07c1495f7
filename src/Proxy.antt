-- ===== src/Proxy.antt =====
-- The decisions of `process_client_cycle` in dpitunnel-cli.cpp: the server's name in transparent
-- mode and the place where the first packet is split.
pub mod Split
pub mod State
pub mod Transfer
pub mod Cycle
use dpitunnel_cli.Prelude.{
  ℕ, ◌+◌, ◌/◌, min, Bool, ◌&&◌, ◌||◌, Bytes, substr, ltb, ◌==◌, if◌then◌else◌,
}
use dpitunnel_cli.Prelude.Outcome.{Outcome, done, ◌>>=◌}
use dpitunnel_cli.Utils.Sni.{Sni, u32, get_tls_sni}

-- `sni_start + sni_len > last_char || sni_start == 0 || sni_len == 0`, in `unsigned int`.
unfoldable pub no_sni : ℕ → Sni → Bool
no_sni last_char (start, len) = ltb last_char (u32 (start + len)) || start == 0 || len == 0

-- The name where one was found, else the original address.
unfoldable pub name_or_address : Bytes → ℕ → Bytes → Sni → Bytes
unfolding no_sni
name_or_address buffer last_char address (start, len) =
    if no_sni last_char (start, len) then address else substr buffer start len

unfoldable pub transparent_host : Bytes → ℕ → Bytes → Outcome Bytes
transparent_host buffer last_char address =
    get_tls_sni buffer last_char >>= λ sni. done (name_or_address buffer last_char address sni)

-- The middle of the name where one was found, else the user's position within the data.
unfoldable pub split_at : ℕ → ℕ → Sni → ℕ
split_at split_position last_char (start, len) =
    if no_sni last_char (start, len) then min split_position last_char else u32 (start + len / 2)

unfoldable pub choose_split_pos : Bool → Bool → ℕ → Bytes → ℕ → Outcome ℕ
choose_split_pos is_https split_at_sni split_position buffer last_char =
    if is_https && split_at_sni
    then get_tls_sni buffer last_char >>= (λ sni. done (split_at split_position last_char sni))
    else done (min split_position last_char)
