-- ===== src/Proxy/Split.antt =====
-- Where the first packet is split, and the name that the server gets.
use dpitunnel_cli.Prelude.{
  ℕ, ◌≤◌, min, refl, ap, arith, Bool, ◌&&◌, inl, inr, Bytes, length, if_cases,
}
use dpitunnel_cli.Prelude.Outcome.{Outcome, done, ◌>>=◌, Returns}
use dpitunnel_cli.Utils.Sni.{Sni, get_tls_sni}
use dpitunnel_cli.Utils.Sni.Bounds.{Inside, get_tls_sni-Returns}
use dpitunnel_cli.Proxy.{no_sni, split_at, choose_split_pos}

-- A step behind code that returns.
Returns-then :
    {A B : Type 0} (P : A → Type 0) (Q : B → Type 0) (o : Outcome A) (f : A → B)
    → Returns P o
    → ((a : A) → P a → Q (f a))
    → Returns Q (o >>= λ a. done (f a))
Returns-then P Q o f (a, e, p) k = (f a, ap (λ r. r >>= λ a. done (f a)) e, k a p)

split_at-le :
    (split_position last_char : ℕ) (sni : Sni)
    → last_char ≤ 0x7fffffff
    → Inside last_char sni
    → split_at split_position last_char sni ≤ last_char
unfolding split_at no_sni
split_at-le split_position last_char (start, len) small (inl (e, f)) = ground arith
split_at-le split_position last_char (start, len) small (inr (p, below, short)) = ground arith

-- For data within the buffer and below 2 GiB, the packet is split at a place within the data, with
-- a name or without, so that neither part has a negative length.
pub choose_split_pos-le :
    (is_https split_at_sni : Bool) (split_position : ℕ) (buffer : Bytes) (last_char : ℕ)
    → last_char ≤ length buffer
    → last_char ≤ 0x7fffffff
    → Returns
        (λ at. at ≤ last_char)
        (choose_split_pos is_https split_at_sni split_position buffer last_char)
unfolding choose_split_pos
choose_split_pos-le is_https split_at_sni split_position buffer last_char held small =
    if_cases (Returns (λ at. at ≤ last_char)) (is_https && split_at_sni) _ _
      (λ e.
        Returns-then (Inside last_char) (λ at. at ≤ last_char) (get_tls_sni buffer last_char)
          (split_at split_position last_char) (get_tls_sni-Returns buffer last_char held small)
          (λ sni. split_at-le split_position last_char sni small))
      (λ e. (min split_position last_char, refl, omega arith))
