-- ===== src/Http/FirstLine.antt =====
-- Lines, and the first line of a request.
use dpitunnel_cli.Prelude.{
  ℕ, suc, ◌+◌, ◌-◌, ◌≡◌, refl, sym, ap, ap₂, ◌∙◌, arith, Bool, false, [], ◌∷◌, ◌++◌, some,
}
use dpitunnel_cli.Prelude.{
  Bytes, find_byte_from, length, take, drop, take-append, append_assoc, append-nil,
}
use dpitunnel_cli.Prelude.TextLaws.{Lacks, find_byte-append}
use dpitunnel_cli.Http.{HttpMessage, message_lines, parse_first_line, piece_to, next}
use dpitunnel_cli.Http.{method_key, path_key, version_key}

drop-append :
    (s : Bytes) (c : ℕ) (t : Bytes) (k : ℕ) → drop (length s + 1 + k) (s ++ c ∷ t) ≡ drop k t
drop-append [] c t k = ap (λ n. drop n (c ∷ t)) (e k)
  where
    e : (k : ℕ) → 0 + 1 + k ≡ suc k
    e k = omega arith
drop-append (d ∷ s) c t k =
    ap (λ n. drop n (d ∷ (s ++ c ∷ t))) (e (length s) k) ∙ drop-append s c t k
  where
    e : (n k : ℕ) → suc n + 1 + k ≡ suc (n + 1 + k)
    e n k = omega arith

plus_zero : (n : ℕ) → n + 1 ≡ n + 1 + 0
plus_zero n = omega arith

drop-append_one : (s : Bytes) (c : ℕ) (t : Bytes) → drop (length s + 1) (s ++ c ∷ t) ≡ t
drop-append_one s c t = ap (λ n. drop n (s ++ c ∷ t)) (plus_zero (length s)) ∙ drop-append s c t 0

-- A line up to its end.
pub message_lines-line :
    (b : Bool) (acc line s : Bytes)
    → Lacks 10 line
    → Lacks 13 line
    → message_lines b acc (line ++ 13 ∷ 10 ∷ s) ≡ (acc ++ line) ∷ message_lines false [] s
unfolding message_lines
message_lines-line b acc [] s h k = ap (λ l. l ∷ message_lines false [] s) (sym (append-nil acc))
message_lines-line b acc (c ∷ line) s (e, h) (f, k) =
    rw (e, f, message_lines-line false (acc ++ c ∷ []) line s h k)
      (ap (λ l. l ∷ message_lines false [] s) (append_assoc acc (c ∷ []) line))

-- The first line with its three parts.
abbrev pub first_line : Bytes → Bytes → Bytes → Bytes
first_line method path version = method ++ b' ' ∷ (path ++ b' ' ∷ version)

module _ (method path version : Bytes) (m : Lacks b' ' method) (p : Lacks b' ' path) where
  second_space :
      find_byte_from b' ' (length method + 1) (first_line method path version)
      ≡ some (length method + 1 + length path)
  unfolding find_byte_from
  second_space =
      rw
        (drop-append_one method b' ' (path ++ b' ' ∷ version), find_byte-append b' ' path version p)
        refl

  version_part :
      drop (length method + 1 + length path + 1) (first_line method path version) ≡ version
  version_part =
      ap (λ n. drop n (first_line method path version)) (e (length method) (length path))
      ∙ drop-append method b' ' (path ++ b' ' ∷ version) (length path + 1)
      ∙ drop-append_one path b' ' version
    where
      e : (a b : ℕ) → a + 1 + b + 1 ≡ a + 1 + (b + 1)
      e a b = omega arith

  path_part :
      take
        (length method + 1 + length path - (length method + 1))
        (drop (length method + 1) (first_line method path version))
      ≡ path
  path_part =
      ap₂ take (e (length method) (length path))
        (drop-append_one method b' ' (path ++ b' ' ∷ version))
      ∙ take-append path (b' ' ∷ version)
    where
      e : (a b : ℕ) → a + 1 + b - (a + 1) ≡ b
      e a b = omega arith

  method_part : take (length method - 0) (first_line method path version) ≡ method
  method_part =
      ap (λ n. take n (first_line method path version)) (e (length method))
      ∙ take-append method (b' ' ∷ (path ++ b' ' ∷ version))
    where
      e : (a : ℕ) → a - 0 ≡ a
      e a = omega arith

  pub parse_first_line-parts :
      (old : HttpMessage)
      → parse_first_line (first_line method path version) old
        ≡ (version_key, version) ∷ (path_key, path) ∷ (method_key, method) ∷ old
  unfolding parse_first_line next piece_to
  parse_first_line-parts old =
      rw
        (
          find_byte-append b' ' method (path ++ b' ' ∷ version) m,
          second_space,
          version_part,
          path_part,
          method_part,
        )
        refl
