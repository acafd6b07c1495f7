-- ===== src/CmdLine/Numbers.antt =====
-- `atoi`, `strchr` and `strtok` as `parse_cmdline` uses them.
use dpitunnel_cli.Prelude.{
  ℕ, ◌+◌, ◌-◌, ◌*◌, ◌^◌, min, ℤ, pos, negsuc, to_unsigned, of_u32, Bool, ◌&&◌, ◌||◌, List, [], ◌∷◌,
  ◌++◌,
}
use dpitunnel_cli.Prelude.{Bytes, is_empty, is_digit, ltb, leb, ◌==◌, if◌then◌else◌}

is_space : ℕ → Bool
is_space c = c == b' ' || (leb 9 c && leb c 13)

skip_spaces : Bytes → Bytes
unfolding is_space
skip_spaces [] = []
skip_spaces (c ∷ s) = let rest = skip_spaces s in if is_space c then rest else c ∷ s

-- The number of the digits that a text begins with.
unfoldable pub digits_from : ℕ → Bytes → ℕ
unfolding is_digit
digits_from n [] = n
digits_from n (c ∷ s) =
    let more = digits_from (n * 10 + (c - b'0')) s in if is_digit c then more else n

-- `-n` for a `long`, which stops at its ends.
negate : ℕ → ℤ
negate n = if n == 0 then pos 0 else negsuc (min n (2 ^ 63) - 1)

-- `strtol` behind the spaces.
signed : Bytes → ℤ
unfolding digits_from negate
signed [] = pos 0
signed (c ∷ s) =
    if c == b'-'
    then negate (digits_from 0 s)
    else if c == b'+'
    then pos (min (digits_from 0 s) (2 ^ 63 - 1))
    else pos (min (digits_from 0 (c ∷ s)) (2 ^ 63 - 1))

-- `atoi`: the `long` that `strtol` gives, converted to `int`.
unfoldable pub atoi : Bytes → ℤ
unfolding signed skip_spaces to_unsigned of_u32
atoi s = of_u32 (to_unsigned (2 ^ 32) (signed (skip_spaces s)))

-- An `int` converted to `short`.
unfoldable pub to_short : ℤ → ℤ
unfolding to_unsigned
to_short v = let n = to_unsigned (2 ^ 16) v in if ltb n 0x8000 then pos n else negsuc (0xffff - n)

-- The pieces between the separators, the empty ones too.
split_go : ℕ → Bytes → Bytes → List Bytes
split_go d piece [] = piece ∷ []
split_go d piece (c ∷ s) =
    let rest = split_go d (if c == d then [] else piece ++ c ∷ []) s in
    if c == d then piece ∷ rest else rest

unfoldable pub split_on : ℕ → Bytes → List Bytes
unfolding split_go
split_on d s = split_go d [] s

not_empty : List Bytes → List Bytes
not_empty [] = []
not_empty (p ∷ ps) = if is_empty p then not_empty ps else p ∷ not_empty ps

-- The tokens of `strtok`: the pieces that are not empty.
unfoldable pub tokens : ℕ → Bytes → List Bytes
unfolding split_on not_empty is_empty
tokens d s = not_empty (split_on d s)
