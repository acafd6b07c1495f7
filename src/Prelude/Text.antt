-- ===== src/Prelude/Text.antt =====
-- Texts as lists of bytes, with the operations of `std::string` that the program uses.
-- A position that may be `npos` is an `Option ℕ`.
use Prim.Native.Nat.{ℕ, suc, ◌+◌, ◌-◌}
use Prim.Native.Char.{code}
use Prim.Native.String.{String}
use mathlib.Core.Bool.{Bool, true, false, ◌&&◌}
use mathlib.Core.List.{List, [], ◌∷◌, ◌++◌}
use mathlib.Core.Option.{Option, none, some}
use mathlib.Core.Option
use dpitunnel_cli.Prelude.Tests.{ltb, leb, ◌==◌, if◌then◌else◌}
use dpitunnel_cli.Prelude.Lists.{length, take, drop, replicate}

abbrev pub Bytes : Type 0
Bytes = List ℕ

-- The code points of a text; these are its bytes where it is ASCII.
abbrev pub codes : String → Bytes
codes String.[] = []
codes (String.◌∷◌ c s) = code c ∷ codes s

unfoldable pub is_empty : Bytes → Bool
is_empty [] = true
is_empty (c ∷ s) = false

unfoldable pub bytes_eq : Bytes → Bytes → Bool
bytes_eq [] [] = true
bytes_eq [] (d ∷ t) = false
bytes_eq (c ∷ s) [] = false
bytes_eq (c ∷ s) (d ∷ t) = (c == d) && bytes_eq s t

-- `a < b` of `std::string`, which orders the keys of a `std::map`.
unfoldable pub bytes_lt : Bytes → Bytes → Bool
bytes_lt s [] = false
bytes_lt [] (d ∷ t) = true
bytes_lt (c ∷ s) (d ∷ t) =
    let below = bytes_lt s t in if ltb c d then true else if c == d then below else false

-- Whether `s` begins with `p`.
unfoldable pub starts_with : Bytes → Bytes → Bool
starts_with [] s = true
starts_with (c ∷ p) [] = false
starts_with (c ∷ p) (d ∷ s) = (c == d) && starts_with p s

-- `s.find(c)`
unfoldable pub find_byte : ℕ → Bytes → Option ℕ
find_byte c [] = none
find_byte c (d ∷ s) = let rest = find_byte c s in if d == c then some 0 else Option.map suc rest

-- `s.find(c, pos)`
unfoldable pub find_byte_from : ℕ → ℕ → Bytes → Option ℕ
unfolding find_byte
find_byte_from c at s = Option.map (λ i. at + i) (find_byte c (drop at s))

-- `s.find(p)`
unfoldable pub find_str : Bytes → Bytes → Option ℕ
unfolding starts_with
find_str p [] = if starts_with p [] then some 0 else none
find_str p (c ∷ s) =
    let rest = find_str p s in if starts_with p (c ∷ s) then some 0 else Option.map suc rest

-- `s.find(p, pos)`
unfoldable pub find_str_from : Bytes → ℕ → Bytes → Option ℕ
unfolding find_str
find_str_from p at s =
    if ltb (length s) at then none else Option.map (λ i. at + i) (find_str p (drop at s))

-- `s.substr(at, count)`, for `at` within the text
abbrev pub substr : Bytes → ℕ → ℕ → Bytes
substr s at count = take count (drop at s)

-- `s.erase(at, count)`
abbrev pub erase : Bytes → ℕ → ℕ → Bytes
erase s at count = take at s ++ drop (at + count) s

-- `s.resize(n, fill)`
abbrev pub resize : Bytes → ℕ → ℕ → Bytes
resize s n fill = take n s ++ replicate (n - length s) fill

-- `tolower` and `toupper` of one byte, in the C locale
unfoldable pub to_lower : ℕ → ℕ
to_lower c = if leb b'A' c && leb c b'Z' then c + 32 else c

unfoldable pub to_upper : ℕ → ℕ
to_upper c = if leb b'a' c && leb c b'z' then c - 32 else c

unfoldable pub is_digit : ℕ → Bool
is_digit c = leb b'0' c && leb c b'9'

-- The text that a C function reads from `s.c_str()`: the bytes before the first NUL.
unfoldable pub c_str : Bytes → Bytes
c_str [] = []
c_str (c ∷ s) = let rest = c_str s in if c == 0 then [] else c ∷ rest

-- Membership in a `std::set`, and `insert`.
unfoldable pub contains : List Bytes → Bytes → Bool
contains [] s = false
contains (t ∷ ts) s = if bytes_eq t s then true else contains ts s

unfoldable pub set_insert : Bytes → List Bytes → List Bytes
unfolding contains
set_insert s ts = if contains ts s then ts else s ∷ ts

-- A `std::map` from texts as an association list in key order of which the first entry counts.
unfoldable pub map_find : Bytes → List (Bytes × Bytes) → Option Bytes
map_find k [] = none
map_find k ((j, v) ∷ m) = if bytes_eq j k then some v else map_find k m
