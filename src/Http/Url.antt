-- ===== src/Http/Url.antt =====
-- The search of packet.cpp for
-- `[-a-zA-Z0-9@:%._\+~#=]{1,256}\.[-a-z0-9]{1,16}(:[0-9]{1,5})?`: the first place where the pattern
-- matches, each repetition as long as the rest allows.
use dpitunnel_cli.Prelude.{ℕ, zero, suc, ◌+◌, Bool, ◌||◌, ◌&&◌, [], ◌∷◌, Option, none, some}
use dpitunnel_cli.Prelude.{Bytes, codes, is_digit, drop, take, leb, ◌==◌, if◌then◌else◌}

among : Bytes → ℕ → Bool
among [] c = 0 == 1
among (d ∷ s) c = c == d || among s c

is_lower : ℕ → Bool
is_lower c = leb b'a' c && leb c b'z'

unfoldable pub is_url_char : ℕ → Bool
unfolding among is_lower is_digit
is_url_char c =
    is_lower c || (leb b'A' c && leb c b'Z') || is_digit c || among (codes "-@:%._+~#=") c

unfoldable pub is_tail_char : ℕ → Bool
unfolding is_lower is_digit
is_tail_char c = is_lower c || is_digit c || c == b'-'

-- How many characters from the start are in the class, up to the limit.
unfoldable pub run_length : (ℕ → Bool) → ℕ → Bytes → ℕ
run_length p zero s = 0
run_length p (suc limit) [] = 0
run_length p (suc limit) (c ∷ s) = let rest = run_length p limit s in if p c then suc rest else 0

-- `(:[0-9]{1,5})?`
unfoldable pub port_length : Bytes → ℕ
unfolding run_length is_digit
port_length [] = 0
port_length (c ∷ s) = let n = run_length is_digit 5 s in if c == b':' && leb 1 n then suc n else 0

-- The pattern from the dot on: its length.
unfoldable pub tail_length : Bytes → Option ℕ
unfolding port_length run_length is_tail_char
tail_length [] = none
tail_length (c ∷ s) =
    let n = run_length is_tail_char 16 s in
    if c == b'.' && leb 1 n then some (1 + n + port_length (drop n s)) else none

-- The longest head first, then one character less.
unfoldable pub match_length : ℕ → Bytes → Option ℕ
unfolding tail_length
match_length zero s = none
match_length (suc k) s = elim (tail_length (drop (suc k) s)) [
  | some n ↦ some (suc k + n)
  | none ↦ match_length k s
]

unfoldable pub find_url : Bytes → Option Bytes
unfolding run_length is_url_char match_length
find_url [] = none
find_url (c ∷ s) = elim (match_length (run_length is_url_char 256 (c ∷ s)) (c ∷ s)) [
  | some n ↦ some (take n (c ∷ s))
  | none ↦ find_url s
]
