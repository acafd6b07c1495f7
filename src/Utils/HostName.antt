-- ===== src/Utils/HostName.antt =====
-- `trim`, `split` and `check_host_name` of utils.cpp. Positions are offsets into the text.
use dpitunnel_cli.Prelude.{
  ℕ, zero, suc, ◌+◌, ◌-◌, Bool, true, false, ◌&&◌, ◌||◌, not, List, [], ◌∷◌, ◌++◌,
}
use dpitunnel_cli.Prelude.{
  length, take, drop, get_or, Bytes, codes, bytes_eq, c_str, ltb, ◌==◌, if◌then◌else◌,
}

unfoldable pub is_space_or_tab : ℕ → Bool
is_space_or_tab c = c == b' ' || c == 9

-- How many spaces and tabs a text begins with.
unfoldable pub leading_spaces : Bytes → ℕ
unfolding is_space_or_tab
leading_spaces [] = 0
leading_spaces (c ∷ s) = let rest = leading_spaces s in if is_space_or_tab c then suc rest else 0

trim_right : Bytes → ℕ → ℕ
unfolding is_space_or_tab
trim_right s zero = 0
trim_right s (suc r) =
    let rest = trim_right s r in if is_space_or_tab (get_or s r 0) then rest else suc r

-- The left end moves up to the end of the text, and not only of the piece.
unfoldable pub trim : Bytes → ℕ → ℕ → ℕ × ℕ
unfolding leading_spaces trim_right
trim s left right = (left + leading_spaces (drop left s), trim_right s right)

-- What `fn` is called with for the piece from `beg` to `i`, if anything.
unfoldable pub piece : Bytes → ℕ → ℕ → List Bytes
unfolding trim
piece s beg i =
    let (left, right) = trim s beg i in
    if ltb left right then take (right - left) (drop left s) ∷ [] else []

split_loop : Bytes → ℕ → Bytes → ℕ → ℕ → List Bytes
unfolding piece
split_loop s d [] i beg = if i == 0 then [] else piece s beg i
split_loop s d (c ∷ rest) i beg =
    let next = split_loop s d rest (i + 1) (if c == d then i + 1 else beg) in
    if c == d then piece s beg i ++ next else next

unfoldable pub split : Bytes → ℕ → List Bytes
unfolding split_loop
split s d = split_loop s d s 0 0

-- `p[p.size() - 1] == '*' && !p.compare(0, p.size() - 1, h)`
unfoldable pub partial_match : Bytes → Bytes → Bool
unfolding bytes_eq
partial_match p h =
    ltb 0 (length p) && (get_or p (length p - 1) 0 == b'*') && bytes_eq (take (length p - 1) p) h

unfoldable pub component_matches : Bytes → Bytes → Bool
unfolding bytes_eq partial_match
component_matches p h = bytes_eq p h || bytes_eq p (codes "*") || partial_match p h

-- The loop over the components, whose numbers are equal where it is run.
unfoldable pub components_match : List Bytes → List Bytes → Bool
unfolding component_matches
components_match (p ∷ ps) (h ∷ hs) = component_matches p h && components_match ps hs
components_match [] hs = true
components_match (p ∷ ps) [] = true

count : List Bytes → ℕ
count [] = 0
count (p ∷ ps) = suc (count ps)

-- `host == pattern` reads the pattern up to its first NUL.
unfoldable pub check_host_name : Bytes → Bytes → Bool
unfolding bytes_eq c_str split components_match count
check_host_name pattern host =
    let ps = split pattern b'.' in
    let hs = split host b'.' in
    if (length host == length pattern) && bytes_eq host (c_str pattern)
    then true
    else if not (count hs == count ps)
    then false
    else components_match ps hs
