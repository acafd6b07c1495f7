-- ===== src/Http.antt =====
-- packet.cpp: the HTTP requests that clients send to the proxy.
pub mod Url
pub mod Request
pub mod Layout
pub mod FirstLine
pub mod Headers
pub mod RoundTrip
use dpitunnel_cli.Prelude.{
  ℕ, zero, suc, ◌+◌, ◌-◌, Bool, true, false, ◌&&◌, ◌||◌, List, [], ◌∷◌, ◌++◌, map, Option, none,
  some,
}
use dpitunnel_cli.Prelude.{
  Bytes, codes, is_empty, find_byte, find_byte_from, to_lower, take, drop, length, ◌==◌,
  if◌then◌else◌,
}

-- The map `http_message`: the first entry of a key counts.
abbrev pub HttpMessage : Type 0
HttpMessage = List (Bytes × Bytes)

-- `find_first_not_of(' ')`
unfoldable pub first_not_space : Bytes → Option ℕ
first_not_space [] = none
first_not_space (c ∷ s) =
    if c == b' ' then elim (first_not_space s) [ none ↦ none | some i ↦ some (suc i) ] else some 0

-- `find_last_not_of(' ')`
unfoldable pub last_not_space : Bytes → Option ℕ
last_not_space [] = none
last_not_space (c ∷ s) = elim (last_not_space s) [
  | some i ↦ some (suc i)
  | none ↦ if c == b' ' then none else some 0
]

unfoldable pub lower_key : ℕ → Bytes → Bytes
unfolding to_lower
lower_key sep line = map to_lower (take sep line)

-- The value behind the separator, without the spaces around it; `npos` ends the search.
unfoldable pub value_between : ℕ → Bytes → Option ℕ → Option ℕ → Option Bytes
value_between at line none end = none
value_between at line (some i) none = none
value_between at line (some i) (some end) = some (take (end - (at + i) + 1) (drop (at + i) line))

unfoldable pub header_value : ℕ → Bytes → Option Bytes
header_value sep line =
    value_between (sep + 1) line (first_not_space (drop (sep + 1) line)) (last_not_space line)

-- `http_message[key] = value`, where there is a value.
unfoldable pub store : Bytes → Option Bytes → HttpMessage → HttpMessage
store key none m = m
store key (some value) m = (key, value) ∷ m

unfoldable pub parse_header : Bytes → HttpMessage → HttpMessage
parse_header line m = elim (find_byte b':' line) [
  | none ↦ m
  | some sep ↦ store (lower_key sep line) (header_value sep line) m
]

abbrev pub method_key : Bytes
method_key = codes "method"

abbrev pub path_key : Bytes
path_key = codes "path"

abbrev pub version_key : Bytes
version_key = codes "version"

abbrev pub host_key : Bytes
host_key = codes "host"

-- `++position`, where `npos` becomes 0.
unfoldable pub next : Option ℕ → ℕ
next none = 0
next (some i) = i + 1

-- `line.substr(from, position - from)`, to the end where the position is `npos`.
unfoldable pub piece_to : Bytes → ℕ → Option ℕ → Bytes
piece_to line from none = drop from line
piece_to line from (some i) = take (i - from) (drop from line)

unfoldable pub parse_first_line : Bytes → HttpMessage → HttpMessage
unfolding next piece_to find_byte find_byte_from
parse_first_line line m =
    let space = find_byte b' ' line in
    let start = next space in
    let second = find_byte_from b' ' start line in
    (version_key, drop (next second) line)
    ∷ (path_key, piece_to line start second)
    ∷ (method_key, piece_to line 0 space)
    ∷ m

-- The tokens between the matches of `\r\n|\r|\n`; the flag tells whether a CR came just before.
unfoldable pub message_lines : Bool → Bytes → Bytes → List Bytes
message_lines after_cr line [] = line ∷ []
message_lines after_cr line (c ∷ s) =
    let on = message_lines false (line ++ c ∷ []) s in
    let same = message_lines false line s in
    let next_lf = message_lines false [] s in
    let next_cr = message_lines true [] s in
    if c == 10 && after_cr
    then same
    else if c == 10
    then line ∷ next_lf
    else if c == 13
    then line ∷ next_cr
    else on

-- The headers, up to the empty line.
unfoldable pub parse_lines : List Bytes → HttpMessage → HttpMessage
unfolding is_empty
parse_lines [] m = m
parse_lines (line ∷ lines) m = if is_empty line then m else parse_lines lines (parse_header line m)

unfoldable pub parse_all : List Bytes → HttpMessage
unfolding is_empty
parse_all [] = []
parse_all (line ∷ lines) =
    if is_empty line then [] else parse_lines lines (parse_first_line line [])

unfoldable pub parse_http_message : Bytes → HttpMessage
parse_http_message message = parse_all (message_lines false [] message)
