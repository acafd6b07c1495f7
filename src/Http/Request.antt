-- ===== src/Http/Request.antt =====
-- `parse_request` and `remove_proxy_strings` of packet.cpp.
use dpitunnel_cli.Prelude.{
  ℕ, zero, suc, ◌+◌, ◌-◌, ◌*◌, ◌/◌, ◌%◌, ◌^◌, ℤ, pos, negsuc, Bool, true, false, ◌&&◌, ◌||◌, [],
  ◌∷◌, ◌++◌, map,
}
use dpitunnel_cli.Prelude.{
  Option, none, some, Bytes, codes, bytes_eq, is_digit, find_byte, find_str, find_str_from,
  map_find,
}
use dpitunnel_cli.Prelude.{
  to_lower, erase, resize, take, drop, length, ltb, leb, ◌==◌, if◌then◌else◌,
}
use dpitunnel_cli.Utils.Methods.{validate_http_method}
use dpitunnel_cli.Http.{HttpMessage, parse_http_message, method_key, path_key, host_key}
use dpitunnel_cli.Http.Url.{find_url}

-- What `parse_request` returns: 0 with its results, -1, -2, or an exception of `std::stoi`.
pub data Request : Type 0 where
  request : (method host : Bytes) (port : ℤ) → Request
  no_url : Request
  no_host : (method : Bytes) → Request
  throws : Request

-- The number at the start, where there is one digit at least.
unfoldable pub digits : Option ℕ → Bytes → Option ℕ
unfolding is_digit
digits n [] = n
digits n (c ∷ s) =
    let more = digits (some (elim n [ none ↦ 0 | some m ↦ m * 10 ] + (c - b'0'))) s in
    if is_digit c then more else n

-- `std::stoi` behind its spaces and sign: `none` is an exception, for no digit or out of range.
in_int : Bool → Option ℕ → Option ℤ
in_int minus none = none
in_int true (some zero) = some (pos 0)
in_int true (some (suc n)) = if leb n 0x7fffffff then some (negsuc n) else none
in_int false (some n) = if leb n 0x7fffffff then some (pos n) else none

signed_int : Bytes → Option ℤ
unfolding in_int digits
signed_int [] = none
signed_int (c ∷ s) =
    if c == b'-'
    then in_int true (digits none s)
    else if c == b'+'
    then in_int false (digits none s)
    else in_int false (digits none (c ∷ s))

unfoldable pub stoi : Bytes → Option ℤ
unfolding signed_int
stoi [] = none
stoi (c ∷ s) =
    let rest = stoi s in if c == b' ' || (leb 9 c && leb c 13) then rest else signed_int (c ∷ s)

-- The host and the port of the text that was found.
unfoldable pub split_port : Bytes → Bytes → Request
split_port method found_url = elim (find_byte b':' found_url) [
  | none ↦ request method found_url (pos (if bytes_eq method (codes "CONNECT") then 443 else 80))
  | some at ↦ elim (stoi (drop (at + 1) found_url)) [
    | none ↦ throws
    | some port ↦ request method (take at found_url) port
  ]
]

text_or_empty : Option Bytes → Bytes
text_or_empty none = []
text_or_empty (some s) = s

-- With the method: from the path for a proxy, else from the `Host` header.
unfoldable pub request_of : Bool → Bytes → HttpMessage → Request
unfolding split_port map_find text_or_empty find_url
request_of true method m = elim (find_url (text_or_empty (map_find path_key m))) [
  | none ↦ no_url
  | some url ↦ split_port method url
]
request_of false method m = elim (map_find host_key m) [
  | none ↦ no_host method
  | some host ↦ split_port method host
]

unfoldable pub request_in : Bool → HttpMessage → Request
unfolding map_find
request_in is_proxy m = elim (map_find method_key m) [
  | none ↦ no_url
  | some method ↦ request_of is_proxy method m
]

unfoldable pub parse_request : Bytes → Bool → Request
unfolding request_in parse_http_message
parse_request text is_proxy = request_in is_proxy (parse_http_message text)

-- `std::to_string` of an `int`; ten digits are enough.
decimal : ℕ → ℕ → Bytes
decimal zero n = []
decimal (suc fuel) n = (if ltb n 10 then [] else decimal fuel (n / 10)) ++ (b'0' + n % 10) ∷ []

unfoldable pub to_string : ℤ → Bytes
unfolding decimal
to_string (pos n) = decimal 10 n
to_string (negsuc n) = b'-' ∷ decimal 10 (suc n)

unfoldable pub is_at : Option ℕ → ℕ → Bool
is_at none i = false
is_at (some j) i = j == i

-- `a - b` of two `unsigned int`.
abbrev pub minus : ℕ → ℕ → ℕ
minus a b = (a + 2 ^ 32 - b) % 2 ^ 32

-- Takes `text` out behind the method, where it stands there.
unfoldable pub remove_at : ℕ → Bytes → Bytes × ℕ → Bytes × ℕ
unfolding find_str_from is_at
remove_at at text (r, last_char) =
    if leb (length text) last_char && is_at (find_str_from text at r) (at + 1)
    then (erase r (at + 1) (length text), minus last_char (length text))
    else (r, last_char)

abbrev pub proxy_conn_str : Bytes
proxy_conn_str = codes "proxy-connection: keep-alive" ++ 13 ∷ 10 ∷ []

unfoldable pub remove_found : Option ℕ → Bytes × ℕ → Bytes × ℕ
remove_found none state = state
remove_found (some i) (r, last_char) =
    if leb (length proxy_conn_str) last_char
    then (erase r i (length proxy_conn_str), minus last_char (length proxy_conn_str))
    else (r, last_char)

unfoldable pub remove_header : Bytes × ℕ → Bytes × ℕ
unfolding find_str to_lower remove_found
remove_header (r, last_char) =
    remove_found (find_str proxy_conn_str (map to_lower r)) (r, last_char)

-- The schema, the domain, the port, the header; then the size as it was.
unfoldable pub remove_all : Bytes → Bytes → ℤ → Bytes × ℕ → Bytes × ℕ
unfolding remove_at remove_header
remove_all method host port (r, last_char) =
    let at = length method in
    let bare = remove_at at host (remove_at at (codes "http://") (r, last_char)) in
    let done = remove_header (remove_at at (b':' ∷ to_string port) bare) in
    (resize (done.0) (length r) b' ', done.1)

-- `none` where `parse_request` throws.
unfoldable pub remove_proxy_strings : Bytes → ℕ → Option (Bytes × ℕ)
unfolding parse_request validate_http_method
remove_proxy_strings r last_char = elim (parse_request r true) [
  | request method host port ↦ some (
      if validate_http_method method
      then remove_all method host port (r, last_char)
      else (r, last_char))
  | no_url ↦ some (r, last_char)
  | no_host method ↦ some (r, last_char)
  | throws ↦ none
]
