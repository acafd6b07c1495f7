-- ===== src/Tests/Http.antt =====
-- Requests, where the first packet is split, and what is sent.
use dpitunnel_cli.Prelude.{
  List, inr, map_find, to_lower, is_empty, ℕ, ℤ, ◌≡◌, ◌≢◌, sym, ◌∙◌, refl, arith, ◌≤◌, pos, Bytes,
  codes, some, [], ◌∷◌, ◌++◌, true, false, bytes_eq,
}
use dpitunnel_cli.Prelude.Outcome.{Returns}
use dpitunnel_cli.Http.{
  parse_http_message, parse_all, message_lines, parse_lines, parse_first_line, parse_header,
  header_value, value_between, first_not_space, last_not_space, lower_key, store, host_key,
  version_key, path_key, method_key,
}
use dpitunnel_cli.Http.Url.{find_url}
use dpitunnel_cli.Http.Request.{
  request, throws, parse_request, request_of, stoi, remove_all, to_string, remove_proxy_strings,
}
use dpitunnel_cli.Prelude.TextLaws.{Lacks}
use dpitunnel_cli.Http.RoundTrip.{request_text, parse_http_message-request, parse_request-request}
use dpitunnel_cli.Http.Headers.{IsPlain, AreOther, AreExtra}
use dpitunnel_cli.Http.Layout.{Kept, remove_proxy_strings-Kept}
use dpitunnel_cli.Stream.{took, again, all_sent, offered, send_loop, send_string}
use dpitunnel_cli.Stream.Whole.{Whole, send_string-Whole}
use dpitunnel_cli.Proxy.{choose_split_pos}
use dpitunnel_cli.Proxy.Split.{choose_split_pos-le}

-- The greedy head gives back the dot and what follows.
find_url_port : find_url (codes "http://a.org:81/b") ≡ some (codes "a.org:81")
unfolding find_url
find_url_port = refl

-- A colon with no number behind it throws.
parse_request_throws : parse_request (codes "CONNECT a:b.c HTTP/1.1") true ≡ throws
unfolding parse_request parse_all message_lines parse_lines parse_first_line bytes_eq request_of
    stoi
parse_request_throws = refl

abbrev put_text : Bytes
put_text = codes "GET / HTTP/1.1\r\nHost: a\r\nMethod: PUT\r\n\r\n"

-- A header takes the place of the request's method.
method_replaced : parse_request put_text false ≡ request (codes "PUT") (codes "a") (pos 80)
unfolding parse_request parse_all message_lines parse_lines parse_first_line bytes_eq request_of
    stoi parse_header header_value store value_between first_not_space last_not_space lower_key
method_replaced = refl

abbrev crlf : Bytes
crlf = 13 ∷ 10 ∷ []

remove_proxy_strings_get :
    remove_proxy_strings (codes "GET http://a.b/c HTTP/1.1" ++ crlf ++ crlf ++ codes "   ") 29
    ≡ some (codes "GET /c HTTP/1.1" ++ crlf ++ crlf ++ codes "             ", 19)
unfolding remove_proxy_strings parse_all message_lines parse_lines parse_first_line bytes_eq
    request_of remove_all to_string
remove_proxy_strings_get = refl

abbrev proxy_text : Bytes
proxy_text = codes "GET http://a.b/c HTTP/1.1"

proxy_text-request : parse_request proxy_text true ≡ request (codes "GET") (codes "a.b") (pos 80)
unfolding parse_request parse_all message_lines parse_lines parse_first_line bytes_eq request_of
    stoi
proxy_text-request = refl

request≢throws : (method host : Bytes) (port : ℤ) → request method host port ≢ throws
request≢throws method host port e = cc

proxy_text-parses : parse_request proxy_text true ≢ throws
proxy_text-parses e =
    request≢throws (codes "GET") (codes "a.b") (pos 80) (sym proxy_text-request ∙ e)

remove_proxy_strings-Kept_example :
    (a : Bytes × ℕ) × (remove_proxy_strings proxy_text 25 ≡ some a) × Kept proxy_text 25 a
remove_proxy_strings-Kept_example =
    remove_proxy_strings-Kept proxy_text 25 (omega arith) proxy_text-parses

get_ok : Lacks b' ' (codes "GET") × IsPlain (codes "GET")
get_ok = ((refl, (refl, (refl, tt))), ((refl, (refl, (refl, tt))), (refl, (refl, (refl, tt)))))

slash_ok : Lacks b' ' (codes "/") × IsPlain (codes "/")
slash_ok = ((refl, tt), ((refl, tt), (refl, tt)))

version_ok : IsPlain (codes "HTTP/1.1")
version_ok = (
  (refl, (refl, (refl, (refl, (refl, (refl, (refl, (refl, tt)))))))),
  (refl, (refl, (refl, (refl, (refl, (refl, (refl, (refl, tt)))))))),
)

host_ok : Lacks b' ' (codes "a.b") × IsPlain (codes "a.b")
host_ok = ((refl, (refl, (refl, tt))), ((refl, (refl, (refl, tt))), (refl, (refl, (refl, tt)))))

no_port : Lacks b':' (codes "a.b")
no_port = (refl, (refl, (refl, tt)))

abbrev extra : List Bytes
extra = codes "X: y" ∷ []

-- The header is named otherwise than a key that is not `x`.
extra-AreOther : (key : Bytes) → bytes_eq (codes "x") key ≡ false → AreOther key extra
unfolding to_lower
extra-AreOther key e = (inr (codes "X", codes " y", refl, (refl, tt), e), tt)

extra-AreExtra : AreExtra extra
unfolding bytes_eq is_empty
extra-AreExtra = (
  ((((refl, (refl, (refl, (refl, tt)))), (refl, (refl, (refl, (refl, tt))))), refl), tt),
  extra-AreOther method_key refl,
  extra-AreOther path_key refl,
  extra-AreOther version_key refl,
  extra-AreOther host_key refl,
)

abbrev sample : Bytes
sample =
    request_text (codes "GET") (codes "/") (codes "HTTP/1.1") extra (codes "a.b") extra (codes "x")

parse_http_message-request_example :
    (map_find method_key (parse_http_message sample) ≡ some (codes "GET"))
    × (map_find path_key (parse_http_message sample) ≡ some (codes "/"))
    × (map_find version_key (parse_http_message sample) ≡ some (codes "HTTP/1.1"))
    × (map_find host_key (parse_http_message sample) ≡ some (codes "a.b"))
parse_http_message-request_example =
    parse_http_message-request (codes "GET") (codes "/") (codes "HTTP/1.1") b'a' (codes ".b")
      (codes "x") extra extra get_ok slash_ok version_ok host_ok extra-AreExtra extra-AreExtra

parse_request-request_example :
    parse_request sample false ≡ request (codes "GET") (codes "a.b") (pos 80)
unfolding bytes_eq
parse_request-request_example =
    parse_request-request (codes "GET") (codes "/") (codes "HTTP/1.1") b'a' (codes ".b") (codes "x")
      extra extra get_ok slash_ok version_ok host_ok extra-AreExtra extra-AreExtra no_port

choose_split_pos-le_example :
    Returns (λ at. at ≤ 4) (choose_split_pos true true 3 (1 ∷ 2 ∷ 3 ∷ 4 ∷ []) 4)
choose_split_pos-le_example =
    choose_split_pos-le true true 3 (1 ∷ 2 ∷ 3 ∷ 4 ∷ []) 4 (omega arith) (omega arith)

-- Three bytes, a call that is made again, then the rest.
send_string-Whole_example :
    Whole (codes "hello") 5 (send_string (codes "hello") 5 0 (took 3 ∷ again ∷ took 9 ∷ []))
send_string-Whole_example = send_string-Whole (codes "hello") 5 0 (took 3 ∷ again ∷ took 9 ∷ [])

send_string_hello :
    send_string (codes "hello") 5 0 (took 3 ∷ again ∷ took 9 ∷ []) ≡ all_sent (codes "hello")
unfolding send_string send_loop offered
send_string_hello = refl
