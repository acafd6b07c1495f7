-- ===== src/Http/RoundTrip.antt =====
-- What the parser finds in a request that is laid out as HTTP asks.
use dpitunnel_cli.Prelude.{
  ℕ, suc, ◌+◌, ◌-◌, ◌≡◌, refl, ap, ◌∙◌, arith, pos, false, List, [], ◌∷◌, ◌++◌, some,
}
use dpitunnel_cli.Prelude.{
  Bytes, codes, bytes_eq, find_byte, map_find, length, take, is_empty, to_lower, if◌then◌else◌,
}
use dpitunnel_cli.Http.{HttpMessage, parse_all, parse_header, parse_first_line, parse_http_message}
use dpitunnel_cli.Http.{
  first_not_space, last_not_space, header_value, value_between, lower_key, store, method_key,
  path_key, version_key, host_key,
}
use dpitunnel_cli.Http.Request.{request, parse_request, request_in, request_of, split_port}
use dpitunnel_cli.Prelude.TextLaws.{Lacks, find_byte-Lacks, Lacks-append, take-all}
use dpitunnel_cli.Http.Headers.{
  IsPlain, headers_text, AreLines, AreOther, AreExtra, message_lines-headers, stores,
  parse_lines-stores, stores-append, stores-other,
}
use dpitunnel_cli.Http.FirstLine.{first_line, message_lines-line, parse_first_line-parts}

last_not_space-Lacks :
    (c : ℕ) (s : Bytes) → Lacks b' ' (c ∷ s) → last_not_space (c ∷ s) ≡ some (length s)
unfolding last_not_space
last_not_space-Lacks c [] (e, h) = rw e refl
last_not_space-Lacks c (d ∷ s) (e, h) = rw (last_not_space-Lacks d s h) refl

-- `Host: ` and a host.
abbrev pub host_line : Bytes → Bytes
host_line host = codes "Host: " ++ host

first_not_space-host :
    (h : ℕ) (hs : Bytes) → Lacks b' ' (h ∷ hs) → first_not_space (b' ' ∷ h ∷ hs) ≡ some 1
unfolding first_not_space
first_not_space-host h hs (e, l) = rw e refl

last_not_space-host :
    (h : ℕ) (hs : Bytes)
    → Lacks b' ' (h ∷ hs)
    → last_not_space (host_line (h ∷ hs)) ≡ some (suc (suc (suc (suc (suc (suc (length hs)))))))
unfolding last_not_space
last_not_space-host h hs l = rw (last_not_space-Lacks h hs l) refl

take-host :
    (h : ℕ) (hs : Bytes)
    → take (suc (suc (suc (suc (suc (suc (length hs)))))) - (4 + 1 + 1) + 1) (h ∷ hs) ≡ h ∷ hs
take-host h hs = ap (λ n. take n (h ∷ hs)) (e (length hs)) ∙ take-all (h ∷ hs)
  where
    e : (n : ℕ) → suc (suc (suc (suc (suc (suc n))))) - (4 + 1 + 1) + 1 ≡ suc n
    e n = omega arith

header_value-host :
    (h : ℕ) (hs : Bytes) → Lacks b' ' (h ∷ hs) → header_value 4 (host_line (h ∷ hs)) ≡ some (h ∷ hs)
unfolding header_value value_between
header_value-host h hs l =
    rw (first_not_space-host h hs l, last_not_space-host h hs l, take-host h hs) refl

parse_header-host :
    (h : ℕ) (hs : Bytes) (m : HttpMessage)
    → Lacks b' ' (h ∷ hs)
    → parse_header (host_line (h ∷ hs)) m ≡ (host_key, h ∷ hs) ∷ m
unfolding parse_header lower_key store find_byte to_lower
parse_header-host h hs m l = rw (header_value-host h hs l) refl

is_empty-first : (method t : Bytes) → is_empty (method ++ b' ' ∷ t) ≡ false
unfolding is_empty
is_empty-first [] t = refl
is_empty-first (c ∷ method) t = refl

first_line-IsPlain :
    (method path version : Bytes)
    → IsPlain method
    → IsPlain path
    → IsPlain version
    → IsPlain (first_line method path version)
first_line-IsPlain method path version (a, a') (b, b') (c, c') = (
  Lacks-append 10 method _ a (refl, Lacks-append 10 path _ b (refl, c)),
  Lacks-append 13 method _ a' (refl, Lacks-append 13 path _ b' (refl, c')),
)

host_line-IsPlain : (host : Bytes) → IsPlain host → IsPlain (host_line host)
host_line-IsPlain host (a, b) = (
  (refl, (refl, (refl, (refl, (refl, (refl, a)))))),
  (refl, (refl, (refl, (refl, (refl, (refl, b)))))),
)

-- A request: the first line, the headers with `Host` among them, and a body.
abbrev pub request_text :
    (method path version : Bytes)
    → (before : List Bytes) → (host : Bytes) → (after : List Bytes) → (body : Bytes) → Bytes
request_text method path version before host after body =
    first_line method path version ++ 13 ∷ 10 ∷ headers_text (before ++ host_line host ∷ after) body

AreLines-append :
    (before after : List Bytes) (line : Bytes)
    → AreLines before
    → IsPlain line × (is_empty line ≡ false)
    → AreLines after
    → AreLines (before ++ line ∷ after)
AreLines-append [] after line b l a = (l, a)
AreLines-append (x ∷ before) after line (p, b) l a = (p, AreLines-append before after line b l a)

host_line-not_empty : (host : Bytes) → is_empty (host_line host) ≡ false
unfolding is_empty
host_line-not_empty host = refl

parse_all-lines :
    (first : Bytes) (lines more : List Bytes) (m : HttpMessage)
    → is_empty first ≡ false
    → parse_first_line first [] ≡ m
    → AreLines lines
    → parse_all (first ∷ (lines ++ [] ∷ more)) ≡ stores lines m
unfolding parse_all is_empty
parse_all-lines first lines more m e f l = rw (e, f) (parse_lines-stores lines more m l)

split_port-default :
    (method host : Bytes)
    → Lacks b':' host
    → split_port method host
      ≡ request method host (pos (if bytes_eq method (codes "CONNECT") then 443 else 80))
unfolding split_port
split_port-default method host no_port = rw (split_port, find_byte-Lacks b':' host no_port) refl

request_in-found :
    (m : HttpMessage) (method host : Bytes)
    → map_find method_key m ≡ some method
    → map_find host_key m ≡ some host
    → request_in false m ≡ split_port method host
unfolding request_in request_of
request_in-found m method host e f = rw (request_in, e, request_of, f) refl

module _ (method path version : Bytes) (h : ℕ) (hs body : Bytes) (before after : List Bytes)
    (m : Lacks b' ' method × IsPlain method) (p : Lacks b' ' path × IsPlain path)
    (v : IsPlain version) (l : Lacks b' ' (h ∷ hs) × IsPlain (h ∷ hs)) (b : AreExtra before)
    (a : AreExtra after) where
  abbrev headers : List Bytes
  headers = before ++ host_line (h ∷ hs) ∷ after

  headers-AreLines : AreLines headers
  headers-AreLines =
      AreLines-append before after (host_line (h ∷ hs)) b.0
        (host_line-IsPlain (h ∷ hs) l.1, host_line-not_empty (h ∷ hs)) a.0

  -- The entries of the first line.
  abbrev parts : HttpMessage
  parts = (version_key, version) ∷ (path_key, path) ∷ (method_key, method) ∷ []

  message-stores :
      parse_http_message (request_text method path version before (h ∷ hs) after body)
      ≡ stores after ((host_key, h ∷ hs) ∷ stores before parts)
  unfolding parse_http_message
  message-stores =
      let plain = first_line-IsPlain method path version m.1 p.1 v in
      ap parse_all (
        message_lines-line false [] (first_line method path version) _ (plain.0) (plain.1)
        ∙ ap (λ ls. first_line method path version ∷ ls)
            (message_lines-headers headers body headers-AreLines))
      ∙ parse_all-lines (first_line method path version) headers _ parts
          (is_empty-first method (path ++ b' ' ∷ version))
          (parse_first_line-parts method path version (m.0) (p.0) []) headers-AreLines
      ∙ stores-append before after (host_line (h ∷ hs)) parts
      ∙ ap (stores after) (parse_header-host h hs (stores before parts) (l.0))

  -- Of a key that no header but `Host` names.
  found :
      (key value : Bytes)
      → AreOther key before
      → AreOther key after
      → bytes_eq host_key key ≡ false
      → map_find key parts ≡ some value
      → map_find key
          (parse_http_message (request_text method path version before (h ∷ hs) after body))
        ≡ some value
  unfolding map_find
  found key value ob oa e f =
      ap (map_find key) message-stores
      ∙ stores-other key after _ oa
      ∙ rw e (stores-other key before parts ob ∙ f)

  found-host :
      map_find host_key
        (parse_http_message (request_text method path version before (h ∷ hs) after body))
      ≡ some (h ∷ hs)
  unfolding map_find bytes_eq
  found-host = ap (map_find host_key) message-stores ∙ stores-other host_key after _ a.4

  found-method :
      map_find method_key
        (parse_http_message (request_text method path version before (h ∷ hs) after body))
      ≡ some method
  unfolding map_find bytes_eq
  found-method = found method_key method b.1 a.1 refl refl

  -- `parse_http_message` reads the method, path, version and host of a request back, whatever its
  -- body and its other headers are, where none of the four has a line end, the method, the path and
  -- the host have no space, the host is not empty, and the other headers are lines that are not empty
  -- and that are not named `Host`, `Method`, `Path` or `Version`, in capitals or not.
  pub parse_http_message-request :
      let read = parse_http_message (request_text method path version before (h ∷ hs) after body) in
      (map_find method_key read ≡ some method)
      × (map_find path_key read ≡ some path)
      × (map_find version_key read ≡ some version)
      × (map_find host_key read ≡ some (h ∷ hs))
  unfolding map_find bytes_eq
  parse_http_message-request = (
    found-method,
    found path_key path b.2 a.2 refl refl,
    found version_key version b.3 a.3 refl refl,
    found-host,
  )

  -- In transparent mode `parse_request` finds the method and the host of a request whose `Host` names
  -- no port, and takes the port of the method, whatever the body and the other headers are, where
  -- method, path, version and host have no line end, the method, the path and the host no space, the
  -- host is not empty, and the other headers are lines that are not empty and that are not named
  -- `Host`, `Method`, `Path` or `Version`, in capitals or not.
  pub parse_request-request :
      Lacks b':' (h ∷ hs)
      → parse_request (request_text method path version before (h ∷ hs) after body) false
        ≡ request method (h ∷ hs) (pos (if bytes_eq method (codes "CONNECT") then 443 else 80))
  unfolding parse_request
  parse_request-request no_port =
      request_in-found _ method (h ∷ hs) found-method found-host
      ∙ split_port-default method (h ∷ hs) no_port
