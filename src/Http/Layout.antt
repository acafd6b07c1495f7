-- ===== src/Http/Layout.antt =====
-- What `remove_proxy_strings` does to the size of the buffer and to the end of the text in it.
use dpitunnel_cli.Prelude.{
  ℕ, ◌+◌, ◌-◌, ◌^◌, ◌≤◌, ◌<◌, ◌≡◌, ◌≢◌, refl, arith, ℤ, ◌∷◌, Option, none, some, if_cases, leb,
  both,
}
use dpitunnel_cli.Prelude.{
  Bytes, codes, length, take, drop, replicate, resize, erase, length-append, length-take,
  length-drop, length-replicate,
}
use dpitunnel_cli.Prelude.{find_str, find_str_from, map, to_lower, true, ◌&&◌, if◌then◌else◌}
use dpitunnel_cli.Utils.Methods.{validate_http_method}
use dpitunnel_cli.Http.Request.{
  Request, request, no_url, no_host, throws, parse_request, remove_at, remove_header, remove_all,
}
use dpitunnel_cli.Http.Request.{
  remove_found, minus, proxy_conn_str, is_at, to_string, remove_proxy_strings,
}

length-resize : (s : Bytes) (n fill : ℕ) → length (resize s n fill) ≡ n
length-resize s n fill = omega (
  arith,
  length-append (take n s) (replicate (n - length s) fill),
  length-take n s,
  length-replicate {A = ℕ} (n - length s) fill,
)

length-erase : (s : Bytes) (at count : ℕ) → length (erase s at count) ≤ length s
length-erase s at count = omega (
  arith,
  length-append (take at s) (drop (at + count) s),
  length-take at s,
  length-drop (at + count) s,
)

-- Neither the buffer nor the text in it gets longer.
abbrev Shrinks : Bytes × ℕ → Bytes × ℕ → Type 0
Shrinks (r, n) (r', n') = (length r' ≤ length r) × (n' ≤ n)

Shrinks-trans : (a b c : Bytes × ℕ) → Shrinks a b → Shrinks b c → Shrinks a c
Shrinks-trans (r, l) (r', l') (r'', l'') (h, k) (h', k') = (omega arith, omega arith)

-- A length that is not above the end of the text can be taken off it.
minus-le : (n k : ℕ) → n < 2 ^ 32 → leb k n ≡ true → minus n k ≤ n
minus-le n k h e = ground arith

remove_at-Shrinks :
    (at : ℕ) (text : Bytes) (a : Bytes × ℕ) → a.1 < 2 ^ 32 → Shrinks a (remove_at at text a)
unfolding remove_at
remove_at-Shrinks at text (r, n) h =
    if_cases (Shrinks (r, n)) (leb (length text) n && is_at (find_str_from text at r) (at + 1))
      (erase r (at + 1) (length text), minus n (length text)) (r, n)
      (λ e. (
        length-erase r (at + 1) (length text),
        minus-le n (length text) h
            ((both (leb (length text) n) (is_at (find_str_from text at r) (at + 1)) e).0),
      ))
      (λ e. (omega arith, omega arith))

remove_found-Shrinks : (o : Option ℕ) (a : Bytes × ℕ) → a.1 < 2 ^ 32 → Shrinks a (remove_found o a)
unfolding remove_found
remove_found-Shrinks none (r, n) h = (omega arith, omega arith)
remove_found-Shrinks (some i) (r, n) h =
    if_cases (Shrinks (r, n)) (leb (length proxy_conn_str) n)
      (erase r i (length proxy_conn_str), minus n (length proxy_conn_str)) (r, n)
      (λ e. (length-erase r i (length proxy_conn_str), minus-le n (length proxy_conn_str) h e))
      (λ e. (omega arith, omega arith))

remove_header-Shrinks : (a : Bytes × ℕ) → a.1 < 2 ^ 32 → Shrinks a (remove_header a)
unfolding remove_header
remove_header-Shrinks (r, n) h =
    remove_found-Shrinks (find_str proxy_conn_str (map to_lower r)) (r, n) h

-- One step after another.
then-Shrinks :
    (a b : Bytes × ℕ) (f : Bytes × ℕ → Bytes × ℕ)
    → a.1 < 2 ^ 32
    → Shrinks a b
    → ((c : Bytes × ℕ) → c.1 < 2 ^ 32 → Shrinks c (f c))
    → Shrinks a (f b)
then-Shrinks a b f h s g = Shrinks-trans a b (f b) s (g b (omega (arith, h, s.1)))

remove_all_lem :
    (method host : Bytes) (port : ℤ) (r : Bytes) (n : ℕ)
    → n < 2 ^ 32
    → (length ((remove_all method host port (r, n)).0) ≡ length r)
      × ((remove_all method host port (r, n)).1 ≤ n)
unfolding remove_all
remove_all_lem method host port r n h =
    let at = length method in
    let a = remove_at at (codes "http://") (r, n) in
    let b = remove_at at host a in
    let c = remove_at at (b':' ∷ to_string port) b in
    let to_a = remove_at-Shrinks at (codes "http://") (r, n) h in
    let to_b = then-Shrinks (r, n) a (remove_at at host) h to_a (remove_at-Shrinks at host) in
    let to_c =
      then-Shrinks (r, n) b (remove_at at (b':' ∷ to_string port)) h to_b
        (remove_at-Shrinks at (b':' ∷ to_string port)) in
    (
      length-resize ((remove_header c).0) (length r) b' ',
      (then-Shrinks (r, n) c remove_header h to_c remove_header-Shrinks).1,
    )

-- The buffer keeps its size and the text gets no longer.
abbrev pub Kept : Bytes → ℕ → Bytes × ℕ → Type 0
Kept r n (r', n') = (length r' ≡ length r) × (n' ≤ n)

-- What `remove_proxy_strings` does with a request that is parsed.
outcome : Bytes → ℕ → Request → Option (Bytes × ℕ)
unfolding validate_http_method
outcome r n (request method host port) =
    some (if validate_http_method method then remove_all method host port (r, n) else (r, n))
outcome r n no_url = some (r, n)
outcome r n (no_host method) = some (r, n)
outcome r n throws = none

outcome-Kept :
    (r : Bytes) (n : ℕ) (q : Request)
    → n < 2 ^ 32
    → q ≢ throws
    → (a : Bytes × ℕ) × (outcome r n q ≡ some a) × Kept r n a
unfolding outcome
outcome-Kept r n (request method host port) h ok = (
  (if validate_http_method method then remove_all method host port (r, n) else (r, n)),
  refl,
  if_cases (Kept r n) (validate_http_method method) _ _
      (λ valid. remove_all_lem method host port r n h) (λ other. (refl, omega arith)),
)
outcome-Kept r n no_url h ok = ((r, n), refl, (refl, omega arith))
outcome-Kept r n (no_host method) h ok = ((r, n), refl, (refl, omega arith))
outcome-Kept r n throws h ok = absurd (ok refl)

-- Where the end of the text is an `unsigned int` and `parse_request` does not throw on the buffer,
-- `remove_proxy_strings` returns, keeps the size of the buffer, and does not move the end of the text
-- up: none of its subtractions from it wraps round.
pub remove_proxy_strings-Kept :
    (r : Bytes) (n : ℕ)
    → n < 2 ^ 32
    → parse_request r true ≢ throws
    → (a : Bytes × ℕ) × (remove_proxy_strings r n ≡ some a) × Kept r n a
unfolding remove_proxy_strings outcome
remove_proxy_strings-Kept r n h ok = outcome-Kept r n (parse_request r true) h ok
