-- ===== src/Autoconf/Response.antt =====
-- The judgement of `check_http_response` of autoconf.cpp on a response, and the check of a
-- certificate's names.
use dpitunnel_cli.Prelude.{
  ℕ, ◌+◌, ◌-◌, ◌*◌, ◌/◌, ◌%◌, ◌^◌, Bool, true, false, not, ◌||◌, List, [], ◌∷◌, Option, none, some,
  Bytes, codes, bytes_eq, find_byte, find_byte_from, find_str, find_str_from, starts_with, substr,
  take, drop, length, ltb, ◌==◌, if◌then◌else◌,
}
use dpitunnel_cli.Prelude.Outcome.{Outcome, done, fault, ◌>>=◌}
use dpitunnel_cli.Utils.HostName.{check_host_name}

-- One more sign that the answer is not the server's.
abbrev pub factor : Bool → ℕ
factor b = if b then 1 else 0

-- `receive_time < connect_time * 2 / 3`, in 32 bits.
unfoldable pub too_early : ℕ → ℕ → Bool
too_early connect_time receive_time = ltb receive_time (connect_time * 2 % 2 ^ 32 / 3)

unfoldable pub is_redirect : Bytes → Bool
unfolding bytes_eq
is_redirect code =
    bytes_eq code (codes "301")
    || bytes_eq code (codes "302")
    || bytes_eq code (codes "303")
    || bytes_eq code (codes "307")
    || bytes_eq code (codes "308")

-- `redirect_url.erase(slash_position)` throws where there is no slash.
unfoldable pub up_to_slash : Bytes → Option ℕ → Outcome Bytes
up_to_slash url none = fault
up_to_slash url (some at) = done (take at url)

unfoldable pub without_http : Bytes → Bytes
unfolding starts_with
without_http url = if starts_with (codes "http://") url then drop 7 url else url

unfoldable pub elsewhere : Bytes → Bytes → Outcome ℕ
elsewhere host url =
    let rest = without_http url in
    up_to_slash rest (find_byte b'/' rest) >>= λ to. done (factor (not (starts_with host to)))

-- The location is what is between "Location: " and the end of its line. The buffer has a space, so
-- that it is not empty and the second half of the source's test is false.
unfoldable pub location_end : Bytes → Bytes → ℕ → Option ℕ → Outcome ℕ
location_end host buffer start none = done 0
location_end host buffer start (some end) =
    elsewhere host (substr buffer (start + 10) (end - start - 10))

unfoldable pub location_factor : Bytes → Bytes → Option ℕ → Outcome ℕ
location_factor host buffer none = done 0
location_factor host buffer (some start) =
    location_end host buffer start (find_str_from (codes "\r\n") (start + 1) buffer)

-- From the end of the status code on; two signs are enough to refuse.
unfoldable pub with_code : ℕ → Bytes → Bytes → ℕ → Option ℕ → Outcome Bool
with_code early host buffer start none = done false
with_code early host buffer start (some end) =
    let redirects = factor (is_redirect (substr buffer (start + 1) (end - start - 1))) in
    location_factor host buffer (find_str (codes "Location: ") buffer) >>= λ leads.
    done (ltb (early + redirects + leads) 2)

unfoldable pub with_status : ℕ → Bytes → Bytes → Option ℕ → Outcome Bool
with_status early host buffer none = done false
with_status early host buffer (some start) =
    if start == length buffer - 1
    then done false
    else with_code early host buffer start (find_byte_from b' ' (start + 1) buffer)

unfoldable pub judge_response :
    (connect_time receive_time : ℕ) → (host buffer : Bytes) → Outcome Bool
judge_response connect_time receive_time host buffer =
    with_status (factor (too_early connect_time receive_time)) host buffer (find_byte b' ' buffer)

-- The names of a certificate, as OpenSSL gives them: the alternative names, with whether each is a
-- DNS name, and the common name, if there is one.
pub record Certificate : Type 0 where
  pub alt_names : List (Bool × Bytes)
  pub common_name : Option Bytes

unfoldable pub verify_cert_common_name : Certificate → Bytes → Bool
verify_cert_common_name cert host = of_name cert.common_name
  where
    of_name : Option Bytes → Bool
    of_name none = false
    of_name (some name) = check_host_name name host

-- The loop over the names; it ends at the first that matches.
unfoldable pub any_dns_name : List (Bool × Bytes) → Bytes → Bool
any_dns_name [] host = false
any_dns_name ((false, name) ∷ rest) host = any_dns_name rest host
any_dns_name ((true, name) ∷ rest) host =
    let others = any_dns_name rest host in if check_host_name name host then true else others

unfoldable pub verify_cert_subject_alt_name : Certificate → Bytes → Bool
verify_cert_subject_alt_name cert host = any_dns_name cert.alt_names host

unfoldable pub verify_cert : Certificate → Bytes → Bool
verify_cert cert host = verify_cert_subject_alt_name cert host || verify_cert_common_name cert host
