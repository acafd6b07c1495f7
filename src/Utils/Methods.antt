-- ===== src/Utils/Methods.antt =====
-- `validate_http_method` and `last_n_chars` of utils.cpp.
use dpitunnel_cli.Prelude.{ℕ, ◌-◌, Bool, List, [], ◌∷◌, map, ◌&&◌, length, drop, ltb, if◌then◌else◌}
use dpitunnel_cli.Prelude.{Bytes, codes, contains, to_upper}

abbrev pub valid_http_methods : List Bytes
valid_http_methods =
    codes "CONNECT"
    ∷ codes "DELETE"
    ∷ codes "GET"
    ∷ codes "HEAD"
    ∷ codes "OPTIONS"
    ∷ codes "PATCH"
    ∷ codes "POST"
    ∷ codes "PUT"
    ∷ codes "TRACE"
    ∷ []

unfoldable pub validate_http_method : Bytes → Bool
unfolding contains to_upper
validate_http_method method = contains valid_http_methods (map to_upper method)

unfoldable pub last_n_chars : Bytes → ℕ → Bytes
last_n_chars input n =
    if ltb 0 n && ltb n (length input) then drop (length input - n) input else input
