-- ===== src/Tests/Tls.antt =====
-- A small ClientHello, and the name in it.
use dpitunnel_cli.Prelude.{◌≡◌, refl, arith, codes, length, take, drop, replicate, [], ◌∷◌}
use dpitunnel_cli.Prelude.Outcome.{done, Returns}
use dpitunnel_cli.Utils.Sni.{get_tls_sni}
use dpitunnel_cli.Utils.Sni.Bounds.{Inside, get_tls_sni-Returns}
use dpitunnel_cli.Utils.Sni.Hello.{Hello, IsHello, hello_bytes, name_position, get_tls_sni-hello}

abbrev hello : Hello
hello = record {
  fixed = replicate 43 1;
  session = 5 ∷ 6 ∷ [];
  ciphers = 0x13 ∷ 0x01 ∷ [];
  compression = 0 ∷ [];
  before = (10, 0 ∷ 2 ∷ 0 ∷ 29 ∷ []) ∷ [];
  name = codes "a.org";
  after = [];
}

hello-IsHello : IsHello hello
hello-IsHello = record {
  fixed_size = refl;
  session_size = omega arith;
  compression_size = omega arith;
  other_types = (λ e. omega arith, omega arith, tt);
  named = omega arith;
  whole_size = omega arith;
}

get_tls_sni-hello_example :
    (get_tls_sni (hello_bytes hello) (length (hello_bytes hello)) ≡ done (name_position hello, 5))
    × (take 5 (drop (name_position hello) (hello_bytes hello)) ≡ codes "a.org")
get_tls_sni-hello_example = get_tls_sni-hello hello hello-IsHello

get_tls_sni-Returns_example : Returns (Inside 60) (get_tls_sni (replicate 60 0) 60)
get_tls_sni-Returns_example = get_tls_sni-Returns (replicate 60 0) 60 (omega arith) (omega arith)
