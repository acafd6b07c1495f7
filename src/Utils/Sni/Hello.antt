-- ===== src/Utils/Sni/Hello.antt =====
-- `get_tls_sni` finds the name of a well-formed ClientHello.
use dpitunnel_cli.Prelude.{ℕ, ◌+◌, ◌<◌, ◌≡◌, refl, ap, subst, ◌∙◌, arith, List, [], ◌∷◌, ◌++◌}
use dpitunnel_cli.Prelude.{Bytes, length, take, drop, take-append}
use dpitunnel_cli.Prelude.Outcome.{done}
use dpitunnel_cli.Prelude.Views.{be16, From, From-cons, From-append, From-length}
use dpitunnel_cli.Utils.Sni.{get_tls_sni}
use dpitunnel_cli.Utils.Sni.Find.{extension_list, server_name, AllOthers, walk, session_step}
use dpitunnel_cli.Utils.Sni.Find.{ciphers_step, compression_step, extensions_step}

-- A ClientHello: 43 bytes of fixed form (record and handshake headers, version, random), then parts
-- behind their lengths; the name's extension stands among others.
pub record Hello : Type 0 where
  pub fixed : Bytes
  pub session : Bytes
  pub ciphers : Bytes
  pub compression : Bytes
  pub before : List (ℕ × Bytes)
  pub name : Bytes
  pub after : Bytes

abbrev pub hello_extensions : Hello → Bytes
hello_extensions h = extension_list h.before ++ (server_name h.name ++ h.after)

abbrev from_compression : Hello → Bytes
from_compression h = be16 (length (hello_extensions h)) ++ hello_extensions h

abbrev from_ciphers : Hello → Bytes
from_ciphers h = length h.compression ∷ (h.compression ++ from_compression h)

abbrev from_session : Hello → Bytes
from_session h = be16 (length h.ciphers) ++ (h.ciphers ++ from_ciphers h)

abbrev pub hello_bytes : Hello → Bytes
hello_bytes h = h.fixed ++ (length h.session ∷ (h.session ++ from_session h))

abbrev pub name_position : Hello → ℕ
name_position h =
    43
    + 1
    + length h.session
    + 2
    + length h.ciphers
    + 1
    + length h.compression
    + 2
    + length (extension_list h.before)
    + 9

pub record IsHello (h : Hello) : Type 0 where
  pub fixed_size : length h.fixed ≡ 43
  pub session_size : length h.session < 128
  pub compression_size : length h.compression < 128
  pub other_types : AllOthers h.before
  pub named : 0 < length h.name
  pub whole_size : length (hello_bytes h) < 65536

From-start : (p r : Bytes) → From (p ++ r) (length p) r
From-start [] r = refl
From-start (c ∷ p) r = From-start p r

module _ (h : Hello) (v : IsHello h) where
  abbrev s : Bytes
  s = hello_bytes h

  abbrev it_session : ℕ
  it_session = 44 + length h.session

  abbrev it_ciphers : ℕ
  it_ciphers = it_session + 2 + length h.ciphers

  abbrev it_compression : ℕ
  it_compression = it_ciphers + 1 + length h.compression

  at_session : From s 43 (length h.session ∷ (h.session ++ from_session h))
  at_session =
      subst (λ k. From s k (length h.session ∷ (h.session ++ from_session h))) v.fixed_size
        (From-start h.fixed (length h.session ∷ (h.session ++ from_session h)))

  at_ciphers : From s it_session (from_session h)
  at_ciphers =
      From-append s 44 h.session (from_session h)
        (From-cons s 43 (length h.session) (h.session ++ from_session h) at_session)

  at_compression : From s it_ciphers (from_ciphers h)
  at_compression =
      From-append s (it_session + 2) h.ciphers (from_ciphers h) (
        From-append s it_session (be16 (length h.ciphers)) (h.ciphers ++ from_ciphers h) at_ciphers)

  at_extensions : From s it_compression (from_compression h)
  at_extensions = From-append s (it_ciphers + 1) h.compression (from_compression h) (
      From-cons s it_ciphers (length h.compression) (h.compression ++ from_compression h)
        at_compression)

  at_first : From s (it_compression + 2) (hello_extensions h)
  at_first =
      From-append s it_compression (be16 (length (hello_extensions h))) (hello_extensions h)
        at_extensions

  whole : length s ≡ it_compression + 2 + length (hello_extensions h)
  whole = omega (arith, From-length s it_compression (from_compression h) at_extensions)

  sizes : (length h.ciphers < 65536) × (length (hello_extensions h) < 65536)
  sizes = let bound = v.whole_size in (omega (arith, whole), omega (arith, whole))

  found :
      get_tls_sni (hello_bytes h) (length (hello_bytes h)) ≡ done (name_position h, length h.name)
  found =
      let fits = v.whole_size in
      session_step s fits (length h.session) _ v.session_size (omega (arith, whole)) at_session
      ∙ (ciphers_step s fits it_session (length h.ciphers) _ sizes.0 (omega (arith, whole))
            at_ciphers
          ∙ (compression_step s fits it_ciphers (length h.compression) _ v.compression_size
                (omega (arith, whole)) at_compression
              ∙ (extensions_step s fits it_compression (length (hello_extensions h)) _
                    (omega (arith, whole)) at_extensions
                  ∙ walk s fits (length s) (it_compression + 2) h.before h.name h.after
                      v.other_types v.named (omega (arith, whole)) (omega (arith, whole))
                      at_first)))

  at_name : From s (name_position h) (h.name ++ h.after)
  at_name =
      let n = length h.name in
      let head : Bytes = be16 0 ++ (be16 (n + 5) ++ (be16 (n + 3) ++ (0 ∷ be16 n))) in
      From-append s (it_compression + 2 + length (extension_list h.before)) head (h.name ++ h.after)
        (From-append s (it_compression + 2) (extension_list h.before)
          (server_name h.name ++ h.after) at_first)

  -- On a ClientHello of the form `Hello` below 64 KiB, with a session and compression methods below
  -- 128 bytes, `get_tls_sni` returns the position and the length of the name, which stands there.
  pub get_tls_sni-hello :
      (get_tls_sni (hello_bytes h) (length (hello_bytes h)) ≡ done (name_position h, length h.name))
      × (take (length h.name) (drop (name_position h) (hello_bytes h)) ≡ h.name)
  get_tls_sni-hello = (found, ap (take (length h.name)) at_name ∙ take-append h.name h.after)
