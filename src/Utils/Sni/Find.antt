-- ===== src/Utils/Sni/Find.antt =====
-- `get_tls_sni` on a well-formed ClientHello: it finds the name.
use dpitunnel_cli.Prelude.{
  ℕ, zero, suc, ◌+◌, ◌<◌, ◌≡◌, ◌≢◌, ap, subst, ◌∙◌, arith, List, [], ◌∷◌, ◌++◌,
}
use dpitunnel_cli.Prelude.{Bytes, length, length-append, append_assoc}
use dpitunnel_cli.Prelude.Outcome.{Outcome, done}
use dpitunnel_cli.Prelude.Views.{
  be16, From, From-cons, From-append, From-length, byte_at-From, word_at-From,
}
use dpitunnel_cli.Utils.Sni.{Sni, widen_char, name_at, extensions, after_compression, after_ciphers}
use dpitunnel_cli.Utils.Sni.{after_session, get_tls_sni}

-- An extension: its type, and its bytes behind their length.
abbrev pub extension : ℕ → Bytes → Bytes
extension ty body = be16 ty ++ (be16 (length body) ++ body)

abbrev pub extension_list : List (ℕ × Bytes) → Bytes
extension_list [] = []
extension_list ((ty, body) ∷ exts) =
    be16 ty ++ (be16 (length body) ++ (body ++ extension_list exts))

-- The server name extension is of type 0: a list of one name, which is a type 0 and a text.
abbrev pub server_name : Bytes → Bytes
server_name name =
    be16 0
    ++ (be16 (length name + 5) ++ (be16 (length name + 3) ++ (0 ∷ (be16 (length name) ++ name))))

-- No extension before the name is of the name's type, and the types are 16 bits wide.
abbrev pub AllOthers : List (ℕ × Bytes) → Type 0
AllOthers [] = Unit
AllOthers ((ty, body) ∷ exts) = (ty ≢ 0) × (ty < 65536) × AllOthers exts

name-path : {a b : ℕ} (n : ℕ) → a ≡ b → ◌≡◌ {A = Outcome Sni} (done (a, n)) (done (b, n))
name-path n e = ap (λ (t : ℕ). done (t, n)) e

module _ (s : Bytes) (fits : length s < 65536) where
  -- An extension before the name is passed over.
  pass :
      (fuel it ty : ℕ) (body rest : Bytes)
      → ty ≢ 0
      → ty < 65536
      → length body < 65536
      → it + 9 < length s
      → From s it (be16 ty ++ (be16 (length body) ++ (body ++ rest)))
      → extensions s (length s) (suc fuel) it (length s)
        ≡ extensions s (length s) fuel (it + 4 + length body) (length s)
  unfolding extensions
  pass fuel it ty body rest other small short room here = ground (
    arith,
    word_at-From s it ty (be16 (length body) ++ (body ++ rest)) small here,
    word_at-From s (it + 2) (length body) (body ++ rest) short
        (From-append s it (be16 ty) (be16 (length body) ++ (body ++ rest)) here),
  )

  found :
      (fuel it : ℕ) (name rest : Bytes)
      → length name + 5 < 65536
      → it + 9 < length s
      → From s it (server_name name ++ rest)
      → extensions s (length s) (suc fuel) it (length s) ≡ done (it + 9, length name)
  unfolding extensions name_at
  found fuel it name rest short room here =
      let at_len = From-append s it (be16 0) _ here in
      let at_list = From-append s (it + 2) (be16 (length name + 5)) _ at_len in
      let at_type = From-append s (it + 2 + 2) (be16 (length name + 3)) _ at_list in
      let at_name = From-cons s (it + 2 + 2 + 2) 0 (be16 (length name) ++ (name ++ rest)) at_type in
      ground (
        arith,
        word_at-From s it 0 _ (omega arith) here,
        word_at-From s (it + 2) (length name + 5) _ (omega arith) at_len,
        word_at-From s (it + 2 + 2 + 2 + 1) (length name) (name ++ rest) (omega arith) at_name,
      )

  -- Every extension before the name is passed over, and then the name is found.
  pub walk :
      (fuel it : ℕ) (exts : List (ℕ × Bytes)) (name rest : Bytes)
      → AllOthers exts
      → 0 < length name
      → 0 < fuel
      → length s < it + fuel
      → From s it (extension_list exts ++ (server_name name ++ rest))
      → extensions s (length s) fuel it (length s)
        ≡ done (it + length (extension_list exts) + 9, length name)
  walk zero it exts name rest others some_name p enough here = absurd (omega arith)
  walk (suc fuel) it [] name rest others some_name p enough here =
      let size = From-length s it (server_name name ++ rest) here in
      let sum = length-append name rest in
      found fuel it name rest (omega arith) (omega arith) here
      ∙ name-path (length name) (omega arith)
  walk (suc fuel) it ((ty, body) ∷ exts) name rest (other, small, others) some_name p enough here =
      let there = extension_list exts ++ (server_name name ++ rest) in
      let unfolded : From s it (be16 ty ++ (be16 (length body) ++ (body ++ there))) =
        rw (append_assoc body (extension_list exts) (server_name name ++ rest)) at here in
      let size = From-length s it _ unfolded in
      let sum = length-append body there in
      let sum' = length-append (extension_list exts) (server_name name ++ rest) in
      let sum'' = length-append body (extension_list exts) in
      let at_size = From-append s it (be16 ty) (be16 (length body) ++ (body ++ there)) unfolded in
      let at_body = From-append s (it + 2) (be16 (length body)) (body ++ there) at_size in
      let next : From s (it + 4 + length body) there =
        subst (λ k. From s k there) (omega arith) (From-append s (it + 2 + 2) body there at_body) in
      pass fuel it ty body there other small (omega arith) (omega arith) unfolded
      ∙ (walk fuel (it + 4 + length body) exts name rest others some_name (omega arith)
            (omega arith) next
          ∙ name-path (length name) (omega arith))

  -- The steps before the extensions, each over one part behind its length.
  pub session_step :
      (n : ℕ) (rest : Bytes)
      → n < 128
      → 43 < length s
      → From s 43 (n ∷ rest)
      → get_tls_sni s (length s) ≡ after_session s (length s) (44 + n)
  unfolding get_tls_sni widen_char
  session_step n rest small room here = ground (arith, byte_at-From s 43 n rest here)

  pub ciphers_step :
      (it n : ℕ) (rest : Bytes)
      → n < 65536
      → it < length s
      → From s it (be16 n ++ rest)
      → after_session s (length s) it ≡ after_ciphers s (length s) (it + 2 + n)
  unfolding after_session
  ciphers_step it n rest small room here = ground (arith, word_at-From s it n rest small here)

  pub compression_step :
      (it n : ℕ) (rest : Bytes)
      → n < 128
      → it < length s
      → From s it (n ∷ rest)
      → after_ciphers s (length s) it ≡ after_compression s (length s) (it + 1 + n)
  unfolding after_ciphers widen_char
  compression_step it n rest small room here = ground (arith, byte_at-From s it n rest here)

  pub extensions_step :
      (it n : ℕ) (rest : Bytes)
      → it + 2 + n ≡ length s
      → From s it (be16 n ++ rest)
      → after_compression s (length s) it ≡ extensions s (length s) (length s) (it + 2) (length s)
  unfolding after_compression
  extensions_step it n rest size here =
      let small : n < 65536 = omega arith in ground (arith, word_at-From s it n rest small here)
