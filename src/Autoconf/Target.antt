-- ===== src/Autoconf/Target.antt =====
-- The site that `run_autoconf` of autoconf.cpp is asked for.
use dpitunnel_cli.Prelude.{
  ℕ, zero, suc, ◌+◌, ◌≡◌, refl, sym, arith, ℤ, pos, Bool, true, false, false≢true, [], ◌∷◌, ◌++◌,
  Option, none, some, Bytes, codes, find_byte, starts_with, take, drop, length, inl, inr,
  take-append, Bool-cases, both, ◌==◌, if◌then◌else◌,
}
use dpitunnel_cli.Prelude.TextLaws.{Lacks, find_byte-append, find_byte-Lacks}
use dpitunnel_cli.Prelude.Outcome.{Outcome, done, fault}
use dpitunnel_cli.Http.Request.{stoi}

pub record Target : Type 0 where
  pub is_https : Bool
  pub port : ℤ
  pub host : Bytes

-- The scheme goes; without one it is HTTPS.
unfoldable pub read_scheme : Bytes → Target
unfolding starts_with
read_scheme site =
    if starts_with (codes "http://") site
    then record { is_https = false; port = pos 80; host = drop 7 site }
    else if starts_with (codes "https://") site
    then record { is_https = true; port = pos 443; host = drop 8 site }
    else record { is_https = true; port = pos 443; host = site }

-- An exception of `std::stoi` is not caught.
unfoldable pub set_number : Target → ℕ → Option ℤ → Outcome Target
set_number t at none = fault
set_number t at (some port) = done (record t { port = port; host = take at t.host })

unfoldable pub read_port : Target → Option ℕ → Outcome Target
read_port t none = done t
read_port t (some at) = set_number t at (stoi (drop (at + 1) t.host))

unfoldable pub read_target : Bytes → Outcome Target
read_target site = let t = read_scheme site in read_port t (find_byte b':' t.host)

-- What a text begins with lacks what the text lacks.
Lacks-starts : (c : ℕ) (p s : Bytes) → starts_with p s ≡ true → Lacks c s → Lacks c p
unfolding starts_with
Lacks-starts c [] s e h = tt
Lacks-starts c (d ∷ p) [] e h = cc
Lacks-starts c (d ∷ p) (x ∷ s) e (first, h) =
    let tests = both (d == x) (starts_with p s) e in (ground arith, Lacks-starts c p s tests.1 h)

no_scheme : (p h : Bytes) (c : ℕ) → (Lacks c p → ⊥) → Lacks c h → starts_with p h ≡ false
no_scheme p h c n l = elim (Bool-cases (starts_with p h)) [
  | inl e ↦ absurd (n (Lacks-starts c p h e l))
  | inr e ↦ e
]

-- The host, and a port where one is given.
read_port-host :
    (t : Target) (h : Bytes)
    → t.host ≡ h
    → Lacks b':' h
    → read_port t (find_byte b':' t.host) ≡ done t
unfolding read_port
read_port-host t h e l = rw (e, find_byte-Lacks b':' h l) refl

drop-after : (s t : Bytes) (c n : ℕ) → n ≡ length s + 1 → drop n (s ++ c ∷ t) ≡ t
drop-after s t c zero e = absurd (omega arith)
drop-after [] t c (suc n) e = (let z : n ≡ 0 = omega arith in rw z refl)
drop-after (d ∷ s) t c (suc n) e = drop-after s t c n (omega arith)

drop-next : (s t : Bytes) (c : ℕ) → drop (length s + 1) (s ++ c ∷ t) ≡ t
drop-next s t c = drop-after s t c (length s + 1) refl

abbrev pub Reads : Bytes → Bool → ℤ → Bytes → Type 0
Reads site is_https port h =
    read_target site ≡ done (record { is_https = is_https; port = port; host = h })

-- A host without a colon is read as it is: with port 443, for HTTPS, alone or behind "https://"; with
-- port 80, for HTTP, behind "http://"; and with a number behind a colon that is the port.
pub read_target_lem :
    (h d : Bytes) (port : ℤ)
    → Lacks b':' h
    → stoi d ≡ some port
    → Reads h true (pos 443) h
      × Reads (codes "https://" ++ h) true (pos 443) h
      × Reads (codes "http://" ++ h) false (pos 80) h
      × Reads (codes "https://" ++ h ++ b':' ∷ d) true port h
      × Reads (codes "http://" ++ h ++ b':' ∷ d) false port h
unfolding read_target read_scheme starts_with read_port set_number
read_target_lem h d port l e =
    let none_at = find_byte-Lacks b':' h l in
    let at = find_byte-append b':' h d l in
    (
      rw
          (
            no_scheme (codes "http://") h b':' (λ k. false≢true (sym k.1.1.1.1.0)) l,
            no_scheme (codes "https://") h b':' (λ k. false≢true (sym k.1.1.1.1.1.0)) l,
            none_at,
          )
          refl,
      rw none_at refl,
      rw none_at refl,
      rw (at, drop-next h d b':', e, take-append h (b':' ∷ d)) refl,
      rw (at, drop-next h d b':', e, take-append h (b':' ∷ d)) refl,
    )
