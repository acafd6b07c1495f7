-- ===== src/Utils/Wildcard/Laws.antt =====
-- `wildcard_match` against the meaning of its patterns.
use dpitunnel_cli.Prelude.{
  ℕ, Bool, true, false, ◌&&◌, [], ◌∷◌, ◌≡◌, ◌⊎◌, inl, inr, refl, arith, false≢true,
}
use dpitunnel_cli.Prelude.{Bytes, subst, ◌==◌, Bool-cases, ==_iff}
use dpitunnel_cli.Utils.Wildcard.{wildcard_match, round, try_from}

-- '*' stands for any run of bytes, '?' for any byte, and every other byte for itself.
pub data Matches : Bytes → Bytes → Type 0 where
  done : Matches [] []
  any : {d : ℕ} {p h : Bytes} → Matches p h → Matches (b'?' ∷ p) (d ∷ h)
  skip : {p h : Bytes} → Matches p h → Matches (b'*' ∷ p) h
  grow : {d : ℕ} {p h : Bytes} → Matches (b'*' ∷ p) h → Matches (b'*' ∷ p) (d ∷ h)
  same : {c : ℕ} {p h : Bytes} → Matches p h → Matches (c ∷ p) (c ∷ h)

grow_all : (h : Bytes) → Matches (b'*' ∷ []) h
grow_all [] = skip done
grow_all (d ∷ h) = grow (grow_all h)

try_from-Matches :
    (p h : Bytes)
    → ((t : Bytes) → wildcard_match p t ≡ true → Matches p t)
    → try_from (wildcard_match p) h ≡ true
    → Matches (b'*' ∷ p) h
unfolding try_from
try_from-Matches p [] ih e = cc
try_from-Matches p (c ∷ h) ih e = elim (Bool-cases (wildcard_match p (c ∷ h))) [
  | inl here ↦ skip (ih (c ∷ h) here)
  | inr next ↦ grow (try_from-Matches p h ih (rw next at e))
]

-- What an accepting round says of the byte `c`: it is '?', it is '*', or it is the text's own.
round-nil : (c : ℕ) (p : Bytes) → wildcard_match (c ∷ p) [] ≡ true → (c ≡ b'*') × (p ≡ [])
unfolding wildcard_match
round-nil c [] e = ground arith
round-nil c (d ∷ p) e = ground arith

round-cons :
    (c : ℕ) (p : Bytes) (d : ℕ) (h : Bytes)
    → wildcard_match (c ∷ p) (d ∷ h) ≡ true
    → ((c ≡ b'?') × (wildcard_match p h ≡ true))
      ⊎ ((c ≡ b'*') × ((p ≡ []) ⊎ (try_from (wildcard_match p) (d ∷ h) ≡ true)))
      ⊎ ((c ≡ d) × (wildcard_match p h ≡ true))
unfolding wildcard_match round
round-cons c [] d h e = ground arith
round-cons c (a ∷ p) d h e = ground arith

Matches-cons :
    (c : ℕ) (p : Bytes) (h : Bytes)
    → ((t : Bytes) → wildcard_match p t ≡ true → Matches p t)
    → wildcard_match (c ∷ p) h ≡ true
    → Matches (c ∷ p) h
Matches-cons c p [] ih e = let (star, nothing) = round-nil c p e in rw (star, nothing) (grow_all [])
Matches-cons c p (d ∷ h) ih e = elim (round-cons c p d h e) [
  | inl (q, m) ↦ rw q (any (ih h m))
  | inr (inl (q, inl z)) ↦ rw (q, z) (grow_all (d ∷ h))
  | inr (inl (q, inr m)) ↦ rw q (try_from-Matches p (d ∷ h) ih m)
  | inr (inr (q, m)) ↦ rw q (same (ih h m))
]

-- A text that `wildcard_match` accepts matches its pattern.
pub wildcard_match-Matches : (p h : Bytes) → wildcard_match p h ≡ true → Matches p h
wildcard_match-Matches [] [] e = done
wildcard_match-Matches [] (d ∷ h) e = absurd (false≢true (unfold wildcard_match in e))
wildcard_match-Matches (c ∷ p) h e = Matches-cons c p h (λ t m. wildcard_match-Matches p t m) e

-- The pattern ends in two stars, of which the first cannot stand for the empty run.
abbrev pub ends_in_two_stars : Bytes → Bool
ends_in_two_stars [] = false
ends_in_two_stars (c ∷ []) = false
ends_in_two_stars (c ∷ d ∷ []) = (c == b'*') && (d == b'*')
ends_in_two_stars (c ∷ d ∷ e ∷ p) = ends_in_two_stars (d ∷ e ∷ p)

ends_in_two_stars-tail :
    (c : ℕ) (p : Bytes) → ends_in_two_stars (c ∷ p) ≡ false → ends_in_two_stars p ≡ false
ends_in_two_stars-tail c [] e = refl
ends_in_two_stars-tail c (d ∷ []) e = refl
ends_in_two_stars-tail c (d ∷ f ∷ p) e = e

-- A star with a pattern behind it tries that pattern at each byte.
star_tries :
    (c : ℕ) (p h : Bytes) → wildcard_match (b'*' ∷ c ∷ p) h ≡ try_from (wildcard_match (c ∷ p)) h
unfolding wildcard_match
star_tries c p [] = refl
star_tries c p (d ∷ h) = refl

star_alone : (h : Bytes) → wildcard_match (b'*' ∷ []) h ≡ true
unfolding wildcard_match
star_alone [] = refl
star_alone (d ∷ h) = refl

try_from-here :
    (r : Bytes → Bool) (d : ℕ) (h : Bytes) → r (d ∷ h) ≡ true → try_from r (d ∷ h) ≡ true
unfolding try_from
try_from-here r d h e = rw e

try_from-later :
    (r : Bytes → Bool) (d : ℕ) (h : Bytes) → try_from r h ≡ true → try_from r (d ∷ h) ≡ true
unfolding try_from
try_from-later r d h e = ground arith

-- A pattern of one byte and a rest that accepts the end of the text is two stars.
two_stars :
    (c d : ℕ) (p : Bytes)
    → c ≡ b'*'
    → ends_in_two_stars (c ∷ d ∷ p) ≡ false
    → wildcard_match (d ∷ p) [] ≡ true
    → ⊥
two_stars c d [] s n e = let q = round-nil d [] e in ground arith
two_stars c d (f ∷ p) s n e = cc ((round-nil d (f ∷ p) e).1)

star_here :
    (p h : Bytes)
    → ends_in_two_stars (b'*' ∷ p) ≡ false
    → wildcard_match p h ≡ true
    → wildcard_match (b'*' ∷ p) h ≡ true
star_here [] h n e = star_alone h
star_here (c ∷ p) [] n e = absurd (two_stars b'*' c p refl n e)
star_here (c ∷ p) (d ∷ h) n e = rw star_tries (try_from-here (wildcard_match (c ∷ p)) d h e)

star_later :
    (p h : Bytes) (d : ℕ)
    → wildcard_match (b'*' ∷ p) h ≡ true
    → wildcard_match (b'*' ∷ p) (d ∷ h) ≡ true
star_later [] h d e = star_alone (d ∷ h)
star_later (c ∷ p) h d e =
    rw star_tries (try_from-later (wildcard_match (c ∷ p)) d h (rw star_tries at e))

any_byte :
    (p h : Bytes) (d : ℕ) → wildcard_match p h ≡ true → wildcard_match (b'?' ∷ p) (d ∷ h) ≡ true
unfolding wildcard_match
any_byte p h d e = e

-- A byte that is '*' in the pattern may stand before itself in the text.
star_same :
    (p h : Bytes)
    → ends_in_two_stars (b'*' ∷ p) ≡ false
    → wildcard_match p h ≡ true
    → wildcard_match (b'*' ∷ p) (b'*' ∷ h) ≡ true
star_same p h n e = star_later p h b'*' (star_here p h n e)

literal_same :
    (c : ℕ) (p h : Bytes)
    → (c == b'*') ≡ false
    → wildcard_match p h ≡ true
    → wildcard_match (c ∷ p) (c ∷ h) ≡ true
unfolding wildcard_match
literal_same c p h n e = ground arith

same_byte :
    (c : ℕ) (p h : Bytes)
    → ends_in_two_stars (c ∷ p) ≡ false
    → wildcard_match p h ≡ true
    → wildcard_match (c ∷ p) (c ∷ h) ≡ true
same_byte c p h n e = elim (Bool-cases (c == b'*')) [
  | inl star ↦
      let q = (==_iff c b'*').0 star in
      rw q (star_same p h (subst (λ x. ends_in_two_stars (x ∷ p) ≡ false) q n) e)
  | inr other ↦ literal_same c p h other e
]

-- A text that matches its pattern is accepted by `wildcard_match`, if the pattern does not end in two stars.
pub Matches-wildcard_match :
    {p h : Bytes} → Matches p h → ends_in_two_stars p ≡ false → wildcard_match p h ≡ true
Matches-wildcard_match done n = unfold wildcard_match in refl
Matches-wildcard_match (any {d} {p} {h} m) n =
    any_byte p h d (Matches-wildcard_match m (ends_in_two_stars-tail b'?' p n))
Matches-wildcard_match (skip {p} {h} m) n =
    star_here p h n (Matches-wildcard_match m (ends_in_two_stars-tail b'*' p n))
Matches-wildcard_match (grow {d} {p} {h} m) n = star_later p h d (Matches-wildcard_match m n)
Matches-wildcard_match (same {c} {p} {h} m) n =
    same_byte c p h n (Matches-wildcard_match m (ends_in_two_stars-tail c p n))
