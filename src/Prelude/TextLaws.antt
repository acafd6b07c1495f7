-- ===== src/Prelude/TextLaws.antt =====
-- Laws of the operations on texts.
use Prim.Native.Nat.{ℕ, suc}
use mathlib.Core.Path.{◌≡◌, refl, ap, ap₂}
use mathlib.Core.Logic.{◌↔◌, ◌⊎◌, inl, inr}
use mathlib.Core.Bool.{true, false}
use mathlib.Core.Option.{none, some}
use mathlib.Core.List.{List, [], ◌∷◌, ◌++◌}
use native.Mathlib.Omega.{arith}
use dpitunnel_cli.Prelude.Tests.{Bool-cases, ◌==◌}
use dpitunnel_cli.Prelude.Lists.{length, take, drop}
use dpitunnel_cli.Prelude.Text.{Bytes, bytes_eq, bytes_lt, contains, set_insert, find_byte}

pub bytes_eq→≡ : (s t : Bytes) → bytes_eq s t ≡ true → s ≡ t
unfolding bytes_eq
bytes_eq→≡ [] [] e = refl
bytes_eq→≡ [] (d ∷ t) e = cc
bytes_eq→≡ (c ∷ s) [] e = cc
bytes_eq→≡ (c ∷ s) (d ∷ t) e = ap₂ ◌∷◌ (ground arith) (bytes_eq→≡ s t (ground arith))

pub bytes_eq_self : (s : Bytes) → bytes_eq s s ≡ true
unfolding bytes_eq
bytes_eq_self [] = refl
bytes_eq_self (c ∷ s) = ground (arith, bytes_eq_self s)

pub bytes_eq_iff : (s t : Bytes) → (bytes_eq s t ≡ true) ↔ (s ≡ t)
bytes_eq_iff s t = (bytes_eq→≡ s t, λ e. rw e (bytes_eq_self t))

-- The text is an element of the list.
abbrev pub In : Bytes → List Bytes → Type 0
In s [] = ⊥
In s (t ∷ ts) = (t ≡ s) ⊎ In s ts

pub contains_iff : (ts : List Bytes) (s : Bytes) → (contains ts s ≡ true) ↔ In s ts
unfolding contains
contains_iff [] s = (λ e. cc, λ h. absurd h)
contains_iff (t ∷ ts) s = (
  λ e. elim (Bool-cases (bytes_eq t s)) [
    | inl here ↦ inl (bytes_eq→≡ t s here)
    | inr next ↦ inr ((contains_iff ts s).0 (rw next at e))
  ],
  λ h. elim h [ inl e ↦ rw (e, bytes_eq_self s) | inr r ↦ ground (arith, (contains_iff ts s).1 r) ],
)

pub contains-set_insert :
    (ts : List Bytes) (s t : Bytes)
    → (contains (set_insert s ts) t ≡ true) ↔ ((s ≡ t) ⊎ (contains ts t ≡ true))
unfolding set_insert contains
contains-set_insert ts s t = (
  λ h. elim (Bool-cases (contains ts s)) [
    | inl old ↦ inr (rw old at h)
    | inr new ↦ ground (arith, bytes_eq_iff s t)
  ],
  λ h. elim (Bool-cases (contains ts s)) [
    | inl old ↦ rw old (elim h [ inl e ↦ rw (← e) old | inr r ↦ r ])
    | inr new ↦ ground (arith, bytes_eq_iff s t)
  ],
)

pub bytes_lt_irrefl : (s : Bytes) → bytes_lt s s ≡ false
unfolding bytes_lt
bytes_lt_irrefl [] = refl
bytes_lt_irrefl (c ∷ s) = ground (arith, bytes_lt_irrefl s)

pub bytes_lt_trans :
    (s t u : Bytes) → bytes_lt s t ≡ true → bytes_lt t u ≡ true → bytes_lt s u ≡ true
unfolding bytes_lt
bytes_lt_trans s [] u h k = cc
bytes_lt_trans s (d ∷ t) [] h k = cc
bytes_lt_trans [] (d ∷ t) (e ∷ u) h k = refl
bytes_lt_trans (c ∷ s) (d ∷ t) (e ∷ u) h k = ground (arith, bytes_lt_trans s t u)

-- Of two texts that differ one is below the other.
pub bytes_lt_total :
    (s t : Bytes) → bytes_eq s t ≡ false → bytes_lt s t ≡ false → bytes_lt t s ≡ true
unfolding bytes_lt bytes_eq
bytes_lt_total [] [] h k = cc
bytes_lt_total [] (d ∷ t) h k = cc
bytes_lt_total (c ∷ s) [] h k = refl
bytes_lt_total (c ∷ s) (d ∷ t) h k = ground (arith, bytes_lt_total s t)

-- The byte `c` does not occur.
abbrev pub Lacks : ℕ → Bytes → Type 0
Lacks c [] = Unit
Lacks c (d ∷ s) = ((d == c) ≡ false) × Lacks c s

pub find_byte-append :
    (c : ℕ) (s t : Bytes) → Lacks c s → find_byte c (s ++ c ∷ t) ≡ some (length s)
unfolding find_byte
find_byte-append c [] t h = ground arith
find_byte-append c (d ∷ s) t (e, h) = rw (e, find_byte-append c s t h)

pub find_byte-Lacks : (c : ℕ) (s : Bytes) → Lacks c s → find_byte c s ≡ none
unfolding find_byte
find_byte-Lacks c [] h = refl
find_byte-Lacks c (d ∷ s) (e, h) = rw (e, find_byte-Lacks c s h)

pub Lacks-append : (c : ℕ) (s t : Bytes) → Lacks c s → Lacks c t → Lacks c (s ++ t)
Lacks-append c [] t h k = k
Lacks-append c (d ∷ s) t (e, h) k = (e, Lacks-append c s t h k)

pub take-all : (s : Bytes) → take (length s) s ≡ s
take-all [] = refl
take-all (c ∷ s) = ap (λ t. c ∷ t) (take-all s)

pub drop-length : (s t : Bytes) → drop (length s) (s ++ t) ≡ t
drop-length [] t = refl
drop-length (c ∷ s) t = drop-length s t

-- A byte does not occur, or the text splits at its first occurrence.
pub find_byte-split :
    (c : ℕ) (s : Bytes)
    → (find_byte c s ≡ none) ⊎ ((p : Bytes) × (r : Bytes) × (s ≡ p ++ c ∷ r) × Lacks c p)
unfolding find_byte
find_byte-split c [] = inl refl
find_byte-split c (d ∷ s) = elim (Bool-cases (d == c)) [
  | inl here ↦ inr ([], s, ap (λ x. x ∷ s) (ground arith), tt)
  | inr other ↦ elim (find_byte-split c s) [
    | inl absent ↦ inl (rw (other, absent) refl)
    | inr (p, r, e, free) ↦ inr (d ∷ p, r, ap (λ t. d ∷ t) e, (other, free))
  ]
]

pub drop_behind : (s : Bytes) (c : ℕ) (t : Bytes) → drop (suc (length s)) (s ++ c ∷ t) ≡ t
drop_behind [] c t = refl
drop_behind (d ∷ s) c t = drop_behind s c t
