-- ===== src/Stream/Hops/Rounds.antt =====
-- What `count_hops` makes of its three rounds.
use dpitunnel_cli.Prelude.{
  ℕ, ◌≤◌, ◌≡◌, refl, arith, ◌⊎◌, inl, inr, ℤ, pos, negsuc, true, List, [], ◌∷◌, Option, none, some,
  ltb_ℤ, if_cases, ◌==◌,
}
use dpitunnel_cli.Capture.{Server}
use dpitunnel_cli.Stream.Hops.{
  World, Hops, hops, undefined, count_hops_private, keep, last_ttl, count_hops,
}

-- A number that no round has gone below, and one that a round has given.
abbrev pub AtMost : ℕ → Hops → Type 0
AtMost n (hops (pos m) o c) = n ≤ m
AtMost n _ = Unit

abbrev pub Gives : ℕ → Hops → Type 0
Gives n (hops (pos m) o c) = n ≡ m
Gives n _ = ⊥

abbrev pub AllAtMost : ℕ → List Hops → Type 0
AllAtMost n [] = Unit
AllAtMost n (h ∷ hs) = AtMost n h × AllAtMost n hs

abbrev pub AnyGives : ℕ → List Hops → Type 0
AnyGives n [] = ⊥
AnyGives n (h ∷ hs) = Gives n h ⊎ AnyGives n hs

-- The value of `ttl` after some rounds; it is never below 0.
abbrev pub IsLeast : List Hops → Option ℤ → Type 0
IsLeast hs none = Unit
IsLeast hs (some (negsuc n)) = ⊥
IsLeast hs (some (pos n)) = AllAtMost n hs × ((n ≡ 256) ⊎ AnyGives n hs)

AllAtMost-le : (m n : ℕ) (hs : List Hops) → m ≤ n → AllAtMost n hs → AllAtMost m hs
AllAtMost-le m n [] le h = tt
AllAtMost-le m n (hops (pos k) o c ∷ hs) le h = (omega arith, AllAtMost-le m n hs le h.1)
AllAtMost-le m n (hops (negsuc k) o c ∷ hs) le h = (tt, AllAtMost-le m n hs le h.1)
AllAtMost-le m n (Hops.waits ∷ hs) le h = (tt, AllAtMost-le m n hs le h.1)
AllAtMost-le m n (undefined ∷ hs) le h = (tt, AllAtMost-le m n hs le h.1)

further :
    (n : ℕ) (h : Hops) (hs : List Hops)
    → (n ≡ 256) ⊎ AnyGives n hs
    → (n ≡ 256) ⊎ AnyGives n (h ∷ hs)
further n h hs (inl e) = inl e
further n h hs (inr g) = inr (inr g)

keep-IsLeast :
    (h : Hops) (hs : List Hops) (o : Option ℤ) → IsLeast hs o → IsLeast (h ∷ hs) (keep h o)
unfolding keep
keep-IsLeast Hops.waits hs o l = tt
keep-IsLeast undefined hs o l = tt
keep-IsLeast (hops (pos m) a c) hs none l = tt
keep-IsLeast (hops (negsuc m) a c) hs none l = tt
keep-IsLeast (hops (negsuc m) a c) hs (some (pos n)) l =
    ((tt, l.0), further n (hops (negsuc m) a c) hs l.1)
keep-IsLeast (hops (pos m) a c) hs (some (pos n)) l =
    if_cases (λ t. IsLeast (hops (pos m) a c ∷ hs) (some t)) (ltb_ℤ (pos m) (pos n)) (pos m) (pos n)
      (λ e. ((omega arith, AllAtMost-le m n hs (ground arith) l.0), inr (inl refl)))
      (λ e. ((ground arith, l.0), further n (hops (pos m) a c) hs l.1))
keep-IsLeast (hops c a d) hs (some (negsuc n)) l = absurd l

-- The end of `count_hops`: the least of the rounds' numbers, or -1 where no round has one below 256.
abbrev pub Answers : List Hops → Option ℤ → Type 0
Answers hs none = Unit
Answers hs (some (negsuc k)) = (k ≡ 0) × AllAtMost 256 hs
Answers hs (some (pos n)) = AllAtMost n hs × AnyGives n hs

last_ttl-Answers : (hs : List Hops) (o : Option ℤ) → IsLeast hs o → Answers hs (last_ttl o)
unfolding last_ttl
last_ttl-Answers hs none l = tt
last_ttl-Answers hs (some (negsuc n)) l = absurd l
last_ttl-Answers hs (some (pos n)) l =
    if_cases (λ t. Answers hs (some t)) (n == 256) (negsuc 0) (pos n)
      (λ e. (refl, AllAtMost-le 256 n hs (ground arith) l.0))
      (λ e. (l.0, elim l.1 [ inl q ↦ absurd (ground arith) | inr g ↦ g ]))

-- For an IPv4 address `count_hops` returns the least of the TTLs that its three rounds have found;
-- where none of them has found one below 256 it returns -1.
pub count_hops-Answers :
    (w1 w2 w3 : World) (srv : Server)
    → Answers
        (count_hops_private w3 srv ∷ count_hops_private w2 srv ∷ count_hops_private w1 srv ∷ [])
        (count_hops w1 w2 w3 srv true)
unfolding count_hops
count_hops-Answers w1 w2 w3 srv =
    let h1 = count_hops_private w1 srv in
    let h2 = count_hops_private w2 srv in
    let h3 = count_hops_private w3 srv in
    last_ttl-Answers (h3 ∷ h2 ∷ h1 ∷ []) _ (
      keep-IsLeast h3 (h2 ∷ h1 ∷ []) _
        (keep-IsLeast h2 (h1 ∷ []) _ (keep-IsLeast h1 [] (some (pos 256)) (tt, inl refl))))
