-- ===== src/Autoconf/First.antt =====
-- Which configuration the search shows, against a server that answers a test always alike.
use dpitunnel_cli.Prelude.{
  ℕ, zero, suc, ◌+◌, ◌≤◌, ◌<◌, ◌≡◌, ◌∙◌, refl, sym, arith, ◌⊎◌, inl, inr, Bool, true, false,
  false≢true, ◌&&◌, List, [], ◌∷◌, Option, none, some, if_cases, Bool-cases, ==_iff, ◌==◌,
}
use dpitunnel_cli.Prelude.Outcome.{Outcome, done, Returns}
use dpitunnel_cli.Settings.{Profile}
use dpitunnel_cli.Autoconf.{
  Combination, test_thrice, ttl_loop, show_configured_options, after_thrice, after_test,
  test_desync_attack_wrapper, try_next, try_combinations,
}

abbrev pub with_ttl : Profile → ℕ → Profile
with_ttl p ttl = record p { fake_packets_ttl = ttl }

-- The least TTL from 1 on with which the profile works.
abbrev pub IsLeastTtl : (Profile → Bool) → Profile → ℕ → Type 0
IsLeastTtl ok p t =
    (1 ≤ t)
    × (t ≤ p.fake_packets_ttl)
    × (ok (with_ttl p t) ≡ true)
    × ((k : ℕ) → 1 ≤ k → k < t → ok (with_ttl p k) ≡ false)

-- What is shown for a profile that works: itself, or, with a TTL, the least that works.
abbrev pub Shows : (Profile → Bool) → Profile → Profile → Type 0
Shows ok p q =
    ((p.fake_packets_ttl ≡ 0) × (q ≡ p)) ⊎ ((t : ℕ) × IsLeastTtl ok p t × (q ≡ with_ttl p t))

-- The first combination that works is shown, after others that do not.
pub data Chooses (ok : Profile → Bool) (profile_of : Combination → Profile)
    : List Combination → Option Profile → Type 0 where
  exhausted : Chooses ok profile_of [] none
  passes :
      {c : Combination} {rest : List Combination} {o : Option Profile}
      → ok (profile_of c) ≡ false
      → Chooses ok profile_of rest o
      → Chooses ok profile_of (c ∷ rest) o
  takes :
      {c : Combination} {rest : List Combination} {q : Profile}
      → ok (profile_of c) ≡ true
      → Shows ok (profile_of c) q
      → Chooses ok profile_of (c ∷ rest) (some q)

module _ (test : ℕ → Profile → Outcome Bool) (ok : Profile → Bool)
    (steady : (n : ℕ) (p : Profile) → test n p ≡ done (ok p)) where
  test_thrice-ok : (n : ℕ) (p : Profile) → test_thrice test n p ≡ done (ok p && ok p && ok p)
  unfolding test_thrice
  test_thrice-ok n p = rw (steady n p, steady (n + 1) p, steady (n + 2) p) refl

  abbrev Fails : Profile → ℕ → Type 0
  Fails p ttl = (k : ℕ) → 1 ≤ k → k < ttl → ok (with_ttl p k) ≡ false

  Fails-suc :
      (p : Profile) (ttl : ℕ) → Fails p ttl → ok (with_ttl p ttl) ≡ false → Fails p (ttl + 1)
  Fails-suc p ttl f e k low high = elim (Bool-cases (k == ttl)) [
    | inl q ↦ rw ((==_iff k ttl).0 q) e
    | inr q ↦ f k low (ground arith)
  ]

  ttl_loop-IsLeastTtl :
      (left n ttl : ℕ) (p : Profile)
      → ok p ≡ true
      → ttl + left ≡ p.fake_packets_ttl + 1
      → 1 ≤ ttl
      → 1 ≤ p.fake_packets_ttl
      → Fails p ttl
      → Returns (λ r. IsLeastTtl ok p r.0) (ttl_loop test left n ttl p)
  unfolding ttl_loop
  ttl_loop-IsLeastTtl zero n ttl p works e low some_ttl f =
      absurd (false≢true (sym (f p.fake_packets_ttl some_ttl (omega arith)) ∙ works))
  ttl_loop-IsLeastTtl (suc left) n ttl p works e low some_ttl f =
      elim (Bool-cases (ok (with_ttl p ttl))) [
        | inl q ↦
            rw (steady n (with_ttl p ttl), q, test_thrice-ok (n + 1) (with_ttl p ttl), q)
              ((ttl, n + 4), refl, (low, omega arith, q, f))
        | inr q ↦
            rw (steady n (with_ttl p ttl), q)
              (ttl_loop-IsLeastTtl left (n + 1) (ttl + 1) p works (omega arith) (omega arith)
                some_ttl (Fails-suc p ttl f q))
      ]

  show-Shows :
      (n : ℕ) (p : Profile)
      → ok p ≡ true
      → Returns (λ r. Shows ok p r.0) (show_configured_options test n p)
  unfolding show_configured_options
  show-Shows n p works =
      if_cases (Returns (λ r. Shows ok p r.0)) (p.fake_packets_ttl == 0) (done (p, n)) _
        (λ e. ((p, n), refl, inl ((==_iff p.fake_packets_ttl 0).0 e, refl)))
        (λ e.
          let l =
            ttl_loop-IsLeastTtl p.fake_packets_ttl n 1 p works (omega arith) (omega arith)
              (ground arith) (λ k low high. absurd (omega arith)) in
          rw l.1 (_, refl, inr (l.0.0, l.2, refl)))

  -- One combination: its profile is shown where it works.
  abbrev Tries : Profile → Option Profile × ℕ → Type 0
  Tries p (none, n) = ok p ≡ false
  Tries p (some q, n) = (ok p ≡ true) × Shows ok p q

  wrapper-Tries : (n : ℕ) (p : Profile) → Returns (Tries p) (test_desync_attack_wrapper test n p)
  unfolding test_desync_attack_wrapper after_test after_thrice
  wrapper-Tries n p = elim (Bool-cases (ok p)) [
    | inl e ↦
        let s = show-Shows (n + 1 + 3) p e in
        rw (steady n p, e, test_thrice-ok (n + 1) p, e, s.1) (_, refl, (e, s.2))
    | inr e ↦ rw (steady n p, e) (_, refl, e)
  ]

  module _ (profile_of : Combination → Profile) where
    try_next-Chooses :
        (c : Combination) (rest : List Combination) (r : Option Profile × ℕ)
        (next : Outcome (Option Profile))
        → Tries (profile_of c) r
        → Returns (Chooses ok profile_of rest) next
        → Returns (Chooses ok profile_of (c ∷ rest)) (try_next next r.0)
    unfolding try_next
    try_next-Chooses c rest (none, n) next e h = (h.0, h.1, passes e h.2)
    try_next-Chooses c rest (some q, n) next e h = (_, refl, takes e.0 e.1)

    -- Where a test answers a profile alike whenever it is made, the search ends. It shows the first
    -- of the combinations, in their order, with which the tests succeed, and nothing where there is
    -- none; a profile with a TTL is shown with the least TTL from 1 on that works.
    pub try_combinations-Chooses :
        (n : ℕ) (cs : List Combination)
        → Returns (Chooses ok profile_of cs) (try_combinations test n profile_of cs)
    unfolding try_combinations
    try_combinations-Chooses n [] = (none, refl, exhausted)
    try_combinations-Chooses n (c ∷ rest) =
        let t = wrapper-Tries n (profile_of c) in
        rw t.1 (
          try_next-Chooses c rest t.0 (try_combinations test t.0.1 profile_of rest) t.2
            (try_combinations-Chooses t.0.1 rest))
