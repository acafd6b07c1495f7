-- ===== src/Autoconf.antt =====
-- The search of autoconf.cpp for a working configuration, over the answers of its tests.
pub mod Response
pub mod Https
pub mod Attempt
pub mod Target
pub mod First
pub mod Run
use dpitunnel_cli.Prelude.{
  ℕ, zero, suc, ◌+◌, ◌-◌, ◌≡◌, ℤ, pos, negsuc, Bool, true, false, not, ◌&&◌, List, [], ◌∷◌, ◌++◌,
  map, Option, none, some, Bytes, codes, bytes_eq, ◌==◌, if◌then◌else◌,
}
use dpitunnel_cli.Prelude.Outcome.{Outcome, done, ◌>>=◌}
use dpitunnel_cli.Settings.{
  Profile, DesyncZeroAttacks, DesyncFirstAttacks, default_profile, desync_zero_fake,
  desync_zero_rst, desync_zero_rstack, desync_zero_none, desync_first_disorder_fake,
  desync_first_split_fake,
}

-- One turn of the four nested loops.
pub record Combination : Type 0 where
  pub zero_attack : DesyncZeroAttacks
  pub first_attack : DesyncFirstAttacks
  pub fake_type : Bytes
  pub win_size_scale : Bool

-- A loop over some values, with what its body does for each, one after another.
abbrev each : {A : Type 0} → List A → (A → List Combination) → List Combination
each [] body = []
each (a ∷ rest) body = body a ++ each rest body

-- The turns in the order of the loops.
unfoldable pub combinations : List Combination
combinations =
    each (desync_zero_none ∷ desync_zero_fake ∷ desync_zero_rst ∷ desync_zero_rstack ∷ [])
      (λ zero_attack.
        each (desync_first_disorder_fake ∷ desync_first_split_fake ∷ []) (λ first_attack.
          each (codes "ttl" ∷ codes "wrong-seq" ∷ []) (λ fake_type.
            each (false ∷ true ∷ []) (λ win_size_scale.
              record {
                zero_attack = zero_attack;
                first_attack = first_attack;
                fake_type = fake_type;
                win_size_scale = win_size_scale;
              }
              ∷ []))))

-- How the fakes are kept from the server.
unfoldable pub with_fakes : Bytes → ℕ → Profile → Profile
unfolding bytes_eq
with_fakes fake_type ttl p =
    if bytes_eq fake_type (codes "ttl")
    then record p { fake_packets_ttl = ttl }
    else if bytes_eq fake_type (codes "wrong-seq")
    then record p { wrong_seq = true }
    else p

unfoldable pub with_window : Bool → Profile → Profile
with_window false p = p
with_window true p = record p { window_size = 1; window_scale_factor = pos 6 }

-- All else is as in a new profile.
unfoldable pub set_profile : Bytes → Bool → ℕ → Combination → Profile
set_profile doh_server builtin_dns ttl c = with_window c.win_size_scale (
    with_fakes c.fake_type ttl (record default_profile {
      doh = true;
      doh_server = doh_server;
      builtin_dns = builtin_dns;
      desync_zero_attack = c.zero_attack;
      desync_first_attack = c.first_attack;
    }))

-- The first success ends the loops.
unfoldable pub try_next : Outcome (Option Profile) → Option Profile → Outcome (Option Profile)
try_next next none = next
try_next next (some p) = done (some p)

-- `test` answers the calls of `test_desync_attack`, by their number; each function also gives the
-- number of the next call.
module _ (test : ℕ → Profile → Outcome Bool) where
  -- Three more tests; all are made, and all must succeed.
  unfoldable pub test_thrice : ℕ → Profile → Outcome Bool
  test_thrice n p =
      test n p >>= λ a. test (n + 1) p >>= λ b. test (n + 2) p >>= λ c. done (a && b && c)

  -- The loop for the TTL with `left` turns to go: the TTL it ends with.
  unfoldable pub ttl_loop : ℕ → ℕ → ℕ → Profile → Outcome (ℕ × ℕ)
  ttl_loop zero n ttl p = done (ttl - 1, n)
  ttl_loop (suc left) n ttl p =
      let q = record p { fake_packets_ttl = ttl } in
      test n q >>= λ once.
      if once
      then (test_thrice (n + 1) q >>= λ always.
          if always then done (ttl, n + 4) else ttl_loop left (n + 4) (ttl + 1) p)
      else ttl_loop left (n + 1) (ttl + 1) p

  -- The profile that is shown.
  unfoldable pub show_configured_options : ℕ → Profile → Outcome (Profile × ℕ)
  show_configured_options n p =
      if p.fake_packets_ttl == 0
      then done (p, n)
      else (ttl_loop p.fake_packets_ttl n 1 p >>= λ r.
          done (record p { fake_packets_ttl = r.0 }, r.1))

  -- The options that are shown, if the attack works four times in a row.
  unfoldable pub after_thrice : ℕ → Profile → Bool → Outcome (Option Profile × ℕ)
  after_thrice n p false = done (none, n)
  after_thrice n p true = show_configured_options n p >>= λ r. done (some r.0, r.1)

  unfoldable pub after_test : ℕ → Profile → Bool → Outcome (Option Profile × ℕ)
  after_test n p false = done (none, n)
  after_test n p true = test_thrice n p >>= after_thrice (n + 3) p

  unfoldable pub test_desync_attack_wrapper : ℕ → Profile → Outcome (Option Profile × ℕ)
  test_desync_attack_wrapper n p = test n p >>= after_test (n + 1) p

  unfoldable pub try_combinations :
      ℕ → (Combination → Profile) → List Combination → Outcome (Option Profile)
  try_combinations n profile_of [] = done none
  try_combinations n profile_of (c ∷ rest) = test_desync_attack_wrapper n (profile_of c) >>= λ r.
      try_next (try_combinations r.1 profile_of rest) r.0
