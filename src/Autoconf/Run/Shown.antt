-- ===== src/Autoconf/Run/Shown.antt =====
-- What every profile has that `run_autoconf` shows.
use dpitunnel_cli.Prelude.{
  ℕ, ◌+◌, ◌-◌, ◌≡◌, refl, ℤ, pos, negsuc, Bool, true, false, not, ◌&&◌, List, [], ◌∷◌, Option, none,
  some, Bytes, codes, bytes_eq, if_cases, ◌==◌,
}
use dpitunnel_cli.Prelude.Outcome.{Outcome, done, fault, out_of_fuel, ◌>>=◌}
use dpitunnel_cli.Settings.{Profile, Settings, default_profile}
use dpitunnel_cli.Dns.Resolve.{resolve_host}
use dpitunnel_cli.Dns.Doh.{Resolved, failed, address, no_answer}
use dpitunnel_cli.Stream.Hops.{count_hops}
use dpitunnel_cli.Autoconf.{
  Combination, combinations, set_profile, with_fakes, with_window, test_thrice, ttl_loop,
  show_configured_options, after_thrice, after_test, test_desync_attack_wrapper, try_next,
  try_combinations,
}
use dpitunnel_cli.Autoconf.Target.{Target, read_target}
use dpitunnel_cli.Autoconf.Run.{
  World, Configured, search, with_ip, on_second, read_dns, on_first, with_target, run_autoconf,
}

-- What holds of a result, where there is one.
abbrev pub WhenDone : {A : Type 0} → (A → Type 0) → Outcome A → Type 0
WhenDone P (done a) = P a
WhenDone P fault = Unit
WhenDone P out_of_fuel = Unit

WhenDone-bind :
    {A B : Type 0} (P : A → Type 0) (Q : B → Type 0) (o : Outcome A) (f : A → Outcome B)
    → WhenDone P o
    → ((a : A) → P a → WhenDone Q (f a))
    → WhenDone Q (o >>= f)
WhenDone-bind P Q (done a) f h k = k a h
WhenDone-bind P Q fault f h k = tt
WhenDone-bind P Q out_of_fuel f h k = tt

-- Nothing need be known of the first result.
WhenDone-any :
    {A B : Type 0} (Q : B → Type 0) (o : Outcome A) (f : A → Outcome B)
    → ((a : A) → WhenDone Q (f a))
    → WhenDone Q (o >>= f)
WhenDone-any Q (done a) f k = k a
WhenDone-any Q fault f k = tt
WhenDone-any Q out_of_fuel f k = tt

abbrev pub WhenSome : (Profile → Type 0) → Option Profile → Type 0
WhenSome P none = Unit
WhenSome P (some q) = P q

-- A predicate that the TTL does not matter for.
module _ (test : ℕ → Profile → Outcome Bool) (P : Profile → Type 0)
    (any_ttl : (p : Profile) (ttl : ℕ) → P p → P (record p { fake_packets_ttl = ttl })) where
  show_When : (n : ℕ) (p : Profile) → P p → WhenDone (λ r. P r.0) (show_configured_options test n p)
  unfolding show_configured_options
  show_When n p h =
      if_cases (WhenDone (λ r. P r.0)) (p.fake_packets_ttl == 0) (done (p, n)) _ (λ _. h)
        (λ _.
          WhenDone-any (λ r. P r.0) (ttl_loop test p.fake_packets_ttl n 1 p) _
            (λ r. any_ttl p r.0 h))

  thrice_When :
      (n : ℕ) (p : Profile) (ok : Bool)
      → P p
      → WhenDone (λ r. WhenSome P r.0) (after_thrice test n p ok)
  unfolding after_thrice
  thrice_When n p false h = tt
  thrice_When n p true h =
      WhenDone-bind (λ r. P r.0) (λ r. WhenSome P r.0) (show_configured_options test n p) _
        (show_When n p h) (λ r k. k)

  test_When :
      (n : ℕ) (p : Profile) (ok : Bool)
      → P p
      → WhenDone (λ r. WhenSome P r.0) (after_test test n p ok)
  unfolding after_test
  test_When n p false h = tt
  test_When n p true h =
      WhenDone-any (λ r. WhenSome P r.0) (test_thrice test n p) _ (λ ok. thrice_When (n + 3) p ok h)

  next_When :
      (next : Outcome (Option Profile)) (o : Option Profile)
      → WhenSome P o
      → WhenDone (WhenSome P) next
      → WhenDone (WhenSome P) (try_next next o)
  unfolding try_next
  next_When next none k h = h
  next_When next (some q) k h = k

  try_When :
      (profile_of : Combination → Profile)
      → ((c : Combination) → P (profile_of c))
      → (n : ℕ) (cs : List Combination)
      → WhenDone (WhenSome P) (try_combinations test n profile_of cs)
  unfolding try_combinations test_desync_attack_wrapper
  try_When profile_of h n [] = tt
  try_When profile_of h n (c ∷ rest) =
      WhenDone-bind (λ r. WhenSome P r.0) (WhenSome P)
        (test_desync_attack_wrapper test n (profile_of c)) _
        (WhenDone-any (λ r. WhenSome P r.0) (test n (profile_of c)) _
          (λ ok. test_When (n + 1) (profile_of c) ok (h c)))
        (λ r k.
          next_When (try_combinations test r.1 profile_of rest) r.0 k
            (try_When profile_of h r.1 rest))

-- A profile over DoH whose DNS server and buffer are the built-in ones.
abbrev pub HasDefaults : Profile → Type 0
HasDefaults p =
    (p.doh ≡ true)
    × (p.builtin_dns_ip ≡ default_profile.builtin_dns_ip)
    × (p.builtin_dns_port ≡ default_profile.builtin_dns_port)
    × (p.buffer_size ≡ default_profile.buffer_size)

window-HasDefaults : (b : Bool) (p : Profile) → HasDefaults p → HasDefaults (with_window b p)
unfolding with_window
window-HasDefaults false p h = h
window-HasDefaults true p h = h

fakes-HasDefaults :
    (f : Bytes) (ttl : ℕ) (p : Profile) → HasDefaults p → HasDefaults (with_fakes f ttl p)
unfolding with_fakes
fakes-HasDefaults f ttl p h =
    if_cases HasDefaults (bytes_eq f (codes "ttl")) _ _ (λ _. h)
      (λ _. if_cases HasDefaults (bytes_eq f (codes "wrong-seq")) _ p (λ _. h) (λ _. h))

set_profile-HasDefaults :
    (doh_server : Bytes) (b : Bool) (ttl : ℕ) (c : Combination)
    → HasDefaults (set_profile doh_server b ttl c)
unfolding set_profile
set_profile-HasDefaults doh_server b ttl c =
    window-HasDefaults c.win_size_scale _
      (fakes-HasDefaults c.fake_type ttl _ (refl, refl, refl, refl))

abbrev pub ShowsDefaults : Configured → Type 0
ShowsDefaults c = WhenSome HasDefaults c.shown

search-ShowsDefaults :
    (w : World) (t : Target) (p : Profile) (b : Bool) (ip : Bytes) (hops : Option ℤ)
    → WhenDone ShowsDefaults (search w t p b ip hops)
unfolding search
search-ShowsDefaults w t p b ip none = tt
search-ShowsDefaults w t p b ip (some (negsuc n)) = tt
search-ShowsDefaults w t p b ip (some (pos hops)) =
    WhenDone-bind (WhenSome HasDefaults) ShowsDefaults _ _
      (try_When _ HasDefaults (λ q ttl h. h) (set_profile p.doh_server b (hops - 1))
        (set_profile-HasDefaults p.doh_server b (hops - 1)) 0 combinations)
      (λ shown h. h)

ip-ShowsDefaults :
    (w : World) (t : Target) (p : Profile) (b : Bool) (ip : Bytes)
    → WhenDone ShowsDefaults (with_ip w t p b ip)
unfolding with_ip
ip-ShowsDefaults w t p b ip =
    search-ShowsDefaults w t p b ip
      (count_hops w.hops1 w.hops2 w.hops3 (w.server_of ip t.port) (w.is_ipv4 ip))

second-ShowsDefaults :
    (w : World) (t : Target) (p : Profile) (r : Resolved)
    → WhenDone ShowsDefaults (on_second w t p r)
unfolding on_second
second-ShowsDefaults w t p failed = tt
second-ShowsDefaults w t p no_answer = tt
second-ShowsDefaults w t p (address ip) = ip-ShowsDefaults w t p true ip

first-ShowsDefaults :
    (w : World) (s : Settings) (t : Target) (p : Profile) (r : Resolved)
    → WhenDone ShowsDefaults (on_first w s t p r)
unfolding on_first
first-ShowsDefaults w s t p no_answer = tt
first-ShowsDefaults w s t p (address ip) = ip-ShowsDefaults w t p false ip
first-ShowsDefaults w s t p failed = WhenDone-any ShowsDefaults (read_dns p w.dns_line) _ (λ q.
    WhenDone-any ShowsDefaults (resolve_host w.second_dns s q t.host) _
      (λ r. second-ShowsDefaults w t q r))

-- Whatever is typed in, whatever the global profile holds and whatever the tests answer, a profile
-- that `run_autoconf` shows is over DoH, with the built-in address and port of the DNS server (not
-- those that were typed in and with which the site was resolved) and the default buffer size.
pub run_autoconf-ShowsDefaults :
    (w : World) (s : Settings) (p : Profile) → WhenDone ShowsDefaults (run_autoconf w s p)
unfolding run_autoconf with_target
run_autoconf-ShowsDefaults w s p = WhenDone-any ShowsDefaults (read_target w.site) _ (λ t.
    if_cases (WhenDone ShowsDefaults) (not w.ca_bundle_ok) _ _ (λ _. tt)
      (λ _.
        if_cases (WhenDone ShowsDefaults) (t.is_https && not w.store_ok) _ _ (λ _. tt)
          (λ _.
            if_cases (WhenDone ShowsDefaults) (t.is_https && not w.ctx_ok) _ _ (λ _. tt)
              (λ _.
                WhenDone-any ShowsDefaults (resolve_host w.first_dns _ _ t.host) _
                  (λ r. first-ShowsDefaults w _ t _ r)))))
