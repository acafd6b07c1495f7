-- ===== src/Main/Ready.antt =====
-- With what the program begins to serve, and its server socket where it does not.
use dpitunnel_cli.Prelude.{
  ◌≡◌, refl, true, false, not, List, [], ◌∷◌, Option, none, some, Bytes, is_empty, if_cases, ◌⊎◌,
  inl, inr, ℤ, pos, not-true,
}
use dpitunnel_cli.Prelude.Outcome.{Outcome, done, fault, out_of_fuel, ◌>>=◌}
use dpitunnel_cli.Settings.{Profile, Settings}
use dpitunnel_cli.Profiles.{Profiles}
use dpitunnel_cli.CmdLine.{Result, parsed, invalid, autoconf, Parsed, parse_cmdline}
use dpitunnel_cli.CmdLine.Ranges.{IsInRange, AllInRange, IsValid, WhenParsed}
use dpitunnel_cli.CmdLine.Bounds.{parse_cmdline-IsValid}
use dpitunnel_cli.Main.{
  World, Fork, fork_failed, is_parent, is_child, Main, exits, exits_open, serves, forked, daemonize,
  listens, with_ca_bundle, with_profile, choose_profile, with_custom_ips, with_whitelist,
  with_options, main,
}
use dpitunnel_cli.Main.Loaded.{
  IsPort, WhenLoaded, ChosenInRange, whitelist-WhenLoaded, ips-WhenLoaded, change_profile-InRange,
}

-- Why `daemonize` ends the process, and with which code.
abbrev pub DaemonExit : World → ℤ → Type 0
DaemonExit w code =
    ((w.fork ≡ is_parent) × (code ≡ pos 0))
    ⊎ ((code ≡ pos 2)
        × ((w.fork ≡ fork_failed)
            ⊎ ((w.fork ≡ is_child) × ((w.setsid_ok ≡ false) ⊎ (w.chdir_ok ≡ false)))))

-- A port and a profile within their bounds, and the CA bundle where it is needed; or the server socket
-- closed, if it was opened; or an end in `daemonize`.
abbrev pub IsReady : World → Main → Type 0
IsReady w (exits code opened closed) = opened ≡ closed
IsReady w (exits_open code) = DaemonExit w code
IsReady w (serves s ps p monitors) =
    IsPort s × IsInRange p × AllInRange ps × ((p.doh ≡ false) ⊎ (w.ca_bundle_ok ≡ true))

abbrev pub Ends : World → Outcome Main → Type 0
Ends w fault = Unit
Ends w out_of_fuel = Unit
Ends w (done m) = IsReady w m

forked-IsReady :
    (w : World) (f : Fork) (next : Main) → w.fork ≡ f → IsReady w next → IsReady w (forked w f next)
unfolding forked
forked-IsReady w fork_failed next e h = inr (refl, inl e)
forked-IsReady w is_parent next e h = inl (e, refl)
forked-IsReady w is_child next e h =
    if_cases (IsReady w) (not w.setsid_ok) (exits_open (pos 2)) _
      (λ a. inr (refl, inr (e, inl (not-true a))))
      (λ _.
        if_cases (IsReady w) (not w.chdir_ok) (exits_open (pos 2)) next
          (λ b. inr (refl, inr (e, inr (not-true b)))) (λ _. h))

module _ (w : World) where
  module _ (s : Settings) (ps : Profiles) (port : IsPort s) (all : AllInRange ps) where
    listens-IsReady :
        (p : Profile)
        → IsInRange p
        → ((p.doh ≡ false) ⊎ (w.ca_bundle_ok ≡ true))
        → IsReady w (listens w s ps p)
    unfolding listens daemonize
    listens-IsReady p h ca =
        if_cases (IsReady w) (not w.socket_ok) _ _ (λ _. refl)
          (λ _.
            if_cases (IsReady w) (not w.setsockopt_ok) _ _ (λ _. refl)
              (λ _.
                if_cases (IsReady w) (not w.bind_ok) _ _ (λ _. refl)
                  (λ _.
                    if_cases (IsReady w) (not w.listen_ok) _ _ (λ _. refl)
                      (λ _.
                        if_cases (IsReady w) s.daemon _ _
                          (λ _. forked-IsReady w w.fork _ refl (port, h, all, ca))
                          (λ _. (port, h, all, ca))))))

    bundle-IsReady : (p : Profile) → IsInRange p → IsReady w (with_ca_bundle w s ps p)
    unfolding with_ca_bundle
    bundle-IsReady p h =
        if_cases (IsReady w) p.doh _ _
          (λ _.
            if_cases (IsReady w) w.ca_bundle_ok _ _ (λ ok. listens-IsReady p h (inr ok))
              (λ _. refl))
          (λ off. listens-IsReady p h (inl off))

    profile-IsReady :
        (o : Option (Option Bytes × Profile)) → ChosenInRange o → IsReady w (with_profile w s ps o)
    unfolding with_profile
    profile-IsReady none h = refl
    profile-IsReady (some (name, p)) h = bundle-IsReady p h

  done-Ends :
      (o : Outcome Bytes) (f : Bytes → Main)
      → ((b : Bytes) → IsReady w (f b))
      → Ends w (o >>= λ b. done (f b))
  done-Ends (done b) f h = h b
  done-Ends fault f h = tt
  done-Ends out_of_fuel f h = tt

  choose-Ends :
      (s : Settings) (ps : Profiles) (p : Profile)
      → IsPort s
      → AllInRange ps
      → IsInRange p
      → Ends w (choose_profile w s ps p)
  unfolding choose_profile
  choose-Ends s [] p port all h = bundle-IsReady s [] port all p h
  choose-Ends s (q ∷ qs) p port all h = done-Ends _ _ (λ wifi_ap.
      profile-IsReady s (q ∷ qs) port all _ (change_profile-InRange (q ∷ qs) _ wifi_ap p all h))

  module _ (ps : Profiles) (p : Profile) (all : AllInRange ps) (h : IsInRange p) where
    ips-Ends : (o : Option Settings) → WhenLoaded o → Ends w (with_custom_ips w ps p o)
    unfolding with_custom_ips
    ips-Ends none l = refl
    ips-Ends (some s) l = choose-Ends s ps p l all h

    whitelist-Ends : (o : Option Settings) → WhenLoaded o → Ends w (with_whitelist w ps p o)
    unfolding with_whitelist
    whitelist-Ends none l = refl
    whitelist-Ends (some s) l = ips-Ends _ (
        if_cases WhenLoaded (is_empty s.custom_ips_path) (some s) _ (λ _. l)
          (λ _. ips-WhenLoaded w.custom_ips s l))

  options-Ends : (r : Result) → WhenParsed IsValid r → Ends w (with_options w r)
  unfolding with_options
  options-Ends invalid v = refl
  options-Ends autoconf v = refl
  options-Ends (parsed st) v = whitelist-Ends st.profiles st.global v.stored v.chosen _ (
      if_cases WhenLoaded (is_empty st.settings.whitelist_path) (some st.settings) _
        (λ _. (v.port_low, v.port_high))
        (λ _. whitelist-WhenLoaded w.whitelist st.settings (v.port_low, v.port_high)))

-- Whatever the options are and the system answers: where `main` begins to serve clients, the port is
-- one, the numbers of the current profile and of all others are within their bounds, and the CA bundle
-- has been loaded if the profile is over DoH; where it returns before, it has closed the server socket
-- if it had opened one; and `daemonize` ends the process with 0 only in the parent of a fork, and with
-- 2 only where `fork`, or `setsid` or `chdir` in the child, fails. (The reading of the name of the
-- access point may go out of bounds.)
pub main-Ends : (w : World) (args : List Parsed) → Ends w (main w args)
unfolding main
main-Ends w args = options-Ends w (parse_cmdline args) (parse_cmdline-IsValid args)
