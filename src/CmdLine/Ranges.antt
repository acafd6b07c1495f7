-- ===== src/CmdLine/Ranges.antt =====
-- The numbers of a profile and their ranges, and the options that set a number.
use dpitunnel_cli.Prelude.{
  ℕ, ◌≤◌, ◌≡◌, refl, arith, ℤ, pos, negsuc, ◌≤ℤ◌, Bool, true, false, [], ◌∷◌,
}
use dpitunnel_cli.Settings.{Profile, Settings, default_profile}
use dpitunnel_cli.Profiles.{Profiles}
use dpitunnel_cli.CmdLine.{State, Result, parsed, invalid, autoconf, unless}
use dpitunnel_cli.CmdLine.{outside, outside_ℤ, set_port, set_buffer_size}
use dpitunnel_cli.CmdLine.{
  set_split_position, set_ttl, set_wsize, set_wsfactor, set_dns_port, set_min_ttl,
}

-- The numbers that the rest of the program relies on: a buffer that holds a header, time-to-live
-- values of a byte, a window scale that TCP knows (or -1, unset), ports.
abbrev pub IsInRange : Profile → Type 0
IsInRange r =
    ((128 ≤ r.buffer_size) × (r.buffer_size ≤ 65535))
    × (r.split_position ≤ 65535)
    × (r.fake_packets_ttl ≤ 255)
    × (r.min_ttl ≤ 255)
    × (r.window_size ≤ 65535)
    × ((negsuc 0 ≤ℤ r.window_scale_factor) × (r.window_scale_factor ≤ℤ pos 14))
    × ((pos 1 ≤ℤ r.builtin_dns_port) × (r.builtin_dns_port ≤ℤ pos 65535))

abbrev pub AllInRange : Profiles → Type 0
AllInRange [] = Unit
AllInRange ((k, r) ∷ m) = IsInRange r × AllInRange m

pub record IsValid (s : State) : Type 0 where
  pub port_low : pos 1 ≤ℤ s.settings.server_port
  pub port_high : s.settings.server_port ≤ℤ pos 65535
  pub stored : AllInRange (s.profiles)
  pub active : IsInRange (s.current)
  pub chosen : IsInRange (s.global)

-- What holds of a result that is parsed.
abbrev pub WhenParsed : (State → Type 0) → Result → Type 0
WhenParsed P (parsed s) = P s
WhenParsed P invalid = Unit
WhenParsed P autoconf = Unit

pub default-IsInRange : IsInRange default_profile
default-IsInRange = ground arith

unless-parsed : (b : Bool) (s : State) → (b ≡ false → IsValid s) → WhenParsed IsValid (unless b s)
unfolding unless
unless-parsed true s h = tt
unless-parsed false s h = h refl

-- The state with another current profile.
pub with_current :
    {s : State} → IsValid s → (r : Profile) → IsInRange r → IsValid (record s { current = r })
with_current v r h = record {
  port_low = v.port_low;
  port_high = v.port_high;
  stored = v.stored;
  active = h;
  chosen = v.chosen;
}

pub set_buffer_size-IsValid :
    (n : ℕ) (s : State) → IsValid s → WhenParsed IsValid (set_buffer_size n s)
unfolding set_buffer_size outside
set_buffer_size-IsValid n s v =
    let h = v.active in unless-parsed _ _ (λ e. with_current v _ (ground arith))

pub set_wsfactor-IsValid : (n : ℤ) (s : State) → IsValid s → WhenParsed IsValid (set_wsfactor n s)
unfolding set_wsfactor outside_ℤ
set_wsfactor-IsValid n s v =
    let h = v.active in unless-parsed _ _ (λ e. with_current v _ (ground arith))

pub set_split_position-IsValid :
    (n : ℕ) (s : State) → IsValid s → WhenParsed IsValid (set_split_position n s)
unfolding set_split_position
set_split_position-IsValid n s v =
    let h = v.active in unless-parsed _ _ (λ e. with_current v _ (ground arith))

pub set_ttl-IsValid : (n : ℕ) (s : State) → IsValid s → WhenParsed IsValid (set_ttl n s)
unfolding set_ttl outside
set_ttl-IsValid n s v = let h = v.active in unless-parsed _ _ (λ e. with_current v _ (ground arith))

pub set_wsize-IsValid : (n : ℕ) (s : State) → IsValid s → WhenParsed IsValid (set_wsize n s)
unfolding set_wsize outside
set_wsize-IsValid n s v =
    let h = v.active in unless-parsed _ _ (λ e. with_current v _ (ground arith))

pub set_min_ttl-IsValid : (n : ℕ) (s : State) → IsValid s → WhenParsed IsValid (set_min_ttl n s)
unfolding set_min_ttl outside
set_min_ttl-IsValid n s v =
    let h = v.active in unless-parsed _ _ (λ e. with_current v _ (ground arith))

pub set_dns_port-IsValid : (n : ℤ) (s : State) → IsValid s → WhenParsed IsValid (set_dns_port n s)
unfolding set_dns_port outside_ℤ
set_dns_port-IsValid n s v =
    let h = v.active in unless-parsed _ _ (λ e. with_current v _ (ground arith))

pub set_port-IsValid : (n : ℤ) (s : State) → IsValid s → WhenParsed IsValid (set_port n s)
unfolding set_port outside_ℤ
set_port-IsValid n s v = unless-parsed _ _ (λ e. record {
  port_low = ground arith;
  port_high = ground arith;
  stored = v.stored;
  active = v.active;
  chosen = v.chosen;
})

pub with_settings :
    {s : State}
    → IsValid s
    → (t : Settings) → t.server_port ≡ s.settings.server_port
    → IsValid (record s { settings = t })
with_settings v t e = record {
  port_low = rw e v.port_low;
  port_high = rw e v.port_high;
  stored = v.stored;
  active = v.active;
  chosen = v.chosen;
}
