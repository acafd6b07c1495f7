-- ===== src/Profiles/Laws.antt =====
-- The map of profiles and the choice of one.
use dpitunnel_cli.Prelude.{
  ◌≡◌, ◌⊎◌, inl, inr, refl, sym, ap, arith, true, false, Bool-cases, [], ◌∷◌, Option, none, some,
}
use dpitunnel_cli.Prelude.{Bytes, c_str, bytes_eq, if◌then◌else◌}
use dpitunnel_cli.Prelude.TextLaws.{bytes_eq_iff}
use dpitunnel_cli.Settings.{Profile}
use dpitunnel_cli.Utils.Wildcard.{wildcard_match}
use dpitunnel_cli.Profiles.{Profiles, add_profile, find_profile, find_match, connection_name}
use dpitunnel_cli.Profiles.{default_name, choose, change_profile}

-- A key that is added is found with its new profile, and every other key as before.
pub find_profile-add :
    (name key : Bytes) (profile : Profile) (m : Profiles)
    → find_profile key (add_profile name profile m)
      ≡ (if bytes_eq name key then some profile else find_profile key m)
unfolding find_profile add_profile
find_profile-add name key profile [] = refl
find_profile-add name key profile ((k, p) ∷ m) = ground (
  arith,
  bytes_eq_iff name key,
  bytes_eq_iff k key,
  bytes_eq_iff name k,
  find_profile-add name key profile m,
)

-- No key matches the connection.
abbrev pub NoMatch : Bytes → Profiles → Type 0
NoMatch name [] = Unit
NoMatch name ((key, p) ∷ m) = (wildcard_match (c_str key) (c_str name) ≡ false) × NoMatch name m

-- The first key that matches the connection is `k`, with the profile `q`.
abbrev pub FirstMatch : Bytes → Profiles → Bytes → Profile → Type 0
FirstMatch name [] k q = ⊥
FirstMatch name ((key, p) ∷ m) k q =
    ((wildcard_match (c_str key) (c_str name) ≡ true) × (key ≡ k) × (p ≡ q))
    ⊎ ((wildcard_match (c_str key) (c_str name) ≡ false) × FirstMatch name m k q)

key_of : Option (Bytes × Profile) → Bytes → Bytes
key_of none k = k
key_of (some (k, p)) d = k

profile_of : Option (Bytes × Profile) → Profile → Profile
profile_of none p = p
profile_of (some (k, p)) d = p

none-ne-some : {p : Bytes × Profile} → ◌≡◌ {A = Option (Bytes × Profile)} none (some p) → ⊥
none-ne-some e = cc

find_match-FirstMatch :
    (name : Bytes) (m : Profiles) (k : Bytes) (q : Profile)
    → find_match name m ≡ some (k, q)
    → FirstMatch name m k q
unfolding find_match key_of profile_of
find_match-FirstMatch name [] k q e = cc
find_match-FirstMatch name ((key, p) ∷ m) k q e =
    elim (Bool-cases (wildcard_match (c_str key) (c_str name))) [
      | inl here ↦
          inl (here, ap (λ o. key_of o key) (rw here at e), ap (λ o. profile_of o p) (rw here at e))
      | inr next ↦ inr (next, find_match-FirstMatch name m k q (rw next at e))
    ]

find_match-NoMatch : (name : Bytes) (m : Profiles) → find_match name m ≡ none → NoMatch name m
unfolding find_match
find_match-NoMatch name [] e = tt
find_match-NoMatch name ((key, p) ∷ m) e =
    elim (Bool-cases (wildcard_match (c_str key) (c_str name))) [
      | inl here ↦ absurd (none-ne-some (sym (rw here at e)))
      | inr next ↦ (next, find_match-NoMatch name m (rw next at e))
    ]

-- What `change_profile` answers: nothing is chosen only where there is no profile; else the first
-- key that matches, or the default where none does; or it fails, where there is no default either.
abbrev pub Chosen : Profiles → Bytes → Profile → Option (Option Bytes × Profile) → Type 0
Chosen m name current none = NoMatch name m × (find_profile default_name m ≡ none)
Chosen m name current (some (none, q)) = (m ≡ []) × (q ≡ current)
Chosen m name current (some (some k, q)) =
    FirstMatch name m k q
    ⊎ (NoMatch name m × (k ≡ default_name) × (find_profile default_name m ≡ some q))

choose-Chosen :
    (m : Profiles) (name : Bytes) (current : Profile) (o : Option (Bytes × Profile))
    (fallback : Option Profile)
    → find_match name m ≡ o
    → find_profile default_name m ≡ fallback
    → Chosen m name current (choose o fallback)
unfolding choose
choose-Chosen m name current (some (k, q)) fallback e f = inl (find_match-FirstMatch name m k q e)
choose-Chosen m name current none (some q) e f = inr (find_match-NoMatch name m e, refl, f)
choose-Chosen m name current none none e f = (find_match-NoMatch name m e, f)

-- `change_profile` takes the first key of the map that matches the connection, in the order of the
-- keys; where none matches, the profile `default`; it fails where that is missing too, and leaves
-- the current profile only where there are no profiles.
pub change_profile-Chosen :
    (m : Profiles) (iface wifi_ap : Bytes) (current : Profile)
    → Chosen m (connection_name iface wifi_ap) current (change_profile m iface wifi_ap current)
unfolding change_profile
change_profile-Chosen [] iface wifi_ap current = (refl, refl)
change_profile-Chosen (p ∷ ps) iface wifi_ap current =
    choose-Chosen (p ∷ ps) (connection_name iface wifi_ap) current _ _ refl refl
