-- ===== src/Dns/Listed.antt =====
-- `resolve_host` with a file of custom IPs.
use dpitunnel_cli.Prelude.{
  ℕ, ◌≡◌, ◌⊎◌, inl, inr, ◌∙◌, refl, arith, false, List, [], ◌∷◌, Option, none, some, Bytes, c_str,
  is_empty, map_find,
}
use dpitunnel_cli.Prelude.Outcome.{done}
use dpitunnel_cli.Settings.{Profile, Settings}
use dpitunnel_cli.Utils.Whitelist.{entry_of, load_custom_ips, find_custom_ip}
use dpitunnel_cli.Utils.Whitelist.Firsts.{or_else, listed_for, first_listed, map_find-load}
use dpitunnel_cli.Dns.Doh.{address}
use dpitunnel_cli.Dns.Resolve.{DnsWorld, resolve_host}

-- An address of the file is not empty.
listed_for-not_empty :
    (d : Bytes) (o : Option (Bytes × Bytes)) (ip : Bytes)
    → listed_for d o ≡ some ip
    → is_empty ip ≡ false
listed_for-not_empty d none ip e = cc
listed_for-not_empty d (some (k, v)) ip e = ground arith

or_else-some :
    (o r : Option Bytes) (ip : Bytes) → or_else o r ≡ some ip → (o ≡ some ip) ⊎ (r ≡ some ip)
or_else-some none r ip e = inr e
or_else-some (some v) r ip e = inl e

first_listed-not_empty :
    (d : Bytes) (lines : List Bytes) (ip : Bytes)
    → first_listed d lines ≡ some ip
    → is_empty ip ≡ false
first_listed-not_empty d [] ip e = cc
first_listed-not_empty d (line ∷ lines) ip e =
    elim (or_else-some (listed_for d (entry_of line)) (first_listed d lines) ip e) [
      | inl here ↦ listed_for-not_empty d (entry_of line) ip here
      | inr later ↦ first_listed-not_empty d lines ip later
    ]

find_custom_ip-some :
    (s : Settings) (d ip : Bytes) → map_find d s.custom_ips ≡ some ip → find_custom_ip s d ≡ ip
unfolding find_custom_ip
find_custom_ip-some s d ip e = rw (find_custom_ip, e) refl

-- After a file of custom IPs has been read, a host that is no address itself and had no entry before
-- resolves to the address of its first complete line, and no resolver is asked.
pub resolve_host-listed :
    (w : DnsWorld) (s t : Settings) (p : Profile) (lines : List Bytes) (c : ℕ) (host ip : Bytes)
    → load_custom_ips (some lines) s ≡ some t
    → map_find (c ∷ host) s.custom_ips ≡ none
    → w.is_ipv4 (c_str (c ∷ host)) ≡ false
    → first_listed (c ∷ host) lines ≡ some ip
    → resolve_host w t p (c ∷ host) ≡ done (address ip)
unfolding resolve_host is_empty
resolve_host-listed w s t p lines c host ip r n a f =
    let found : map_find (c ∷ host) t.custom_ips ≡ some ip =
      map_find-load lines s t (c ∷ host) r ∙ rw (n, f) refl in
    rw (a, find_custom_ip-some t (c ∷ host) ip found, first_listed-not_empty (c ∷ host) lines ip f)
      refl
