-- ===== src/Netiface/Name.antt =====
-- The name that a scan gives.
use dpitunnel_cli.Prelude.{
  ℕ, ◌^◌, ◌<◌, ◌≡◌, refl, ap, true, not, List, [], ◌∷◌, Option, none, some, Bytes, length, if_cases,
  subst, not-false, ◌⊎◌, inl, inr, ◌==◌,
}
use dpitunnel_cli.Prelude.Outcome.{Outcome, done, fault, out_of_fuel, ◌>>=◌}
use dpitunnel_cli.Netiface.Ssid.{encode, ssid_of, Finds, find_ssid, find_ssid-Finds}
use dpitunnel_cli.Netiface.{
  Scan, associated, store_ssid, with_elements, with_status, get_scan_callback, valid, dump_end,
  Netlink, Scanned, scan_results, init_nl80211, get_current_wifi_name_netlink,
}

-- A result for an access point with these elements; the interface is associated with it or not.
abbrev pub scan_of : ℕ → List (ℕ × Bytes) → Scan
scan_of status es = record {
  has_bss = true;
  parses = true;
  status = some status;
  elements = some (encode es);
}

store-Finds :
    (ssid : Bytes) (c : ℕ) (s : Bytes) (o : Outcome (Option Bytes))
    → Finds (c ∷ s) o
    → (o >>= λ found. done (store_ssid ssid found)) ≡ done (c ∷ s)
unfolding store_ssid
store-Finds ssid c s fault h = absurd h
store-Finds ssid c s out_of_fuel h = absurd h
store-Finds ssid c s (done none) h = cc
store-Finds ssid c s (done (some [])) h = cc
store-Finds ssid c s (done (some (d ∷ t))) h = ap (λ x. done x) h

-- The results of other access points are passed over, and the one that is associated gives its name.
pub scan_results_lem :
    (c : ℕ) (s ssid : Bytes) (es : List (ℕ × Bytes))
    → length (encode es) < 2 ^ 32
    → ssid_of es ≡ c ∷ s
    → scan_results (valid (scan_of associated es) ∷ valid (scan_of 0 es) ∷ dump_end ∷ []) ssid
      ≡ done (c ∷ s)
unfolding scan_results get_scan_callback with_status with_elements
scan_results_lem c s ssid es h e =
    rw
      (store-Finds ssid c s (find_ssid (encode es))
        (subst (λ x. Finds x (find_ssid (encode es))) e (find_ssid-Finds [] es h).1))
      refl

-- What is still held at the end: nothing after a failure, and else the socket and the callback.
abbrev pub Holds : Netlink → Outcome Scanned → Type 0
Holds n fault = Unit
Holds n out_of_fuel = Unit
Holds n (done r) =
    (r.messages ≡ 0) × (r.sockets ≡ r.callbacks) × ((r.sockets ≡ 0) ⊎ (init_nl80211 n ≡ true))

name-Holds :
    (n : Netlink) (o : Outcome Bytes)
    → init_nl80211 n ≡ true
    → Holds n
        (o >>= λ ssid. done (record { ssid = ssid; sockets = 1; callbacks = 1; messages = 0 }))
name-Holds n (done ssid) e = (refl, refl, inr e)
name-Holds n fault e = tt
name-Holds n out_of_fuel e = tt

-- Where `get_current_wifi_name_netlink` returns, the message has been freed, and the socket and the
-- callback are held both or neither; they are held only where libnl could be set up.
pub get_current_wifi_name_netlink-Holds : (n : Netlink) → Holds n (get_current_wifi_name_netlink n)
unfolding get_current_wifi_name_netlink
get_current_wifi_name_netlink-Holds n =
    if_cases (Holds n) (not (init_nl80211 n)) _ _ (λ _. (refl, refl, inl refl))
      (λ e.
        if_cases (Holds n) (not n.msg_ok) _ _ (λ _. (refl, refl, inl refl))
          (λ _.
            if_cases (Holds n) (n.ifindex == 0) _ _ (λ _. (refl, refl, inl refl))
              (λ _. name-Holds n (scan_results n.replies []) (not-false e))))
