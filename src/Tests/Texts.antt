-- ===== src/Tests/Texts.antt =====
-- Patterns and base64.
use dpitunnel_cli.Prelude.{◌≡◌, refl, arith, true, codes}
use dpitunnel_cli.Utils.Wildcard.{wildcard_match}
use dpitunnel_cli.Utils.Wildcard.Laws.{Matches, wildcard_match-Matches, Matches-wildcard_match}
use dpitunnel_cli.Base64.{base64_encode, encode_from, symbol, base64_decode}
use dpitunnel_cli.Base64.RoundTrip.{decode-encode}

wlan_matches : wildcard_match (codes "wlan*:a?") (codes "wlan0:ab") ≡ true
unfolding wildcard_match
wlan_matches = refl

wildcard_match-Matches_example : Matches (codes "wlan*:a?") (codes "wlan0:ab")
wildcard_match-Matches_example =
    wildcard_match-Matches (codes "wlan*:a?") (codes "wlan0:ab") wlan_matches

Matches-wildcard_match_example : wildcard_match (codes "wlan*:a?") (codes "wlan0:ab") ≡ true
Matches-wildcard_match_example =
    Matches-wildcard_match
      (wildcard_match-Matches (codes "wlan*:a?") (codes "wlan0:ab") wlan_matches) refl

base64_encode_any : base64_encode (codes "any carnal") ≡ codes "YW55IGNhcm5hbA"
unfolding base64_encode encode_from symbol
base64_encode_any = refl

decode-encode_example : base64_decode (base64_encode (codes "any")) ≡ codes "any"
decode-encode_example = decode-encode (codes "any") (omega arith, (omega arith, (omega arith, tt)))
