-- ===== src/Dns/Trailing.antt =====
-- The address that the system's resolver leaves ends in a NUL.
use dpitunnel_cli.Prelude.{
  ℕ, zero, suc, ◌+◌, ◌-◌, ◌<◌, ◌≡◌, inl, inr, ◌∙◌, refl, sym, ap, subst, arith, false, Bool-cases,
  false≢true, List, [], ◌∷◌, ◌++◌, Option, some,
}
use dpitunnel_cli.Prelude.{Bytes, codes, length, drop, replicate, take-append, append_assoc}
use dpitunnel_cli.Settings.{Settings}
use dpitunnel_cli.Prelude.TextLaws.{Lacks, find_byte-append, Lacks-append}
use dpitunnel_cli.Utils.Whitelist.{load_whitelist, match_whitelist_ip}
use dpitunnel_cli.Utils.Whitelist.Laws.{Listed, load_whitelist_iff}
use dpitunnel_cli.Dns.System.{
  AddrInfo, inet, write_c_str, up_to, ip_of_buffer, first_inet, resolve_host_over_system,
}

drop-replicate : (k n a : ℕ) → drop k (replicate n a) ≡ replicate (n - k) a
drop-replicate zero n a = ap (λ m. replicate m a) (e n)
  where
    e : (n : ℕ) → n ≡ n - 0
    e n = omega arith
drop-replicate (suc k) zero a = ap (λ m. replicate m a) (e k)
  where
    e : (k : ℕ) → 0 ≡ 0 - suc k
    e k = omega arith
drop-replicate (suc k) (suc n) a = drop-replicate k n a ∙ ap (λ m. replicate m a) (e n k)
  where
    e : (n k : ℕ) → n - k ≡ suc n - suc k
    e n k = omega arith

-- The buffer behind the text and its NUL.
spaces-left :
    (text : Bytes)
    → length text < 49
    → drop (length text + 1) (replicate {A = ℕ} 50 b' ') ≡ b' ' ∷ replicate (48 - length text) b' '
spaces-left text h =
    drop-replicate (length text + 1) 50 b' ' ∙ ap (λ m. replicate m b' ') (e (length text) h)
  where
    e : (n : ℕ) → n < 49 → 50 - (n + 1) ≡ suc (48 - n)
    e n h = omega arith

Lacks-nul : (text : Bytes) → Lacks b' ' text → Lacks b' ' (text ++ 0 ∷ [])
Lacks-nul text l = Lacks-append b' ' text (0 ∷ []) l (refl, tt)

ip_of_buffer-nul :
    (text spaces : Bytes)
    → Lacks b' ' text
    → ip_of_buffer (text ++ 0 ∷ b' ' ∷ spaces) ≡ text ++ 0 ∷ []
unfolding ip_of_buffer up_to
ip_of_buffer-nul text spaces l =
    ap ip_of_buffer (sym (append_assoc text (0 ∷ []) (b' ' ∷ spaces)))
    ∙ rw (find_byte-append b' ' (text ++ 0 ∷ []) spaces (Lacks-nul text l))
        (take-append (text ++ 0 ∷ []) (b' ' ∷ spaces))

-- `resolve_host_over_system` leaves the text of the first IPv4 address with a NUL behind it.
pub resolve_host_over_system_lem :
    (text : Bytes) (rest : List AddrInfo)
    → length text < 49
    → Lacks b' ' text
    → resolve_host_over_system (some (inet text ∷ rest)) [] ≡ some (text ++ 0 ∷ [])
unfolding resolve_host_over_system first_inet write_c_str ip_of_buffer up_to
resolve_host_over_system_lem text rest h l =
    ap (λ left. some (ip_of_buffer (text ++ 0 ∷ left))) (spaces-left text h)
    ∙ ap some (ip_of_buffer-nul text (replicate (48 - length text) b' ') l)

not-Lacks-end : (c : ℕ) (text : Bytes) → Lacks c (text ++ c ∷ []) → ⊥
not-Lacks-end c [] (e, l) = ground arith
not-Lacks-end c (d ∷ text) (e, l) = not-Lacks-end c text l

Lacks-behind : (p r : Bytes) → Lacks 0 (p ++ r) → Lacks 0 r
Lacks-behind [] r l = l
Lacks-behind (c ∷ p) r (e, l) = Lacks-behind p r l

-- The value of a line without NULs has none.
line-Lacks : (line kind value : Bytes) → Lacks 0 line → line ≡ kind ++ b' ' ∷ value → Lacks 0 value
line-Lacks line kind value l e = (Lacks-behind kind (b' ' ∷ value) (subst (Lacks 0) e l)).1

-- No line has a NUL.
abbrev pub AreTexts : List Bytes → Type 0
AreTexts [] = Unit
AreTexts (line ∷ lines) = Lacks 0 line × AreTexts lines

Listed-Lacks :
    (kind value : Bytes) (lines : List Bytes)
    → AreTexts lines
    → Listed kind value lines
    → Lacks 0 value
Listed-Lacks kind value [] a (h) = absurd h
Listed-Lacks kind value (line ∷ lines) (l, a) (inl e) = line-Lacks line kind value l e
Listed-Lacks kind value (line ∷ lines) (l, a) (inr h) = Listed-Lacks kind value lines a h

some_eq : {a b : Bytes} → ◌≡◌ {A = Option Bytes} (some a) (some b) → a ≡ b
some_eq e = cc

-- So a whitelist that is read from a file without NULs matches no address that the system's resolver
-- has found, whatever the file lists.
pub match_whitelist_ip-system :
    (lines : List Bytes) (s t : Settings) (text : Bytes) (rest : List AddrInfo) (ip : Bytes)
    → AreTexts lines
    → load_whitelist (some lines) s ≡ some t
    → length text < 49
    → Lacks b' ' text
    → match_whitelist_ip s (text ++ 0 ∷ []) ≡ false
    → resolve_host_over_system (some (inet text ∷ rest)) [] ≡ some ip
    → match_whitelist_ip t ip ≡ false
match_whitelist_ip-system lines s t text rest ip a r h l none_before e =
    let found : text ++ 0 ∷ [] ≡ ip =
      some_eq (sym (resolve_host_over_system_lem text rest h l) ∙ e) in
    elim (Bool-cases (match_whitelist_ip t (text ++ 0 ∷ []))) [
      | inr miss ↦ subst (λ q. match_whitelist_ip t q ≡ false) found miss
      | inl hit ↦ absurd (elim ((((load_whitelist_iff lines s t (text ++ 0 ∷ []) r).1).0) hit) [
        | inl listed ↦
            not-Lacks-end 0 text (Listed-Lacks (codes "ip") (text ++ 0 ∷ []) lines a listed)
        | inr before ↦ false≢true (sym none_before ∙ before)
      ])
    ]
