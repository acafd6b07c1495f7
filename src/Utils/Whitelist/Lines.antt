-- ===== src/Utils/Whitelist/Lines.antt =====
-- How a line of the whitelist or of the custom IPs is read.
use dpitunnel_cli.Prelude.{
  ◌≡◌, ◌≢◌, ◌∙◌, sym, subst, inl, inr, refl, ap, arith, ◌+◌, ◌++◌, suc, length, drop, take-append,
  find_byte,
}
use dpitunnel_cli.Prelude.{◌∷◌, Option, none, some, Bytes}
use dpitunnel_cli.Prelude.TextLaws.{Lacks, find_byte-append, find_byte-split, drop_behind}
use dpitunnel_cli.Utils.Whitelist.{entry_of}
use dpitunnel_cli.Utils.Whitelist.{}

module _ (k v : Bytes) (free : Lacks b' ' k) where
  -- A line is read as what stands before its first space and what stands behind it.
  pub entry_of-line : entry_of (k ++ b' ' ∷ v) ≡ some (k, v)
  unfolding entry_of
  entry_of-line =
      let next : length k + 1 ≡ suc (length k) = omega arith in
      let behind : drop (length k + 1) (k ++ b' ' ∷ v) ≡ v =
        ap (λ n. drop n (k ++ b' ' ∷ v)) next ∙ drop_behind k b' ' v in
      rw (find_byte-append b' ' k v free, entry_of, behind, take-append k (b' ' ∷ v)) refl

entry_of-none : (line : Bytes) → find_byte b' ' line ≡ none → entry_of line ≡ none
unfolding entry_of
entry_of-none line e = rw (e, entry_of) refl

some_eq : (p q : Bytes × Bytes) → ◌≡◌ {A = Option (Bytes × Bytes)} (some p) (some q) → p ≡ q
some_eq p q e = cc

pub none≢some : (p : Bytes × Bytes) → none ≢ some p
none≢some p e = cc

pub entry_of→ :
    (line k v : Bytes) → entry_of line ≡ some (k, v) → (line ≡ k ++ b' ' ∷ v) × Lacks b' ' k
entry_of→ line k v e = elim (find_byte-split b' ' line) [
  | inl absent ↦ absurd (none≢some (k, v) (sym (entry_of-none line absent) ∙ e))
  | inr (k', v', q, free) ↦
      let same : some (k', v') ≡ some (k, v) =
        sym (entry_of-line k' v' free) ∙ (ap entry_of (sym q) ∙ e) in
      let pair = some_eq (k', v') (k, v) same in
      (
        q ∙ ap (λ (p : Bytes × Bytes). p.0 ++ b' ' ∷ p.1) pair,
        subst (λ (p : Bytes × Bytes). Lacks b' ' p.0) pair free,
      )
]
