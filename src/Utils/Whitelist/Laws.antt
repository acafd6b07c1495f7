-- ===== src/Utils/Whitelist/Laws.antt =====
-- What is listed after the files have been read.
use dpitunnel_cli.Prelude.{
  ◌≡◌, ◌≢◌, ◌∙◌, sym, ◌↔◌, ◌⊎◌, inl, inr, refl, ap, arith, Bool, true, false, ◌++◌,
}
use dpitunnel_cli.Prelude.{
  List, [], ◌∷◌, Option, none, some, Bytes, codes, is_empty, map_find, Option-cases,
}
use dpitunnel_cli.Prelude.TextLaws.{bytes_eq_iff, bytes_eq_self, contains-set_insert, Lacks}
use dpitunnel_cli.Settings.{Settings}
use dpitunnel_cli.Utils.Whitelist.{entry_of, add_entry, add_found, add_lines, load_whitelist}
use dpitunnel_cli.Utils.Whitelist.{match_whitelist_domain, match_whitelist_ip}
use dpitunnel_cli.Utils.Whitelist.{load_custom_ips}
use dpitunnel_cli.Utils.Whitelist.Lines.{entry_of-line, entry_of→}
use dpitunnel_cli.Utils.Whitelist.Firsts.{or_else, listed_for, first_listed, map_find-load}

-- Some line of the file reads `kind`, a space, `value`.
abbrev pub Listed : Bytes → Bytes → List Bytes → Type 0
Listed kind value [] = ⊥
Listed kind value (line ∷ lines) = (line ≡ kind ++ b' ' ∷ value) ⊎ Listed kind value lines

add_entry-domain :
    (k v d : Bytes) (s : Settings)
    → (match_whitelist_domain (add_entry (k, v) s) d ≡ true)
      ↔ (((k ≡ codes "domain") × (v ≡ d)) ⊎ (match_whitelist_domain s d ≡ true))
unfolding add_entry match_whitelist_domain
add_entry-domain k v d s = ground (
  arith,
  bytes_eq_iff k (codes "ip"),
  bytes_eq_iff k (codes "domain"),
  contains-set_insert s.whitelist_domains v d,
)

add_entry-ip :
    (k v d : Bytes) (s : Settings)
    → (match_whitelist_ip (add_entry (k, v) s) d ≡ true)
      ↔ (((k ≡ codes "ip") × (v ≡ d)) ⊎ (match_whitelist_ip s d ≡ true))
unfolding add_entry match_whitelist_ip
add_entry-ip k v d s = ground (
  arith,
  bytes_eq_iff k (codes "ip"),
  bytes_eq_iff k (codes "domain"),
  contains-set_insert s.whitelist_ips v d,
)

-- One test of the settings whose hits a line of one kind adds to.
module _ (kind : Bytes) (free : Lacks b' ' kind) (test : Settings → Bytes → Bool)
    (adds : (k v d : Bytes) (s : Settings)
      → (test (add_entry (k, v) s) d ≡ true) ↔ (((k ≡ kind) × (v ≡ d)) ⊎ (test s d ≡ true))) where
  add_found_iff :
      (o : Option (Bytes × Bytes)) (s : Settings) (d : Bytes)
      → (test (add_found o s) d ≡ true) ↔ ((o ≡ some (kind, d)) ⊎ (test s d ≡ true))
  unfolding add_found
  add_found_iff none s d = (inr, λ h. elim h [ inl e ↦ cc | inr e ↦ e ])
  add_found_iff (some (k, v)) s d = ground (arith, adds k v d s)

  add_lines_iff :
      (lines : List Bytes) (s : Settings) (d : Bytes)
      → (test (add_lines lines s) d ≡ true) ↔ (Listed kind d lines ⊎ (test s d ≡ true))
  unfolding add_lines
  add_lines_iff [] s d = (inr, λ h. elim h [ inl e ↦ absurd e | inr e ↦ e ])
  add_lines_iff (line ∷ lines) s d =
      let later = add_lines_iff lines (add_found (entry_of line) s) d in
      let now = add_found_iff (entry_of line) s d in
      let reads : line ≡ kind ++ b' ' ∷ d → entry_of line ≡ some (kind, d) =
        λ q. ap entry_of q ∙ entry_of-line kind d free in
      (
        λ h. elim (later.0 h) [
          | inl below ↦ inl (inr below)
          | inr here ↦ elim (now.0 here) [
            | inl e ↦ inl (inl ((entry_of→ line kind d e).0))
            | inr e ↦ inr e
          ]
        ],
        λ h. elim h [
          | inl (inl e) ↦ later.1 (inr (now.1 (inl (reads e))))
          | inl (inr below) ↦ later.1 (inl below)
          | inr e ↦ later.1 (inr (now.1 (inr e)))
        ],
      )

domain-free : Lacks b' ' (codes "domain")
domain-free = (refl, (refl, (refl, (refl, (refl, (refl, tt))))))

ip-free : Lacks b' ' (codes "ip")
ip-free = (refl, (refl, tt))

-- After a whitelist has been read, the domains that match are those of a line that reads
-- `domain`, one space and the name, and those that matched before; and the addresses likewise those
-- of a line that reads `ip`, one space and the address.
pub load_whitelist_iff :
    (lines : List Bytes) (s t : Settings) (d : Bytes)
    → load_whitelist (some lines) s ≡ some t
    → ((match_whitelist_domain t d ≡ true)
        ↔ (Listed (codes "domain") d lines ⊎ (match_whitelist_domain s d ≡ true)))
      × ((match_whitelist_ip t d ≡ true)
          ↔ (Listed (codes "ip") d lines ⊎ (match_whitelist_ip s d ≡ true)))
unfolding load_whitelist
load_whitelist_iff lines s t d e =
    let r : add_lines lines s ≡ t = cc in
    (
      rw (← r) (
          add_lines_iff (codes "domain") domain-free match_whitelist_domain add_entry-domain lines s
            d),
      rw (← r) (add_lines_iff (codes "ip") ip-free match_whitelist_ip add_entry-ip lines s d),
    )

-- The line reads the domain, a space and the address, neither of which is empty.
abbrev pub Assigns : Bytes → Bytes → Bytes → Type 0
Assigns d v line = (line ≡ d ++ b' ' ∷ v) × Lacks b' ' d × (d ≢ []) × (v ≢ [])

-- The address of the first line that has one for the domain, if there is such a line.
abbrev pub FirstAssigned : Bytes → List Bytes → Option Bytes → Type 0
FirstAssigned d [] o = o ≡ none
FirstAssigned d (line ∷ lines) o =
    ((v : Bytes) × Assigns d v line × (o ≡ some v))
    ⊎ (¬ ((v : Bytes) × Assigns d v line) × FirstAssigned d lines o)

is_empty-no : (s : Bytes) → s ≢ [] → is_empty s ≡ false
unfolding is_empty
is_empty-no [] n = absurd (n refl)
is_empty-no (c ∷ s) n = refl

no-is_empty : (s : Bytes) → is_empty s ≡ false → s ≢ []
unfolding is_empty
no-is_empty [] e = cc
no-is_empty (c ∷ s) e = λ q. cc

listed_for-line : (d v line : Bytes) → Assigns d v line → listed_for d (entry_of line) ≡ some v
listed_for-line d v line (q, free, some_d, some_v) =
    ap (λ l. listed_for d (entry_of l)) q
    ∙ (ap (listed_for d) (entry_of-line d v free)
        ∙ rw (bytes_eq_self d, is_empty-no d some_d, is_empty-no v some_v) refl)

listed_for→ :
    (d v : Bytes) (o : Option (Bytes × Bytes))
    → listed_for d o ≡ some v
    → (o ≡ some (d, v)) × (is_empty d ≡ false) × (is_empty v ≡ false)
listed_for→ d v none e = cc
listed_for→ d v (some (k, u)) e = ground (arith, bytes_eq_iff k d)

first_listed-FirstAssigned :
    (d : Bytes) (lines : List Bytes) → FirstAssigned d lines (first_listed d lines)
first_listed-FirstAssigned d [] = refl
first_listed-FirstAssigned d (line ∷ lines) = elim (Option-cases (listed_for d (entry_of line))) [
  | inl e ↦ inr (
    (λ h. let q : none ≡ some h.0 = sym e ∙ listed_for-line d h.0 line h.1 in cc),
    rw e (first_listed-FirstAssigned d lines),
  )
  | inr (v, e) ↦
      let f = listed_for→ d v (entry_of line) e in
      let r = entry_of→ line d v f.0 in
      inl (v, (r.0, r.1, no-is_empty d f.1, no-is_empty v f.2), rw e refl)
]

-- An older address stays; without one the first line decides.
abbrev pub IsFound : Bytes → Option Bytes → List Bytes → Option Bytes → Type 0
IsFound d (some old) lines o = o ≡ some old
IsFound d none lines o = FirstAssigned d lines o

or_else-IsFound :
    (d : Bytes) (lines : List Bytes) (old : Option Bytes)
    → IsFound d old lines (or_else old (first_listed d lines))
or_else-IsFound d lines none = first_listed-FirstAssigned d lines
or_else-IsFound d lines (some v) = refl

-- The address of a domain after the file has been read: an older one stays; else it is that of the
-- first line that reads the domain, one space and an address, neither of them empty and the domain
-- without a space; and there is none where no line does.
pub load_custom_ips_lem :
    (lines : List Bytes) (s t : Settings) (d : Bytes)
    → load_custom_ips (some lines) s ≡ some t
    → IsFound d (map_find d s.custom_ips) lines (map_find d t.custom_ips)
load_custom_ips_lem lines s t d e =
    rw (map_find-load lines s t d e) (or_else-IsFound d lines (map_find d s.custom_ips))
