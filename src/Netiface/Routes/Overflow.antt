-- ===== src/Netiface/Routes/Overflow.antt =====
-- Where the pointer of `route_monitor_thread` leads.
use dpitunnel_cli.Prelude.{
  ℕ, zero, suc, ◌+◌, ◌-◌, ◌%◌, ◌≤◌, ◌<◌, ◌≡◌, ◌≢◌, ◌∙◌, refl, sym, arith, true, false, List, [],
  ◌∷◌, ◌++◌, map, Bytes, take, drop, length, get_or, leb, ltb, Bool-cases, inl, inr, if_cases,
  le→not-ltb, lt→ltb, length-append, length-drop, ◌==◌,
}
use dpitunnel_cli.Prelude.TextLaws.{drop-length}
use dpitunnel_cli.Prelude.Outcome.{done, fault, Returns}
use dpitunnel_cli.Settings.{Profile}
use dpitunnel_cli.Capture.{received}
use dpitunnel_cli.Netiface.Routes.{
  le16, le32, align, Names, on_route, on_message, messages, polls, receive, route_loop,
}

-- A datagram of one whole message whose length is a multiple of 4.
abbrev pub IsSingle : Bytes → Type 0
IsSingle d =
    (28 ≤ length d)
    × (length d ≤ 8192)
    × (length d % 4 ≡ 0)
    × (le32 d 0 ≡ length d)
    × (le16 d 4 ≢ 3)

abbrev pub AllSingle : List Bytes → Type 0
AllSingle [] = Unit
AllSingle (d ∷ ds) = IsSingle d × AllSingle ds

abbrev pub total : List Bytes → ℕ
total [] = 0
total (d ∷ ds) = length d + total ds

get_or-append : (s t : Bytes) (i : ℕ) → i < length s → get_or (s ++ t) i 0 ≡ get_or s i 0
get_or-append [] t i h = absurd (omega arith)
get_or-append (c ∷ s) t zero h = ground arith
get_or-append (c ∷ s) t (suc i) h = ground (arith, get_or-append s t i (omega arith))

le16-append : (s t : Bytes) (i : ℕ) → i + 1 < length s → le16 (s ++ t) i ≡ le16 s i
unfolding le16
le16-append s t i h = rw (get_or-append s t i (omega arith), get_or-append s t (i + 1) h) refl

le32-append : (s t : Bytes) (i : ℕ) → i + 3 < length s → le32 (s ++ t) i ≡ le32 s i
unfolding le32
le32-append s t i h =
    rw (le16-append s t i (omega arith), le16-append s t (i + 2) (omega arith)) refl

take-all : (b : Bytes) (n : ℕ) → length b ≤ n → take n b ≡ b
take-all [] zero h = refl
take-all [] (suc n) h = refl
take-all (c ∷ b) zero h = absurd (omega arith)
take-all (c ∷ b) (suc n) h = rw (take-all b n (omega arith))

align-multiple : (n : ℕ) → n % 4 ≡ 0 → align n ≡ n
unfolding align
align-multiple n h = omega arith

-- A message is handled.
on_message-Returns :
    (names : Names) (nlh : Bytes) (p : Profile)
    → 28 ≤ length nlh
    → Returns (λ _. Unit {0}) (on_message names nlh p)
unfolding on_message on_route
on_message-Returns names nlh p h =
    if_cases (Returns (λ _. Unit {0})) (le16 nlh 4 == 24) _ _
      (λ _.
        if_cases (Returns (λ _. Unit {0})) (leb (length nlh) 17) _ _ (λ e. absurd (ground arith))
          (λ _. (_, refl, tt)))
      (λ _. (_, refl, tt))

le→leb : (a b : ℕ) → a ≤ b → leb a b ≡ true
le→leb a b h = ground arith

not-three : (n : ℕ) → n ≢ 3 → (n == 3) ≡ false
not-three n h = ground arith

messages-end :
    (names : Names) (nlh : Bytes) (p : Profile) (k len : ℕ)
    → len ≡ 0
    → messages (suc k) names nlh len p ≡ done (nlh, p)
unfolding messages
messages-end names nlh p k len e = rw e refl

messages-single :
    (names : Names) (nlh : Bytes) (p q : Profile) (k n : ℕ)
    → le32 nlh 0 ≡ n
    → 16 ≤ n
    → n % 4 ≡ 0
    → le16 nlh 4 ≢ 3
    → on_message names nlh p ≡ done q
    → messages (suc (suc k)) names nlh n p ≡ done (drop n nlh, q)
unfolding messages
messages-single names nlh p q k n e low four type m =
    rw
      (
        e,
        le→leb 16 n low,
        le→leb n n (omega arith),
        not-three (le16 nlh 4) type,
        m,
        align-multiple n four,
      )
      (messages-end names (drop n nlh) q k (n - n) (omega arith))

messages-enough :
    (names : Names) (nlh : Bytes) (p q : Profile) (k n : ℕ)
    → 2 ≤ k
    → le32 nlh 0 ≡ n
    → 16 ≤ n
    → n % 4 ≡ 0
    → le16 nlh 4 ≢ 3
    → on_message names nlh p ≡ done q
    → messages k names nlh n p ≡ done (drop n nlh, q)
messages-enough names nlh p q zero n two e low four type m = absurd (omega arith)
messages-enough names nlh p q (suc zero) n two e low four type m = absurd (omega arith)
messages-enough names nlh p q (suc (suc k)) n two e low four type m =
    messages-single names nlh p q k n e low four type m

-- Such a datagram is read, and leaves the pointer behind it.
receive-moves :
    (names : Names) (nlh d : Bytes) (p : Profile)
    → IsSingle d
    → length d ≤ length nlh
    → Returns (λ r. r.0 ≡ drop (length d) nlh) (receive names nlh d p)
unfolding receive
receive-moves names nlh d p one fits =
    let rest = drop (length d) nlh in
    let n = length d in
    let m = on_message-Returns names (d ++ rest) p (omega (arith, one.0, length-append d rest)) in
    let walked =
      messages-enough names (d ++ rest) p m.0 (n + 1) n (omega (arith, one.0))
        (le32-append d rest 0 (omega (arith, one.0)) ∙ one.3) (omega (arith, one.0)) one.2
        (λ q. one.4 (sym (le16-append d rest 4 (omega (arith, one.0))) ∙ q)) m.1 in
    rw (take-all d 8192 one.1, le→not-ltb (length nlh) n fits, walked) (_, refl, drop-length d rest)

receive-overflows :
    (names : Names) (nlh d : Bytes) (p : Profile)
    → length d ≤ 8192
    → length nlh < length d
    → receive names nlh d p ≡ fault
unfolding receive
receive-overflows names nlh d p small h =
    rw (take-all d 8192 small, lt→ltb (length nlh) (length d) h) refl

-- Where datagrams of one whole message each come that are together longer than the memory from `nlh`
-- on (8192 bytes at first), `route_monitor_thread` writes behind the end of its buffer: the pointer is
-- not set back after a datagram.
pub route_loop-overflows :
    (names : Names) (ds : List Bytes) (nlh : Bytes) (p : Profile)
    → AllSingle ds
    → length nlh < total ds
    → route_loop names (map (λ d. polls (received d)) ds) nlh p ≡ fault
unfolding route_loop
route_loop-overflows names [] nlh p all h = absurd (omega arith)
route_loop-overflows names ([] ∷ ds) nlh p all h = absurd (omega (arith, all.0.0))
route_loop-overflows names ((c ∷ d) ∷ ds) nlh p all h =
    elim (Bool-cases (ltb (length nlh) (length (c ∷ d)))) [
      | inl q ↦ rw (receive-overflows names nlh (c ∷ d) p all.0.1 (ground arith)) refl
      | inr q ↦
          let fits : length (c ∷ d) ≤ length nlh = ground arith in
          let r = receive-moves names nlh (c ∷ d) p all.0 fits in
          rw (r.1, r.2)
            (route_loop-overflows names ds (drop (length (c ∷ d)) nlh) r.0.1 all.1
              (omega (arith, length-drop (length (c ∷ d)) nlh, h, fits)))
    ]
