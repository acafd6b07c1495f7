-- ===== src/Stream/Whole.antt =====
-- What the kernel has taken when `send_string` returns.
use dpitunnel_cli.Prelude.{
  ℕ, zero, suc, ◌+◌, ◌-◌, ◌≤◌, min, ◌≡◌, refl, ap, ◌∙◌, arith, true, false, List, [], ◌∷◌, ◌++◌,
  Bytes, take, drop, ◌==◌, if_cases,
}
use dpitunnel_cli.Stream.{
  Answer, took, again, refused, Sent, all_sent, broken, waiting, offered, send_loop, send_string,
}

take-plus : (s : Bytes) (a b : ℕ) → take a s ++ take b (drop a s) ≡ take (a + b) s
take-plus s zero b = ap (λ n. take n s) (e b)
  where
    e : (b : ℕ) → b ≡ 0 + b
    e b = omega arith
take-plus [] (suc a) zero = ap (λ n. take n []) (e a)
  where
    e : (a : ℕ) → suc a ≡ suc a + 0
    e a = omega arith
take-plus [] (suc a) (suc b) = ap (λ n. take n []) (e a b)
  where
    e : (a b : ℕ) → suc (a + suc b) ≡ suc a + suc b
    e a b = omega arith
take-plus (c ∷ s) (suc a) b = ap (λ t. c ∷ t) (take-plus s a b) ∙ ap (λ n. take n (c ∷ s)) (e a b)
  where
    e : (a b : ℕ) → suc (a + b) ≡ suc a + b
    e a b = omega arith

-- A return of 0 has sent exactly the text; before that, and on -1, a first part of it.
abbrev pub Whole : Bytes → ℕ → Sent → Type 0
Whole s last_char (all_sent out) = out ≡ take last_char s
Whole s last_char (broken out) = (n : ℕ) × (n ≤ last_char) × (out ≡ take n s)
Whole s last_char (waiting out) = (n : ℕ) × (n ≤ last_char) × (out ≡ take n s)

offered-le :
    (last_char offset split_position : ℕ)
    → offset ≤ last_char
    → (last_char - offset == 0) ≡ false
    → offset + offered last_char offset split_position ≤ last_char
unfolding offered
offered-le last_char offset split_position h e = ground arith

module _ (s : Bytes) (last_char split_position : ℕ) where
  finished :
      (offset : ℕ) (out : Bytes)
      → offset ≤ last_char
      → out ≡ take offset s
      → (last_char - offset == 0) ≡ true
      → out ≡ take last_char s
  finished offset out h e z = e ∙ ap (λ n. take n s) (ground arith)

  send_loop-Whole :
      (answers : List Answer) (offset : ℕ) (out : Bytes)
      → offset ≤ last_char
      → out ≡ take offset s
      → Whole s last_char (send_loop s last_char split_position offset out answers)
  unfolding send_loop
  send_loop-Whole [] offset out h e =
      if_cases (Whole s last_char) (last_char - offset == 0) _ _ (finished offset out h e)
        (λ _. (offset, h, e))
  send_loop-Whole (refused ∷ rest) offset out h e =
      if_cases (Whole s last_char) (last_char - offset == 0) _ _ (finished offset out h e)
        (λ _. (offset, h, e))
  send_loop-Whole (again ∷ rest) offset out h e =
      if_cases (Whole s last_char) (last_char - offset == 0) _ _ (finished offset out h e)
        (λ _. send_loop-Whole rest offset out h e)
  send_loop-Whole (took n ∷ rest) offset out h e =
      let size = min n (offered last_char offset split_position) in
      if_cases (Whole s last_char) (last_char - offset == 0) _ _ (finished offset out h e) (λ more.
        let fits = offered-le last_char offset split_position h more in
        if_cases (Whole s last_char) (size == 0) _ _ (λ _. (offset, h, e))
          (λ _.
            send_loop-Whole rest (offset + size) (out ++ take size (drop offset s)) (omega arith)
              (ap (λ o. o ++ take size (drop offset s)) e ∙ take-plus s offset size)))

  -- Whatever the kernel answers and with any split position, `send_string` returns 0 only when the
  -- kernel has taken the first `last_char` bytes of the text, in order and once; otherwise it has
  -- taken a first part of them.
  pub send_string-Whole :
      (answers : List Answer) → Whole s last_char (send_string s last_char split_position answers)
  unfolding send_string
  send_string-Whole answers =
      if_cases (Whole s last_char) (last_char == 0) _ _
        (λ z. let e : 0 ≡ last_char = ground arith in ap (λ n. take n s) e)
        (λ _. send_loop-Whole answers 0 [] (omega arith) refl)
