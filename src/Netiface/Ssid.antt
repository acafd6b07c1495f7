-- ===== src/Netiface/Ssid.antt =====
-- `find_ssid` of netiface.cpp: the name in the information elements of a Wi-Fi access point.
use dpitunnel_cli.Prelude.{
  ℕ, zero, suc, ◌+◌, ◌-◌, ◌%◌, ◌^◌, ◌<◌, ◌≡◌, ◌∙◌, refl, sym, arith, List, [], ◌∷◌, ◌++◌, Option,
  none, some, Bytes, take, drop, length, ltb, length-append, length-drop, le→not-ltb, if_cases,
  Bool-cases, inl, inr, ◌≢◌, ◌==◌, if◌then◌else◌,
}
use dpitunnel_cli.Prelude.TextLaws.{drop-length}
use dpitunnel_cli.Prelude.Outcome.{Outcome, done, fault, out_of_fuel}

-- `ies[i]`, out of bounds behind the end.
unfoldable pub read : Bytes → ℕ → (ℕ → Outcome (Option Bytes)) → Outcome (Option Bytes)
read [] i f = fault
read (c ∷ s) zero f = f c
read (c ∷ s) (suc i) f = read s i f

-- After the loop.
unfoldable pub ssid_at : Bytes → ℕ → Outcome (Option Bytes)
ssid_at ies ies_len =
    if ltb ies_len 2
    then done none
    else read ies 1
        (λ n. if ltb ies_len (2 + n) then done none else done (some (take n (drop 2 ies))))

-- The length is unsigned, of 32 bits; an element that is longer than what is left takes it below 0.
unfoldable pub find_loop : ℕ → Bytes → ℕ → Outcome (Option Bytes)
find_loop zero ies ies_len = out_of_fuel
find_loop (suc fuel) ies ies_len =
    if ltb 2 ies_len
    then read ies 0 (λ id.
      if id == 0
      then ssid_at ies ies_len
      else read ies 1
          (λ n. find_loop fuel (drop (n + 2) ies) ((ies_len + 2 ^ 32 - (n + 2)) % 2 ^ 32)))
    else ssid_at ies ies_len

unfoldable pub find_ssid : Bytes → Outcome (Option Bytes)
find_ssid ies = find_loop (length ies + 1) ies (length ies)

-- Whatever the bytes are, the loop ends: each turn takes two bytes at least.
read-ends :
    (s : Bytes) (i : ℕ) (f : ℕ → Outcome (Option Bytes))
    → ((c : ℕ) → f c ≢ out_of_fuel)
    → read s i f ≢ out_of_fuel
unfolding read
read-ends [] i f h = λ e. cc
read-ends (c ∷ s) zero f h = h c
read-ends (c ∷ s) (suc i) f h = read-ends s i f h

ssid_at-ends : (ies : Bytes) (n : ℕ) → ssid_at ies n ≢ out_of_fuel
unfolding ssid_at
ssid_at-ends ies n =
    if_cases (λ o. o ≢ out_of_fuel) (ltb n 2) _ _ (λ _ e. cc)
      (λ _.
        read-ends ies 1 _
          (λ c. if_cases (λ o. o ≢ out_of_fuel) (ltb n (2 + c)) _ _ (λ _ e. cc) (λ _ e. cc)))

length-drop_two :
    (ies : Bytes) (n fuel : ℕ)
    → length ies < suc fuel
    → 0 < length ies
    → length (drop (n + 2) ies) < fuel
length-drop_two ies n fuel h k = omega (arith, length-drop (n + 2) ies)

find_loop-ends :
    (fuel : ℕ) (ies : Bytes) (n : ℕ) → length ies < fuel → find_loop fuel ies n ≢ out_of_fuel
unfolding find_loop read
find_loop-ends zero ies n h = absurd (omega arith)
find_loop-ends (suc fuel) [] n h =
    if_cases (λ o. o ≢ out_of_fuel) (ltb 2 n) _ _ (λ _ e. cc) (λ _. ssid_at-ends [] n)
find_loop-ends (suc fuel) (c ∷ s) n h =
    if_cases (λ o. o ≢ out_of_fuel) (ltb 2 n) _ _
      (λ _. read-ends (c ∷ s) 0 _ (λ id.
        let next : ℕ → Outcome (Option Bytes) =
          λ k. find_loop fuel (drop (k + 2) (c ∷ s)) ((n + 2 ^ 32 - (k + 2)) % 2 ^ 32) in
        if_cases (λ o. o ≢ out_of_fuel) (id == 0) (ssid_at (c ∷ s) n) (read (c ∷ s) 1 next)
          (λ _. ssid_at-ends (c ∷ s) n)
          (λ _. read-ends (c ∷ s) 1 next (λ k.
            find_loop-ends fuel (drop (k + 2) (c ∷ s)) ((n + 2 ^ 32 - (k + 2)) % 2 ^ 32)
              (length-drop_two (c ∷ s) k fuel h (omega arith))))))
      (λ _. ssid_at-ends (c ∷ s) n)

-- Elements, each with its number and its data, and their bytes.
abbrev pub encode : List (ℕ × Bytes) → Bytes
encode [] = []
encode ((id, d) ∷ rest) = id ∷ length d ∷ d ++ encode rest

-- The data of the first element with the number 0.
abbrev pub ssid_of : List (ℕ × Bytes) → Bytes
ssid_of [] = []
ssid_of ((id, d) ∷ rest) = if id == 0 then d else ssid_of rest

-- The text of a name that may be missing, as the caller takes it: an empty one counts as none.
abbrev pub text_of : Option Bytes → Bytes
text_of none = []
text_of (some s) = s

abbrev pub Finds : Bytes → Outcome (Option Bytes) → Type 0
Finds s fault = ⊥
Finds s out_of_fuel = ⊥
Finds s (done o) = text_of o ≡ s

drop-shift : (k m a b : ℕ) (s : Bytes) → k ≡ m + 2 → drop k (a ∷ b ∷ s) ≡ drop m s
drop-shift zero m a b s e = absurd (omega arith)
drop-shift (suc zero) m a b s e = absurd (omega arith)
drop-shift (suc (suc k)) m a b s e = (let q : k ≡ m = omega arith in rw q refl)

take-own : (d rest : Bytes) → take (length d) (d ++ rest) ≡ d
take-own [] rest = refl
take-own (c ∷ d) rest = rw (take-own d rest) refl

ssid_at-own :
    (id : ℕ) (d rest : Bytes) (n : ℕ)
    → n ≡ length d + length rest + 2
    → ssid_at (id ∷ length d ∷ d ++ rest) n ≡ done (some d)
unfolding ssid_at read
ssid_at-own id d rest n e =
    rw
      (
        e,
        le→not-ltb (length d + length rest + 2) 2 (omega arith),
        le→not-ltb (length d + length rest + 2) (2 + length d) (omega arith),
        take-own d rest,
      )
      refl

left_over : (n d rest : ℕ) → n ≡ d + rest + 2 → n < 2 ^ 32 → (n + 2 ^ 32 - (d + 2)) % 2 ^ 32 ≡ rest
left_over n d rest e h = omega arith

nothing-Finds : Finds [] (ssid_at [] 0)
unfolding ssid_at
nothing-Finds = refl

encode-nothing : (es : List (ℕ × Bytes)) → length (encode es) ≡ 0 → ssid_of es ≡ []
encode-nothing [] e = refl
encode-nothing ((id, d) ∷ rest) e = absurd (omega arith)

no_bytes : (d : Bytes) → length d ≡ 0 → d ≡ []
no_bytes [] e = refl
no_bytes (c ∷ d) e = absurd (omega arith)

-- An element without data is all that is left.
last-Finds :
    (id : ℕ) (d : Bytes) (rest : List (ℕ × Bytes))
    → length d ≡ 0
    → length (encode rest) ≡ 0
    → Finds (ssid_of ((id, d) ∷ rest)) (done (some d))
last-Finds id d rest e k =
    if_cases (λ s. d ≡ s) (id == 0) d (ssid_of rest) (λ _. refl)
      (λ _. no_bytes d e ∙ sym (encode-nothing rest k))

find_loop-Finds :
    (fuel : ℕ) (es : List (ℕ × Bytes)) (n : ℕ)
    → n ≡ length (encode es)
    → n < 2 ^ 32
    → n < fuel
    → Finds (ssid_of es) (find_loop fuel (encode es) n)
unfolding find_loop read
find_loop-Finds zero es n e h f = absurd (omega arith)
find_loop-Finds (suc fuel) [] n e h f = rw e nothing-Finds
find_loop-Finds (suc fuel) ((id, d) ∷ rest) n e h f =
    let size : n ≡ length d + length (encode rest) + 2 =
      omega (arith, e, length-append d (encode rest)) in
    elim (Bool-cases (ltb 2 n)) [
      | inl q ↦ elim (Bool-cases (id == 0)) [
        | inl z ↦ rw (q, z, ssid_at-own id d (encode rest) n size) refl
        | inr z ↦
            rw
              (
                q,
                z,
                drop-shift (length d + 2) (length d) id (length d) (d ++ encode rest) refl,
                drop-length d (encode rest),
                left_over n (length d) (length (encode rest)) size h,
              )
              (find_loop-Finds fuel rest (length (encode rest)) refl (omega arith) (omega arith))
      ]
      | inr q ↦
          rw (q, ssid_at-own id d (encode rest) n size)
            (last-Finds id d rest (ground arith) (ground arith))
    ]

-- `find_ssid` ends on any bytes (it may read out of bounds), and on the bytes of a list of elements,
-- fewer than 2 ^ 32 of them, it finds the data of the first element with the number 0, and nothing or
-- the empty name where there is none.
pub find_ssid-Finds :
    (ies : Bytes) (es : List (ℕ × Bytes))
    → length (encode es) < 2 ^ 32
    → (find_ssid ies ≢ out_of_fuel) × Finds (ssid_of es) (find_ssid (encode es))
unfolding find_ssid
find_ssid-Finds ies es h = (
  find_loop-ends (length ies + 1) ies (length ies) (omega arith),
  find_loop-Finds (length (encode es) + 1) es (length (encode es)) refl h (omega arith),
)
