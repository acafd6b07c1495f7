-- ===== src/Stream/Progress.antt =====
-- That `send_string` gets to its end.
use dpitunnel_cli.Prelude.{
  ℕ, zero, suc, ◌+◌, ◌-◌, ◌≤◌, ◌<◌, ◌≡◌, refl, ap, arith, min, List, [], ◌∷◌, ◌++◌, Bytes, take,
  drop, if_cases, ◌==◌, if◌then◌else◌,
}
use dpitunnel_cli.Stream.Whole.{Whole, send_string-Whole}
use dpitunnel_cli.Stream.{
  Answer, took, again, refused, Sent, all_sent, broken, waiting, offered, send_loop, send_string,
}

-- The kernel takes something `k` times, after any number of calls that are to be made again.
abbrev pub Serves : ℕ → List Answer → Type 0
Serves zero answers = Unit
Serves (suc k) [] = ⊥
Serves (suc k) (refused ∷ rest) = ⊥
Serves (suc k) (again ∷ rest) = Serves (suc k) rest
Serves (suc k) (took n ∷ rest) = (0 < n) × Serves k rest

Serves-fewer : (j k : ℕ) (answers : List Answer) → j ≤ k → Serves k answers → Serves j answers
Serves-fewer zero k answers le h = tt
Serves-fewer (suc j) zero answers le h = absurd (omega arith)
Serves-fewer (suc j) (suc k) [] le h = h
Serves-fewer (suc j) (suc k) (refused ∷ rest) le h = h
Serves-fewer (suc j) (suc k) (again ∷ rest) le h = Serves-fewer (suc j) (suc k) rest le h
Serves-fewer (suc j) (suc k) (took n ∷ rest) le h = (h.0, Serves-fewer j k rest (omega arith) h.1)

abbrev AllSent : Sent → Type 0
AllSent (all_sent out) = Unit
AllSent (broken out) = ⊥
AllSent (waiting out) = ⊥

offered-some : (last offset split : ℕ) → 0 < last - offset → 0 < offered last offset split
unfolding offered
offered-some last offset split h = ground arith

send_loop-AllSent :
    (s : Bytes) (last split offset k : ℕ) (out : Bytes) (answers : List Answer)
    → last - offset ≡ k
    → Serves k answers
    → AllSent (send_loop s last split offset out answers)
unfolding send_loop
send_loop-AllSent s last split offset zero out [] e h = rw e tt
send_loop-AllSent s last split offset zero out (refused ∷ rest) e h = rw e tt
send_loop-AllSent s last split offset zero out (again ∷ rest) e h = rw e tt
send_loop-AllSent s last split offset zero out (took n ∷ rest) e h = rw e tt
send_loop-AllSent s last split offset (suc k) out [] e h = absurd h
send_loop-AllSent s last split offset (suc k) out (refused ∷ rest) e h = absurd h
send_loop-AllSent s last split offset (suc k) out (again ∷ rest) e h =
    if_cases AllSent (last - offset == 0) (all_sent out) (send_loop s last split offset out rest)
      (λ _. tt) (λ _. send_loop-AllSent s last split offset (suc k) out rest e h)
send_loop-AllSent s last split offset (suc k) out (took n ∷ rest) e h =
    let size = min n (offered last offset split) in
    let out' = out ++ take size (drop offset s) in
    let some_bytes : 0 < size = omega (arith, h.0, offered-some last offset split (omega arith)) in
    if_cases AllSent (last - offset == 0) (all_sent out)
      (if size == 0 then broken out else send_loop s last split (offset + size) out' rest) (λ _. tt)
      (λ _.
        if_cases AllSent (size == 0) (broken out) (send_loop s last split (offset + size) out' rest)
          (λ z. absurd (ground arith))
          (λ _.
            send_loop-AllSent s last split (offset + size) (last - (offset + size)) out' rest refl
              (Serves-fewer (last - (offset + size)) k rest (omega arith) h.1)))

send_string-AllSent :
    (s : Bytes) (last_char split_position : ℕ) (answers : List Answer)
    → Serves last_char answers
    → AllSent (send_string s last_char split_position answers)
unfolding send_string
send_string-AllSent s last_char split_position answers h =
    if_cases AllSent (last_char == 0) (all_sent []) _ (λ _. tt)
      (λ _. send_loop-AllSent s last_char split_position 0 last_char [] answers (omega arith) h)

-- An end with 0 that has sent a first part in order has sent the text.
AllSent-Whole :
    (s : Bytes) (last_char : ℕ) (r : Sent)
    → AllSent r
    → Whole s last_char r
    → r ≡ all_sent (take last_char s)
AllSent-Whole s last_char (all_sent out) h w = ap all_sent w
AllSent-Whole s last_char (broken out) h w = absurd h
AllSent-Whole s last_char (waiting out) h w = absurd h

-- Where the kernel takes something as often as there are bytes to send, with any interruptions
-- between, `send_string` ends with 0 and the kernel has taken exactly the first `last_char` bytes of
-- the text, in order, whatever the split position is.
pub send_string-sends :
    (s : Bytes) (last_char split_position : ℕ) (answers : List Answer)
    → Serves last_char answers
    → send_string s last_char split_position answers ≡ all_sent (take last_char s)
send_string-sends s last_char split_position answers h =
    AllSent-Whole s last_char _ (send_string-AllSent s last_char split_position answers h)
      (send_string-Whole s last_char split_position answers)
