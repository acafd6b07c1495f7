-- ===== src/Stream/Connect.antt =====
-- `connect_with_timeout` of socket.cpp.
use dpitunnel_cli.Prelude.{
  ℕ, ◌≡◌, refl, ℤ, pos, negsuc, Bool, List, [], ◌∷◌, Option, none, some, ◌==◌, if◌then◌else◌, ◌⊎◌,
  inl, inr, if_cases, ==_iff, subst, sym,
}

-- The errors that the code asks for, and O_NONBLOCK.
abbrev pub eintr : ℕ
eintr = 4

abbrev pub o_nonblock : ℕ
o_nonblock = 0x800

-- How `connect` starts.
pub data Start : Type 0 where
  connected in_progress refused : Start

-- One turn of the wait: the clock fails, the deadline has passed, or `poll` times out, fails with an
-- error, or says that the socket is ready; then `SO_ERROR`, if `getsockopt` gives it.
pub data Turn : Type 0 where
  clock_failed past timed_out : Turn
  poll_failed : ℕ → Turn
  ready : Option ℕ → Turn

-- The answers of the system: `fcntl` (its flags, whether it sets them, whether it sets them back),
-- `connect`, the clock and the turns.
pub record World : Type 0 where
  pub flags : Option ℕ
  pub set_ok : Bool
  pub start : Start
  pub clock_ok : Bool
  pub turns : List Turn
  pub restore_ok : Bool

-- The code, with the flags that the socket is left with, if `fcntl` has told them; `waits` where the
-- turns end first.
pub data Connect : Type 0 where
  connects : (rc : ℤ) (flags : Option ℕ) → Connect
  waits : Connect

-- `rc` after the waiting loop. A timeout, 0, is made -1 then.
unfoldable pub wait_turns : List Turn → Option ℤ
wait_turns [] = none
wait_turns (clock_failed ∷ rest) = some (negsuc 0)
wait_turns (past ∷ rest) = some (negsuc 0)
wait_turns (timed_out ∷ rest) = some (negsuc 0)
wait_turns (poll_failed code ∷ rest) =
    let again = wait_turns rest in if code == eintr then again else some (negsuc 0)
wait_turns (ready none ∷ rest) = some (pos 1)
wait_turns (ready (some error) ∷ rest) =
    let again = wait_turns rest in
    if error == 0 then some (pos 1) else if error == eintr then again else some (negsuc 0)

-- `rc` before the flags are set back.
unfoldable pub started : World → Start → Option ℤ
started w connected = some (pos 0)
started w refused = some (negsuc 0)
started w in_progress = if w.clock_ok then wait_turns w.turns else some (negsuc 0)

-- `sockfd_flags_before` is the value of `fcntl(...) < 0`, which is 0 here.
unfoldable pub restore : World → ℕ → Option ℤ → Connect
restore w before none = waits
restore w before (some rc) =
    if w.restore_ok then connects rc (some before) else connects (negsuc 0) (some o_nonblock)

unfoldable pub with_flags : World → Option ℕ → Connect
with_flags w none = connects (negsuc 0) none
with_flags w (some flags) =
    if w.set_ok then restore w 0 (started w w.start) else connects (negsuc 0) (some flags)

unfoldable pub connect_with_timeout : World → Connect
connect_with_timeout w = with_flags w w.flags

-- The socket becomes ready without an error, after interruptions at most, before the time is over.
pub data GetsReady : List Turn → Type 0 where
  now : {rest : List Turn} → GetsReady (ready (some 0) ∷ rest)
  untold : {rest : List Turn} → GetsReady (ready none ∷ rest)
  after_signal : {rest : List Turn} → GetsReady rest → GetsReady (poll_failed eintr ∷ rest)
  after_eintr : {rest : List Turn} → GetsReady rest → GetsReady (ready (some eintr) ∷ rest)

-- What the code of the wait says.
abbrev pub Tells : List Turn → Option ℤ → Type 0
Tells turns none = Unit
Tells turns (some (pos n)) = (n ≡ 1) × GetsReady turns
Tells turns (some (negsuc n)) = n ≡ 0

Tells-more :
    (t : Turn) (rest : List Turn) (o : Option ℤ)
    → (GetsReady rest → GetsReady (t ∷ rest))
    → Tells rest o
    → Tells (t ∷ rest) o
Tells-more t rest none f h = tt
Tells-more t rest (some (pos n)) f h = (h.0, f h.1)
Tells-more t rest (some (negsuc n)) f h = h

wait_turns-Tells : (turns : List Turn) → Tells turns (wait_turns turns)
unfolding wait_turns
wait_turns-Tells [] = tt
wait_turns-Tells (clock_failed ∷ rest) = refl
wait_turns-Tells (past ∷ rest) = refl
wait_turns-Tells (timed_out ∷ rest) = refl
wait_turns-Tells (poll_failed code ∷ rest) =
    if_cases (Tells (poll_failed code ∷ rest)) (code == eintr) (wait_turns rest) (some (negsuc 0))
      (λ e.
        Tells-more (poll_failed code) rest (wait_turns rest)
          (λ g. rw ((==_iff code eintr).0 e) (after_signal g)) (wait_turns-Tells rest))
      (λ _. refl)
wait_turns-Tells (ready none ∷ rest) = (refl, untold)
wait_turns-Tells (ready (some error) ∷ rest) =
    let P = Tells (ready (some error) ∷ rest) in
    if_cases P (error == 0) (some (pos 1))
      (if error == eintr then wait_turns rest else some (negsuc 0))
      (λ e. (refl, rw ((==_iff error 0).0 e) now))
      (λ _.
        if_cases P (error == eintr) (wait_turns rest) (some (negsuc 0))
          (λ e.
            Tells-more (ready (some error)) rest (wait_turns rest)
              (λ g. rw ((==_iff error eintr).0 e) (after_eintr g)) (wait_turns-Tells rest))
          (λ _. refl))

-- The end of a call on a socket with `flags`: a code below 0 is -1; another says that `connect` was
-- done at once, or that the socket got ready in time, and then all flags have been cleared.
abbrev pub Connects : World → ℕ → Connect → Type 0
Connects w flags waits = w.start ≡ in_progress
Connects w flags (connects rc none) = ⊥
Connects w flags (connects (negsuc n) (some after)) =
    (n ≡ 0) × ((after ≡ flags) ⊎ (after ≡ 0) ⊎ (after ≡ o_nonblock))
Connects w flags (connects (pos n) (some after)) =
    (after ≡ 0)
    × (((w.start ≡ connected) × (n ≡ 0)) ⊎ ((w.start ≡ in_progress) × (n ≡ 1) × GetsReady w.turns))

restore-Connects :
    (w : World) (flags : ℕ) (o : Option ℤ)
    → w.start ≡ in_progress
    → Tells w.turns o
    → Connects w flags (restore w 0 o)
unfolding restore
restore-Connects w flags none p h = p
restore-Connects w flags (some (pos n)) p h =
    if_cases (Connects w flags) w.restore_ok (connects (pos n) (some 0)) _
      (λ _. (refl, inr (p, h.0, h.1))) (λ _. (refl, inr (inr refl)))
restore-Connects w flags (some (negsuc n)) p h =
    if_cases (Connects w flags) w.restore_ok (connects (negsuc n) (some 0)) _
      (λ _. (h, inr (inl refl))) (λ _. (refl, inr (inr refl)))

started-Connects :
    (w : World) (flags : ℕ) (st : Start)
    → w.start ≡ st
    → Connects w flags (restore w 0 (started w st))
unfolding started restore
started-Connects w flags connected p =
    if_cases (Connects w flags) w.restore_ok (connects (pos 0) (some 0)) _
      (λ _. (refl, inl (p, refl))) (λ _. (refl, inr (inr refl)))
started-Connects w flags refused p =
    if_cases (Connects w flags) w.restore_ok (connects (negsuc 0) (some 0)) _
      (λ _. (refl, inr (inl refl))) (λ _. (refl, inr (inr refl)))
started-Connects w flags in_progress p =
    if_cases (λ o. Connects w flags (restore w 0 o)) w.clock_ok (wait_turns w.turns)
      (some (negsuc 0))
      (λ _. restore-Connects w flags (wait_turns w.turns) p (wait_turns-Tells w.turns))
      (λ _. restore-Connects w flags (some (negsuc 0)) p refl)

-- On a socket whose flags `fcntl` tells, `connect_with_timeout` returns -1 or, where `connect` was
-- done at once, 0, or, where the socket got ready without an error before the deadline, 1; a timeout
-- is never a success. Wherever it succeeds all flags of the socket are cleared, whatever they were.
pub connect_with_timeout-Connects :
    (w : World) (flags : ℕ) → w.flags ≡ some flags → Connects w flags (connect_with_timeout w)
unfolding connect_with_timeout with_flags
connect_with_timeout-Connects w flags e =
    subst (λ o. Connects w flags (with_flags w o)) (sym e)
      (if_cases (Connects w flags) w.set_ok (restore w 0 (started w w.start))
        (connects (negsuc 0) (some flags)) (λ _. started-Connects w flags w.start refl)
        (λ _. (refl, inl refl)))
