-- ===== src/Stream/Receive.antt =====
-- `recv_string` of socket.cpp over the answers of `recv`.
use dpitunnel_cli.Prelude.{
  ℕ, zero, suc, ◌≡◌, ◌≤◌, ◌<◌, refl, arith, min, Bool, false, not, ◌&&◌, List, [], ◌∷◌, ◌++◌,
  Option, none, some, Bytes, take, drop, length, replicate, ◌==◌, if◌then◌else◌,
}

-- `recv` is interrupted, has nothing within the time, fails, or gives bytes (none at the end).
pub data Answer : Type 0 where
  interrupted would_block failed : Answer
  gives : Bytes → Answer

-- What `setsockopt` says before and after, how long it takes, and what `recv` answers.
pub record World : Type 0 where
  pub set_ok : Bool
  pub restore_ok : Bool
  pub elapsed : ℕ
  pub answers : List Answer

-- Code 0 with the buffer, `last_char`, `*recv_time` where the caller wants it, and whether the
-- caller's timeout is still in force; or code -1; `waits` where the answers end first.
pub data Received : Type 0 where
  received : (message : Bytes) (last_char : ℕ) (recv_time : Option ℕ) (long : Bool) → Received
  broken waits : Received

-- `*recv_time` is set where it is not 0 already.
unfoldable pub timed : ℕ → Option ℕ → Option ℕ
timed elapsed none = none
timed elapsed (some t) = some (if t == 0 then t else elapsed)

-- `count` bytes are in the buffer.
unfoldable pub on_bytes : World → Bool → Option ℕ → Bytes → ℕ → Received
on_bytes w has_timeout recv_time message count =
    if count == 0
    then broken
    else if has_timeout && not w.restore_ok
    then broken
    else received message count (timed w.elapsed recv_time) false

unfoldable pub recv_loop : World → Bool → Option ℕ → Bytes → List Answer → Received
recv_loop w has_timeout recv_time message [] = waits
recv_loop w has_timeout recv_time message (interrupted ∷ rest) =
    recv_loop w has_timeout recv_time message rest
recv_loop w has_timeout recv_time message (would_block ∷ rest) =
    received message 0 recv_time has_timeout
recv_loop w has_timeout recv_time message (failed ∷ rest) = broken
recv_loop w has_timeout recv_time message (gives b ∷ rest) =
    on_bytes w has_timeout recv_time (take (length message) b ++ drop (length b) message)
      (min (length b) (length message))

unfoldable pub recv_string :
    World → (has_timeout : Bool) → (recv_time : Option ℕ) → Bytes → Received
recv_string w has_timeout recv_time message =
    if has_timeout && not w.set_ok
    then broken
    else recv_loop w has_timeout recv_time message w.answers

-- What comes after `n` interruptions.
abbrev pub after : ℕ → Answer → List Answer → List Answer
after n a rest = replicate n interrupted ++ a ∷ rest

recv_loop-after :
    (w : World) (t : Bool) (r : Option ℕ) (s : Bytes) (n : ℕ) (a : Answer) (rest : List Answer)
    → recv_loop w t r s (after n a rest) ≡ recv_loop w t r s (a ∷ rest)
unfolding recv_loop
recv_loop-after w t r s zero a rest = refl
recv_loop-after w t r s (suc n) a rest = recv_loop-after w t r s n a rest

-- The timeouts can be set.
abbrev pub Sets : World → Bool → Type 0
Sets w t = (t && not w.set_ok ≡ false) × (t && not w.restore_ok ≡ false)

take-all : (b : Bytes) (n : ℕ) → length b ≤ n → take n b ≡ b
take-all [] zero h = refl
take-all [] (suc n) h = refl
take-all (c ∷ b) zero h = absurd (omega arith)
take-all (c ∷ b) (suc n) h = rw (take-all b n (omega arith))

-- Where the timeouts can be set, `recv_string` passes over any number of interruptions. Then bytes
-- that fit stand at the front of the buffer, `last_char` is their number and the usual timeout is in
-- force; with nothing to read within the time `last_char` is 0 and the buffer, the time and the
-- timeout are as they were; the end of the stream and an error give -1.
pub recv_string_lem :
    (w : World) (t : Bool) (r : Option ℕ) (s b : Bytes) (n : ℕ) (a : Answer) (rest : List Answer)
    → Sets w t
    → w.answers ≡ after n a rest
    → (a ≡ gives b
        → 0 < length b
        → length b ≤ length s
        → recv_string w t r s
          ≡ received (b ++ drop (length b) s) (length b) (timed w.elapsed r) false)
      × (a ≡ would_block → recv_string w t r s ≡ received s 0 r t)
      × (a ≡ failed → recv_string w t r s ≡ broken)
      × (a ≡ gives [] → recv_string w t r s ≡ broken)
unfolding recv_string recv_loop on_bytes
recv_string_lem w t r s b n a rest sets e = (
  (λ q some_byte fits.
      rw (sets.0, e, recv_loop-after w t r s n a rest, q, sets.1, take-all b (length s) fits)
        (ground arith)),
  (λ q. rw (sets.0, e, recv_loop-after w t r s n a rest, q) refl),
  (λ q. rw (sets.0, e, recv_loop-after w t r s n a rest, q) refl),
  (λ q. rw (sets.0, e, recv_loop-after w t r s n a rest, q) (ground arith)),
)
