-- ===== src/Stream/Remote.antt =====
-- `init_remote_server_socket` of socket.cpp.
use dpitunnel_cli.Prelude.{
  ℕ, zero, suc, ◌*◌, ◌^◌, ◌<◌, ◌≤◌, ◌≡◌, ◌≢◌, refl, arith, ℤ, pos, negsuc, Bool, true, false, not,
  Option, none, some, Bytes, c_str, ltb, if◌then◌else◌, if_cases, ◌≤ℤ◌, lt→ltb, sym, not-false,
  not-true,
}
use native.Mathlib.Nat.{pow-le-pow_right, pow-succ'}
use dpitunnel_cli.Prelude.Outcome.{Outcome, done, fault, ◌>>=◌, Returns}
use dpitunnel_cli.Settings.{Profile}
use dpitunnel_cli.CmdLine.Ranges.{IsInRange}

-- What the calls answer.
pub record World : Type 0 where
  pub socket_ok : Bool
  pub is_ipv4 : Bytes → Bool
  pub rcvbuf_ok : Bool
  pub connect_ok : Bool
  pub timeouts_ok : Bool

-- The code, whether `server_socket` is open then, and the receive buffer that has been asked for.
pub record Init : Type 0 where
  pub code : ℤ
  pub open_socket : Bool
  pub rcvbuf : Option ℕ

abbrev failed : Option ℕ → Init
failed rcvbuf = record { code = negsuc 0; open_socket = true; rcvbuf = rcvbuf }

-- `65536 << (window_scale_factor - 1)`, undefined for a factor below 1 and where an `int` overflows.
unfoldable pub shifted : ℤ → Outcome (Option ℕ)
shifted (negsuc zero) = done none
shifted (negsuc (suc n)) = fault
shifted (pos zero) = fault
shifted (pos (suc n)) = if ltb (65536 * 2 ^ n) (2 ^ 31) then done (some (65536 * 2 ^ n)) else fault

unfoldable pub rcvbuf_set : World → Option ℕ → Bool
rcvbuf_set w none = true
rcvbuf_set w (some buflen) = w.rcvbuf_ok

-- From the call of `setsockopt` for the buffer on.
unfoldable pub with_buffer : World → Option ℕ → Init
with_buffer w buflen =
    if not (rcvbuf_set w buflen)
    then failed buflen
    else if not w.connect_ok
    then failed buflen
    else if not w.timeouts_ok
    then failed buflen
    else record { code = pos 0; open_socket = true; rcvbuf = buflen }

unfoldable pub init_remote_server_socket : World → Profile → Bytes → Outcome Init
init_remote_server_socket w r server_ip =
    if not w.socket_ok
    then done (record { code = negsuc 0; open_socket = false; rcvbuf = none })
    else if not (w.is_ipv4 (c_str server_ip))
    then done (failed none)
    else shifted r.window_scale_factor >>= λ buflen. done (with_buffer w buflen)

-- The buffer for a factor: none for -1, and else half of 2 ^ 16 * 2 ^ factor, where it is got to.
abbrev pub IsBuffer : ℤ → Option ℕ → Type 0
IsBuffer (negsuc n) o = o ≡ none
IsBuffer (pos n) none = Unit
IsBuffer (pos n) (some buflen) = 2 * buflen ≡ 2 ^ 16 * 2 ^ n

-- A socket that is left open on success, and, but for the very first call, on failure.
abbrev pub Leaves : World → Profile → Init → Type 0
Leaves w r i =
    (i.open_socket ≡ w.socket_ok)
    × IsBuffer r.window_scale_factor i.rcvbuf
    × (i.code ≡ pos 0 → (w.connect_ok ≡ true) × (w.timeouts_ok ≡ true))

shift_lt : (n : ℕ) → n < 14 → 65536 * 2 ^ n < 2 ^ 31
shift_lt n h =
    let small : 2 ^ n ≤ 2 ^ 13 =
      pow-le-pow_right {n = 2} (omega arith) {i = n} {j = 13} (omega arith) in
    omega arith

shifted-IsBuffer :
    (f : ℤ) → f ≤ℤ pos 14 → negsuc 0 ≤ℤ f → f ≢ pos 0 → Returns (IsBuffer f) (shifted f)
unfolding shifted
shifted-IsBuffer (negsuc zero) h l p = (none, refl, refl)
shifted-IsBuffer (negsuc (suc n)) h l p = absurd (omega arith)
shifted-IsBuffer (pos zero) h l p = absurd (p refl)
shifted-IsBuffer (pos (suc n)) h l p = (
  some (65536 * 2 ^ n),
  rw (lt→ltb (65536 * 2 ^ n) (2 ^ 31) (shift_lt n (omega arith))) refl,
  omega (arith, pow-succ' 2 n),
)

-- No code 0 and no buffer.
IsBuffer-none : (f : ℤ) → IsBuffer f none
IsBuffer-none (negsuc n) = refl
IsBuffer-none (pos n) = tt

failed-Leaves :
    (w : World) (r : Profile) (open_socket : Bool)
    → open_socket ≡ w.socket_ok
    → IsBuffer r.window_scale_factor none
    → Leaves w r (record { code = negsuc 0; open_socket = open_socket; rcvbuf = none })
failed-Leaves w r b e h = (e, h, λ q. cc)

with_buffer-Leaves :
    (w : World) (r : Profile) (buflen : Option ℕ)
    → w.socket_ok ≡ true
    → IsBuffer r.window_scale_factor buflen
    → Leaves w r (with_buffer w buflen)
unfolding with_buffer
with_buffer-Leaves w r buflen o h =
    if_cases (Leaves w r) (not (rcvbuf_set w buflen)) _ _ (λ _. (sym o, h, λ q. cc))
      (λ _.
        if_cases (Leaves w r) (not w.connect_ok) _ _ (λ _. (sym o, h, λ q. cc))
          (λ c.
            if_cases (Leaves w r) (not w.timeouts_ok) _ _ (λ _. (sym o, h, λ q. cc))
              (λ t. (sym o, h, λ _. (not-false c, not-false t)))))

-- For a profile whose numbers are in their ranges: unless the window scale factor is 0,
-- `init_remote_server_socket` returns, leaves `server_socket` open exactly where it could be created,
-- asks for a receive buffer of 2 ^ 16 * 2 ^ factor / 2 bytes (none for the factor -1), and its code is 0
-- only if the connection is made and the timeouts are set. The factor 0, which is in range, is a
-- shift by -1, wherever there is a socket and the address is one.
pub init_remote_server_socket_lem :
    (w : World) (r : Profile) (server_ip : Bytes)
    → IsInRange r
    → (r.window_scale_factor ≢ pos 0
        → Returns (Leaves w r) (init_remote_server_socket w r server_ip))
      × (r.window_scale_factor ≡ pos 0
          → w.socket_ok ≡ true
          → w.is_ipv4 (c_str server_ip) ≡ true
          → init_remote_server_socket w r server_ip ≡ fault)
unfolding init_remote_server_socket shifted
init_remote_server_socket_lem w r server_ip range =
    let f = r.window_scale_factor in
    (
      (λ p.
          if_cases (Returns (Leaves w r)) (not w.socket_ok) _ _
            (λ e. (_, refl, failed-Leaves w r false (sym (not-true e)) (IsBuffer-none f)))
            (λ e.
              if_cases (Returns (Leaves w r)) (not (w.is_ipv4 (c_str server_ip))) _ _
                (λ _. (_, refl, failed-Leaves w r true (sym (not-false e)) (IsBuffer-none f)))
                (λ _.
                  let s = shifted-IsBuffer f range.5.1 range.5.0 p in
                  rw s.1 (_, refl, with_buffer-Leaves w r s.0 (not-false e) s.2)))),
      (λ z s i. rw (s, i, z) refl),
    )
