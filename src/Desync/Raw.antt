-- ===== src/Desync/Raw.antt =====
-- The system calls of `do_desync_attack` as a monad: what the kernel answers, what is on the wire.
use dpitunnel_cli.Prelude.{ℕ, ◌+◌, ◌-◌, ◌%◌, ℤ, pos, negsuc, Bool, Option}
use dpitunnel_cli.Prelude.{List, [], ◌∷◌, ◌++◌, Bytes, length, take, drop, ltb, ◌==◌, if◌then◌else◌}
use dpitunnel_cli.Prelude.{◌≡◌, ap}
use dpitunnel_cli.Prelude.Outcome.{Outcome, done, fault, out_of_fuel}

-- What the calls return. `none` of `getsockopt` is its failure; `rand` and `sendto_ok` answer the
-- n-th call.
pub record Kernel : Type 0 where
  pub socket_ok : Bool
  pub sndbuf_ok : Bool
  pub hdrincl_ok : Bool
  pub default_ttl : Option ℕ
  pub max_segment : Option ℕ
  pub rand : ℕ → ℕ
  pub sendto_ok : ℕ → Bool

-- The packets that `sendto` has taken, in order, the numbers of calls made, and the raw sockets open.
pub record Wire : Type 0 where
  pub sent : List Bytes
  pub draws : ℕ
  pub sends : ℕ
  pub open_sockets : ℕ

-- The code goes on with a value, or has returned a code, or has read or written out of bounds.
pub data Step (A : Type 0) : Type 0 where
  go : A → Step A
  ret : ℤ → Step A
  crash : Step A

abbrev pub M : Type 0 → Type 0
M A = Wire → Step A × Wire

abbrev pub next : {A B : Type 0} → Step A × Wire → (A → M B) → Step B × Wire
next (go a, w) f = f a w
next (ret c, w) f = (ret c, w)
next (crash, w) f = (crash, w)

infixl 5 ◌>>=◌ ◌>>◌
abbrev pub ◌>>=◌ : {A B : Type 0} → M A → (A → M B) → M B
◌>>=◌ m f w = next (m w) f

abbrev pub ◌>>◌ : {B : Type 0} → M (Unit {0}) → M B → M B
◌>>◌ m k w = next (m w) (λ _. k)

abbrev pub pass : M (Unit {0})
pass w = (go tt, w)

abbrev pub return_code : {A : Type 0} → ℤ → M A
return_code c w = (ret c, w)

-- `rand() % 65535`
unfoldable pub draw_id : Kernel → M ℕ
draw_id k w = (go (k.rand w.draws % 65535), record w { draws = w.draws + 1 })

abbrev pub close : M (Unit {0})
close w = (go tt, record w { open_sockets = w.open_sockets - 1 })

abbrev pub open_socket : M (Unit {0})
open_socket w = (go tt, record w { open_sockets = w.open_sockets + 1 })

-- `close(sockfd); return code;`
abbrev pub close_and_return : {A : Type 0} → ℤ → M A
close_and_return c w = (ret c, record w { open_sockets = w.open_sockets - 1 })

-- `send_string_raw` of socket.cpp on a whole packet: 0, or -1 where `sendto` fails. The empty
-- packet is not sent.
unfoldable pub send_string_raw : Kernel → Bytes → M ℤ
send_string_raw k packet w =
    if length packet == 0
    then (go (pos 0), w)
    else if k.sendto_ok w.sends
    then (go (pos 0), record w { sent = w.sent ++ packet ∷ []; sends = w.sends + 1 })
    else (go (negsuc 0), record w { sends = w.sends + 1 })

unfoldable pub close_unless_sent : ℤ → M (Unit {0})
close_unless_sent (pos n) = pass
close_unless_sent (negsuc n) = close_and_return (negsuc 0)

-- `if (send_string_raw(...) == -1) { close(sockfd); return -1; }`
unfoldable pub send_or_return : Kernel → Bytes → M (Unit {0})
send_or_return k packet = do code ← send_string_raw k packet; close_unless_sent code

abbrev pub lift : {A : Type 0} → Outcome A → M A
lift (done a) w = (go a, w)
lift fault w = (crash, w)
lift out_of_fuel w = (crash, w)

-- `count` bytes from `at` on of a C string of the given bytes; what lies behind them is not its own.
abbrev pub read_data : Bytes → ℕ → ℕ → M Bytes
read_data s at count w =
    if ltb (length s) (at + count) then (crash, w) else (go (take count (drop at s)), w)

-- A step that goes on, and what follows.
pub after_go :
    {A B : Type 0} (m : M A) (f : A → M B) {w v : Wire} {a : A}
    → m w ≡ (go a, v)
    → (m >>= f) w ≡ f a v
after_go m f e = ap (λ x. next x f) e
