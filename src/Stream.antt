-- ===== src/Stream.antt =====
-- `send_string` of socket.cpp over the answers of `send`; where the list of answers ends, the loop
-- still waits.
pub mod Whole
pub mod Progress
pub mod Receive
pub mod Connect
pub mod Remote
pub mod Hops
use dpitunnel_cli.Prelude.{
  ℕ, ◌+◌, ◌-◌, min, List, [], ◌∷◌, ◌++◌, Bytes, take, drop, ltb, ◌==◌, if◌then◌else◌,
}

-- The kernel takes some bytes (as many as it is given at most), or the call is to be made again
-- (EWOULDBLOCK, EAGAIN, EINTR), or it fails.
pub data Answer : Type 0 where
  took : ℕ → Answer
  again refused : Answer

-- The return code, with what the kernel has taken.
pub data Sent : Type 0 where
  all_sent broken waiting : Bytes → Sent

-- How much is offered. With a split position the value of a comparison, 1, stands for the rest.
unfoldable pub offered : ℕ → ℕ → ℕ → ℕ
offered last_char offset split_position =
    if split_position == 0
    then last_char - offset
    else if ltb (last_char - offset) split_position
    then 1
    else split_position

unfoldable pub send_loop : Bytes → ℕ → ℕ → ℕ → Bytes → List Answer → Sent
send_loop s last_char split_position offset out [] =
    if last_char - offset == 0 then all_sent out else waiting out
send_loop s last_char split_position offset out (refused ∷ rest) =
    if last_char - offset == 0 then all_sent out else broken out
send_loop s last_char split_position offset out (again ∷ rest) =
    let more = send_loop s last_char split_position offset out rest in
    if last_char - offset == 0 then all_sent out else more
send_loop s last_char split_position offset out (took n ∷ rest) =
    let size = min n (offered last_char offset split_position) in
    let more =
      send_loop s last_char split_position (offset + size) (out ++ take size (drop offset s))
        rest in
    if last_char - offset == 0 then all_sent out else if size == 0 then broken out else more

unfoldable pub send_string : Bytes → ℕ → ℕ → List Answer → Sent
send_string s last_char split_position answers =
    if last_char == 0 then all_sent [] else send_loop s last_char split_position 0 [] answers
