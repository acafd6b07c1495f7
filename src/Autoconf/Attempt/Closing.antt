-- ===== src/Autoconf/Attempt/Closing.antt =====
-- When a test succeeds, and that it closes its socket.
use dpitunnel_cli.Prelude.{ℕ, ◌≡◌, ◌⊎◌, pos, Bool, true, false, Bytes, ltb_ℤ, if◌then◌else◌}
use dpitunnel_cli.Prelude.Outcome.{Outcome, done, fault, out_of_fuel}
use dpitunnel_cli.Settings.{Profile}
use dpitunnel_cli.Stream.Remote.{Init}
use dpitunnel_cli.Autoconf.Https.Verified.{Verifies}
use dpitunnel_cli.Autoconf.Response.{judge_response}
use dpitunnel_cli.Autoconf.Attempt.{World, Tested, tested, undefined}

-- The socket is open exactly where it could be created, and a code of 0 needs it.
abbrev pub Opens : dpitunnel_cli.Stream.Remote.World → Outcome Init → Type 0
Opens w fault = Unit
Opens w out_of_fuel = Unit
Opens w (done i) =
    (i.open_socket ≡ w.socket_ok) × ((w.socket_ok ≡ true) ⊎ (ltb_ℤ i.code (pos 0) ≡ true))

-- A response of the server that is accepted, or a certificate with the host's name.
abbrev pub Accepted : World → Profile → Bytes → Bool → Type 0
Accepted w r host true = Verifies w.https host (done (true, 1))
Accepted w r host false =
    (time : ℕ) × (message : Bytes) × (judge_response w.connect_time time host message ≡ done true)

-- How a test ends: its socket is closed exactly once, if it could be created, and it succeeds only
-- with such an answer.
abbrev pub Ends : World → Profile → Bytes → Bool → Tested → Type 0
Ends w r host is_https Tested.waits = Unit
Ends w r host is_https undefined = Unit
Ends w r host is_https (tested false closed) = closed ≡ (if w.remote.socket_ok then 1 else 0)
Ends w r host is_https (tested true closed) =
    (w.remote.socket_ok ≡ true) × (closed ≡ 1) × Accepted w r host is_https
