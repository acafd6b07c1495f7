-- ===== src/Dns/System.antt =====
-- `resolve_host_over_system`: the first IPv4 address of `getaddrinfo`, as `inet_ntop` writes it.
use dpitunnel_cli.Prelude.{
  ℕ, ◌+◌, List, [], ◌∷◌, ◌++◌, Option, none, some, Bytes, find_byte, resize, take, drop, length,
}

-- An address of the list: the text of `inet_ntop` for IPv4, or of another family.
pub data AddrInfo : Type 0 where
  inet : Bytes → AddrInfo
  other_family : AddrInfo

-- `inet_ntop` writes the text and a NUL over the start of the buffer.
unfoldable pub write_c_str : Bytes → Bytes → Bytes
write_c_str buffer text = text ++ 0 ∷ drop (length text + 1) buffer

-- `ip.substr(0, ip.find(' '))`
unfoldable pub up_to : Bytes → Option ℕ → Bytes
up_to s none = s
up_to s (some at) = take at s

unfoldable pub ip_of_buffer : Bytes → Bytes
ip_of_buffer buffer = up_to buffer (find_byte b' ' buffer)

-- `ip` is what the caller's variable holds; `none` is -1.
unfoldable pub first_inet : Bytes → List AddrInfo → Option Bytes
first_inet ip [] = none
first_inet ip (other_family ∷ rest) = first_inet ip rest
first_inet ip (inet text ∷ rest) = some (ip_of_buffer (write_c_str (resize ip 50 b' ') text))

unfoldable pub resolve_host_over_system : Option (List AddrInfo) → Bytes → Option Bytes
resolve_host_over_system none ip = none
resolve_host_over_system (some addresses) ip = first_inet ip addresses
