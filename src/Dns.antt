-- ===== src/Dns.antt =====
-- dns.cpp: a host's address from the program's lists, from a DNS server over UDP or HTTPS, or from
-- the system. dnslib and the sockets are parameters.
pub mod Udp
pub mod Doh
pub mod System
pub mod Resolve
pub mod Answers
pub mod Query
pub mod Trailing
pub mod Listed
use dpitunnel_cli.Prelude.{ℕ, ◌+◌, ◌-◌, pos, List, [], ◌∷◌, ◌++◌, Option, none, some}
use dpitunnel_cli.Prelude.{Bytes, length, get_or, ◌==◌, if◌then◌else◌}
use dpitunnel_cli.Prelude.Outcome.{Outcome, done, fault}
use dpitunnel_cli.Http.Request.{to_string}

-- A record of a DNS answer: four bytes of an address, or of another type.
pub data ResourceRecord : Type 0 where
  rdata_a : (a b c d : ℕ) → ResourceRecord
  other_record : ResourceRecord

pub record Message : Type 0 where
  pub id : ℕ
  pub answers : List ResourceRecord

-- dnslib: the bytes of a query for a host's A records, and the decoder, which is given the message
-- that it fills in; `none` is its exception.
pub record DnsLib : Type 0 where
  pub encode_query : Bytes → ℕ → Bytes
  pub decode : Message → Bytes → Option Message

abbrev pub no_message : Message
no_message = record { id = 0; answers = [] }

-- `host_full.back()` of an empty text is read out of bounds.
unfoldable pub form_dns_request : DnsLib → Bytes → ℕ → Outcome Bytes
form_dns_request lib [] id = fault
form_dns_request lib (c ∷ s) id =
    let host = c ∷ s in
    done (
      lib.encode_query (if get_or host (length host - 1) 0 == b'.' then host else host ++ b'.' ∷ [])
        id)

-- The address in dotted form.
unfoldable pub dotted : ℕ → ℕ → ℕ → ℕ → Bytes
dotted a b c d =
    to_string (pos a)
    ++ (b'.' ∷ to_string (pos b))
    ++ (b'.' ∷ to_string (pos c))
    ++ (b'.' ∷ to_string (pos d))

-- The first A record decides; `none` is -1.
unfoldable pub first_address : List ResourceRecord → Option Bytes
first_address [] = none
first_address (other_record ∷ rest) = first_address rest
first_address (rdata_a a b c d ∷ rest) = some (dotted a b c d)
