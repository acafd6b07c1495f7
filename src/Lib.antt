-- ===== src/Lib.antt =====
-- DPITunnel-cli, a proxy that gets past filters of a network: it takes a client's request, resolves
-- the server, connects, and sends the client's first data in packets that a filter misreads.
--
-- The parts and their files. The paths of the program are from the root of the repository.
--   Settings          include/dpitunnel-cli.h: the enumerations, `Profile_s` and `Settings_perst_s`.
--   Utils/Wildcard, Ttl, Sni, Whitelist, Methods, HostName
--                     utils.cpp: `wildcard_match`, `tcp_get_auto_ttl`, `get_tls_sni`, the whitelist
--                     and the custom IPs, `validate_http_method`, `check_host_name`.
--   Desync/Fakes, Packet, Raw, Attack
--                     desync.cpp: the two fake packets, `form_packet`, `do_desync_attack`;
--                     `send_string_raw` of socket.cpp.
--   Desync/Receiver   no code of the program: what a server at a distance reads from the packets.
--   Profiles          profiles.cpp: `add_profile`, `change_profile`.
--   CmdLine           dpitunnel-cli.cpp: `parse_cmdline`.
--   Proxy             dpitunnel-cli.cpp: the server's name and the split position in
--                     `process_client_cycle`; Proxy/Cycle: that function as a whole,
--                     with its state in Proxy/State and its loop in Proxy/Transfer.
--   Stream            socket.cpp: `send_string`; Stream/Receive, Connect, Remote, Hops: `recv_string`,
--                     `connect_with_timeout`, `init_remote_server_socket`, `count_hops`.
--   Capture           desync.cpp: `sniff_ack_packet`, `sniff_handshake_packet`.
--   Dns/Udp, Doh, System, Resolve
--                     dns.cpp: the three resolvers and `resolve_host`, which asks one of them.
--   Accept            dpitunnel-cli.cpp: `accept_client_cycle`, its client threads and
--                     `sig_int_handler` as steps.
--   Main              dpitunnel-cli.cpp: `main` up to that loop, with CmdLine, Utils/Whitelist,
--                     Profiles and Netiface; `daemonize` of utils.cpp.
--   Netiface/Ssid, Routes
--                     netiface.cpp: `find_ssid`, `parse_rtattr` and `route_monitor_thread`; Netiface
--                     itself: the current interface and the name of its access point.
--   Autoconf/Target, Response, Https, Attempt, Run
--                     autoconf.cpp: the site that is typed in, the judgement of an answer, the TLS
--                     check, `test_desync_attack` (with Capture, Stream and Desync) and
--                     `run_autoconf` (with Dns and Stream/Hops); Autoconf itself: the search.
--   Http              packet.cpp: `parse_http_message`, `parse_request`, `remove_proxy_strings`.
--   Base64            include/base64.h.
--   Tests             the definitions and theorems at concrete inputs.
--   Prelude           what the others share: texts as lists of bytes, signed integers, outcomes.
--
-- How code corresponds to definitions. A function of the program is a function of the same name; a
-- part of a long one has a name of its own. A text is a list of bytes, a C string the list of the
-- bytes before its NUL, `npos` is `none`. An unsigned value of w bits is a number, with `% 2 ^ w`
-- where the code can pass it; an `int` is an integer. `Outcome` tells a value from a read out of
-- bounds (`fault`). The globals that a function reads or sets are arguments and results.
-- `do_desync_attack` is a monad: `Kernel` holds what system calls answer, `Wire` the packets sent
-- and the sockets open. A map or a set is a list; the keys of the profiles rise, as in `std::map`.
--
-- Fuel. The loop of `get_tls_sni` runs on fuel, the number of bytes, each turn advancing by four at
-- least; `get_tls_sni` is shown to return. The inner loop of `base64_encode` is given the number of
-- pending bits, and each turn takes six. `find_ssid` is given one turn more than there are bytes, and
-- each takes two at least; the messages and attributes of a datagram take a turn each, and 16 and 4
-- bytes at least. The loop for the TTL of the search is given as many turns as the TTL. A loop over
-- what the system answers is given the list of the answers, and says so where that ends first. All
-- other loops are structural.
--
-- Threads. A thread that shares atomics with another is given what they hold at each of its turns. The
-- accept loop and its clients are a relation of steps, `AcceptStep` and `ClientStep`; a part under the
-- mutex is one step, except where the other side does not lock it.
--
-- Parameters. The checksums of RawSocket are arguments of `form_packet`; `getopt_long_only` gives
-- `parse_cmdline` its list of options; the file system gives the lists of lines. `World` holds what
-- the calls of `process_client_cycle` answer, `Run` its buffer, what it has sent and how often it has
-- closed each socket. `send_string` runs over the list of answers of `send`. The `World` of another
-- module holds what the calls there answer: sockets, `poll`, the clock, OpenSSL, httplib. `DnsLib` is
-- dnslib: the bytes of a query, and the message that an answer is decoded to.
--
-- Not modelled: `ignore_sigpipe` and the reading of the CA bundle, which are system calls and calls of
-- OpenSSL; what the program prints, and its pid file; how libnl forms and reads its messages, which
-- calls back with results of a scan; and RawSocket, cpp-httplib, dnslib and libnl, which are other
-- projects.
pub mod Prelude
pub mod Settings
pub mod Utils
pub mod Desync
pub mod Profiles
pub mod CmdLine
pub mod Base64
pub mod Http
pub mod Proxy
pub mod Stream
pub mod Dns
pub mod Capture
pub mod Accept
pub mod Autoconf
pub mod Netiface
pub mod Main
mod Tests
