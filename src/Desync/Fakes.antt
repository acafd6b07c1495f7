-- ===== src/Desync/Fakes.antt =====
-- The two fake packets of desync.cpp: a ClientHello for www.w3.org and a GET request to it.
use dpitunnel_cli.Prelude.{
  ℕ, ◌+◌, ◌-◌, ◌*◌, String, [], ◌++◌, ◌∷◌, Bytes, codes, replicate, ltb, if◌then◌else◌,
}

digit : ℕ → ℕ
digit c = if ltb c b'a' then c - b'0' else c - b'a' + 10

-- The bytes that pairs of hexadecimal digits stand for.
hex_pairs : Bytes → Bytes
unfolding digit
hex_pairs [] = []
hex_pairs (c ∷ []) = []
hex_pairs (c ∷ d ∷ s) = (digit c * 16 + digit d) ∷ hex_pairs s

hex : String → Bytes
unfolding hex_pairs
hex s = hex_pairs (codes s)

-- The ClientHello ends in 150 zero bytes.
unfoldable pub fake_tls_packet : Bytes
unfolding hex
fake_tls_packet =
    hex "1603010200010001fc03039a8fa76a5d57f36219be468245e2595cb448311215"
    ++ hex "14792caacdeadaf0e1fdbb20f4832a94f1483b9db674ba3c8163bc18cc144557"
    ++ hex "6c80f925cf9c866050312ee90022130113031302c02bc02fcca9cca8c02cc030"
    ++ hex "c00ac009c013c01400330039002f0035010001910000000f000d00000a777777"
    ++ hex "2e77332e6f726700170000ff01000100000a000e000c001d0017001800190100"
    ++ hex "0101000b00020100002300000010000e000c02683208687474702f312e310005"
    ++ hex "000501000000000033006b0069001d0020b0e4da34b4298dd35c70d3bee8a72a"
    ++ hex "6be411198b189d839a497c837fa9038c3c00170041044c04a4714c497555d118"
    ++ hex "1e2262195300de742fb3de1354e6780794550eb26cb003ee79a9961e0e981778"
    ++ hex "24440c8880068bd480bf677c376a5b464ca7986fb922002b0009080304030303"
    ++ hex "020301000d001800160403050306030804080508060401050106010203020100"
    ++ hex "2d00020101001c0002400100150096"
    ++ replicate 150 0

-- A line of a request ends in CR and LF.
abbrev crlf : Bytes
crlf = 13 ∷ 10 ∷ []

unfoldable pub fake_http_packet : Bytes
fake_http_packet =
    codes "GET / HTTP/1.1"
    ++ (crlf
        ++ (codes "Host: www.w3.org"
            ++ (crlf
                ++ (codes
                      "User-Agent: Mozilla/5.0 (Windows NT 10.0; Win64; x64; rv:70.0) Gecko/20100101 Firefox/70.0"
                    ++ (crlf
                        ++ (codes
                              "Accept: text/html,application/xhtml+xml,application/xml;q=0.9,*/*;q=0.8"
                            ++ (crlf
                                ++ (codes "Accept-Encoding: gzip, deflate" ++ (crlf ++ crlf)))))))))
