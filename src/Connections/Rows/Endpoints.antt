-- ===== src/Connections/Rows/Endpoints.antt =====
-- An IPv4 address and a port as the kernel writes them, `%08X:%04X`: the four bytes of the address come from
-- the last to the first, since a little-endian kernel reads them as one word (`parse_ip_port`,
-- src/trfx_connections.c).
use trafix.Prelude.{
  ℕ, ◌/◌, ◌%◌, ◌≤◌, ◌<◌, true, false, [], ◌∷◌, ◌++◌, some, ◌≡◌, refl, arith, all, length,
  length-append, take_all, ◌==◌,
}
use trafix.Cstr.Number.{show}
use trafix.Cstr.Number.Decimal.{show-length_byte, show-length_port}
use trafix.Cstr.Scan.{is_hex}
use trafix.Cstr.Scan.Hex.{
  hex2, hex4, upper_hex, upper_hex-is_hex, scan_hex_within-hex2, scan_hex-hex4,
}
use trafix.Cstr.Compare.{rfind_char-append}
use trafix.Cstr.{Text, codes, clip, mem_char}
use trafix.Connections.Rows.{System, is_address_char, ipv4_text, address_text, parse_ip_port}

pub record Endpoint : Type 0 where
  pub a : ℕ
  pub b : ℕ
  pub c : ℕ
  pub d : ℕ
  pub port : ℕ

pub record IsEndpoint (e : Endpoint) : Type 0 where
  pub a_lt : e.a < 256
  pub b_lt : e.b < 256
  pub c_lt : e.c < 256
  pub d_lt : e.d < 256
  pub port_lt : e.port < 65536

abbrev address_hex : Endpoint → Text
address_hex e = hex2 e.d ++ (hex2 e.c ++ (hex2 e.b ++ hex2 e.a))

abbrev pub write_endpoint : Endpoint → Text
write_endpoint e = address_hex e ++ b':' ∷ hex4 e.port

-- "a.b.c.d:port"
abbrev pub dotted_endpoint : Endpoint → Text
dotted_endpoint e =
    show e.a
    ++ (codes "."
        ++ (show e.b
            ++ (codes "."
                ++ (show e.c ++ (codes "." ++ (show e.d ++ (codes ":" ++ show e.port)))))))

hex_char : (d : ℕ) → d < 16 → is_address_char (upper_hex d) ≡ true
hex_char d h = rw (upper_hex-is_hex d h) refl

high_char : (n : ℕ) → n < 256 → is_address_char (upper_hex (n / 16)) ≡ true
high_char n h = hex_char (n / 16) (omega arith)

low_char : (n : ℕ) → is_address_char (upper_hex (n % 16)) ≡ true
low_char n = hex_char (n % 16) (omega arith)

pub endpoint_chars : (e : Endpoint) → IsEndpoint e → all is_address_char (write_endpoint e) ≡ true
unfolding is_hex
endpoint_chars e h =
    rw
      (
        high_char e.d h.d_lt,
        low_char e.d,
        high_char e.c h.c_lt,
        low_char e.c,
        high_char e.b h.b_lt,
        low_char e.b,
        high_char e.a h.a_lt,
        low_char e.a,
        high_char (e.port / 256) (omega arith),
        low_char (e.port / 256),
        high_char (e.port % 256) (omega arith),
        low_char (e.port % 256),
      )
      refl

port_no_colon : (e : Endpoint) → IsEndpoint e → mem_char b':' (hex4 e.port) ≡ false
unfolding mem_char
port_no_colon e h =
    rw
      (
        not_colon (e.port / 256 / 16) (omega arith),
        not_colon (e.port / 256 % 16) (omega arith),
        not_colon (e.port % 256 / 16) (omega arith),
        not_colon (e.port % 256 % 16) (omega arith),
      )
      refl
  where
    not_colon : (d : ℕ) → d < 16 → (upper_hex d == b':') ≡ false
    not_colon d h = ground arith

ipv4_text-write_endpoint :
    (e : Endpoint) → IsEndpoint e → ipv4_text (write_endpoint e) ≡ some (dotted_endpoint e)
unfolding ipv4_text
ipv4_text-write_endpoint e h =
    rw
      (
        scan_hex_within-hex2 e.d (hex2 e.c ++ (hex2 e.b ++ (hex2 e.a ++ b':' ∷ hex4 e.port)))
            h.d_lt,
        scan_hex_within-hex2 e.c (hex2 e.b ++ (hex2 e.a ++ b':' ∷ hex4 e.port)) h.c_lt,
        scan_hex_within-hex2 e.b (hex2 e.a ++ b':' ∷ hex4 e.port) h.b_lt,
        scan_hex_within-hex2 e.a (b':' ∷ hex4 e.port) h.a_lt,
        scan_hex-hex4 e.port [] h.port_lt tt,
      )
      refl

dotted_endpoint-fits : (e : Endpoint) → IsEndpoint e → length (dotted_endpoint e) ≤ 63
dotted_endpoint-fits e h = omega (
  arith,
  length-append (show e.a) (
      codes "."
      ++ (show e.b
          ++ (codes "." ++ (show e.c ++ (codes "." ++ (show e.d ++ (codes ":" ++ show e.port))))))),
  length-append (show e.b)
      (codes "." ++ (show e.c ++ (codes "." ++ (show e.d ++ (codes ":" ++ show e.port))))),
  length-append (show e.c) (codes "." ++ (show e.d ++ (codes ":" ++ show e.port))),
  length-append (show e.d) (codes ":" ++ show e.port),
  show-length_byte e.a h.a_lt,
  show-length_byte e.b h.b_lt,
  show-length_byte e.c h.c_lt,
  show-length_byte e.d h.d_lt,
  show-length_port e.port h.port_lt,
)

module _ (sys : System) where
  pub parse_ip_port-write_endpoint :
      (e : Endpoint) → IsEndpoint e → parse_ip_port sys (write_endpoint e) ≡ dotted_endpoint e
  unfolding parse_ip_port clip
  parse_ip_port-write_endpoint e h =
      rw
        (
          parse_ip_port,
          rfind_char-append b':' (address_hex e) (hex4 e.port) (port_no_colon e h),
          address_text,
          scan_hex-hex4 e.port [] h.port_lt tt,
          ipv4_text-write_endpoint e h,
        )
        (take_all 63 (dotted_endpoint e) (dotted_endpoint-fits e h))
