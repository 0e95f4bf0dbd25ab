-- ===== src/Connections/Rows/Written.antt =====
-- A line of /proc/net/tcp as the kernel writes it, with IPv4 addresses: `%4d: %08X:%04X %08X:%04X %02X`, the
-- queues, the timer and the retransmits, then the user, the timeout and the inode.
use trafix.Prelude.{
  ℕ, suc, ◌<◌, ◌^◌, true, false, ◌∷◌, ◌++◌, none, some, ◌≡◌, refl, ap, ◌∙◌, arith, all,
  if◌then◌else◌,
}
use trafix.Cstr.Number.{show}
use trafix.Cstr.Scan.{is_hex, is_black, scan_set}
use trafix.Cstr.Scan.Hex.{hex2, hex4, scan_hex-hex2, skip_space-hex2}
use trafix.Cstr.Scan.Written.{
  StopsAt, spaces, scan_uint-show, scan_ulong-show, scan_string-word, scan_set-append,
}
use trafix.Cstr.{Text, codes, clip, is_digit, is_empty, skip_space, is_space}
use trafix.Connections.{socket_state_name, should_skip_connection_state}
use trafix.Connections.Rows.{System, Line, is_address_char, scan_line, resolve_uid_name, row_of}
use trafix.Connections.Rows.Endpoints.{
  Endpoint, IsEndpoint, write_endpoint, dotted_endpoint, endpoint_chars,
  parse_ip_port-write_endpoint,
}

pub record Fields : Type 0 where
  pub slot_pad : ℕ
  pub slot : ℕ
  pub local : Endpoint
  pub remote : Endpoint
  pub state : ℕ
  pub queues : Text
  pub timer : Text
  pub retransmits : Text
  pub uid_pad : ℕ
  pub uid : ℕ
  pub timeout_pad : ℕ
  pub timeout : ℕ
  pub inode : ℕ
  pub rest : Text

abbrev timeout_on : Fields → Text
timeout_on f = spaces (suc f.timeout_pad) ++ (show f.timeout ++ b' ' ∷ (show f.inode ++ f.rest))

abbrev uid_on : Fields → Text
uid_on f = spaces (suc f.uid_pad) ++ (show f.uid ++ timeout_on f)

abbrev retransmits_on : Fields → Text
retransmits_on f = b' ' ∷ (f.retransmits ++ uid_on f)

abbrev timer_on : Fields → Text
timer_on f = b' ' ∷ (f.timer ++ retransmits_on f)

abbrev queues_on : Fields → Text
queues_on f = b' ' ∷ (f.queues ++ timer_on f)

abbrev state_on : Fields → Text
state_on f = b' ' ∷ (hex2 f.state ++ queues_on f)

abbrev remote_on : Fields → Text
remote_on f = b' ' ∷ (write_endpoint f.remote ++ state_on f)

abbrev pub write_line : Fields → Text
write_line f =
    spaces f.slot_pad ++ (show f.slot ++ b':' ∷ b' ' ∷ (write_endpoint f.local ++ remote_on f))

abbrev pub IsWord : Text → Type 0
IsWord w = (is_empty w ≡ false) × (all is_black w ≡ true)

pub record IsLine (f : Fields) : Type 0 where
  pub local : IsEndpoint f.local
  pub remote : IsEndpoint f.remote
  pub slot : f.slot < 2 ^ 32
  pub state : f.state < 256
  pub queues : IsWord f.queues
  pub timer : IsWord f.timer
  pub retransmits : IsWord f.retransmits
  pub uid : f.uid < 2 ^ 32
  pub timeout : f.timeout < 2 ^ 32
  pub inode : f.inode < 2 ^ 64
  pub rest : StopsAt is_digit f.rest

abbrev scanned : Fields → Line
scanned f = record {
  local_hex = write_endpoint f.local;
  remote_hex = write_endpoint f.remote;
  state_num = f.state;
  uid = f.uid;
  inode = f.inode;
}

-- The address as it stands in a line.
scan_endpoint :
    (e : Endpoint) (rest : Text)
    → IsEndpoint e
    → scan_set 127 is_address_char (skip_space (b' ' ∷ (write_endpoint e ++ b' ' ∷ rest)))
      ≡ some (write_endpoint e, b' ' ∷ rest)
unfolding skip_space is_space is_hex
scan_endpoint e rest h =
    ap (scan_set 127 is_address_char) (
      skip_space-hex2 e.d
        (hex2 e.c ++ (hex2 e.b ++ (hex2 e.a ++ b':' ∷ (hex4 e.port ++ b' ' ∷ rest)))) h.d_lt)
    ∙ scan_set-append 127 is_address_char (write_endpoint e) (b' ' ∷ rest) refl (endpoint_chars e h)
        refl (omega arith)

scan_line-write_line : (f : Fields) → IsLine f → scan_line (write_line f) ≡ some (scanned f)
unfolding scan_line is_digit is_space is_hex
scan_line-write_line f h =
    rw
      (
        scan_uint-show f.slot_pad f.slot (b':' ∷ b' ' ∷ (write_endpoint f.local ++ remote_on f))
            h.slot refl,
        scan_endpoint f.local (write_endpoint f.remote ++ state_on f) h.local,
        scan_endpoint f.remote (hex2 f.state ++ queues_on f) h.remote,
        scan_hex-hex2 f.state (queues_on f) h.state refl,
        scan_string-word f.queues (timer_on f) h.queues.0 h.queues.1 refl,
        scan_string-word f.timer (retransmits_on f) h.timer.0 h.timer.1 refl,
        scan_string-word f.retransmits (uid_on f) h.retransmits.0 h.retransmits.1 refl,
        scan_uint-show (suc f.uid_pad) f.uid (timeout_on f) h.uid refl,
        scan_uint-show (suc f.timeout_pad) f.timeout (b' ' ∷ (show f.inode ++ f.rest)) h.timeout
            refl,
        scan_ulong-show 1 f.inode f.rest h.inode h.rest,
      )
      refl

module _ (sys : System) where
  -- A line that the kernel writes for a connection of two IPv4 addresses is read as the row of its fields:
  -- both addresses as "a.b.c.d:port", the name of the state, the user and the inode, and no owner yet; unless
  -- its state is one that is left out.
  pub row_of-write_line :
      (proto : Text) (f : Fields)
      → IsLine f
      → row_of sys proto (write_line f) ≡ (
          if should_skip_connection_state proto f.state
          then none
          else some (record {
            protocol = clip 8 proto;
            local_addr = dotted_endpoint f.local;
            remote_addr = dotted_endpoint f.remote;
            state = clip 32 (socket_state_name proto f.state);
            inode = f.inode;
            uid = f.uid;
            user = resolve_uid_name sys f.uid;
            pid = codes "-";
            process = codes "-";
          }))
  unfolding row_of
  row_of-write_line proto f h =
      rw
        (
          scan_line-write_line f h,
          parse_ip_port-write_endpoint sys f.local h.local,
          parse_ip_port-write_endpoint sys f.remote h.remote,
        )
        refl
