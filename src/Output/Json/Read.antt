-- ===== src/Output/Json/Read.antt =====
-- The document of `trafix connections --json` (`trfx_print_connections_json`, src/trfx_cli_output.c), read
-- back by a reader of its grammar.
use Prim.Native.String.{String}
use trafix.Prelude.{
  ℕ, zero, suc, ◌^◌, ◌≤◌, ◌<◌, List, [], ◌∷◌, ◌++◌, Option, none, some, ◌≡◌, refl, arith, length,
  length-append, ◌==◌, if◌then◌else◌,
}
use trafix.Cstr.Scan.{drop_prefix, ◌>>=◌, scan_char, scan_uint}
use trafix.Cstr.Scan.Written.{StopsAt, scan_uint-show}
use trafix.Cstr.Number.{show}
use trafix.Cstr.{Text, codes, is_digit, is_empty}
use trafix.Actions.Requests.{ConnectionInfo}
use trafix.Output.Strings.{read_json_string, read_json_string-print_json_string}
use trafix.Output.{print_json_string}
use trafix.Output.Json.{string_field, number_field, connection_object}

unfoldable pub string_at : String → Text → Option (Text × Text)
string_at key s = do t ← drop_prefix (codes key) s; read_json_string t

unfoldable pub number_at : String → Text → Option (ℕ × Text)
number_at key s = do t ← drop_prefix (codes key) s; scan_uint t

-- One object, without the inode, which is not printed.
unfoldable pub read_object : Text → Option (ConnectionInfo × Text)
read_object s = do
  (protocol, a) ← string_at "{\"proto\":" s
  (local_addr, b) ← string_at ",\"local\":" a
  (remote_addr, c) ← string_at ",\"remote\":" b
  (state, d) ← string_at ",\"state\":" c
  (uid, e) ← number_at ",\"uid\":" d
  (user, f) ← string_at ",\"user\":" e
  (pid, g) ← string_at ",\"pid\":" f
  (process, h) ← string_at ",\"process\":" g
  rest ← scan_char b'}' h
  some (
    record {
      protocol = protocol;
      local_addr = local_addr;
      remote_addr = remote_addr;
      state = state;
      inode = 0;
      uid = uid;
      user = user;
      pid = pid;
      process = process;
    },
    rest,
  )

abbrev pub without_inode : ConnectionInfo → ConnectionInfo
without_inode c = record c { inode = 0 }

pub drop_prefix-append : (p s : Text) → drop_prefix p (p ++ s) ≡ some s
drop_prefix-append [] s = refl
drop_prefix-append (c ∷ p) s = ground (arith, drop_prefix-append p s)

string_at-string_field :
    (key : String) (value rest : Text)
    → string_at key (string_field key value rest) ≡ some (value, rest)
unfolding string_at string_field
string_at-string_field key value rest =
    rw (drop_prefix-append (codes key) (print_json_string value ++ rest))
      (read_json_string-print_json_string value rest)

number_at-number_field :
    (key : String) (value : ℕ) (rest : Text)
    → value < 2 ^ 32
    → StopsAt is_digit rest
    → number_at key (number_field key value rest) ≡ some (value, rest)
unfolding number_at number_field
number_at-number_field key value rest h stop =
    rw (drop_prefix-append (codes key) (show value ++ rest)) (scan_uint-show 0 value rest h stop)

user-StopsAt : (value rest : Text) → StopsAt is_digit (string_field ",\"user\":" value rest)
unfolding string_field is_digit
user-StopsAt value rest = refl

pub read_object-connection_object :
    (c : ConnectionInfo) (rest : Text)
    → c.uid < 2 ^ 32
    → read_object (connection_object c rest) ≡ some (without_inode c, rest)
unfolding read_object connection_object
read_object-connection_object c rest h =
    rw
      (
        string_at-string_field "{\"proto\":" c.protocol _,
        string_at-string_field ",\"local\":" c.local_addr _,
        string_at-string_field ",\"remote\":" c.remote_addr _,
        string_at-string_field ",\"state\":" c.state _,
        number_at-number_field ",\"uid\":" c.uid _ h (user-StopsAt c.user _),
        string_at-string_field ",\"user\":" c.user _,
        string_at-string_field ",\"pid\":" c.pid _,
        string_at-string_field ",\"process\":" c.process _,
      )
      refl

-- The objects behind the first one, with a comma in front of each; the fuel is more than their number.
unfoldable pub read_more : ℕ → Text → Option (List ConnectionInfo × Text)
unfolding read_object
read_more zero s = none
read_more (suc fuel) [] = none
read_more (suc fuel) (c ∷ s) =
    let next = do (row, t) ← read_object s; (rows, rest) ← read_more fuel t; some (row ∷ rows, rest)
    in if c == b',' then next else some ([], c ∷ s)

-- All objects, up to the closing bracket.
unfoldable pub read_objects : ℕ → Text → Option (List ConnectionInfo × Text)
unfolding read_more read_object
read_objects fuel [] = none
read_objects fuel (c ∷ s) =
    let items = do
      (row, t) ← read_object (c ∷ s)
      (rows, rest) ← read_more fuel t
      some (row ∷ rows, rest)
    in if c == b']' then some ([], c ∷ s) else items

abbrev pub whole : List ConnectionInfo × Text → Option (List ConnectionInfo)
whole (rows, rest) = do
  t ← drop_prefix (codes "]}\n") rest
  (if is_empty t then some rows else none)

-- The rows of a document, which must end behind its last line.
abbrev pub behind_opening : Option Text → Option (List ConnectionInfo)
behind_opening opened = do t ← opened; read ← read_objects (length t) t; whole read

unfoldable pub read_connections_json : Text → Option (List ConnectionInfo)
unfolding read_objects
read_connections_json s = behind_opening (drop_prefix (codes "{\"connections\":[") s)

-- The bytes behind the objects.
abbrev pub closing : Text
closing = codes "]}\n"

abbrev pub without_inodes : List ConnectionInfo → List ConnectionInfo
without_inodes [] = []
without_inodes (c ∷ rows) = without_inode c ∷ without_inodes rows

abbrev pub SmallUid : ConnectionInfo → Type 0
SmallUid c = c.uid < 2 ^ 32

abbrev pub and_more : ℕ → Option (ConnectionInfo × Text) → Option (List ConnectionInfo × Text)
and_more fuel first = do (row, t) ← first; (rows, rest) ← read_more fuel t; some (row ∷ rows, rest)

pub read_objects-connection_object :
    (fuel : ℕ) (c : ConnectionInfo) (rest : Text)
    → read_objects fuel (connection_object c rest)
      ≡ and_more fuel (read_object (connection_object c rest))
unfolding read_objects connection_object string_field
read_objects-connection_object fuel c rest = refl

length-string_field :
    (n : ℕ) (key : String) (value rest : Text)
    → n ≤ length rest
    → n ≤ length (string_field key value rest)
unfolding string_field
length-string_field n key value rest h = omega (
  arith,
  length-append (codes key) (print_json_string value ++ rest),
  length-append (print_json_string value) rest,
)

length-number_field :
    (n : ℕ) (key : String) (value : ℕ) (rest : Text)
    → n ≤ length rest
    → n ≤ length (number_field key value rest)
unfolding number_field
length-number_field n key value rest h =
    omega (arith, length-append (codes key) (show value ++ rest), length-append (show value) rest)

pub length-connection_object :
    (c : ConnectionInfo) (rest : Text) → length rest < length (connection_object c rest)
unfolding connection_object
length-connection_object c rest =
    let n = suc (length rest) in
    length-string_field n "{\"proto\":" c.protocol _ (
      length-string_field n ",\"local\":" c.local_addr _ (
        length-string_field n ",\"remote\":" c.remote_addr _ (
          length-string_field n ",\"state\":" c.state _ (
            length-number_field n ",\"uid\":" c.uid _ (
              length-string_field n ",\"user\":" c.user _ (
                length-string_field n ",\"pid\":" c.pid _
                  (length-string_field n ",\"process\":" c.process _ (omega arith))))))))
