-- ===== src/Tests/Acting.antt =====
-- Actions (src/trfx_actions.c).
use trafix.Prelude.Int.{pos}
use trafix.Prelude.{ℕ, true, false, List, [], ◌∷◌, none, some, ◌≡◌, refl, arith, All}
use trafix.Cstr.{codes, mem_char}
use trafix.Actions.Audit.{append, audit_at, audit_count, empty, entry_of}
use trafix.Actions.Audit.Recent.{append_all, audit_at-append_all}
use trafix.Actions.Endpoint.{
  ipv6, write, split_endpoint, split_endpoint-write, split_endpoint-no_colon,
}
use trafix.Actions.Execute.{execute}
use trafix.Actions.Execute.Outcomes.{is_ok, succeeded, execute-is_ok}
use trafix.Actions.Execute.Safety.{EffectFits, execute-EffectFits}
use trafix.Actions.Execute.Sockets.{execute-set_socket_drop}
use trafix.Actions.Requests.{SocketOwnerInfo, set_process_kill, set_socket_drop}
use trafix.Actions.Types.{Request, failed, AuditEntry, ResultStatus}
use trafix.App.Confirmed.{
  confirms, DropFits, run_kill_command-EffectFits, run_drop_command-DropFits,
}
use trafix.App.Exit.{CodeFits, run_commands-CodeFits}
use trafix.App.{Session, kill_request, run_kill_command, run_drop_command, drop_request}
use trafix.Cli.Options.{Options, drop, initial}
use trafix.Cli.Parse.{parse_cli}
use trafix.Actions.World.{World, sent, exited}

fe80 : mem_char b']' (codes "fe80::1") ≡ false
unfolding mem_char
fe80 = refl

ten : mem_char b':' (codes "10.0.0.1") ≡ false
unfolding mem_char
ten = refl

split_endpoint-write_example :
    split_endpoint 64 8 (write (ipv6 (codes "fe80::1") (codes "443")))
    ≡ some (codes "fe80::1", codes "443")
split_endpoint-write_example =
    split_endpoint-write 64 8 (ipv6 (codes "fe80::1") (codes "443"))
      (omega arith, omega arith, omega arith, omega arith, fe80)

split_endpoint-no_colon_example : split_endpoint 64 8 (codes "10.0.0.1") ≡ none
split_endpoint-no_colon_example = split_endpoint-no_colon 64 8 (codes "10.0.0.1") ten

abbrev kill_sshd : Request
kill_sshd = set_process_kill (codes "42") (codes "sshd")

-- Process 42 is that of user 1000, every signal arrives, and `ss` exits with 0.
abbrev pub world : World
world = record {
  read_file = λ path. some (codes "Name:\tsshd\nUid:\t1000\t1000\t1000\t1000\n");
  kill = λ pid. sent;
  run_ss = λ argv. exited 0;
}

execute-EffectFits_example :
    All
      (EffectFits world kill_sshd true 1000 256)
      (execute world (pos 7) empty (some kill_sshd) true 1000 256).effects
execute-EffectFits_example = execute-EffectFits world (pos 7) empty kill_sshd true 1000 256

execute-is_ok_example :
    let done = execute world (pos 7) empty (some kill_sshd) true 1000 256 in
    (is_ok done.result.status ≡ succeeded world done.effects)
    × (done.audit ≡ append empty (entry_of (pos 7) (some kill_sshd) (some done.result)))
execute-is_ok_example = execute-is_ok world (pos 7) empty (some kill_sshd) true 1000 256

abbrev owner : SocketOwnerInfo
owner = record {
  pid = codes "42";
  process = codes "sshd";
  laddr = codes "10.0.0.1";
  lport = codes "22";
  raddr = codes "10.0.0.2";
  rport = codes "5555";
  proto = codes "TCP";
}

execute-set_socket_drop_example :
    let done = execute world (pos 7) empty (some (set_socket_drop (some owner))) true 0 256 in
    (done.result.status ≡ failed)
    × (done.result.message ≡ codes "connection endpoints unavailable")
    × (done.effects ≡ [])
execute-set_socket_drop_example = execute-set_socket_drop world (pos 7) empty owner ten

-- An entry of the time `n`.
abbrev entry : ℕ → AuditEntry
entry n = record {
  when = pos n;
  request = kill_sshd;
  status = ResultStatus.ok;
  message = codes "ok";
}

abbrev nine : List AuditEntry
nine = entry 1 ∷ entry 2 ∷ entry 3 ∷ entry 4 ∷ entry 5 ∷ entry 6 ∷ entry 7 ∷ entry 8 ∷ entry 9 ∷ []

audit_at-append_all_example :
    (audit_at (append_all empty nine) 0 ≡ some (entry 9))
    × (audit_count (append_all empty nine) ≡ 8)
audit_at-append_all_example = audit_at-append_all nine 0

abbrev options : Options
options = parse_cli (codes "kill" ∷ codes "42" ∷ codes "--yes" ∷ [])

abbrev session : Session
session = record {
  world = world;
  euid = 1000;
  now = pos 7;
  audit = empty;
  connections = [];
  sockets = owner ∷ [];
  is_tty = false;
  key = none;
}

run_kill_command-EffectFits_example :
    All
      (EffectFits world (kill_request session options) (confirms session options) 1000 256)
      (run_kill_command session options).effects
run_kill_command-EffectFits_example = run_kill_command-EffectFits session options

abbrev drop_options : Options
drop_options = record initial {
  mode = drop;
  drop_kind = codes "socket";
  drop_proto = codes "TCP";
  drop_local = codes "10.0.0.1";
  drop_remote = codes "10.0.0.2";
  has_drop_target = true;
}

run_drop_command-DropFits_example :
    DropFits session drop_options
      (drop_request session drop_options)
      (run_drop_command session drop_options).effects
run_drop_command-DropFits_example = run_drop_command-DropFits session drop_options refl

run_commands-CodeFits_example :
    CodeFits world (run_kill_command session options)
    × CodeFits world (run_drop_command session options)
run_commands-CodeFits_example = run_commands-CodeFits session options
