-- ===== src/Tests/Machine.antt =====
-- A machine with two processes, three connections and two interfaces.
use trafix.Prelude.Int.{pos_part}
use trafix.Prelude.{
  ℕ, ◌+◌, ◌-◌, ◌*◌, ◌/◌, false, [], ◌∷◌, ◌++◌, none, some, ltb, ◌==◌, if◌then◌else◌,
}
use trafix.Cstr.{Text, codes, is}
use trafix.Cstr.Sort.{insertion}
use trafix.Bandwidth.{Doubles}
use trafix.Connections.Rows.{System}
use trafix.Netinfo.Interfaces.{Net, inet}
use trafix.Netinfo.Snapshot.{Machine}
use trafix.Netinfo.Stats.{contents}
use trafix.SocketOwners.{Proc}

abbrev tcp_file : Text
tcp_file =
    codes "  sl  local_address rem_address   st\n"
    ++ (codes
          "   0: 0100007F:0016 00000000:0000 0A 00000000:00000000 00:00000000 00000000     0        0 17\n"
        ++ codes
            "   1: 0100007F:0050 0200007F:C350 01 00000000:00000000 00:00000000 00000000  1000        0 18\n")

abbrev pub sys : System
sys = record {
  ntop6 = λ bytes. none;
  user_name = λ uid. if uid == 0 then some (codes "root") else none;
  read_file = λ path. if is path "/proc/net/tcp" then some tcp_file else none;
}

abbrev pub proc : Proc
proc = record {
  open_dir = λ path.
      if is path "/proc"
      then some (codes "self" ∷ codes "42" ∷ [])
      else if is path "/proc/42/fd"
      then some (codes "3" ∷ codes "4" ∷ [])
      else none;
  read_link = λ path.
      if is path "/proc/42/fd/3" then some (codes "socket:[17]") else some (codes "/dev/null");
  read_file = λ path. some (codes "sshd\n");
  garbage = 0;
}

abbrev pub net : Net
net = record {
  open_file = λ path. contents (codes "Inter-|\n face |\n  eth0:  10 1 0 0 0 0 0 0  20 1\n");
  exists_path = λ path. false;
  addresses = some (record { name = codes "eth0"; address = inet (codes "10.0.0.2") } ∷ []);
  wifi_ssid = λ name. [];
  mac_address = λ name. none;
}

abbrev pub machine : Machine
machine = record {
  net = net;
  sys = sys;
  proc = proc;
  qsort = insertion;
  run_command = λ command. some (codes "default via 10.0.0.1 dev eth0 metric 100\n");
}

-- Whole numbers in the place of `double`.
abbrev pub naturals : Doubles
naturals = record {
  D = ℕ;
  zero_D = 0;
  one_D = 1;
  of_ℕ = λ n. n;
  add = λ a b. a + b;
  mul = λ a b. a * b;
  div = λ a b. a / b;
  less = ltb;
  not_positive = λ a. a == 0;
  difftime = λ a b. pos_part a - pos_part b;
}
