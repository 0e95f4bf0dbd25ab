-- ===== src/Tests/Collected.antt =====
-- Routes, servers, rates and logs (src/trfx_netinfo.c, src/trfx_diagnostics.c).
use trafix.Prelude.{ℕ, true, List, [], ◌∷◌, some, ◌≡◌, refl, arith, take, All}
use trafix.Cstr.{Text, codes, mem_char, equal, skip_space, is_space, is, clip}
use trafix.Cstr.Lines.{fgets_lines}
use trafix.Cstr.Scan.{scan_word}
use trafix.Cstr.Tokens.{line_of, IsWord}
use trafix.Netinfo.Dns.{
  collect_dns_summary_file, dns_summary_contains, named, once, collect_dns_summary_file-once,
}
use trafix.Netinfo.Rates.{InterfaceStat, calculate_interface_rates, find_stat, sub_ulong}
use trafix.Netinfo.Rates.Grown.{RatesFit, calculate_interface_rates-Fit}
use trafix.Netinfo.Routes.{is_ok, blanks, parse_route_summary_line}
use trafix.Netinfo.Routes.Written.{
  Field, via, dev, metric, other, IsOther, words_of, described, default_route,
  parse_route_summary_line-words_of,
}
use trafix.Diagnostics.Logs.{recent}
use trafix.Diagnostics.Sources.{
  World, contents, refused, collect_logs, all_entries, has_entries, collect_logs-all_entries,
}

abbrev route_file : Text
route_file =
    codes "10.0.0.0/24 dev eth0 scope link\ndefault via 10.0.0.1 dev eth0 proto dhcp metric 100\n"

abbrev fields : List Field
fields =
    via (codes "10.0.0.1")
    ∷ dev (codes "eth0")
    ∷ other (codes "proto")
    ∷ other (codes "dhcp")
    ∷ metric (codes "100")
    ∷ []

fields-IsWord : All (IsWord blanks) (codes "default" ∷ words_of fields)
unfolding mem_char
fields-IsWord = ground arith

fields-IsOther : All IsOther fields
unfolding is
fields-IsOther = ground arith

parse_route_summary_line-words_of_example :
    parse_route_summary_line (line_of (codes "default" ∷ words_of fields))
    ≡ some (described fields default_route)
parse_route_summary_line-words_of_example =
    parse_route_summary_line-words_of fields fields-IsWord fields-IsOther (omega arith)

abbrev resolv_conf : Text
resolv_conf =
    codes "# two\nnameserver 1.1.1.1\nnameserver 9.9.9.9\nsearch home\nnameserver 1.1.1.1\n"

two_servers : collect_dns_summary_file resolv_conf ≡ codes "1.1.1.1" ∷ codes "9.9.9.9" ∷ []
unfolding collect_dns_summary_file dns_summary_contains fgets_lines scan_word equal skip_space
    is_space
two_servers = refl

collect_dns_summary_file-once_example :
    collect_dns_summary_file resolv_conf ≡ take 10 (once [] (named (fgets_lines 256 resolv_conf)))
collect_dns_summary_file-once_example = collect_dns_summary_file-once resolv_conf

abbrev stat : ℕ → ℕ → InterfaceStat
stat rx tx = record { name = codes "eth0"; rx_bytes = rx; tx_bytes = tx }

eth0_rates :
    calculate_interface_rates (λ n. n) (stat 100 900 ∷ []) (stat 150 20 ∷ []) true 8
    ≡ some (record { name = codes "eth0"; rx_bytes_per_sec = 50; tx_bytes_per_sec = 0 } ∷ [])
unfolding calculate_interface_rates find_stat sub_ulong equal clip
eth0_rates = refl

calculate_interface_rates-Fit_example :
    RatesFit
      (λ n. n)
      (stat 100 900 ∷ [])
      (stat 150 20 ∷ [])
      true
      8
      (calculate_interface_rates (λ n. n) (stat 100 900 ∷ []) (stat 150 20 ∷ []) true 8)
calculate_interface_rates-Fit_example =
    calculate_interface_rates-Fit (λ n. n) (stat 100 900 ∷ []) (stat 150 20 ∷ []) true 8
      ((omega arith, omega arith), tt)

-- Only the journal can be read.
abbrev pub world : World
world = record {
  open_file = λ path. refused (codes "Permission denied");
  open_command = λ command. contents (codes "link up\n\nlink down\n");
}

collect_logs-all_entries_example :
    ((collect_logs world).lines ≡ recent (all_entries world))
    × (is_ok (collect_logs world).status ≡ has_entries (all_entries world))
collect_logs-all_entries_example = collect_logs-all_entries world
