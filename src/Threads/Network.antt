-- ===== src/Threads/Network.antt =====
-- The lines that a panel shows of the network (`format_network_route_line` to `render_network_summary`,
-- src/trfx_threads.c). A line is cut to `size` bytes with its terminator. What is drawn is a list of rows
-- with their texts.
use trafix.Prelude.Int.{ℤ, pos, ◌+ℤ◌, ◌≤ℤ◌, ltb_ℤ, eq_of_parts, +ℤ_parts}
use trafix.Prelude.{
  ℕ, zero, suc, ◌≡◌, refl, sym, lt→ltb, arith, Bool, true, false, not, ◌&&◌, List, [], ◌∷◌, ◌++◌,
  Option, none, some, ltb, ◌==◌, length, take, if◌then◌else◌,
}
use trafix.Cstr.Number.{show}
use trafix.Cstr.{Text, codes, clip, is, is_empty}
use trafix.Netinfo.Routes.{is_ok}
use trafix.Netinfo.Snapshot.{Snapshot, ActiveInterface, VpnInterface}

unfoldable pub format_network_route_line : Snapshot → ℕ → Text
format_network_route_line s size = clip size (
    if is_ok s.route_status && s.route.has_default
    then codes "Route: default via "
      ++ (s.route.gateway
          ++ (codes " dev " ++ (s.route.interface ++ (codes " metric " ++ s.route.metric))))
    else codes "Route: unavailable")

-- The loop over the servers shown, `strncat` by `strncat` into a buffer of 256 bytes, from what it holds.
unfoldable pub join_servers : Bool → Text → List Text → Text
join_servers first dns [] = dns
join_servers first dns (server ∷ servers) =
    let separated = if first then dns else clip 256 (dns ++ codes ", ") in
    join_servers false (clip 256 (separated ++ server)) servers

abbrev dns_of : List Text → Text
dns_of servers =
    let dns = join_servers true [] (take 3 servers) in
    if ltb 3 (length servers) then clip 256 (dns ++ codes ", ...") else dns

unfoldable pub format_network_dns_line : Snapshot → ℕ → Text
unfolding join_servers
format_network_dns_line s size = clip size (
    if is_ok s.dns_status && ltb 0 (length s.dns)
    then codes "DNS: "
      ++ (show (length s.dns)
          ++ (codes " server"
              ++ ((if length s.dns == 1 then [] else codes "s")
                  ++ (codes " detected | " ++ dns_of s.dns))))
    else if is_ok s.dns_status
    then codes "DNS: 0 servers configured"
    else codes "DNS: unavailable")

abbrev mac_text : ActiveInterface → Text
mac_text a = if is_empty a.mac then codes "N/A" else a.mac

abbrev active_line : Option ActiveInterface → Text
active_line none = codes "Active: no interface with an IPv4 address"
active_line (some a) =
    codes "Active: "
    ++ (a.interface
        ++ (codes " ("
            ++ (a.kind
                ++ (codes ") | IP: "
                    ++ (a.ip
                        ++ (if not (is_empty a.ssid) && not (is a.ssid "N/A")
                            then codes " | SSID: " ++ (a.ssid ++ (codes " | MAC: " ++ mac_text a))
                            else codes " | MAC: " ++ mac_text a))))))

unfoldable pub format_network_active_line : Snapshot → ℕ → Text
format_network_active_line s size = clip size (active_line s.active)

abbrev public_ip_line : Option Text → Text
public_ip_line none = codes "Public IP (best effort): unavailable"
public_ip_line (some ip) =
    if not (is_empty ip)
    then codes "Public IP (best effort): " ++ ip
    else codes "Public IP (best effort): unavailable"

unfoldable pub format_network_public_ip_line : Snapshot → ℕ → Text
format_network_public_ip_line s size = clip size (public_ip_line s.public_ip)

abbrev vpn_line : Option VpnInterface → Text
vpn_line none = codes "VPN: none detected"
vpn_line (some v) =
    codes "VPN: "
    ++ (v.interface
        ++ (codes " detected | IP " ++ (if is_empty v.ip then codes "unavailable" else v.ip)))

unfoldable pub format_network_vpn_line : Snapshot → ℕ → Text
format_network_vpn_line s size = clip size (vpn_line s.vpn)

unfoldable pub panel_has_room : ℤ → ℤ → Bool
panel_has_room row max_lines = ltb_ℤ row max_lines

-- Lines that are drawn below each other while there is room, and the next row.
unfoldable pub draw_lines : ℤ → ℤ → List Text → List (ℤ × Text) × ℤ
unfolding panel_has_room
draw_lines row max_lines [] = ([], row)
draw_lines row max_lines (line ∷ lines) =
    let (drawn, last) = draw_lines (row +ℤ pos 1) max_lines lines in
    let (below, end) = draw_lines row max_lines lines in
    if panel_has_room row max_lines then ((row, line) ∷ drawn, last) else (below, end)

abbrev network_lines : Snapshot → List Text
network_lines s =
    format_network_route_line s 512
    ∷ format_network_dns_line s 512
    ∷ format_network_active_line s 512
    ∷ format_network_public_ip_line s 512
    ∷ format_network_vpn_line s 512
    ∷ []

unfoldable pub render_network_summary : Snapshot → ℤ → ℤ → List (ℤ × Text) × ℤ
unfolding draw_lines format_network_route_line format_network_dns_line format_network_active_line
    format_network_public_ip_line format_network_vpn_line
render_network_summary s row max_lines = draw_lines row max_lines (network_lines s)

-- The texts at rows below each other.
abbrev numbered : ℤ → List Text → List (ℤ × Text)
numbered row [] = []
numbered row (line ∷ lines) = (row, line) ∷ numbered (row +ℤ pos 1) lines

no_room :
    (row max_lines : ℤ) (lines : List Text)
    → max_lines ≤ℤ row
    → draw_lines row max_lines lines ≡ ([], row)
unfolding draw_lines panel_has_room
no_room row max_lines [] h = refl
no_room row max_lines (line ∷ lines) h =
    let full : ltb_ℤ row max_lines ≡ false = ground arith in rw full (no_room row max_lines lines h)

next_row : (row : ℤ) (k : ℕ) → (row +ℤ pos 1) +ℤ pos k ≡ row +ℤ pos (suc k)
next_row row k = eq_of_parts ((row +ℤ pos 1) +ℤ pos k) (row +ℤ pos (suc k)) (
    omega
      (arith, +ℤ_parts row (pos 1), +ℤ_parts (row +ℤ pos 1) (pos k), +ℤ_parts row (pos (suc k))))

row_end : (row : ℤ) → row +ℤ pos 0 ≡ row
row_end row = eq_of_parts (row +ℤ pos 0) row (omega (arith, +ℤ_parts row (pos 0)))

-- Where `k` rows are left, the first `k` lines are drawn, one below the other, and the next row stands behind
-- them.
draw_lines-first :
    (lines : List Text) (k : ℕ) (row : ℤ)
    → draw_lines row (row +ℤ pos k) lines
      ≡ (numbered row (take k lines), row +ℤ pos (length (take k lines)))
unfolding draw_lines panel_has_room
draw_lines-first [] zero row = rw (row_end row) refl
draw_lines-first [] (suc k) row = rw (row_end row) refl
draw_lines-first (line ∷ lines) zero row =
    rw (row_end row) (no_room row row (line ∷ lines) (omega arith))
draw_lines-first (line ∷ lines) (suc k) row =
    let room : ltb_ℤ row (row +ℤ pos (suc k)) ≡ true =
      lt→ltb _ _ (omega (arith, +ℤ_parts row (pos (suc k)))) in
    let below = draw_lines-first lines k (row +ℤ pos 1) in
    rw (room, sym (next_row row k), below, sym (next_row row (length (take k lines)))) refl

-- With room for `k` more rows the panel shows the first `k` of the five lines, one below the other.
render_network_summary-first :
    (s : Snapshot) (row : ℤ) (k : ℕ)
    → let lines = network_lines s in
      render_network_summary s row (row +ℤ pos k)
      ≡ (numbered row (take k lines), row +ℤ pos (length (take k lines)))
unfolding render_network_summary
render_network_summary-first s row k = draw_lines-first (network_lines s) k row
