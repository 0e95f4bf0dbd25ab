-- ===== src/Netinfo/Snapshot/Lines.antt =====
-- `trfx_format_route_consistency_summary` and `trfx_format_network_health_line` (src/trfx_netinfo.c). A text is
-- cut to `size` bytes with its terminator.
use trafix.Prelude.{
  ℕ, Bool, true, false, not, ◌&&◌, List, [], ◌∷◌, ◌++◌, Option, none, some, if◌then◌else◌, is_some,
}
use trafix.Cstr.{Text, codes, clip, equal, is, is_empty}
use trafix.Netinfo.Routes.{is_ok}
use trafix.Netinfo.Snapshot.{Snapshot, ActiveInterface}

-- A default route with an interface that is known.
unfoldable pub has_route : Snapshot → Bool
has_route s =
    is_ok s.route_status
    && s.route.has_default
    && not (is_empty s.route.interface)
    && not (is s.route.interface "N/A")

abbrev active_name : Option ActiveInterface → Text
active_name none = []
active_name (some a) = a.interface

abbrev active_ip : Option ActiveInterface → Text
active_ip none = []
active_ip (some a) = a.ip

unfoldable pub has_active : Snapshot → Bool
has_active s = is_some s.active && not (is_empty (active_name s.active))

unfoldable pub route_matches_active : Snapshot → Bool
unfolding has_route has_active
route_matches_active s =
    has_route s && has_active s && equal s.route.interface (active_name s.active)

abbrev is_none {ℓ} : {A : Type ℓ} → List A → Bool
is_none [] = true
is_none (x ∷ xs) = false

abbrev ip_or_na : Text → Text
ip_or_na ip = if is_empty ip then codes "N/A" else ip

unfoldable pub format_route_consistency_summary : Snapshot → ℕ → Text
unfolding has_route has_active route_matches_active
format_route_consistency_summary s size =
    let route = s.route.interface in
    let active = active_name s.active in
    let ip = ip_or_na (active_ip s.active) in
    clip size (
      if not (has_route s) && not (has_active s)
      then codes "Route check: unavailable"
      else if route_matches_active s
      then codes "Route check: route "
        ++ (route ++ (codes " | active " ++ (active ++ (codes " | IP " ++ (ip ++ codes " | ok")))))
      else if has_route s && has_active s
      then codes "Route check: route "
        ++ (route
            ++ (codes " | active " ++ (active ++ (codes " | IP " ++ (ip ++ codes " | mismatch")))))
      else if has_route s
      then codes "Route check: route "
        ++ (route ++ (codes " | active unavailable | IP " ++ (ip ++ codes " | partial")))
      else codes "Route check: active "
        ++ (active ++ (codes " | IP " ++ (ip ++ codes " | partial"))))

abbrev ok_or_missing : Bool → Text
ok_or_missing b = if b then codes "ok" else codes "missing"

unfoldable pub format_network_health_line : Snapshot → ℕ → Text
unfolding has_route
format_network_health_line s size = clip size (
    codes "Health: route "
    ++ (ok_or_missing (has_route s)
        ++ (codes " | dns "
            ++ (ok_or_missing (is_ok s.dns_status && not (is_none s.dns))
                ++ (codes " | active "
                    ++ (ok_or_missing (is_some s.active)
                        ++ (codes " | owners "
                            ++ (if is_none s.socket_owners
                                then codes "missing"
                                else codes "visible"))))))))
