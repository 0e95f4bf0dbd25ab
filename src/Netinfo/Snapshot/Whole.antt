-- ===== src/Netinfo/Snapshot/Whole.antt =====
-- What holds of every snapshot (`trfx_collect_network_snapshot`, src/trfx_netinfo.c).
use trafix.Prelude.Fill.{fill, fill-choose, choose}
use trafix.Prelude.{
  ℕ, ◌-◌, ◌≤◌, Bool, ◌&&◌, List, [], ◌∷◌, Option, none, some, ◌≡◌, refl, ap, ◌∙◌, arith, length,
  take, take_all, Bool-cases, inl, inr,
}
use trafix.Cstr.{Text, codes}
use trafix.Actions.Requests.{ConnectionInfo}
use trafix.Connections.Rows.Order.{keep, get_connection_info-length}
use trafix.Netinfo.Routes.{CollectorStatus, is_ok, collect_route_summary_file-has_default}
use trafix.Netinfo.Snapshot.{
  Machine, collect_network_snapshot, connection_is_listener, max_connections, listener_or_none,
  route_of_command, first_failure,
}

choose-keep :
    (rows : List ConnectionInfo) → choose listener_or_none rows ≡ keep connection_is_listener rows
choose-keep [] = refl
choose-keep (c ∷ rows) = elim (Bool-cases (connection_is_listener c)) [
  | inl e ↦ rw e (ap (◌∷◌ c) (choose-keep rows))
  | inr e ↦ rw e (choose-keep rows)
]

length-keep :
    (test : ConnectionInfo → Bool) (rows : List ConnectionInfo)
    → length (keep test rows) ≤ length rows
length-keep test [] = omega arith
length-keep test (c ∷ rows) = elim (Bool-cases (test c)) [
  | inl e ↦ rw e (omega (arith, length-keep test rows))
  | inr e ↦ rw e (omega (arith, length-keep test rows))
]

listeners_lem :
    (rows : List ConnectionInfo)
    → length rows ≤ max_connections
    → fill max_connections listener_or_none [] rows ≡ keep connection_is_listener rows
listeners_lem rows h =
    fill-choose max_connections listener_or_none [] rows
    ∙ ap (take (max_connections - 0)) (choose-keep rows)
    ∙ take_all (max_connections - 0) (keep connection_is_listener rows)
        (omega (arith, length-keep connection_is_listener rows))

route_lem :
    (output : Option Text)
    → (route_of_command output).1.has_default ≡ is_ok (route_of_command output).0
route_lem none = refl
route_lem (some output) = collect_route_summary_file-has_default output

first_failure-is_ok :
    (a b c : CollectorStatus)
    → is_ok (first_failure (first_failure a b) c) ≡ (is_ok a && is_ok b && is_ok c)
first_failure-is_ok a b c = ground arith

-- Whatever the machine gives: the status is "ok" exactly if the interfaces, the route and the servers were
-- read; the default route is there exactly if the route was read; the listeners are all connections in state
-- LISTEN or UNCONN, in their order, none of them cut off, and there are at most 512 connections.
pub collect_network_snapshot-IsWhole :
    (m : Machine) (error_size : ℕ)
    → (is_ok (collect_network_snapshot m error_size).0 ≡ (
        is_ok (collect_network_snapshot m error_size).1.interfaces.status
        && is_ok (collect_network_snapshot m error_size).1.route_status
        && is_ok (collect_network_snapshot m error_size).1.dns_status))
      × ((collect_network_snapshot m error_size).1.route.has_default
          ≡ is_ok (collect_network_snapshot m error_size).1.route_status)
      × ((collect_network_snapshot m error_size).1.listeners
          ≡ keep connection_is_listener (collect_network_snapshot m error_size).1.connections)
      × (length (collect_network_snapshot m error_size).1.connections ≤ max_connections)
unfolding collect_network_snapshot
collect_network_snapshot-IsWhole m error_size = (
  first_failure-is_ok _ _ _,
  route_lem (m.run_command (codes "ip route 2>/dev/null")),
  listeners_lem _ (get_connection_info-length m.sys m.proc m.qsort max_connections),
  get_connection_info-length m.sys m.proc m.qsort max_connections,
)
