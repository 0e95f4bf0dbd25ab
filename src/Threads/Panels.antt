-- ===== src/Threads/Panels.antt =====
-- What the panels show of connections (src/trfx_threads.c): the rows of the connection table, the counts of a
-- group and of the network snapshot, and the flow that belongs to a row.
use trafix.Prelude.Int.{ℤ, pos, negsuc, ◌+ℤ◌, ltb_ℤ, leb_ℤ}
use trafix.Prelude.{
  ℕ, suc, ◌+◌, ◌≤◌, Bool, not, ◌&&◌, ◌||◌, List, [], ◌∷◌, ◌++◌, Option, none, some, ◌==◌, ◌≡◌,
  arith, length, take, if◌then◌else◌,
}
use trafix.Cstr.Number.{show}
use trafix.Cstr.{Text, codes, clip, equal, is, is_empty}
use trafix.Actions.Requests.{ConnectionInfo}
use trafix.Bandwidth.{BandwidthFlow, BandwidthReport}
use trafix.Connections.Summary.{ConnectionSummary}
use trafix.Output.Tables.{left}
use trafix.Utils.{format_endpoint_for_tui}

-- The width without a frame.
abbrev inner_width : ℤ → ℤ
inner_width width = if ltb_ℤ (pos 4) width then width +ℤ negsuc 3 else width

abbrev wide : ℕ → ℤ → Bool
wide n width = leb_ℤ (pos n) width

abbrev endpoint_width : ℤ → ℕ
endpoint_width w =
    if wide 160 w
    then 36
    else if wide 140 w
    then 32
    else if wide 120 w
    then 28
    else if wide 100 w
    then 24
    else if wide 80 w
    then 18
    else 14

-- `%-<n>.<n>s`
abbrev field : ℕ → Text → Text
field n s = left n (take n s)

-- Columns with a blank between them.
abbrev pub spaced : List Text → Text
spaced [] = []
spaced (s ∷ []) = s
spaced (s ∷ t ∷ more) = s ++ b' ' ∷ spaced (t ∷ more)

unfoldable pub format_connection_summary_row : ConnectionSummary → ℤ → ℕ → Text
unfolding left format_endpoint_for_tui
format_connection_summary_row c panel_width size =
    let w = inner_width panel_width in
    clip size (
      spaced (
        field 6 c.protocol
        ∷ left (endpoint_width w) (format_endpoint_for_tui (some c.local_endpoint) 64)
        ∷ left (endpoint_width w) (format_endpoint_for_tui (some c.remote_endpoint) 64)
        ∷ field 13 c.state
        ∷ field 7 c.uid
        ∷ field (if wide 120 w then 8 else if wide 100 w then 7 else 6) c.user
        ∷ field 7 c.pid
        ∷ field (if wide 120 w then 14 else if wide 100 w then 12 else 10) c.process
        ∷ []))

unfoldable pub format_socket_inventory_line : ConnectionInfo → ℤ → ℕ → Text
unfolding left format_endpoint_for_tui
format_socket_inventory_line c panel_width size =
    let w = inner_width panel_width in
    let endpoint : ℕ = if wide 90 w then 22 else if wide 70 w then 18 else 12 in
    clip size (
      spaced (
        field 6 c.protocol
        ∷ left 7 (show c.uid)
        ∷ field 7 c.pid
        ∷ field (if wide 90 w then 16 else if wide 70 w then 14 else 12) c.process
        ∷ field endpoint (format_endpoint_for_tui (some c.local_addr) 64)
        ∷ field endpoint (format_endpoint_for_tui (some c.remote_addr) 64)
        ∷ []))

pub record Counts : Type 0 where
  pub tcp : ℕ
  pub udp : ℕ
  pub established : ℕ
  pub listen : ℕ
  pub other : ℕ

abbrev no_counts : Counts
no_counts = record { tcp = 0; udp = 0; established = 0; listen = 0; other = 0 }

abbrev one_if : Bool → ℕ
one_if test = if test then 1 else 0

abbrev is_listen_state : Text → Bool
is_listen_state state = is state "LISTEN" || is state "UNCONN"

-- A row with its protocol and its state is counted.
unfoldable pub count_row : Counts → Text → Text → Counts
count_row n protocol state =
    let tcp = is protocol "TCP" in
    let established = is state "ESTABLISHED" in
    let listen = is_listen_state state in
    record {
      tcp = n.tcp + one_if tcp;
      udp = n.udp + one_if (not tcp && is protocol "UDP");
      established = n.established + one_if established;
      listen = n.listen + one_if (not established && listen);
      other = n.other + one_if (not established && not listen);
    }

unfoldable pub count_group : Counts → List ConnectionSummary → Counts
unfolding count_row
count_group n [] = n
count_group n (row ∷ rows) = count_group (count_row n row.protocol row.state) rows

unfoldable pub connection_group_summary : List ConnectionSummary → Text
unfolding count_group
connection_group_summary rows =
    let n = count_group no_counts rows in
    clip 256 (
      codes "Groups: ESTABLISHED "
      ++ (show n.established
          ++ (codes " | LISTEN/UNCONN "
              ++ (show n.listen
                  ++ (codes " | Other "
                      ++ (show n.other
                          ++ (codes " | TCP "
                              ++ (show n.tcp ++ (codes " | UDP " ++ show n.udp)))))))))

unfoldable pub connection_has_owner : ConnectionInfo → Bool
connection_has_owner c = not (is c.pid "-") || not (is c.process "-")

unfoldable pub count_connections : Counts → List ConnectionInfo → Counts
unfolding count_row
count_connections n [] = n
count_connections n (c ∷ connections) =
    count_connections (count_row n c.protocol c.state) connections

unfoldable pub count_with_owner : ℕ → List ConnectionInfo → ℕ
unfolding connection_has_owner
count_with_owner n [] = n
count_with_owner n (c ∷ connections) =
    count_with_owner (n + one_if (connection_has_owner c)) connections

unfoldable pub format_connection_summary : List ConnectionInfo → ℕ → Text
unfolding count_connections count_with_owner
format_connection_summary connections size =
    let n = count_connections no_counts connections in
    clip size (
      if length connections == 0
      then codes "Summary: no visible connections"
      else codes "Summary: TCP "
        ++ (show n.tcp
            ++ (codes " | UDP "
                ++ (show n.udp
                    ++ (codes " | Established "
                        ++ (show n.established
                            ++ (codes " | Listen/Unconn "
                                ++ (show n.listen
                                    ++ (codes " | Owned "
                                        ++ show (count_with_owner 0 connections))))))))))

-- The flow has the row's protocol and endpoints, or its process.
unfoldable pub flow_matches : {D : Type 0} → ConnectionSummary → BandwidthFlow D → Bool
flow_matches c flow =
    (not (is_empty flow.proto)
      && equal flow.proto c.protocol
      && equal flow.local c.local_endpoint
      && equal flow.remote c.remote_endpoint)
    || (not (is_empty flow.pid)
        && equal flow.pid c.pid
        && not (is_empty flow.process)
        && equal flow.process c.process)

unfoldable pub first_match :
    {D : Type 0} → ConnectionSummary → List (BandwidthFlow D) → Option (BandwidthFlow D)
unfolding flow_matches
first_match c [] = none
first_match c (flow ∷ flows) =
    let rest = first_match c flows in if flow_matches c flow then some flow else rest

unfoldable pub connection_find_hot_flow :
    {D : Type 0} → ConnectionSummary → BandwidthReport D → Option (BandwidthFlow D)
unfolding first_match
connection_find_hot_flow c report = first_match c report.flows

count_row-total :
    (n : Counts) (protocol state : Text)
    → (count_row n protocol state).established
        + (count_row n protocol state).listen
        + (count_row n protocol state).other
      ≡ suc (n.established + n.listen + n.other)
unfolding count_row
count_row-total n protocol state = ground arith

count_row-protocols :
    (n : Counts) (protocol state : Text)
    → (count_row n protocol state).tcp + (count_row n protocol state).udp ≤ suc (n.tcp + n.udp)
unfolding count_row
count_row-protocols n protocol state = ground arith

-- Every row is in one of the three groups of states, and in at most one of the two protocols.
count_group-total :
    (rows : List ConnectionSummary) (n : Counts)
    → let end = count_group n rows in
      (end.established + end.listen + end.other ≡ n.established + n.listen + n.other + length rows)
      × (end.tcp + end.udp ≤ n.tcp + n.udp + length rows)
unfolding count_group
count_group-total [] n = (omega arith, omega arith)
count_group-total (row ∷ rows) n =
    let (groups, protocols) = count_group-total rows (count_row n row.protocol row.state) in
    (
      omega (arith, groups, count_row-total n row.protocol row.state),
      omega (arith, protocols, count_row-protocols n row.protocol row.state),
    )
