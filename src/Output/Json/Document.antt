-- ===== src/Output/Json/Document.antt =====
-- A whole document of `trafix connections --json` (`trfx_print_connections_json`, src/trfx_cli_output.c).
use trafix.Prelude.{
  ℕ, zero, suc, ◌≤◌, ◌<◌, Bool, List, [], ◌∷◌, some, ◌≡◌, refl, ap, ◌∙◌, arith, length, ltb, lt→ltb,
  All, Bool-cases, inl, inr,
}
use trafix.Cstr.{codes}
use trafix.Cli.Options.{Options}
use trafix.Actions.Requests.{ConnectionInfo}
use trafix.Connections.Rows.Order.{keep}
use trafix.Output.Json.{
  connection_matches_filters, connection_object, print_objects, print_connections_json,
}
use trafix.Output.Json.Read.{
  read_more, read_objects, behind_opening, read_connections_json, closing, without_inodes, SmallUid,
  drop_prefix-append, read_object-connection_object, read_objects-connection_object,
  length-connection_object,
}

module _ (test : ConnectionInfo → Bool) where
  read_more-print_objects :
      (fuel written : ℕ) (rows : List ConnectionInfo)
      → 0 < written
      → length (keep test rows) < fuel
      → All SmallUid rows
      → read_more fuel (print_objects test connection_object written rows closing)
        ≡ some (without_inodes (keep test rows), closing)
  unfolding read_more print_objects
  read_more-print_objects zero written rows p f h = absurd (omega arith)
  read_more-print_objects (suc fuel) written [] p f h = refl
  read_more-print_objects (suc fuel) written (c ∷ rows) p f (hc, hs) = elim (Bool-cases (test c)) [
    | inl e ↦
        let kept = rw e at f in
        let room : length (keep test rows) < fuel = omega (arith, kept) in
        let ih = read_more-print_objects fuel (suc written) rows (omega arith) room hs in
        rw (e, lt→ltb 0 written p, read_object-connection_object c _ hc, ih) refl
    | inr e ↦ rw e (read_more-print_objects (suc fuel) written rows p (rw e at f) hs)
  ]

  read_objects-print_objects :
      (fuel : ℕ) (rows : List ConnectionInfo)
      → length (keep test rows) ≤ fuel
      → All SmallUid rows
      → read_objects fuel (print_objects test connection_object 0 rows closing)
        ≡ some (without_inodes (keep test rows), closing)
  unfolding print_objects
  read_objects-print_objects fuel [] f h = unfold read_objects in refl
  read_objects-print_objects fuel (c ∷ rows) f (hc, hs) = elim (Bool-cases (test c)) [
    | inl e ↦
        let kept = rw e at f in
        let more = read_more-print_objects fuel 1 rows (omega arith) (omega (arith, kept)) hs in
        rw (e, read_objects-connection_object fuel c _, read_object-connection_object c _ hc, more)
          refl
    | inr e ↦ rw e (read_objects-print_objects fuel rows (rw e at f) hs)
  ]

  length-print_objects :
      (written : ℕ) (rows : List ConnectionInfo)
      → length (keep test rows) ≤ length (print_objects test connection_object written rows closing)
  unfolding print_objects
  length-print_objects written [] = omega arith
  length-print_objects written (c ∷ rows) = elim (Bool-cases (test c)) [
    | inl e ↦
        let rest = print_objects test connection_object (suc written) rows closing in
        let ih = length-print_objects (suc written) rows in
        elim (Bool-cases (ltb 0 written)) [
          | inl g ↦ rw (e, g) (omega (arith, ih, length-connection_object c rest))
          | inr g ↦ rw (e, g) (omega (arith, ih, length-connection_object c rest))
        ]
    | inr e ↦ rw e (length-print_objects written rows)
  ]

-- The printed document is read back as the connections that pass the filters, in their order, with all that
-- is printed of them, whatever bytes their texts hold; a UID is one of 32 bits.
pub read_connections_json-print :
    (connections : List ConnectionInfo) (o : Options)
    → All SmallUid connections
    → read_connections_json (print_connections_json connections o)
      ≡ some (without_inodes (keep (connection_matches_filters o) connections))
unfolding read_connections_json print_connections_json
read_connections_json-print connections o h =
    let test = connection_matches_filters o in
    let body = print_objects test connection_object 0 connections closing in
    ap behind_opening (drop_prefix-append (codes "{\"connections\":[") body)
    ∙ rw
        (read_objects-print_objects test (length body) connections
          (length-print_objects test 0 connections) h)
        refl
