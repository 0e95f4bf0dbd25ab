-- ===== src/SocketOwners/Scanned.antt =====
-- The map of owners against the list of all sockets in /proc (`trfx_scan_socket_owner_map`,
-- src/trfx_socket_owners.c).
use trafix.Prelude.Fill.{fill-choose, choose}
use trafix.Prelude.{
  ℕ, ◌-◌, not, List, [], ◌∷◌, ◌++◌, ◌≡◌, sym, ap, ◌∙◌, append_assoc, append-nil, arith, ltb, ltb→le,
  length, length-append, length-take, take, take-append, take_all, Bool-cases, inl, inr,
  if◌then◌else◌,
}
use trafix.Cstr.{Text, codes}
use trafix.SocketOwners.{
  OwnerEntry, Proc, descriptor_entry, descriptors, fd_dir_of, starts_with_digit, add_process,
  add_processes, scan_socket_owner_map,
}

module _ (proc : Proc) where
  -- The sockets among the descriptors of a process; a name that is no process has none.
  abbrev pub entries_of : Text → List OwnerEntry
  entries_of name =
      if not (starts_with_digit name)
      then []
      else choose (descriptor_entry proc name (fd_dir_of name))
          (descriptors (proc.open_dir (fd_dir_of name)))

  abbrev pub all_entries : List Text → List OwnerEntry
  all_entries [] = []
  all_entries (name ∷ names) = entries_of name ++ all_entries names

  add_process-entries_of :
      (max : ℕ) (entries : List OwnerEntry) (name : Text)
      → add_process proc max entries name ≡ entries ++ take (max - length entries) (entries_of name)
  unfolding add_process
  add_process-entries_of max entries name = elim (Bool-cases (starts_with_digit name)) [
    | inl e ↦ rw e (fill-choose max _ entries _)
    | inr e ↦ rw e (
        sym (
          ap (λ t. entries ++ t) (take_all (max - length entries) [] (omega arith))
          ∙ append-nil entries))
  ]

  take_both :
      (max : ℕ) (entries a b : List OwnerEntry)
      → (entries ++ take (max - length entries) a)
          ++ take (max - length (entries ++ take (max - length entries) a)) b
        ≡ entries ++ take (max - length entries) (a ++ b)
  take_both max entries a b =
      append_assoc entries (take k a) (take (max - length (entries ++ take k a)) b)
      ∙ ap (λ j. entries ++ (take k a ++ take j b)) left
      ∙ sym (ap (λ t. entries ++ t) (take-append k a b))
    where
      k : ℕ
      k = max - length entries

      left : max - length (entries ++ take k a) ≡ k - length a
      left = omega (arith, length-append entries (take k a), length-take k a)

  add_processes-all_entries :
      (max : ℕ) (entries : List OwnerEntry) (names : List Text)
      → add_processes proc max entries names
        ≡ entries ++ take (max - length entries) (all_entries names)
  unfolding add_processes
  add_processes-all_entries max entries [] = sym (
      ap (λ t. entries ++ t) (take_all (max - length entries) [] (omega arith))
      ∙ append-nil entries)
  add_processes-all_entries max entries (name ∷ names) =
      elim (Bool-cases (ltb (length entries) max)) [
        | inl e ↦ rw e (
            add_processes-all_entries max (add_process proc max entries name) names
            ∙ ap (λ l. l ++ take (max - length l) (all_entries names))
                (add_process-entries_of max entries name)
            ∙ take_both max entries (entries_of name) (all_entries names))
        | inr e ↦
            let none_left : max - length entries ≡ 0 =
              omega (arith, ltb→le (length entries) max e) in
            rw (e, none_left) (sym (append-nil entries))
      ]

  -- Whatever /proc holds, the map has the first `max` of the sockets that the descriptors of all
  -- processes name, in the order in which the directories give them.
  pub scan_socket_owner_map-all_entries :
      (max : ℕ)
      → scan_socket_owner_map proc max
        ≡ take max (all_entries (descriptors (proc.open_dir (codes "/proc"))))
  unfolding scan_socket_owner_map
  scan_socket_owner_map-all_entries max =
      let all = all_entries (descriptors (proc.open_dir (codes "/proc"))) in
      add_processes-all_entries max [] (descriptors (proc.open_dir (codes "/proc")))
      ∙ ap (λ k. take k all) (omega arith)
