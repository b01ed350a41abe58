-- ===== src/Domains/Apply.antt =====
-- What the commands on the site list do once the guards have passed: `applyDomains`, add and remove.
use mathlib.Core.Path.{subst}
use kblocker.Base.{
  ◌≡◌, ◌⊎◌, ◌≢◌, ◌↔◌, inl, inr, List, [], ◌∷◌, ◌++◌, arith, Text, lit, text_eq_iff, contains,
  contains_iff, sym, ◌∙◌, ◌∈◌, Bool-cases,
}
use kblocker.System.{Os, Errno, Exec, Reply, ok, err, done, exit, Reply-cases}
use kblocker.System.Laws.{Completes}
use kblocker.Cli.{
  sysfs, blocked_domains_file, chattr, write_lines, read_kernel_domains, current_domains,
}
use kblocker.Domains.{
  without, file_text, sync_config_from_kernel, apply_domains, apply_domains_or_exit, do_add,
  do_remove,
}
use kblocker.Domains.Guards.{IsAdmitted, guards_pass}

without-mem : (d e : Text) (ds : List Text) → (e ∈ without d ds) ↔ ((e ∈ ds) × (e ≢ d))
unfolding without
without-mem d e [] = (λ m. absurd m, λ (m, ne). absurd m)
without-mem d e (x ∷ ds) = ground (arith, text_eq_iff x d, without-mem d e ds)

module _ (O : Os) where
  open O use {State}

  abbrev sent : List Text → State → Reply (Unit {0}) × State
  sent domains = write_lines O (sysfs (lit "blocked_domains")) domains

  pub chattr-Completes : (path flags : Text) → Completes (chattr O path flags)
  unfolding chattr
  chattr-Completes path flags s = elim (Bool-cases (O.has_program s (lit "chattr"))) [
    | inl e ↦ ((O.run (lit "chattr" ∷ flags ∷ path ∷ []) [] s).1, ground (arith, e))
    | inr e ↦ (s, ground (arith, e))
  ]

  -- The copy of the kernel's list into the file always comes to its end.
  sync_config-Completes : Completes (sync_config_from_kernel O)
  unfolding sync_config_from_kernel
  sync_config-Completes s =
      let domains = read_kernel_domains O s in
      let (a, p) =
        chattr-Completes blocked_domains_file (lit "-i") (O.mkdir_all (lit "/etc/kblocker") s).1 in
      let written = (O.write_file blocked_domains_file (file_text domains) a).1 in
      let (b, q) = chattr-Completes blocked_domains_file (lit "+i") written in
      (b, ground (arith, p, q))

  -- How the list of sites is changed to `domains`: if the kernel refuses it, the command
  -- ends in status 1 with no file touched; if not, the file is written from the kernel's list.
  abbrev pub IsApplied : List Text → State → Exec State (Unit {0}) → Type 0
  IsApplied domains s r =
      ((e : Errno) × ((sent domains s).0 ≡ err e) × (r ≡ exit 1 (sent domains s).1))
      ⊎ (((sent domains s).0 ≡ ok tt)
          × (r ≡ sync_config_from_kernel O (sent domains s).1)
          × ((s' : State) × (r ≡ done tt s')))

  apply_domains-IsApplied :
      (domains : List Text) (s : State) → IsApplied domains s (apply_domains_or_exit O domains s)
  unfolding apply_domains apply_domains_or_exit
  apply_domains-IsApplied domains s = elim (Reply-cases (sent domains s).0) [
    | inl (e, p) ↦ inl (e, p, ground (arith, p))
    | inr (_, p) ↦
        let (s', q) = sync_config-Completes (sent domains s).1 in
        inr (p, ground (arith, p, q), (s', ground (arith, p, q)))
  ]

  -- Where the guards pass, `add` of a domain that the list has leaves everything as it is. With any
  -- other it changes the list to the old one with the domain at its end: the kernel refuses
  -- that, and the command ends in status 1 with no file touched, or it accepts it, and the
  -- command comes to its end with the file written from the kernel's list.
  pub do_add-IsApplied :
      (d : Text) (s : State)
      → IsAdmitted O s
      → ((d ∈ current_domains O s) × (do_add O (d ∷ []) s ≡ done tt s))
        ⊎ ((¬ (d ∈ current_domains O s))
            × IsApplied (current_domains O s ++ (d ∷ [])) s (do_add O (d ∷ []) s))
  unfolding do_add
  do_add-IsApplied d s h =
      let pass = guards_pass O (Unit {0}) _ s h in
      elim (Bool-cases (contains (current_domains O s) d)) [
        | inl e ↦ inl ((contains_iff (current_domains O s) d).0 e, pass ∙ ground (arith, e))
        | inr e ↦ inr (
          λ m. absurd (ground (arith, e, (contains_iff (current_domains O s) d).1 m)),
          subst (IsApplied (current_domains O s ++ (d ∷ [])) s) (sym (pass ∙ ground (arith, e)))
              (apply_domains-IsApplied (current_domains O s ++ (d ∷ [])) s),
        )
      ]

  -- Where the guards pass, `remove` of a domain that the list does not have leaves everything as
  -- it is. With any other it changes the list, with the two outcomes of `add`, to one that has
  -- the same domains but for that one.
  pub do_remove-IsApplied :
      (d : Text) (s : State)
      → IsAdmitted O s
      → ((¬ (d ∈ current_domains O s)) × (do_remove O (d ∷ []) s ≡ done tt s))
        ⊎ ((d ∈ current_domains O s)
            × ((domains : List Text) × IsApplied domains s (do_remove O (d ∷ []) s)
                × ((e : Text) → (e ∈ domains) ↔ ((e ∈ current_domains O s) × (e ≢ d)))))
  unfolding do_remove
  do_remove-IsApplied d s h =
      let pass = guards_pass O (Unit {0}) _ s h in
      let old = current_domains O s in
      elim (Bool-cases (contains old d)) [
        | inr e ↦
            inl
              (λ m. absurd (ground (arith, e, (contains_iff old d).1 m)), pass ∙ ground (arith, e))
        | inl e ↦ inr (
          (contains_iff old d).0 e,
          (
            without d old,
            subst (IsApplied (without d old) s) (sym (pass ∙ ground (arith, e)))
                (apply_domains-IsApplied (without d old) s),
            λ x. without-mem d x old,
          ),
        )
      ]
