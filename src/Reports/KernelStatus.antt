-- ===== src/Reports/KernelStatus.antt =====
-- What `status` reports of the kernel's session.
use kblocker.Base.{
  ◌+◌, ◌^◌, ◌<◌, ◌≤◌, ◌≡◌, refl, ◌∙◌, true, none, some, List, Text, lit, arith, split, has_prefix,
  text_eq, if◌then◌else◌,
}
use kblocker.Base.Int.{pos, add64, wrap64, ◌+ℤ◌, quot, rem}
use kblocker.Numbers.{parse_int}
use kblocker.Numbers.Decimal.{parse_int-itoa}
use kblocker.System.{Os, ok, Exec, done, exit, Prog}
use kblocker.System.Laws.{is_done}
use kblocker.Cli.{sysfs, module_loaded, has_immutable, list_attributes}
use kblocker.Kernel.{Kernel, Session, remaining_seconds}
use kblocker.Kernel.Runs.{Reachable}
use kblocker.Kernel.Invariant.{Reachable-IsSound}
use kblocker.Kernel.Shows.{Counts, status_fields, status_show}
use kblocker.Kernel.Shows.Reads.{bit_lem}
use kblocker.Reports.Fields.{field_of, field_value}
use kblocker.Reports.{
  parse_field, StatusReport, loaded, time_left, uname, file_report, report_status, do_status,
}

module _ (O : Os) where
  open O use {State, read_file}

  uname_done : (s : State) → is_done (uname O s) ≡ true
  unfolding uname
  uname_done s = refl

  has_immutable_done : (path : Text) (s : State) → is_done (has_immutable O path s) ≡ true
  unfolding has_immutable list_attributes
  has_immutable_done path s = ground arith

  file_report_done : (path : Text) (s : State) → is_done (file_report O path s) ≡ true
  unfolding file_report
  file_report_done path s = grind (arith, has_immutable_done)

  -- What the report takes from the lines of the kernel's file.
  record IsRead (lines : List Text) (r : StatusReport) : Type 0 where
    time : r.time_left ≡ time_left lines
    armed : r.pgp_armed ≡ text_eq (parse_field (lit "pgp_active") lines) (lit "1")
    ips :
        r.blocked_ips
        ≡ add64
            (parse_int (parse_field (lit "blocked_ips_v4") lines))
            (parse_int (parse_field (lit "blocked_ips_v6") lines))
    from_disk : r.restored ≡ text_eq (parse_field (lit "state_restored") lines) (lit "1")

  -- The program goes on with a value that has the property.
  abbrev pub Returns : {A : Type 0} → (A → Type 0) → Exec State A → Type 0
  Returns P (done a s) = P a
  Returns P (exit n s) = ¬ Unit {0}

  Returns-exec :
      {A B : Type 0} (P : B → Type 0) (e : Exec State A) (f : A → Prog State B)
      → is_done e ≡ true
      → ((a : A) (s : State) → Returns P (f a s))
      → Returns P (elim e [ done a s ↦ f a s | exit n s ↦ exit n s ])
  Returns-exec P (done a s) f h k = k a s
  Returns-exec P (exit n s) f h k = absurd (ground (arith, h))

  report_status-IsRead :
      (lines : List Text) (s : State) → Returns (IsRead lines) (report_status O lines s)
  unfolding report_status
  report_status-IsRead lines s =
      Returns-exec (IsRead lines) (uname O s) _ (uname_done s) (λ release s1.
        Returns-exec (IsRead lines) (file_report O _ s1) _ (file_report_done _ s1) (λ ko_file s2.
          Returns-exec (IsRead lines) (file_report O _ s2) _ (file_report_done _ s2)
            (λ mod_load s3. record { time = refl; armed = refl; ips = refl; from_disk = refl })))

  -- What is reported of a session.
  pub record IsReportOf (n : Counts) (k : Session) (r : StatusReport) : Type 0 where
    pub time : r.time_left ≡ (
        if k.enabled
        then some (quot (pos (remaining_seconds k)) 60, rem (pos (remaining_seconds k)) 60)
        else none)
    pub armed : r.pgp_armed ≡ k.pgp_active
    pub ips : r.blocked_ips ≡ pos (n.ips_v4 + n.ips_v6)
    pub from_disk : r.restored ≡ k.state_restored

  abbrev lines_of : Counts → Session → List Text
  lines_of n k = split b'\n' (status_show n k)

  time_left-status_show :
      (n : Counts) (k : Session)
      → remaining_seconds k < 2 ^ 63
      → time_left (lines_of n k) ≡ (
          if k.enabled
          then some (quot (pos (remaining_seconds k)) 60, rem (pos (remaining_seconds k)) 60)
          else none)
  unfolding time_left field_of status_fields has_prefix lit
  time_left-status_show n k small = ground (
    arith,
    field_value (lit "remaining") n k (ground arith),
    field_value (lit "enabled") n k (ground arith),
    bit_lem k.enabled,
    parse_int-itoa (remaining_seconds k) small,
  )

  ips-status_show :
      (n : Counts) (k : Session)
      → n.ips_v4 ≤ 4096
      → n.ips_v6 ≤ 1024
      → add64
          (parse_int (parse_field (lit "blocked_ips_v4") (lines_of n k)))
          (parse_int (parse_field (lit "blocked_ips_v6") (lines_of n k)))
        ≡ pos (n.ips_v4 + n.ips_v6)
  unfolding field_of status_fields has_prefix lit wrap64 ◌+ℤ◌
  ips-status_show n k few4 few6 = ground (
    arith,
    field_value (lit "blocked_ips_v4") n k (ground arith),
    field_value (lit "blocked_ips_v6") n k (ground arith),
    parse_int-itoa n.ips_v4 (omega arith),
    parse_int-itoa n.ips_v6 (omega arith),
  )

  armed-status_show :
      (n : Counts) (k : Session)
      → text_eq (parse_field (lit "pgp_active") (lines_of n k)) (lit "1") ≡ k.pgp_active
  unfolding field_of status_fields has_prefix lit
  armed-status_show n k =
      ground (arith, field_value (lit "pgp_active") n k (ground arith), bit_lem k.pgp_active)

  restored-status_show :
      (n : Counts) (k : Session)
      → text_eq (parse_field (lit "state_restored") (lines_of n k)) (lit "1") ≡ k.state_restored
  unfolding field_of status_fields has_prefix lit
  restored-status_show n k =
      ground
        (arith, field_value (lit "state_restored") n k (ground arith), bit_lem k.state_restored)

  IsRead-IsReportOf :
      (K : Kernel) (n : Counts) {k : Session} (r : StatusReport)
      → Reachable K k
      → n.ips_v4 ≤ 4096
      → n.ips_v6 ≤ 1024
      → IsRead (lines_of n k) r
      → IsReportOf n k r
  IsRead-IsReportOf K n {k} r reach few4 few6 h = record {
    time =
        h.time ∙ time_left-status_show n k (omega (arith, (Reachable-IsSound K reach).is_bounded));
    armed = h.armed ∙ armed-status_show n k;
    ips = h.ips ∙ ips-status_show n k few4 few6;
    from_disk = h.from_disk ∙ restored-status_show n k;
  }

  Returns-value :
      {A : Type 0} (P : A → Type 0) (e : Exec State A)
      → Returns P e
      → (a : A) × ((s : State) × (e ≡ done a s) × P a)
  Returns-value P (done a s) h = (a, (s, refl, h))
  Returns-value P (exit n s) h = absurd (h tt)

  -- With the module loaded, `status` comes to its end, and what it reports of a session that the
  -- module can come to is right: whether it runs, with the minutes and seconds it has to go, whether
  -- it is locked, whether it was restored, and how many addresses are blocked, for lists no longer
  -- than the module keeps.
  pub do_status-IsReportOf :
      (K : Kernel) (n : Counts) (k : Session) (s : State)
      → Reachable K k
      → n.ips_v4 ≤ 4096
      → n.ips_v6 ≤ 1024
      → module_loaded O s ≡ true
      → read_file s (sysfs (lit "status")) ≡ ok (status_show n k)
      → (r : StatusReport) × ((s' : State) × (do_status O s ≡ done (loaded r) s')
          × IsReportOf n k r)
  unfolding do_status
  do_status-IsReportOf K n k s reach few4 few6 is_loaded shown =
      let (r, (s', e, h)) =
        Returns-value (IsRead (lines_of n k)) (report_status O (lines_of n k) s)
          (report_status-IsRead (lines_of n k) s) in
      (r, (s', ground (arith, is_loaded, shown, e), IsRead-IsReportOf K n r reach few4 few6 h))
