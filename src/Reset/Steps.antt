-- ===== src/Reset/Steps.antt =====
-- The steps of reset: each comes to its end, and all of them run.
use kblocker.Base.{
  ◌≡◌, refl, ◌⊎◌, inl, inr, Bool, true, false, not, ◌&&◌, some, List, [], ◌∷◌, ◌++◌, arith, All,
  Text, lit, Bool-cases, Option-cases, join, if◌then◌else◌,
}
use kblocker.System.{
  Os, enoent, Reply, done, exit, Prog, ◌>>=◌, ◌>>◌, ret, ask, act, is_ok, Reply-cases,
}
use kblocker.System.Laws.{Completes}
use kblocker.Cli.{
  sysfs, blocked_domains_file, allowed_ips_file, newline, requires_root, module_loaded, write_lines,
  chattr, pgp_key_dir, pgp_enc_dir, dir_entries,
}
use kblocker.Domains.Apply.{chattr-Completes}
use kblocker.Scheduler.{
  Codec, schedule_file, schedule_state_file, no_blocks, write_schedule, blocking_enabled,
}
use kblocker.HistoryFiles.{history_file, history_open_file}
use kblocker.Reset.{
  ResetOptions, no_options, default_domains, web_drop_in, scheduler_unit, reset_options, is_gone,
  remove_files, write_default_file, reset_sites, remove_allowed, reset_allowed, reset_schedule,
  restart_pages, reset_web_pages, key_paths, cipher_paths, chattr_all, reset_key_holders, confirmed,
  reset_steps, run_steps, reset_with, do_reset,
}

module _ (O : Os) where
  open O use {State, euid}

  -- The step returns whether it worked.
  abbrev pub Returns : Prog State Bool → Type 0
  Returns m = (s : State) → (b : Bool) × (s' : State) × (m s ≡ done b s')

  Returns-if :
      (b : Bool) (m k : Prog State Bool) → Returns m → Returns k → Returns (if b then m else k)
  Returns-if true m k hm hk = hm
  Returns-if false m k hm hk = hk

  Returns-then :
      (m : Prog State (Unit {0})) (k : Prog State Bool) → Completes m → Returns k → Returns (m >> k)
  Returns-then m k hm hk s =
      let (a, p) = hm s in let (b, s', q) = hk a in (b, s', ground (arith, p, q))

  Returns-bind :
      (m : Prog State Bool) (k : Bool → Prog State Bool)
      → Returns m
      → ((b : Bool) → Returns (k b))
      → Returns (m >>= k)
  Returns-bind m k hm hk s =
      let (a, t, p) = hm s in let (b, s', q) = hk a t in (b, s', ground (arith, p, q))

  remove_files-Returns : (ps : List Text) → Returns (remove_files O ps)
  unfolding remove_files
  remove_files-Returns [] s = (true, s, refl)
  remove_files-Returns (p ∷ ps) s =
      let (b, s', q) = remove_files-Returns ps (O.remove p s).1 in
      (is_gone (O.remove p s).0 && b, s', ground (arith, q))

  write_default_file-Returns : Returns (write_default_file O)
  unfolding write_default_file
  write_default_file-Returns s =
      let (a, p) =
        chattr-Completes O blocked_domains_file (lit "-i")
          (O.mkdir_all (lit "/etc/kblocker") s).1 in
      let written = O.write_file blocked_domains_file (join default_domains newline ++ newline) a in
      let (b, q) = chattr-Completes O blocked_domains_file (lit "+i") written.1 in
      (is_ok written.0, b, ground (arith, p, q))

  failed-Returns : Returns (ret false)
  failed-Returns s = (false, s, refl)

  -- A write, and then a step that goes on only if it worked.
  Returns-write :
      (f : State → Reply (Unit {0}) × State) (k : Prog State Bool)
      → Returns k
      → Returns (act f >>= λ reply. if not (is_ok reply) then ret false else k)
  Returns-write f k hk s = Returns-if (not (is_ok (f s).0)) (ret false) k failed-Returns hk (f s).1

  Returns-loaded :
      (m k : Prog State Bool)
      → Returns m
      → Returns k
      → Returns (ask (module_loaded O) >>= λ loaded. if not loaded then m else k)
  Returns-loaded m k hm hk s = Returns-if (not (module_loaded O s)) m k hm hk s

  reset_sites-Returns : Returns (reset_sites O)
  unfolding reset_sites
  reset_sites-Returns = Returns-loaded (write_default_file O) _ write_default_file-Returns (
      Returns-write (write_lines O (sysfs (lit "blocked_domains")) default_domains) _ (
        Returns-write (O.write_file (sysfs (lit "blocked_ips")) newline) (write_default_file O)
          write_default_file-Returns))

  remove_allowed-Returns : Returns (remove_allowed O)
  unfolding remove_allowed
  remove_allowed-Returns =
      Returns-then (chattr O allowed_ips_file (lit "-i")) (remove_files O (allowed_ips_file ∷ []))
        (chattr-Completes O allowed_ips_file (lit "-i"))
        (remove_files-Returns (allowed_ips_file ∷ []))

  reset_allowed-Returns : Returns (reset_allowed O)
  unfolding reset_allowed
  reset_allowed-Returns = Returns-loaded (remove_allowed O) _ remove_allowed-Returns (
      Returns-write (O.write_file (sysfs (lit "allowed_ips")) newline) (remove_allowed O)
        remove_allowed-Returns)

  write_schedule-Returns : (codec : Codec) → Returns (write_schedule O codec no_blocks)
  unfolding write_schedule
  write_schedule-Returns codec s = elim (Option-cases (codec.encode no_blocks)) [
    | inl p ↦ (false, s, ground (arith, p))
    | inr (text, p) ↦
        let tmp = schedule_file ++ lit ".tmp" in
        let written = O.write_file tmp text (O.mkdir_all (lit "/etc/kblocker") s).1 in
        elim (Reply-cases written.0) [
          | inl (e, q) ↦ (false, written.1, ground (arith, p, q))
          | inr (_, q) ↦
              let moved = O.rename tmp schedule_file written.1 in
              elim (Reply-cases moved.0) [
                | inl (e, r) ↦ (false, moved.1, ground (arith, p, q, r))
                | inr (_, r) ↦ (true, moved.1, ground (arith, p, q, r))
              ]
        ]
  ]

  reset_schedule-Returns : (codec : Codec) → Returns (reset_schedule O codec)
  unfolding reset_schedule
  reset_schedule-Returns codec =
      Returns-bind (write_schedule O codec no_blocks) _ (write_schedule-Returns codec) (λ written.
        Returns-if (not written) (ret false) (remove_files O (schedule_state_file ∷ []))
          failed-Returns (remove_files-Returns (schedule_state_file ∷ [])))

  restart_pages-Returns : Returns (restart_pages O)
  unfolding restart_pages
  restart_pages-Returns =
      Returns-bind (remove_files O (web_drop_in ∷ [])) _ (remove_files-Returns (web_drop_in ∷ []))
        (λ removed. Returns-if (not removed) (ret false) _ failed-Returns (λ s.
          let reloaded = O.run (lit "systemctl" ∷ lit "daemon-reload" ∷ []) [] s in
          Returns-if (not (is_ok reloaded.0)) (ret false) _ failed-Returns
            (λ t.
              let restarted =
                O.run (lit "systemctl" ∷ lit "try-restart" ∷ scheduler_unit ∷ []) [] t in
              (is_ok restarted.0, restarted.1, refl))
            reloaded.1))

  reset_web_pages-Returns : Returns (reset_web_pages O)
  unfolding reset_web_pages
  reset_web_pages-Returns s = elim (Reply-cases (O.stat s web_drop_in)) [
    | inr (d, p) ↦ let (b, s', q) = restart_pages-Returns s in (b, s', ground (arith, p, q))
    | inl (enoent, p) ↦ (true, s, ground (arith, p))
    | inl (e, p) ↦ let (b, s', q) = restart_pages-Returns s in (b, s', ground (arith, p, q))
  ]

  chattr_all-Completes : (ps : List Text) → Completes (chattr_all O ps)
  unfolding chattr_all
  chattr_all-Completes [] s = (s, refl)
  chattr_all-Completes (p ∷ ps) s =
      let (a, q) = chattr-Completes O p (lit "-i") s in
      let (b, r) = chattr_all-Completes ps a in (b, ground (arith, q, r))

  reset_key_holders-Returns : Returns (reset_key_holders O)
  unfolding reset_key_holders
  reset_key_holders-Returns s =
      let keys = pgp_key_dir O s in
      let dir = pgp_enc_dir O s in
      let paths =
        key_paths O keys (dir_entries O s keys) ++ cipher_paths O dir (dir_entries O s dir) in
      Returns-then (chattr_all O paths) (remove_files O paths) (chattr_all-Completes paths)
        (remove_files-Returns paths) s

  -- The steps run one after the other from a state to another, with these results.
  pub data Ran : List (Prog State Bool) → State → List Bool → State → Type 0 where
    ran_none : {s : State} → Ran [] s [] s
    ran_step :
        {m : Prog State Bool} {ms : List (Prog State Bool)} {s s1 s2 : State} {b : Bool}
        {bs : List Bool}
        → m s ≡ done b s1
        → Ran ms s1 bs s2
        → Ran (m ∷ ms) s (b ∷ bs) s2

  abbrev pub all_true : List Bool → Bool
  all_true [] = true
  all_true (b ∷ bs) = b && all_true bs

  -- What `run_steps` comes to.
  abbrev AllRan : List (Prog State Bool) → State → Type 0
  AllRan ms s =
      (bs : List Bool) × (s' : State) × Ran ms s bs s' × (run_steps O ms s ≡ done (all_true bs) s')

  run_steps-Ran : (ms : List (Prog State Bool)) (s : State) → All Returns ms → AllRan ms s
  unfolding run_steps
  run_steps-Ran [] s h = ([], s, ran_none, refl)
  run_steps-Ran (m ∷ ms) s (h, hs) =
      let (b, s1, p) = h s in
      let (bs, s2, r, q) = run_steps-Ran ms s1 hs in
      (b ∷ bs, s2, ran_step p r, ground (arith, p, q))

  All-if :
      (c : Bool) (m : Prog State Bool) (ms : List (Prog State Bool))
      → Returns m
      → All Returns ms
      → All Returns ((if c then m ∷ [] else []) ++ ms)
  All-if true m ms h hs = (h, hs)
  All-if false m ms h hs = hs

  All-if_last :
      (c : Bool) (m : Prog State Bool) → Returns m → All Returns (if c then m ∷ [] else [])
  All-if_last true m h = (h, tt)
  All-if_last false m h = tt

  reset_steps-Returns : (codec : Codec) (o : ResetOptions) → All Returns (reset_steps O codec o)
  unfolding reset_steps
  reset_steps-Returns codec o =
      let asked =
        All-if o.history _ _ (remove_files-Returns (history_file ∷ history_open_file ∷ []))
          (All-if_last o.holders (reset_key_holders O) reset_key_holders-Returns) in
      (
        reset_sites-Returns,
        (reset_allowed-Returns, (reset_schedule-Returns codec, (reset_web_pages-Returns, asked))),
      )

  -- As root, with blocking off, and once it is confirmed, `reset` runs each of its steps in their
  -- order, whichever of them fail. It comes to its end if none did, and ends in status 1 if
  -- one did.
  pub do_reset-Ran :
      (codec : Codec) (args : List Text) (o : ResetOptions) (s s1 : State)
      → euid s ≡ 0
      → blocking_enabled O codec s ≡ false
      → reset_options no_options args ≡ some o
      → confirmed O o s ≡ done true s1
      → (bs : List Bool) × (s2 : State) × Ran (reset_steps O codec o) s1 bs s2
        × (((all_true bs ≡ true) × (do_reset O codec args s ≡ done tt s2))
            ⊎ ((all_true bs ≡ false) × (do_reset O codec args s ≡ exit 1 s2)))
  unfolding do_reset reset_with requires_root
  do_reset-Ran codec args o s s1 root idle parsed go =
      let (bs, s2, ran, steps) =
        run_steps-Ran (reset_steps O codec o) s1 (reset_steps-Returns codec o) in
      (
        bs,
        s2,
        ran,
        elim (Bool-cases (all_true bs)) [
          | inl e ↦ inl (e, ground (arith, root, idle, parsed, go, steps, e))
          | inr e ↦ inr (e, ground (arith, root, idle, parsed, go, steps, e))
        ],
      )
