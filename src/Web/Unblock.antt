-- ===== src/Web/Unblock.antt =====
-- `handleAPIUnblock`: how a request to end the block is answered.
use kblocker.Base.{
  ℕ, ◌≡◌, ◌≢◌, ◌≤◌, ◌⊎◌, inl, inr, true, some, [], arith, Text, lit, text_eq, text_eq_iff, is_empty,
  is_empty_iff, Bool-cases, Option-cases,
}
use kblocker.System.{Os, Errno, ok, err, done, Reply-cases}
use kblocker.Cli.{sysfs, module_loaded}
use kblocker.Http.{Web, Request}
use kblocker.Web.{unblock_with, handle_unblock}

module _ (O : Os) where
  open O use {State}

  -- The request asks the kernel to end the block with this key.
  abbrev pub Asks : Web → Request → State → Text → Type 0
  Asks web r s key =
      (r.method ≡ lit "POST")
      × (web.request_key r.body ≡ some key)
      × (key ≢ [])
      × (module_loaded O s ≡ true)

  -- The request is answered, with status 200 exactly when it asks the kernel to end the block and
  -- the kernel accepts the key. A request that does not ask changes nothing, and one that does
  -- changes what the write of its key to `disable` does.
  pub handle_unblock_lem :
      (web : Web) (r : Request) (s : State)
      → ((key : Text) × Asks web r s key
          × ((((O.write_file (sysfs (lit "disable")) key s).0 ≡ ok tt)
                × ((text : Text) × (handle_unblock O web r s
                      ≡ done
                          (record { status = 200; content = text })
                          (O.write_file (sysfs (lit "disable")) key s).1)))
              ⊎ ((handle_unblock O web r s
                    ≡ done
                        (record { status = 403; content = [] })
                        (O.write_file (sysfs (lit "disable")) key s).1)
                  × ((e : Errno) × ((O.write_file (sysfs (lit "disable")) key s).0 ≡ err e)))))
        ⊎ ((n : ℕ) × (400 ≤ n)
            × (handle_unblock O web r s ≡ done (record { status = n; content = [] }) s)
            × ((key : Text) → ¬ Asks web r s key))
  unfolding handle_unblock unblock_with
  handle_unblock_lem web r s = elim (Bool-cases (text_eq r.method (lit "POST"))) [
    | inr p ↦ inr (
      405,
      omega arith,
      ground (arith, p),
      λ key asks. absurd (ground (arith, p, asks.0, text_eq_iff r.method (lit "POST"))),
    )
    | inl p ↦ elim (Option-cases (web.request_key r.body)) [
      | inl q ↦
          inr
            (400, omega arith, ground (arith, p, q), λ key asks. absurd (ground (arith, q, asks.1)))
      | inr (key, q) ↦ elim (Bool-cases (is_empty key)) [
        | inl e ↦ inr (
          400,
          omega arith,
          ground (arith, p, q, e),
          λ k asks. absurd (ground (arith, q, e, asks.1, asks.2, is_empty_iff key)),
        )
        | inr e ↦ elim (Bool-cases (module_loaded O s)) [
          | inr l ↦ inr (
            404,
            omega arith,
            ground (arith, p, q, e, l),
            λ k asks. absurd (ground (arith, l, asks.2)),
          )
          | inl l ↦
              let written = O.write_file (sysfs (lit "disable")) key s in
              let asks : Asks web r s key = (
                ground (arith, p, text_eq_iff r.method (lit "POST")),
                q,
                ground (arith, e, is_empty_iff key),
                l,
              ) in
              elim (Reply-cases written.0) [
                | inl (x, w) ↦ inl (key, asks, inr (ground (arith, p, q, e, l, w), (x, w)))
                | inr (_, w) ↦
                    inl (
                      key,
                      asks,
                      inl (w, (lit "Blocking disabled.", ground (arith, p, q, e, l, w))),
                    )
              ]
        ]
      ]
    ]
  ]
