-- ===== src/Web/Origin.antt =====
-- `withSameOrigin`: which requests reach a handler.
use kblocker.Base.{
  ◌≡◌, ◌⊎◌, ◌↔◌, inl, inr, true, some, [], arith, lit, text_eq_iff, is_empty_iff, Bool-cases,
  Option-cases,
}
use kblocker.System.{done, Prog}
use kblocker.Http.{Web, Request, Response}
use kblocker.Web.{host_name, trim_brackets, is_own_host, is_own_origin, with_same_origin}

-- The host that the request names is localhost or an IP address.
abbrev pub IsOwnHost : Web → Request → Type 0
IsOwnHost web r =
    (host_name web r.host ≡ lit "localhost")
    ⊎ (web.is_ip (trim_brackets (host_name web r.host)) ≡ true)

-- The request was not made by a page, or by one of the same host and port.
abbrev pub IsOwnOrigin : Web → Request → Type 0
IsOwnOrigin web r = (r.origin ≡ []) ⊎ (web.url_host r.origin ≡ some r.host)

is_own_host-IsOwnHost :
    (web : Web) (r : Request) → (is_own_host web r.host ≡ true) ↔ IsOwnHost web r
unfolding is_own_host
is_own_host-IsOwnHost web r = ground (arith, text_eq_iff (host_name web r.host) (lit "localhost"))

is_own_origin-IsOwnOrigin :
    (web : Web) (r : Request) → (is_own_origin web r ≡ true) ↔ IsOwnOrigin web r
unfolding is_own_origin
is_own_origin-IsOwnOrigin web r = elim (Option-cases (web.url_host r.origin)) [
  | inl p ↦ ground (arith, p, is_empty_iff r.origin)
  | inr (h, p) ↦ ground (arith, p, is_empty_iff r.origin, text_eq_iff h r.host)
]

-- A request reaches the handler exactly when its host is localhost or an IP address and it comes
-- from no page or from one of the same host; any other gets status 421 or 403 and changes nothing.
pub with_same_origin_lem :
    {S : Type 0} (web : Web) (next : Request → Prog S Response) (r : Request) (s : S)
    → (IsOwnHost web r × IsOwnOrigin web r × (with_same_origin web next r s ≡ next r s))
      ⊎ (((¬ IsOwnHost web r)
            × (with_same_origin web next r s ≡ done (record { status = 421; content = [] }) s))
          ⊎ ((¬ IsOwnOrigin web r)
              × (with_same_origin web next r s ≡ done (record { status = 403; content = [] }) s)))
unfolding with_same_origin
with_same_origin_lem web next r s = elim (Bool-cases (is_own_host web r.host)) [
  | inr p ↦ inr (
      inl
        (λ own. absurd (ground (arith, p, (is_own_host-IsOwnHost web r).1 own)), ground (arith, p)))
  | inl p ↦ elim (Bool-cases (is_own_origin web r)) [
    | inr q ↦ inr (
        inr (
          λ own. absurd (ground (arith, q, (is_own_origin-IsOwnOrigin web r).1 own)),
          ground (arith, p, q),
        ))
    | inl q ↦ inl (
      (is_own_host-IsOwnHost web r).0 p,
      (is_own_origin-IsOwnOrigin web r).0 q,
      ground (arith, p, q),
    )
  ]
]
