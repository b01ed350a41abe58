-- ===== src/Domains/Networks.antt =====
-- `doAllowIP` on an argument that names no network.
use kblocker.Base.{
  ◌≡◌, sym, ◌≢◌, inl, inr, ◌∙◌, none, List, [], ◌∷◌, arith, ◌∈◌, Text, lit, text_eq_iff,
  Option-cases, ap,
}
use kblocker.System.{Os, exit}
use kblocker.Domains.{Net, normalize_net, normalize_all, requested_nets, do_allow_ip}
use kblocker.Domains.Guards.{IsAdmitted, guards_pass}

normalize_all-none :
    (net : Net) (a : Text) (as' : List Text)
    → a ∈ as'
    → normalize_net net a ≡ none
    → normalize_all net as' ≡ none
unfolding normalize_all
normalize_all-none net a [] m h = absurd m
normalize_all-none net a (b ∷ bs) (inl e) h =
    let here : normalize_net net b ≡ none = ap (normalize_net net) (sym e) ∙ h in
    ground (arith, here)
normalize_all-none net a (b ∷ bs) (inr m) h =
    let later = normalize_all-none net a bs m h in
    elim (Option-cases (normalize_net net b)) [
      | inl p ↦ ground (arith, p)
      | inr (n, p) ↦ ground (arith, p, later)
    ]

requested_nets-none :
    (net : Net) (a : Text) (as' : List Text)
    → a ∈ as'
    → normalize_net net a ≡ none
    → a ≢ lit "--clear"
    → requested_nets net as' ≡ none
unfolding requested_nets
requested_nets-none net a [] m h ne = absurd m
requested_nets-none net a (b ∷ []) (inl e) h ne =
    let all_of = normalize_all-none net a (b ∷ []) (inl e) h in
    ground (arith, all_of, text_eq_iff b (lit "--clear"), e)
requested_nets-none net a (b ∷ []) (inr m) h ne = absurd m
requested_nets-none net a (b ∷ c ∷ cs) m h ne = normalize_all-none net a (b ∷ c ∷ cs) m h

-- Where the guards pass, an argument of `allow-ip` that is no address and no network, and is not
-- --clear, refuses the whole command: it ends in status 1 with nothing changed.
pub do_allow_ip_refused :
    (O : Os) (net : Net) (a : Text) (args : List Text) (s : O.State)
    → IsAdmitted O s
    → a ∈ args
    → normalize_net net a ≡ none
    → a ≢ lit "--clear"
    → do_allow_ip O net args s ≡ exit 1 s
unfolding do_allow_ip
do_allow_ip_refused O net a [] s admitted m h ne = absurd m
do_allow_ip_refused O net a (b ∷ bs) s admitted m h ne =
    guards_pass O (Unit {0}) _ s admitted
    ∙ ground (arith, requested_nets-none net a (b ∷ bs) m h ne)
