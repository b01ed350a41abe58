-- ===== src/Kernel/Names/Matches.antt =====
-- A host matches a blocked domain exactly when it is that domain or a subdomain of it.
use mathlib.Core.List.{append_assoc}
use mathlib.Core.Path.{subst}
use kblocker.Base.{
  ℕ, zero, suc, ◌+◌, ◌-◌, ◌≤◌, ◌≡◌, ◌≢◌, refl, sym, ap, ◌∙◌, ◌↔◌, ◌⊎◌, inl, inr, true, some, List,
  ◌∈◌, [], ◌∷◌, ◌++◌, Text, arith, length, length-append, drop, take, is_empty_lem, Option-cases,
  Bool-cases,
}
use kblocker.Base.Parts.{get_elem?, get_elem?-append, take-append-drop, take-suc, drop-append}
use kblocker.Kernel.Domains.{lower_text}
use kblocker.Kernel.Names.{same_letters, kb_domain_matches, any_matches}

-- A host ends in the letters of a domain, whatever their case, and before them is nothing or a dot.
pub record IsWithin (host domain : Text) : Type 0 where
  pub before : Text
  pub last : Text
  pub whole : host ≡ before ++ last
  pub same : lower_text last ≡ lower_text domain
  pub apart : (before ≡ []) ⊎ ((w : Text) × (before ≡ w ++ (b'.' ∷ [])))

same_letters_iff : (s t : Text) → (same_letters s t ≡ true) ↔ (lower_text s ≡ lower_text t)
unfolding same_letters lower_text
same_letters_iff [] [] = (λ h. refl, λ h. refl)
same_letters_iff [] (d ∷ t) = (λ h. cc, λ h. cc)
same_letters_iff (c ∷ s) [] = (λ h. cc, λ h. cc)
same_letters_iff (c ∷ s) (d ∷ t) = ground (arith, same_letters_iff s t)

pub length-lower_text : (s : Text) → length (lower_text s) ≡ length s
unfolding lower_text
length-lower_text [] = refl
length-lower_text (c ∷ s) = omega (arith, length-lower_text s)

length-same : (s t : Text) → lower_text s ≡ lower_text t → length s ≡ length t
length-same s t e = sym (length-lower_text s) ∙ ap length e ∙ length-lower_text t

-- The byte before the last part is a dot.
dot_before :
    (host domain w last : Text)
    → host ≡ (w ++ (b'.' ∷ [])) ++ last
    → length last ≡ length domain
    → get_elem? host (length host - length domain - 1) ≡ some b'.'
dot_before host domain w last e same =
    let place : length host - length domain - 1 ≡ length w =
      rw e
        (omega (arith, length-append (w ++ (b'.' ∷ [])) last, length-append w (b'.' ∷ []), same)) in
    rw (place, e, append_assoc w (b'.' ∷ []) last) (get_elem?-append w last b'.')

IsWithin-kb_domain_matches :
    (host domain : Text) → domain ≢ [] → IsWithin host domain → kb_domain_matches host domain ≡ true
unfolding kb_domain_matches
IsWithin-kb_domain_matches host domain some_domain h =
    let same = length-same h.last domain h.same in
    let long : length host ≡ length h.before + length domain =
      rw h.whole (omega (arith, length-append h.before h.last, same)) in
    let place : length host - length domain ≡ length h.before = omega (arith, long) in
    let part : drop (length host - length domain) host ≡ h.last =
      rw (place, h.whole) (drop-append h.before h.last) in
    let letters : same_letters (drop (length host - length domain) host) domain ≡ true =
      rw part ((same_letters_iff h.last domain).1 h.same) in
    let filled = is_empty_lem domain some_domain in
    elim h.apart [
      | inl none_before ↦
          let no_length : length h.before ≡ 0 = ap length none_before in
          ground (arith, filled, letters, long, no_length)
      | inr (w, dotted) ↦
          let dot = dot_before host domain w h.last (h.whole ∙ ap (λ b. b ++ h.last) dotted) same in
          ground (arith, filled, letters, long, dot)
    ]

-- What a match says of the parts of the host.
matched :
    (host domain : Text)
    → kb_domain_matches host domain ≡ true
    → (domain ≢ [])
      × (length domain ≤ length host)
      × (same_letters (drop (length host - length domain) host) domain ≡ true)
      × ((length host ≡ length domain)
          ⊎ (get_elem? host (length host - length domain - 1) ≡ some b'.'))
unfolding kb_domain_matches
matched host [] h = absurd (cc)
matched host (c ∷ domain) h =
    elim (Option-cases (get_elem? host (length host - suc (length domain) - 1))) [
      | inl past ↦ ground (arith, h, past)
      | inr (b, byte) ↦ ground (arith, h, byte)
    ]

ends_in_dot :
    (k : ℕ) (host : Text)
    → get_elem? host (k - 1) ≡ some b'.'
    → (take k host ≡ []) ⊎ ((w : Text) × (take k host ≡ w ++ (b'.' ∷ [])))
ends_in_dot zero host h = inl refl
ends_in_dot (suc k) host h =
    let place : suc k - 1 ≡ k = omega arith in
    inr (take k host, take-suc k host b'.' (subst (λ n. get_elem? host n ≡ some b'.') place h))

kb_domain_matches-IsWithin :
    (host domain : Text) → kb_domain_matches host domain ≡ true → IsWithin host domain
kb_domain_matches-IsWithin host domain h =
    let (filled, fits, letters, ends) = matched host domain h in
    let k = length host - length domain in
    record {
      before = take k host;
      last = drop k host;
      whole = sym (take-append-drop k host);
      same = (same_letters_iff (drop k host) domain).0 letters;
      apart = elim ends [
        | inl whole ↦ inl (let none_left : k ≡ 0 = omega (arith, whole) in rw none_left refl)
        | inr dot ↦ ends_in_dot k host dot
      ];
    }

-- A host matches exactly when the domain is not empty and the host ends in it, whatever the case of
-- the letters, with nothing or a dot before it.
pub kb_domain_matches_iff :
    (host domain : Text)
    → (kb_domain_matches host domain ≡ true) ↔ ((domain ≢ []) × IsWithin host domain)
kb_domain_matches_iff host domain = (
  λ h. ((matched host domain h).0, kb_domain_matches-IsWithin host domain h),
  λ h. IsWithin-kb_domain_matches host domain h.0 h.1,
)

-- A list has a domain that the host lies within exactly when one of its domains matches.
pub any_matches-mem :
    (host d : Text) (ds : List Text)
    → d ∈ ds
    → d ≢ []
    → IsWithin host d
    → any_matches host ds ≡ true
unfolding any_matches
any_matches-mem host d [] m some_d h = absurd m
any_matches-mem host d (e ∷ ds) (inl same) some_d h =
    let match =
      subst (λ e'. kb_domain_matches host e' ≡ true) same
        (IsWithin-kb_domain_matches host d some_d h) in
    rw match refl
any_matches-mem host d (e ∷ ds) (inr m) some_d h =
    ground (arith, any_matches-mem host d ds m some_d h)

pub any_matches-IsWithin :
    (host : Text) (ds : List Text)
    → any_matches host ds ≡ true
    → (d : Text) × (d ∈ ds) × IsWithin host d
unfolding any_matches
any_matches-IsWithin host [] h = absurd (cc)
any_matches-IsWithin host (d ∷ ds) h = elim (Bool-cases (kb_domain_matches host d)) [
  | inl match ↦ (d, inl refl, kb_domain_matches-IsWithin host d match)
  | inr other ↦
      let (e, m, within) = any_matches-IsWithin host ds (ground (arith, h, other)) in
      (e, inr m, within)
]
