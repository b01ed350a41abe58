-- ===== src/Kernel/Filter/Addresses.antt =====
-- A packet to an address that was written to `blocked_ips` is dropped.
use mathlib.Core.List.{foldl}
use mathlib.Core.Path.{subst}
use kblocker.Base.{
  ℕ, ◌+◌, ◌%◌, ◌≤◌, ◌<◌, ◌≡◌, refl, sym, ◌||◌, ◌∈◌, true, false, Option, none, some, List, [], ◌∷◌,
  ◌++◌, Text, lit, arith, length, length-append, ltb, is_empty, has_prefix, split, mem-append_left,
  mem-append_right, ◌⊎◌, Bool-cases, Option-cases, inl, inr,
}
use kblocker.Kernel.StateFile.{c_text}
use kblocker.Kernel.Lists.{
  Inet, Lists, max_ips_v4, max_ips_v6, add_ip, parse_ips, blocked_ips_store,
}
use kblocker.Kernel.Filter.{
  drop_packet, ipv4, Packet, skb_header_pointer, byte_of, u32_of, is_ip_blocked, is_ip_allowed,
  inspect_v4, kblocker_hook_v4, kblocker_hook,
}

-- A line that is an address: not empty and no comment.
pub record IsEntry (token : Text) : Type 0 where
  pub filled : is_empty token ≡ false
  pub no_comment : has_prefix token (lit "#") ≡ false

module _ (I : Inet) where
  open I use {in4_pton, in6_pton}

  -- A line adds one address, or nothing.
  add_ip-cases :
      (v4 : List ℕ) (v6 : List Text) (t : Text)
      → (add_ip I (v4, v6) t ≡ (v4, v6))
        ⊎ (((a : ℕ) × (add_ip I (v4, v6) t ≡ (v4 ++ (a ∷ []), v6)))
            ⊎ ((a : Text) × (add_ip I (v4, v6) t ≡ (v4, v6 ++ (a ∷ [])))))
  unfolding add_ip
  add_ip-cases v4 v6 t = elim (Bool-cases (is_empty t || has_prefix t (lit "#"))) [
    | inl skipped ↦ inl (rw skipped refl)
    | inr entry ↦ elim (Option-cases (in6_pton t)) [
      | inr (a, is6) ↦ elim (Bool-cases (ltb (length v6) max_ips_v6)) [
        | inl room ↦ inr (inr (a, rw (entry, is6, room) refl))
        | inr full ↦ inl (rw (entry, is6, full) refl)
      ]
      | inl no6 ↦ elim (Option-cases (in4_pton t)) [
        | inl no4 ↦ inl (rw (entry, no6, no4) refl)
        | inr (a, is4) ↦ elim (Bool-cases (ltb (length v4) max_ips_v4)) [
          | inl room ↦ inr (inl (a, rw (entry, no6, is4, room) refl))
          | inr full ↦ inl (rw (entry, no6, is4, full) refl)
        ]
      ]
    ]
  ]

  add_ip-adds4 :
      (v4 : List ℕ) (v6 : List Text) (t : Text) (a : ℕ)
      → IsEntry t
      → in6_pton t ≡ none
      → in4_pton t ≡ some a
      → length v4 < max_ips_v4
      → add_ip I (v4, v6) t ≡ (v4 ++ (a ∷ []), v6)
  unfolding add_ip
  add_ip-adds4 v4 v6 t a e no6 is4 space =
      let room : ltb (length v4) max_ips_v4 ≡ true = ground arith in
      rw (e.filled, e.no_comment, no6, is4, room) refl

  first_line-mem :
      (v4 : List ℕ) (v6 : List Text) (t : Text) (tokens : List Text) (a : ℕ)
      (acc : List ℕ × List Text)
      → add_ip I (v4, v6) t ≡ acc
      → a ∈ (foldl (add_ip I) acc tokens).0
      → a ∈ (foldl (add_ip I) (v4, v6) (t ∷ tokens)).0
  first_line-mem v4 v6 t tokens a acc e m =
      subst (λ (r : List ℕ × List Text). a ∈ (foldl (add_ip I) r tokens).0) (sym e) m

  -- What is on the list of IPv4 addresses stays there.
  parse_from-mem :
      (tokens : List Text) (v4 : List ℕ) (v6 : List Text) (a : ℕ)
      → a ∈ v4
      → a ∈ (foldl (add_ip I) (v4, v6) tokens).0
  parse_from-mem [] v4 v6 a m = m
  parse_from-mem (t ∷ tokens) v4 v6 a m = elim (add_ip-cases v4 v6 t) [
    | inl e ↦ first_line-mem v4 v6 t tokens a _ e (parse_from-mem tokens v4 v6 a m)
    | inr (inl (b, e)) ↦
        first_line-mem v4 v6 t tokens a _ e
          (parse_from-mem tokens (v4 ++ (b ∷ [])) v6 a (mem-append_left a v4 (b ∷ []) m))
    | inr (inr (b, e)) ↦
        first_line-mem v4 v6 t tokens a _ e (parse_from-mem tokens v4 (v6 ++ (b ∷ [])) a m)
  ]

  parse_from-adds :
      (tokens : List Text) (v4 : List ℕ) (v6 : List Text) (t : Text) (a : ℕ)
      → t ∈ tokens
      → length v4 + length tokens ≤ max_ips_v4
      → IsEntry t
      → in6_pton t ≡ none
      → in4_pton t ≡ some a
      → a ∈ (foldl (add_ip I) (v4, v6) tokens).0
  parse_from-adds [] v4 v6 t a m few e no6 is4 = absurd m
  parse_from-adds (u ∷ tokens) v4 v6 t a (inl same) few e no6 is4 =
      let added : add_ip I (v4, v6) u ≡ (v4 ++ (a ∷ []), v6) =
        subst (λ t'. add_ip I (v4, v6) t' ≡ (v4 ++ (a ∷ []), v6)) same
          (add_ip-adds4 v4 v6 t a e no6 is4 (omega arith)) in
      first_line-mem v4 v6 u tokens a _ added
        (parse_from-mem tokens (v4 ++ (a ∷ [])) v6 a (mem-append_right a v4 (a ∷ []) (inl refl)))
  parse_from-adds (u ∷ tokens) v4 v6 t a (inr m) few e no6 is4 = elim (add_ip-cases v4 v6 u) [
    | inl same ↦
        first_line-mem v4 v6 u tokens a _ same
          (parse_from-adds tokens v4 v6 t a m (omega arith) e no6 is4)
    | inr (inl (b, more)) ↦ first_line-mem v4 v6 u tokens a _ more (
        parse_from-adds tokens (v4 ++ (b ∷ [])) v6 t a m (omega (arith, length-append v4 (b ∷ [])))
          e no6 is4)
    | inr (inr (b, more)) ↦
        first_line-mem v4 v6 u tokens a _ more
          (parse_from-adds tokens v4 (v6 ++ (b ∷ [])) t a m (omega arith) e no6 is4)
  ]

  parse_ips-mem :
      (tokens : List Text) (t : Text) (a : ℕ)
      → t ∈ tokens
      → length tokens ≤ max_ips_v4
      → IsEntry t
      → in6_pton t ≡ none
      → in4_pton t ≡ some a
      → a ∈ (parse_ips I tokens).0
  unfolding parse_ips
  parse_ips-mem tokens t a m few e no6 is4 =
      parse_from-adds tokens [] [] t a m (omega arith) e no6 is4

mem-is_ip_blocked : (ips : List ℕ) (a : ℕ) → a ∈ ips → is_ip_blocked ips a ≡ true
unfolding is_ip_blocked
mem-is_ip_blocked [] a m = absurd m
mem-is_ip_blocked (b ∷ ips) a (inl e) = ground (arith, e)
mem-is_ip_blocked (b ∷ ips) a (inr m) = ground (arith, mem-is_ip_blocked ips a m)

blocked-drop_packet :
    (lists : Lists) (p : Packet) (iph : Text)
    → skb_header_pointer p p.network_offset 20 ≡ some iph
    → 5 ≤ byte_of iph 0 % 16
    → is_ip_allowed lists.allowed_v4 (u32_of iph 16) ≡ false
    → u32_of iph 16 ∈ lists.blocked_v4
    → kblocker_hook_v4 lists p ≡ drop_packet
unfolding inspect_v4 kblocker_hook_v4
blocked-drop_packet lists p iph header words free listed =
    let long : ltb (byte_of iph 0 % 16) 5 ≡ false = ground arith in
    let blocked = mem-is_ip_blocked lists.blocked_v4 (u32_of iph 16) listed in
    rw (header, kblocker_hook_v4, long, free, blocked) refl

-- After a write to `blocked_ips` of at most 4096 lines, one of which is an IPv4 address and no IPv6
-- address, every IPv4 packet with a whole header that goes to this address is dropped while a session
-- runs, unless the address is allowed.
pub blocked_ips_store-drop_packet :
    (I : Inet) (skip : Packet → ℕ → ℕ → Option (ℕ × ℕ × ℕ)) (buf : Text) (lists : Lists) (t : Text)
    (p : Packet) (iph : Text)
    → t ∈ split b'\n' (c_text buf)
    → length (split b'\n' (c_text buf)) ≤ max_ips_v4
    → IsEntry t
    → I.in6_pton t ≡ none
    → I.in4_pton t ≡ some (u32_of iph 16)
    → skb_header_pointer p p.network_offset 20 ≡ some iph
    → 5 ≤ byte_of iph 0 % 16
    → is_ip_allowed lists.allowed_v4 (u32_of iph 16) ≡ false
    → kblocker_hook I skip true ipv4 (blocked_ips_store I buf false lists).1 p ≡ drop_packet
unfolding kblocker_hook blocked_ips_store
blocked_ips_store-drop_packet I skip buf lists t p iph m few e no6 is4 header words free =
    blocked-drop_packet (blocked_ips_store I buf false lists).1 p iph header words free
      (parse_ips-mem I (split b'\n' (c_text buf)) t (u32_of iph 16) m few e no6 is4)
