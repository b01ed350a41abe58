-- ===== src/Kernel/Filter/Dropped.antt =====
-- Why the filter drops a packet.
use kblocker.Base.{
  take, drop, contains_iff, ℕ, ◌+◌, ◌*◌, ◌/◌, ◌%◌, ◌≤◌, ◌≡◌, ◌≢◌, refl, ◌⊎◌, inl, inr, Bool, true,
  false, Option, some, [], ◌∈◌, Text, arith, Bool-cases, Option-cases,
}
use kblocker.Kernel.Lists.{Inet, Lists}
use kblocker.Kernel.Filter.{
  Family, other_family, ipv6, is_ipv6_blocked, is_ipv6_allowed, inspect_v6, kblocker_hook_v6,
  drop_packet, ipv4, Packet, skb_header_pointer, byte_of, u16_of, u32_of, is_ip_blocked,
  is_ip_allowed, inspect_transport, inspect_v4, kblocker_hook_v4, kblocker_hook,
}
use kblocker.Kernel.Filter.Reasons.{IsNamed, IsQuic, is_ip_blocked-mem, inspect_transport-cases}

-- The transport header at `thoff` is that of UDP to port 443, or of TCP with a ClientHello for a
-- host within one of the domains behind it.
abbrev pub IsTransportCause : Lists → Packet → ℕ → ℕ → Type 0
IsTransportCause lists p protocol thoff =
    IsQuic p protocol thoff ⊎ IsNamed lists.domains p protocol thoff

-- Its destination is on the list of addresses, or there is a list of domains, the packet is
-- unfragmented or the first fragment, and the transport header that its header announces is a cause.
abbrev pub IsCause : Lists → Packet → Text → Type 0
IsCause lists p iph =
    (u32_of iph 16 ∈ lists.blocked_v4)
    ⊎ ((lists.domains ≢ [])
        × (u16_of iph 6 % 8192 ≡ 0)
        × IsTransportCause lists p (byte_of iph 9) (p.network_offset + byte_of iph 0 % 16 * 4))

inspect_domains :
    (lists : Lists) (p : Packet) (iph : Text)
    → inspect_v4 lists p iph ≡ drop_packet
    → is_ip_allowed lists.allowed_v4 (u32_of iph 16) ≡ false
    → is_ip_blocked lists.blocked_v4 (u32_of iph 16) ≡ false
    → (lists.domains ≢ [])
      × (u16_of iph 6 % 8192 ≡ 0)
      × (inspect_transport lists.domains p
            (byte_of iph 9)
            (p.network_offset + byte_of iph 0 % 16 * 4)
          ≡ drop_packet)
unfolding inspect_v4
inspect_domains lists p iph h allowed blocked = ground (arith, h, allowed, blocked)

inspect_v4-IsCause :
    (lists : Lists) (p : Packet) (iph : Text)
    → inspect_v4 lists p iph ≡ drop_packet
    → (is_ip_allowed lists.allowed_v4 (u32_of iph 16) ≡ false) × IsCause lists p iph
unfolding inspect_v4
inspect_v4-IsCause lists p iph h =
    elim (Bool-cases (is_ip_allowed lists.allowed_v4 (u32_of iph 16))) [
      | inl allowed ↦ absurd (ground (arith, h, allowed))
      | inr other ↦ elim (Bool-cases (is_ip_blocked lists.blocked_v4 (u32_of iph 16))) [
        | inl blocked ↦ (other, inl (is_ip_blocked-mem lists.blocked_v4 (u32_of iph 16) blocked))
        | inr free ↦
            let (some_domains, first, dropped) = inspect_domains lists p iph h other free in
            (other, inr (some_domains, first, inspect_transport-cases lists.domains p _ _ dropped))
      ]
    ]

-- The packet has an IPv4 header that says it is of 20 bytes at least, no network allows its
-- destination, and there is a cause.
pub record IsDropped4 (lists : Lists) (p : Packet) : Type 0 where
  pub iph : Text
  pub of_iph : skb_header_pointer p p.network_offset 20 ≡ some iph
  pub long : 5 ≤ byte_of iph 0 % 16
  pub not_allowed : is_ip_allowed lists.allowed_v4 (u32_of iph 16) ≡ false
  pub cause : IsCause lists p iph

kblocker_hook_v4-IsDropped4 :
    (lists : Lists) (p : Packet) → kblocker_hook_v4 lists p ≡ drop_packet → IsDropped4 lists p
unfolding kblocker_hook_v4
kblocker_hook_v4-IsDropped4 lists p h =
    elim (Option-cases (skb_header_pointer p p.network_offset 20)) [
      | inl short ↦ absurd (ground (arith, h, short))
      | inr (iph, header) ↦
          let (other, cause) = inspect_v4-IsCause lists p iph (ground (arith, h, header)) in
          record {
            iph = iph;
            of_iph = header;
            long = ground (arith, h, header);
            not_allowed = other;
            cause = cause;
          }
    ]

module _ (I : Inet) (skip : Packet → ℕ → ℕ → Option (ℕ × ℕ × ℕ)) where
  -- Where ipv6_skip_exthdr finds the transport header, unfragmented or in the first fragment.
  pub record IsCauseBehind (lists : Lists) (p : Packet) (ip6h : Text) : Type 0 where
    pub protocol : ℕ
    pub thoff : ℕ
    pub frag_off : ℕ
    pub skipped : skip p (p.network_offset + 40) (byte_of ip6h 6) ≡ some (thoff, protocol, frag_off)
    pub first : frag_off / 8 ≡ 0
    pub cause : IsTransportCause lists p protocol thoff

  -- The same for IPv6.
  abbrev pub IsCause6 : Lists → Packet → Text → Type 0
  IsCause6 lists p ip6h =
      (take 16 (drop 24 ip6h) ∈ lists.blocked_v6)
      ⊎ ((lists.domains ≢ []) × IsCauseBehind lists p ip6h)

  inspect_domains6 :
      (lists : Lists) (p : Packet) (ip6h : Text)
      → inspect_v6 I skip lists p ip6h ≡ drop_packet
      → is_ipv6_allowed I skip lists.allowed_v6 (take 16 (drop 24 ip6h)) ≡ false
      → is_ipv6_blocked lists.blocked_v6 (take 16 (drop 24 ip6h)) ≡ false
      → (lists.domains ≢ []) × IsCauseBehind lists p ip6h
  unfolding inspect_v6
  inspect_domains6 lists p ip6h h allowed blocked =
      elim (Option-cases (skip p (p.network_offset + 40) (byte_of ip6h 6))) [
        | inl nowhere ↦ absurd (ground (arith, h, allowed, blocked, nowhere))
        | inr ((thoff, protocol, frag_off), found) ↦ (
          ground (arith, h, allowed, blocked),
          record {
            protocol = protocol;
            thoff = thoff;
            frag_off = frag_off;
            skipped = found;
            first = ground (arith, h, allowed, blocked, found);
            cause =
                inspect_transport-cases lists.domains p protocol thoff
                  (ground (arith, h, allowed, blocked, found));
          },
        )
      ]

  inspect_v6-IsCause6 :
      (lists : Lists) (p : Packet) (ip6h : Text)
      → inspect_v6 I skip lists p ip6h ≡ drop_packet
      → (is_ipv6_allowed I skip lists.allowed_v6 (take 16 (drop 24 ip6h)) ≡ false)
        × IsCause6 lists p ip6h
  unfolding inspect_v6 is_ipv6_blocked
  inspect_v6-IsCause6 lists p ip6h h =
      let daddr = take 16 (drop 24 ip6h) in
      elim (Bool-cases (is_ipv6_allowed I skip lists.allowed_v6 daddr)) [
        | inl allowed ↦ absurd (ground (arith, h, allowed))
        | inr other ↦ elim (Bool-cases (is_ipv6_blocked lists.blocked_v6 daddr)) [
          | inl blocked ↦ (other, inl ((contains_iff lists.blocked_v6 daddr).0 blocked))
          | inr free ↦ (other, inr (inspect_domains6 lists p ip6h h other free))
        ]
      ]

  -- Why a packet of a family is dropped.
  abbrev pub Cause : Family → Lists → Packet → Type 0
  Cause ipv4 lists p = IsDropped4 lists p
  Cause ipv6 lists p =
      (ip6h : Text) × ((skb_header_pointer p p.network_offset 40 ≡ some ip6h)
        × ((is_ipv6_allowed I skip lists.allowed_v6 (take 16 (drop 24 ip6h)) ≡ false)
            × IsCause6 lists p ip6h))
  Cause other_family lists p = ⊥

  -- A packet is dropped only while a session runs, if it is of IPv4 or IPv6 with a whole header
  -- and no network allows its destination, and for a cause: its destination is a blocked
  -- address, or there are blocked domains, it is no later fragment, and the transport header
  -- that the IP headers announce is that of UDP to port 443, or that of TCP without RST, with a
  -- ClientHello behind it for a host that is one of the domains or lies within one.
  pub kblocker_hook-Cause :
      (enabled : Bool) (family : Family) (lists : Lists) (p : Packet)
      → kblocker_hook I skip enabled family lists p ≡ drop_packet
      → (enabled ≡ true) × Cause family lists p
  unfolding kblocker_hook kblocker_hook_v6
  kblocker_hook-Cause false family lists p h = absurd (cc)
  kblocker_hook-Cause true other_family lists p h = absurd (cc)
  kblocker_hook-Cause true ipv4 lists p h = (refl, kblocker_hook_v4-IsDropped4 lists p h)
  kblocker_hook-Cause true ipv6 lists p h =
      elim (Option-cases (skb_header_pointer p p.network_offset 40)) [
        | inl short ↦ absurd (ground (arith, h, short))
        | inr (ip6h, header) ↦
            (refl, (ip6h, (header, inspect_v6-IsCause6 lists p ip6h (ground (arith, h, header)))))
      ]
