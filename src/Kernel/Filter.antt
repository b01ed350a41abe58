-- ===== src/Kernel/Filter.antt =====
-- src/netfilter.c: what the module drops of the packets that leave the machine or are forwarded. A
-- packet is its bytes, with the offset of its network header; skb_header_pointer and skb_copy_bits
-- give the bytes at an offset if the packet has them. Memory does not run out.
pub mod Tcp
pub mod Segments
pub mod Reasons
pub mod Dropped
pub mod Addresses
use Prim.Native.Nat.{bit_and}
use kblocker.Base.{
  ℕ, ◌+◌, ◌-◌, ◌*◌, ◌/◌, ◌%◌, ◌==◌, ◌||◌, not, Bool, true, false, Option, none, some, List, [], ◌∷◌,
  Text, length, take, drop, ltb, leb, is_empty, text_eq, contains, if◌then◌else◌,
}
use kblocker.Base.Parts.{get_elem?}
use kblocker.Kernel.Names.{domain_list_contains}
use kblocker.Kernel.Hello.{name, kb_sni_extract}
use kblocker.Kernel.Lists.{Inet, Net4, Net6, Lists}

pub data Verdict : Type 0 where
  accept drop_packet : Verdict

pub data Family : Type 0 where
  ipv4 ipv6 other_family : Family

pub record Packet : Type 0 where
  pub bytes : Text
  pub network_offset : ℕ

-- The `n` bytes at an offset.
unfoldable pub skb_header_pointer : Packet → ℕ → ℕ → Option Text
skb_header_pointer p off n =
    if ltb (length p.bytes) (off + n) then none else some (take n (drop off p.bytes))

-- A field of a header, which has the bytes: one byte, two, or four.
unfoldable pub byte_of : Text → ℕ → ℕ
byte_of header i = elim (get_elem? header i) [ none ↦ 0 | some b ↦ b ]

unfoldable pub u16_of : Text → ℕ → ℕ
u16_of header i = byte_of header i * 256 + byte_of header (i + 1)

unfoldable pub u32_of : Text → ℕ → ℕ
u32_of header i = u16_of header i * 65536 + u16_of header (i + 2)

unfoldable pub is_ip_blocked : List ℕ → ℕ → Bool
is_ip_blocked [] addr = false
is_ip_blocked (a ∷ ips) addr = a == addr || is_ip_blocked ips addr

unfoldable pub is_ipv6_blocked : List Text → Text → Bool
is_ipv6_blocked ips addr = contains ips addr

unfoldable pub is_ip_allowed : List Net4 → ℕ → Bool
is_ip_allowed [] addr = false
is_ip_allowed (n ∷ ns) addr = bit_and addr n.mask == n.addr || is_ip_allowed ns addr

-- The ClientHello in a record, against the list of domains. MAX_DOMAIN_LEN is 256.
unfoldable pub sni_matches_blocked : List Text → Text → Bool
sni_matches_blocked domains bytes = elim (kb_sni_extract bytes 256) [
  | name t ↦ domain_list_contains t domains
  | _ ↦ false
]

-- How many bytes of a record are looked at: what the packet has of it, of at most 5 + 16384.
unfoldable pub copied_length : Packet → ℕ → Text → ℕ
copied_length p doff hdr =
    let present = length p.bytes - doff in
    let wanted = 5 + u16_of hdr 3 in
    let copy = if ltb present wanted then present else wanted in
    if ltb 16389 copy then 16389 else copy

-- The end of `inspect_tcp`, with the offset of the payload.
unfoldable pub inspect_payload : List Text → Packet → ℕ → Verdict
inspect_payload domains p doff =
    if leb (length p.bytes) doff then accept else elim (skb_header_pointer p doff 6) [
      | none ↦ accept
      | some hdr ↦
          if not (byte_of hdr 0 == 0x16) || not (byte_of hdr 5 == 0x01)
          then accept
          else elim (skb_header_pointer p doff (copied_length p doff hdr)) [
            | none ↦ accept
            | some buf ↦ if sni_matches_blocked domains buf then drop_packet else accept
          ]
    ]

-- The bit RST of a TCP header, and the length of the header in words.
unfoldable pub is_reset : Text → Bool
is_reset th = byte_of th 13 / 4 % 2 == 1

unfoldable pub data_offset : Text → ℕ
data_offset th = byte_of th 12 / 16

unfoldable pub inspect_tcp : List Text → Packet → ℕ → Verdict
inspect_tcp domains p thoff = elim (skb_header_pointer p thoff 20) [
  | none ↦ accept
  | some th ↦
      if is_reset th || ltb (data_offset th) 5
      then accept
      else inspect_payload domains p (thoff + data_offset th * 4)
]

unfoldable pub inspect_udp : Packet → ℕ → Verdict
inspect_udp p thoff = elim (skb_header_pointer p thoff 8) [
  | none ↦ accept
  | some uh ↦ if u16_of uh 2 == 443 then drop_packet else accept
]

-- The protocol of the transport header at an offset.
unfoldable pub inspect_transport : List Text → Packet → ℕ → ℕ → Verdict
inspect_transport domains p protocol thoff =
    if protocol == 6
    then inspect_tcp domains p thoff
    else if protocol == 17
    then inspect_udp p thoff
    else accept

unfoldable pub inspect_v4 : Lists → Packet → Text → Verdict
inspect_v4 lists p iph =
    let daddr = u32_of iph 16 in
    if is_ip_allowed lists.allowed_v4 daddr
    then accept
    else if is_ip_blocked lists.blocked_v4 daddr
    then drop_packet
    else elim lists.domains [
      | [] ↦ accept
      | _ ↦
          if not (u16_of iph 6 % 8192 == 0)
          then accept
          else inspect_transport lists.domains p (byte_of iph 9)
              (p.network_offset + byte_of iph 0 % 16 * 4)
    ]

unfoldable pub kblocker_hook_v4 : Lists → Packet → Verdict
kblocker_hook_v4 lists p = elim (skb_header_pointer p p.network_offset 20) [
  | none ↦ accept
  | some iph ↦ if ltb (byte_of iph 0 % 16) 5 then accept else inspect_v4 lists p iph
]

module _ (I : Inet) (ipv6_skip_exthdr : Packet → ℕ → ℕ → Option (ℕ × ℕ × ℕ)) where
  open I use {ipv6_prefix_equal}

  unfoldable pub is_ipv6_allowed : List Net6 → Text → Bool
  is_ipv6_allowed [] addr = false
  is_ipv6_allowed (n ∷ ns) addr = ipv6_prefix_equal addr n.addr n.plen || is_ipv6_allowed ns addr

  -- `ipv6_skip_exthdr` gives the offset and the protocol of the transport header and the fragment's
  -- field, or `none` for a negative offset.
  unfoldable pub inspect_v6 : Lists → Packet → Text → Verdict
  inspect_v6 lists p ip6h =
      let daddr = take 16 (drop 24 ip6h) in
      if is_ipv6_allowed lists.allowed_v6 daddr
      then accept
      else if is_ipv6_blocked lists.blocked_v6 daddr
      then drop_packet
      else elim lists.domains [
        | [] ↦ accept
        | _ ↦ elim (ipv6_skip_exthdr p (p.network_offset + 40) (byte_of ip6h 6)) [
          | none ↦ accept
          | some (thoff, protocol, frag_off) ↦
              if not (frag_off / 8 == 0)
              then accept
              else inspect_transport lists.domains p protocol thoff
        ]
      ]

  unfoldable pub kblocker_hook_v6 : Lists → Packet → Verdict
  kblocker_hook_v6 lists p = elim (skb_header_pointer p p.network_offset 40) [
    | none ↦ accept
    | some ip6h ↦ inspect_v6 lists p ip6h
  ]

  unfoldable pub kblocker_hook : Bool → Family → Lists → Packet → Verdict
  kblocker_hook enabled family lists p =
      if enabled
      then (elim family [
        | ipv4 ↦ kblocker_hook_v4 lists p
        | ipv6 ↦ kblocker_hook_v6 lists p
        | other_family ↦ accept
      ])
      else accept
